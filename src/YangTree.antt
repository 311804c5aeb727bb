-- ===== src/YangTree.antt =====
-- internal/yangtree: configuration trees that are addressed by paths and checked against a compact
-- schema. Go strings are byte strings here.
pub mod Value
pub mod Path
pub mod Schema
pub mod Lists
pub mod Node
pub mod Reads
pub mod Edit
pub mod Diff
pub mod AsTree
pub mod Merge
pub mod Tests
pub mod Samples
pub mod Compile
