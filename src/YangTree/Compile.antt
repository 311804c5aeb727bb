-- ===== src/YangTree/Compile.antt =====
-- internal/yangtree/node.go: a tree from an instance and the leaves of its schema.
use go_lab_netconf.Base.{List, some}
use go_lab_netconf.Datastore.Yang.{Result, ok, ◌>>=◌}
use go_lab_netconf.YangTree.Value.{Floats, Fields, clone_fields}
use go_lab_netconf.YangTree.Path.{Unicode}
use go_lab_netconf.YangTree.Schema.{Regexps}
use go_lab_netconf.YangTree.Schema.Build.{SchemaLeaf, new_schema}
use go_lab_netconf.YangTree.Node.{Node}

module _ (F : Floats) (U : Unicode) (R : Regexps) where
  -- `Compile`; a nil instance is an empty one.
  unfoldable pub compile : Fields F → List SchemaLeaf → Result (Node F R)
  unfolding new_schema
  compile instance_map leaves = new_schema F U R leaves >>= λ s.
      ok (record { schema = some s; root = some (clone_fields F instance_map) })
