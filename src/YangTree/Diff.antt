-- ===== src/YangTree/Diff.antt =====
-- internal/yangtree/node.go: the differences between two trees. `add` and the loop over the pairs write
-- their keys into the segments of the list's path, which they share with it: here the path is passed on
-- as they leave it, except that what a list inside a list writes is not passed back from there.
use go_lab_netconf.Base.{
  ℕ, zero, suc, ◌+◌, Bytes, bytes_eq, String, Bool, true, false, List, [], ◌∷◌, ◌++◌, Option, none,
  some, if◌then◌else◌,
}
use go_lab_netconf.Datastore.Yang.{Change}
use go_lab_netconf.YangTree.Value.{
  Floats, Value, null, slice, mapping, Items, nil, cons, Fields, end, field, equal, field_at,
  or_null,
}
use go_lab_netconf.YangTree.Path.{Key, InstancePath, root_path, print}
use go_lab_netconf.YangTree.Schema.{Regexps}
use go_lab_netconf.YangTree.Lists.{Sprint, stringify, keys_for_item}
use go_lab_netconf.YangTree.Node.{Node, fields, child_path, entry_path}
pub mod Fuel

module _ (F : Floats) where
  -- The number of the constructors of a value, more than the depth of its nesting.
  unfoldable mutual
    pub size : Value F → ℕ
    size (slice xs) = suc (size_items xs)
    size (mapping fs) = suc (size_fields fs)
    size v = 1

    pub size_items : Items F → ℕ
    size_items nil = 1
    size_items (cons x xs) = suc (size x + size_items xs)

    pub size_fields : Fields F → ℕ
    size_fields end = 1
    size_fields (field k v fs) = suc (size v + size_fields fs)

  -- The keys of both maps, those of the first before those that only the second has.
  keys_of : Fields F → List Bytes
  keys_of end = []
  keys_of (field k v fs) = k ∷ keys_of fs

  other_keys : Fields F → Fields F → List Bytes
  other_keys fs end = []
  other_keys fs (field k v gs) = elim (field_at F k fs) [
    | some w ↦ other_keys fs gs
    | none ↦ k ∷ other_keys fs gs
  ]

  -- The items of both lists that have one id.
  pub record Pair : Type 0 where
    pub id : Bytes
    pub keys : List Key
    pub left : Value F
    pub right : Value F

  module _ (sprint : Sprint F) where
    item_keys : Value F → List Key
    item_keys (mapping m) = keys_for_item F sprint m
    item_keys _ = []

    -- `#` and the text of an item without keys
    item_id : InstancePath → Value F → List Key → Bytes
    item_id p item [] = print p ++ (b'#' ∷ stringify F sprint item)
    item_id p item (k ∷ ks) = print (entry_path p (k ∷ ks))

    fresh_pair : Bytes → List Key → Value F → Bool → Pair
    fresh_pair id keys item from_left = record {
      id = id;
      keys = keys;
      left = if from_left then item else null;
      right = if from_left then null else item;
    }

    add_pair : Bytes → List Key → Value F → Bool → List Pair → List Pair
    unfolding fresh_pair
    add_pair id keys item from_left [] = fresh_pair id keys item from_left ∷ []
    add_pair id keys item from_left (pr ∷ prs) =
        let later = add_pair id keys item from_left prs in
        if bytes_eq pr.id id
        then (if from_left then record pr { left = item } else record pr { right = item }) ∷ prs
        else pr ∷ later

    -- `add`, over a list; the path comes back with the keys of the last entry that has some.
    add_items : Bool → Items F → InstancePath × List Pair → InstancePath × List Pair
    unfolding add_pair item_id item_keys
    add_items from_left nil state = state
    add_items from_left (cons item xs) (p, pairs) =
        let keys = item_keys item in
        add_items from_left xs
          (entry_path p keys, add_pair (item_id p item keys) keys item from_left pairs)

    operation : Value F → Value F → String
    operation null b = "create"
    operation a null = "delete"
    operation a b = "replace"

    both_changes : Option (List Change) → Option (List Change) → Option (List Change)
    both_changes none bs = none
    both_changes (some as') none = none
    both_changes (some as') (some bs) = some (as' ++ bs)

    changes_of : Option (List Change) → List Change
    changes_of none = []
    changes_of (some cs) = cs

    walk_keys :
        (InstancePath → Value F → Value F → Option (List Change))
        → InstancePath
        → Fields F
        → Fields F
        → List Bytes
        → Option (List Change)
    unfolding both_changes
    walk_keys walk p fs gs [] = some []
    walk_keys walk p fs gs (k ∷ ks) =
        both_changes
          (walk (child_path p k) (or_null F (field_at F k fs)) (or_null F (field_at F k gs)))
          (walk_keys walk p fs gs ks)

    walk_pairs :
        (InstancePath → Value F → Value F → Option (List Change))
        → InstancePath
        → List Pair
        → Option (List Change)
    unfolding both_changes
    walk_pairs walk p [] = some []
    walk_pairs walk p (pr ∷ prs) =
        let q = entry_path p pr.keys in
        both_changes (walk q pr.left pr.right) (walk_pairs walk q prs)

    both_lists :
        (InstancePath → Value F → Value F → Option (List Change))
        → InstancePath
        → Items F
        → Items F
        → Option (List Change)
    unfolding add_items walk_pairs
    both_lists walk p xs ys =
        let (q, pairs) = add_items false ys (add_items true xs (p, [])) in walk_pairs walk q pairs

    differ :
        (InstancePath → Value F → Value F → Option (List Change))
        → InstancePath
        → Value F
        → Value F
        → Option (List Change)
    unfolding walk_keys both_lists keys_of other_keys operation
    differ walk p (mapping fs) (mapping gs) =
        walk_keys walk p fs gs (keys_of fs ++ other_keys fs gs)
    differ walk p (slice xs) (slice ys) = both_lists walk p xs ys
    differ walk p a b = some (record { path = print p; operation = operation a b } ∷ [])

    -- `diffWalk`, at most `fuel` levels down; none is the lack of fuel.
    unfoldable pub diff_walk : ℕ → InstancePath → Value F → Value F → Option (List Change)
    unfolding differ
    diff_walk zero p a b = none
    diff_walk (suc fuel) p a b = elim (equal F a b) [
      | true ↦ some []
      | false ↦ differ (diff_walk fuel) p a b
    ]

    module _ (R : Regexps) where
      -- `Diff`
      unfoldable pub diff : Node F R → Node F R → List Change
      unfolding diff_walk size changes_of
      diff n m =
          let a = mapping (fields F R n) in
          let b = mapping (fields F R m) in changes_of (diff_walk (size a + size b) root_path a b)
