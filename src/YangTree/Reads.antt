-- ===== src/YangTree/Reads.antt =====
-- internal/yangtree/node.go: the reading of a tree by path, and the dynamic getters.
use go_lab_netconf.Base.{
  Bytes, Bool, true, false, not, ◌&&◌, List, [], ◌∷◌, Option, none, some, length, ◌==◌,
  if◌then◌else◌,
}
use go_lab_netconf.Base.Int.{ℤ}
use go_lab_netconf.Datastore.Yang.{ok, err}
use go_lab_netconf.YangTree.Value.{
  Floats, Value, slice, mapping, Items, nil, cons, Fields, end, field, clone, clone_fields, as_map,
  as_slice, field_at, or_null, put_field,
}
use go_lab_netconf.YangTree.Path.{Segment, InstancePath, Unicode, is_root, root_path, parse_path}
use go_lab_netconf.YangTree.Schema.{Regexps, Schema, known}
use go_lab_netconf.YangTree.Schema
use go_lab_netconf.YangTree.Lists.{Sprint, list_index, keys_for_item, entry_with_keys}
use go_lab_netconf.YangTree.Node.{Node, fields, child_path, entry_path, is_getter, getter_value}

module _ (F : Floats) where
  -- m[name] of a map, and any other value as it is
  list_under : Bytes → Value F → Value F
  list_under name (mapping m) = or_null F (field_at F name m)
  list_under name v = v

  module _ (sprint : Sprint F) where
    keyed_step : Segment → Value F → Option (Value F)
    unfolding list_under
    keyed_step seg cur = elim (as_slice F (list_under seg.name cur)) [
      | none ↦ none
      | some xs ↦ elim (list_index F sprint xs seg.keys) [
        | none ↦ none
        | some (i, m) ↦ some (mapping m)
      ]
    ]

    unfoldable pub plain_step : Segment → Value F → Option (Value F)
    plain_step seg cur = elim (as_map F cur) [ none ↦ none | some m ↦ field_at F seg.name m ]

    -- A round of the loop of `walkGet`.
    unfoldable pub walk_step : Segment → Value F → Option (Value F)
    unfolding keyed_step plain_step
    walk_step seg cur = elim seg.keys [ [] ↦ plain_step seg cur | k ∷ ks ↦ keyed_step seg cur ]

    unfoldable pub walk_segments : List Segment → Value F → Option (Value F)
    unfolding walk_step
    walk_segments [] cur = some cur
    walk_segments (seg ∷ segs) cur = elim (walk_step seg cur) [
      | none ↦ none
      | some next ↦ walk_segments segs next
    ]

    -- `walkGet`
    unfoldable pub walk_get : InstancePath → Fields F → Option (Value F)
    unfolding walk_segments
    walk_get p root = elim (field_at F p.module_name root) [
      | none ↦ none
      | some cur ↦ walk_segments p.segments cur
    ]

    -- The body of a grafted entry, over the entry's keys.
    put_all : Fields F → Fields F → Fields F
    put_all end m = m
    put_all (field k v body) m = put_all body (put_field F k v m)

    abbrev body_of : Value F → Fields F
    body_of (mapping body) = body
    body_of _ = end

    -- What stands under a name: the value, or the maps that lead to it.
    graft_segments : List Segment → Value F → Value F
    unfolding put_all
    graft_segments [] v = v
    graft_segments (seg ∷ segs) v = elim seg.keys [
      | [] ↦ mapping (field seg.name (graft_segments segs v) end)
      | k ∷ ks ↦ mapping (
          field seg.name
            (slice (
              cons
                (mapping (put_all (body_of (graft_segments segs v)) (entry_with_keys F (k ∷ ks))))
                nil))
            end)
    ]

    unfoldable pub graft : InstancePath → Value F → Fields F
    unfolding graft_segments
    graft p v =
        if length p.module_name == 0
        then body_of v
        else field p.module_name (graft_segments p.segments v) end

    module _ (R : Regexps) (uptime : ℤ) where
      module _ (s : Option (Schema F R)) where
        unfoldable mutual
          unfolding is_getter

          pub getters : InstancePath → Value F → Value F
          getters p (mapping fs) = elim (is_getter F R s p) [
            | true ↦ mapping fs
            | false ↦ mapping (getters_fields p fs)
          ]
          getters p (slice xs) = elim (is_getter F R s p) [
            | true ↦ slice xs
            | false ↦ slice (getters_items p xs)
          ]
          getters p v = v

          pub getters_items : InstancePath → Items F → Items F
          getters_items p nil = nil
          getters_items p (cons (mapping m) xs) =
              cons (getters (entry_path p (keys_for_item F sprint m)) (mapping m))
                (getters_items p xs)
          getters_items p (cons x xs) = cons x (getters_items p xs)

          -- The getter of a leaf replaces what the map has there.
          pub getters_fields : InstancePath → Fields F → Fields F
          getters_fields p end = end
          getters_fields p (field k v fs) =
              field k
                (elim (not (length p.module_name == 0) && is_getter F R s (child_path p k)) [
                  | true ↦ getter_value F R uptime (Schema.lookup F R s (child_path p k))
                  | false ↦ getters (child_path p k) v
                ])
                (getters_fields p fs)

      -- `materializeRoot`; without a schema `applyGetters` changes nothing, as no path has an entry.
      unfoldable pub materialize_root : Node F R → Value F
      unfolding getters
      materialize_root n = getters n.schema root_path (mapping (clone_fields F (fields F R n)))

      -- A leaf with a getter is there, whether it is stored or not.
      lookup_known : Node F R → InstancePath → Option (Value F)
      lookup_known n p = elim (is_getter F R n.schema p) [
        | true ↦ some (getter_value F R uptime (Schema.lookup F R n.schema p))
        | false ↦ elim (walk_get p (fields F R n)) [ none ↦ none | some v ↦ some (clone F v) ]
      ]

      is_unknown : Option (Schema F R) → InstancePath → Bool
      is_unknown none p = false
      is_unknown (some s) p = not (known F R (some s) p)

      -- `lookup`
      unfoldable pub lookup : Node F R → InstancePath → Option (Value F)
      unfolding lookup_known is_unknown materialize_root
      lookup n p =
          if is_root p
          then some (materialize_root n)
          else if is_unknown n.schema p
          then none
          else lookup_known n p

      -- `Lookup`
      unfoldable pub lookup_text : Unicode → Bytes → Node F R → Option (Value F)
      unfolding lookup
      lookup_text U path n = elim (parse_path U path) [ err e ↦ none | ok p ↦ lookup n p ]

      abbrev node_of : Node F R → Fields F → Node F R
      node_of n fs = record { schema = n.schema; root = some fs }

      -- `Subtree`
      unfoldable pub subtree : Node F R → InstancePath → Node F R
      unfolding lookup materialize_root graft
      subtree n p =
          if is_root p
          then node_of n (body_of (materialize_root n))
          else elim (lookup n p) [ none ↦ node_of n end | some v ↦ node_of n (graft p v) ]
