-- ===== src/YangTree/Node.antt =====
-- internal/yangtree/node.go: the tree, its reading, and the validation of its values.
use go_lab_netconf.Base.{
  ℕ, ◌-◌, ◌%◌, ◌^◌, Bytes, str_eq, Bool, true, false, ◌||◌, List, [], ◌∷◌, Option, none, some,
  length, ltb, ◌==◌, if◌then◌else◌,
}
use go_lab_netconf.Base.Int.{ℤ, pos, negsuc}
use go_lab_netconf.DomainErr.{domain, other, with_violations}
use go_lab_netconf.Datastore.Yang.{ok, err, ◌>>◌}
use go_lab_netconf.YangTree.Value.{
  Floats, Value, number, int, slice, mapping, Items, nil, cons, Fields, end, field, clone_fields,
  equal, is_map,
}
use go_lab_netconf.YangTree.Path.{Key, Segment, InstancePath, root_path, print, append_segment}
use go_lab_netconf.YangTree.Schema.{Regexps, Check, Entry, Schema, known, check_value}
use go_lab_netconf.YangTree.Schema

-- The path of a map's entry: the first name is the module's.
abbrev pub child_path : InstancePath → Bytes → InstancePath
child_path p k =
    if length p.module_name == 0
    then record p { module_name = k }
    else append_segment p (record { name = k; keys = [] })

abbrev pub with_last_keys : List Key → List Segment → List Segment
with_last_keys keys [] = []
with_last_keys keys (seg ∷ []) = record seg { keys = keys } ∷ []
with_last_keys keys (seg ∷ seg' ∷ segs) = seg ∷ with_last_keys keys (seg' ∷ segs)

-- The path of an entry of a list; an entry without keys keeps the list's.
abbrev pub entry_path : InstancePath → List Key → InstancePath
entry_path p [] = p
entry_path p (k ∷ ks) = record p { segments = with_last_keys (k ∷ ks) p.segments }

signed32 : ℕ → ℤ
signed32 m = if ltb m (2 ^ 31) then pos m else negsuc (2 ^ 32 - 1 - m)

-- int32(sec)
wrap_int32 : ℤ → ℤ
unfolding signed32
wrap_int32 (pos n) = signed32 (n % 2 ^ 32)
wrap_int32 (negsuc n) = signed32 (2 ^ 32 - 1 - n % 2 ^ 32)

clamp : ℤ → ℤ
clamp (pos n) = pos n
clamp (negsuc n) = pos 0

module _ (F : Floats) (R : Regexps) where
  -- A nil schema and a nil map are `none`.
  pub record Node : Type 0 where
    pub schema : Option (Schema F R)
    pub root : Option (Fields F)

  abbrev pub fields : Node → Fields F
  fields n = elim n.root [ none ↦ end | some fs ↦ fs ]

  abbrev pub is_zero : Node → Bool
  is_zero n = elim n.schema [
    | some s ↦ false
    | none ↦ elim n.root [ some fs ↦ false | none ↦ true ]
  ]

  abbrev is_end : Fields F → Bool
  is_end end = true
  is_end (field k v fs) = false

  abbrev pub is_empty : Node → Bool
  is_empty n = is_end (fields n)

  -- `Map`
  abbrev pub to_map : Node → Fields F
  to_map n = clone_fields F (fields n)

  abbrev pub clone_node : Node → Node
  clone_node n = record { schema = n.schema; root = some (to_map n) }

  unfoldable pub equal_node : Node → Node → Bool
  equal_node n m = equal F (mapping (fields n)) (mapping (fields m))

  unfoldable pub is_getter : Option (Schema F R) → InstancePath → Bool
  is_getter s p = elim (Schema.lookup F R s p) [
    | none ↦ false
    | some e ↦ str_eq e.value_from "processUptime"
  ]

  unfoldable pub getter_value : ℤ → Option (Entry F R) → Value F
  unfolding wrap_int32 clamp
  getter_value sec none = number (int sec)
  getter_value sec (some e) =
      if str_eq e.typ "uint32" || str_eq e.typ "uint64"
      then number (int (clamp sec))
      else if str_eq e.typ "int32"
      then number (int (wrap_int32 sec))
      else number (int sec)

  -- The children of a value to visit, after a check of the value itself.
  pub data Visit : Type 0 where
    stop : Check → Visit
    below : Check → Visit
    entries : Visit

  with_path : InstancePath → Check → Check
  with_path p (ok r) = ok r
  with_path p (err (domain e)) = err (
      domain (
        with_violations e
          (record { path = print p; code = "invalid_value"; message = e.message } ∷ [])))
  with_path p (err (other s)) = err (other s)

  abbrev is_list_value : Value F → Bool
  is_list_value (slice xs) = true
  is_list_value _ = false

  -- The switch of `validateValue`.
  visit : Option (Schema F R) → InstancePath → Value F → Visit
  unfolding with_path is_getter
  visit s p v = elim (Schema.lookup F R s p) [
    | none ↦ below (ok _)
    | some e ↦
        if str_eq e.typ "list"
        then (if is_list_value v
            then entries
            else if is_map F v
            then below (ok _)
            else stop (check_value F R e v))
        else if str_eq e.typ "container"
        then below (check_value F R e v)
        else if str_eq e.typ "leaf-list"
        then stop (check_value F R e v)
        else if str_eq e.value_from "processUptime"
        then stop (ok _)
        else stop (with_path p (check_value F R e v))
  ]

  module _ (s : Option (Schema F R)) where
    unfoldable mutual
      unfolding visit

      pub validate_value : InstancePath → Value F → Check
      validate_value p (mapping fs) = elim (visit s p (mapping fs)) [
        | stop c ↦ c
        | below c ↦ c >> validate_fields p fs
        | entries ↦ validate_fields p fs
      ]
      validate_value p (slice xs) = elim (visit s p (slice xs)) [
        | stop c ↦ c
        | below c ↦ c >> validate_items p xs
        | entries ↦ validate_entries p xs
      ]
      validate_value p v = elim (visit s p v) [ stop c ↦ c | below c ↦ c | entries ↦ ok _ ]

      pub validate_children : InstancePath → Value F → Check
      validate_children p (mapping fs) = validate_fields p fs
      validate_children p (slice xs) = validate_items p xs
      validate_children p v = ok _

      pub validate_fields : InstancePath → Fields F → Check
      validate_fields p end = ok _
      validate_fields p (field k v fs) = validate_value (child_path p k) v >> validate_fields p fs

      pub validate_items : InstancePath → Items F → Check
      validate_items p nil = ok _
      validate_items p (cons x xs) = validate_value p x >> validate_items p xs

      pub validate_entries : InstancePath → Items F → Check
      validate_entries p nil = ok _
      validate_entries p (cons x xs) = validate_children p x >> validate_entries p xs

  unfoldable pub validate : Node → Check
  unfolding validate_value
  validate n = elim n.schema [
    | none ↦ ok _
    | some s ↦ validate_value (some s) root_path (mapping (fields n))
  ]
