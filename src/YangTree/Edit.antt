-- ===== src/YangTree/Edit.antt =====
-- internal/yangtree/edit.go: the edits of a tree. The copy that an edit is made on is the tree that it
-- returns. A cursor's `get` and `set` are the value it stands at and the root with another one there;
-- an edit has one cursor at a time, and what it leaves behind is in the `set` of the next.
use go_lab_netconf.Base.{
  ℕ, Bytes, String, str_eq, Bool, true, false, not, ◌&&◌, ◌||◌, List, [], ◌∷◌, Option, none, some,
  length, ◌==◌, if◌then◌else◌,
}
use go_lab_netconf.Base.Int.{ℤ}
use go_lab_netconf.DomainErr.{AnyError, validation_failed, not_found, not_writable}
use go_lab_netconf.Datastore.Yang.{Result, ok, err, ◌>>=◌, ◌>>◌}
use go_lab_netconf.YangTree.Value.{
  Floats, Value, null, slice, mapping, Items, nil, Fields, end, clone, clone_fields, as_map,
  as_slice, field_at, or_null, put_field, remove_field, count_items,
}
use go_lab_netconf.YangTree.Path.{Key, Segment, InstancePath, Unicode, is_root, parse_path}
use go_lab_netconf.YangTree.Schema.{
  Regexps, Check, Schema, ensure, known, read_only, check_value, unknown_path,
}
use go_lab_netconf.YangTree.Schema
use go_lab_netconf.YangTree.Lists.{
  Sprint, append_item, set_item, drop_item, put_keys, entry_with_keys, list_index, merge_values,
  merge_maps,
}
use go_lab_netconf.YangTree.Node.{Node, fields, to_map, validate_value}
use go_lab_netconf.YangTree.Reads.{lookup}
pub mod Modules
pub mod Isolation
pub mod Frame
pub mod Entering
pub mod Readback
pub mod Results
pub mod Siblings
pub mod Apart
pub mod Tests

abbrev pub no_path : AnyError
no_path = not_found "path does not exist"

module _ (F : Floats) where
  pub record Cursor : Type 0 where
    pub get : Value F
    pub set : Value F → Fields F

  abbrev pub map_or_empty : Value F → Fields F
  map_or_empty (mapping m) = m
  map_or_empty _ = end

  -- `moduleCursor`: with `create`, a module that is not there is an empty map.
  unfoldable pub module_cursor : Fields F → Bytes → Bool → Cursor
  module_cursor root m create = record {
    get = elim (field_at F m root) [ some v ↦ v | none ↦ if create then mapping end else null ];
    set = λ v. put_field F m v root;
  }

  -- A cursor at an entry of the map that a cursor stands at.
  abbrev pub under : Cursor → Fields F → Bytes → Value F → Cursor
  under cur m name v = record { get = v; set = λ w. cur.set (mapping (put_field F name w m)) }

  plain_cursor : Cursor → Fields F → Bytes → Bool → Result Cursor
  plain_cursor cur m name create = elim (field_at F name m) [
    | some v ↦ ok (under cur m name v)
    | none ↦ if create then ok (under cur m name (mapping end)) else err no_path
  ]

  -- A cursor at an item of a list of that map.
  abbrev item_cursor : Cursor → Fields F → Bytes → Items F → ℕ → Fields F → Cursor
  item_cursor cur m name xs i entry = record {
    get = mapping entry;
    set = λ w. cur.set (mapping (put_field F name (slice (set_item F i w xs)) m));
  }

  module _ (sprint : Sprint F) where
    listed_cursor : Cursor → Fields F → Segment → Bool → Items F → Result Cursor
    listed_cursor cur m seg create xs =
        let entry = entry_with_keys F seg.keys in
        elim (list_index F sprint xs seg.keys) [
          | some (i, found) ↦ ok (item_cursor cur m seg.name xs i found)
          | none ↦
              if create
              then ok (
                  item_cursor cur m seg.name (append_item F xs (mapping entry)) (count_items F xs)
                    entry)
              else err no_path
        ]

    keyed_cursor : Cursor → Fields F → Segment → Bool → Result Cursor
    unfolding listed_cursor
    keyed_cursor cur m seg create = elim (as_slice F (or_null F (field_at F seg.name m))) [
      | some xs ↦ listed_cursor cur m seg create xs
      | none ↦ if create then listed_cursor cur m seg create nil else err no_path
    ]

    descend_map : Cursor → Fields F → Segment → Bool → Result Cursor
    unfolding plain_cursor keyed_cursor
    descend_map cur m seg create = elim seg.keys [
      | [] ↦ plain_cursor cur m seg.name create
      | k ∷ ks ↦ keyed_cursor cur m seg create
    ]

    -- A value that is no map makes room for one.
    unfoldable pub descend : Cursor → Segment → Bool → Result Cursor
    unfolding descend_map
    descend cur seg create = elim (as_map F cur.get) [
      | some m ↦ descend_map cur m seg create
      | none ↦ if create then descend_map cur end seg create else err no_path
    ]

    is_null : Value F → Bool
    is_null null = true
    is_null _ = false

    delete_item : Cursor → Fields F → Segment → Result (Fields F)
    delete_item cur m seg = elim (as_slice F (or_null F (field_at F seg.name m))) [
      | none ↦ err no_path
      | some xs ↦ elim (list_index F sprint xs seg.keys) [
        | none ↦ err no_path
        | some (i, found) ↦
            ok (cur.set (mapping (put_field F seg.name (slice (drop_item F i xs)) m)))
      ]
    ]

    delete_field : Cursor → Fields F → Bytes → Result (Fields F)
    delete_field cur m name = elim (field_at F name m) [
      | none ↦ err no_path
      | some v ↦ ok (cur.set (mapping (remove_field F name m)))
    ]

    delete_last : Cursor → Segment → Result (Fields F)
    unfolding delete_item delete_field
    delete_last cur seg = elim (as_map F cur.get) [
      | none ↦ err no_path
      | some m ↦ elim seg.keys [ [] ↦ delete_field cur m seg.name | k ∷ ks ↦ delete_item cur m seg ]
    ]

    pub delete_below : Cursor → List Segment → Result (Fields F)
    unfolding descend delete_last is_null
    delete_below cur [] = err no_path
    delete_below cur (seg ∷ []) = delete_last cur seg
    delete_below cur (seg ∷ seg' ∷ segs) = do
      next ← descend cur seg false
      ensure (not (is_null next.get)) no_path
      delete_below next (seg' ∷ segs)

    delete_module : Fields F → Bytes → Result (Fields F)
    delete_module root m = elim (field_at F m root) [
      | none ↦ err no_path
      | some v ↦ ok (remove_field F m root)
    ]

    delete_in_module : Fields F → InstancePath → Result (Fields F)
    unfolding delete_below module_cursor is_null
    delete_in_module root p =
        let cur = module_cursor root p.module_name false in
        ensure (not (is_null cur.get)) no_path >> delete_below cur p.segments

    unfoldable pub delete_at : Fields F → InstancePath → Result (Fields F)
    unfolding delete_module delete_in_module
    delete_at root p =
        if is_root p
        then ok end
        else if length p.segments == 0
        then delete_module root p.module_name
        else delete_in_module root p

    module _ (R : Regexps) (s : Option (Schema F R)) where
      check_entry : InstancePath → Value F → Check
      check_entry p v = elim (Schema.lookup F R s p) [
        | none ↦ ok _
        | some e ↦
            ensure (str_eq e.value_from "") (not_writable "leaf is not writable")
            >> check_value F R e v
      ]

      unfoldable pub check_written : InstancePath → Value F → Check
      unfolding check_entry
      check_written p v = elim s [
        | none ↦ ok _
        | some s' ↦ check_entry p v >> validate_value F R (some s') p v
      ]

      unfoldable pub is_scalar_leaf : InstancePath → Bool
      is_scalar_leaf p = elim (Schema.lookup F R s p) [
        | none ↦ false
        | some e ↦ not (str_eq e.typ "list" || str_eq e.typ "container" || str_eq e.typ "leaf-list")
      ]

      module _ (p : InstancePath) (value : Value F) (merge : Bool) where
        next_value : Value F → Value F
        next_value v = if merge then merge_values F sprint v value else clone F value

        -- The check of a value, and its write at the cursor.
        write_checked : Cursor → Value F → Result (Fields F)
        unfolding check_written
        write_checked cur next = check_written p next >> ok (cur.set next)

        entry_value : List Key → Value F → Result (Value F)
        unfolding is_scalar_leaf
        entry_value keys next = elim (as_map F next) [
          | some m ↦ ok (mapping (put_keys F keys m))
          | none ↦
              if is_scalar_leaf p
              then ok next
              else err (validation_failed "list entry requires a container" [])
        ]

        apply_last : Cursor → Segment → Result (Fields F)
        unfolding next_value write_checked entry_value descend
        apply_last cur seg = elim seg.keys [
          | k ∷ ks ↦ do
            entry ← descend cur seg true
            next ← entry_value (k ∷ ks) (next_value entry.get)
            write_checked entry next
          | [] ↦
              let m = map_or_empty cur.get in
              write_checked (under cur m seg.name null)
                (next_value (or_null F (field_at F seg.name m)))
        ]

        pub put_below : Cursor → List Segment → Result (Fields F)
        unfolding apply_last descend write_checked next_value
        put_below cur [] = write_checked cur (next_value cur.get)
        put_below cur (seg ∷ []) = apply_last cur seg
        put_below cur (seg ∷ seg' ∷ segs) = do
          next ← descend cur seg true
          put_below next (seg' ∷ segs)

        put_root : Fields F → Result (Fields F)
        unfolding check_written
        put_root root = elim (as_map F value) [
          | none ↦ err (validation_failed "root write requires a container" [])
          | some m ↦
              let next = if merge then merge_maps F sprint root m else clone_fields F m in
              check_written p (mapping next) >> ok next
        ]

        unfoldable pub put : Fields F → Result (Fields F)
        unfolding put_root put_below module_cursor
        put root =
            if is_root p
            then put_root root
            else put_below (module_cursor root p.module_name true) p.segments

    module _ (R : Regexps) (uptime : ℤ) where
      -- What `Apply` writes: a value, or a tree, from which it takes the value at the path.
      pub data Written : Type 0 where
        plain : Value F → Written
        tree : Node F R → Written

      unfoldable pub value_of : InstancePath → Written → Value F
      value_of p (plain v) = v
      value_of p (tree n) =
          if is_root p
          then mapping (to_map F R n)
          else elim (lookup F sprint R uptime n p) [ some v ↦ v | none ↦ mapping (to_map F R n) ]

      is_unknown : Option (Schema F R) → InstancePath → Bool
      is_unknown none p = false
      is_unknown (some s) p = not (known F R (some s) p)

      pub mutate : String → InstancePath → Value F → Node F R → Result (Fields F)
      unfolding put delete_at
      mutate op p v n =
          let root = to_map F R n in
          if str_eq op "merge" || str_eq op ""
          then put R n.schema p v true root
          else if str_eq op "replace"
          then put R n.schema p v false root
          else if str_eq op "delete"
          then delete_at root p
          else err (validation_failed "unsupported operation" [])

      -- `apply`
      unfoldable pub apply_path : String → InstancePath → Written → Node F R → Result (Node F R)
      unfolding value_of is_unknown mutate
      apply_path op p w n = do
        ensure (not (is_unknown n.schema p)) (unknown_path p)
        ensure (str_eq op "delete" || not (read_only F R n.schema p))
            (not_writable "leaf is not writable")
        root ← mutate op p (value_of p w) n
        ok (record { schema = n.schema; root = some root })

      -- `Apply`
      unfoldable pub apply : Unicode → String → Bytes → Written → Node F R → Result (Node F R)
      unfolding apply_path
      apply U op path w n = do p ← parse_path U path; apply_path op p w n
