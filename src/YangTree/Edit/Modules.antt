-- ===== src/YangTree/Edit/Modules.antt =====
-- internal/yangtree/edit.go: an edit below a module and the other modules of the tree.
use go_lab_netconf.Base.{
  Bytes, Bool, true, false, List, [], ◌∷◌, ◌≡◌, refl, inl, inr, Option-cases, if◌then◌else◌,
}
use go_lab_netconf.Datastore.Yang.{Result, ok, err}
use go_lab_netconf.YangTree.Value.{
  Floats, Value, slice, mapping, Items, nil, Fields, end, as_map, as_slice, field_at, or_null,
  put_field, count_items,
}
use go_lab_netconf.YangTree.Path.{Key, Segment}
use go_lab_netconf.YangTree.Lists.{Sprint, append_item, set_item, entry_with_keys, list_index}
use go_lab_netconf.YangTree.Edit.{
  Cursor, no_path, under, plain_cursor, item_cursor, listed_cursor, keyed_cursor, descend_map,
  descend,
}

module _ (F : Floats) where
  -- A result whose writes are writes at a cursor.
  abbrev pub Factors : Cursor F → Result (Cursor F) → Type 0
  Factors cur (err e) = Unit
  Factors cur (ok next) = (g : Value F → Value F) × ((w : Value F) → next.set w ≡ cur.set (g w))

  Factors-or_err :
      (cur : Cursor F) (b : Bool) (r : Result (Cursor F))
      → Factors cur r
      → Factors cur (if b then r else err no_path)
  Factors-or_err cur true r p = p
  Factors-or_err cur false r p = _

  plain_cursor-Factors :
      (cur : Cursor F) (m : Fields F) (name : Bytes) (create : Bool)
      → Factors cur (plain_cursor F cur m name create)
  unfolding plain_cursor
  plain_cursor-Factors cur m name create = elim (Option-cases (field_at F name m)) [
    | inl e ↦
        rw (Factors, e)
          (Factors-or_err cur create (ok (under F cur m name (mapping end)))
            (λ w. mapping (put_field F name w m), λ w. refl))
    | inr (v, e) ↦ rw (Factors, e) (λ w. mapping (put_field F name w m), λ w. refl)
  ]

  module _ (sprint : Sprint F) where
    listed_cursor-Factors :
        (cur : Cursor F) (m : Fields F) (seg : Segment) (create : Bool) (xs : Items F)
        → Factors cur (listed_cursor F sprint cur m seg create xs)
    unfolding listed_cursor
    listed_cursor-Factors cur m seg create xs =
        let entry = entry_with_keys F seg.keys in
        let longer = append_item F xs (mapping entry) in
        let at_end = count_items F xs in
        elim (Option-cases (list_index F sprint xs seg.keys)) [
          | inl e ↦
              rw (Factors, e)
                (Factors-or_err cur create (ok (item_cursor F cur m seg.name longer at_end entry)) (
                  λ w. mapping (put_field F seg.name (slice (set_item F at_end w longer)) m),
                  λ w. refl,
                ))
          | inr ((i, found), e) ↦
              rw (Factors, e)
                (λ w. mapping (put_field F seg.name (slice (set_item F i w xs)) m), λ w. refl)
        ]

    keyed_cursor-Factors :
        (cur : Cursor F) (m : Fields F) (seg : Segment) (create : Bool)
        → Factors cur (keyed_cursor F sprint cur m seg create)
    unfolding keyed_cursor
    keyed_cursor-Factors cur m seg create =
        elim (Option-cases (as_slice F (or_null F (field_at F seg.name m)))) [
          | inl e ↦
              rw (Factors, e)
                (Factors-or_err cur create (listed_cursor F sprint cur m seg create nil)
                  (listed_cursor-Factors cur m seg create nil))
          | inr (xs, e) ↦ rw (Factors, e) (listed_cursor-Factors cur m seg create xs)
        ]

    descend_map-Factors :
        (cur : Cursor F) (m : Fields F) (name : Bytes) (keys : List Key) (create : Bool)
        → Factors cur (descend_map F sprint cur m (record { name = name; keys = keys }) create)
    unfolding descend_map
    descend_map-Factors cur m name [] create = plain_cursor-Factors cur m name create
    descend_map-Factors cur m name (k ∷ ks) create =
        keyed_cursor-Factors cur m (record { name = name; keys = k ∷ ks }) create

    -- What a descended cursor writes is what its parent writes of another value.
    pub descend-Factors :
        (cur : Cursor F) (seg : Segment) (create : Bool)
        → Factors cur (descend F sprint cur seg create)
    unfolding descend
    descend-Factors cur seg create = elim (Option-cases (as_map F cur.get)) [
      | inl e ↦
          rw (Factors, e)
            (Factors-or_err cur create (descend_map F sprint cur end seg create)
              (descend_map-Factors cur end seg.name seg.keys create))
      | inr (m, e) ↦ rw (Factors, e) (descend_map-Factors cur m seg.name seg.keys create)
    ]
