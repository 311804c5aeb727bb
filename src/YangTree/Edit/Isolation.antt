-- ===== src/YangTree/Edit/Isolation.antt =====
-- internal/yangtree/edit.go: an edit below a module leaves the other modules as they are.
use go_lab_netconf.Base.{
  Bytes, Bool, true, false, List, [], ◌∷◌, Option, ◌≡◌, refl, ◌∙◌, inl, inr, Option-cases,
}
use go_lab_netconf.Datastore.Yang.{Result, ok, err, ◌>>=◌}
use go_lab_netconf.YangTree.Value.{
  Floats, Value, null, slice, mapping, Fields, as_map, as_slice, field_at, or_null, put_field,
  remove_field,
}
use go_lab_netconf.YangTree.Path.{Key, Segment, InstancePath}
use go_lab_netconf.YangTree.Schema.{Regexps, Schema}
use go_lab_netconf.YangTree.Lists.{Sprint, drop_item, list_index}
use go_lab_netconf.YangTree.Edit.{
  Cursor, map_or_empty, under, descend, delete_item, delete_field, delete_last, delete_below,
  check_written, write_checked, apply_last, put_below,
}
use go_lab_netconf.YangTree.Edit.Modules.{Factors, descend-Factors}

module _ (F : Floats) where
  -- An edit whose root is one that the cursor writes.
  abbrev pub WritesAt : Cursor F → Result (Fields F) → Type 0
  WritesAt cur (err e) = Unit
  WritesAt cur (ok root) = (v : Value F) × (root ≡ cur.set v)

  WritesAt-parent :
      (cur next : Cursor F) (g : Value F → Value F) (r : Result (Fields F))
      → ((w : Value F) → next.set w ≡ cur.set (g w))
      → WritesAt next r
      → WritesAt cur r
  WritesAt-parent cur next g (err e) same p = _
  WritesAt-parent cur next g (ok root) same (v, p) = (g v, p ∙ same v)

  WritesAt-descend :
      (cur : Cursor F) (r : Result (Cursor F)) (k : Cursor F → Result (Fields F))
      → Factors F cur r
      → ((next : Cursor F) → WritesAt next (k next))
      → WritesAt cur (r >>= k)
  WritesAt-descend cur (err e) k p later = _
  WritesAt-descend cur (ok next) k (g, same) later =
      WritesAt-parent cur next g (k next) same (later next)

  WritesAt-after {ℓ} :
      {A : Type ℓ} (cur : Cursor F) (r : Result A) (k : A → Result (Fields F))
      → ((a : A) → WritesAt cur (k a))
      → WritesAt cur (r >>= k)
  WritesAt-after cur (err e) k p = _
  WritesAt-after cur (ok a) k p = p a

  module _ (sprint : Sprint F) where
    delete_item-WritesAt :
        (cur : Cursor F) (m : Fields F) (seg : Segment)
        → WritesAt cur (delete_item F sprint cur m seg)
    unfolding delete_item
    delete_item-WritesAt cur m seg =
        elim (Option-cases (as_slice F (or_null F (field_at F seg.name m)))) [
          | inl e ↦ rw (WritesAt, e) _
          | inr (xs, e) ↦ elim (Option-cases (list_index F sprint xs seg.keys)) [
            | inl e' ↦ rw (WritesAt, e) (rw (WritesAt, e') _)
            | inr ((i, found), e') ↦
                rw (WritesAt, e)
                  (rw (WritesAt, e')
                    (mapping (put_field F seg.name (slice (drop_item F i xs)) m), refl))
          ]
        ]

    delete_field-WritesAt :
        (cur : Cursor F) (m : Fields F) (name : Bytes)
        → WritesAt cur (delete_field F sprint cur m name)
    unfolding delete_field
    delete_field-WritesAt cur m name = elim (Option-cases (field_at F name m)) [
      | inl e ↦ rw (WritesAt, e) _
      | inr (v, e) ↦ rw (WritesAt, e) (mapping (remove_field F name m), refl)
    ]

    delete_keyed-WritesAt :
        (cur : Cursor F) (m : Fields F) (seg : Segment) (keys : List Key)
        → WritesAt cur (elim keys [
          | [] ↦ delete_field F sprint cur m seg.name
          | k ∷ ks ↦ delete_item F sprint cur m seg
        ])
    delete_keyed-WritesAt cur m seg [] = delete_field-WritesAt cur m seg.name
    delete_keyed-WritesAt cur m seg (k ∷ ks) = delete_item-WritesAt cur m seg

    delete_last-WritesAt :
        (cur : Cursor F) (seg : Segment) → WritesAt cur (delete_last F sprint cur seg)
    unfolding delete_last
    delete_last-WritesAt cur seg = elim (Option-cases (as_map F cur.get)) [
      | inl e ↦ rw (WritesAt, e) _
      | inr (m, e) ↦ rw (WritesAt, e) (delete_keyed-WritesAt cur m seg seg.keys)
    ]

    pub delete_below-WritesAt :
        (cur : Cursor F) (segs : List Segment) → WritesAt cur (delete_below F sprint cur segs)
    unfolding delete_below
    delete_below-WritesAt cur [] = _
    delete_below-WritesAt cur (seg ∷ []) = delete_last-WritesAt cur seg
    delete_below-WritesAt cur (seg ∷ seg' ∷ segs) =
        WritesAt-descend cur (descend F sprint cur seg false) _
          (descend-Factors F sprint cur seg false)
          (λ next. WritesAt-after next _ _ (λ u. delete_below-WritesAt next (seg' ∷ segs)))

    module _ (R : Regexps) (s : Option (Schema F R)) (p : InstancePath) (value : Value F)
        (merge : Bool) where
      write_checked-WritesAt :
          (cur : Cursor F) (next : Value F)
          → WritesAt cur (write_checked F sprint R s p value merge cur next)
      unfolding write_checked
      write_checked-WritesAt cur next =
          WritesAt-after cur (check_written F sprint R s p next) _ (λ u. (next, refl))

      apply_last-WritesAt :
          (cur : Cursor F) (name : Bytes) (keys : List Key)
          → WritesAt cur
              (apply_last F sprint R s p value merge cur (record { name = name; keys = keys }))
      unfolding apply_last
      apply_last-WritesAt cur name [] =
          let m = map_or_empty F cur.get in
          let next = under F cur m name null in
          WritesAt-parent cur next (λ w. mapping (put_field F name w m)) _ (λ w. refl)
            (write_checked-WritesAt next _)
      apply_last-WritesAt cur name (k ∷ ks) =
          let seg : Segment = record { name = name; keys = k ∷ ks } in
          WritesAt-descend cur (descend F sprint cur seg true) _
            (descend-Factors F sprint cur seg true)
            (λ entry. WritesAt-after entry _ _ (λ next. write_checked-WritesAt entry next))

      pub put_below-WritesAt :
          (cur : Cursor F) (segs : List Segment)
          → WritesAt cur (put_below F sprint R s p value merge cur segs)
      unfolding put_below
      put_below-WritesAt cur [] = write_checked-WritesAt cur _
      put_below-WritesAt cur (seg ∷ []) = apply_last-WritesAt cur seg.name seg.keys
      put_below-WritesAt cur (seg ∷ seg' ∷ segs) =
          WritesAt-descend cur (descend F sprint cur seg true) _
            (descend-Factors F sprint cur seg true) (λ next. put_below-WritesAt next (seg' ∷ segs))
