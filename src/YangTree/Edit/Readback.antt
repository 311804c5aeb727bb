-- ===== src/YangTree/Edit/Readback.antt =====
-- internal/yangtree/edit.go: what is read at the path of a write, and of a deletion.
use go_lab_netconf.Base.{
  Bool, true, false, List, [], ◌∷◌, Option, none, some, ◌≡◌, refl, inl, inr, Option-cases,
}
use go_lab_netconf.Datastore.Yang.{ok, err, ◌>>◌}
use go_lab_netconf.YangTree.Value.{
  Floats, Value, null, mapping, Fields, as_map, field_at, remove_field,
}
use go_lab_netconf.YangTree.Value.Laws.{clone_lem}
use go_lab_netconf.YangTree.Value.Access.{field_at-remove, bytes_eq_self}
use go_lab_netconf.YangTree.Path.{Segment, InstancePath, is_root}
use go_lab_netconf.YangTree.Schema.{Regexps, Check, Schema}
use go_lab_netconf.YangTree.Lists.{Sprint}
use go_lab_netconf.YangTree.Reads.{plain_step, walk_step, walk_segments}
use go_lab_netconf.YangTree.Edit.{
  Cursor, delete_field, delete_last, delete_below, module_cursor, map_or_empty, under,
  check_written, next_value, write_checked, apply_last, put_below, put,
}
use go_lab_netconf.YangTree.Edit.Entering.{
  Keyless, descend-Entered, ReadsBack, ReadsBack-under, ReadsBack-descend, ReadsBack-after, ReadIn,
  ReadIn-module,
}

module _ (F : Floats) (sprint : Sprint F) where
  module _ (R : Regexps) (s : Option (Schema F R)) (p : InstancePath) (value : Value F)
      (merge : Bool) where
    -- A value that passed the checks, and with a replace the one that was written.
    abbrev pub IsWritten : Option (Value F) → Type 0
    IsWritten o =
        (w : Value F) × (o ≡ some w)
        × (check_written F sprint R s p w ≡ ok _)
        × (merge ≡ false → w ≡ value)

    next_value-replace :
        (v : Value F) → merge ≡ false → next_value F sprint R s p value merge v ≡ value
    unfolding next_value
    next_value-replace v e = rw (next_value, e) (clone_lem F value)

    passed :
        (cur : Cursor F) (next : Value F) (c : Check)
        → check_written F sprint R s p next ≡ c
        → (merge ≡ false → next ≡ value)
        → ReadsBack F sprint IsWritten [] cur (c >> ok (cur.set next))
    unfolding walk_segments
    passed cur next (err e) checked same = _
    passed cur next (ok u) checked same = (next, refl, (next, refl, checked, same))

    write_checked-ReadsBack :
        (cur : Cursor F) (v : Value F)
        → ReadsBack F sprint IsWritten [] cur
            (write_checked F sprint R s p value merge cur (next_value F sprint R s p value merge v))
    unfolding write_checked
    write_checked-ReadsBack cur v =
        let next = next_value F sprint R s p value merge v in
        passed cur next (check_written F sprint R s p next) refl (next_value-replace v)

    apply_last-ReadsBack :
        (cur : Cursor F) (seg : Segment)
        → seg.keys ≡ []
        → ReadsBack F sprint IsWritten
            (seg ∷ [])
            cur
            (apply_last F sprint R s p value merge cur seg)
    unfolding apply_last
    apply_last-ReadsBack cur seg plain =
        let m = map_or_empty F cur.get in
        let next = under F cur m seg.name null in
        rw (ReadsBack, plain)
          (ReadsBack-under F sprint IsWritten cur next m null seg [] _ plain refl
            (write_checked-ReadsBack next _))

    put_below-ReadsBack :
        (cur : Cursor F) (segs : List Segment)
        → Keyless segs
        → ReadsBack F sprint IsWritten segs cur (put_below F sprint R s p value merge cur segs)
    unfolding put_below
    put_below-ReadsBack cur [] plain = write_checked-ReadsBack cur _
    put_below-ReadsBack cur (seg ∷ []) (plain, rest) = apply_last-ReadsBack cur seg plain
    put_below-ReadsBack cur (seg ∷ seg' ∷ segs) (plain, rest) =
        ReadsBack-descend F sprint IsWritten cur seg (seg' ∷ segs) _ _ plain
          (descend-Entered F sprint cur seg true plain)
          (λ next. put_below-ReadsBack next (seg' ∷ segs) rest)

    pub put-ReadIn :
        (root : Fields F)
        → is_root p ≡ false
        → Keyless p.segments
        → ReadIn F sprint IsWritten p (put F sprint R s p value merge root)
    unfolding put
    put-ReadIn root below plain =
        rw (ReadIn, below)
          (ReadIn-module F sprint IsWritten p root true _
            (put_below-ReadsBack (module_cursor F root p.module_name true) p.segments plain))

  abbrev pub IsGone : Option (Value F) → Type 0
  IsGone o = o ≡ none

  walk_segments-remove :
      (seg : Segment) (m : Fields F)
      → seg.keys ≡ []
      → walk_segments F sprint (seg ∷ []) (mapping (remove_field F seg.name m)) ≡ none
  unfolding walk_segments walk_step plain_step
  walk_segments-remove seg m plain =
      rw
        (
          walk_segments,
          walk_step,
          plain,
          plain_step,
          field_at-remove F seg.name seg.name m,
          bytes_eq_self F seg.name,
        )
        refl

  delete_field-ReadsBack :
      (cur : Cursor F) (m : Fields F) (seg : Segment)
      → seg.keys ≡ []
      → ReadsBack F sprint IsGone (seg ∷ []) cur (delete_field F sprint cur m seg.name)
  unfolding delete_field
  delete_field-ReadsBack cur m seg plain = elim (Option-cases (field_at F seg.name m)) [
    | inl e ↦ rw (ReadsBack, e) _
    | inr (v, e) ↦
        rw (ReadsBack, e)
          (mapping (remove_field F seg.name m), refl, walk_segments-remove seg m plain)
  ]

  delete_last-ReadsBack :
      (cur : Cursor F) (seg : Segment)
      → seg.keys ≡ []
      → ReadsBack F sprint IsGone (seg ∷ []) cur (delete_last F sprint cur seg)
  unfolding delete_last
  delete_last-ReadsBack cur seg plain = elim (Option-cases (as_map F cur.get)) [
    | inl e ↦ rw (ReadsBack, e) _
    | inr (m, e) ↦
        rw (ReadsBack, e) (rw (ReadsBack, plain) (delete_field-ReadsBack cur m seg plain))
  ]

  pub delete_below-ReadsBack :
      (cur : Cursor F) (segs : List Segment)
      → Keyless segs
      → ReadsBack F sprint IsGone segs cur (delete_below F sprint cur segs)
  unfolding delete_below
  delete_below-ReadsBack cur [] plain = _
  delete_below-ReadsBack cur (seg ∷ []) (plain, rest) = delete_last-ReadsBack cur seg plain
  delete_below-ReadsBack cur (seg ∷ seg' ∷ segs) (plain, rest) =
      ReadsBack-descend F sprint IsGone cur seg (seg' ∷ segs) _ _ plain
        (descend-Entered F sprint cur seg false plain)
        (λ next.
          ReadsBack-after F sprint IsGone next (seg' ∷ segs) _ _
            (λ u. delete_below-ReadsBack next (seg' ∷ segs) rest))
