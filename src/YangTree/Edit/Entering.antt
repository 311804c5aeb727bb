-- ===== src/YangTree/Edit/Entering.antt =====
-- internal/yangtree/edit.go: a write below a cursor, and what is read there afterwards.
use go_lab_netconf.Base.{
  Bool, true, false, List, [], ◌∷◌, Option, some, ◌≡◌, refl, sym, ap, subst, ◌∙◌, inl, inr,
  Option-cases, if◌then◌else◌, All,
}
use go_lab_netconf.Datastore.Yang.{Result, ok, err, ◌>>=◌}
use go_lab_netconf.YangTree.Value.{Floats, Value, mapping, Fields, end, as_map, field_at, put_field}
use go_lab_netconf.YangTree.Value.Access.{field_at-put, bytes_eq_self}
use go_lab_netconf.YangTree.Path.{Segment, InstancePath}
use go_lab_netconf.YangTree.Lists.{Sprint}
use go_lab_netconf.YangTree.Reads.{plain_step, walk_step, walk_segments, walk_get}
use go_lab_netconf.YangTree.Edit.{
  Cursor, module_cursor, no_path, under, plain_cursor, descend_map, descend,
}

-- No segment has the keys of a list entry.
abbrev pub Keyless : List Segment → Type 0
Keyless = All (λ seg. seg.keys ≡ [])

module _ (F : Floats) (sprint : Sprint F) where
  walk_step-put :
      (seg : Segment) (v : Value F) (m : Fields F)
      → seg.keys ≡ []
      → walk_step F sprint seg (mapping (put_field F seg.name v m)) ≡ some v
  unfolding walk_step plain_step
  walk_step-put seg v m plain =
      rw
        (
          walk_step,
          plain,
          plain_step,
          field_at-put F seg.name seg.name v m,
          bytes_eq_self F seg.name,
        )
        refl

  walk_segments-put :
      (seg : Segment) (segs : List Segment) (v : Value F) (m : Fields F)
      → seg.keys ≡ []
      → walk_segments F sprint (seg ∷ segs) (mapping (put_field F seg.name v m))
        ≡ walk_segments F sprint segs v
  unfolding walk_segments
  walk_segments-put seg segs v m plain = rw (walk_segments, walk_step-put seg v m plain) refl

  -- A cursor at an entry of a map that stands in the place of the value at `cur`.
  abbrev pub Entered : Cursor F → Segment → Result (Cursor F) → Type 0
  Entered cur seg (err e) = Unit
  Entered cur seg (ok next) = (m : Fields F) × (v : Value F) × (next ≡ under F cur m seg.name v)

  Entered-or_err :
      (cur : Cursor F) (seg : Segment) (b : Bool) (r : Result (Cursor F))
      → Entered cur seg r
      → Entered cur seg (if b then r else err no_path)
  Entered-or_err cur seg true r q = q
  Entered-or_err cur seg false r q = _

  plain_cursor-Entered :
      (cur : Cursor F) (m : Fields F) (seg : Segment) (create : Bool)
      → Entered cur seg (plain_cursor F cur m seg.name create)
  unfolding plain_cursor
  plain_cursor-Entered cur m seg create = elim (Option-cases (field_at F seg.name m)) [
    | inl e ↦
        rw (Entered, e)
          (Entered-or_err cur seg create (ok (under F cur m seg.name (mapping end)))
            (m, mapping end, refl))
    | inr (v, e) ↦ rw (Entered, e) (m, v, refl)
  ]

  descend_map-Entered :
      (cur : Cursor F) (m : Fields F) (seg : Segment) (create : Bool)
      → seg.keys ≡ []
      → Entered cur seg (descend_map F sprint cur m seg create)
  unfolding descend_map
  descend_map-Entered cur m seg create plain =
      rw (Entered, plain) (plain_cursor-Entered cur m seg create)

  pub descend-Entered :
      (cur : Cursor F) (seg : Segment) (create : Bool)
      → seg.keys ≡ []
      → Entered cur seg (descend F sprint cur seg create)
  unfolding descend
  descend-Entered cur seg create plain = elim (Option-cases (as_map F cur.get)) [
    | inl e ↦
        rw (Entered, e)
          (Entered-or_err cur seg create (descend_map F sprint cur end seg create)
            (descend_map-Entered cur end seg create plain))
    | inr (m, e) ↦ rw (Entered, e) (descend_map-Entered cur m seg create plain)
  ]

  -- An edit below a cursor after which `Post` holds of what is read at the segments.
  module _ (Post : Option (Value F) → Type 0) where
    abbrev pub ReadsBack : List Segment → Cursor F → Result (Fields F) → Type 0
    ReadsBack segs cur (err e) = Unit
    ReadsBack segs cur (ok root) =
        (v : Value F) × (root ≡ cur.set v) × Post (walk_segments F sprint segs v)

    pub ReadsBack-under :
        (cur next : Cursor F) (m : Fields F) (v : Value F) (seg : Segment) (segs : List Segment)
        (r : Result (Fields F))
        → seg.keys ≡ []
        → next ≡ under F cur m seg.name v
        → ReadsBack segs next r
        → ReadsBack (seg ∷ segs) cur r
    ReadsBack-under cur next m v seg segs (err e) plain same q = _
    ReadsBack-under cur next m v seg segs (ok root) plain same (w, written, post) = (
      mapping (put_field F seg.name w m),
      written ∙ ap (λ c. c.set w) same,
      subst Post (sym (walk_segments-put seg segs w m plain)) post,
    )

    pub ReadsBack-descend :
        (cur : Cursor F) (seg : Segment) (segs : List Segment) (r : Result (Cursor F))
        (k : Cursor F → Result (Fields F))
        → seg.keys ≡ []
        → Entered cur seg r
        → ((next : Cursor F) → ReadsBack segs next (k next))
        → ReadsBack (seg ∷ segs) cur (r >>= k)
    ReadsBack-descend cur seg segs (err e) k plain entered later = _
    ReadsBack-descend cur seg segs (ok next) k plain (m, v, same) later =
        ReadsBack-under cur next m v seg segs (k next) plain same (later next)

    pub ReadsBack-after {ℓ} :
        {A : Type ℓ} (cur : Cursor F) (segs : List Segment) (r : Result A)
        (k : A → Result (Fields F))
        → ((a : A) → ReadsBack segs cur (k a))
        → ReadsBack segs cur (r >>= k)
    ReadsBack-after cur segs (err e) k later = _
    ReadsBack-after cur segs (ok a) k later = later a

    -- The same of a path from the root.
    abbrev pub ReadIn : InstancePath → Result (Fields F) → Type 0
    ReadIn p (err e) = Unit
    ReadIn p (ok root) = Post (walk_get F sprint p root)

    walk_get-put :
        (p : InstancePath) (v : Value F) (root : Fields F)
        → walk_get F sprint p (put_field F p.module_name v root)
          ≡ walk_segments F sprint p.segments v
    unfolding walk_get
    walk_get-put p v root =
        rw
          (
            walk_get,
            field_at-put F p.module_name p.module_name v root,
            bytes_eq_self F p.module_name,
          )
          refl

    pub ReadIn-module :
        (p : InstancePath) (root : Fields F) (create : Bool) (r : Result (Fields F))
        → ReadsBack p.segments (module_cursor F root p.module_name create) r
        → ReadIn p r
    unfolding module_cursor
    ReadIn-module p root create (err e) q = _
    ReadIn-module p root create (ok root') (v, written, post) =
        subst Post (sym (ap (walk_get F sprint p) written ∙ walk_get-put p v root)) post
