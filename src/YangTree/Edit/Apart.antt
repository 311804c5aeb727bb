-- ===== src/YangTree/Edit/Apart.antt =====
-- internal/yangtree/edit.go: what an edit leaves as it is in its own module.
use go_lab_netconf.Base.{
  Bytes, String, str_eq, Bool, Bool-cases, true, false, ◌||◌, List, [], ◌∷◌, Option, none, some,
  length, ◌==◌, ◌≡◌, refl, sym, ap, subst, ◌∙◌, inl, inr, Option-cases, arith, if◌then◌else◌,
}
use go_lab_netconf.Base.Int.{ℤ}
use go_lab_netconf.Datastore.Yang.{Result, ok, err, ◌>>=◌}
use go_lab_netconf.YangTree.Value.{
  Floats, Value, null, mapping, Fields, end, as_map, field_at, remove_field,
}
use go_lab_netconf.YangTree.Value.Laws.{clone_fields_lem}
use go_lab_netconf.YangTree.Value.Access.{field_at-put, bytes_eq_self}
use go_lab_netconf.YangTree.Path.{Segment, InstancePath, Unicode, is_root, parse_path}
use go_lab_netconf.YangTree.Schema.{Regexps, Schema}
use go_lab_netconf.YangTree.Lists.{Sprint}
use go_lab_netconf.YangTree.Node.{Node, fields, to_map}
use go_lab_netconf.YangTree.Reads.{walk_segments, walk_get}
use go_lab_netconf.YangTree.Edit.{
  Cursor, module_cursor, map_or_empty, under, descend, delete_field, delete_last, delete_below,
  delete_in_module, delete_at, check_written, write_checked, apply_last, put_below, put, Written,
  value_of, mutate, apply,
}
use go_lab_netconf.YangTree.Edit.Entering.{Keyless}
use go_lab_netconf.YangTree.Edit.Siblings.{
  Diverge, walk_from, walk-plain, walk-no_map, SeenAs-map_or_empty, as_map-SeenAs,
  descend-EnteredAs, Beside-remove, KeepsBeside, KeepsBeside-under, KeepsBeside-descend,
  KeepsBeside-after, SeenAs,
}
use go_lab_netconf.YangTree.Edit.Results.{applied, parsed_apply}

module _ (F : Floats) (sprint : Sprint F) where
  delete_field-KeepsBeside :
      (cur : Cursor F) (m : Fields F) (seg : Segment)
      → SeenAs F sprint cur.get m
      → KeepsBeside F sprint (seg ∷ []) cur (delete_field F sprint cur m seg.name)
  unfolding delete_field
  delete_field-KeepsBeside cur m seg seen = elim (Option-cases (field_at F seg.name m)) [
    | inl e ↦ rw (KeepsBeside, e) _
    | inr (v, e) ↦
        rw (KeepsBeside, e)
          (mapping (remove_field F seg.name m), refl, Beside-remove F sprint seg cur.get m seen)
  ]

  delete_last-KeepsBeside :
      (cur : Cursor F) (seg : Segment)
      → seg.keys ≡ []
      → KeepsBeside F sprint (seg ∷ []) cur (delete_last F sprint cur seg)
  unfolding delete_last
  delete_last-KeepsBeside cur seg plain = elim (Option-cases (as_map F cur.get)) [
    | inl e ↦ rw (KeepsBeside, e) _
    | inr (m, e) ↦
        rw (KeepsBeside, e)
          (rw (KeepsBeside, plain)
            (delete_field-KeepsBeside cur m seg (as_map-SeenAs F sprint cur.get (some m) e)))
  ]

  delete_below-KeepsBeside :
      (cur : Cursor F) (segs : List Segment)
      → Keyless segs
      → KeepsBeside F sprint segs cur (delete_below F sprint cur segs)
  unfolding delete_below
  delete_below-KeepsBeside cur [] plain = _
  delete_below-KeepsBeside cur (seg ∷ []) (plain, rest) = delete_last-KeepsBeside cur seg plain
  delete_below-KeepsBeside cur (seg ∷ seg' ∷ segs) (plain, rest) =
      KeepsBeside-descend F sprint cur seg (seg' ∷ segs) (descend F sprint cur seg false) _
        (descend-EnteredAs F sprint cur seg false plain)
        (λ next.
          KeepsBeside-after F sprint (seg' ∷ segs) next _ _
            (λ u. delete_below-KeepsBeside next (seg' ∷ segs) rest))

  module _ (R : Regexps) (s : Option (Schema F R)) (p : InstancePath) (value : Value F)
      (merge : Bool) where
    write_checked-KeepsBeside :
        (cur : Cursor F) (next : Value F)
        → KeepsBeside F sprint [] cur (write_checked F sprint R s p value merge cur next)
    unfolding write_checked
    write_checked-KeepsBeside cur next =
        KeepsBeside-after F sprint [] cur (check_written F sprint R s p next) _
          (λ u. (next, refl, λ qs plain d. absurd d))

    apply_last-KeepsBeside :
        (cur : Cursor F) (seg : Segment)
        → seg.keys ≡ []
        → KeepsBeside F sprint (seg ∷ []) cur (apply_last F sprint R s p value merge cur seg)
    unfolding apply_last
    apply_last-KeepsBeside cur seg plain =
        let m = map_or_empty F cur.get in
        let next = under F cur m seg.name null in
        rw (KeepsBeside, plain)
          (KeepsBeside-under F sprint cur next m null seg [] _ refl
            (SeenAs-map_or_empty F sprint cur.get) (λ qs plain d. absurd d)
            (write_checked-KeepsBeside next _))

    put_below-KeepsBeside :
        (cur : Cursor F) (segs : List Segment)
        → Keyless segs
        → KeepsBeside F sprint segs cur (put_below F sprint R s p value merge cur segs)
    unfolding put_below
    put_below-KeepsBeside cur [] plain = write_checked-KeepsBeside cur _
    put_below-KeepsBeside cur (seg ∷ []) (plain, rest) = apply_last-KeepsBeside cur seg plain
    put_below-KeepsBeside cur (seg ∷ seg' ∷ segs) (plain, rest) =
        KeepsBeside-descend F sprint cur seg (seg' ∷ segs) (descend F sprint cur seg true) _
          (descend-EnteredAs F sprint cur seg true plain)
          (λ next. put_below-KeepsBeside next (seg' ∷ segs) rest)

  -- What a path sees at the cursor of a module that may be missing.
  started :
      (o : Option (Value F)) (create : Bool) (segs qs : List Segment)
      → Keyless qs
      → Diverge segs qs
      → walk_segments F sprint qs
          (elim o [ some v ↦ v | none ↦ if create then mapping end else null ])
        ≡ walk_from F sprint o qs
  unfolding field_at
  started (some v) create segs qs kq d = refl
  started none create [] qs kq d = absurd d
  started none create (s ∷ ss) [] kq d = absurd d
  started none true (s ∷ ss) (q ∷ qs) (plain, rest) d = walk-plain F sprint q qs end plain
  started none false (s ∷ ss) (q ∷ qs) (plain, rest) d = walk-no_map F sprint q qs null plain refl

  module _ (p : InstancePath) (below : is_root p ≡ false) (plain : Keyless p.segments) where
    -- Under the module of the path, the paths that part from it see what they saw.
    abbrev SameApart : Fields F → Fields F → Type 0
    SameApart root root' =
        (qs : List Segment)
        → Keyless qs
        → Diverge p.segments qs
        → walk_from F sprint (field_at F p.module_name root') qs
          ≡ walk_from F sprint (field_at F p.module_name root) qs

    abbrev KeepsApart : Fields F → Result (Fields F) → Type 0
    KeepsApart root (err e) = Unit
    KeepsApart root (ok root') = SameApart root root'

    fresh_module :
        (root : Fields F) (create : Bool) (qs : List Segment)
        → Keyless qs
        → Diverge p.segments qs
        → walk_segments F sprint qs (module_cursor F root p.module_name create).get
          ≡ walk_from F sprint (field_at F p.module_name root) qs
    unfolding module_cursor
    fresh_module root create qs kq d =
        started (field_at F p.module_name root) create p.segments qs kq d

    KeepsApart-module :
        (root : Fields F) (create : Bool) (r : Result (Fields F))
        → KeepsBeside F sprint p.segments (module_cursor F root p.module_name create) r
        → KeepsApart root r
    unfolding module_cursor
    KeepsApart-module root create (err e) q = _
    KeepsApart-module root create (ok root') (w, written, beside) = λ qs kq d.
        ap (λ f. walk_from F sprint (field_at F p.module_name f) qs) written
        ∙ ap (λ o. walk_from F sprint o qs)
            (field_at-put F p.module_name p.module_name w root
              ∙ ap (λ b. if b then some w else field_at F p.module_name root)
                  (bytes_eq_self F p.module_name))
        ∙ beside qs kq d
        ∙ fresh_module root create qs kq d

    walk_get-from :
        (qs : List Segment) (root : Fields F)
        → walk_get F sprint (record p { segments = qs }) root
          ≡ walk_from F sprint (field_at F p.module_name root) qs
    unfolding walk_get
    walk_get-from qs root = elim (Option-cases (field_at F p.module_name root)) [
      | inl e ↦ rw (walk_get, e) refl
      | inr (v, e) ↦ rw (walk_get, e) refl
    ]

    KeepsApart-after {ℓ} :
        {A : Type ℓ} (root : Fields F) (r : Result A) (k : A → Result (Fields F))
        → ((a : A) → KeepsApart root (k a))
        → KeepsApart root (r >>= k)
    KeepsApart-after root (err e) k later = _
    KeepsApart-after root (ok a) k later = later a

    KeepsApart-if :
        (root : Fields F) (b : Bool) (q r : Result (Fields F))
        → KeepsApart root q
        → KeepsApart root r
        → KeepsApart root (if b then q else r)
    KeepsApart-if root true q r left right = left
    KeepsApart-if root false q r left right = right

    -- No path parts from one that is a module alone.
    whole_module :
        (segs : List Segment) (root : Fields F) (r : Result (Fields F))
        → segs ≡ p.segments
        → (length segs == 0) ≡ true
        → KeepsApart root r
    whole_module segs root (err e) same empty = _
    whole_module [] root (ok root') same empty =
        λ qs kq d. absurd (subst (λ ss. Diverge ss qs) (sym same) d)
    whole_module (s ∷ ss) root (ok root') same empty = ground arith

    delete_at-KeepsApart : (root : Fields F) → KeepsApart root (delete_at F sprint root p)
    unfolding delete_at delete_in_module
    delete_at-KeepsApart root =
        let cur = module_cursor F root p.module_name false in
        elim (Bool-cases (length p.segments == 0)) [
          | inl e ↦ whole_module p.segments root _ refl e
          | inr e ↦
              rw (KeepsApart, below)
                (rw (KeepsApart, e)
                  (KeepsApart-after root _ _ (λ u.
                    KeepsApart-module root false _
                      (delete_below-KeepsBeside cur p.segments plain))))
        ]

    module _ (R : Regexps) (uptime : ℤ) where
      put-KeepsApart :
          (s : Option (Schema F R)) (value : Value F) (merge : Bool) (root : Fields F)
          → KeepsApart root (put F sprint R s p value merge root)
      unfolding put
      put-KeepsApart s value merge root =
          rw (KeepsApart, below)
            (KeepsApart-module root true _ (
              put_below-KeepsBeside R s p value merge (module_cursor F root p.module_name true)
                p.segments plain))

      mutate-KeepsApart :
          (op : String) (v : Value F) (n : Node F R)
          → KeepsApart (to_map F R n) (mutate F sprint R uptime op p v n)
      unfolding mutate
      mutate-KeepsApart op v n =
          let root = to_map F R n in
          KeepsApart-if root (str_eq op "merge" || str_eq op "") _ _
            (put-KeepsApart n.schema v true root)
            (KeepsApart-if root (str_eq op "replace") _ _ (put-KeepsApart n.schema v false root)
              (KeepsApart-if root (str_eq op "delete") _ _ (delete_at-KeepsApart root) _))

      -- A successful edit at a path of names leaves what every other path of names of the same module reads,
      -- if the two paths part from each other, so that neither lies below the other.
      pub apply-apart :
          (U : Unicode) (op : String) (path : Bytes) (w : Written F sprint R uptime)
          (n n' : Node F R)
          → parse_path U path ≡ ok p
          → apply F sprint R uptime U op path w n ≡ ok n'
          → (qs : List Segment) → Keyless qs
          → Diverge p.segments qs
          → walk_get F sprint (record p { segments = qs }) (fields F R n')
            ≡ walk_get F sprint (record p { segments = qs }) (fields F R n)
      apply-apart U op path w n n' parsed done qs kq d =
          let path_done =
            parsed_apply F sprint p below plain R uptime U op path w n n' parsed done in
          let (allowed, changed) = applied F sprint p below plain R uptime op w n n' path_done in
          let kept =
            subst (KeepsApart (to_map F R n)) changed
              (mutate-KeepsApart op (value_of F sprint R uptime p w) n) in
          let same = clone_fields_lem F (fields F R n) in
          walk_get-from qs (fields F R n')
          ∙ kept qs kq d
          ∙ ap (λ f. walk_from F sprint (field_at F p.module_name f) qs) same
          ∙ sym (walk_get-from qs (fields F R n))
