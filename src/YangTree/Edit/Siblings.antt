-- ===== src/YangTree/Edit/Siblings.antt =====
-- internal/yangtree/edit.go: an edit and the paths that part from its own.
use go_lab_netconf.Base.{
  Bytes, bytes_eq, bytes_eq_iff, Bool, true, false, List, [], ◌∷◌, Option, none, some, ◌≡◌, ◌≢◌,
  refl, sym, ap, subst, ◌∙◌, ◌⊎◌, inl, inr, Option-cases, arith, if◌then◌else◌,
}
use go_lab_netconf.Datastore.Yang.{Result, ok, err, ◌>>=◌}
use go_lab_netconf.YangTree.Value.{
  Floats, Value, null, text, boolean, number, slice, mapping, Fields, end, as_map, field_at,
  put_field, remove_field,
}
use go_lab_netconf.YangTree.Value.Access.{field_at-put, field_at-remove}
use go_lab_netconf.YangTree.Path.{Segment}
use go_lab_netconf.YangTree.Lists.{Sprint}
use go_lab_netconf.YangTree.Reads.{plain_step, walk_step, walk_segments}
use go_lab_netconf.YangTree.Edit.{
  Cursor, no_path, map_or_empty, under, plain_cursor, descend_map, descend,
}
use go_lab_netconf.YangTree.Edit.Entering.{Keyless}

-- Two lists of names that part from each other below a common beginning.
abbrev pub Diverge : List Segment → List Segment → Type 0
Diverge [] qs = ⊥
Diverge (s ∷ ss) [] = ⊥
Diverge (s ∷ ss) (q ∷ qs) = (s.name ≢ q.name) ⊎ ((s.name ≡ q.name) × Diverge ss qs)

module _ (F : Floats) (sprint : Sprint F) where
  abbrev pub walk_from : Option (Value F) → List Segment → Option (Value F)
  walk_from none qs = none
  walk_from (some v) qs = walk_segments F sprint qs v

  pub walk-plain :
      (q : Segment) (qs : List Segment) (m : Fields F)
      → q.keys ≡ []
      → walk_segments F sprint (q ∷ qs) (mapping m) ≡ walk_from (field_at F q.name m) qs
  unfolding walk_segments walk_step plain_step
  walk-plain q qs m plain = elim (Option-cases (field_at F q.name m)) [
    | inl e ↦ rw (walk_segments, walk_step, plain, plain_step, e) refl
    | inr (v, e) ↦ rw (walk_segments, walk_step, plain, plain_step, e) refl
  ]

  pub walk-no_map :
      (q : Segment) (qs : List Segment) (v : Value F)
      → q.keys ≡ []
      → as_map F v ≡ none
      → walk_segments F sprint (q ∷ qs) v ≡ none
  unfolding walk_segments walk_step plain_step
  walk-no_map q qs v plain e = rw (walk_segments, walk_step, plain, plain_step, e) refl

  -- What a value has under names, as far as walks see it.
  abbrev pub SeenAs : Value F → Fields F → Type 0
  SeenAs v m =
      (q : Segment) (qs : List Segment)
      → q.keys ≡ []
      → walk_segments F sprint (q ∷ qs) v ≡ walk_from (field_at F q.name m) qs

  pub SeenAs-map_or_empty : (v : Value F) → SeenAs v (map_or_empty F v)
  unfolding field_at
  SeenAs-map_or_empty (mapping m) q qs plain = walk-plain q qs m plain
  SeenAs-map_or_empty null q qs plain = walk-no_map q qs null plain refl
  SeenAs-map_or_empty (text s) q qs plain = walk-no_map q qs (text s) plain refl
  SeenAs-map_or_empty (boolean b) q qs plain = walk-no_map q qs (boolean b) plain refl
  SeenAs-map_or_empty (number n) q qs plain = walk-no_map q qs (number n) plain refl
  SeenAs-map_or_empty (slice xs) q qs plain = walk-no_map q qs (slice xs) plain refl

  -- The paths that part from `segs` see in `v` what they see in `w`.
  abbrev pub Beside : List Segment → Value F → Value F → Type 0
  Beside segs v w =
      (qs : List Segment)
      → Keyless qs
      → Diverge segs qs
      → walk_segments F sprint qs v ≡ walk_segments F sprint qs w

  -- One entry of a map is replaced by one that differs along `segs` alone, or it is new.
  Beside-put :
      (seg : Segment) (segs : List Segment) (u v w : Value F) (m : Fields F)
      → SeenAs u m
      → ((qs : List Segment)
          → Keyless qs
          → Diverge segs qs
          → walk_from (field_at F seg.name m) qs ≡ walk_segments F sprint qs v)
      → Beside segs w v
      → Beside (seg ∷ segs) (mapping (put_field F seg.name w m)) u
  Beside-put seg segs u v w m seen old same [] plain d = absurd d
  Beside-put seg segs u v w m seen old same (q ∷ qs) (plain, rest) (inl other) =
      let ne : bytes_eq seg.name q.name ≡ false = ground (arith, bytes_eq_iff seg.name q.name) in
      walk-plain q qs (put_field F seg.name w m) plain
      ∙ ap (λ o. walk_from o qs)
          (field_at-put F seg.name q.name w m
            ∙ ap (λ b. if b then some w else field_at F q.name m) ne)
      ∙ sym (seen q qs plain)
  Beside-put seg segs u v w m seen old same (q ∷ qs) (plain, rest) (inr (name, d)) =
      let eq : bytes_eq seg.name q.name ≡ true = ground (arith, bytes_eq_iff seg.name q.name) in
      walk-plain q qs (put_field F seg.name w m) plain
      ∙ ap (λ o. walk_from o qs)
          (field_at-put F seg.name q.name w m
            ∙ ap (λ b. if b then some w else field_at F q.name m) eq)
      ∙ same qs rest d
      ∙ sym (old qs rest d)
      ∙ ap (λ k. walk_from (field_at F k m) qs) name
      ∙ sym (seen q qs plain)

  pub Beside-remove :
      (seg : Segment) (u : Value F) (m : Fields F)
      → SeenAs u m
      → Beside (seg ∷ []) (mapping (remove_field F seg.name m)) u
  Beside-remove seg u m seen [] plain d = absurd d
  Beside-remove seg u m seen (q ∷ qs) (plain, rest) (inl other) =
      let ne : bytes_eq seg.name q.name ≡ false = ground (arith, bytes_eq_iff seg.name q.name) in
      walk-plain q qs (remove_field F seg.name m) plain
      ∙ ap (λ o. walk_from o qs)
          (field_at-remove F seg.name q.name m
            ∙ ap (λ b. if b then none else field_at F q.name m) ne)
      ∙ sym (seen q qs plain)
  Beside-remove seg u m seen (q ∷ qs) (plain, rest) (inr (name, d)) = absurd d

  abbrev pub map_in : Option (Fields F) → Fields F
  map_in none = end
  map_in (some m) = m

  map_or_empty-as_map : (v : Value F) → map_in (as_map F v) ≡ map_or_empty F v
  map_or_empty-as_map (mapping m) = refl
  map_or_empty-as_map null = refl
  map_or_empty-as_map (text s) = refl
  map_or_empty-as_map (boolean b) = refl
  map_or_empty-as_map (number n) = refl
  map_or_empty-as_map (slice xs) = refl

  pub as_map-SeenAs : (v : Value F) (o : Option (Fields F)) → as_map F v ≡ o → SeenAs v (map_in o)
  as_map-SeenAs v o e =
      subst (SeenAs v) (sym (map_or_empty-as_map v) ∙ ap map_in e) (SeenAs-map_or_empty v)

  -- A cursor at an entry of what its parent's value is seen as.
  abbrev pub EnteredAs : Cursor F → Segment → Result (Cursor F) → Type 0
  EnteredAs cur seg (err e) = Unit
  EnteredAs cur seg (ok next) =
      (m : Fields F) × (v : Value F) × (next ≡ under F cur m seg.name v)
      × SeenAs cur.get m
      × ((q : Segment) (qs : List Segment)
          → q.keys ≡ []
          → walk_from (field_at F seg.name m) (q ∷ qs) ≡ walk_segments F sprint (q ∷ qs) v)

  EnteredAs-or_err :
      (cur : Cursor F) (seg : Segment) (b : Bool) (r : Result (Cursor F))
      → EnteredAs cur seg r
      → EnteredAs cur seg (if b then r else err no_path)
  EnteredAs-or_err cur seg true r q = q
  EnteredAs-or_err cur seg false r q = _

  plain_cursor-EnteredAs :
      (cur : Cursor F) (m : Fields F) (seg : Segment) (create : Bool)
      → SeenAs cur.get m
      → EnteredAs cur seg (plain_cursor F cur m seg.name create)
  unfolding plain_cursor field_at
  plain_cursor-EnteredAs cur m seg create seen = elim (Option-cases (field_at F seg.name m)) [
    | inl e ↦
        rw (EnteredAs, e)
          (EnteredAs-or_err cur seg create (ok (under F cur m seg.name (mapping end))) (
            m,
            mapping end,
            refl,
            seen,
            λ q qs plain. ap (λ o. walk_from o (q ∷ qs)) e ∙ sym (walk-plain q qs end plain),
          ))
    | inr (v, e) ↦
        rw (EnteredAs, e) (m, v, refl, seen, λ q qs plain. ap (λ o. walk_from o (q ∷ qs)) e)
  ]

  pub descend-EnteredAs :
      (cur : Cursor F) (seg : Segment) (create : Bool)
      → seg.keys ≡ []
      → EnteredAs cur seg (descend F sprint cur seg create)
  unfolding descend descend_map
  descend-EnteredAs cur seg create plain = elim (Option-cases (as_map F cur.get)) [
    | inl e ↦
        rw (EnteredAs, e)
          (EnteredAs-or_err cur seg create (descend_map F sprint cur end seg create) (
            rw (EnteredAs, plain)
              (plain_cursor-EnteredAs cur end seg create (as_map-SeenAs cur.get none e))))
    | inr (m, e) ↦
        rw (EnteredAs, e)
          (rw (EnteredAs, plain)
            (plain_cursor-EnteredAs cur m seg create (as_map-SeenAs cur.get (some m) e)))
  ]

  -- An edit below a cursor after which the paths that part from `segs` see what they saw.
  abbrev pub KeepsBeside : List Segment → Cursor F → Result (Fields F) → Type 0
  KeepsBeside segs cur (err e) = Unit
  KeepsBeside segs cur (ok root) = (w : Value F) × (root ≡ cur.set w) × Beside segs w cur.get

  pub KeepsBeside-under :
      (cur next : Cursor F) (m : Fields F) (v : Value F) (seg : Segment) (segs : List Segment)
      (r : Result (Fields F))
      → next ≡ under F cur m seg.name v
      → SeenAs cur.get m
      → ((qs : List Segment)
          → Keyless qs
          → Diverge segs qs
          → walk_from (field_at F seg.name m) qs ≡ walk_segments F sprint qs v)
      → KeepsBeside segs next r
      → KeepsBeside (seg ∷ segs) cur r
  KeepsBeside-under cur next m v seg segs (err e) same seen old kept = _
  KeepsBeside-under cur next m v seg segs (ok root) same seen old (w, written, beside) = (
    mapping (put_field F seg.name w m),
    written ∙ ap (λ c. c.set w) same,
    Beside-put seg segs cur.get v w m seen old (subst (λ c. Beside segs w c.get) same beside),
  )

  parted :
      (segs : List Segment) (m : Fields F) (v : Value F) (name : Bytes)
      → ((q : Segment) (qs : List Segment)
          → q.keys ≡ []
          → walk_from (field_at F name m) (q ∷ qs) ≡ walk_segments F sprint (q ∷ qs) v)
      → (qs : List Segment) → Keyless qs
      → Diverge segs qs
      → walk_from (field_at F name m) qs ≡ walk_segments F sprint qs v
  parted [] m v name old qs plain d = absurd d
  parted (s ∷ ss) m v name old [] plain d = absurd d
  parted (s ∷ ss) m v name old (q ∷ qs) (plain, rest) d = old q qs plain

  pub KeepsBeside-descend :
      (cur : Cursor F) (seg : Segment) (segs : List Segment) (r : Result (Cursor F))
      (k : Cursor F → Result (Fields F))
      → EnteredAs cur seg r
      → ((next : Cursor F) → KeepsBeside segs next (k next))
      → KeepsBeside (seg ∷ segs) cur (r >>= k)
  KeepsBeside-descend cur seg segs (err e) k entered later = _
  KeepsBeside-descend cur seg segs (ok next) k (m, v, same, seen, old) later =
      KeepsBeside-under cur next m v seg segs (k next) same seen (parted segs m v seg.name old)
        (later next)

  pub KeepsBeside-after {ℓ} :
      {A : Type ℓ} (segs : List Segment) (cur : Cursor F) (r : Result A) (k : A → Result (Fields F))
      → ((a : A) → KeepsBeside segs cur (k a))
      → KeepsBeside segs cur (r >>= k)
  KeepsBeside-after segs cur (err e) k later = _
  KeepsBeside-after segs cur (ok a) k later = later a
