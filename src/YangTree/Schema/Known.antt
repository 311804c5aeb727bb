-- ===== src/YangTree/Schema/Known.antt =====
-- internal/yangtree/schema.go: which paths are known, and which values have an integer type.
use go_lab_netconf.Base.{
  Bytes, bytes_eq, bytes_eq_iff, Bool-cases, true, false, ◌&&◌, ◌||◌, List, [], ◌∷◌, ◌++◌,
  append_assoc, Option, none, some, length, length-append, ◌==◌, ◌≡◌, refl, sym, ap, subst, ◌∙◌,
  inl, inr, arith,
}
use go_lab_netconf.YangTree.Value.{Floats}
use go_lab_netconf.YangTree.Path.{
  Segment, InstancePath, is_root, schema_segments, schema_string, append_segment,
}
use go_lab_netconf.YangTree.Schema.{Regexps, Schema, has_prefix, known_among, known}

has_prefix-append : (s a b : Bytes) → has_prefix s (a ++ b) ≡ true → has_prefix s a ≡ true
unfolding has_prefix
has_prefix-append s [] b p = refl
has_prefix-append [] (c ∷ a) b p = p
has_prefix-append (d ∷ s) (c ∷ a) b p = ground (arith, has_prefix-append s a b)

has_prefix_self : (s : Bytes) → has_prefix s s ≡ true
unfolding has_prefix
has_prefix_self [] = refl
has_prefix_self (c ∷ s) = ground (arith, has_prefix_self s)

-- The schema string of a longer path goes on after a slash.
schema_segments-append :
    (seg : Segment) (segs : List Segment) (last : Segment)
    → schema_segments ((seg ∷ segs) ++ last ∷ [])
      ≡ schema_segments (seg ∷ segs) ++ (b'/' ∷ last.name)
unfolding schema_segments
schema_segments-append seg [] last = refl
schema_segments-append seg (seg' ∷ segs) last =
    rw
      (
        schema_segments-append seg' segs last,
        append_assoc seg.name (b'/' ∷ schema_segments (seg' ∷ segs)) (b'/' ∷ last.name),
      )
      refl

-- A key that the longer path knows has the shorter one's text in front.
below-prefix :
    (key pre t full : Bytes)
    → full ≡ pre ++ t
    → (bytes_eq key full || has_prefix key (full ++ b'/' ∷ [])) ≡ true
    → has_prefix key pre ≡ true
below-prefix key pre t full same p = elim (Bool-cases (bytes_eq key full)) [
  | inl e ↦
      let key_eq : key ≡ full = ground (arith, bytes_eq_iff key full) in
      has_prefix-append key pre t
        (subst (λ u. has_prefix key u ≡ true) (key_eq ∙ same) (has_prefix_self key))
  | inr e ↦
      let longer : has_prefix key (full ++ b'/' ∷ []) ≡ true = ground arith in
      let text = ap (λ u. u ++ b'/' ∷ []) same ∙ append_assoc pre t (b'/' ∷ []) in
      has_prefix-append key pre (t ++ b'/' ∷ []) (subst (λ u. has_prefix key u ≡ true) text longer)
]

module _ (F : Floats) (R : Regexps) where
  -- What `pre` must be for the keys below it to make `p` known.
  abbrev Covers : InstancePath → Bytes → Type 0
  Covers p pre =
      (key : Bytes)
      → has_prefix key pre ≡ true
      → (has_prefix key (schema_string p ++ b'/' ∷ [])
          || (length p.segments == 0 && has_prefix key (schema_string p)))
        ≡ true

  known_among-parent :
      (p q : InstancePath) (pre t : Bytes) (s : Schema F R)
      → (length q.segments == 0) ≡ false
      → schema_string q ≡ pre ++ t
      → Covers p pre
      → known_among F R q s ≡ true
      → known_among F R p s ≡ true
  unfolding known_among
  known_among-parent p q pre t [] longer text covers k = k
  known_among-parent p q pre t ((key, e) ∷ s) longer text covers k =
      elim (Bool-cases
        (bytes_eq key (schema_string q) || has_prefix key (schema_string q ++ b'/' ∷ []))) [
          | inl here ↦
              let under = covers key (below-prefix key pre t (schema_string q) text here) in
              ground arith
          | inr other_key ↦
              let rest : known_among F R q s ≡ true = ground arith in
              let later = known_among-parent p q pre t s longer text covers rest in ground arith
        ]

  schema_string-below :
      (p : InstancePath)
      → is_root p ≡ false
      → schema_string p ≡ p.module_name ++ (b':' ∷ schema_segments p.segments)
  unfolding schema_string
  schema_string-below p below = rw below refl

  -- The text that the keys below a path have in front, and what a longer path has behind it.
  parts :
      (m : Bytes) (segs : List Segment) (last : Segment)
      → let p : InstancePath = record { module_name = m; segments = segs } in
        is_root p ≡ false
        → (pre : Bytes) × (t : Bytes) × (schema_string (append_segment p last) ≡ pre ++ t)
          × Covers p pre
  unfolding schema_segments
  parts m [] last below =
      let p : InstancePath = record { module_name = m; segments = [] } in
      let own = schema_string-below p below in
      let full = schema_string-below (append_segment p last) (ground arith) in
      (
        m ++ b':' ∷ [],
        last.name,
        full ∙ simp append_assoc,
        λ key found.
            let own_prefix : has_prefix key (schema_string p) ≡ true =
              subst (λ u. has_prefix key u ≡ true) (sym own) found in
            ground arith,
      )
  parts m (seg ∷ segs) last below =
      let p : InstancePath = record { module_name = m; segments = seg ∷ segs } in
      let own = schema_string-below p below in
      let full = schema_string-below (append_segment p last) (ground arith) in
      let inner = schema_segments-append seg segs last in
      let spelled : m ++ (b':' ∷ schema_segments ((seg ∷ segs) ++ last ∷ []))
          ≡ (schema_string p ++ b'/' ∷ []) ++ last.name =
        rw (inner, own) (simp append_assoc) in
      (schema_string p ++ b'/' ∷ [], last.name, full ∙ spelled, λ key found. ground arith)

  append_segment-longer :
      (p : InstancePath) (last : Segment) → (length (append_segment p last).segments == 0) ≡ false
  append_segment-longer p last = ground (arith, length-append p.segments (last ∷ []))

  -- If a path is known then so is the path above it.
  pub known-parent :
      (s : Option (Schema F R)) (p : InstancePath) (last : Segment)
      → known F R s (append_segment p last) ≡ true
      → known F R s p ≡ true
  unfolding known
  known-parent none p last k = ground (arith, append_segment-longer p last)
  known-parent (some s) p last k = elim (Bool-cases (is_root p)) [
    | inl top ↦ rw top refl
    | inr below ↦
        let (pre, t, text, covers) = parts p.module_name p.segments last below in
        let longer = append_segment-longer p last in
        let among : known_among F R (append_segment p last) s ≡ true = ground arith in
        let above = known_among-parent p (append_segment p last) pre t s longer text covers among in
        ground arith
  ]
