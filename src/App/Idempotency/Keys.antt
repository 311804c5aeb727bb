-- ===== src/App/Idempotency/Keys.antt =====
-- Lists of addresses whose entries have different keys, as internal/app/idempotency.go keeps them.
use go_lab_netconf.Base.{
  ℕ, String, str_eq, eq_iff, true, false, List, [], ◌∷◌, ◌++◌, map, Option, none, some, ◌≡◌, refl,
  sym, ap, ◌∙◌, arith, Bool-cases, inl, inr, if◌then◌else◌,
}
use go_lab_netconf.App.Idempotency.Chain.{has}
use go_lab_netconf.App.Idempotency.Lru.{Content, find, drop_key}

module _ {Operation : Type 0} (view : ℕ → Content Operation) where
  unfoldable pub find_at : String → List ℕ → Option ℕ
  find_at k [] = none
  find_at k (a ∷ xs) = if str_eq (view a).0 k then some a else find_at k xs

  abbrev pub HasUniqueKeys : List ℕ → Type 0
  HasUniqueKeys [] = Unit
  HasUniqueKeys (a ∷ xs) = (find_at (view a).0 xs ≡ none) × HasUniqueKeys xs

  pub find-map :
      (k : String) (xs : List ℕ)
      → find k (map view xs) ≡ (elim (find_at k xs) [ none ↦ none | some a ↦ some (view a) ])
  unfolding find find_at
  find-map k [] = refl
  find-map k (a ∷ xs) = ground (arith, find-map k xs)

  pub drop_key-absent :
      (k : String) (xs : List ℕ) → find_at k xs ≡ none → drop_key k (map view xs) ≡ map view xs
  unfolding find_at drop_key
  drop_key-absent k [] p = refl
  drop_key-absent k (a ∷ xs) p = ground (arith, drop_key-absent k xs)

  -- What an entry's key finds in the whole list, and what is left without the entry.
  pub record Middle (us : List ℕ) (a : ℕ) (vs : List ℕ) : Type 0 where
    pub here : find_at (view a).0 (us ++ a ∷ vs) ≡ some a
    pub without : drop_key (view a).0 (map view (us ++ a ∷ vs)) ≡ map view (us ++ vs)
    pub unique : HasUniqueKeys (us ++ vs)
    pub others :
        (j : String)
        → find_at j (us ++ vs) ≡ (if str_eq (view a).0 j then none else find_at j (us ++ a ∷ vs))

  pub HasUniqueKeys-Middle :
      (us : List ℕ) (a : ℕ) (vs : List ℕ) → HasUniqueKeys (us ++ a ∷ vs) → Middle us a vs
  unfolding find_at drop_key
  HasUniqueKeys-Middle [] a vs u = record {
    here = ground (arith, eq_iff (view a).0 (view a).0);
    without = ground (arith, eq_iff (view a).0 (view a).0, drop_key-absent (view a).0 vs);
    unique = u.1;
    others = λ j. ground (arith, u.0, eq_iff (view a).0 j);
  }
  HasUniqueKeys-Middle (b ∷ us) a vs u =
      let m = HasUniqueKeys-Middle us a vs u.1 in
      let differ : str_eq (view b).0 (view a).0 ≡ false =
        ground (arith, m.here, u.0, eq_iff (view b).0 (view a).0) in
      record {
        here = rw (find_at, differ) m.here;
        without = rw (drop_key, differ) (ap (λ l. view b ∷ l) m.without);
        unique = (ground (arith, m.others (view b).0), m.unique);
        others = λ j. ground (
          arith,
          m.others j,
          eq_iff (view b).0 j,
          eq_iff (view b).0 (view a).0,
          eq_iff (view a).0 j,
        );
      }

  pub find_at-split :
      (k : String) (a : ℕ) (xs : List ℕ)
      → find_at k xs ≡ some a
      → (us : List ℕ) × (vs : List ℕ) × (xs ≡ us ++ a ∷ vs) × ((view a).0 ≡ k)
  unfolding find_at
  find_at-split k a [] p = ground arith
  find_at-split k a (b ∷ xs) p = elim (Bool-cases (str_eq (view b).0 k)) [
    | inl same ↦
        let here : b ≡ a = ground arith in
        (
          [],
          xs,
          ap (λ c. c ∷ xs) here,
          ap (λ c. (view c).0) (sym here) ∙ (eq_iff (view b).0 k).0 same,
        )
    | inr other ↦
        let (us, vs, whole, keyed) = find_at-split k a xs (ground arith) in
        (b ∷ us, vs, ap (λ l. b ∷ l) whole, keyed)
  ]

  -- What another view of the same keys finds.
  module _ (other : ℕ → Content Operation) where
    abbrev pub SameKeys : List ℕ → Type 0
    SameKeys xs = (b : ℕ) → has b xs ≡ true → (other b).0 ≡ (view b).0

module _ {Operation : Type 0} (v w : ℕ → Content Operation) where
  pub find_at-same : (k : String) (xs : List ℕ) → SameKeys v w xs → find_at w k xs ≡ find_at v k xs
  unfolding find_at
  find_at-same k [] s = refl
  find_at-same k (a ∷ xs) s =
      rw (find_at, s a (ground arith), find_at-same k xs λ b i. s b (ground arith)) refl

  pub HasUniqueKeys-same : (xs : List ℕ) → SameKeys v w xs → HasUniqueKeys v xs → HasUniqueKeys w xs
  HasUniqueKeys-same [] s u = tt
  HasUniqueKeys-same (a ∷ xs) s u =
      let behind = λ (b : ℕ) (i : has b xs ≡ true). s b (ground arith) in
      (
        rw (s a (ground arith)) (find_at-same (v a).0 xs behind ∙ u.0),
        HasUniqueKeys-same xs behind u.1,
      )

  pub map-same : (xs : List ℕ) → ((b : ℕ) → has b xs ≡ true → w b ≡ v b) → map w xs ≡ map v xs
  map-same [] s = refl
  map-same (a ∷ xs) s =
      rw (s a (ground arith)) (ap (λ l. v a ∷ l) (map-same xs λ b i. s b (ground arith)))
