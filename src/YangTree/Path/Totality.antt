-- ===== src/YangTree/Path/Totality.antt =====
-- internal/yangtree/path.go: the loops of the parser end.
use go_lab_netconf.Base.{
  ℕ, zero, suc, ◌≤◌, ◌<◌, Bytes, str_eq, true, false, ◌||◌, Bool-cases, inl, inr, List, [], ◌∷◌,
  ◌≡◌, refl, sym, subst, length, ◌==◌, arith,
}
use mathlib.Core.Bool.{false≢true}
use go_lab_netconf.DomainErr.{AnyError, domain, other}
use go_lab_netconf.Datastore.Yang.{Result, ok, err, ◌>>=◌}
use go_lab_netconf.YangTree.Path.{
  Segment, Unicode, out_of_fuel, is_head, is_tail, tail_run, read_ident, until_byte, read_quoted,
  read_bare, read_key_value, expect_byte, read_key_name, read_key, starts_with, read_keys,
  next_segment, read_segments,
}

abbrev IsUsual : AnyError → Type 0
IsUsual (domain e) = Unit
IsUsual (other m) = str_eq m "out of fuel" ≡ false

-- A reader that leaves at most `n` bytes, or fails with an error of the code.
abbrev Leaves {ℓ} : {A : Type ℓ} → (A → Bytes) → ℕ → Result A → Type 0
Leaves rest n (err e) = IsUsual e
Leaves rest n (ok a) = length (rest a) ≤ n

Leaves-bind {ℓ κ} :
    {A : Type ℓ} {B : Type κ} (f : A → Bytes) (g : B → Bytes) (n m : ℕ) (r : Result A)
    (k : A → Result B)
    → Leaves f n r
    → ((a : A) → length (f a) ≤ n → Leaves g m (k a))
    → Leaves g m (r >>= k)
Leaves-bind f g n m (err e) k p later = p
Leaves-bind f g n m (ok a) k p later = later a p

-- The rest of a pair that a reader returns.
abbrev behind {ℓ} : {A : Type ℓ} → A × Bytes → Bytes
behind p = p.1

module _ (U : Unicode) where
  tail_run-length : (s : Bytes) → length (tail_run U s).1 ≤ length s
  unfolding tail_run
  tail_run-length [] = omega arith
  tail_run-length (c ∷ s) = elim (Bool-cases (is_tail U c)) [
    | inl e ↦ let later = tail_run-length s in rw e (omega arith)
    | inr e ↦ rw e (omega arith)
  ]

  until_byte-length : (q : ℕ) (s : Bytes) → length (until_byte U q s).1 ≤ length s
  unfolding until_byte
  until_byte-length q [] = omega arith
  until_byte-length q (c ∷ s) = elim (Bool-cases (c == q)) [
    | inl e ↦ rw e (omega arith)
    | inr e ↦ let later = until_byte-length q s in rw e (omega arith)
  ]

  read_ident-Leaves : (n : ℕ) (s : Bytes) → length s ≤ suc n → Leaves behind n (read_ident U s)
  unfolding read_ident
  read_ident-Leaves n [] p = refl
  read_ident-Leaves n (c ∷ s) p = elim (Bool-cases (is_head U c)) [
    | inl e ↦ let shorter = tail_run-length s in rw (Leaves, e) (omega arith)
    | inr e ↦ rw (Leaves, e) refl
  ]

  expect_byte-Leaves :
      (b n : ℕ) (e : AnyError) (s : Bytes)
      → IsUsual e
      → length s ≤ suc n
      → Leaves (λ t. t) n (expect_byte U b e s)
  unfolding expect_byte
  expect_byte-Leaves b n e [] usual p = usual
  expect_byte-Leaves b n e (c ∷ s) usual p = elim (Bool-cases (c == b)) [
    | inl q ↦ rw (Leaves, q) (omega arith)
    | inr q ↦ rw (Leaves, q) usual
  ]

  after_quote :
      (run left : Bytes) (n : ℕ)
      → length left ≤ n
      → Leaves behind n (elim left [
        | [] ↦ err (other "unterminated quoted list key")
        | c ∷ rest ↦ ok (run, rest)
      ])
  after_quote run [] n p = refl
  after_quote run (c ∷ rest) n p = omega arith

  read_quoted-Leaves : (q n : ℕ) (s : Bytes) → length s ≤ n → Leaves behind n (read_quoted U q s)
  unfolding read_quoted
  read_quoted-Leaves q n s p =
      let shorter = until_byte-length q s in
      after_quote (until_byte U q s).0 (until_byte U q s).1 n (omega arith)

  read_bare-Leaves : (n : ℕ) (s : Bytes) → length s ≤ n → Leaves behind n (read_bare U s)
  unfolding read_bare
  read_bare-Leaves n s p = elim (Bool-cases (length (until_byte U b']' s).0 == 0)) [
    | inl e ↦ rw (Leaves, e) refl
    | inr e ↦ let shorter = until_byte-length b']' s in rw (Leaves, e) (omega arith)
  ]

  read_key_value-Leaves : (n : ℕ) (s : Bytes) → length s ≤ n → Leaves behind n (read_key_value U s)
  unfolding read_key_value
  read_key_value-Leaves n [] p = refl
  read_key_value-Leaves n (c ∷ s) p = elim (Bool-cases (c == b'\'' || c == b'"')) [
    | inl e ↦ rw (Leaves, e) (read_quoted-Leaves c n s (omega arith))
    | inr e ↦ rw (Leaves, e) (read_bare-Leaves n (c ∷ s) p)
  ]

  renamed_error :
      (r : Result (Bytes × Bytes)) (n : ℕ)
      → Leaves behind n r
      → Leaves behind n (elim r [ ok a ↦ ok a | err e ↦ err (other "invalid list key name") ])
  renamed_error (ok a) n p = p
  renamed_error (err e) n p = refl

  read_key_name-Leaves :
      (n : ℕ) (s : Bytes) → length s ≤ suc n → Leaves behind n (read_key_name U s)
  unfolding read_key_name
  read_key_name-Leaves n s p = renamed_error (read_ident U s) n (read_ident-Leaves n s p)

  read_key-Leaves : (n : ℕ) (s : Bytes) → length s ≤ suc n → Leaves behind n (read_key U s)
  unfolding read_key
  read_key-Leaves n s p =
      Leaves-bind (λ t. t) behind n n _ _ (expect_byte-Leaves b'[' n _ s refl p)
        (λ s p.
          Leaves-bind behind behind n n _ _ (read_key_name-Leaves n s (omega arith)) (λ (name, s) p.
            Leaves-bind (λ t. t) behind n n _ _ (expect_byte-Leaves b'=' n _ s refl (omega arith))
              (λ s p.
                Leaves-bind behind behind n n _ _ (read_key_value-Leaves n s p) (λ (value, s) p.
                  Leaves-bind (λ t. t) behind n n _ _
                    (expect_byte-Leaves b']' n _ s refl (omega arith)) (λ s p. p)))))

  read_keys-Leaves :
      (fuel n : ℕ) (s : Bytes)
      → length s < fuel
      → length s ≤ n
      → Leaves behind n (read_keys U fuel s)
  unfolding read_keys starts_with
  read_keys-Leaves zero n s enough p = absurd (omega arith)
  read_keys-Leaves (suc fuel) n [] enough p = p
  read_keys-Leaves (suc fuel) n (c ∷ s) enough p = elim (Bool-cases (c == b'[')) [
    | inr e ↦ rw (Leaves, e) p
    | inl e ↦
        rw (Leaves, e)
          (Leaves-bind behind behind (length s) n _ _
            (read_key-Leaves (length s) (c ∷ s) (omega arith))
            (λ (k, t) q.
              Leaves-bind behind behind n n _ _
                (read_keys-Leaves fuel n t (omega arith) (omega arith)) (λ (ks, u) q. q)))
  ]

  -- With as much fuel as there are bytes left, and one more, the loop over the segments does not run out.
  abbrev nothing : List Segment → Bytes
  nothing segs = []

  next_segment-Leaves :
      (s : Bytes) (k : Bytes → Result (List Segment))
      → ((t : Bytes) → length t < length s → Leaves nothing 0 (k t))
      → Leaves nothing 0 (next_segment U s k)
  next_segment-Leaves [] k later = omega arith
  next_segment-Leaves (c ∷ []) k later = elim (Bool-cases (c == b'/')) [
    | inl e ↦ rw (Leaves, e) refl
    | inr e ↦ rw (Leaves, e) refl
  ]
  next_segment-Leaves (c ∷ d ∷ s) k later = elim (Bool-cases (c == b'/')) [
    | inl e ↦ rw (Leaves, e) (later (d ∷ s) (omega arith))
    | inr e ↦ rw (Leaves, e) refl
  ]

  read_segments-Leaves :
      (fuel : ℕ) (s : Bytes) → length s < fuel → Leaves nothing 0 (read_segments U fuel s)
  unfolding read_segments starts_with
  read_segments-Leaves zero s enough = absurd (omega arith)
  read_segments-Leaves (suc fuel) [] enough = unfold read_ident in refl
  read_segments-Leaves (suc fuel) (c ∷ s) enough = elim (Bool-cases (c == b'/')) [
    | inl e ↦ rw (Leaves, e) refl
    | inr e ↦
        rw (Leaves, e)
          (Leaves-bind behind nothing (length s) 0 _ _
            (read_ident-Leaves (length s) (c ∷ s) (omega arith))
            (λ (name, t) q.
              Leaves-bind behind nothing (length t) 0 _ _
                (read_keys-Leaves (suc (length t)) (length t) t (omega arith) (omega arith))
                (λ (keys, u) q'.
                  Leaves-bind nothing nothing 0 0 _ _
                    (next_segment-Leaves u _
                      (λ t' shorter. read_segments-Leaves fuel t' (omega arith)))
                    (λ segs q''. omega arith))))
  ]

  -- The fuel that the parser gives its loops, one more than the bytes that are left, is enough: neither the
  -- loop over the segments nor the one over the predicates of a segment runs out of it.
  pub read_segments_total : (s : Bytes) → ¬ (read_segments U (suc (length s)) s ≡ err out_of_fuel)
  read_segments_total s p =
      let q : true ≡ false =
        subst (Leaves nothing 0) p (read_segments-Leaves (suc (length s)) s (omega arith)) in
      false≢true (sym q)
