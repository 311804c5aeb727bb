-- ===== src/Auth/Verifier.antt =====
-- internal/auth/verifier.go: the lookup of a bearer token. A secret comes in as the string that is left
-- when the header is taken apart and trimmed, as Auth.Identity does.
use go_lab_netconf.Base.{
  Bytes, ◌||◌, ℕ, zero, suc, ◌+◌, ◌-◌, ◌*◌, String, Bool, false, not, List, [], ◌∷◌, Option, none,
  some, ◌≡◌, refl, ◌==◌, length, if◌then◌else◌, arith, Bool-cases, inl, inr, ap, ◌∙◌,
}
use go_lab_netconf.Auth.{Digests, Principal, class_token}

module _ (D : Digests) where
  pub record StoredToken : Type 0 where
    pub id : String
    pub role : String
    pub scopes : List String
    pub digest : D.Digest

  abbrev pub principal_of : StoredToken → Principal
  principal_of t = record { id = t.id; class = class_token; role = t.role; scopes = t.scopes }

  -- The loop of `lookupBearerLocked` from index `i`: how many tokens match, and the index that the
  -- masks have kept.
  unfoldable pub scan : D.Digest → ℕ → ℕ → ℕ → List StoredToken → ℕ × ℕ
  scan digest i found idx [] = (found, idx)
  scan digest i found idx (t ∷ ts) =
      let mask = if D.equal_digest t.digest digest then 1 else 0 in
      scan digest (i + 1) (found + mask) (idx * (1 - mask) + i * mask) ts

  unfoldable pub at : List StoredToken → ℕ → Option StoredToken
  at [] i = none
  at (t ∷ ts) zero = some t
  at (t ∷ ts) (suc i) = at ts i

  -- What a lookup comes to: a principal, an unauthorized error, or a panic on a bad index.
  pub data Found : Type 0 where
    found : Principal → Found
    unauthorized panics : Found

  -- `strings.ContainsAny(secret, " \t")`
  unfoldable pub contains_blank : Bytes → Bool
  contains_blank [] = false
  contains_blank (b ∷ s) = b == b' ' || b == b'\t' || contains_blank s

  -- `lookupBearerLocked`
  unfoldable pub lookup_bearer : List StoredToken → Bytes → Found
  unfolding contains_blank
  lookup_bearer tokens secret =
      let (count, idx) = scan (D.digest_secret secret) 0 0 0 tokens in
      if length secret == 0 || contains_blank secret
      then unauthorized
      else if not (count == 1)
      then unauthorized
      else elim (at tokens idx) [ some t ↦ found (principal_of t) | none ↦ panics ]

  -- The tokens with the digest, in their order.
  unfoldable pub with_digest : D.Digest → List StoredToken → List StoredToken
  with_digest digest [] = []
  with_digest digest (t ∷ ts) =
      let rest = with_digest digest ts in if D.equal_digest t.digest digest then t ∷ rest else rest

  unfoldable pub only : List StoredToken → Found
  only [] = unauthorized
  only (t ∷ []) = found (principal_of t)
  only (t ∷ u ∷ ts) = unauthorized

  scan-count :
      (digest : D.Digest) (i n idx : ℕ) (ts : List StoredToken)
      → (scan digest i n idx ts).0 ≡ n + length (with_digest digest ts)
  unfolding scan with_digest
  scan-count digest i n idx [] = omega arith
  scan-count digest i n idx (t ∷ ts) = elim (Bool-cases (D.equal_digest t.digest digest)) [
    | inl same ↦
        rw (scan, with_digest, same)
          (omega (arith, scan-count digest (i + 1) (n + 1) (idx * 0 + i * 1) ts))
    | inr other ↦
        rw (scan, with_digest, other)
          (omega (arith, scan-count digest (i + 1) (n + 0) (idx * 1 + i * 0) ts))
  ]

  scan-none :
      (digest : D.Digest) (i n idx : ℕ) (ts : List StoredToken)
      → length (with_digest digest ts) ≡ 0
      → (scan digest i n idx ts).1 ≡ idx
  unfolding scan with_digest
  scan-none digest i n idx [] p = refl
  scan-none digest i n idx (t ∷ ts) p = elim (Bool-cases (D.equal_digest t.digest digest)) [
    | inl same ↦ ground arith
    | inr other ↦
        rw (scan, other)
          (scan-none digest (i + 1) (n + 0) (idx * 1 + i * 0) ts (ground arith) ∙ omega arith)
  ]

  -- With one match the index that is kept is its own.
  scan-one :
      (digest : D.Digest) (i n idx : ℕ) (ts : List StoredToken) (u : StoredToken)
      → with_digest digest ts ≡ u ∷ []
      → (j : ℕ) × ((scan digest i n idx ts).1 ≡ i + j) × (at ts j ≡ some u)
  unfolding scan with_digest at
  scan-one digest i n idx [] u p = ground arith
  scan-one digest i n idx (t ∷ ts) u p = elim (Bool-cases (D.equal_digest t.digest digest)) [
    | inl same ↦ (
      0,
      rw (scan, same)
          (scan-none digest (i + 1) (n + 1) (idx * 0 + i * 1) ts (ground arith) ∙ omega arith),
      ground arith,
    )
    | inr other ↦
        let (j, kept, here) =
          scan-one digest (i + 1) (n + 0) (idx * 1 + i * 0) ts u (ground arith) in
        (suc j, rw (scan, other) (kept ∙ omega arith), here)
  ]

  unfoldable pub answer : List StoredToken → Bytes → Found
  unfolding only contains_blank
  answer tokens secret =
      if length secret == 0 || contains_blank secret
      then unauthorized
      else only (with_digest (D.digest_secret secret) tokens)

  lookup_matching :
      (tokens : List StoredToken) (secret : Bytes) (ms : List StoredToken)
      → with_digest (D.digest_secret secret) tokens ≡ ms
      → lookup_bearer tokens secret ≡ answer tokens secret
  unfolding lookup_bearer answer only
  lookup_matching tokens secret [] p =
      let digest = D.digest_secret secret in
      let count : (scan digest 0 0 0 tokens).0 ≡ 0 =
        omega (arith, scan-count digest 0 0 0 tokens, ap length p) in
      rw (lookup_bearer, answer, p, count) refl
  lookup_matching tokens secret (t ∷ []) p =
      let digest = D.digest_secret secret in
      let count : (scan digest 0 0 0 tokens).0 ≡ 1 =
        omega (arith, scan-count digest 0 0 0 tokens, ap length p) in
      let (j, kept, here) = scan-one digest 0 0 0 tokens t p in
      let kept_at : (scan digest 0 0 0 tokens).1 ≡ j = kept ∙ omega arith in
      rw (lookup_bearer, answer, p, count, kept_at, here) refl
  lookup_matching tokens secret (t ∷ u ∷ ms) p =
      let digest = D.digest_secret secret in
      let count : (scan digest 0 0 0 tokens).0 ≡ suc (suc (length ms)) =
        omega (arith, scan-count digest 0 0 0 tokens, ap length p) in
      let not_one : (suc (suc (length ms)) == 1) ≡ false = ground arith in
      rw (lookup_bearer, answer, p, count, not_one) refl

-- The masked scan of a bearer lookup finds a principal exactly when one token alone has the secret's
-- digest, and that token's principal: a secret that is empty or has a blank, that no token has, or
-- that two tokens share, is unauthorized. The index never leaves the list.
pub lookup_bearer_lem :
    (D : Digests) (tokens : List (StoredToken D)) (secret : Bytes)
    → lookup_bearer D tokens secret ≡ answer D tokens secret
lookup_bearer_lem D tokens secret =
    lookup_matching D tokens secret (with_digest D (D.digest_secret secret) tokens) refl
