-- ===== src/Auth/Identity/Tokens.antt =====
-- The tokens that internal/auth/verifier.go compiles: each secret is of one token alone, and finds it.
use go_lab_netconf.Base.{
  ℕ, ◌+◌, Bytes, bytes, String, str_eq, true, false, not, ◌&&◌, Bool-cases, Option-cases, inl, inr,
  ◌⊎◌, List, [], ◌∷◌, ◌++◌, none, some, ◌≡◌, refl, sym, subst, ap, ◌∙◌, arith, length, ltb, ◌==◌,
  if◌then◌else◌,
}
use go_lab_netconf.Datastore.Yang.{ok, bind_ok}
use go_lab_netconf.Auth.{Digests}
use go_lab_netconf.Auth.Verifier.{
  StoredToken, found, with_digest, only, answer, contains_blank, lookup_bearer_lem, principal_of,
}
use go_lab_netconf.Auth.Identity.{
  TokenSpec, Library, expand_scopes, read_secret_file, digest_owner, known_role, has_id,
  compile_secret, compile_token, compile_tokens, Verifier, from_spec, authenticate_bearer,
  authenticate, cut,
}

module _ {A : Type 0} where
  abbrev pub Member : A → List A → Type 0
  Member x [] = ⊥
  Member x (y ∷ ys) = (y ≡ x) ⊎ Member x ys

  Member-left : (x : A) (xs ys : List A) → Member x xs → Member x (xs ++ ys)
  Member-left x (y ∷ xs) ys (inl e) = inl e
  Member-left x (y ∷ xs) ys (inr m) = inr (Member-left x xs ys m)
  Member-left x [] ys m = elim m [ ]

  Member-last : (x : A) (xs : List A) → Member x (xs ++ x ∷ [])
  Member-last x [] = inl refl
  Member-last x (y ∷ xs) = inr (Member-last x xs)

  Member-snoc : (x y : A) (xs : List A) → Member x (xs ++ y ∷ []) → Member x xs ⊎ (y ≡ x)
  Member-snoc x y [] (inl e) = inr e
  Member-snoc x y [] (inr m) = elim m [ ]
  Member-snoc x y (z ∷ xs) (inl e) = inl (inl e)
  Member-snoc x y (z ∷ xs) (inr m) = elim (Member-snoc x y xs m) [
    | inl k ↦ inl (inr k)
    | inr e ↦ inr e
  ]

module _ (L : Library) (D : Digests) where
  -- Each token is the only one of its digest.
  abbrev AllAlone : List (StoredToken D) → Type 0
  AllAlone ts = (t : StoredToken D) → Member t ts → with_digest D t.digest ts ≡ t ∷ []

  with_digest-append :
      (d : D.Digest) (xs ys : List (StoredToken D))
      → with_digest D d (xs ++ ys) ≡ with_digest D d xs ++ with_digest D d ys
  unfolding with_digest
  with_digest-append d [] ys = refl
  with_digest-append d (x ∷ xs) ys = elim (Bool-cases (D.equal_digest x.digest d)) [
    | inl same ↦ rw (with_digest, same) (ap (λ l. x ∷ l) (with_digest-append d xs ys))
    | inr other ↦ rw (with_digest, other) (with_digest-append d xs ys)
  ]

  unowned :
      (d : D.Digest) (ts : List (StoredToken D))
      → digest_owner L D d ts ≡ none
      → with_digest D d ts ≡ []
  unfolding digest_owner with_digest
  unowned d [] p = refl
  unowned d (t ∷ ts) p = ground (arith, unowned d ts)

  unowned-differs :
      (d : D.Digest) (t : StoredToken D) (ts : List (StoredToken D))
      → digest_owner L D d ts ≡ none
      → Member t ts
      → D.equal_digest t.digest d ≡ false
  unfolding digest_owner
  unowned-differs d t [] p m = elim m [ ]
  unowned-differs d t (u ∷ ts) p (inl e) = rw (← e) (ground arith)
  unowned-differs d t (u ∷ ts) p (inr m) = unowned-differs d t ts (ground arith) m

  others_differ : (d e : D.Digest) → D.equal_digest d e ≡ false → D.equal_digest e d ≡ false
  others_differ d e p = elim (Bool-cases (D.equal_digest e d)) [
    | inl same ↦
        let back = (D.equal_digest_iff d e).1 (sym ((D.equal_digest_iff e d).0 same)) in
        ground arith
    | inr other ↦ other
  ]

  abbrev compiled : TokenSpec → Bytes → StoredToken D
  compiled tok raw = record {
    id = L.trim_text tok.id;
    role = (expand_scopes tok.role tok.scopes).0;
    scopes = (expand_scopes tok.role tok.scopes).1;
    digest = D.digest_secret raw;
  }

  -- What a token that compiles is made of.
  record Compiled (seen : List (StoredToken D)) (tok : TokenSpec) (t : StoredToken D) : Type 0 where
    raw : Bytes
    secret : read_secret_file L tok.secret_file ≡ some raw
    long : ltb (length raw) 32 ≡ false
    new : digest_owner L D (D.digest_secret raw) seen ≡ none
    is : compiled tok raw ≡ t

  secret-Compiled :
      (i : ℕ) (seen : List (StoredToken D)) (tok : TokenSpec) (raw : Bytes) (t : StoredToken D)
      → read_secret_file L tok.secret_file ≡ some raw
      → compile_secret L D i seen tok (L.trim_text tok.id) raw ≡ ok t
      → Compiled seen tok t
  unfolding compile_secret
  secret-Compiled i seen tok raw t p q = elim (Bool-cases (ltb (length raw) 32)) [
    | inl short ↦ ground arith
    | inr long ↦ elim (Option-cases (digest_owner L D (D.digest_secret raw) seen)) [
      | inr (other, e) ↦ ground arith
      | inl e ↦ elim (Bool-cases (not (str_eq tok.role "") && not (known_role L D tok.role))) [
        | inl unknown ↦ ground arith
        | inr known ↦ record { raw = raw; secret = p; long = long; new = e; is = ground arith }
      ]
    ]
  ]

  token-Compiled :
      (i : ℕ) (seen : List (StoredToken D)) (tok : TokenSpec) (t : StoredToken D)
      → compile_token L D i seen tok ≡ ok t
      → Compiled seen tok t
  unfolding compile_token
  token-Compiled i seen tok t q = elim (Bool-cases (str_eq (L.trim_text tok.id) "")) [
    | inl empty ↦ ground arith
    | inr named ↦ elim (Bool-cases (has_id L D (L.trim_text tok.id) seen)) [
      | inl twice ↦ ground arith
      | inr new ↦ elim (Option-cases (read_secret_file L tok.secret_file)) [
        | inl gone ↦ ground arith
        | inr (raw, p) ↦ secret-Compiled i seen tok raw t p (ground arith)
      ]
    ]
  ]

  alone_snoc :
      (seen : List (StoredToken D)) (t : StoredToken D)
      → AllAlone seen
      → digest_owner L D t.digest seen ≡ none
      → AllAlone (seen ++ t ∷ [])
  unfolding with_digest
  alone_snoc seen t alone new u m = elim (Member-snoc u t seen m) [
    | inl before ↦
        let differs =
          others_differ u.digest t.digest (unowned-differs t.digest u seen new before) in
        with_digest-append u.digest seen (t ∷ []) ∙ rw (alone u before, with_digest, differs) refl
    | inr e ↦
        let itself = (D.equal_digest_iff t.digest t.digest).1 refl in
        rw (← e) (
          with_digest-append t.digest seen (t ∷ [])
          ∙ rw (unowned t.digest seen new, with_digest, itself) refl)
  ]

  -- The tokens that compile are those before and the ones of the list.
  compiled_all :
      (i : ℕ) (seen : List (StoredToken D)) (toks : List TokenSpec) (ts : List (StoredToken D))
      → AllAlone seen
      → compile_tokens L D i seen toks ≡ ok ts
      → AllAlone ts
        × ((t : StoredToken D) → Member t seen → Member t ts)
        × ((tok : TokenSpec) (raw : Bytes)
            → Member tok toks
            → read_secret_file L tok.secret_file ≡ some raw
            → Member (compiled tok raw) ts × (ltb (length raw) 32 ≡ false))
  unfolding compile_tokens
  compiled_all i seen [] ts alone q = (
    subst AllAlone (ground arith) alone,
    (λ t m. subst (Member t) (ground arith) m),
    λ tok raw m g. elim m [ ],
  )
  compiled_all i seen (tok ∷ toks) ts alone q =
      let (t, p, r) =
        bind_ok (compile_token L D i seen tok)
          (λ t. compile_tokens L D (i + 1) (seen ++ t ∷ []) toks) ts q in
      let c = token-Compiled i seen tok t p in
      let new : digest_owner L D t.digest seen ≡ none =
        subst (λ u. digest_owner L D u.digest seen ≡ none) c.is c.new in
      let (all, kept, rest) =
        compiled_all (i + 1) (seen ++ t ∷ []) toks ts (alone_snoc seen t alone new) r in
      (
        all,
        (λ u m. kept u (Member-left u seen (t ∷ []) m)),
        λ tok' raw m g. elim m [
          | inr later ↦ rest tok' raw later g
          | inl e ↦
              let one : c.raw ≡ raw = ground (arith, e, g, c.secret) in
              let this : t ≡ compiled tok' raw =
                sym c.is ∙ ap (λ k. compiled k c.raw) e ∙ ap (compiled tok') one in
              (
                subst (λ u. Member u ts) this (kept t (Member-last t seen)),
                subst (λ r. ltb (length r) 32 ≡ false) one c.long,
              )
        ],
      )

  spec_tokens :
      (mode : String) (toks : List TokenSpec) (v : Verifier L D)
      → from_spec L D mode toks ≡ ok v
      → compile_tokens L D 0 [] toks ≡ ok v.tokens
  unfolding from_spec
  spec_tokens mode toks v q =
      let named = if str_eq (L.trim_text mode) "" then "bearer" else L.trim_text mode in
      elim (Bool-cases (str_eq named "bearer")) [
        | inr other ↦ ground arith
        | inl bearer ↦
            let (ts, p, r) =
              bind_ok (compile_tokens L D 0 [] toks)
                (λ ts. ok (record { mode = named; tokens = ts; on_change = [] })) v
                (ground arith) in
            p ∙ ground arith
      ]

  from_spec-authenticate_bearer :
      (mode : String) (toks : List TokenSpec) (v : Verifier L D) (tok : TokenSpec) (raw : Bytes)
      → from_spec L D mode toks ≡ ok v
      → Member tok toks
      → read_secret_file L tok.secret_file ≡ some raw
      → L.trim raw ≡ raw
      → contains_blank D raw ≡ false
      → authenticate_bearer L D v raw ≡ found (principal_of D (compiled tok raw))
  unfolding authenticate_bearer answer only
  from_spec-authenticate_bearer mode toks v tok raw q m g trimmed solid =
      let p = spec_tokens mode toks v q in
      let (alone, _, all) = compiled_all 0 [] toks v.tokens (λ t n. elim n [ ]) p in
      let (here, long) = all tok raw m g in
      let single = alone (compiled tok raw) here in
      let full : (length raw == 0) ≡ false = ground arith in
      rw trimmed (lookup_bearer_lem D v.tokens raw ∙ rw (full, solid, single) refl)

  -- When a specification compiles, the secret that is read from the file of any of its tokens
  -- authenticates as that token in the header `Bearer` and the secret: its id is the trimmed one, its
  -- role and scopes are the expanded ones. Trimming leaves the secret and the header, the secret has no
  -- blank or tab, and `Bearer` equals itself under case folding.
  pub from_spec-authenticate :
      (mode : String) (toks : List TokenSpec) (v : Verifier L D) (tok : TokenSpec) (raw : Bytes)
      → from_spec L D mode toks ≡ ok v
      → Member tok toks
      → read_secret_file L tok.secret_file ≡ some raw
      → L.trim raw ≡ raw
      → L.trim (bytes "Bearer" ++ b' ' ∷ raw) ≡ bytes "Bearer" ++ b' ' ∷ raw
      → contains_blank D raw ≡ false
      → L.equal_fold (bytes "Bearer") (bytes "Bearer") ≡ true
      → authenticate L D v (bytes "Bearer" ++ b' ' ∷ raw)
        ≡ found (principal_of D (compiled tok raw))
  unfolding authenticate authenticate_bearer cut
  from_spec-authenticate mode toks v tok raw q m g trimmed whole solid fold =
      let full : (length (bytes "Bearer" ++ b' ' ∷ raw) == 0) ≡ false = ground arith in
      rw (authenticate, whole, full, fold)
        (from_spec-authenticate_bearer mode toks v tok raw q m g trimmed solid)
