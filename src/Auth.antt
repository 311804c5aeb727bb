-- ===== src/Auth.antt =====
-- internal/auth: the lookup of bearer tokens (Auth.Verifier), the tokens that a specification compiles to
-- (Auth.Identity) and the browser's sessions (Auth.Sessions). Digests are values of the interface below,
-- since SHA-256 and its comparison are crypto/sha256 and crypto/subtle.
pub mod Verifier
pub mod Identity
pub mod Sessions
mod Tests
use go_lab_netconf.Base.{
  Bytes, All, Bool-cases, inl, inr, refl, arith, String, str_eq, Bool, true, false, ◌||◌, List, [],
  ◌∷◌, Option, none, some, ◌≡◌, ◌↔◌, if◌then◌else◌,
}

-- `DigestSecret` and `EqualDigest`, of which only the comparison has a law.
pub record Digests : Type 1 where
  pub Digest : Type 0
  pub digest_secret : Bytes → Digest
  pub equal_digest : Digest → Digest → Bool
  pub equal_digest_iff : (a b : Digest) → (equal_digest a b ≡ true) ↔ (a ≡ b)

pub record Principal : Type 0 where
  pub id : String
  pub class : String
  pub role : String
  pub scopes : List String

-- `ClassToken`
abbrev pub class_token : String
class_token = "token"

has_one : List String → String → Bool
has_one [] want = false
has_one (s ∷ ss) want = str_eq s want || has_one ss want

unfoldable pub has_scope : List String → String → Bool
unfolding has_one
has_scope scopes want = str_eq want "" || has_one scopes want

-- `AuthorizeScopes`: the first scope that is missing.
unfoldable pub authorize_scopes : List String → List String → Option String
authorize_scopes scopes [] = none
authorize_scopes scopes (want ∷ required) =
    let rest = authorize_scopes scopes required in if has_scope scopes want then rest else some want

-- A principal is authorized exactly when it has every scope that is required.
pub authorize_scopes_iff :
    (scopes required : List String)
    → (authorize_scopes scopes required ≡ none)
      ↔ All (λ want. has_scope scopes want ≡ true) required
unfolding authorize_scopes
authorize_scopes_iff scopes [] = (λ p. _, λ p. refl)
authorize_scopes_iff scopes (want ∷ required) =
    let (to, from) = authorize_scopes_iff scopes required in
    elim (Bool-cases (has_scope scopes want)) [
      | inl granted ↦ rw (authorize_scopes, granted) (λ p. (refl, to p), λ q. from q.1)
      | inr missing ↦ rw (authorize_scopes, missing) (λ p. ground arith, λ q. ground arith)
    ]
