-- ===== src/Auth/Identity.antt =====
-- internal/auth/verifier.go and roles.go: the tokens that spec.auth compiles to, how a verifier's
-- identity is replaced, and the parsing of a header. Verifiers are never nil.
mod Tests
pub mod Tokens
use go_lab_netconf.Base.{
  ℕ, zero, suc, ◌+◌, Bytes, bytes, String, str_append, str_eq, Bool, true, false, not, ◌&&◌, ◌||◌,
  List, [], ◌∷◌, ◌++◌, Option, none, some, length, ltb, ◌==◌, if◌then◌else◌,
}
use go_lab_netconf.Base.Dict.{Dict, lookup, put}
use go_lab_netconf.DomainErr.{AnyError, validation_failed}
use go_lab_netconf.Framing.{itoa}
use go_lab_netconf.Datastore.Yang.{Result, ok, err, ◌>>=◌}
use go_lab_netconf.Auth.{Digests}
use go_lab_netconf.Auth.Verifier.{StoredToken, Found, unauthorized, lookup_bearer}

pub record TokenSpec : Type 0 where
  pub id : String
  pub role : String
  pub secret_file : String
  pub scopes : List String

-- Package strings and slices on what they are used for, and os.ReadFile.
pub record Library : Type 0 where
  pub trim_text : String → String
  pub trim : Bytes → Bytes
  pub equal_fold : Bytes → Bytes → Bool
  pub sort : List String → List String
  pub read_file : String → Option Bytes

default_scopes : String → List String
default_scopes role =
    if str_eq role "reader"
    then "netconf.read" ∷ []
    else if str_eq role "administrator"
    then "netconf.read" ∷ "netconf.write" ∷ "netconf.admin" ∷ "netconf.audit.read" ∷ []
    else []

-- `expandScopes`: an explicit list of scopes wins.
pub expand_scopes : String → List String → String × List String
unfolding default_scopes
expand_scopes role scopes =
    let named = if str_eq role "" then "administrator" else role in
    (named, if length scopes == 0 then default_scopes named else scopes)

-- `strings.Split(s, "\n")`: the first line, and the others.
split_lines : Bytes → Bytes × List Bytes
split_lines [] = ([], [])
split_lines (b ∷ s) =
    let (line, lines) = split_lines s in
    if b == b'\n' then ([], line ∷ lines) else (b ∷ line, lines)

is_comment : Bytes → Bool
is_comment [] = false
is_comment (b ∷ s) = b == b'#'

-- `strings.Cut(h, " ")`
pub cut : Bytes → Option (Bytes × Bytes)
cut [] = none
cut (b ∷ s) = elim (b == b' ') [
  | true ↦ some ([], s)
  | false ↦ elim (cut s) [ none ↦ none | some (before, rest) ↦ some (b ∷ before, rest) ]
]

-- `indexPath` and a field
abbrev token_path : ℕ → Bytes → Bytes
token_path i field = bytes "spec.auth.tokens[" ++ itoa i ++ bytes "]" ++ field

abbrev invalid : String → Bytes → String → String → AnyError
invalid message path code detail =
    validation_failed message (record { path = path; code = code; message = detail } ∷ [])

module _ (L : Library) where
  open L use {trim_text, trim, equal_fold, sort, read_file}

  first_secret : Bytes → List Bytes → Option Bytes
  unfolding is_comment
  first_secret line [] = let s = trim line in if length s == 0 || is_comment s then none else some s
  first_secret line (next ∷ lines) =
      let s = trim line in
      let rest = first_secret next lines in if length s == 0 || is_comment s then rest else some s

  -- `readSecretFile`; none is an error.
  pub read_secret_file : String → Option Bytes
  unfolding first_secret split_lines
  read_secret_file path = elim (read_file path) [
    | none ↦ none
    | some b ↦ let (line, lines) = split_lines b in first_secret line lines
  ]

  module _ (D : Digests) where
    abbrev pub Token : Type 0
    Token = StoredToken D

    -- The keys of `seenID` and `seenDigest` are those of the tokens so far.
    pub has_id : String → List Token → Bool
    has_id id [] = false
    has_id id (t ∷ ts) = str_eq t.id id || has_id id ts

    pub digest_owner : D.Digest → List Token → Option String
    digest_owner d [] = none
    digest_owner d (t ∷ ts) = if D.equal_digest t.digest d then some t.id else digest_owner d ts

    pub known_role : String → Bool
    known_role role = str_eq role "administrator" || str_eq role "reader"

    pub compile_secret : ℕ → List Token → TokenSpec → String → Bytes → Result Token
    unfolding known_role
    compile_secret i seen tok id raw =
        if ltb (length raw) 32
        then err (
            invalid "token entropy is below 256 bits" (token_path i (bytes ".secretFile"))
              "invalid_value" "token secret must be at least 32 bytes")
        else elim (digest_owner (D.digest_secret raw) seen) [
          | some other ↦ err (
              invalid "duplicate token value" (token_path i (bytes ".secretFile")) "duplicate_id"
                (str_append "token value matches " other))
          | none ↦
              if not (str_eq tok.role "") && not (known_role tok.role)
              then err (
                  invalid "unknown role" (token_path i (bytes ".role")) "invalid_value"
                    "role must be administrator or reader")
              else ok (record {
                id = id;
                role = (expand_scopes tok.role tok.scopes).0;
                scopes = (expand_scopes tok.role tok.scopes).1;
                digest = D.digest_secret raw;
              })
        ]

    -- The body of the loop of `FromSpec`.
    pub compile_token : ℕ → List Token → TokenSpec → Result Token
    unfolding compile_secret has_id
    compile_token i seen tok =
        let id = trim_text tok.id in
        if str_eq id ""
        then err (
            invalid "token id is required" (token_path i (bytes ".id")) "empty_id"
              "token id is required")
        else if has_id id seen
        then err (
            invalid "duplicate token id" (token_path i (bytes ".id")) "duplicate_id"
              "duplicate token id")
        else elim (read_secret_file tok.secret_file) [
          | none ↦ err (
              invalid "token secret is unavailable" (token_path i (bytes ".secretFile"))
                "unresolved_reference" "token secret file does not resolve")
          | some raw ↦ compile_secret i seen tok id raw
        ]

    pub compile_tokens : ℕ → List Token → List TokenSpec → Result (List Token)
    unfolding compile_token
    compile_tokens i seen [] = ok seen
    compile_tokens i seen (tok ∷ toks) =
        compile_token i seen tok >>= λ t. compile_tokens (i + 1) (seen ++ t ∷ []) toks

    -- The hooks of `OnIdentityChange` are numbers.
    pub record Verifier : Type 0 where
      pub mode : String
      pub tokens : List Token
      pub on_change : List ℕ

    -- `Empty`
    pub empty : Verifier
    empty = record { mode = "bearer"; tokens = []; on_change = [] }

    -- `Static`
    pub static : Bytes → String → String → Verifier
    static secret id role =
        let (named, scopes) = expand_scopes role [] in
        record {
          mode = "bearer";
          tokens =
              record {
                id = if str_eq id "" then "admin" else id;
                role = named;
                scopes = scopes;
                digest = D.digest_secret secret;
              }
              ∷ [];
          on_change = [];
        }

    pub on_identity_change : Verifier → ℕ → Verifier
    on_identity_change v hook = record v { on_change = v.on_change ++ hook ∷ [] }

    -- `RequireListen`; true is no error.
    pub require_listen : Verifier → Bool
    require_listen v = str_eq v.mode "bearer" && not (length v.tokens == 0)

    pub from_spec : String → List TokenSpec → Result Verifier
    unfolding compile_tokens
    from_spec mode toks =
        let named = if str_eq (trim_text mode) "" then "bearer" else trim_text mode in
        if str_eq named "bearer"
        then (do
          ts ← compile_tokens 0 [] toks
          ok (record { mode = named; tokens = ts; on_change = [] }))
        else err (
            invalid "unknown auth mode" (bytes "spec.auth.mode") "invalid_value"
              "mode must be bearer")

    same_texts : List String → List String → Bool
    same_texts [] [] = true
    same_texts (a ∷ as') (b ∷ bs) = str_eq a b && same_texts as' bs
    same_texts _ _ = false

    -- `byID`: the last token of an id stays.
    by_id : Dict Token → List Token → Dict Token
    by_id m [] = m
    by_id m (t ∷ ts) = by_id (put t.id t m) ts

    same_token : Token → Token → Bool
    unfolding same_texts
    same_token a b =
        D.equal_digest a.digest b.digest
        && str_eq a.role b.role
        && same_texts (sort a.scopes) (sort b.scopes)

    all_match : Dict Token → List Token → Bool
    unfolding same_token
    all_match m [] = true
    all_match m (t ∷ ts) =
        (elim (lookup t.id m) [ none ↦ false | some a ↦ same_token a t ]) && all_match m ts

    pub equivalent : Verifier → Verifier → Bool
    unfolding all_match by_id
    equivalent v w =
        str_eq v.mode w.mode
        && length v.tokens == length w.tokens
        && all_match (by_id [] v.tokens) w.tokens

    -- `Replace`: the verifier, and the hooks that are called, in order.
    pub replace : Verifier → Verifier → Verifier × List ℕ
    unfolding equivalent
    replace v next = (
      record v { mode = next.mode; tokens = next.tokens },
      if equivalent v next then [] else v.on_change,
    )

    pub authenticate_bearer : Verifier → Bytes → Found D
    authenticate_bearer v secret = lookup_bearer D v.tokens (trim secret)

    -- `Authenticate` on the Authorization header.
    pub authenticate : Verifier → Bytes → Found D
    unfolding cut
    authenticate v header =
        let h = trim header in
        if length h == 0 then unauthorized else elim (cut h) [
          | none ↦ unauthorized
          | some (scheme, rest) ↦
              if not (equal_fold scheme (bytes "Bearer"))
              then unauthorized
              else lookup_bearer D v.tokens (trim rest)
        ]
