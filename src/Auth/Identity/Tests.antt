-- ===== src/Auth/Identity/Tests.antt =====
-- Two tokens from two secret files, under a digest that keeps the secret.
use go_lab_netconf.Base.{
  Bytes, bytes, bytes_eq, bytes_eq_iff, String, str_eq, ◌&&◌, [], ◌∷◌, ◌++◌, Option, none, some,
  ◌≡◌, refl, true, false, inl, length, ◌==◌, if◌then◌else◌,
}
use go_lab_netconf.Base.Dict.{lookup, put}
use go_lab_netconf.Auth.{Digests}
use go_lab_netconf.Auth.Verifier.{contains_blank, found}
use go_lab_netconf.Auth.Identity.{
  TokenSpec, Library, read_secret_file, digest_owner, expand_scopes, Verifier, from_spec, empty,
  static, on_identity_change, require_listen, replace, authenticate,
}
use go_lab_netconf.Auth.Identity.Tokens.{from_spec-authenticate}

abbrev kept : Digests
kept = record {
  Digest = Bytes;
  digest_secret = λ s. s;
  equal_digest = bytes_eq;
  equal_digest_iff = bytes_eq_iff;
}

trim_left : Bytes → Bytes
trim_left [] = []
trim_left (b ∷ s) = let rest = trim_left s in if b == b' ' then rest else b ∷ s

trim_right : Bytes → Bytes
trim_right [] = []
trim_right (b ∷ s) =
    let rest = trim_right s in if b == b' ' && length rest == 0 then [] else b ∷ rest

abbrev file : String → Option Bytes
file path =
    if str_eq path "/run/a"
    then some (bytes "# reader" ++ b'\n' ∷ bytes " aaaaaaaaaabbbbbbbbbbccccccccccdd " ++ b'\n' ∷ [])
    else if str_eq path "/run/b"
    then some (bytes "aaaaaaaaaabbbbbbbbbbccccccccccee")
    else none

abbrev library : Library
library = record {
  trim_text = λ s. s;
  trim = λ s. trim_right (trim_left s);
  equal_fold = bytes_eq;
  sort = λ ss. ss;
  read_file = file;
}

abbrev token : String → String → String → TokenSpec
token id role path = record { id = id; role = role; secret_file = path; scopes = [] }

abbrev verifier : Verifier library kept
verifier = record {
  mode = "bearer";
  tokens =
      record {
        id = "a";
        role = "reader";
        scopes = "netconf.read" ∷ [];
        digest = bytes "aaaaaaaaaabbbbbbbbbbccccccccccdd";
      }
      ∷ record {
        id = "b";
        role = "administrator";
        scopes = "netconf.read" ∷ "netconf.write" ∷ "netconf.admin" ∷ "netconf.audit.read" ∷ [];
        digest = bytes "aaaaaaaaaabbbbbbbbbbccccccccccee";
      }
      ∷ [];
  on_change = [];
}

from_spec-authenticate_example :
    authenticate library kept verifier (bytes "Bearer aaaaaaaaaabbbbbbbbbbccccccccccdd")
    ≡ found (record { id = "a"; class = "token"; role = "reader"; scopes = "netconf.read" ∷ [] })
unfolding from_spec read_secret_file contains_blank trim_left trim_right bytes_eq digest_owner
    expand_scopes
from_spec-authenticate_example =
    from_spec-authenticate library kept ""
      (token "a" "reader" "/run/a" ∷ token "b" "" "/run/b" ∷ []) verifier
      (token "a" "reader" "/run/a") (bytes "aaaaaaaaaabbbbbbbbbbccccccccccdd") refl (inl refl) refl
      refl refl refl refl

changed_identity :
    (replace library kept
      (on_identity_change library kept (static library kept (bytes "secret") "" "reader") 7)
      verifier).1
    ≡ 7 ∷ []
unfolding replace on_identity_change static bytes_eq lookup put
changed_identity = refl

same_identity : (replace library kept (on_identity_change library kept verifier 7) verifier).1 ≡ []
unfolding replace on_identity_change bytes_eq lookup put
same_identity = refl

listens :
    (require_listen library kept verifier ≡ true)
    × (require_listen library kept (empty library kept) ≡ false)
unfolding require_listen empty
listens = (refl, refl)
