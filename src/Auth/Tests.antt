-- ===== src/Auth/Tests.antt =====
-- Sessions and tokens under a digest that keeps the secret, and the theorems on them.
use go_lab_netconf.Base.{
  ℕ, ◌≤◌, Bytes, bytes_eq, bytes_eq_iff, String, eq_iff, [], ◌∷◌, none, ◌≡◌, refl, length, arith,
}
use go_lab_netconf.Base.Dict
use go_lab_netconf.Auth.{Digests, Principal}
use go_lab_netconf.Auth.Verifier.{
  StoredToken, scan, at, found, lookup_bearer, answer, lookup_bearer_lem,
}
use go_lab_netconf.Auth.Sessions.{Store, new_store, create, lookup, creates, looks_up, run}
use go_lab_netconf.Auth.Sessions.Runs.{size_bounded}
use go_lab_netconf.Auth.Sessions.Lifetime.{session_ends}

abbrev plain : Digests
plain = record {
  Digest = Bytes;
  digest_secret = λ s. s;
  equal_digest = bytes_eq;
  equal_digest_iff = bytes_eq_iff;
}

abbrev admin : Principal
admin = record { id = "admin"; class = "token"; role = "administrator"; scopes = [] }

abbrev store : Store
store = record { sessions = []; cfg = record { idle = 10; absolute = 20; max = 2 } }

abbrev token : String → ℕ → StoredToken plain
token id b = record { id = id; role = "reader"; scopes = []; digest = b ∷ [] }

second_found :
    lookup_bearer plain (token "a" 65 ∷ token "b" 66 ∷ token "c" 67 ∷ []) (66 ∷ [])
    ≡ found (record { id = "b"; class = "token"; role = "reader"; scopes = [] })
unfolding lookup_bearer scan at bytes_eq
second_found = refl

lookup_bearer_lem_example :
    lookup_bearer plain (token "a" 65 ∷ token "b" 66 ∷ []) (66 ∷ [])
    ≡ answer plain (token "a" 65 ∷ token "b" 66 ∷ []) (66 ∷ [])
lookup_bearer_lem_example = lookup_bearer_lem plain (token "a" 65 ∷ token "b" 66 ∷ []) (66 ∷ [])

size_bounded_example :
    length
      (run plain
        (new_store store.cfg)
        (creates 0 admin "c1" (1 ∷ []) "p1" ∷ creates 1 admin "c2" (2 ∷ []) "p2" ∷ [])).sessions
    ≤ (run plain
        (new_store store.cfg)
        (creates 0 admin "c1" (1 ∷ []) "p1" ∷ creates 1 admin "c2" (2 ∷ []) "p2" ∷ [])).cfg.max
size_bounded_example =
    size_bounded plain store.cfg
      (creates 0 admin "c1" (1 ∷ []) "p1" ∷ creates 1 admin "c2" (2 ∷ []) "p2" ∷ [])
      (λ e. ground (arith, eq_iff "c1" ""), (λ e. ground (arith, eq_iff "c2" ""), _))

session_ends_example :
    (lookup
      (run plain
        (create store 5 admin "c1" (1 ∷ []) "p1")
        (looks_up 12 "c1" ∷ looks_up 20 "c1" ∷ []))
      26
      "c1").0
    ≡ none
session_ends_example =
    session_ends plain store 5 admin "c1" (1 ∷ []) "p1" (looks_up 12 "c1" ∷ looks_up 20 "c1" ∷ [])
      26 (unfold Dict.lookup in refl) (_, (_, _)) (omega arith)
