-- ===== src/Auth/Sessions/Runs.antt =====
-- internal/auth/session.go: the size of the session table after any calls.
use go_lab_netconf.Base.{
  Bytes, ◌==◌, ℕ, ◌≤◌, String, str_eq, eq_iff, Bool-cases, Option-cases, ◌||◌, inl, inr, List, [],
  ◌∷◌, some, ◌≡◌, ◌≢◌, refl, ap, All, length, arith,
}
use go_lab_netconf.Base.Dict
use go_lab_netconf.Base.Dict.{Dict}
use go_lab_netconf.Auth.{Digests}
use go_lab_netconf.Auth.Sessions.{
  Entry, SessionConfig, Store, new_store, expired, create, lookup, delete, clear, valid_csrf, touch,
  Call, creates, looks_up, deletes, clears, checks_csrf, after, run,
}
use go_lab_netconf.Auth.Sessions.Bounds.{
  IsKeyed, length-remove, put-IsKeyed, remove-IsKeyed, IsBounded, create-IsBounded,
}

put-length :
    (k : String) (rec old : Entry) (m : Dict Entry)
    → Dict.lookup k m ≡ some old
    → length (Dict.put k rec m) ≡ length m
unfolding Dict.put Dict.lookup
put-length k rec old [] p = ground arith
put-length k rec old ((j, r) ∷ m) p = ground (arith, put-length k rec old m)

-- What holds of the table as long as entries are removed and touched holds after the calls that do
-- no more.
module _ (Q : Dict Entry → Type 0)
    (removing : (k : String) (m : Dict Entry) → Q m → Q (Dict.remove k m))
    (touching : (k : String) (now : ℕ) (rec : Entry) (m : Dict Entry)
      → k ≢ ""
      → Dict.lookup k m ≡ some rec
      → Q m
      → Q (Dict.put k (touch now rec) m)) where
  pub lookup_keeps :
      (s : Store) (now : ℕ) (cookie : String) → Q s.sessions → Q (lookup s now cookie).1.sessions
  unfolding lookup
  lookup_keeps s now cookie q = elim (Bool-cases (str_eq cookie "")) [
    | inl empty ↦ rw (lookup, empty) q
    | inr named ↦ elim (Option-cases (Dict.lookup cookie s.sessions)) [
      | inl absent ↦ rw (lookup, named, absent) q
      | inr (rec, present) ↦ elim (Bool-cases (expired s.cfg rec now)) [
        | inl old ↦ rw (lookup, named, present, old) (removing cookie s.sessions q)
        | inr live ↦
            rw (lookup, named, present, live)
              (touching cookie now rec s.sessions (ground (arith, eq_iff cookie "")) present q)
      ]
    ]
  ]

  pub csrf_keeps :
      (D : Digests) (s : Store) (now : ℕ) (cookie : String) (presented : Bytes)
      → Q s.sessions
      → Q (valid_csrf D s now cookie presented).1.sessions
  unfolding valid_csrf
  csrf_keeps D s now cookie presented q =
      elim (Bool-cases (str_eq cookie "" || length presented == 0)) [
        | inl empty ↦ rw (valid_csrf, empty) q
        | inr named ↦ elim (Option-cases (Dict.lookup cookie s.sessions)) [
          | inl absent ↦ rw (valid_csrf, named, absent) q
          | inr (rec, present) ↦ elim (Bool-cases (expired s.cfg rec now)) [
            | inl old ↦ rw (valid_csrf, named, present, old) (removing cookie s.sessions q)
            | inr live ↦ rw (valid_csrf, named, present, live) q
          ]
        ]
      ]

  pub delete_keeps : (s : Store) (cookie : String) → Q s.sessions → Q (delete s cookie).sessions
  unfolding delete
  delete_keeps s cookie q = elim (Bool-cases (str_eq cookie "")) [
    | inl empty ↦ rw (delete, empty) q
    | inr named ↦ rw (delete, named) (removing cookie s.sessions q)
  ]

-- No call changes the configuration.
pub after-cfg : (D : Digests) (s : Store) (c : Call) → (after D s c).cfg ≡ s.cfg
unfolding after create lookup delete clear valid_csrf
after-cfg D s (creates now p cookie csrf public_id) = refl
after-cfg D s (looks_up now cookie) = ground arith
after-cfg D s (deletes cookie) = ground arith
after-cfg D s clears = refl
after-cfg D s (checks_csrf now cookie presented) = ground arith

-- The cookies that are issued are not empty.
abbrev pub IsNamed : Call → Type 0
IsNamed (creates now p cookie csrf public_id) = cookie ≢ ""
IsNamed _ = Unit {0}

abbrev FitsIn : ℕ → Dict Entry → Type 0
FitsIn max m = (length m ≤ max) × IsKeyed m

remove-FitsIn :
    (max : ℕ) (k : String) (m : Dict Entry) → FitsIn max m → FitsIn max (Dict.remove k m)
remove-FitsIn max k m (size, keyed) = (omega (arith, length-remove k m), remove-IsKeyed k m keyed)

touch-FitsIn :
    (max : ℕ) (k : String) (now : ℕ) (rec : Entry) (m : Dict Entry)
    → k ≢ ""
    → Dict.lookup k m ≡ some rec
    → FitsIn max m
    → FitsIn max (Dict.put k (touch now rec) m)
touch-FitsIn max k now rec m ne present (size, keyed) = (
  omega (arith, put-length k (touch now rec) rec m present),
  put-IsKeyed k (touch now rec) m ne keyed,
)

fits-IsBounded :
    (s s' : Store) → s'.cfg ≡ s.cfg → 1 ≤ s.cfg.max → FitsIn s.cfg.max s'.sessions → IsBounded s'
fits-IsBounded s s' same some_room (size, keyed) =
    let same_max = ap (λ (c : SessionConfig). c.max) same in (omega arith, omega arith, keyed)

after-IsBounded :
    (D : Digests) (s : Store) (c : Call) → IsNamed c → IsBounded s → IsBounded (after D s c)
unfolding after
after-IsBounded D s (creates now p cookie csrf public_id) ne bounded =
    create-IsBounded s now p cookie csrf public_id ne bounded
after-IsBounded D s (looks_up now cookie) ne (size, some_room, keyed) =
    fits-IsBounded s (lookup s now cookie).1 (after-cfg D s (looks_up now cookie)) some_room (
      lookup_keeps (FitsIn s.cfg.max) (remove-FitsIn s.cfg.max) (touch-FitsIn s.cfg.max) s now
        cookie (size, keyed))
after-IsBounded D s (deletes cookie) ne (size, some_room, keyed) =
    fits-IsBounded s (delete s cookie) (after-cfg D s (deletes cookie)) some_room (
      delete_keeps (FitsIn s.cfg.max) (remove-FitsIn s.cfg.max) (touch-FitsIn s.cfg.max) s cookie
        (size, keyed))
after-IsBounded D s clears ne (size, some_room, keyed) = unfold clear in (omega arith, some_room, _)
after-IsBounded D s (checks_csrf now cookie presented) ne (size, some_room, keyed) =
    fits-IsBounded s (valid_csrf D s now cookie presented).1
      (after-cfg D s (checks_csrf now cookie presented)) some_room
      (csrf_keeps (FitsIn s.cfg.max) (remove-FitsIn s.cfg.max) (touch-FitsIn s.cfg.max) D s now
        cookie presented (size, keyed))

run-IsBounded :
    (D : Digests) (s : Store) (cs : List Call)
    → All IsNamed cs
    → IsBounded s
    → IsBounded (run D s cs)
unfolding run
run-IsBounded D s [] ne bounded = bounded
run-IsBounded D s (c ∷ cs) (here, rest) bounded =
    run-IsBounded D (after D s c) cs rest (after-IsBounded D s c here bounded)

new_store-IsBounded : (cfg : SessionConfig) → IsBounded (new_store cfg)
unfolding new_store
new_store-IsBounded cfg = (ground arith, ground arith, _)

-- A new table never holds more sessions than its maximum, whatever calls are made, as long as the
-- cookies that are issued are not empty.
pub size_bounded :
    (D : Digests) (cfg : SessionConfig) (cs : List Call)
    → All IsNamed cs
    → length (run D (new_store cfg) cs).sessions ≤ (run D (new_store cfg) cs).cfg.max
size_bounded D cfg cs named = (run-IsBounded D (new_store cfg) cs named (new_store-IsBounded cfg)).0
