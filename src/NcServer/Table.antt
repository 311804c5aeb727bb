-- ===== src/NcServer/Table.antt =====
-- internal/ncserver/server.go: the users and the table of live sessions, and how changes of the users
-- end sessions. A datastore handle is a reference, a number; users carry no namespaces here.
use go_lab_netconf.Base.{
  ℕ, String, str_eq, eq_iff, Bool, true, false, Bool-cases, inl, inr, ◌&&◌, List, [], ◌∷◌, ◌++◌,
  none, some, ◌≡◌, ◌⊎◌, refl, sym, subst, All, ◌==◌, if◌then◌else◌,
}
use go_lab_netconf.Base.Dict
use go_lab_netconf.Base.Dict.{Dict}

pub record User : Type 0 where
  pub name : String
  pub profile : String
  pub access : String
  pub handle : ℕ

-- `indexUsers`: the last user of a name stays.
unfoldable pub index_onto : Dict User → List User → Dict User
index_onto users [] = users
index_onto users (u ∷ us) =
    let access = if str_eq u.access "" then "read-write" else u.access in
    index_onto (Dict.put u.name (record u { access = access }) users) us

abbrev pub index_users : List User → Dict User
index_users us = index_onto [] us

-- The test of `ReplaceUsers`, which is also the negation of `stale` in `Serve`.
unfoldable pub is_current : Dict User → User → Bool
is_current users u = elim (Dict.lookup u.name users) [
  | none ↦ false
  | some live ↦
      str_eq live.access u.access && str_eq live.profile u.profile && live.handle == u.handle
]

-- `sweeps` holds the indexes that were published by calls of `ReplaceUsers` which have not swept the
-- table yet.
pub record Server : Type 0 where
  pub users : Dict User
  pub sessions : Dict User
  pub sweeps : List (Dict User)

unfoldable pub current_sessions : Dict User → Dict User → Dict User
current_sessions users [] = []
current_sessions users ((id, u) ∷ m) =
    let rest = current_sessions users m in if is_current users u then (id, u) ∷ rest else rest

-- `Serve` up to the end of its critical section.
unfoldable pub register : Server → String → User → Server
register s id u =
    if is_current s.users u
    then record s { sessions = Dict.put id u s.sessions }
    else record s { sessions = Dict.remove id (Dict.put id u s.sessions) }

unfoldable pub drop : Server → String → Server
drop s id = record s { sessions = Dict.remove id s.sessions }

-- The steps of goroutines: `ReplaceUsers` publishes its index, and sweeps the table by that index
-- when it has the mutex, with other steps in between.
pub data Step : Server → Server → Type 0 where
  publishes :
      (s : Server) (us : List User)
      → Step s (record s { users = index_users us; sweeps = index_users us ∷ s.sweeps })
  sweeps :
      (s : Server) (front back : List (Dict User)) (next : Dict User)
      → s.sweeps ≡ front ++ next ∷ back
      → Step s (record s { sessions = current_sessions next s.sessions; sweeps = front ++ back })
  registers : (s : Server) (id : String) (u : User) → Step s (register s id u)
  drops : (s : Server) (id : String) → Step s (drop s id)

pub data Reachable : Server → Type 0 where
  starts :
      (us : List User) → Reachable (record { users = index_users us; sessions = []; sweeps = [] })
  steps : {s s' : Server} → Reachable s → Step s s' → Reachable s'

abbrev pub AllCurrent : Dict User → Dict User → Type 0
AllCurrent users = All (λ p. is_current users p.1 ≡ true)

abbrev pub IsAmong : Dict User → List (Dict User) → Type 0
IsAmong u [] = ⊥
IsAmong u (v ∷ vs) = (u ≡ v) ⊎ IsAmong u vs

current-AllCurrent : (users m : Dict User) → AllCurrent users (current_sessions users m)
unfolding current_sessions
current-AllCurrent users [] = _
current-AllCurrent users ((id, u) ∷ m) = elim (Bool-cases (is_current users u)) [
  | inl live ↦ rw live (live, current-AllCurrent users m)
  | inr stale ↦ rw stale (current-AllCurrent users m)
]

kept-AllCurrent :
    (users next m : Dict User) → AllCurrent users m → AllCurrent users (current_sessions next m)
unfolding current_sessions
kept-AllCurrent users next [] p = _
kept-AllCurrent users next ((id, u) ∷ m) (here, rest) =
    let later = kept-AllCurrent users next m rest in
    elim (Bool-cases (is_current next u)) [
      | inl live ↦ rw live (here, later)
      | inr stale ↦ rw stale later
    ]

remove-AllCurrent :
    (users : Dict User) (id : String) (m : Dict User)
    → AllCurrent users m
    → AllCurrent users (Dict.remove id m)
unfolding Dict.remove
remove-AllCurrent users id [] p = _
remove-AllCurrent users id ((j, u) ∷ m) (here, rest) =
    let later = remove-AllCurrent users id m rest in
    elim (Bool-cases (str_eq j id)) [
      | inl same ↦ rw same later
      | inr other ↦ rw other (here, later)
    ]

put-AllCurrent :
    (users : Dict User) (id : String) (u : User) (m : Dict User)
    → is_current users u ≡ true
    → AllCurrent users m
    → AllCurrent users (Dict.put id u m)
unfolding Dict.put
put-AllCurrent users id u [] new p = (new, p)
put-AllCurrent users id u ((j, v) ∷ m) new (here, rest) =
    let later = put-AllCurrent users id u m new rest in
    elim (Bool-cases (str_eq j id)) [
      | inl same ↦ rw same (new, rest)
      | inr other ↦ rw other (here, later)
    ]

put-remove-AllCurrent :
    (users : Dict User) (id : String) (u : User) (m : Dict User)
    → AllCurrent users m
    → AllCurrent users (Dict.remove id (Dict.put id u m))
unfolding Dict.put Dict.remove
put-remove-AllCurrent users id u [] p = rw ((eq_iff id id).1 refl) _
put-remove-AllCurrent users id u ((j, v) ∷ m) (here, rest) =
    let later = put-remove-AllCurrent users id u m rest in
    elim (Bool-cases (str_eq j id)) [
      | inl same ↦ rw (same, same) (remove-AllCurrent users id m rest)
      | inr other ↦ rw (other, other) (here, later)
    ]

IsAmong-split :
    (u v : Dict User) (front back : List (Dict User))
    → IsAmong u (front ++ v ∷ back)
    → (u ≡ v) ⊎ IsAmong u (front ++ back)
IsAmong-split u v [] back p = p
IsAmong-split u v (w ∷ front) back (inl e) = inr (inl e)
IsAmong-split u v (w ∷ front) back (inr p) = elim (IsAmong-split u v front back p) [
  | inl e ↦ inl e
  | inr q ↦ inr (inr q)
]

-- Either every live session is a current user's, or the call that published the users has still to
-- sweep.
abbrev pub IsGuarded : Server → Type 0
IsGuarded s = AllCurrent s.users s.sessions ⊎ IsAmong s.users s.sweeps

register-IsGuarded :
    (s : Server) (id : String) (u : User) → IsGuarded s → IsGuarded (register s id u)
unfolding register
register-IsGuarded s id u g = elim (Bool-cases (is_current s.users u)) [
  | inl live ↦
      rw (register, live)
        (elim g [
          | inl all ↦ inl (put-AllCurrent s.users id u s.sessions live all)
          | inr among ↦ inr among
        ])
  | inr stale ↦
      rw (register, stale)
        (elim g [
          | inl all ↦ inl (put-remove-AllCurrent s.users id u s.sessions all)
          | inr among ↦ inr among
        ])
]

Step-IsGuarded : {s s' : Server} → Step s s' → IsGuarded s → IsGuarded s'
unfolding drop
Step-IsGuarded (publishes s us) g = inr (inl refl)
Step-IsGuarded (sweeps s front back next p) (inl all) =
    inl (kept-AllCurrent s.users next s.sessions all)
Step-IsGuarded (sweeps s front back next p) (inr among) =
    elim (IsAmong-split s.users next front back (subst (IsAmong s.users) p among)) [
      | inl same ↦ inl (
          subst (λ u. AllCurrent u (current_sessions next s.sessions)) (sym same)
            (current-AllCurrent next s.sessions))
      | inr later ↦ inr later
    ]
Step-IsGuarded (registers s id u) g = register-IsGuarded s id u g
Step-IsGuarded (drops s id) (inl all) = inl (remove-AllCurrent s.users id s.sessions all)
Step-IsGuarded (drops s id) (inr among) = inr among

reachable-IsGuarded : {s : Server} → Reachable s → IsGuarded s
reachable-IsGuarded (starts us) = inl _
reachable-IsGuarded (steps reached step) = Step-IsGuarded step (reachable-IsGuarded reached)

-- Once every call of `ReplaceUsers` has swept, each live session is of a user who is there with the
-- same access, profile and datastore handle, however the calls and new sessions interleaved.
pub swept-AllCurrent : {s : Server} → Reachable s → s.sweeps ≡ [] → AllCurrent s.users s.sessions
swept-AllCurrent {s} reached done = elim (reachable-IsGuarded reached) [
  | inl all ↦ all
  | inr among ↦ elim (subst (IsAmong s.users) done among) [ ]
]
