-- ===== src/Auth/Sessions/Lifetime.antt =====
-- internal/auth/session.go: how long a session that was issued is honoured, and for whom.
use go_lab_netconf.Base.{
  Bytes, ℕ, ◌-◌, ◌≤◌, ◌<◌, String, str_eq, eq_iff, true, Bool-cases, Option-cases, inl, inr, List,
  [], ◌∷◌, none, some, ◌≡◌, ◌≢◌, refl, sym, ◌∙◌, ap, All, length, leb, arith,
}
use go_lab_netconf.Base.Dict
use go_lab_netconf.Base.Dict.{Dict}
use go_lab_netconf.Auth.{Digests, Principal}
use go_lab_netconf.Auth.Sessions.{
  Entry, SessionConfig, Store, expired, live_entries, oldest_from, evict_oldest, create, lookup,
  clear, valid_csrf, new_entry, touch, Call, creates, looks_up, deletes, clears, checks_csrf, after,
  run,
}
use go_lab_netconf.Auth.Sessions.Runs.{lookup_keeps, csrf_keeps, delete_keeps, after-cfg}

module _ (cookie : String) (t0 : ℕ) (csrf : Bytes) where
  -- The entry, if it has this cookie, was created at the time with the CSRF secret.
  abbrev IsIssued : String × Entry → Type 0
  IsIssued (k, rec) = k ≡ cookie → (rec.created_at ≡ t0) × (rec.csrf ≡ csrf)

  abbrev AllIssued : Dict Entry → Type 0
  AllIssued = All IsIssued

  absent-AllIssued : (m : Dict Entry) → Dict.lookup cookie m ≡ none → AllIssued m
  unfolding Dict.lookup
  absent-AllIssued [] p = _
  absent-AllIssued ((k, rec) ∷ m) p =
      (λ e. ground (arith, eq_iff k cookie), absent-AllIssued m (ground (arith, eq_iff k cookie)))

  lookup-AllIssued :
      (m : Dict Entry) (rec : Entry)
      → AllIssued m
      → Dict.lookup cookie m ≡ some rec
      → (rec.created_at ≡ t0) × (rec.csrf ≡ csrf)
  unfolding Dict.lookup
  lookup-AllIssued [] rec p found = ground arith
  lookup-AllIssued ((k, r) ∷ m) rec (here, rest) found = elim (Bool-cases (str_eq k cookie)) [
    | inl same ↦ ground (arith, eq_iff k cookie)
    | inr other ↦ lookup-AllIssued m rec rest (ground arith)
  ]

  live-AllIssued :
      (cfg : SessionConfig) (now : ℕ) (m : Dict Entry)
      → AllIssued m
      → AllIssued (live_entries cfg now m)
  unfolding live_entries
  live-AllIssued cfg now [] p = p
  live-AllIssued cfg now ((k, rec) ∷ m) (here, rest) =
      let later = live-AllIssued cfg now m rest in
      elim (Bool-cases (expired cfg rec now)) [
        | inl old ↦ rw old later
        | inr fresh ↦ rw fresh (here, later)
      ]

  remove-AllIssued : (k : String) (m : Dict Entry) → AllIssued m → AllIssued (Dict.remove k m)
  unfolding Dict.remove
  remove-AllIssued k [] p = p
  remove-AllIssued k ((j, r) ∷ m) (here, rest) =
      let later = remove-AllIssued k m rest in
      elim (Bool-cases (str_eq j k)) [
        | inl same ↦ rw same later
        | inr other ↦ rw other (here, later)
      ]

  put-AllIssued :
      (k : String) (rec : Entry) (m : Dict Entry)
      → IsIssued (k, rec)
      → AllIssued m
      → AllIssued (Dict.put k rec m)
  unfolding Dict.put
  put-AllIssued k rec [] new p = (new, p)
  put-AllIssued k rec ((j, r) ∷ m) new (here, rest) =
      let later = put-AllIssued k rec m new rest in
      elim (Bool-cases (str_eq j k)) [
        | inl same ↦ rw same ((λ e. new (sym ((eq_iff j k).0 same) ∙ e)), rest)
        | inr other ↦ rw other (here, later)
      ]

  evict-AllIssued : (m : Dict Entry) → AllIssued m → AllIssued (evict_oldest m)
  unfolding evict_oldest
  evict-AllIssued [] p = p
  evict-AllIssued ((k, rec) ∷ m) p =
      let found = (oldest_from k rec.last_seen m).0 in
      elim (Bool-cases (str_eq found "")) [
        | inl none_found ↦ rw none_found p
        | inr some_found ↦ rw some_found (remove-AllIssued found ((k, rec) ∷ m) p)
      ]

  touch-AllIssued :
      (k : String) (now : ℕ) (rec : Entry) (m : Dict Entry)
      → k ≢ ""
      → Dict.lookup k m ≡ some rec
      → AllIssued m
      → AllIssued (Dict.put k (touch now rec) m)
  touch-AllIssued k now rec m ne present p =
      put-AllIssued k (touch now rec) m
        (λ e. lookup-AllIssued m rec p (ap (λ j. Dict.lookup j m) (sym e) ∙ present)) p

  create-AllIssued :
      (s : Store) (now : ℕ) (p : Principal) (k : String) (c : Bytes) (public_id : String)
      → IsIssued (k, new_entry p c public_id now)
      → AllIssued s.sessions
      → AllIssued (create s now p k c public_id).sessions
  unfolding create
  create-AllIssued s now p k c public_id new issued =
      let live = live_entries s.cfg now s.sessions in
      let live_issued = live-AllIssued s.cfg now s.sessions issued in
      elim (Bool-cases (leb s.cfg.max (length live))) [
        | inl full ↦
            rw (create, full)
              (put-AllIssued k (new_entry p c public_id now) (evict_oldest live) new
                (evict-AllIssued live live_issued))
        | inr free ↦
            rw (create, free) (put-AllIssued k (new_entry p c public_id now) live new live_issued)
      ]

-- No call issues the cookie again.
abbrev pub IsOther : String → Call → Type 0
IsOther cookie (creates now p c csrf public_id) = c ≢ cookie
IsOther cookie _ = Unit {0}

module _ (D : Digests) (cookie : String) (t0 : ℕ) (csrf : Bytes) where
  abbrev Issued : Dict Entry → Type 0
  Issued = AllIssued cookie t0 csrf

  after-AllIssued :
      (s : Store) (c : Call) → IsOther cookie c → Issued s.sessions → Issued (after D s c).sessions
  unfolding after
  after-AllIssued s (creates now p c secret public_id) other issued =
      create-AllIssued cookie t0 csrf s now p c secret public_id (λ e. ground arith) issued
  after-AllIssued s (looks_up now c) other issued =
      lookup_keeps Issued (remove-AllIssued cookie t0 csrf) (touch-AllIssued cookie t0 csrf) s now c
        issued
  after-AllIssued s (deletes c) other issued =
      delete_keeps Issued (remove-AllIssued cookie t0 csrf) (touch-AllIssued cookie t0 csrf) s c
        issued
  after-AllIssued s clears other issued = unfold clear in _
  after-AllIssued s (checks_csrf now c presented) other issued =
      csrf_keeps Issued (remove-AllIssued cookie t0 csrf) (touch-AllIssued cookie t0 csrf) D s now c
        presented issued

  run-AllIssued :
      (s : Store) (cs : List Call)
      → All (IsOther cookie) cs
      → Issued s.sessions
      → Issued (run D s cs).sessions
  unfolding run
  run-AllIssued s [] others issued = issued
  run-AllIssued s (c ∷ cs) (other, others) issued =
      run-AllIssued (after D s c) cs others (after-AllIssued s c other issued)

  run-cfg : (s : Store) (cs : List Call) → (run D s cs).cfg ≡ s.cfg
  unfolding run
  run-cfg s [] = refl
  run-cfg s (c ∷ cs) = run-cfg (after D s c) cs ∙ after-cfg D s c

  lookup-Issued :
      (s : Store) (now : ℕ)
      → Issued s.sessions
      → s.cfg.absolute < now - t0
      → (lookup s now cookie).0 ≡ none
  unfolding lookup expired
  lookup-Issued s now issued late = elim (Option-cases (Dict.lookup cookie s.sessions)) [
    | inl absent ↦ ground arith
    | inr (rec, present) ↦
        let (created, secret) = lookup-AllIssued cookie t0 csrf s.sessions rec issued present in
        ground arith
  ]

  csrf-Issued :
      (s : Store) (now : ℕ) (presented : Bytes)
      → Issued s.sessions
      → (valid_csrf D s now cookie presented).0 ≡ true
      → (D.digest_secret presented ≡ D.digest_secret csrf) × (now - t0 ≤ s.cfg.absolute)
  unfolding valid_csrf expired
  csrf-Issued s now presented issued valid = elim (Option-cases (Dict.lookup cookie s.sessions)) [
    | inl absent ↦ ground arith
    | inr (rec, present) ↦
        let (created, secret) = lookup-AllIssued cookie t0 csrf s.sessions rec issued present in
        let digests =
          (D.equal_digest_iff (D.digest_secret rec.csrf) (D.digest_secret presented)).0 in
        let accepted : (D.equal_digest (D.digest_secret rec.csrf) (D.digest_secret presented)
              ≡ true)
            × (now - rec.created_at ≤ s.cfg.absolute) =
          ground arith in
        (sym (digests accepted.0) ∙ ap D.digest_secret secret, omega arith)
  ]

  run-Issued :
      (s : Store) (p : Principal) (public_id : String) (cs : List Call)
      → Dict.lookup cookie s.sessions ≡ none
      → All (IsOther cookie) cs
      → Issued (run D (create s t0 p cookie csrf public_id) cs).sessions
  run-Issued s p public_id cs new others =
      run-AllIssued (create s t0 p cookie csrf public_id) cs others (
        create-AllIssued cookie t0 csrf s t0 p cookie csrf public_id (λ e. (refl, refl))
          (absent-AllIssued cookie t0 csrf s.sessions new))

  run-create-cfg :
      (s : Store) (p : Principal) (public_id : String) (cs : List Call)
      → (run D (create s t0 p cookie csrf public_id) cs).cfg ≡ s.cfg
  unfolding create after
  run-create-cfg s p public_id cs =
      run-cfg (create s t0 p cookie csrf public_id) cs
      ∙ after-cfg D s (creates t0 p cookie csrf public_id)

-- A session that was created at `t0` under a new cookie is not found once more than the absolute
-- lifetime has passed since, whatever calls came between that did not issue the same cookie: lookups
-- do not prolong it.
pub session_ends :
    (D : Digests) (s : Store) (t0 : ℕ) (p : Principal) (cookie : String) (csrf : Bytes)
    (public_id : String) (cs : List Call) (now : ℕ)
    → Dict.lookup cookie s.sessions ≡ none
    → All (IsOther cookie) cs
    → s.cfg.absolute < now - t0
    → (lookup (run D (create s t0 p cookie csrf public_id) cs) now cookie).0 ≡ none
session_ends D s t0 p cookie csrf public_id cs now new others late =
    let same =
      ap (λ (c : SessionConfig). c.absolute) (run-create-cfg D cookie t0 csrf s p public_id cs) in
    lookup-Issued D cookie t0 csrf (run D (create s t0 p cookie csrf public_id) cs) now
      (run-Issued D cookie t0 csrf s p public_id cs new others) (omega arith)

-- A CSRF secret is accepted for a cookie only if its digest is that of the secret that was issued with
-- the cookie, and only within the absolute lifetime.
pub csrf_own :
    (D : Digests) (s : Store) (t0 : ℕ) (p : Principal) (cookie : String) (csrf : Bytes)
    (public_id : String) (cs : List Call) (now : ℕ) (presented : Bytes)
    → Dict.lookup cookie s.sessions ≡ none
    → All (IsOther cookie) cs
    → (valid_csrf D (run D (create s t0 p cookie csrf public_id) cs) now cookie presented).0 ≡ true
    → (D.digest_secret presented ≡ D.digest_secret csrf) × (now - t0 ≤ s.cfg.absolute)
csrf_own D s t0 p cookie csrf public_id cs now presented new others valid =
    let same =
      ap (λ (c : SessionConfig). c.absolute) (run-create-cfg D cookie t0 csrf s p public_id cs) in
    let (digests, early) =
      csrf-Issued D cookie t0 csrf (run D (create s t0 p cookie csrf public_id) cs) now presented
        (run-Issued D cookie t0 csrf s p public_id cs new others) valid in
    (digests, omega arith)
