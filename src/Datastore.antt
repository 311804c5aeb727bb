-- ===== src/Datastore.antt =====
-- internal/datastore/datastore.go: one profile-instance's running, candidate and startup trees,
-- with the locks on them. The mutex makes each method one step; a call's context is an argument,
-- with the error of `ctx.Err()` and the session that `WithSessionID` put there ("" with none).
pub mod Yang
pub mod Names
pub mod Calls
pub mod Locks
pub mod Holders
pub mod Protection
pub mod Transactions
pub mod Content
pub mod Tests
use go_lab_netconf.Base.{
  Bytes, ℕ, ◌+◌, ◌%◌, ◌^◌, String, str_append, str_eq, Bool, true, false, not, ◌&&◌, List, [], ◌∷◌,
  Option, none, some, if◌then◌else◌,
}
use go_lab_netconf.Base.Dict
use go_lab_netconf.Base.Dict.{Dict}
use go_lab_netconf.DomainErr.{
  AnyError, validation_failed, not_writable, lock_denied, candidate_dirty,
}
use Names
use Names.{Name}
use Yang.{Tree, Change, Operation, Result, ok, err}

pub record Context : Type 0 where
  pub error : Option AnyError
  pub session : String

-- `CommitSink.OnCommit(profile, changes)`
pub record Event : Type 0 where
  pub profile : String
  pub changes : List Change

-- `h.gen++` on a uint64
abbrev pub next_gen : ℕ → ℕ
next_gen g = (g + 1) % 2 ^ 64

module _ (T : Tree) where
  open T use {Node, Value, is_zero, clone, equal, subtree, apply, empty_map, validate, diff}

  pub record EditOp : Type 0 where
    pub op : Operation
    pub path : Bytes
    pub value : Value

  -- `has_sink` is `sink != nil`.
  pub record Handle : Type 0 where
    pub profile : String
    pub running : Node
    pub candidate : Node
    pub startup : Node
    pub has_sink : Bool
    pub gen : ℕ
    pub locks : Dict String

  unfoldable pub new : String → Node → Node → Node → Bool → Handle
  new profile r c s sink = record {
    profile = profile;
    running = clone r;
    candidate = if is_zero c then clone (clone r) else clone c;
    startup = if is_zero s then clone (clone r) else clone s;
    has_sink = sink;
    gen = 0;
    locks = [];
  }

  -- `handle.store`
  unfoldable pub store : Handle → Name → Result Node
  store h name =
      if str_eq name Names.running
      then ok h.running
      else if str_eq name Names.candidate
      then ok h.candidate
      else if str_eq name Names.startup
      then ok h.startup
      else err (validation_failed "unknown datastore" [])

  -- `denyIfLocked`: the error of a write by a session, if another holds the lock.
  unfoldable pub deny_if_locked : Handle → Name → String → Option AnyError
  deny_if_locked h store session = elim (Dict.lookup store h.locks) [
    | none ↦ none
    | some holder ↦
        if not (str_eq session "") && str_eq holder session
        then none
        else some (lock_denied (str_append "datastore is locked by session " holder))
  ]

  unfoldable pub dirty : Handle → Bool
  dirty h = not (equal h.running h.candidate)

  -- What a method gives: its error, and the handle.
  abbrev pub Outcome : Type 0
  Outcome = Option AnyError × Handle

  -- `if err := e; err != nil { return err }`, and then the rest.
  abbrev pub or_return : Option AnyError → Handle → Outcome → Outcome
  or_return (some e) h rest = (some e, h)
  or_return none h rest = rest

  abbrev pub or_fail : Result Node → Handle → (Node → Outcome) → Outcome
  or_fail (ok n) h rest = rest n
  or_fail (err e) h rest = (some e, h)

  unfoldable pub get : Handle → Context → Name → Bytes → Result Node
  get h ctx name path = elim ctx.error [
    | some e ↦ err e
    | none ↦ elim (store h name) [ ok n ↦ subtree path n | err e ↦ err e ]
  ]

  unfoldable pub edit : Handle → Context → Name → EditOp → Outcome
  edit h ctx name op = or_return ctx.error h (
      if not (str_eq name Names.candidate)
      then (some (not_writable "edit-config target must be candidate"), h)
      else or_return (deny_if_locked h name ctx.session) h (
          or_fail (apply op.op op.path op.value h.candidate) h
            λ n. (none, record h { candidate = n })))

  unfoldable pub write_running_if_candidate_clean : Handle → Context → EditOp → Outcome
  write_running_if_candidate_clean h ctx op = or_return ctx.error h (
      if dirty h
      then (some (candidate_dirty "candidate is dirty"), h)
      else elim (Dict.lookup Names.candidate h.locks) [
        | some holder ↦ (some (candidate_dirty "candidate is locked"), h)
        | none ↦ or_return (deny_if_locked h Names.running ctx.session) h (
            or_fail (apply op.op op.path op.value (clone h.running)) h λ r.
              or_fail (apply op.op op.path op.value (clone h.candidate)) h
                λ c. (none, record h { running = r; candidate = c }))
      ])

  -- The switch at the end of `Copy`.
  unfoldable pub put_store : Handle → Name → Node → Handle
  put_store h dst n =
      if str_eq dst Names.running
      then record h { running = n; gen = next_gen h.gen }
      else if str_eq dst Names.candidate
      then record h { candidate = n }
      else if str_eq dst Names.startup
      then record h { startup = n; gen = next_gen h.gen }
      else h

  unfoldable pub copy : Handle → Context → Name → Name → Outcome
  copy h ctx src dst = or_return ctx.error h (
      or_fail (store h src) h λ from. or_fail (store h dst) h λ _.
        if str_eq src dst
        then (none, h)
        else or_return (deny_if_locked h dst ctx.session) h ((none, put_store h dst (clone from))))

  unfoldable pub delete : Handle → Context → Name → Outcome
  delete h ctx name = or_return ctx.error h (
      if not (str_eq name Names.startup)
      then (some (not_writable "delete-config target must be startup"), h)
      else or_return (deny_if_locked h name ctx.session) h (
          or_fail (apply "replace" [] empty_map (clone h.startup)) h
            λ n. (none, record h { startup = n })))

  -- `Commit`, with the event that it hands to the sink once the mutex is free.
  unfoldable pub commit : Handle → Context → Outcome × Option Event
  commit h ctx = elim ctx.error [
    | some e ↦ ((some e, h), none)
    | none ↦ elim (deny_if_locked h Names.candidate ctx.session) [
      | some e ↦ ((some e, h), none)
      | none ↦ elim (deny_if_locked h Names.running ctx.session) [
        | some e ↦ ((some e, h), none)
        | none ↦ elim (validate h.candidate) [
          | some e ↦ ((some e, h), none)
          | none ↦ (
            (none, record h { running = clone h.candidate; gen = next_gen h.gen }),
            if h.has_sink
                then some (record { profile = h.profile; changes = diff h.running h.candidate })
                else none,
          )
        ]
      ]
    ]
  ]

  unfoldable pub discard : Handle → Context → Outcome
  discard h ctx = or_return ctx.error h (
      or_return (deny_if_locked h Names.candidate ctx.session) h
        ((none, record h { candidate = clone h.running })))

  unfoldable pub lock : Handle → Context → Name → String → Outcome
  lock h ctx name session = or_return ctx.error h (
      if str_eq session ""
      then (some (validation_failed "session id is required to lock" []), h)
      else or_fail (store h name) h λ _.
        let taken = record h { locks = Dict.put name session h.locks } in
        elim (Dict.lookup name h.locks) [
          | none ↦ (none, taken)
          | some holder ↦
              if not (str_eq holder session)
              then (some (lock_denied (str_append "datastore is locked by session " holder)), h)
              else (none, taken)
        ])

  unfoldable pub unlock : Handle → Context → Name → String → Outcome
  unlock h ctx name session = or_return ctx.error h (
      or_fail (store h name) h λ _. elim (Dict.lookup name h.locks) [
        | none ↦ (some (lock_denied "datastore is not locked"), h)
        | some holder ↦
            if not (str_eq holder session)
            then (some (lock_denied (str_append "datastore is locked by session " holder)), h)
            else (none, record h { locks = Dict.remove name h.locks })
      ])

  -- `Locked`
  unfoldable pub locked : Handle → Name → Option String
  locked h name = Dict.lookup name h.locks

  held : Handle → Name → ℕ
  unfolding locked
  held h name = elim (locked h name) [ none ↦ 0 | some holder ↦ 1 ]

  -- `LockCount` on a handle that is not nil
  unfoldable pub lock_count : Handle → ℕ
  unfolding held
  lock_count h = held h Names.running + held h Names.candidate + held h Names.startup
