-- ===== src/Datastore/Locks.antt =====
-- The locks of datastore.Handle: what a lock protects, and who takes and gives it back.
use go_lab_netconf.Base.{
  String, str_eq, eq_iff, none, some, ◌≡◌, ◌≢◌, refl, ◌⊎◌, ◌↔◌, Option-cases, inl, inr, arith,
  if◌then◌else◌,
}
use go_lab_netconf.Base.Dict
use go_lab_netconf.Base.Dict.{lookup-put, lookup-remove}
use go_lab_netconf.DomainErr.{AnyError}
use go_lab_netconf.Datastore.Yang.{Tree, ok}
use go_lab_netconf.Datastore.Names.{Name}
use go_lab_netconf.Datastore.{
  Context, EditOp, Handle, Outcome, store, edit, write_running_if_candidate_clean, copy, delete,
  commit, discard, lock, unlock, locked,
}
use go_lab_netconf.Datastore.Calls.{
  Call, gets, edits, writes_running, copies, deletes, commits, discards, locks, unlocks, step,
  after, error_of,
}

module _ (T : Tree) where
  -- The outcome of a call on `h` that either succeeds or leaves `h` as it was.
  abbrev Atomic : Handle T → Outcome T → Type 0
  Atomic h (none, h') = Unit {0}
  Atomic h (some e, h') = h' ≡ h

  edit-Atomic :
      (h : Handle T) (ctx : Context) (name : Name) (op : EditOp T) → Atomic h (edit T h ctx name op)
  unfolding edit
  edit-Atomic h ctx name op = ground arith

  write_running-Atomic :
      (h : Handle T) (ctx : Context) (op : EditOp T)
      → Atomic h (write_running_if_candidate_clean T h ctx op)
  unfolding write_running_if_candidate_clean
  write_running-Atomic h ctx op = ground arith

  copy-Atomic : (h : Handle T) (ctx : Context) (src dst : Name) → Atomic h (copy T h ctx src dst)
  unfolding copy
  copy-Atomic h ctx src dst = ground arith

  delete-Atomic : (h : Handle T) (ctx : Context) (name : Name) → Atomic h (delete T h ctx name)
  unfolding delete
  delete-Atomic h ctx name = ground arith

  commit-Atomic : (h : Handle T) (ctx : Context) → Atomic h (commit T h ctx).0
  unfolding commit
  commit-Atomic h ctx = ground arith

  discard-Atomic : (h : Handle T) (ctx : Context) → Atomic h (discard T h ctx)
  unfolding discard
  discard-Atomic h ctx = ground arith

  lock-Atomic :
      (h : Handle T) (ctx : Context) (name : Name) (s : String) → Atomic h (lock T h ctx name s)
  unfolding lock
  lock-Atomic h ctx name s = ground arith

  unlock-Atomic :
      (h : Handle T) (ctx : Context) (name : Name) (s : String) → Atomic h (unlock T h ctx name s)
  unfolding unlock
  unlock-Atomic h ctx name s = ground arith

  commit-no_event :
      (h : Handle T) (ctx : Context) {e : AnyError}
      → (commit T h ctx).0.0 ≡ some e
      → (commit T h ctx).1 ≡ none
  unfolding commit
  commit-no_event h ctx p = ground arith

  -- A call that fails changes nothing.
  pub error_unchanged :
      (h : Handle T) (ctx : Context) (c : Call T) {e : AnyError}
      → error_of T h ctx c ≡ some e
      → after T h ctx c ≡ h
  unfolding step
  error_unchanged h ctx (gets name path) p = refl
  error_unchanged h ctx (edits name op) p = ground (arith, edit-Atomic h ctx name op)
  error_unchanged h ctx (writes_running op) p = ground (arith, write_running-Atomic h ctx op)
  error_unchanged h ctx (copies src dst) p = ground (arith, copy-Atomic h ctx src dst)
  error_unchanged h ctx (deletes name) p = ground (arith, delete-Atomic h ctx name)
  error_unchanged h ctx commits p = ground (arith, commit-Atomic h ctx)
  error_unchanged h ctx discards p = ground (arith, discard-Atomic h ctx)
  error_unchanged h ctx (locks name s) p = ground (arith, lock-Atomic h ctx name s)
  error_unchanged h ctx (unlocks name s) p = ground (arith, unlock-Atomic h ctx name s)

  -- A call that fails hands no event to the sink.
  pub error_no_event :
      (h : Handle T) (ctx : Context) (c : Call T) {e : AnyError}
      → error_of T h ctx c ≡ some e
      → (step T h ctx c).1 ≡ none
  unfolding step
  error_no_event h ctx (gets name path) p = refl
  error_no_event h ctx (edits name op) p = refl
  error_no_event h ctx (writes_running op) p = refl
  error_no_event h ctx (copies src dst) p = refl
  error_no_event h ctx (deletes name) p = refl
  error_no_event h ctx commits p = commit-no_event h ctx p
  error_no_event h ctx discards p = refl
  error_no_event h ctx (locks name s) p = refl
  error_no_event h ctx (unlocks name s) p = refl

-- The store `x` exists.
abbrev pub IsKnown : (T : Tree) → Handle T → Name → Type 0
IsKnown T h x = (n : T.Node) × (store T h x ≡ ok n)

module _ (T : Tree) (h : Handle T) (ctx : Context) (x : Name) (s : String) where
  holder_ok : (lock T h ctx x s).0 ≡ none → (locked T h x ≡ none) ⊎ (locked T h x ≡ some s)
  unfolding lock locked
  holder_ok e = elim (Option-cases (Dict.lookup x h.locks)) [
    | inl free ↦ inl free
    | inr (t, held) ↦ inr (ground (arith, eq_iff t s))
  ]

  holder_own : (unlock T h ctx x s).0 ≡ none → locked T h x ≡ some s
  unfolding unlock locked
  holder_own e = elim (Option-cases (Dict.lookup x h.locks)) [
    | inl free ↦ ground arith
    | inr (t, held) ↦ ground (arith, eq_iff t s)
  ]

  -- `Lock` succeeds exactly when the context is live, the session is named, the store exists, and
  -- nobody or the session itself holds its lock.
  pub lock_iff : ((lock T h ctx x s).0 ≡ none) ↔ (
      (ctx.error ≡ none)
      × (s ≢ "")
      × IsKnown T h x
      × ((locked T h x ≡ none) ⊎ (locked T h x ≡ some s)))
  unfolding lock locked
  lock_iff = (
    λ e. (ground arith, ground (arith, eq_iff s ""), ground arith, holder_ok e),
    λ p. ground (arith, eq_iff s "", eq_iff s s),
  )

  -- After a lock that succeeds the session holds it, the locks on the other stores are as they were,
  -- and so is all else.
  pub lock_effect :
      (lock T h ctx x s).0 ≡ none
      → ((y : Name)
          → locked T (lock T h ctx x s).1 y ≡ (if str_eq x y then some s else locked T h y))
        × (record (lock T h ctx x s).1 { locks = h.locks } ≡ h)
  unfolding lock locked
  lock_effect e = (λ y. ground (arith, lookup-put x y s h.locks), ground arith)

  -- `Unlock` succeeds exactly when the context is live, the store exists, and the session holds its
  -- lock.
  pub unlock_iff :
      ((unlock T h ctx x s).0 ≡ none)
      ↔ ((ctx.error ≡ none) × IsKnown T h x × (locked T h x ≡ some s))
  unfolding unlock locked
  unlock_iff = (λ e. (ground arith, ground arith, holder_own e), λ p. ground (arith, eq_iff s s))

  -- After an unlock that succeeds nobody holds the lock, the locks on the other stores are as they
  -- were, and so is all else.
  pub unlock_effect :
      (unlock T h ctx x s).0 ≡ none
      → ((y : Name)
          → locked T (unlock T h ctx x s).1 y ≡ (if str_eq x y then none else locked T h y))
        × (record (unlock T h ctx x s).1 { locks = h.locks } ≡ h)
  unfolding unlock locked
  unlock_effect e = (λ y. ground (arith, lookup-remove x y h.locks), ground arith)
