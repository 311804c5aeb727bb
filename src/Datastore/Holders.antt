-- ===== src/Datastore/Holders.antt =====
-- datastore.Handle: who can be found holding a lock.
use go_lab_netconf.Base.{
  String, str_eq, eq_iff, Bool, true, ◌||◌, List, [], ◌∷◌, some, ◌≡◌, ◌≢◌, sym, ◌∙◌, subst, ap,
  arith, inl, inr, Option-cases,
}
use go_lab_netconf.Base.Dict
use go_lab_netconf.Datastore.Yang.{Tree, ok}
use go_lab_netconf.Datastore.Names
use go_lab_netconf.Datastore.Names.{Name}
use go_lab_netconf.Datastore.{
  Context, EditOp, Handle, new, store, put_store, edit, write_running_if_candidate_clean, copy,
  delete, commit, discard, lock, unlock, locked,
}
use go_lab_netconf.Datastore.Calls.{
  Call, gets, edits, writes_running, copies, deletes, commits, discards, locks, unlocks, step,
  after, run,
}
use go_lab_netconf.Datastore.Locks.{error_unchanged, lock_iff, lock_effect, unlock_effect}

abbrev pub is_store : Name → Bool
is_store y = str_eq y Names.running || str_eq y Names.candidate || str_eq y Names.startup

module _ (T : Tree) where
  -- A lock that is held is held on a store, by a session that has a name.
  pub record HasRealHolders (h : Handle T) : Type 0 where
    pub real : (y : Name) (t : String) → locked T h y ≡ some t → (t ≢ "") × (is_store y ≡ true)

  same_locks : {h h' : Handle T} → h'.locks ≡ h.locks → HasRealHolders h → HasRealHolders h'
  unfolding locked
  same_locks e v = record { real = λ y t p. v.real y t (ap (Dict.lookup y) (sym e) ∙ p) }

  store-is_store : (h : Handle T) (x : Name) {n : T.Node} → store T h x ≡ ok n → is_store x ≡ true
  unfolding store
  store-is_store h x p = ground arith

  module _ (h : Handle T) (ctx : Context) where
    edit-locks : (x : Name) (op : EditOp T) → (edit T h ctx x op).1.locks ≡ h.locks
    unfolding edit
    edit-locks x op = ground arith

    write_running-locks :
        (op : EditOp T) → (write_running_if_candidate_clean T h ctx op).1.locks ≡ h.locks
    unfolding write_running_if_candidate_clean
    write_running-locks op = ground arith

    copy-locks : (src dst : Name) → (copy T h ctx src dst).1.locks ≡ h.locks
    unfolding copy put_store
    copy-locks src dst = ground arith

    delete-locks : (x : Name) → (delete T h ctx x).1.locks ≡ h.locks
    unfolding delete
    delete-locks x = ground arith

    commit-locks : (commit T h ctx).0.1.locks ≡ h.locks
    unfolding commit
    commit-locks = ground arith

    discard-locks : (discard T h ctx).1.locks ≡ h.locks
    unfolding discard
    discard-locks = ground arith

    lock-HasRealHolders :
        (x : Name) (s : String) → HasRealHolders h → HasRealHolders (lock T h ctx x s).1
    lock-HasRealHolders x s v = elim (Option-cases (lock T h ctx x s).0) [
      | inr (e, failed) ↦
          let same : (lock T h ctx x s).1 ≡ h =
            unfold step in error_unchanged T h ctx (locks x s) failed in
          subst HasRealHolders (sym same) v
      | inl done ↦
          let (live, named, (n, known), free) = (lock_iff T h ctx x s).0 done in
          let (now, same) = lock_effect T h ctx x s done in
          record {
            real = λ y t p. ground (arith, now y, v.real y t, eq_iff x y, store-is_store h x known);
          }
    ]

    unlock-HasRealHolders :
        (x : Name) (s : String) → HasRealHolders h → HasRealHolders (unlock T h ctx x s).1
    unlock-HasRealHolders x s v = elim (Option-cases (unlock T h ctx x s).0) [
      | inr (e, failed) ↦
          let same : (unlock T h ctx x s).1 ≡ h =
            unfold step in error_unchanged T h ctx (unlocks x s) failed in
          subst HasRealHolders (sym same) v
      | inl done ↦
          let (now, same) = unlock_effect T h ctx x s done in
          record { real = λ y t p. ground (arith, now y, v.real y t) }
    ]

    step-HasRealHolders : (c : Call T) → HasRealHolders h → HasRealHolders (after T h ctx c)
    unfolding step
    step-HasRealHolders (gets x path) v = v
    step-HasRealHolders (edits x op) v = same_locks (edit-locks x op) v
    step-HasRealHolders (writes_running op) v = same_locks (write_running-locks op) v
    step-HasRealHolders (copies src dst) v = same_locks (copy-locks src dst) v
    step-HasRealHolders (deletes x) v = same_locks (delete-locks x) v
    step-HasRealHolders commits v = same_locks commit-locks v
    step-HasRealHolders discards v = same_locks discard-locks v
    step-HasRealHolders (locks x s) v = lock-HasRealHolders x s v
    step-HasRealHolders (unlocks x s) v = unlock-HasRealHolders x s v

  run-HasRealHolders :
      (h : Handle T) (cs : List (Context × Call T)) → HasRealHolders h → HasRealHolders (run T h cs)
  unfolding run
  run-HasRealHolders h [] v = v
  run-HasRealHolders h ((ctx, c) ∷ cs) v =
      run-HasRealHolders (after T h ctx c) cs (step-HasRealHolders h ctx c v)

  -- From a new handle, whatever calls any sessions make, a lock is only ever held on one of the three
  -- stores, and by a session whose id is not empty.
  pub run-new-HasRealHolders :
      (profile : String) (r c s : T.Node) (sink : Bool) (cs : List (Context × Call T))
      → HasRealHolders (run T (new T profile r c s sink) cs)
  run-new-HasRealHolders profile r c s sink cs =
      run-HasRealHolders _ cs (unfold new locked Dict.lookup in record { real = λ y t p. cc })
