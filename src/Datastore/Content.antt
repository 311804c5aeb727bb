-- ===== src/Datastore/Content.antt =====
-- What the methods of datastore.Handle do to the trees, the generation and the sink.
use go_lab_netconf.Base.{
  str_eq, eq_iff, true, false, none, some, ◌≡◌, refl, ap, ◌⊎◌, inl, inr, arith, if◌then◌else◌,
}
use go_lab_netconf.DomainErr.{AnyError}
use go_lab_netconf.Datastore.Yang.{Tree, ok}
use go_lab_netconf.Datastore.Names
use go_lab_netconf.Datastore.Names.{Name}
use go_lab_netconf.Datastore.{
  Context, EditOp, Handle, Outcome, store, put_store, next_gen, dirty, deny_if_locked, edit,
  write_running_if_candidate_clean, copy, delete, commit, discard, lock, unlock,
}
use go_lab_netconf.Datastore.Calls.{
  Call, gets, edits, writes_running, copies, deletes, commits, discards, locks, unlocks, step,
  after,
}

running_not_candidate :
    (x : Name) → str_eq x Names.running ≡ true → str_eq x Names.candidate ≡ false
running_not_candidate x p = rw ((eq_iff x Names.running).0 p)

module _ (T : Tree) (h : Handle T) (ctx : Context) where
  -- A commit that fails changes nothing, and hands nothing to the sink.
  pub commit_failure :
      {e : AnyError} → (commit T h ctx).0.0 ≡ some e → commit T h ctx ≡ ((some e, h), none)
  unfolding commit
  commit_failure p = ground arith

  -- After a successful commit of a regular candidate the handle is not dirty.
  pub dirty-commit :
      T.IsRegular h.candidate → (commit T h ctx).0.0 ≡ none → dirty T (commit T h ctx).0.1 ≡ false
  unfolding commit dirty
  dirty-commit r p = ground (arith, T.equal-clone_left h.candidate r)

  -- After a successful discard, over a regular running tree, the handle is not dirty.
  pub dirty-discard :
      T.IsRegular h.running → (discard T h ctx).0 ≡ none → dirty T (discard T h ctx).1 ≡ false
  unfolding discard dirty
  dirty-discard r p = ground (arith, T.equal-clone h.running r)

  -- The stores after the switch of `Copy`, where `dst` is a store.
  store-put_store :
      (dst y : Name) (n : T.Node) {m : T.Node}
      → store T h dst ≡ ok m
      → store T (put_store T h dst n) y ≡ (if str_eq y dst then ok n else store T h y)
  unfolding store put_store
  store-put_store dst y n known = ground (
    arith,
    eq_iff y dst,
    eq_iff y Names.running,
    eq_iff y Names.candidate,
    eq_iff y Names.startup,
    eq_iff dst Names.running,
    eq_iff dst Names.candidate,
    eq_iff dst Names.startup,
  )

  gen-put_store :
      (dst : Name) (n : T.Node) {m : T.Node}
      → store T h dst ≡ ok m
      → (put_store T h dst n).gen ≡ (if str_eq dst Names.candidate then h.gen else next_gen h.gen)
  unfolding store put_store
  gen-put_store dst n known = ground (arith, running_not_candidate dst)

  locks-put_store : (dst : Name) (n : T.Node) → (put_store T h dst n).locks ≡ h.locks
  unfolding put_store
  locks-put_store dst n = ground arith

  copy-put_store :
      (src dst : Name) {n m : T.Node}
      → ctx.error ≡ none
      → store T h src ≡ ok n
      → store T h dst ≡ ok m
      → str_eq src dst ≡ false
      → deny_if_locked T h dst ctx.session ≡ none
      → copy T h ctx src dst ≡ (none, put_store T h dst (T.clone n))
  unfolding copy
  copy-put_store src dst live from to differ free = ground arith

  -- A copy from one store to another succeeds when the context is live and no other session holds the
  -- lock on the target. Then the target is the source's clone and the other stores are as they were,
  -- so are the locks, and the generation is the next one unless the target is the candidate.
  pub copy_success :
      (src dst : Name) {n m : T.Node}
      → ctx.error ≡ none
      → store T h src ≡ ok n
      → store T h dst ≡ ok m
      → str_eq src dst ≡ false
      → deny_if_locked T h dst ctx.session ≡ none
      → ((copy T h ctx src dst).0 ≡ none)
        × ((y : Name)
            → store T (copy T h ctx src dst).1 y
              ≡ (if str_eq y dst then ok (T.clone n) else store T h y))
        × ((copy T h ctx src dst).1.gen
            ≡ (if str_eq dst Names.candidate then h.gen else next_gen h.gen))
        × ((copy T h ctx src dst).1.locks ≡ h.locks)
  copy_success src dst {n} live from to differ free =
      rw (copy-put_store src dst live from to differ free) (
        refl,
        λ y. store-put_store dst y (T.clone n) to,
        gen-put_store dst (T.clone n) to,
        locks-put_store dst (T.clone n),
      )

  -- The ways in which a call may change the running tree.
  abbrev pub RunningChange : Call T → Handle T → Type 0
  RunningChange c h' =
      ((h'.gen ≡ next_gen h.gen)
        × ((c ≡ commits) ⊎ ((src : Name) × (c ≡ copies src Names.running))))
      ⊎ ((h'.gen ≡ h.gen) × ((op : EditOp T) × (c ≡ writes_running op)))

  write-RunningChange :
      (op : EditOp T) (o : Outcome T)
      → write_running_if_candidate_clean T h ctx op ≡ o
      → (o.1.running ≡ h.running) ⊎ RunningChange (writes_running op) o.1
  unfolding write_running_if_candidate_clean
  write-RunningChange op o e = inr (inr (ground arith, (op, refl)))

  copy_gen :
      (src dst : Name)
      → ((copy T h ctx src dst).1.running ≡ h.running)
        ⊎ ((str_eq dst Names.running ≡ true) × ((copy T h ctx src dst).1.gen ≡ next_gen h.gen))
  unfolding copy put_store
  copy_gen src dst = ground arith

  -- The running tree is changed only by a commit or a copy to running, which take the generation to the
  -- next one, and by a write to running, which leaves it.
  pub running_writers :
      (c : Call T) → ((after T h ctx c).running ≡ h.running) ⊎ RunningChange c (after T h ctx c)
  unfolding step
  running_writers (gets x path) = inl refl
  running_writers (edits x op) = unfold edit in ground arith
  running_writers (writes_running op) = write-RunningChange op _ refl
  running_writers (copies src dst) = elim (copy_gen src dst) [
    | inl same ↦ inl same
    | inr (to_running, g) ↦
        inr (inl (g, inr (src, ap (copies src) ((eq_iff dst Names.running).0 to_running))))
  ]
  running_writers (deletes x) = unfold delete in ground arith
  running_writers commits = unfold commit in ground arith
  running_writers discards = unfold discard in ground arith
  running_writers (locks x s) = unfold lock in ground arith
  running_writers (unlocks x s) = unfold unlock in ground arith
