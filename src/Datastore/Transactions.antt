-- ===== src/Datastore/Transactions.antt =====
-- datastore.Handle: a session that holds the locks on the candidate and the running store edits the
-- candidate, while other sessions make any calls, and then commits.
use go_lab_netconf.Base.{
  String, eq_iff, List, [], ◌∷◌, Option, none, some, ◌≡◌, ◌≢◌, refl, sym, ap, subst, ◌∙◌, arith,
  if◌then◌else◌,
}
use go_lab_netconf.Base.Dict
use go_lab_netconf.DomainErr.{AnyError}
use go_lab_netconf.Datastore.Yang.{Tree, ok, err}
use go_lab_netconf.Datastore.Names
use go_lab_netconf.Datastore.{
  Context, Event, EditOp, Handle, Outcome, store, next_gen, deny_if_locked, edit, commit,
}
use go_lab_netconf.Datastore.Calls.{Call, edits, step, after, run, IsBy}
use go_lab_netconf.Datastore.Protection.{step-Kept}

module _ (T : Tree) where
  -- The operations on a tree, in order; one that does not apply is passed over.
  pub applied : List (EditOp T) → T.Node → T.Node
  applied [] n = n
  applied (op ∷ ops) n = elim (T.apply op.op op.path op.value n) [
    | ok m ↦ applied ops m
    | err e ↦ applied ops n
  ]

  -- A sequence of calls in which session `s` makes the given edits of the candidate, and others make any
  -- calls.
  pub data Transaction (s : String) : List (Context × Call T) → List (EditOp T) → Type 0 where
    starts : Transaction s [] []
    own :
        {cs : List (Context × Call T)} {ops : List (EditOp T)} (ctx : Context) (op : EditOp T)
        → ctx.error ≡ none
        → ctx.session ≡ s
        → Transaction s cs ops
        → Transaction s ((ctx, edits Names.candidate op) ∷ cs) (op ∷ ops)
    others :
        {cs : List (Context × Call T)} {ops : List (EditOp T)} (ctx : Context) (c : Call T)
        (s' : String)
        → IsBy T s' ctx c
        → s' ≢ s
        → Transaction s cs ops
        → Transaction s ((ctx, c) ∷ cs) ops

  -- Both locks are held by the session.
  abbrev pub HoldsBoth : String → Handle T → Type 0
  HoldsBoth s h =
      (Dict.lookup Names.candidate h.locks ≡ some s) × (Dict.lookup Names.running h.locks ≡ some s)

  own_lock :
      (h : Handle T) (ctx : Context) (x : Names.Name) (s : String)
      → Dict.lookup x h.locks ≡ some s
      → s ≢ ""
      → ctx.session ≡ s
      → deny_if_locked T h x ctx.session ≡ none
  unfolding deny_if_locked
  own_lock h ctx x s hold real same = rw same (ground (arith, eq_iff s s, eq_iff s ""))

  own_edit :
      (h : Handle T) (ctx : Context) (op : EditOp T) (s : String)
      → HoldsBoth s h
      → s ≢ ""
      → ctx.error ≡ none
      → ctx.session ≡ s
      → (edit T h ctx Names.candidate op).1 ≡ record h { candidate = applied (op ∷ []) h.candidate }
  unfolding edit applied
  own_edit h ctx op s (hold, b) real live same =
      let free = own_lock h ctx Names.candidate s hold real same in
      rw (edit, live, free) (ground arith)

  applied-cons :
      (op : EditOp T) (ops : List (EditOp T)) (n : T.Node)
      → applied (op ∷ ops) n ≡ applied ops (applied (op ∷ []) n)
  unfolding applied
  applied-cons op ops n = ground arith

  -- What the calls come to: the edits are applied, running is as it was, and both locks are held.
  Isolated : String → List (EditOp T) → Handle T → Handle T → Type 0
  Isolated s ops h k =
      (k.candidate ≡ applied ops h.candidate) × (k.running ≡ h.running) × HoldsBoth s k

  same_running :
      (h k : Handle T) → store T k Names.running ≡ store T h Names.running → k.running ≡ h.running
  unfolding store
  same_running h k p = ground arith

  same_candidate :
      (h k : Handle T)
      → store T k Names.candidate ≡ store T h Names.candidate
      → k.candidate ≡ h.candidate
  unfolding store
  same_candidate h k p = ground arith

  own_step :
      (h k : Handle T) (ctx : Context) (op : EditOp T) (ops : List (EditOp T)) (s : String)
      → (edit T h ctx Names.candidate op).1 ≡ record h { candidate = applied (op ∷ []) h.candidate }
      → Isolated s ops (edit T h ctx Names.candidate op).1 k
      → Isolated s (op ∷ ops) h k
  unfolding Isolated
  own_step h k ctx op ops s e (candidate, running, both) = (
    candidate
        ∙ ap (λ (x : Handle T). applied ops x.candidate) e
        ∙ sym (applied-cons op ops h.candidate),
    running ∙ ap (λ (x : Handle T). x.running) e,
    both,
  )

  isolated :
      (s : String) (h : Handle T) {cs : List (Context × Call T)} {ops : List (EditOp T)}
      → HoldsBoth s h
      → s ≢ ""
      → Transaction s cs ops
      → Isolated s ops h (run T h cs)
  unfolding run applied Isolated step
  isolated s h both real starts = (refl, refl, both)
  isolated s h {cs = _ ∷ cs} {ops = _ ∷ ops} both real (own ctx op live same t) =
      let e = own_edit h ctx op s both real live same in
      let h' = (edit T h ctx Names.candidate op).1 in
      let kept : HoldsBoth s h' = subst (HoldsBoth s) (sym e) both in
      own_step h (run T h' cs) ctx op ops s e (isolated s h' kept real t)
  isolated s h {cs = _ ∷ cs} (hold, hold') real (others ctx c s' by other t) =
      let (tree, lock) = step-Kept T h Names.candidate s ctx hold c s' by other in
      let (tree', lock') = step-Kept T h Names.running s ctx hold' c s' by other in
      let h' = after T h ctx c in
      let (candidate, running, both) = isolated s h' (lock ∙ hold, lock' ∙ hold') real t in
      (
        candidate ∙ ap (applied _) (same_candidate h h' tree),
        running ∙ same_running h h' tree',
        both,
      )

  -- What a commit on handle `k` comes to, from the running tree `old` to the tree `n`, when the validation
  -- of `n` answers with an error, or with none.
  abbrev pub committed : Handle T → T.Node → T.Node → Option AnyError → Outcome T × Option Event
  committed k old n (some e) = ((some e, k), none)
  committed k old n none = (
    (none, record k { running = T.clone n; gen = next_gen k.gen }),
    if k.has_sink then some (record { profile = k.profile; changes = T.diff old n }) else none,
  )

  own_commit :
      (k : Handle T) (ctx : Context) (s : String) (o : Option AnyError)
      → HoldsBoth s k
      → s ≢ ""
      → ctx.error ≡ none
      → ctx.session ≡ s
      → T.validate k.candidate ≡ o
      → commit T k ctx ≡ committed k k.running k.candidate o
  unfolding commit
  own_commit k ctx s none (hold, hold') real live same v =
      let free = own_lock k ctx Names.candidate s hold real same in
      let free' = own_lock k ctx Names.running s hold' real same in
      rw (commit, live, free, free', v) refl
  own_commit k ctx s (some e) (hold, hold') real live same v =
      let free = own_lock k ctx Names.candidate s hold real same in
      let free' = own_lock k ctx Names.running s hold' real same in
      rw (commit, live, free, free', v) refl

  -- When a session that holds the locks on the candidate and the running store edits the candidate and
  -- then commits, whatever calls other sessions make before the commit: running is as it was up to the
  -- commit; the commit fails exactly with the error of the validation of the candidate at the start with
  -- the session's edits applied in order, and then changes nothing; else running becomes the clone of
  -- that tree, the generation the next one, and a sink is handed the difference from the running tree at
  -- the start. An edit that does not apply is passed over.
  pub transaction-commit :
      (h : Handle T) (s : String) (cs : List (Context × Call T)) (ops : List (EditOp T))
      (ctx : Context)
      → HoldsBoth s h
      → s ≢ ""
      → Transaction s cs ops
      → ctx.error ≡ none
      → ctx.session ≡ s
      → ((run T h cs).running ≡ h.running)
        × (commit T (run T h cs) ctx
            ≡ committed
                (run T h cs)
                h.running
                (applied ops h.candidate)
                (T.validate (applied ops h.candidate)))
  unfolding Isolated
  transaction-commit h s cs ops ctx both real t live same =
      let k = run T h cs in
      let (candidate, running, held) = isolated s h both real t in
      let result = own_commit k ctx s (T.validate k.candidate) held real live same refl in
      (
        running,
        result
            ∙ ap (λ n. committed k k.running n (T.validate n)) candidate
            ∙ ap
                (λ o.
                  committed k o (applied ops h.candidate) (T.validate (applied ops h.candidate)))
                running,
      )
