-- ===== src/Datastore/Protection.antt =====
-- datastore.Handle: a lock keeps the calls of all other sessions off its tree.
use go_lab_netconf.Base.{
  String, str_eq, eq_iff, Bool, true, false, not, List, [], ◌∷◌, Option, none, some, ◌≡◌, ◌≢◌, refl,
  sym, ◌∙◌, All, arith, if◌then◌else◌, Bool-cases, inl, inr,
}
use go_lab_netconf.Base.Dict
use go_lab_netconf.Base.Dict.{lookup-put, lookup-remove}
use go_lab_netconf.DomainErr.{AnyError}
use go_lab_netconf.Datastore.Yang.{Tree, Result, ok, err}
use go_lab_netconf.Datastore.Names
use go_lab_netconf.Datastore.Names.{Name}
use go_lab_netconf.Datastore.{
  Context, EditOp, Handle, Outcome, or_return, or_fail, store, put_store, dirty, deny_if_locked,
  edit, write_running_if_candidate_clean, copy, delete, commit, discard, lock, unlock,
}
use go_lab_netconf.Datastore.Calls.{
  Call, gets, edits, writes_running, copies, deletes, commits, discards, locks, unlocks, step,
  after, run, IsBy,
}

module _ (T : Tree) (h : Handle T) (name : Name) where
  open T use {Node}

  -- The handle `h'` shows the same tree and the same lock under `name`.
  abbrev pub Kept : Handle T → Type 0
  Kept h' =
      (store T h' name ≡ store T h name) × (Dict.lookup name h'.locks ≡ Dict.lookup name h.locks)

  Kept-or_return :
      (o : Option AnyError) (rest : Outcome T)
      → (o ≡ none → Kept rest.1)
      → Kept (or_return T o h rest).1
  Kept-or_return none rest k = k refl
  Kept-or_return (some e) rest k = (refl, refl)

  Kept-or_fail :
      (r : Result Node) (rest : Node → Outcome T)
      → ((n : Node) → Kept (rest n).1)
      → Kept (or_fail T r h rest).1
  Kept-or_fail (ok n) rest k = k n
  Kept-or_fail (err e) rest k = (refl, refl)

  Kept-if :
      (b : Bool) (e : AnyError) (rest : Outcome T)
      → (b ≡ false → Kept rest.1)
      → Kept (if b then (some e, h) else rest).1
  Kept-if true e rest k = (refl, refl)
  Kept-if false e rest k = k refl

  Kept-unlocked :
      (o : Option String) (e : AnyError) (rest : Outcome T)
      → (o ≡ none → Kept rest.1)
      → Kept (let r : Outcome T = elim o [ none ↦ rest | some holder ↦ (some e, h) ] in r).1
  Kept-unlocked none e rest k = k refl
  Kept-unlocked (some holder) e rest k = (refl, refl)

  -- Writes to another store than `name`.
  candidate-Kept :
      (n : Node) → str_eq name Names.candidate ≡ false → Kept (record h { candidate = n })
  unfolding store
  candidate-Kept n p = ground arith

  startup-Kept : (n : Node) → str_eq name Names.startup ≡ false → Kept (record h { startup = n })
  unfolding store
  startup-Kept n p = ground arith

  both-Kept :
      (r c : Node)
      → str_eq name Names.running ≡ false
      → str_eq name Names.candidate ≡ false
      → Kept (record h { running = r; candidate = c })
  unfolding store
  both-Kept r c p q = ground arith

  put_store-Kept : (dst : Name) (n : Node) → str_eq name dst ≡ false → Kept (put_store T h dst n)
  unfolding store put_store
  put_store-Kept dst n p = ground (
    arith,
    eq_iff name dst,
    eq_iff dst Names.running,
    eq_iff dst Names.candidate,
    eq_iff dst Names.startup,
    eq_iff name Names.running,
    eq_iff name Names.candidate,
    eq_iff name Names.startup,
  )

module _ (T : Tree) (h : Handle T) (name : Name) (t : String) (ctx : Context)
    (hold : Dict.lookup name h.locks ≡ some t) where
  open T use {Node}

  -- A store whose write is not denied to another session is another store.
  allowed-ne :
      (x : Name) → ctx.session ≢ t → deny_if_locked T h x ctx.session ≡ none → str_eq name x ≡ false
  unfolding deny_if_locked
  allowed-ne x other p = ground (arith, eq_iff name x, eq_iff t ctx.session)

  unlocked-ne : (x : Name) → Dict.lookup x h.locks ≡ none → str_eq name x ≡ false
  unlocked-ne x p = ground (arith, eq_iff name x)

  edit-Kept : (x : Name) (op : EditOp T) → ctx.session ≢ t → Kept T h name (edit T h ctx x op).1
  unfolding edit
  edit-Kept x op other = Kept-or_return T h name ctx.error _ λ _.
      Kept-if T h name (not (str_eq x Names.candidate)) _ _ λ is_candidate.
        Kept-or_return T h name (deny_if_locked T h x ctx.session) _ λ allowed.
          Kept-or_fail T h name (T.apply op.op op.path op.value h.candidate) _ λ n.
            candidate-Kept T h name n
              (ground (arith, eq_iff x Names.candidate, allowed-ne x other allowed))

  write_running-Kept :
      (op : EditOp T)
      → ctx.session ≢ t
      → Kept T h name (write_running_if_candidate_clean T h ctx op).1
  unfolding write_running_if_candidate_clean
  write_running-Kept op other = Kept-or_return T h name ctx.error _ λ _.
      Kept-if T h name (dirty T h) _ _ λ _.
        Kept-unlocked T h name (Dict.lookup Names.candidate h.locks) _ _ λ free.
          Kept-or_return T h name (deny_if_locked T h Names.running ctx.session) _ λ allowed.
            Kept-or_fail T h name (T.apply op.op op.path op.value (T.clone h.running)) _ λ r.
              Kept-or_fail T h name (T.apply op.op op.path op.value (T.clone h.candidate)) _ λ c.
                both-Kept T h name r c (allowed-ne Names.running other allowed)
                  (unlocked-ne Names.candidate free)

  copy-Kept : (src dst : Name) → ctx.session ≢ t → Kept T h name (copy T h ctx src dst).1
  unfolding copy
  copy-Kept src dst other = Kept-or_return T h name ctx.error _ λ _.
      Kept-or_fail T h name (store T h src) _ λ from. Kept-or_fail T h name (store T h dst) _ λ _.
        elim (Bool-cases (str_eq src dst)) [
          | inl same ↦ rw same (refl, refl)
          | inr differ ↦ rw differ (
              Kept-or_return T h name (deny_if_locked T h dst ctx.session) _ λ allowed.
                put_store-Kept T h name dst (T.clone from) (allowed-ne dst other allowed))
        ]

  delete-Kept : (x : Name) → ctx.session ≢ t → Kept T h name (delete T h ctx x).1
  unfolding delete
  delete-Kept x other = Kept-or_return T h name ctx.error _ λ _.
      Kept-if T h name (not (str_eq x Names.startup)) _ _ λ is_startup.
        Kept-or_return T h name (deny_if_locked T h x ctx.session) _ λ allowed.
          Kept-or_fail T h name (T.apply "replace" [] T.empty_map (T.clone h.startup)) _ λ n.
            startup-Kept T h name n
              (ground (arith, eq_iff x Names.startup, allowed-ne x other allowed))

  discard-Kept : ctx.session ≢ t → Kept T h name (discard T h ctx).1
  unfolding discard
  discard-Kept other = Kept-or_return T h name ctx.error _ λ _.
      Kept-or_return T h name (deny_if_locked T h Names.candidate ctx.session) _ λ allowed.
        candidate-Kept T h name (T.clone h.running) (allowed-ne Names.candidate other allowed)

  commit-Kept : ctx.session ≢ t → Kept T h name (commit T h ctx).0.1
  unfolding commit store
  commit-Kept other = ground (arith, allowed-ne Names.running other, eq_iff name Names.running)

  lock-Kept : (x : Name) (s : String) → s ≢ t → Kept T h name (lock T h ctx x s).1
  unfolding lock store
  lock-Kept x s other = ground (arith, lookup-put x name s h.locks, eq_iff x name, eq_iff t s)

  unlock-Kept : (x : Name) (s : String) → s ≢ t → Kept T h name (unlock T h ctx x s).1
  unfolding unlock store
  unlock-Kept x s other = ground (arith, lookup-remove x name h.locks, eq_iff x name, eq_iff t s)

  -- A call by any other session keeps what the lock of session `t` on `name` protects.
  pub step-Kept :
      (c : Call T) (s : String) → IsBy T s ctx c → s ≢ t → Kept T h name (after T h ctx c)
  unfolding step
  step-Kept (gets x path) s by other = (refl, refl)
  step-Kept (edits x op) s by other = edit-Kept x op (λ e. other (sym by ∙ e))
  step-Kept (writes_running op) s by other = write_running-Kept op (λ e. other (sym by ∙ e))
  step-Kept (copies src dst) s by other = copy-Kept src dst (λ e. other (sym by ∙ e))
  step-Kept (deletes x) s by other = delete-Kept x (λ e. other (sym by ∙ e))
  step-Kept commits s by other = commit-Kept (λ e. other (sym by ∙ e))
  step-Kept discards s by other = discard-Kept (λ e. other (sym by ∙ e))
  step-Kept (locks x s') s by other = lock-Kept x s' (λ e. other (sym by ∙ e))
  step-Kept (unlocks x s') s by other = unlock-Kept x s' (λ e. other (sym by ∙ e))

-- No call of the sequence is made by session `t`.
abbrev pub NoneBy : (T : Tree) → String → List (Context × Call T) → Type 0
NoneBy T t = All (λ p. (s : String) × IsBy T s p.0 p.1 × (s ≢ t))

-- While session `t` holds the lock on a store, no sequence of calls by other sessions changes that
-- store's tree or takes the lock away.
pub lock_protects :
    (T : Tree) (h : Handle T) (name : Name) (t : String) (cs : List (Context × Call T))
    → Dict.lookup name h.locks ≡ some t
    → NoneBy T t cs
    → Kept T h name (run T h cs)
unfolding run
lock_protects T h name t [] hold none_by = (refl, refl)
lock_protects T h name t ((ctx, c) ∷ cs) hold ((s, by, other), rest) =
    let (tree, holder) = step-Kept T h name t ctx hold c s by other in
    let (tree', holder') = lock_protects T (after T h ctx c) name t cs (holder ∙ hold) rest in
    (tree' ∙ tree, holder' ∙ holder)
