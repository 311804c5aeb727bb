-- ===== src/Datastore/Calls.antt =====
-- The methods of datastore.Handle as one step on a call, and sequences of calls of many sessions.
use go_lab_netconf.Base.{Bytes, String, List, [], ◌∷◌, Option, none, some, ◌≡◌}
use go_lab_netconf.DomainErr.{AnyError}
use go_lab_netconf.Datastore.Yang.{Tree, ok, err}
use go_lab_netconf.Datastore.Names.{Name}
use go_lab_netconf.Datastore.{
  Context, Event, EditOp, Handle, Outcome, get, edit, write_running_if_candidate_clean, copy,
  delete, commit, discard, lock, unlock,
}

module _ (T : Tree) where
  -- `lock` and `unlock` are given a session of their own, the others take it from the context.
  pub data Call : Type 0 where
    gets : Name → Bytes → Call
    edits : Name → EditOp T → Call
    writes_running : EditOp T → Call
    copies : Name → Name → Call
    deletes : Name → Call
    commits discards : Call
    locks unlocks : Name → String → Call

  unfoldable pub step : Handle T → Context → Call → Outcome T × Option Event
  step h ctx (gets name path) =
      ((elim (get T h ctx name path) [ ok n ↦ none | err e ↦ some e ], h), none)
  step h ctx (edits name op) = (edit T h ctx name op, none)
  step h ctx (writes_running op) = (write_running_if_candidate_clean T h ctx op, none)
  step h ctx (copies src dst) = (copy T h ctx src dst, none)
  step h ctx (deletes name) = (delete T h ctx name, none)
  step h ctx commits = commit T h ctx
  step h ctx discards = (discard T h ctx, none)
  step h ctx (locks name session) = (lock T h ctx name session, none)
  step h ctx (unlocks name session) = (unlock T h ctx name session, none)

  abbrev pub after : Handle T → Context → Call → Handle T
  after h ctx c = (step h ctx c).0.1

  abbrev pub error_of : Handle T → Context → Call → Option AnyError
  error_of h ctx c = (step h ctx c).0.0

  unfoldable pub run : Handle T → List (Context × Call) → Handle T
  run h [] = h
  run h ((ctx, c) ∷ cs) = run (after h ctx c) cs

  -- The call is made by session `s`.
  abbrev pub IsBy : String → Context → Call → Type 0
  IsBy s ctx (locks name session) = session ≡ s
  IsBy s ctx (unlocks name session) = session ≡ s
  IsBy s ctx _ = ctx.session ≡ s
