-- ===== src/NcServer/Requests/Unasked.antt =====
-- When a request of internal/ncserver/dispatch.go asks for no call of the handle: each call wants another
-- operation, datastore or edit than the request names.
use go_lab_netconf.Base.{
  String, str_eq, Bool, true, false, ◌||◌, ◌≡◌, refl, ◌⊎◌, inl, inr, sym, ap, ◌∙◌,
}
use mathlib.Core.Bool.{false≢true}
use go_lab_netconf.NcRpc.{Rpc}
use go_lab_netconf.Datastore.Yang.{Tree}
use go_lab_netconf.Datastore.{EditOp}
use go_lab_netconf.Datastore.Calls.{
  Call, gets, edits, writes_running, copies, deletes, commits, discards, locks, unlocks,
}
use go_lab_netconf.NcServer.{parsed, Codec, Session}
use go_lab_netconf.NcServer.Requests.{IsStore, asking, IsDefault, Fits, AsksNothing}

module _ (T : Tree) (X : Codec T) (s : Session) (rpc : Rpc) where
  target_needed :
      (c : Call T)
      → Fits T X s rpc c
      → (str_eq (asking T X s rpc c) "edit-config"
            || str_eq (asking T X s rpc c) "commit"
            || str_eq (asking T X s rpc c) "discard-changes"
          ≡ true)
        ⊎ IsStore rpc.target
  target_needed (edits x op) f = inl refl
  target_needed (copies src dst) (a, b, source, target) = inr target
  target_needed (deletes x) (a, target) = inr target
  target_needed (locks x t) (a, target, b) = inr target
  target_needed (unlocks x t) (a, target, b) = inr target
  target_needed commits f = inl refl
  target_needed discards f = inl refl
  target_needed (gets x path) f = absurd f
  target_needed (writes_running op) f = absurd f

  source_needed :
      (c : Call T)
      → Fits T X s rpc c
      → (str_eq (asking T X s rpc c) "copy-config" ≡ false) ⊎ IsStore rpc.source
  source_needed (copies src dst) (a, b, source, target) = inr source
  source_needed (edits x op) f = inl refl
  source_needed (deletes x) f = inl refl
  source_needed (locks x t) f = inl refl
  source_needed (unlocks x t) f = inl refl
  source_needed commits f = inl refl
  source_needed discards f = inl refl
  source_needed (gets x path) f = absurd f
  source_needed (writes_running op) f = absurd f

  abbrev pub IsEdit : Type 0
  IsEdit =
      (op : EditOp T) × (rpc.target ≡ "candidate")
      × (X.decode_config rpc.config ≡ parsed op.value)
      × IsDefault T X s rpc op.op

  edit_needed :
      (c : Call T) → Fits T X s rpc c → (str_eq (asking T X s rpc c) "edit-config" ≡ false) ⊎ IsEdit
  edit_needed (edits x op) (a, target, path, value, default) = inr (op, target, value, default)
  edit_needed (copies src dst) f = inl refl
  edit_needed (deletes x) f = inl refl
  edit_needed (locks x t) f = inl refl
  edit_needed (unlocks x t) f = inl refl
  edit_needed commits f = inl refl
  edit_needed discards f = inl refl
  edit_needed (gets x path) f = absurd f
  edit_needed (writes_running op) f = absurd f

  pub AsksNothing-target :
      str_eq rpc.name "edit-config" || str_eq rpc.name "commit" || str_eq rpc.name "discard-changes"
        ≡ false
      → ¬ IsStore rpc.target
      → AsksNothing T X s rpc
  AsksNothing-target e lacks c (n, f) = elim (target_needed c f) [
    | inr m ↦ lacks m
    | inl k ↦ false≢true (
        sym e
        ∙ ap (λ x. str_eq x "edit-config" || str_eq x "commit" || str_eq x "discard-changes") n
        ∙ k)
  ]

  pub AsksNothing-source :
      str_eq rpc.name "copy-config" ≡ true → ¬ IsStore rpc.source → AsksNothing T X s rpc
  AsksNothing-source e lacks c (n, f) = elim (source_needed c f) [
    | inr m ↦ lacks m
    | inl k ↦ false≢true (sym k ∙ sym (ap (λ x. str_eq x "copy-config") n) ∙ e)
  ]

  pub AsksNothing-edit : str_eq rpc.name "edit-config" ≡ true → ¬ IsEdit → AsksNothing T X s rpc
  AsksNothing-edit e lacks c (n, f) = elim (edit_needed c f) [
    | inr m ↦ lacks m
    | inl k ↦ false≢true (sym k ∙ sym (ap (λ x. str_eq x "edit-config") n) ∙ e)
  ]

  abbrev pub calling : String → Bool
  calling name =
      str_eq name "edit-config"
      || str_eq name "copy-config"
      || str_eq name "delete-config"
      || str_eq name "lock"
      || str_eq name "unlock"
      || str_eq name "commit"
      || str_eq name "discard-changes"

  asking-calling : (c : Call T) → Fits T X s rpc c → calling (asking T X s rpc c) ≡ true
  asking-calling (edits x op) f = refl
  asking-calling (copies src dst) f = refl
  asking-calling (deletes x) f = refl
  asking-calling (locks x t) f = refl
  asking-calling (unlocks x t) f = refl
  asking-calling commits f = refl
  asking-calling discards f = refl
  asking-calling (gets x path) f = absurd f
  asking-calling (writes_running op) f = absurd f

  pub AsksNothing-name : calling rpc.name ≡ false → AsksNothing T X s rpc
  AsksNothing-name e c (n, f) = false≢true (sym e ∙ ap calling n ∙ asking-calling c f)
