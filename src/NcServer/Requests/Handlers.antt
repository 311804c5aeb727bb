-- ===== src/NcServer/Requests/Handlers.antt =====
-- The handlers of internal/ncserver/dispatch.go, one by one: each request is handled as it asks.
use go_lab_netconf.Base.{
  String, str_eq, true, false, not, ◌||◌, List, [], Option, none, some, ◌≡◌, refl, ◌⊎◌, inl, inr,
  ◌≢◌, sym, subst, ◌∙◌, eq_iff, if◌then◌else◌, arith,
}
use mathlib.Core.Bool.{false≢true}
use go_lab_netconf.DomainErr.{AnyError}
use go_lab_netconf.NcRpc.{Rpc, Error}
use go_lab_netconf.Datastore.Yang.{Tree}
use go_lab_netconf.Datastore.Names
use go_lab_netconf.Datastore.Names.{Name}
use go_lab_netconf.Datastore.{Context, Event, Handle, Outcome}
use go_lab_netconf.Datastore.Calls.{
  Call, edits, copies, deletes, commits, discards, locks, unlocks, step, after, error_of,
}
use go_lab_netconf.NcServer.{
  member, mutating, rpc_err, err_reply, Resolved, named, refused, store_name, Codec, Session,
  Dispatched, replies, reply_of, with_store, get_at, do_get_filtered, do_get, apply_edit, do_edit,
  do_copy, do_delete, do_lock, validate_at, do_validate, do_kill, do_subscribe, route,
}
use go_lab_netconf.NcServer.Requests.{
  both_branches, tested, either_parse, IsStore, Resolves, store_name-Resolves, Tells, reading,
  IsReading, test_at, Asks, IsDefault, AsksNothing, own, IsHandled, reads, refuses, calls,
}
use go_lab_netconf.NcServer.Requests.Unasked.{
  AsksNothing-target, AsksNothing-source, AsksNothing-edit, AsksNothing-name,
}

module _ (T : Tree) (X : Codec T) (h : Handle T) (s : Session) (ctx_error : Option AnyError)
    (rpc : Rpc) where
  abbrev Handles : Dispatched T → Type 0
  Handles = IsHandled T X h s ctx_error rpc

  abbrev context : Context
  context = own T X h s ctx_error rpc

  module _ (named_id : rpc.message_id ≢ "")
      (may_write : mutating rpc.name ≡ true → s.access ≡ "read-write") where
    reply_of-IsHandled :
        (c : Call T)
        → Asks T X s rpc c
        → mutating rpc.name ≡ true
        → (o : Outcome T) (event : Option Event) → step T h context c ≡ (o, event)
        → Handles (record (reply_of T X rpc.message_id o) { event = event })
    reply_of-IsHandled c asked m (none, h') event p =
        calls c asked (may_write m) named_id (rw (after, p) refl) (rw p refl) refl
          (rw (Tells, error_of, p) refl)
    reply_of-IsHandled c asked m (some e, h') event p =
        calls c asked (may_write m) named_id (rw (after, p) refl) (rw p refl) refl
          (rw (Tells, error_of, p) refl)

    quiet-IsHandled :
        (c : Call T)
        → Asks T X s rpc c
        → mutating rpc.name ≡ true
        → (o : Outcome T) → step T h context c ≡ (o, none)
        → Handles (reply_of T X rpc.message_id o)
    quiet-IsHandled c asked m (none, h') p = reply_of-IsHandled c asked m (none, h') none p
    quiet-IsHandled c asked m (some e, h') p = reply_of-IsHandled c asked m (some e, h') none p

    -- A leaf that answers an operation of the name with an error.
    unasked :
        (name : String) (e : Error)
        → str_eq rpc.name name ≡ true
        → reading name ≡ false
        → AsksNothing T X s rpc
        → Handles (replies T X h (err_reply rpc.message_id e))
    unasked name e is not_reading lacks =
        refuses rpc.message_id e
          (inr
            (inr (lacks, λ r. false≢true (sym not_reading ∙ sym (test_at reading _ name is) ∙ r))))
          refl

    untargeted :
        (name : String) (e : Error)
        → str_eq rpc.name name ≡ true
        → reading name ≡ false
        → str_eq name "edit-config" || str_eq name "commit" || str_eq name "discard-changes" ≡ false
        → ¬ IsStore rpc.target
        → Handles (replies T X h (err_reply rpc.message_id e))
    untargeted name e is not_reading targeted lacks = unasked name e is not_reading (
        AsksNothing-target T X s rpc
          (test_at (λ x. str_eq x "edit-config" || str_eq x "commit" || str_eq x "discard-changes")
              _ name is
            ∙ targeted)
          lacks)

    with_target-IsHandled :
        (name : String) (k : Name → Dispatched T)
        → str_eq rpc.name name ≡ true
        → reading name ≡ false
        → str_eq name "edit-config" || str_eq name "commit" || str_eq name "discard-changes" ≡ false
        → (IsStore rpc.target → Handles (k rpc.target))
        → (x : Resolved) → Resolves rpc.target x
        → Handles (with_store T X h rpc x k)
    with_target-IsHandled name k is not_reading targeted p (named x) (same, store) =
        subst (λ y. Handles (k y)) (sym same) (p store)
    with_target-IsHandled name k is not_reading targeted p (refused e) lacks =
        untargeted name e is not_reading targeted lacks

    with_source-IsHandled :
        (k : Name → Dispatched T)
        → str_eq rpc.name "copy-config" ≡ true
        → (IsStore rpc.source → Handles (k rpc.source))
        → (x : Resolved) → Resolves rpc.source x
        → Handles (with_store T X h rpc x k)
    with_source-IsHandled k is p (named x) (same, store) =
        subst (λ y. Handles (k y)) (sym same) (p store)
    with_source-IsHandled k is p (refused e) lacks =
        unasked "copy-config" e is refl (AsksNothing-source T X s rpc is lacks)

    reading_store-IsHandled :
        (x : Resolved) (k : Name → Dispatched T)
        → IsReading rpc.name
        → ((name : Name) → Handles (k name))
        → Handles (with_store T X h rpc x k)
    reading_store-IsHandled (named x) k r p = p x
    reading_store-IsHandled (refused e) k r p = reads r refl refl (inl refl)

    asked : (name : String) → str_eq rpc.name name ≡ true → rpc.name ≡ name
    asked name is = (eq_iff rpc.name name).0 is

    do_get-IsHandled :
        (ctx : Context) (x : Name) → IsReading rpc.name → Handles (do_get T X h ctx rpc x)
    unfolding do_get do_get_filtered get_at
    do_get-IsHandled ctx x r = reads r (ground arith) (ground arith) (inl (ground arith))

    edit-IsHandled :
        (op : String)
        → str_eq rpc.name "edit-config" ≡ true
        → rpc.target ≡ "candidate"
        → IsDefault T X s rpc op
        → Handles (apply_edit T X h context rpc op)
    unfolding apply_edit step mutating
    edit-IsHandled op is target default =
        either_parse Handles (X.decode_config rpc.config)
          (λ msg e.
            unasked "edit-config" (rpc_err "application" "unknown-element" msg) is refl
              (AsksNothing-edit T X s rpc is λ p. ground arith))
          (λ tree e.
            quiet-IsHandled (edits Names.candidate (record { op = op; path = []; value = tree }))
              (asked "edit-config" is, (refl, target, refl, e, default))
              (test_at mutating _ "edit-config" is) _ refl)

    merges :
        str_eq rpc.default_op "" || str_eq rpc.default_op "merge" ≡ true
        → (rpc.default_op ≡ "") ⊎ (rpc.default_op ≡ "merge")
    merges m = ground (arith, eq_iff rpc.default_op "", eq_iff rpc.default_op "merge")

    unmergeable :
        str_eq rpc.default_op "" || str_eq rpc.default_op "merge" ≡ false
        → str_eq rpc.default_op "replace" ≡ false
        → (op : String) → ¬ IsDefault T X s rpc op
    unmergeable m r op (inl (e, p)) = ground (arith, eq_iff rpc.default_op "replace")
    unmergeable m r op (inr (inl e, p)) = ground (arith, eq_iff rpc.default_op "")
    unmergeable m r op (inr (inr e, p)) = ground (arith, eq_iff rpc.default_op "merge")

    do_edit-IsHandled : str_eq rpc.name "edit-config" ≡ true → Handles (do_edit T X h context rpc)
    unfolding do_edit
    do_edit-IsHandled is =
        tested Handles (not (str_eq rpc.target "candidate"))
          (λ e. unasked "edit-config" _ is refl (
            AsksNothing-edit T X s rpc is
              λ p. let target = p.1 in ground (arith, eq_iff rpc.target "candidate")))
          λ e.
            let target : rpc.target ≡ "candidate" = ground (arith, eq_iff rpc.target "candidate") in
            tested Handles (str_eq rpc.default_op "" || str_eq rpc.default_op "merge")
              (λ m. edit-IsHandled "merge" is target (inr (merges m, refl)))
              λ m.
                tested Handles (str_eq rpc.default_op "replace")
                  (λ r.
                    edit-IsHandled "replace" is target
                      (inl ((eq_iff rpc.default_op "replace").0 r, refl)))
                  λ r.
                    unasked "edit-config" _ is refl
                      (AsksNothing-edit T X s rpc is λ p. unmergeable m r p.0.op p.3)

    do_copy-IsHandled : str_eq rpc.name "copy-config" ≡ true → Handles (do_copy T X h context rpc)
    unfolding do_copy step mutating
    do_copy-IsHandled is =
        with_source-IsHandled _ is
          (λ source.
            with_target-IsHandled "copy-config" _ is refl refl
              (λ target.
                quiet-IsHandled (copies rpc.source rpc.target)
                  (asked "copy-config" is, (refl, refl, source, target))
                  (test_at mutating _ "copy-config" is) _ refl)
              (store_name rpc.target true) (store_name-Resolves rpc.target))
          (store_name rpc.source true) (store_name-Resolves rpc.source)

    do_delete-IsHandled :
        str_eq rpc.name "delete-config" ≡ true → Handles (do_delete T X h context rpc)
    unfolding do_delete step mutating
    do_delete-IsHandled is =
        with_target-IsHandled "delete-config" _ is refl refl
          (λ target.
            quiet-IsHandled (deletes rpc.target) (asked "delete-config" is, (refl, target))
              (test_at mutating _ "delete-config" is) _ refl)
          (store_name rpc.target true) (store_name-Resolves rpc.target)

    do_lock-IsHandled : str_eq rpc.name "lock" ≡ true → Handles (do_lock T X s h context rpc true)
    unfolding do_lock step mutating
    do_lock-IsHandled is =
        with_target-IsHandled "lock" _ is refl refl
          (λ target.
            quiet-IsHandled (locks rpc.target s.id) (asked "lock" is, (refl, target, refl))
              (test_at mutating _ "lock" is) _ refl)
          (store_name rpc.target true) (store_name-Resolves rpc.target)

    do_unlock-IsHandled :
        str_eq rpc.name "unlock" ≡ true → Handles (do_lock T X s h context rpc false)
    unfolding do_lock step mutating
    do_unlock-IsHandled is =
        with_target-IsHandled "unlock" _ is refl refl
          (λ target.
            quiet-IsHandled (unlocks rpc.target s.id) (asked "unlock" is, (refl, target, refl))
              (test_at mutating _ "unlock" is) _ refl)
          (store_name rpc.target true) (store_name-Resolves rpc.target)

    do_validate-IsHandled :
        (ctx : Context) → IsReading rpc.name → Handles (do_validate T X h ctx rpc)
    unfolding do_validate validate_at
    do_validate-IsHandled ctx r =
        both_branches Handles (not (str_eq rpc.source ""))
          (reading_store-IsHandled (store_name rpc.source true) _ r
            (λ x. reads r refl refl (inl refl)))
          (reads r refl refl (inl refl))

    do_kill-IsHandled :
        (live : List String)
        → str_eq rpc.name "kill-session" ≡ true
        → Handles (do_kill T X s live h rpc)
    unfolding do_kill
    do_kill-IsHandled live is =
        let r = test_at reading _ "kill-session" is in
        both_branches Handles (str_eq rpc.session_id "") (reads r refl refl (inl refl)) (
          both_branches Handles (str_eq rpc.session_id s.id || member T X rpc.session_id live)
            (reads r refl refl (inr (asked "kill-session" is, refl)))
            (reads r refl refl (inl refl)))

    do_subscribe-IsHandled : IsReading rpc.name → Handles (do_subscribe T X h rpc)
    unfolding do_subscribe
    do_subscribe-IsHandled r =
        both_branches Handles
          (not (str_eq (if str_eq rpc.stream "" then "NETCONF" else rpc.stream) "NETCONF"))
          (reads r refl refl (inl refl)) (reads r refl refl (inl refl))

    infix 1 on◌shown◌otherwise◌
    -- The operations of the switch: one of the name, and those after it.
    on◌shown◌otherwise◌ :
        (name : String) {x y : Dispatched T}
        → (str_eq rpc.name name ≡ true → Handles x)
        → (str_eq rpc.name name ≡ false → Handles y)
        → Handles (if str_eq rpc.name name then x else y)
    on name shown p otherwise q = tested Handles (str_eq rpc.name name) p q

    pub route-IsHandled : (live : List String) → Handles (route T X s live h context rpc)
    unfolding route step mutating
    route-IsHandled live =
        on "get"
        shown (λ is. do_get-IsHandled context Names.running (test_at reading _ "get" is))
        otherwise λ a.
            on "get-config"
            shown (λ is.
                let r = test_at reading _ "get-config" is in
                reading_store-IsHandled (store_name rpc.source true) _ r
                  (λ x. do_get-IsHandled context x r))
            otherwise λ b. on "edit-config" shown do_edit-IsHandled otherwise λ c.
                on "copy-config" shown do_copy-IsHandled otherwise λ d.
                on "delete-config" shown do_delete-IsHandled otherwise λ e.
                on "lock" shown do_lock-IsHandled otherwise λ f.
                on "unlock" shown do_unlock-IsHandled otherwise λ g.
                on "commit"
                shown (λ is.
                    reply_of-IsHandled commits (asked "commit" is, tt)
                      (test_at mutating _ "commit" is) _ _ refl)
                otherwise λ i.
                    on "discard-changes"
                    shown (λ is.
                        quiet-IsHandled discards (asked "discard-changes" is, tt)
                          (test_at mutating _ "discard-changes" is) _ refl)
                    otherwise λ j.
                        on "validate"
                        shown (λ is.
                            do_validate-IsHandled context (test_at reading _ "validate" is))
                        otherwise λ k.
                            on "close-session"
                            shown (λ is.
                                reads (test_at reading _ "close-session" is) refl refl (inl refl))
                            otherwise λ l.
                                on "kill-session" shown do_kill-IsHandled live otherwise λ m.
                                on "create-subscription"
                                shown (λ is.
                                    do_subscribe-IsHandled
                                      (test_at reading _ "create-subscription" is))
                                otherwise λ n.
                                    let unread : reading rpc.name ≡ false =
                                      rw (a, b, k, l, m, n) refl in
                                    let uncalled =
                                      AsksNothing-name T X s rpc (rw (c, d, e, f, g, i, j) refl) in
                                    refuses rpc.message_id _
                                      (inr (inr (uncalled, λ r. false≢true (sym unread ∙ r)))) refl
