-- ===== src/NcServer/Access.antt =====
-- `dispatch` of internal/ncserver/dispatch.go: what a session's requests do to its profile's handle.
use go_lab_netconf.Base.{
  String, str_eq, eq_iff, true, false, not, ◌&&◌, ◌||◌, List, Option, none, some, ◌≡◌, ◌≢◌, refl,
  ◌∙◌, ap, ◌⊎◌, inl, inr, arith,
}
use go_lab_netconf.Base.Dict
use go_lab_netconf.DomainErr.{AnyError}
use go_lab_netconf.NcRpc.{Rpc}
use go_lab_netconf.Datastore.Yang.{Tree, ok}
use go_lab_netconf.Datastore.Names
use go_lab_netconf.Datastore.Names.{Name}
use go_lab_netconf.Datastore.{Context, Handle, store, locked}
use go_lab_netconf.Datastore.Protection.{Kept, step-Kept}
use go_lab_netconf.NcServer.{
  mutating, Resolved, named, refused, store_name, Codec, Session, Dispatched, with_store, get_at,
  do_get_filtered, do_get, validate_at, do_validate, do_subscribe, route, dispatch, drop_locks,
}
use go_lab_netconf.NcServer.Release.{given_up, drop_locks_effect}
use go_lab_netconf.NcServer.Requests.{
  both_branches, tested, test_at, IsReading, session_context, IsHandled, reads, refuses, calls,
  Fits-IsBy,
}
use go_lab_netconf.NcServer.Requests.Handlers.{route-IsHandled}

-- A request that the guard on access stops, and that reads: it is a kill.
guarded : (name : String) → mutating name ≡ true → IsReading name → name ≡ "kill-session"
unfolding mutating
guarded name m r = ground (
  arith,
  eq_iff name "kill-session",
  test_at mutating name "get",
  test_at mutating name "get-config",
  test_at mutating name "validate",
  test_at mutating name "close-session",
  test_at mutating name "create-subscription",
)

-- A request with a message-id that asks for a call of the handle, of a user who may write, is that call
-- by its session, on the arguments that it names: the handle, the event and the reply, ok or the mapped
-- error, are the call's. A reading request leaves the handle alone; only a kill-session cancels, and
-- only the session that it names. What is refused leaves the handle alone too, and is answered with an
-- error: a request without a message-id, one that changes something by a user who may not, and one for
-- which no call fits.
pub dispatch-IsHandled :
    (T : Tree) (X : Codec T) (s : Session) (live : List String) (h : Handle T)
    (ctx_error : Option AnyError) (rpc : Rpc)
    → IsHandled T X h s ctx_error rpc (dispatch T X s live h ctx_error rpc)
unfolding dispatch mutating
dispatch-IsHandled T X s live h ctx_error rpc =
    let P = IsHandled T X h s ctx_error rpc in
    tested P (str_eq rpc.message_id "")
      (λ e. refuses "0" _ (inl ((eq_iff rpc.message_id "").0 e)) refl)
      λ e.
        tested P (not (str_eq s.access "read-write") && mutating rpc.name)
          (λ m.
            refuses rpc.message_id _
              (inr (
                inl (
                  (λ w. ground (arith, eq_iff s.access "read-write")),
                  guarded rpc.name (ground arith),
                )))
              refl)
          λ m.
            route-IsHandled T X h s ctx_error rpc (λ n. ground (arith, eq_iff rpc.message_id ""))
              (λ w. ground (arith, eq_iff s.access "read-write")) live

-- The handle once the session that a request cancels, if any, has ended.
abbrev pub ended : (T : Tree) → Handle T → Option String → Handle T
ended T k none = k
ended T k (some id) = drop_locks T (record { id = id; access = "" }) k

abbrev pub settled : (T : Tree) → Dispatched T → Handle T
settled T d = ended T d.handle d.cancelled

-- The holder that is left of session `t`.
abbrev pub left_of : String → Option String → Option String
left_of t none = some t
left_of t (some id) = given_up id (some t)

module _ (T : Tree) (X : Codec T) (s : Session) (live : List String) (h : Handle T)
    (ctx_error : Option AnyError) (rpc : Rpc) where
  abbrev answer : Dispatched T
  answer = dispatch T X s live h ctx_error rpc

  -- A request keeps what the lock of another session protects.
  dispatch-Kept :
      (name : Name) (t : String)
      → Dict.lookup name h.locks ≡ some t
      → s.id ≢ t
      → (d : Dispatched T) → IsHandled T X h s ctx_error rpc d
      → Kept T h name d.handle
  dispatch-Kept name t hold other d (reads r p q k) = rw p (refl, refl)
  dispatch-Kept name t hold other d (refuses id e why p) = rw p (refl, refl)
  dispatch-Kept name t hold other d (calls c (n, f) may id p q k told) = rw p (
      step-Kept T h name t (session_context s ctx_error) hold c s.id
        (Fits-IsBy T X s rpc ctx_error c f) other)

  -- Only a kill-session cancels, and only the session that it names.
  abbrev pub CancelsAsTold : Option String → Type 0
  CancelsAsTold c = (c ≡ none) ⊎ ((rpc.name ≡ "kill-session") × (c ≡ some rpc.session_id))

  dispatch-CancelsAsTold :
      (d : Dispatched T) → IsHandled T X h s ctx_error rpc d → CancelsAsTold d.cancelled
  dispatch-CancelsAsTold d (reads r p q k) = k
  dispatch-CancelsAsTold d (refuses i e why p) = rw p (inl refl)
  dispatch-CancelsAsTold d (calls k a may i p q none_cancelled told) = inl none_cancelled

  names_stores :
      (name : Name) {n : T.Node}
      → store T h name ≡ ok n
      → str_eq Names.running name || str_eq Names.candidate name || str_eq Names.startup name ≡ true
  unfolding store
  names_stores name known = ground (
    arith,
    eq_iff name Names.running,
    eq_iff name Names.candidate,
    eq_iff name Names.startup,
    eq_iff Names.running name,
    eq_iff Names.candidate name,
    eq_iff Names.startup name,
  )

  ended-Kept :
      (name : Name) (t : String) {n : T.Node}
      → store T h name ≡ ok n
      → Dict.lookup name h.locks ≡ some t
      → (k : Handle T) → Kept T h name k
      → (c : Option String)
      → (store T (ended T k c) name ≡ store T h name) × (locked T (ended T k c) name ≡ left_of t c)
  unfolding store locked
  ended-Kept name t known hold k (tree, lock) none = (tree, lock ∙ hold)
  ended-Kept name t known hold k (tree, lock) (some id) =
      let gone : Session = record { id = id; access = "" } in
      let (freed, rest) = drop_locks_effect T gone k in
      let holder : locked T k name ≡ some t = lock ∙ hold in
      (ap (λ x. store T x name) rest ∙ tree, freed name ∙ rw (names_stores name known, holder) refl)

  -- While session `t` holds the lock on a store, a request of another session does not change that
  -- store's tree, and takes the lock away only by a kill-session of `t`, which frees it when the killed
  -- session ends.
  pub request_protects :
      (name : Name) (t : String) {n : T.Node}
      → store T h name ≡ ok n
      → Dict.lookup name h.locks ≡ some t
      → s.id ≢ t
      → (store T (settled T answer) name ≡ store T h name)
        × (locked T (settled T answer) name ≡ left_of t answer.cancelled)
        × CancelsAsTold answer.cancelled
  request_protects name t known hold other =
      let is_handled = dispatch-IsHandled T X s live h ctx_error rpc in
      let (tree, lock) =
        ended-Kept name t known hold answer.handle
          (dispatch-Kept name t hold other answer is_handled) answer.cancelled in
      (tree, lock, dispatch-CancelsAsTold answer is_handled)

module _ (T : Tree) (X : Codec T) (s : Session) (live : List String) (h : Handle T) (ctx : Context)
    (rpc : Rpc) where
  -- The request changes nothing: not the handle, and no session is cancelled.
  abbrev pub IsQuiet : Dispatched T → Type 0
  IsQuiet d = (d.handle ≡ h) × (d.event ≡ none) × (d.cancelled ≡ none)

  with_store-IsQuiet :
      (x : Resolved) (k : Name → Dispatched T)
      → ((name : Name) → IsQuiet (k name))
      → IsQuiet (with_store T X h rpc x k)
  with_store-IsQuiet (named x) k p = p x
  with_store-IsQuiet (refused e) k p = (refl, refl, refl)

  do_get-IsQuiet : (x : Name) → IsQuiet (do_get T X h ctx rpc x)
  unfolding do_get do_get_filtered get_at
  do_get-IsQuiet x = ground arith

  do_validate-IsQuiet : IsQuiet (do_validate T X h ctx rpc)
  unfolding do_validate validate_at
  do_validate-IsQuiet =
      both_branches IsQuiet (not (str_eq rpc.source ""))
        (with_store-IsQuiet (store_name rpc.source true) _ (λ name. (refl, refl, refl)))
        (refl, refl, refl)

  do_subscribe-IsQuiet : IsQuiet (do_subscribe T X h rpc)
  unfolding do_subscribe
  do_subscribe-IsQuiet = ground arith

  reading_request :
      mutating rpc.name ≡ false
      → (str_eq rpc.name "edit-config" ≡ false)
        × (str_eq rpc.name "copy-config" ≡ false)
        × (str_eq rpc.name "delete-config" ≡ false)
        × (str_eq rpc.name "lock" ≡ false)
        × (str_eq rpc.name "unlock" ≡ false)
        × (str_eq rpc.name "commit" ≡ false)
        × (str_eq rpc.name "discard-changes" ≡ false)
        × (str_eq rpc.name "kill-session" ≡ false)
  unfolding mutating
  reading_request p = ground arith

  route-IsQuiet : mutating rpc.name ≡ false → IsQuiet (route T X s live h ctx rpc)
  unfolding route
  route-IsQuiet p =
      let (edit, copy, delete, lock, unlock, commit, discard, kill) = reading_request p in
      rw (edit, copy, delete, lock, unlock, commit, discard, kill)
        (both_branches IsQuiet (str_eq rpc.name "get") (do_get-IsQuiet Names.running) (
          both_branches IsQuiet (str_eq rpc.name "get-config")
            (with_store-IsQuiet (store_name rpc.source true) _ do_get-IsQuiet)
            (both_branches IsQuiet (str_eq rpc.name "validate") do_validate-IsQuiet (
              both_branches IsQuiet (str_eq rpc.name "close-session") (refl, refl, refl)
                (both_branches IsQuiet (str_eq rpc.name "create-subscription") do_subscribe-IsQuiet
                  (refl, refl, refl))))))

-- A request of a user whose access is not read-write leaves the handle as it was, hands nothing to
-- the sink, and cancels no session.
pub read_only_unchanged :
    (T : Tree) (X : Codec T) (s : Session) (live : List String) (h : Handle T)
    (ctx_error : Option AnyError) (rpc : Rpc)
    → s.access ≢ "read-write"
    → ((dispatch T X s live h ctx_error rpc).handle ≡ h)
      × ((dispatch T X s live h ctx_error rpc).event ≡ none)
      × ((dispatch T X s live h ctx_error rpc).cancelled ≡ none)
unfolding dispatch
read_only_unchanged T X s live h ctx_error rpc read_only = ground (
  arith,
  eq_iff s.access "read-write",
  route-IsQuiet T X s live h (session_context s ctx_error) rpc,
)
