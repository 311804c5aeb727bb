-- ===== src/NcServer.antt =====
-- internal/ncserver/dispatch.go, error.go and `dropLocks` of server.go: one request of a session.
-- Sessions interleave between requests.
pub mod Requests
pub mod Access
pub mod Release
pub mod Loop
pub mod Table
mod Tests
use go_lab_netconf.Base.{
  ℕ, String, str_append, str_eq, Bool, true, false, not, ◌&&◌, ◌||◌, List, [], ◌∷◌, Option, none,
  some, Bytes, ◌==◌, length, if◌then◌else◌, ltb,
}
use go_lab_netconf.DomainErr
use go_lab_netconf.DomainErr.{AnyError, FieldViolation, domain, other}
use go_lab_netconf.NcRpc.{Filter, Rpc, Error, Reply}
pub use go_lab_netconf.NcRpc.{Parsed, parsed, failed}
use go_lab_netconf.Datastore.Yang.{Tree, Result, ok, err}
use go_lab_netconf.Datastore.Names
use go_lab_netconf.Datastore.Names.{Name}
use go_lab_netconf.Datastore.{
  Context, Event, EditOp, Handle, Outcome, get, edit, copy, delete, commit, discard, lock, unlock,
}

-- `rpcErr`
abbrev pub rpc_err : String → String → String → Error
rpc_err type tag message = record {
  type = type;
  tag = tag;
  severity = "error";
  app_tag = "";
  path = "";
  message = message;
}

abbrev pub ok_reply : String → Reply
ok_reply id = record { message_id = id; is_ok = true; payload = none; errors = [] }

abbrev pub err_reply : String → Error → Reply
err_reply id e = record {
  message_id = if str_eq id "" then "0" else id;
  is_ok = false;
  payload = none;
  errors = e ∷ [];
}

has_unknown_element : List FieldViolation → Bool
has_unknown_element [] = false
has_unknown_element (v ∷ vs) = str_eq v.code "unknown-element" || has_unknown_element vs

-- `mapErr`; its nil case is not reached.
unfoldable pub map_err : AnyError → Error
unfolding has_unknown_element
map_err (other s) = rpc_err "application" "operation-failed" s
map_err (domain e) =
    if str_eq e.code "lock_denied"
    then rpc_err "protocol" "lock-denied" e.message
    else if str_eq e.code "not_writable"
    then rpc_err "protocol" "operation-not-supported" e.message
    else if str_eq e.code "not_found"
    then rpc_err "application" "data-missing" e.message
    else if str_eq e.code "forbidden" || str_eq e.code "unauthorized"
    then rpc_err "protocol" "access-denied" e.message
    else if str_eq e.code "validation_failed"
    then rpc_err "application"
        (if has_unknown_element e.field_violations then "unknown-element" else "invalid-value")
        e.message
    else rpc_err "application" "operation-failed" e.message

unfoldable pub mutating : String → Bool
mutating op =
    str_eq op "edit-config"
    || str_eq op "copy-config"
    || str_eq op "delete-config"
    || str_eq op "lock"
    || str_eq op "unlock"
    || str_eq op "commit"
    || str_eq op "discard-changes"
    || str_eq op "kill-session"

-- A store's name, or the error that `storeName` gives in its place.
pub data Resolved : Type 0 where
  named : Name → Resolved
  refused : Error → Resolved

unfoldable pub store_name : String → Bool → Resolved
store_name name required =
    if str_eq name ""
    then (if required
        then refused (rpc_err "protocol" "missing-element" "datastore is required")
        else named Names.running)
    else if str_eq name "url"
    then refused (rpc_err "protocol" "operation-not-supported" "url capability is not advertised")
    else if str_eq name Names.running || str_eq name Names.candidate || str_eq name Names.startup
    then named name
    else refused (rpc_err "protocol" "unknown-element" "unknown datastore")

abbrev is_space : ℕ → Bool
is_space b = b == b' ' || b == b'\n' || b == b'\r' || b == b'\t'

trim_left : Bytes → Bytes
trim_left [] = []
trim_left (b ∷ s) = let rest = trim_left s in if is_space b then rest else b ∷ s

trim_right : Bytes → Bytes
trim_right [] = []
trim_right (b ∷ s) =
    let rest = trim_right s in if length rest == 0 && is_space b then [] else b ∷ rest

pub bytes_trim : Bytes → Bytes
unfolding trim_left trim_right
bytes_trim s = trim_right (trim_left s)

-- The conversions of xmltree.go at one user's namespaces; they rest on encoding/xml.
pub record Codec (T : Tree) : Type 0 where
  -- `filterPath`, `encodeTree` on `Node.Map`, `decodeConfig`
  pub filter_path : Bytes → Parsed Bytes
  pub encode_tree : T.Node → Bytes
  pub decode_config : Bytes → Parsed T.Value

pub record Session : Type 0 where
  pub id : String
  pub access : String

-- What a request gives: its reply, the handle, the event that a commit hands to the sink, and the
-- session that a kill cancels.
pub record Dispatched (T : Tree) : Type 0 where
  pub reply : Reply
  pub handle : Handle T
  pub event : Option Event
  pub cancelled : Option String

module _ (T : Tree) (X : Codec T) where
  abbrev pub replies : Handle T → Reply → Dispatched T
  replies h r = record { reply = r; handle = h; event = none; cancelled = none }

  -- `if err != nil { return errReply(id, mapErr(err)) }; return okReply(id)`
  abbrev pub reply_of : String → Outcome T → Dispatched T
  reply_of id (none, h) = replies h (ok_reply id)
  reply_of id (some e, h) = replies h (err_reply id (map_err e))

  abbrev pub with_store : Handle T → Rpc → Resolved → (Name → Dispatched T) → Dispatched T
  with_store h rpc (named x) k = k x
  with_store h rpc (refused e) k = replies h (err_reply rpc.message_id e)

  get_at : Handle T → Context → Rpc → Name → Bytes → Dispatched T
  get_at h ctx rpc store path = replies h (elim (get T h ctx store path) [
    | err e ↦ err_reply rpc.message_id (map_err e)
    | ok n ↦ record {
      message_id = rpc.message_id;
      is_ok = false;
      payload = some (X.encode_tree n);
      errors = [];
    }
  ])

  do_get_filtered : Handle T → Context → Rpc → Name → Filter → Dispatched T
  do_get_filtered h ctx rpc store f =
      if str_eq f.type "xpath"
      then replies h (
          err_reply rpc.message_id
            (rpc_err "protocol" "operation-not-supported" "xpath is not supported"))
      else if ltb 0 (length (bytes_trim f.inner))
      then (elim (X.filter_path f.inner) [
        | failed msg ↦
            replies h (err_reply rpc.message_id (rpc_err "application" "unknown-element" msg))
        | parsed path ↦ get_at h ctx rpc store path
      ])
      else get_at h ctx rpc store []

  do_get : Handle T → Context → Rpc → Name → Dispatched T
  unfolding get_at do_get_filtered
  do_get h ctx rpc store = elim rpc.filter [
    | none ↦ get_at h ctx rpc store []
    | some f ↦ do_get_filtered h ctx rpc store f
  ]

  apply_edit : Handle T → Context → Rpc → String → Dispatched T
  apply_edit h ctx rpc op = elim (X.decode_config rpc.config) [
    | failed msg ↦
        replies h (err_reply rpc.message_id (rpc_err "application" "unknown-element" msg))
    | parsed tree ↦
        reply_of rpc.message_id
          (edit T h ctx Names.candidate (record { op = op; path = []; value = tree }))
  ]

  do_edit : Handle T → Context → Rpc → Dispatched T
  unfolding apply_edit
  do_edit h ctx rpc =
      if not (str_eq rpc.target "candidate")
      then replies h (
          err_reply rpc.message_id
            (rpc_err "protocol" "operation-not-supported" "edit-config target must be candidate"))
      else if str_eq rpc.default_op "" || str_eq rpc.default_op "merge"
      then apply_edit h ctx rpc "merge"
      else if str_eq rpc.default_op "replace"
      then apply_edit h ctx rpc "replace"
      else replies h (
          err_reply rpc.message_id
            (rpc_err "protocol" "invalid-value" "unsupported default-operation"))

  do_copy : Handle T → Context → Rpc → Dispatched T
  do_copy h ctx rpc = with_store h rpc (store_name rpc.source true) λ src.
      with_store h rpc (store_name rpc.target true)
        λ dst. reply_of rpc.message_id (copy T h ctx src dst)

  do_delete : Handle T → Context → Rpc → Dispatched T
  do_delete h ctx rpc =
      with_store h rpc (store_name rpc.target true)
        λ store. reply_of rpc.message_id (delete T h ctx store)

  do_lock : Session → Handle T → Context → Rpc → Bool → Dispatched T
  do_lock s h ctx rpc take = with_store h rpc (store_name rpc.target true) λ store.
      reply_of rpc.message_id (if take then lock T h ctx store s.id else unlock T h ctx store s.id)

  validate_at : Handle T → Context → Rpc → Name → Dispatched T
  validate_at h ctx rpc store = replies h (elim (get T h ctx store []) [
    | err e ↦ err_reply rpc.message_id (map_err e)
    | ok n ↦ elim (T.validate n) [
      | some e ↦ err_reply rpc.message_id (map_err e)
      | none ↦ ok_reply rpc.message_id
    ]
  ])

  do_validate : Handle T → Context → Rpc → Dispatched T
  unfolding validate_at
  do_validate h ctx rpc =
      if not (str_eq rpc.source "")
      then with_store h rpc (store_name rpc.source true) (validate_at h ctx rpc)
      else validate_at h ctx rpc Names.candidate

  member : String → List String → Bool
  member x [] = false
  member x (y ∷ ys) = str_eq y x || member x ys

  -- `live` holds the ids of the server's session table, which `Server.Kill` looks up.
  do_kill : Session → List String → Handle T → Rpc → Dispatched T
  unfolding member
  do_kill s live h rpc =
      if str_eq rpc.session_id ""
      then replies h
          (err_reply rpc.message_id (rpc_err "protocol" "missing-element" "session-id is required"))
      else if str_eq rpc.session_id s.id || member rpc.session_id live
      then record (replies h (ok_reply rpc.message_id)) { cancelled = some rpc.session_id }
      else replies h
          (err_reply rpc.message_id (rpc_err "application" "invalid-value" "no such session"))

  do_subscribe : Handle T → Rpc → Dispatched T
  do_subscribe h rpc =
      let stream = if str_eq rpc.stream "" then "NETCONF" else rpc.stream in
      if not (str_eq stream "NETCONF")
      then replies h
          (err_reply rpc.message_id (rpc_err "application" "invalid-value" "unknown stream"))
      else replies h (ok_reply rpc.message_id)

  -- The switch of `dispatch`, on the annotated context.
  pub route : Session → List String → Handle T → Context → Rpc → Dispatched T
  route s live h ctx rpc =
      if str_eq rpc.name "get"
      then do_get h ctx rpc Names.running
      else if str_eq rpc.name "get-config"
      then with_store h rpc (store_name rpc.source true) (do_get h ctx rpc)
      else if str_eq rpc.name "edit-config"
      then do_edit h ctx rpc
      else if str_eq rpc.name "copy-config"
      then do_copy h ctx rpc
      else if str_eq rpc.name "delete-config"
      then do_delete h ctx rpc
      else if str_eq rpc.name "lock"
      then do_lock s h ctx rpc true
      else if str_eq rpc.name "unlock"
      then do_lock s h ctx rpc false
      else if str_eq rpc.name "commit"
      then (let (o, event) = commit T h ctx in record (reply_of rpc.message_id o) { event = event })
      else if str_eq rpc.name "discard-changes"
      then reply_of rpc.message_id (discard T h ctx)
      else if str_eq rpc.name "validate"
      then do_validate h ctx rpc
      else if str_eq rpc.name "close-session"
      then replies h (ok_reply rpc.message_id)
      else if str_eq rpc.name "kill-session"
      then do_kill s live h rpc
      else if str_eq rpc.name "create-subscription"
      then do_subscribe h rpc
      else replies h (
          err_reply rpc.message_id
            (rpc_err "protocol" "operation-not-supported" (str_append "unknown rpc " rpc.name)))

  pub dispatch : Session → List String → Handle T → Option AnyError → Rpc → Dispatched T
  dispatch s live h ctx_error rpc =
      if str_eq rpc.message_id ""
      then replies h (err_reply "0" (rpc_err "rpc" "missing-attribute" "message-id is required"))
      else if not (str_eq s.access "read-write") && mutating rpc.name
      then replies h
          (err_reply rpc.message_id (rpc_err "protocol" "access-denied" "user is read-only"))
      else route s live h (record { error = ctx_error; session = s.id }) rpc

-- `dropLocks`, with a background context.
abbrev pub background : Context
background = record { error = none; session = "" }

pub drop_locks : (T : Tree) → Session → Handle T → Handle T
drop_locks T s h =
    let after_running = (unlock T h background Names.running s.id).1 in
    let after_candidate = (unlock T after_running background Names.candidate s.id).1 in
    (unlock T after_candidate background Names.startup s.id).1
