-- ===== src/NcServer/Tests.antt =====
-- Requests of small sessions, on the handle that session 7 has locked and edited, and the theorems
-- at them.
use go_lab_netconf.Base.{
  String, [], ◌∷◌, none, some, ◌≡◌, ◌⊎◌, refl, ◌||◌, str_eq, eq_iff, if◌then◌else◌, arith,
}
use go_lab_netconf.Base.Dict
use go_lab_netconf.NcRpc.{Rpc}
use go_lab_netconf.Datastore.Names
use go_lab_netconf.Datastore.{deny_if_locked, discard, locked, unlock, store as stored}
use go_lab_netconf.Datastore.Yang.{ok}
use go_lab_netconf.Datastore.Tests.{toy, edited}
use go_lab_netconf.NcServer.{
  do_kill, map_err, Codec, parsed, failed, Session, route, mutating, Dispatched, dispatch,
  drop_locks,
}
use go_lab_netconf.NcServer.Requests.{IsHandled}
use go_lab_netconf.NcServer.Access.{
  dispatch-IsHandled, settled, left_of, request_protects, read_only_unchanged,
}
use go_lab_netconf.NcServer.Release.{given_up, drop_locks_effect}
use go_lab_netconf.NcServer.Table.{
  User, index_onto, index_users, is_current, Server, current_sessions, register, publishes, sweeps,
  registers, Reachable, starts, steps, AllCurrent, swept-AllCurrent,
}

abbrev codec : Codec toy
codec = record {
  filter_path = λ s. failed "not a filter";
  encode_tree = λ n. n ∷ [];
  decode_config = λ s. parsed 8;
}

abbrev session : String → Session
session id = record { id = id; access = "read-write" }

abbrev reader : Session
reader = record { id = "9"; access = "read-only" }

abbrev request : String → Rpc
request name = record {
  message_id = "1";
  name = name;
  namespace = "";
  source = "running";
  target = "candidate";
  filter = none;
  default_op = "";
  config = [];
  session_id = "7";
  stream = "";
}

refused_discard :
    (dispatch toy codec (session "8") [] edited none (request "discard-changes")).reply.errors
    ≡ record {
      type = "protocol";
      tag = "lock-denied";
      severity = "error";
      app_tag = "";
      path = "";
      message = "datastore is locked by session 7";
    }
      ∷ []
unfolding dispatch route mutating discard deny_if_locked Dict.lookup map_err
refused_discard = refl

dispatch-IsHandled_example :
    IsHandled toy codec edited
      (session "7")
      none
      (request "commit")
      (dispatch toy codec (session "7") [] edited none (request "commit"))
dispatch-IsHandled_example =
    dispatch-IsHandled toy codec (session "7") [] edited none (request "commit")

abbrev killed : Dispatched toy
killed = dispatch toy codec (session "8") ("7" ∷ []) edited none (request "kill-session")

candidate_kept : stored toy edited Names.candidate ≡ ok 5
unfolding stored
candidate_kept = refl

request_protects_example :
    (stored toy (settled toy killed) Names.candidate ≡ stored toy edited Names.candidate)
    × (locked toy (settled toy killed) Names.candidate ≡ left_of "7" killed.cancelled)
    × ((killed.cancelled ≡ none)
        ⊎ ((◌≡◌ {A = String} "kill-session" "kill-session") × (killed.cancelled ≡ some "7")))
request_protects_example =
    request_protects toy codec (session "8") ("7" ∷ []) edited none (request "kill-session")
      Names.candidate "7" candidate_kept (unfold Dict.lookup in refl)
      (λ p. ground (arith, eq_iff "8" "7"))

-- The kill cancels the holder, whose lock is free afterwards.
holder_killed :
    (killed.cancelled ≡ some "7") × (locked toy (settled toy killed) Names.candidate ≡ none)
unfolding dispatch route mutating drop_locks unlock stored locked Dict.lookup Dict.remove do_kill
holder_killed = (refl, refl)

read_only_unchanged_example :
    ((dispatch toy codec reader ("7" ∷ []) edited none (request "kill-session")).handle ≡ edited)
    × ((dispatch toy codec reader ("7" ∷ []) edited none (request "kill-session")).event ≡ none)
    × ((dispatch toy codec reader ("7" ∷ []) edited none (request "kill-session")).cancelled ≡ none)
read_only_unchanged_example =
    read_only_unchanged toy codec reader ("7" ∷ []) edited none (request "kill-session")
      (λ p. ground (arith, eq_iff "read-only" "read-write"))

drop_locks_effect_example :
    ((y : String)
      → locked toy (drop_locks toy (session "7") edited) y ≡ (
          if str_eq Names.running y || str_eq Names.candidate y || str_eq Names.startup y
          then given_up "7" (locked toy edited y)
          else locked toy edited y))
    × (record (drop_locks toy (session "7") edited) { locks = edited.locks } ≡ edited)
drop_locks_effect_example = drop_locks_effect toy (session "7") edited

-- A user's session, and then a change of the user's access that has been swept.
abbrev alice : String → User
alice access = record { name = "alice"; profile = "router"; access = access; handle = 1 }

abbrev before : Server
before = record { users = index_users (alice "" ∷ []); sessions = []; sweeps = [] }

abbrev joined : Server
joined = register before "1" (alice "read-write")

abbrev published : Server
published = record joined {
  users = index_users (alice "read-only" ∷ []);
  sweeps = index_users (alice "read-only" ∷ []) ∷ joined.sweeps;
}

abbrev swept : Server
swept = record published {
  sessions = current_sessions (index_users (alice "read-only" ∷ [])) published.sessions;
  sweeps = [];
}

joined-sessions : joined.sessions ≡ ("1", alice "read-write") ∷ []
unfolding register is_current index_onto Dict.put Dict.lookup
joined-sessions = refl

swept-Reachable : Reachable swept
swept-Reachable =
    steps
      (steps (steps (starts (alice "" ∷ [])) (registers before "1" (alice "read-write")))
        (publishes joined (alice "read-only" ∷ [])))
      (sweeps published [] [] (index_users (alice "read-only" ∷ []))
        (unfold register in ground arith))

swept-AllCurrent_example : AllCurrent swept.users swept.sessions
swept-AllCurrent_example = swept-AllCurrent swept-Reachable refl
