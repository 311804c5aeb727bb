-- ===== src/Notif.antt =====
-- internal/notif: the bounded log of configuration changes, and those who wait for a change.
-- The mutex makes each critical section one step; the sends on the waiters' channels, which follow
-- it, are steps of their own (Notif.World). An id is the value that ulid.Make returned.
pub mod World
pub mod Log
pub mod Channels
pub mod Wakeups
mod Tests
use go_lab_netconf.Base.{
  ℕ, ◌-◌, String, str_eq, Bool, ◌||◌, List, [], ◌∷◌, ◌++◌, Option, none, some, length, drop, take,
  ltb, leb, if◌then◌else◌, ◌==◌,
}
use go_lab_netconf.DomainErr.{AnyError}
use go_lab_netconf.Datastore.Yang.{Change}

pub data Error : Type 0 where
  wait_timeout not_found store_wiped : Error
  -- another error of a context
  cancelled : AnyError → Error

-- `StreamNETCONF`
abbrev pub stream_netconf : String
stream_netconf = "NETCONF"

pub record Notification : Type 0 where
  pub id : String
  pub stream : String
  pub profile : String
  pub changes : List Change

-- A query is its profile; an empty one matches any. A channel is a number.
pub record Waiter : Type 0 where
  pub q : String
  pub ch : ℕ

pub record Ring : Type 0 where
  pub cap : ℕ
  pub items : List Notification
  pub waiters : List Waiter

-- What is sent to a waiter: a notification, or the error.
pub data WaitResult : Type 0 where
  found : Notification → WaitResult
  failed : Error → WaitResult

abbrev pub default_capacity : ℕ
default_capacity = 256

abbrev pub max_capacity : ℕ
max_capacity = 4096

-- A capacity below 1 is the default; a negative one is 0 here.
pub clamp : ℕ → ℕ
clamp n =
    let m = if leb n 0 then default_capacity else n in
    if ltb max_capacity m then max_capacity else m

unfoldable pub new : ℕ → Ring
new n = record { cap = clamp n; items = []; waiters = [] }

-- `match`
unfoldable pub matches : String → Notification → Bool
matches q n = str_eq q "" || str_eq q n.profile

-- The insertion of `OnCommit`: at capacity the oldest record makes room.
unfoldable pub append_bounded : ℕ → Notification → List Notification → List Notification
append_bounded cap n items =
    (if leb cap (length items) then take (cap - 1) (drop 1 items) else items) ++ n ∷ []

-- `takeWaitersLocked`: those who are taken and those who remain.
unfoldable pub take_waiters : Notification → List Waiter → List Waiter × List Waiter
take_waiters n [] = ([], [])
take_waiters n (w ∷ ws) =
    let (taken, remaining) = take_waiters n ws in
    if matches w.q n then (w ∷ taken, remaining) else (taken, w ∷ remaining)

unfoldable pub sends_to : WaitResult → List Waiter → List (ℕ × WaitResult)
sends_to r [] = []
sends_to r (w ∷ ws) = (w.ch, r) ∷ sends_to r ws

-- `OnCommit` up to its unlock, with the sends that are left to do.
unfoldable pub on_commit : Ring → String → String → List Change → Ring × List (ℕ × WaitResult)
on_commit r id profile changes =
    let n : Notification = record {
      id = id;
      stream = stream_netconf;
      profile = profile;
      changes = changes;
    } in
    let (taken, remaining) = take_waiters n r.waiters in
    (
      record r { items = append_bounded r.cap n r.items; waiters = remaining },
      sends_to (found n) taken,
    )

-- `broadcastWiped`, which is `Wipe`, and `Clear` under a live context
unfoldable pub wipe : Ring → Ring × List (ℕ × WaitResult)
wipe r = (record r { items = []; waiters = [] }, sends_to (failed store_wiped) r.waiters)

unfoldable pub matching : String → List Notification → List Notification
matching q [] = []
matching q (n ∷ ns) = let rest = matching q ns in if matches q n then n ∷ rest else rest

-- `List` under a live context, oldest first
unfoldable pub list : Ring → String → List Notification
list r q = matching q r.items

get_in : String → List Notification → Option Notification
get_in id [] = none
get_in id (n ∷ ns) = if str_eq n.id id then some n else get_in id ns

-- `Get` under a live context; `none` is ErrNotFound.
pub get : Ring → String → Option Notification
unfolding get_in
get r id = get_in id r.items

-- `matchNewestLocked`: the loop runs from the last record to the first.
unfoldable pub match_newest : String → List Notification → Option Notification
match_newest q [] = none
match_newest q (n ∷ ns) = elim (match_newest q ns) [
  | some m ↦ some m
  | none ↦ if matches q n then some n else none
]

-- `Wait` under a live context, up to its select: the answer, or the ring with the waiter parked.
unfoldable pub wait : Ring → String → ℕ → Option Notification × Ring
wait r q ch = elim (match_newest q r.items) [
  | some n ↦ (some n, r)
  | none ↦ (none, record r { waiters = r.waiters ++ record { q = q; ch = ch } ∷ [] })
]

unfoldable pub without : ℕ → List Waiter → List Waiter
without ch [] = []
without ch (w ∷ ws) = let rest = without ch ws in if w.ch == ch then rest else w ∷ rest

unfoldable pub remove_waiter : Ring → ℕ → Ring
unfolding without
remove_waiter r ch = record r { waiters = without ch r.waiters }
