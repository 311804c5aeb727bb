-- ===== src/Notif/Tests.antt =====
-- A ring of two records with a commit and a waiter, and the theorems on it.
use go_lab_netconf.Base.{String, List, [], ◌∷◌, ◌≡◌, refl}
use go_lab_netconf.Notif.{
  Ring, Notification, found, clamp, new, matches, append_bounded, take_waiters, sends_to, on_commit,
  match_newest, wait,
}
use go_lab_netconf.Notif.World.{
  World, start, committed, waited, commits, waits, Reachable, starts, steps,
}
use go_lab_netconf.Notif.Log.{
  Call, commits as committing, keep_last, logged, after_calls, after_call, new-keep_last,
}
use go_lab_netconf.Notif.Channels.{sent_to, send_never_waits}
use go_lab_netconf.Notif.Wakeups.{NoneMissed, reachable-NoneMissed}

abbrev record_of : String → Notification
record_of id = record { id = id; stream = "NETCONF"; profile = "router"; changes = [] }

abbrev three_commits : List Call
three_commits =
    committing "a" "router" [] ∷ committing "b" "router" [] ∷ committing "c" "router" [] ∷ []

oldest_out : (after_calls (new 2) three_commits).items ≡ record_of "b" ∷ record_of "c" ∷ []
unfolding new after_calls after_call on_commit append_bounded clamp
oldest_out = refl

new-keep_last_example :
    (after_calls (new 2) three_commits).items ≡ keep_last (clamp 2) (logged [] three_commits)
new-keep_last_example = new-keep_last 2 three_commits

-- A waiter on any profile, and then a commit.
abbrev parked : World
parked = waited (start 2) ""

abbrev woken : World
woken = committed parked "a" "router" []

woken-Reachable : Reachable 2 woken
woken-Reachable = steps (steps starts (waits (start 2) "")) (commits parked "a" "router" [])

woken-sends : woken.pending ≡ (0, found (record_of "a")) ∷ []
unfolding committed on_commit take_waiters matches sends_to waited wait match_newest start new
woken-sends = refl

send_never_waits_example : sent_to 0 woken.buffered ≡ 0
send_never_waits_example =
    send_never_waits [] [] 0 (found (record_of "a")) woken-Reachable woken-sends

reachable-NoneMissed_example : NoneMissed woken.ring.items woken.ring.waiters
reachable-NoneMissed_example = reachable-NoneMissed woken-Reachable

abbrev kept : Ring
kept = record { cap = 2; items = record_of "b" ∷ record_of "c" ∷ []; waiters = [] }
