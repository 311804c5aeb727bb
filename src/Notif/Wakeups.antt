-- ===== src/Notif/Wakeups.antt =====
-- internal/notif/ring.go: what a call of Wait is answered with, and the records that parked waiters
-- have seen.
use go_lab_netconf.Base.{
  ℕ, zero, suc, ◌-◌, String, false, Bool-cases, Option-cases, List, [], ◌∷◌, ◌++◌, Option, none,
  some, ◌≡◌, refl, All, drop, take, length, leb, ◌==◌, arith, inl, inr,
}
use go_lab_netconf.Notif.{
  Ring, Waiter, Notification, stream_netconf, new, matches, append_bounded, take_waiters, on_commit,
  wipe, match_newest, matching, list, wait, without, remove_waiter,
}
use go_lab_netconf.Notif.World.{
  World, start, committed, wiped, waited, Step, commits, wipes, waits, sends, receives, gives_up,
  Reachable, starts, steps,
}

unfoldable pub last : List Notification → Option Notification
last [] = none
last (n ∷ ns) = elim (last ns) [ some m ↦ some m | none ↦ some n ]

match_newest-last : (q : String) (ns : List Notification) → match_newest q ns ≡ last (matching q ns)
unfolding match_newest last matching
match_newest-last q [] = refl
match_newest-last q (n ∷ ns) = ground (arith, match_newest-last q ns)

-- A call of `Wait` is answered at once with the newest of the records that `List` gives for its
-- query; when there is none, it is parked with its query and channel behind the other waiters. The
-- records stay as they are.
pub wait-list :
    (r : Ring) (q : String) (ch : ℕ)
    → ((wait r q ch).0 ≡ last (list r q))
      × ((wait r q ch).1 ≡ (
          let answer = last (list r q) in
          let result : Ring = elim answer [
            | some n ↦ r
            | none ↦ record r { waiters = r.waiters ++ record { q = q; ch = ch } ∷ [] }
          ] in
          result))
unfolding wait list
wait-list r q ch = ground (arith, match_newest-last q r.items)

-- No record matches the query of any parked waiter.
abbrev pub NoneMissed : List Notification → List Waiter → Type 0
NoneMissed items = All (λ v. match_newest v.q items ≡ none)

module _ (q : String) where
  newest-drop :
      (k : ℕ) (ns : List Notification)
      → match_newest q ns ≡ none
      → match_newest q (drop k ns) ≡ none
  unfolding match_newest
  newest-drop zero ns p = p
  newest-drop (suc k) [] p = p
  newest-drop (suc k) (n ∷ ns) p = newest-drop k ns (ground arith)

  newest-take :
      (k : ℕ) (ns : List Notification)
      → match_newest q ns ≡ none
      → match_newest q (take k ns) ≡ none
  unfolding match_newest
  newest-take zero ns p = refl
  newest-take (suc k) [] p = p
  newest-take (suc k) (n ∷ ns) p = let rest = newest-take k ns (ground arith) in ground arith

  newest-append :
      (n : Notification) (ns : List Notification)
      → match_newest q ns ≡ none
      → matches q n ≡ false
      → match_newest q (ns ++ n ∷ []) ≡ none
  unfolding match_newest
  newest-append n [] p other = rw other refl
  newest-append n (m ∷ ns) p other =
      let rest = newest-append n ns (ground arith) other in ground arith

  newest-append_bounded :
      (cap : ℕ) (n : Notification) (ns : List Notification)
      → match_newest q ns ≡ none
      → matches q n ≡ false
      → match_newest q (append_bounded cap n ns) ≡ none
  unfolding append_bounded
  newest-append_bounded cap n ns p other = elim (Bool-cases (leb cap (length ns))) [
    | inl full ↦ rw full (
        newest-append n (take (cap - 1) (drop 1 ns))
          (newest-take (cap - 1) (drop 1 ns) (newest-drop 1 ns p)) other)
    | inr room ↦ rw room (newest-append n ns p other)
  ]

commit-NoneMissed :
    (cap : ℕ) (n : Notification) (items : List Notification) (ws : List Waiter)
    → NoneMissed items ws
    → NoneMissed (append_bounded cap n items) (take_waiters n ws).1
unfolding take_waiters
commit-NoneMissed cap n items [] p = p
commit-NoneMissed cap n items (w ∷ ws) (here, rest) =
    let later = commit-NoneMissed cap n items ws rest in
    elim (Bool-cases (matches w.q n)) [
      | inl taken ↦ rw taken later
      | inr other ↦ rw other (newest-append_bounded w.q cap n items here other, later)
    ]

without-NoneMissed :
    (ch : ℕ) (items : List Notification) (ws : List Waiter)
    → NoneMissed items ws
    → NoneMissed items (without ch ws)
unfolding without
without-NoneMissed ch items [] p = p
without-NoneMissed ch items (w ∷ ws) (here, rest) =
    let later = without-NoneMissed ch items ws rest in
    elim (Bool-cases (w.ch == ch)) [ inl left ↦ rw left later | inr other ↦ rw other (here, later) ]

append-NoneMissed :
    (items : List Notification) (ws : List Waiter) (w : Waiter)
    → NoneMissed items ws
    → match_newest w.q items ≡ none
    → NoneMissed items (ws ++ w ∷ [])
append-NoneMissed items [] w p q = (q, _)
append-NoneMissed items (v ∷ ws) w (here, rest) q = (here, append-NoneMissed items ws w rest q)

wait-NoneMissed :
    (r : Ring) (q : String) (ch : ℕ)
    → NoneMissed r.items r.waiters
    → NoneMissed (wait r q ch).1.items (wait r q ch).1.waiters
unfolding wait
wait-NoneMissed r q ch p = elim (Option-cases (match_newest q r.items)) [
  | inl parks ↦
      rw (wait, parks) (append-NoneMissed r.items r.waiters (record { q = q; ch = ch }) p parks)
  | inr (n, answered) ↦ rw (wait, answered) p
]

Step-NoneMissed :
    {w w' : World}
    → Step w w'
    → NoneMissed w.ring.items w.ring.waiters
    → NoneMissed w'.ring.items w'.ring.waiters
unfolding committed on_commit wiped wipe waited remove_waiter
Step-NoneMissed (commits w id profile changes) p =
    commit-NoneMissed w.ring.cap
      (record { id = id; stream = stream_netconf; profile = profile; changes = changes })
      w.ring.items w.ring.waiters p
Step-NoneMissed (wipes w) p = _
Step-NoneMissed (waits w q) p = wait-NoneMissed w.ring q w.next p
Step-NoneMissed (sends w front back m e) p = p
Step-NoneMissed (receives w front back m e) p = p
Step-NoneMissed (gives_up w ch) p = without-NoneMissed ch w.ring.items w.ring.waiters p

-- In every world that a ring gets into, no record that it keeps matches the query of a parked
-- waiter: whoever waits has not missed a record.
pub reachable-NoneMissed :
    {n : ℕ} {w : World} → Reachable n w → NoneMissed w.ring.items w.ring.waiters
unfolding start new
reachable-NoneMissed starts = _
reachable-NoneMissed (steps reached step) = Step-NoneMissed step (reachable-NoneMissed reached)
