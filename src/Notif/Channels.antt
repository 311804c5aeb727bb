-- ===== src/Notif/Channels.antt =====
-- internal/notif/ring.go: how often a waiter's channel, which is made with room for one message, is
-- sent to.
use go_lab_netconf.Base.{
  ℕ, suc, ◌+◌, ◌≤◌, String, List, [], ◌∷◌, ◌++◌, ◌≡◌, refl, ap, ◌∙◌, ◌==◌, if◌then◌else◌, arith,
}
use go_lab_netconf.Datastore.Yang.{Change}
use go_lab_netconf.Notif.{
  Waiter, WaitResult, Notification, found, failed, store_wiped, stream_netconf, new, take_waiters,
  sends_to, on_commit, wipe, wait, without, remove_waiter,
}
use go_lab_netconf.Notif.World.{
  World, start, committed, wiped, waited, Step, commits, wipes, waits, sends, receives, gives_up,
  Reachable, starts, steps,
}

-- How many of the waiters have the channel, and how many of the messages are for it.
unfoldable pub parked_on : ℕ → List Waiter → ℕ
parked_on ch [] = 0
parked_on ch (w ∷ ws) = (if w.ch == ch then 1 else 0) + parked_on ch ws

unfoldable pub sent_to : ℕ → List (ℕ × WaitResult) → ℕ
sent_to ch [] = 0
sent_to ch ((c, r) ∷ ms) = (if c == ch then 1 else 0) + sent_to ch ms

-- All that may still be, or has been, put into the channel.
abbrev pub uses : ℕ → World → ℕ
uses ch w = parked_on ch w.ring.waiters + sent_to ch w.pending + sent_to ch w.buffered

-- Every channel has at most one use, and one that is not made yet has none.
abbrev pub IsSingle : World → Type 0
IsSingle w = (ch : ℕ) → (uses ch w ≤ 1) × (w.next ≤ ch → uses ch w ≡ 0)

module _ (ch : ℕ) where
  sent_to-append :
      (ms ns : List (ℕ × WaitResult)) → sent_to ch (ms ++ ns) ≡ sent_to ch ms + sent_to ch ns
  unfolding sent_to
  sent_to-append [] ns = omega arith
  sent_to-append ((c, r) ∷ ms) ns = omega (arith, sent_to-append ms ns)

  parked_on-append :
      (vs ws : List Waiter) → parked_on ch (vs ++ ws) ≡ parked_on ch vs + parked_on ch ws
  unfolding parked_on
  parked_on-append [] ws = omega arith
  parked_on-append (v ∷ vs) ws = omega (arith, parked_on-append vs ws)

  sent_to-sends_to :
      (r : WaitResult) (ws : List Waiter) → sent_to ch (sends_to r ws) ≡ parked_on ch ws
  unfolding sent_to sends_to parked_on
  sent_to-sends_to r [] = refl
  sent_to-sends_to r (w ∷ ws) = omega (arith, sent_to-sends_to r ws)

  parked_on-take_waiters :
      (n : Notification) (ws : List Waiter)
      → parked_on ch (take_waiters n ws).0 + parked_on ch (take_waiters n ws).1 ≡ parked_on ch ws
  unfolding take_waiters parked_on
  parked_on-take_waiters n [] = refl
  parked_on-take_waiters n (w ∷ ws) = ground (arith, parked_on-take_waiters n ws)

  parked_on-without : (c : ℕ) (ws : List Waiter) → parked_on ch (without c ws) ≤ parked_on ch ws
  unfolding without parked_on
  parked_on-without c [] = omega arith
  parked_on-without c (w ∷ ws) = ground (arith, parked_on-without c ws)

  -- A commit moves uses from the ring to the sends that are left, and so does a wipe.
  uses-committed :
      (w : World) (id profile : String) (changes : List Change)
      → uses ch (committed w id profile changes) ≡ uses ch w
  unfolding committed on_commit
  uses-committed w id profile changes =
      let n : Notification = record {
        id = id;
        stream = stream_netconf;
        profile = profile;
        changes = changes;
      } in
      let taken = (take_waiters n w.ring.waiters).0 in
      omega (
        arith,
        sent_to-append w.pending (sends_to (found n) taken),
        sent_to-sends_to (found n) taken,
        parked_on-take_waiters n w.ring.waiters,
      )

  uses-wiped : (w : World) → uses ch (wiped w) ≡ uses ch w
  unfolding wiped wipe parked_on
  uses-wiped w = omega (
    arith,
    sent_to-append w.pending (sends_to (failed store_wiped) w.ring.waiters),
    sent_to-sends_to (failed store_wiped) w.ring.waiters,
  )

  uses-waited :
      (w : World) (q : String) → uses ch (waited w q) ≤ uses ch w + (if w.next == ch then 1 else 0)
  unfolding waited wait parked_on
  uses-waited w q =
      ground (arith, parked_on-append w.ring.waiters (record { q = q; ch = w.next } ∷ []))

  sent_to-picked :
      (front back : List (ℕ × WaitResult)) (c : ℕ) (r : WaitResult)
      → sent_to ch (front ++ (c, r) ∷ back)
        ≡ (if c == ch then 1 else 0) + sent_to ch (front ++ back)
  unfolding sent_to
  sent_to-picked front back c r =
      omega (arith, sent_to-append front ((c, r) ∷ back), sent_to-append front back)

  fewer_uses :
      (w w' : World)
      → uses ch w' ≤ uses ch w
      → w'.next ≡ w.next
      → (uses ch w ≤ 1) × (w.next ≤ ch → uses ch w ≡ 0)
      → (uses ch w' ≤ 1) × (w'.next ≤ ch → uses ch w' ≡ 0)
  fewer_uses w w' fewer same single = ground arith

-- A step keeps it.
Step-IsSingle : {w w' : World} → Step w w' → IsSingle w → IsSingle w'
unfolding sent_to
Step-IsSingle (commits w id profile changes) single ch =
    fewer_uses ch w (committed w id profile changes)
      (omega (arith, uses-committed ch w id profile changes)) (unfold committed in refl) (single ch)
Step-IsSingle (wipes w) single ch =
    fewer_uses ch w (wiped w) (omega (arith, uses-wiped ch w)) (unfold wiped in refl) (single ch)
Step-IsSingle (waits w q) single ch =
    let next_grown : (waited w q).next ≡ suc w.next = unfold waited in refl in
    let (one, fresh) = single ch in let used = uses-waited ch w q in ground arith
Step-IsSingle (sends w front back (c, r) p) single ch =
    let moved : sent_to ch w.pending ≡ (if c == ch then 1 else 0) + sent_to ch (front ++ back) =
      ap (sent_to ch) p ∙ sent_to-picked ch front back c r in
    fewer_uses ch w (record w { pending = front ++ back; buffered = (c, r) ∷ w.buffered })
      (omega arith) refl (single ch)
Step-IsSingle (receives w front back (c, r) p) single ch =
    let moved : sent_to ch w.buffered ≡ (if c == ch then 1 else 0) + sent_to ch (front ++ back) =
      ap (sent_to ch) p ∙ sent_to-picked ch front back c r in
    fewer_uses ch w (record w { buffered = front ++ back }) (ground arith) refl (single ch)
Step-IsSingle (gives_up w c) single ch =
    let fewer = parked_on-without ch c w.ring.waiters in
    fewer_uses ch w (record w { ring = remove_waiter w.ring c })
      (unfold remove_waiter in omega arith) refl (single ch)

pub reachable-IsSingle : {n : ℕ} {w : World} → Reachable n w → IsSingle w
unfolding start new parked_on sent_to
reachable-IsSingle starts ch = (omega arith, λ p. refl)
reachable-IsSingle (steps reached step) ch = Step-IsSingle step (reachable-IsSingle reached) ch

-- In every world that a ring gets into, the channel that a left send is for is empty, so the send
-- does not wait.
pub send_never_waits :
    {n : ℕ} {w : World} (front back : List (ℕ × WaitResult)) (ch : ℕ) (r : WaitResult)
    → Reachable n w
    → w.pending ≡ front ++ (ch, r) ∷ back
    → sent_to ch w.buffered ≡ 0
send_never_waits {w} front back ch r reached p =
    let picked = sent_to-picked ch front back ch r in
    let left : sent_to ch w.pending ≡ 1 + sent_to ch (front ++ back) =
      ap (sent_to ch) p ∙ (picked ∙ ground arith) in
    omega (arith, (reachable-IsSingle reached ch).0)
