-- ===== src/Notif/World.antt =====
-- The goroutines around a notification ring: committers that send after their critical section, and
-- waiters that receive or give up. A channel is made with room for one message.
use go_lab_netconf.Base.{ℕ, suc, String, List, [], ◌∷◌, ◌++◌, ◌≡◌}
use go_lab_netconf.Datastore.Yang.{Change}
use go_lab_netconf.Notif.{Ring, WaitResult, new, on_commit, wipe, wait, remove_waiter}

-- `next` is the channel that the next `make` gives, `pending` the sends that are left to do, and
-- `buffered` the messages that stand in channels.
pub record World : Type 0 where
  pub ring : Ring
  pub next : ℕ
  pub pending : List (ℕ × WaitResult)
  pub buffered : List (ℕ × WaitResult)

unfoldable pub start : ℕ → World
start n = record { ring = new n; next = 0; pending = []; buffered = [] }

unfoldable pub committed : World → String → String → List Change → World
committed w id profile changes =
    let (r, sends) = on_commit w.ring id profile changes in
    record w { ring = r; pending = w.pending ++ sends }

unfoldable pub wiped : World → World
wiped w = let (r, sends) = wipe w.ring in record w { ring = r; pending = w.pending ++ sends }

-- A call of `Wait`, which makes its channel first.
unfoldable pub waited : World → String → World
waited w q = record w { ring = (wait w.ring q w.next).1; next = suc w.next }

-- One step of a goroutine. Any send that is left may come next, whoever does it, since committers
-- run side by side; a waiter whose context ends takes itself off the ring.
pub data Step : World → World → Type 0 where
  commits :
      (w : World) (id profile : String) (changes : List Change)
      → Step w (committed w id profile changes)
  wipes : (w : World) → Step w (wiped w)
  waits : (w : World) (q : String) → Step w (waited w q)
  sends :
      (w : World) (front back : List (ℕ × WaitResult)) (m : ℕ × WaitResult)
      → w.pending ≡ front ++ m ∷ back
      → Step w (record w { pending = front ++ back; buffered = m ∷ w.buffered })
  receives :
      (w : World) (front back : List (ℕ × WaitResult)) (m : ℕ × WaitResult)
      → w.buffered ≡ front ++ m ∷ back
      → Step w (record w { buffered = front ++ back })
  gives_up : (w : World) (ch : ℕ) → Step w (record w { ring = remove_waiter w.ring ch })

-- The worlds that a ring of capacity `n` gets into.
pub data Reachable (n : ℕ) : World → Type 0 where
  starts : Reachable n (start n)
  steps : {w w' : World} → Reachable n w → Step w w' → Reachable n w'
