-- ===== src/Audit/Tests.antt =====
-- A ring of two events, and the theorems on it.
use go_lab_netconf.Base.{ℕ, ◌≤◌, [], ◌∷◌, ◌≡◌, length}
use go_lab_netconf.Audit.{Ring, new_ring, append_all, stamped, keep_last, append_all-new_ring}

append_all-new_ring_example :
    ((append_all ℕ (new_ring ℕ 2) (5 ∷ 6 ∷ 7 ∷ [])).events
      ≡ keep_last ℕ (new_ring ℕ 2).max (stamped ℕ 0 (5 ∷ 6 ∷ 7 ∷ [])))
    × (length (append_all ℕ (new_ring ℕ 2) (5 ∷ 6 ∷ 7 ∷ [])).events ≤ (new_ring ℕ 2).max)
append_all-new_ring_example = append_all-new_ring ℕ 2 (5 ∷ 6 ∷ 7 ∷ [])

abbrev full : Ring ℕ
full = record { max = 1; next_id = 4; events = record { id = b'x' ∷ []; body = 3 } ∷ [] }
