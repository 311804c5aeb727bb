-- ===== src/Notif/Log.antt =====
-- internal/notif/ring.go: the records of a ring against the unbounded log of what was committed.
use go_lab_netconf.Base.{
  drop-nil, length-drop, drop-append, drop-drop, take_all, ℕ, suc, ◌-◌, ◌≤◌, ◌<◌, String, List, [],
  ◌∷◌, ◌++◌, ◌≡◌, refl, sym, ◌∙◌, length, length-append, drop, leb, ltb, true, false, le→leb,
  ltb→lt, Bool-cases, inl, inr, arith,
}
use go_lab_netconf.Datastore.Yang.{Change}
use go_lab_netconf.Notif.{
  Ring, Notification, stream_netconf, clamp, new, append_bounded, on_commit, wipe, wait,
  remove_waiter,
}

-- The last `cap` entries of a log.
unfoldable pub keep_last : ℕ → List Notification → List Notification
keep_last cap log = drop (length log - cap) log

pub clamp_bounds : (n : ℕ) → (1 ≤ clamp n) × (clamp n ≤ 4096)
unfolding clamp
clamp_bounds n = ground arith

keep_last-nil : (cap : ℕ) → keep_last cap [] ≡ []
unfolding keep_last
keep_last-nil cap = drop-nil (0 - cap)

module _ (cap : ℕ) (n : Notification) (log : List Notification) where
  room_left :
      (p : length log < cap)
      → append_bounded cap n (keep_last cap log) ≡ keep_last cap (log ++ n ∷ [])
  unfolding append_bounded keep_last
  room_left p =
      let none_over : length log - cap ≡ 0 = omega arith in
      let still_none : length (log ++ n ∷ []) - cap ≡ 0 =
        omega (arith, length-append log (n ∷ [])) in
      let not_full : leb cap (length log) ≡ false = ground arith in
      rw (none_over, still_none, not_full) refl

  oldest_dropped :
      (p : 1 ≤ cap) (q : cap ≤ length log)
      → append_bounded cap n (keep_last cap log) ≡ keep_last cap (log ++ n ∷ [])
  unfolding append_bounded keep_last
  oldest_dropped p q =
      let over = length log - cap in
      let one_more : length (log ++ n ∷ []) - cap ≡ suc over =
        omega (arith, length-append log (n ∷ [])) in
      let full : leb cap (length (drop over log)) ≡ true =
        le→leb cap (length (drop over log)) (omega (arith, length-drop over log)) in
      let fits : length (drop (suc over) log) ≤ cap - 1 =
        omega (arith, length-drop (suc over) log) in
      rw (one_more, full, drop-drop over log, take_all (cap - 1) (drop (suc over) log) fits)
        (sym (drop-append (suc over) log (n ∷ []) (omega arith)))

-- An insertion into the bounded log is an insertion into the log that it shows.
append_bounded-keep_last :
    (cap : ℕ) (n : Notification) (log : List Notification)
    → 1 ≤ cap
    → append_bounded cap n (keep_last cap log) ≡ keep_last cap (log ++ n ∷ [])
append_bounded-keep_last cap n log p = elim (Bool-cases (ltb (length log) cap)) [
  | inl less ↦ room_left cap n log (ltb→lt _ _ less)
  | inr more ↦ oldest_dropped cap n log p (ground arith)
]

-- The critical sections of a ring's methods that write.
pub data Call : Type 0 where
  commits : String → String → List Change → Call
  wipes : Call
  waits : String → ℕ → Call
  leaves : ℕ → Call

unfoldable pub after_call : Ring → Call → Ring
after_call r (commits id profile changes) = (on_commit r id profile changes).0
after_call r wipes = (wipe r).0
after_call r (waits q ch) = (wait r q ch).1
after_call r (leaves ch) = remove_waiter r ch

unfoldable pub after_calls : Ring → List Call → Ring
after_calls r [] = r
after_calls r (c ∷ cs) = after_calls (after_call r c) cs

-- The unbounded log of the commits since the last wipe.
unfoldable pub logged : List Notification → List Call → List Notification
logged log [] = log
logged log (commits id profile changes ∷ cs) =
    logged
      (log
        ++ record { id = id; stream = stream_netconf; profile = profile; changes = changes } ∷ [])
      cs
logged log (wipes ∷ cs) = logged [] cs
logged log (_ ∷ cs) = logged log cs

wait-items :
    (r : Ring) (q : String) (ch : ℕ)
    → ((wait r q ch).1.items ≡ r.items) × ((wait r q ch).1.cap ≡ r.cap)
unfolding wait
wait-items r q ch = ground arith

after_calls-keep_last :
    (cap : ℕ) (r : Ring) (log : List Notification) (cs : List Call)
    → 1 ≤ cap
    → r.cap ≡ cap
    → r.items ≡ keep_last cap log
    → (after_calls r cs).items ≡ keep_last cap (logged log cs)
unfolding after_calls after_call logged on_commit wipe remove_waiter
after_calls-keep_last cap r log [] p same shown = shown
after_calls-keep_last cap r log (commits id profile changes ∷ cs) p same shown =
    let n : Notification = record {
      id = id;
      stream = stream_netconf;
      profile = profile;
      changes = changes;
    } in
    after_calls-keep_last cap (on_commit r id profile changes).0 (log ++ n ∷ []) cs p same
      (rw (same, shown) (append_bounded-keep_last cap n log p))
after_calls-keep_last cap r log (wipes ∷ cs) p same shown =
    after_calls-keep_last cap (wipe r).0 [] cs p same (sym (keep_last-nil cap))
after_calls-keep_last cap r log (waits q ch ∷ cs) p same shown =
    let (items, cap_kept) = wait-items r q ch in
    after_calls-keep_last cap (wait r q ch).1 log cs p (cap_kept ∙ same) (items ∙ shown)
after_calls-keep_last cap r log (leaves ch ∷ cs) p same shown =
    after_calls-keep_last cap (remove_waiter r ch) log cs p same shown

-- After any calls on a new ring its records are the last ones that were committed since the last
-- wipe, as many as its capacity, in their order.
pub new-keep_last :
    (n : ℕ) (cs : List Call) → (after_calls (new n) cs).items ≡ keep_last (clamp n) (logged [] cs)
unfolding new
new-keep_last n cs =
    after_calls-keep_last (clamp n) (new n) [] cs (clamp_bounds n).0 refl
      (sym (keep_last-nil (clamp n)))

pub length-keep_last : (cap : ℕ) (log : List Notification) → length (keep_last cap log) ≤ cap
unfolding keep_last
length-keep_last cap log = omega (arith, length-drop (length log - cap) log)

-- A ring never holds more than its capacity, which is between 1 and 4096.
pub capacity_bounds :
    (n : ℕ) (cs : List Call)
    → (length (after_calls (new n) cs).items ≤ clamp n) × (clamp n ≤ 4096) × (1 ≤ clamp n)
capacity_bounds n cs = (
  rw (new-keep_last n cs) (length-keep_last (clamp n) (logged [] cs)),
  (clamp_bounds n).1,
  (clamp_bounds n).0,
)
