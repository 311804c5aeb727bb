-- ===== src/Audit.antt =====
-- internal/audit/ring.go: the bounded log of events. What an event says beyond its id stands in its
-- body, which the ring does not read.
mod Tests
use go_lab_netconf.Base.{
  ◌==◌, ℕ, zero, suc, ◌+◌, ◌-◌, ◌%◌, ◌^◌, ◌≤◌, Bytes, bytes_eq, bytes_eq_iff, Bool, true, false,
  ◌||◌, List, [], ◌∷◌, ◌++◌, Option, none, some, ◌≡◌, refl, sym, ap, ◌∙◌, length, length-append,
  drop, take, drop-nil, length-drop, drop-append, drop-more, ltb, leb, if◌then◌else◌, arith,
  append_assoc, append-nil, Bool-cases, inl, inr,
}
use go_lab_netconf.Framing.{itoa}

module _ {ℓ} (Body : Type ℓ) where
  pub record Event : Type ℓ where
    pub id : Bytes
    pub body : Body

  -- `next_id` is a uint64.
  pub record Ring : Type ℓ where
    pub max : ℕ
    pub next_id : ℕ
    pub events : List Event

  abbrev pub default_max : ℕ
  default_max = 128

  -- `NewRing`; a size that is not positive is 0 here.
  unfoldable pub new_ring : ℕ → Ring
  new_ring max = record { max = if leb max 0 then default_max else max; next_id = 0; events = [] }

  -- "aud-" and the number
  abbrev pub event_id : ℕ → Bytes
  event_id n = b'a' ∷ b'u' ∷ b'd' ∷ b'-' ∷ itoa n

  unfoldable pub append : Ring → Body → Event × Ring
  append r body =
      let next = (r.next_id + 1) % 2 ^ 64 in
      let ev : Event = record { id = event_id next; body = body } in
      let all = r.events ++ ev ∷ [] in
      (
        ev,
        record r {
          next_id = next;
          events = if ltb r.max (length all) then drop (length all - r.max) all else all;
        },
      )

  -- The loop of `List`, from the newest event.
  newest : ℕ → List Event → List Event → List Event
  newest limit [] acc = take limit acc
  newest limit (ev ∷ evs) acc = newest limit evs (ev ∷ acc)

  unfoldable pub page_size : ℕ → ℕ
  page_size limit = if leb limit 0 || ltb 100 limit then 100 else limit

  unfoldable pub list : Ring → ℕ → List Event
  unfolding newest
  list r limit =
      let asked = page_size limit in
      newest (if ltb (length r.events) asked then length r.events else asked) r.events []

  -- The loop of `Get`, from the newest event.
  unfoldable pub get_in : Bytes → List Event → Option Event
  get_in id [] = none
  get_in id (ev ∷ evs) = elim (get_in id evs) [
    | some later ↦ some later
    | none ↦ if bytes_eq ev.id id then some ev else none
  ]

  unfoldable pub get : Ring → Bytes → Option Event
  get r id = if length id == 0 then none else get_in id r.events

  unfoldable pub append_all : Ring → List Body → Ring
  append_all r [] = r
  append_all r (b ∷ bs) = append_all (append r b).1 bs

  -- All events from the id behind `n` on, as one log without a bound.
  unfoldable pub stamped : ℕ → List Body → List Event
  stamped n [] = []
  stamped n (b ∷ bs) =
      let next = (n + 1) % 2 ^ 64 in record { id = event_id next; body = b } ∷ stamped next bs

  unfoldable pub keep_last : ℕ → List Event → List Event
  keep_last max log = drop (length log - max) log

  append-keep_last :
      (max : ℕ) (log : List Event) (ev : Event)
      → keep_last max (keep_last max log ++ ev ∷ []) ≡ keep_last max (log ++ ev ∷ [])
  unfolding keep_last
  append-keep_last max log ev =
      let k = length log - max in
      let moved : drop k log ++ ev ∷ [] ≡ drop k (log ++ ev ∷ []) =
        sym (drop-append k log (ev ∷ []) (omega arith)) in
      let all = log ++ ev ∷ [] in
      let one_more : length all ≡ length log + 1 = length-append log (ev ∷ []) in
      let a = length (drop k all) - max in
      let sum : k + a ≡ length all - max = omega (arith, length-drop k all) in
      ap (λ m. drop (length m - max) m) moved ∙ (drop-more k a all ∙ ap (λ i. drop i all) sum)

  append-events :
      (r : Ring) (body : Body)
      → (append r body).1.events ≡ keep_last r.max (r.events ++ (append r body).0 ∷ [])
  unfolding append keep_last
  append-events r body =
      let ev = (append r body).0 in
      let all = r.events ++ ev ∷ [] in
      elim (Bool-cases (ltb r.max (length all))) [
        | inl over ↦ rw (append, over) refl
        | inr within ↦
            let none_over : length all - r.max ≡ 0 = ground arith in
            rw (append, within) (sym (ap (λ i. drop i all) none_over))
      ]

  append_all-keep_last :
      (max : ℕ) (r : Ring) (log : List Event) (bs : List Body)
      → r.max ≡ max
      → r.events ≡ keep_last max log
      → (append_all r bs).events ≡ keep_last max (log ++ stamped r.next_id bs)
  unfolding append_all stamped
  append_all-keep_last max r log [] same shown = shown ∙ ap (keep_last max) (sym (append-nil log))
  append_all-keep_last max r log (b ∷ bs) same shown =
      let ev = (append r b).0 in
      let next_shown : (append r b).1.events ≡ keep_last max (log ++ ev ∷ []) =
        append-events r b
        ∙ (ap (λ m. keep_last m (r.events ++ ev ∷ [])) same
            ∙ (ap (λ evs. keep_last max (evs ++ ev ∷ [])) shown ∙ append-keep_last max log ev)) in
      append_all-keep_last max (append r b).1 (log ++ ev ∷ []) bs (unfold append in same) next_shown
      ∙ ap (keep_last max)
          (unfold append in append_assoc log (ev ∷ []) (stamped (append r b).1.next_id bs))

  -- After any events a new ring holds the last of them, as many as its size, in their order, with
  -- the ids from 1 on; so it never holds more than its size.
  pub append_all-new_ring :
      (max : ℕ) (bs : List Body)
      → ((append_all (new_ring max) bs).events ≡ keep_last (new_ring max).max (stamped 0 bs))
        × (length (append_all (new_ring max) bs).events ≤ (new_ring max).max)
  unfolding new_ring
  append_all-new_ring max bs =
      let size = (new_ring max).max in
      let shown : (append_all (new_ring max) bs).events ≡ keep_last size (stamped 0 bs) =
        append_all-keep_last size (new_ring max) [] bs refl
          (unfold keep_last in sym (drop-nil (0 - size))) in
      (
        shown,
        rw shown (
            unfold keep_last in
            omega (arith, length-drop (length (stamped 0 bs) - size) (stamped 0 bs))),
      )

  get_in-last :
      (id : Bytes) (evs : List Event) (ev : Event)
      → ev.id ≡ id
      → get_in id (evs ++ ev ∷ []) ≡ some ev
  unfolding get_in
  get_in-last id [] ev p = ground (arith, bytes_eq_iff ev.id id)
  get_in-last id (e ∷ evs) ev p = rw (get_in-last id evs ev p) refl

  -- An event that was appended to a ring with room for one is the one that its id finds.
  pub get-append :
      (r : Ring) (body : Body)
      → 1 ≤ r.max
      → get (append r body).1 (append r body).0.id ≡ some (append r body).0
  unfolding get keep_last
  get-append r body p =
      let ev = (append r body).0 in
      let all = r.events ++ ev ∷ [] in
      let over = length all - r.max in
      let one_more : length all ≡ length r.events + 1 = length-append r.events (ev ∷ []) in
      let kept : (append r body).1.events ≡ drop over r.events ++ ev ∷ [] =
        append-events r body ∙ drop-append over r.events (ev ∷ []) (omega arith) in
      let named : (length ev.id == 0) ≡ false = (unfold append in ground arith) in
      rw (get, named) (ap (get_in ev.id) kept ∙ get_in-last ev.id (drop over r.events) ev refl)
