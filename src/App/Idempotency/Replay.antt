-- ===== src/App/Idempotency/Replay.antt =====
-- How long internal/app/idempotency.go remembers a request.
use go_lab_netconf.Base.{
  ℕ, zero, suc, ◌+◌, ◌<◌, ◌≤◌, String, str_eq, eq_iff, false, List, [], ◌∷◌, Option, none, some,
  ◌≡◌, refl, sym, ap, ◌∙◌, arith, Bool-cases, Option-cases, inl, inr, length, take, All,
  if◌then◌else◌,
}
use go_lab_netconf.Base.Int.{ℤ}
use go_lab_netconf.App.Idempotency.{
  ApplyResult, hit, refused, key_reused, new_idemp_cache, lookup_apply, store_apply, clone_apply,
}
use go_lab_netconf.App.Idempotency.Lru.{
  Content, Items, find, drop_key, lru_lookup, lru_store, lru_evict,
}
use go_lab_netconf.App.Idempotency.History.{
  CacheCall, looks, stores, evicts, clears, run, lru_run, lru_perform, steps-Refines, run-Refines,
}
use go_lab_netconf.App.Idempotency.Refinement.{lookup-Refines, store-Refines}

take-take {ℓ} : {A : Type ℓ} (n m : ℕ) (l : List A) → n ≤ m → take n (take m l) ≡ take n l
take-take zero m l p = refl
take-take (suc n) zero l p = absurd (omega arith)
take-take (suc n) (suc m) [] p = refl
take-take (suc n) (suc m) (x ∷ l) p = ap (λ r. x ∷ r) (take-take n m l (omega arith))

module _ {Operation : Type 0} where
  -- The calls that take a key's entry away, or put another there.
  abbrev pub Spares : String → CacheCall Operation → Type 0
  Spares key (looks k fp) = Unit
  Spares key (stores k fp r) = str_eq k key ≡ false
  Spares key (evicts k) = str_eq k key ≡ false
  Spares key clears = ⊥

  module _ (key : String) (x : Content Operation) where
    -- The key's entry is among the first `n`.
    IsNear : ℕ → Items Operation → Type 0
    unfolding find
    IsNear n l = find key (take n l) ≡ some x

    IsNear-suc : (n : ℕ) (l : Items Operation) → IsNear n l → IsNear (suc n) l
    unfolding IsNear find
    IsNear-suc zero l p = ground arith
    IsNear-suc (suc n) [] p = ground arith
    IsNear-suc (suc n) ((k, f, r) ∷ l) p = ground (arith, IsNear-suc n l)

    drop_key-IsNear :
        (n : ℕ) (k : String) (l : Items Operation)
        → str_eq k key ≡ false
        → IsNear n l
        → IsNear n (drop_key k l)
    unfolding IsNear find drop_key
    drop_key-IsNear zero k l d p = p
    drop_key-IsNear (suc n) k [] d p = p
    drop_key-IsNear (suc n) k ((j, f, r) ∷ l) d p = ground (
      arith,
      drop_key-IsNear n k l d,
      IsNear-suc n (drop_key k l),
      eq_iff j key,
      eq_iff j k,
      eq_iff k key,
    )

    IsNear-find : (n : ℕ) (l : Items Operation) → IsNear n l → find key l ≡ some x
    unfolding IsNear find
    IsNear-find zero l p = ground arith
    IsNear-find (suc n) [] p = p
    IsNear-find (suc n) ((j, f, r) ∷ l) p = ground (arith, IsNear-find n l)

    find-key :
        (k : String) (l : Items Operation) (y : Content Operation) → find k l ≡ some y → y.0 ≡ k
    unfolding find
    find-key k [] y p = ground arith
    find-key k ((j, f, r) ∷ l) y p = ground (arith, eq_iff j k, find-key k l y)

    cons-IsNear :
        (n : ℕ) (k f : String) (r : ApplyResult Operation) (l : Items Operation)
        → str_eq k key ≡ false
        → IsNear n l
        → IsNear (suc n) ((k, f, r) ∷ drop_key k l)
    unfolding IsNear find
    cons-IsNear n k f r l d p = rw (find, d) (drop_key-IsNear n k l d p)

    -- A hit of another key moves the entry back by a place; one of the key, to the front.
    hit-IsNear :
        (n : ℕ) (k f : String) (r : ApplyResult Operation) (l : Items Operation)
        → find k l ≡ some (k, f, r)
        → IsNear n l
        → IsNear (suc n) ((k, f, r) ∷ drop_key k l)
    unfolding IsNear find
    hit-IsNear n k f r l e p = elim (Bool-cases (str_eq k key)) [
      | inr other ↦ cons-IsNear n k f r l other p
      | inl same ↦
          let keys = (eq_iff k key).0 same in
          rw (find, same) (sym e ∙ ap (λ j. find j l) keys ∙ IsNear-find n l p)
    ]

    lru_lookup-IsNear :
        (n : ℕ) (k fp : String) (l : Items Operation)
        → IsNear n l
        → IsNear (suc n) (lru_lookup k fp l).1
    unfolding lru_lookup
    lru_lookup-IsNear n k fp l p = elim (Bool-cases (str_eq k "")) [
      | inl blank ↦ rw (lru_lookup, blank) (IsNear-suc n l p)
      | inr named ↦ elim (Option-cases (find k l)) [
        | inl e ↦ rw (lru_lookup, named, e) (IsNear-suc n l p)
        | inr ((j, f, r), e) ↦ elim (Bool-cases (str_eq f fp)) [
          | inr differs ↦ rw (lru_lookup, named, e, differs) (IsNear-suc n l p)
          | inl agrees ↦
              let j_is = find-key k l (j, f, r) e in
              let at = e ∙ ap (λ i. some (i, f, r)) j_is in
              rw (lru_lookup, named, at, agrees) (hit-IsNear n k f r l at p)
        ]
      ]
    ]

    lru_store-IsNear :
        (n max : ℕ) (k fp : String) (r : Option (ApplyResult Operation)) (l : Items Operation)
        → str_eq k key ≡ false
        → suc n ≤ max
        → IsNear n l
        → IsNear (suc n) (lru_store max k fp r l)
    unfolding lru_store IsNear
    lru_store-IsNear n max k fp none l d le p = IsNear-suc n l p
    lru_store-IsNear n max k fp (some r) l d le p = elim (Bool-cases (str_eq k "")) [
      | inl blank ↦ rw (lru_store, blank) (IsNear-suc n l p)
      | inr named ↦
          let stored = (k, fp, clone_apply r) ∷ drop_key k l in
          rw (lru_store, named, take-take (suc n) max stored le)
            (cons-IsNear n k fp (clone_apply r) l d p)
    ]

    lru_perform-IsNear :
        (n max : ℕ) (call : CacheCall Operation) (l : Items Operation)
        → Spares key call
        → suc n ≤ max
        → IsNear n l
        → IsNear (suc n) (lru_perform max call l).1
    unfolding lru_perform lru_evict
    lru_perform-IsNear n max (looks k fp) l s le p = lru_lookup-IsNear n k fp l p
    lru_perform-IsNear n max (stores k fp r) l s le p = lru_store-IsNear n max k fp r l s le p
    lru_perform-IsNear n max (evicts k) l s le p = elim (Bool-cases (str_eq k "")) [
      | inl blank ↦ rw (lru_evict, blank) (IsNear-suc n l p)
      | inr named ↦ rw (lru_evict, named) (IsNear-suc n (drop_key k l) (drop_key-IsNear n k l s p))
    ]
    lru_perform-IsNear n max clears l s le p = elim s [ ]

    lru_run-IsNear :
        (n max : ℕ) (calls : List (CacheCall Operation)) (l : Items Operation)
        → All (Spares key) calls
        → n + length calls ≤ max
        → IsNear n l
        → (k : ℕ) × IsNear k (lru_run max calls l).1
    unfolding lru_run
    lru_run-IsNear n max [] l s le p = (n, p)
    lru_run-IsNear n max (call ∷ calls) l s le p =
        lru_run-IsNear (suc n) max calls (lru_perform max call l).1 s.1 (omega arith)
          (lru_perform-IsNear n max call l s.0 (omega arith) p)

  -- With a result near the front, the same request finds it and another one is refused.
  IsNear-lru_lookup :
      (key fp other : String) (r : ApplyResult Operation) (n : ℕ) (l : Items Operation)
      → str_eq key "" ≡ false
      → IsNear key (key, fp, r) n l
      → (lru_lookup key other l).0 ≡ (if str_eq fp other then hit r else refused key_reused)
  unfolding lru_lookup
  IsNear-lru_lookup key fp other r n l named p =
      rw (lru_lookup, named, IsNear-find key (key, fp, r) n l p) (ground arith)

  stored-IsNear :
      (max : ℕ) (key fp : String) (r : ApplyResult Operation) (l : Items Operation)
      → str_eq key "" ≡ false
      → 1 ≤ max
      → IsNear key (key, fp, clone_apply r) 1 (lru_store max key fp (some r) l)
  unfolding lru_store IsNear find
  stored-IsNear max key fp r l named le =
      let stored = (key, fp, clone_apply r) ∷ drop_key key l in
      rw (lru_store, named, take-take 1 max stored le) (ground (arith, eq_iff key key))

-- After a result was stored under a key, and fewer calls than the cache has places, none of which
-- clears the cache, evicts the key or stores under it, the same request gets that result again, and a
-- different request under the key is refused.
pub replay_lem :
    (Operation : Type 0) (max : ℤ) (before calls : List (CacheCall Operation))
    (key fp other : String) (r : ApplyResult Operation)
    → str_eq key "" ≡ false
    → All (Spares key) calls
    → length calls < (new_idemp_cache Operation max).max
    → (lookup_apply key other
        (run calls
          (store_apply key fp (some r) (run before (new_idemp_cache Operation max)).1)).1).0
      ≡ (if str_eq fp other then hit (clone_apply r) else refused key_reused)
replay_lem Operation max before calls key fp other r named spared few =
    let m = (new_idemp_cache Operation max).max in
    let started = (run-Refines Operation max before).1 in
    let stored = store-Refines started key fp (some r) in
    let l = lru_store m key fp (some r) (lru_run m before []).1 in
    let (n, near) =
      lru_run-IsNear key (key, fp, clone_apply r) 1 m calls l spared (omega arith)
        (stored-IsNear m key fp r (lru_run m before []).1 named (omega arith)) in
    let last = (steps-Refines calls stored).1 in
    (lookup-Refines last key other).0
    ∙ IsNear-lru_lookup key fp other (clone_apply r) n (lru_run m calls l).1 named near
