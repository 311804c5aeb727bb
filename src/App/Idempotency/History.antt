-- ===== src/App/Idempotency/History.antt =====
-- Any sequence of calls of the cache of internal/app/idempotency.go, from the new one on.
use go_lab_netconf.Base.{
  ℕ, ◌≤◌, String, List, [], ◌∷◌, Option, none, some, ◌≡◌, refl, ap, ◌∙◌, arith, length,
}
use go_lab_netconf.Base.Dict.{lookup}
use go_lab_netconf.Base.Int.{ℤ}
use go_lab_netconf.App.Idempotency.{
  ApplyResult, IdempCache, Found, new_idemp_cache, lookup_apply, store_apply, evict, clear,
}
use go_lab_netconf.App.Idempotency.Chain.{nil}
use go_lab_netconf.App.Idempotency.Keys.{find_at}
use go_lab_netconf.App.Idempotency.Lru.{Items, lru_lookup, lru_store, lru_evict}
use go_lab_netconf.App.Idempotency.Refinement.{
  Refines, lookup-Refines, store-Refines, evict-Refines, clear-Refines,
}

pub data CacheCall (Operation : Type 0) : Type 0 where
  looks : String → String → CacheCall Operation
  stores : String → String → Option (ApplyResult Operation) → CacheCall Operation
  evicts : String → CacheCall Operation
  clears : CacheCall Operation

module _ {Operation : Type 0} where
  -- What a call returns, if it returns anything, and what it leaves.
  unfoldable pub perform :
      CacheCall Operation → IdempCache Operation → Option (Found Operation) × IdempCache Operation
  perform (looks key fp) c = let (found, c') = lookup_apply key fp c in (some found, c')
  perform (stores key fp r) c = (none, store_apply key fp r c)
  perform (evicts key) c = (none, evict key c)
  perform clears c = (none, clear c)

  unfoldable pub lru_perform :
      ℕ → CacheCall Operation → Items Operation → Option (Found Operation) × Items Operation
  lru_perform max (looks key fp) l = let (found, l') = lru_lookup key fp l in (some found, l')
  lru_perform max (stores key fp r) l = (none, lru_store max key fp r l)
  lru_perform max (evicts key) l = (none, lru_evict key l)
  lru_perform max clears l = (none, [])

  unfoldable pub run :
      List (CacheCall Operation)
      → IdempCache Operation
      → List (Option (Found Operation)) × IdempCache Operation
  unfolding perform
  run [] c = ([], c)
  run (call ∷ calls) c =
      let (answer, c') = perform call c in
      let (answers, last) = run calls c' in (answer ∷ answers, last)

  unfoldable pub lru_run :
      ℕ
      → List (CacheCall Operation)
      → Items Operation
      → List (Option (Found Operation)) × Items Operation
  unfolding lru_perform
  lru_run max [] l = ([], l)
  lru_run max (call ∷ calls) l =
      let (answer, l') = lru_perform max call l in
      let (answers, last) = lru_run max calls l' in (answer ∷ answers, last)

  perform-Refines :
      {c : IdempCache Operation} {l : Items Operation} {max : ℕ} (call : CacheCall Operation)
      → Refines c l max
      → ((perform call c).0 ≡ (lru_perform max call l).0)
        × Refines (perform call c).1 (lru_perform max call l).1 max
  unfolding perform lru_perform
  perform-Refines (looks key fp) t =
      let (same, next) = lookup-Refines t key fp in (ap some same, next)
  perform-Refines (stores key fp r) t = (refl, store-Refines t key fp r)
  perform-Refines (evicts key) t = (refl, evict-Refines t key)
  perform-Refines clears t = (refl, clear-Refines t)

  pub steps-Refines :
      (calls : List (CacheCall Operation)) {c : IdempCache Operation} {l : Items Operation}
      {max : ℕ}
      → Refines c l max
      → ((run calls c).0 ≡ (lru_run max calls l).0)
        × Refines (run calls c).1 (lru_run max calls l).1 max
  unfolding run lru_run
  steps-Refines [] t = (refl, t)
  steps-Refines (call ∷ calls) {c} {l} {max} t =
      let (same, next) = perform-Refines call t in
      let (answers, last) = steps-Refines calls next in
      (
        ap (λ a. a ∷ (run calls (perform call c).1).0) same
            ∙ ap (λ rest. (lru_perform max call l).0 ∷ rest) answers,
        last,
      )

  new-Refines :
      (max : ℤ) → Refines (new_idemp_cache Operation max) [] (new_idemp_cache Operation max).max
  unfolding new_idemp_cache lookup find_at
  new-Refines max = record {
    addresses = [];
    cache = record {
      linked = record { chain = nil refl refl; distinct = tt };
      keys = tt;
      index = λ k. refl;
      unique = tt;
      count = refl;
      below = λ b i. cc;
    };
    items = refl;
    limit = refl;
    bound = omega arith;
  }

-- Whatever is asked of a new cache, in whatever order, it answers as the list of the last used
-- requests does, and then its map and its doubly linked list hold that list.
pub run-Refines :
    (Operation : Type 0) (max : ℤ) (calls : List (CacheCall Operation))
    → ((run calls (new_idemp_cache Operation max)).0
        ≡ (lru_run (new_idemp_cache Operation max).max calls []).0)
      × Refines
          (run calls (new_idemp_cache Operation max)).1
          (lru_run (new_idemp_cache Operation max).max calls []).1
          (new_idemp_cache Operation max).max
run-Refines Operation max calls = steps-Refines calls (new-Refines max)

-- No sequence of calls makes the map of a cache that was new grow past its limit.
pub run_bounded :
    (Operation : Type 0) (max : ℤ) (calls : List (CacheCall Operation))
    → length (run calls (new_idemp_cache Operation max)).1.entries
      ≤ (new_idemp_cache Operation max).max
run_bounded Operation max calls =
    let t = (run-Refines Operation max calls).1 in omega (arith, t.cache.count, t.bound)
