-- ===== src/App/Idempotency/Refinement.antt =====
-- The cache of internal/app/idempotency.go does what the list of Lru does, whatever is asked of it.
use go_lab_netconf.Base.{
  ℕ, zero, suc, ◌≤◌, String, str_eq, eq_iff, true, List, [], ◌∷◌, ◌++◌, map, Option, none, some,
  ◌≡◌, refl, sym, ap, subst, ◌∙◌, arith, Bool-cases, Option-cases, inl, inr, length, length-append,
  take, take_all,
}
use go_lab_netconf.Base.Dict.{lookup}
use go_lab_netconf.App.Idempotency.{
  ApplyResult, IdempCache, lookup_apply, store_apply, evict, clear, insert_new, update_apply,
  move_front, clone_apply, write, remove_old,
}
use go_lab_netconf.App.Idempotency.Chain.{has, IsDistinct-Apart, has-append, nil, frame}
use go_lab_netconf.App.Idempotency.Keys.{
  find_at, HasUniqueKeys-Middle, find-map, find_at-split, find_at-same, HasUniqueKeys-same,
  map-same,
}
use go_lab_netconf.App.Idempotency.Lru.{Items, find, drop_key, lru_lookup, lru_store, lru_evict}
use go_lab_netconf.App.Idempotency.Represents.{view, IsCache, move_front-IsCache}
use go_lab_netconf.App.Idempotency.Insert.{Dropped, remove_old-Dropped, insert_new-IsCache}

length-map {ℓ κ} :
    {A : Type ℓ} {B : Type κ} (f : A → B) (xs : List A) → length (map f xs) ≡ length xs
length-map f [] = refl
length-map f (x ∷ xs) = ap suc (length-map f xs)

take-le {ℓ} : {A : Type ℓ} (m : ℕ) (xs : List A) → length (take m xs) ≤ m
take-le zero xs = omega arith
take-le (suc m) [] = omega arith
take-le (suc m) (x ∷ xs) = omega (arith, take-le m xs)

module _ {Operation : Type 0} where
  -- The cache holds the items, in their order, and no more than `max`.
  pub record Refines (c : IdempCache Operation) (l : Items Operation) (max : ℕ) : Type 0 where
    pub addresses : List ℕ
    pub cache : IsCache c addresses
    pub items : map (view c) addresses ≡ l
    pub limit : c.max ≡ max
    pub bound : length addresses ≤ max

  module _ {c : IdempCache Operation} {l : Items Operation} {max : ℕ} (t : Refines c l max) where
    open t use {addresses, cache, items, limit, bound}

    find-none : (key : String) → lookup key c.entries ≡ none → find key l ≡ none
    find-none key e =
        let at = sym (cache.index key) ∙ e in
        rw (← items) (find-map (view c) key addresses ∙ rw at refl)

    find-some :
        (key : String) (a : ℕ) → lookup key c.entries ≡ some a → find key l ≡ some (view c a)
    find-some key a e =
        let at = sym (cache.index key) ∙ e in
        rw (← items) (find-map (view c) key addresses ∙ rw at refl)

    Dropped-Refines :
        (key : String) (d : IdempCache Operation) (ys : List ℕ)
        → Dropped key c d addresses ys
        → Refines d (drop_key key l) max
    Dropped-Refines key d ys dropped = record {
      addresses = ys;
      cache = dropped.cache;
      items = rw (dropped.keeps.viewed, dropped.items, items) refl;
      limit = dropped.keeps.max ∙ limit;
      bound = omega (arith, dropped.shorter, bound);
    }

    pub evict-Refines : (key : String) → Refines (evict key c) (lru_evict key l) max
    unfolding evict lru_evict remove_old
    evict-Refines key =
        let (ys, dropped) = remove_old-Dropped key addresses cache in
        elim (Bool-cases (str_eq key "")) [
          | inl blank ↦ rw (evict, lru_evict, blank) t
          | inr named ↦
              rw (evict, lru_evict, named) (Dropped-Refines key (remove_old key c) ys dropped)
        ]

    -- The entry under a key comes to the front.
    front-Refines :
        (key : String) (a : ℕ)
        → lookup key c.entries ≡ some a
        → Refines (move_front a c) (view c a ∷ drop_key key l) max
    front-Refines key a e =
        let (us, vs, whole, keyed) =
          find_at-split (view c) key a addresses (sym (cache.index key) ∙ e) in
        let there = subst (IsCache c) whole cache in
        let m = HasUniqueKeys-Middle (view c) us a vs there.keys in
        let (moved, keeps) = move_front-IsCache us a vs there in
        let rest : map (view c) (us ++ vs) ≡ drop_key key l =
          sym m.without
          ∙ ap (λ k. drop_key k (map (view c) (us ++ a ∷ vs))) keyed
          ∙ ap (drop_key key) (sym (ap (map (view c)) whole) ∙ items) in
        record {
          addresses = a ∷ us ++ vs;
          cache = moved;
          items = ap (λ v. map v (a ∷ us ++ vs)) keeps.viewed ∙ ap (λ r. view c a ∷ r) rest;
          limit = keeps.max ∙ limit;
          bound =
              omega (arith, bound, ap length whole, length-append us vs, length-append us (a ∷ vs));
        }

    pub lookup-Refines :
        (key fp : String)
        → ((lookup_apply key fp c).0 ≡ (lru_lookup key fp l).0)
          × Refines (lookup_apply key fp c).1 (lru_lookup key fp l).1 max
    unfolding lookup_apply lru_lookup
    lookup-Refines key fp = elim (Bool-cases (str_eq key "")) [
      | inl blank ↦ rw (lookup_apply, lru_lookup, blank) (refl, t)
      | inr named ↦ elim (Option-cases (lookup key c.entries)) [
        | inl e ↦ rw (lookup_apply, lru_lookup, named, e, find-none key e) (refl, t)
        | inr (a, e) ↦ elim (Bool-cases (str_eq (c.heap a).fp fp)) [
          | inl same ↦
              rw (lookup_apply, lru_lookup, named, e, find-some key a e, same)
                (refl, front-Refines key a e)
          | inr other ↦ rw (lookup_apply, lru_lookup, named, e, find-some key a e, other) (refl, t)
        ]
      ]
    ]

    -- A stored result that takes the place of one changes its entry alone.
    written : ℕ → ApplyResult Operation → IdempCache Operation
    written a r = record c { heap = write c.heap a (record (c.heap a) { apply = r }) }

    written-IsCache : (a : ℕ) (r : ApplyResult Operation) → IsCache (written a r) addresses
    unfolding written
    written-IsCache a r =
        let same_key = λ (b : ℕ) (i : has b addresses ≡ true).
          let k : ((written a r).heap b).key ≡ (c.heap b).key = ground arith in k in
        record {
          linked = record {
            chain = frame cache.linked.chain λ b i. ground arith;
            distinct = cache.linked.distinct;
          };
          keys = HasUniqueKeys-same (view c) (view (written a r)) addresses same_key cache.keys;
          index = λ j.
              cache.index j ∙ sym (find_at-same (view c) (view (written a r)) j addresses same_key);
          unique = cache.unique;
          count = cache.count;
          below = cache.below;
        }

    update-Refines :
        (key fp : String) (a : ℕ) (r : ApplyResult Operation)
        → lookup key c.entries ≡ some a
        → (c.heap a).fp ≡ fp
        → Refines (update_apply a r c) (take max ((key, fp, clone_apply r) ∷ drop_key key l)) max
    unfolding update_apply written
    update-Refines key fp a r e same =
        let (us, vs, whole, keyed) =
          find_at-split (view c) key a addresses (sym (cache.index key) ∙ e) in
        let d = written a (clone_apply r) in
        let there = subst (IsCache d) whole (written-IsCache a (clone_apply r)) in
        let m = HasUniqueKeys-Middle (view c) us a vs (subst (IsCache c) whole cache).keys in
        let apart = IsDistinct-Apart us a vs there.linked.distinct in
        let (moved, keeps) = move_front-IsCache us a vs there in
        let others : map (view d) (us ++ vs) ≡ map (view c) (us ++ vs) =
          map-same (view c) (view d) (us ++ vs)
            λ b i. ground (arith, has-append b us vs, apart.not_left, apart.not_right) in
        let rest : map (view c) (us ++ vs) ≡ drop_key key l =
          sym m.without
          ∙ ap (λ k. drop_key k (map (view c) (us ++ a ∷ vs))) keyed
          ∙ ap (drop_key key) (sym (ap (map (view c)) whole) ∙ items) in
        let first : view d a ≡ (key, fp, clone_apply r) = ground arith in
        let all : map (view d) (a ∷ us ++ vs) ≡ (key, fp, clone_apply r) ∷ drop_key key l =
          ap (λ x. x ∷ map (view d) (us ++ vs)) first
          ∙ ap (λ l. (key, fp, clone_apply r) ∷ l) (others ∙ rest) in
        let size : length (a ∷ us ++ vs) ≤ max =
          omega (arith, bound, ap length whole, length-append us vs, length-append us (a ∷ vs)) in
        let short : length ((key, fp, clone_apply r) ∷ drop_key key l) ≤ max =
          omega (arith, size, ap length all, length-map (view d) (a ∷ us ++ vs)) in
        record {
          addresses = a ∷ us ++ vs;
          cache = moved;
          items = ap (λ v. map v (a ∷ us ++ vs)) keeps.viewed ∙ all ∙ sym (take_all max _ short);
          limit = keeps.max ∙ limit;
          bound = size;
        }

    insert-Refines :
        (key fp : String) (r : ApplyResult Operation)
        → Refines (insert_new key fp r c) (take max ((key, fp, clone_apply r) ∷ drop_key key l)) max
    insert-Refines key fp r =
        let (ys, final, contents, same) = insert_new-IsCache key fp r addresses cache in
        let new : map (view (insert_new key fp r c)) ys
            ≡ take max ((key, fp, clone_apply r) ∷ drop_key key l) =
          contents ∙ rw (limit, items) refl in
        record {
          addresses = ys;
          cache = final;
          items = new;
          limit = same ∙ limit;
          bound = omega (
            arith,
            length-map (view (insert_new key fp r c)) ys,
            ap length new,
            take-le max ((key, fp, clone_apply r) ∷ drop_key key l),
          );
        }

    pub store-Refines :
        (key fp : String) (r : Option (ApplyResult Operation))
        → Refines (store_apply key fp r c) (lru_store max key fp r l) max
    unfolding store_apply lru_store
    store-Refines key fp none = t
    store-Refines key fp (some r) = elim (Bool-cases (str_eq key "")) [
      | inl blank ↦ rw (store_apply, lru_store, blank) t
      | inr named ↦ elim (Option-cases (lookup key c.entries)) [
        | inl e ↦ rw (store_apply, lru_store, named, e) (insert-Refines key fp r)
        | inr (a, e) ↦ elim (Bool-cases (str_eq (c.heap a).fp fp)) [
          | inl same ↦
              rw (store_apply, lru_store, named, e, same)
                (update-Refines key fp a r e ((eq_iff (c.heap a).fp fp).0 same))
          | inr other ↦ rw (store_apply, lru_store, named, e, other) (insert-Refines key fp r)
        ]
      ]
    ]

    pub clear-Refines : Refines (clear c) [] max
    unfolding clear lookup find_at
    clear-Refines = record {
      addresses = [];
      cache = record {
        linked = record { chain = nil refl refl; distinct = tt };
        keys = tt;
        index = λ k. refl;
        unique = tt;
        count = refl;
        below = λ b i. cc;
      };
      items = refl;
      limit = limit;
      bound = omega arith;
    }
