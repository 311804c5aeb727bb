-- ===== src/App/Idempotency/Insert.antt =====
-- The insertion of internal/app/idempotency.go: a new entry, the old one of its key out, the new one at
-- the head, and the last ones out while there are too many.
use mathlib.Core.Path.{fun_ext}
use go_lab_netconf.Base.{
  ℕ, zero, suc, ◌<◌, ◌≤◌, String, eq_iff, true, List, [], ◌∷◌, ◌++◌, map, Option, none, some, ◌≡◌,
  refl, sym, ap, subst, ◌∙◌, arith, Bool-cases, Option-cases, inl, inr, length, length-append, take,
  take_all, ltb,
}
use go_lab_netconf.Base.Dict.{lookup, put, lookup-put, length-put, put-IsUnique}
use go_lab_netconf.App.Idempotency.{
  ApplyResult, IdempEntry, IdempCache, link_front, remove_entry, evict_over, remove_old, allocate,
  register, insert_front, insert_new, clone_apply,
}
use go_lab_netconf.App.Idempotency.Chain.{has, ◌∉◌, has-append, Seg, snoc_of, frame}
use go_lab_netconf.App.Idempotency.Keys.{
  find_at, HasUniqueKeys, HasUniqueKeys-Middle, find_at-split, find_at-same, HasUniqueKeys-same,
  map-same, drop_key-absent,
}
use go_lab_netconf.App.Idempotency.Lru.{drop_key}
use go_lab_netconf.App.Idempotency.Represents.{view, IsCache, Keeps, remove_entry-IsCache}
use go_lab_netconf.App.Idempotency.Shape.{content, IsLinked, link_front-IsLinked}

take-snoc {ℓ} :
    {A : Type ℓ} (m : ℕ) (ys : List A) (t : A)
    → m ≤ length ys
    → take m (ys ++ t ∷ []) ≡ take m (ys ++ [])
take-snoc zero ys t p = refl
take-snoc (suc m) [] t p = absurd (omega arith)
take-snoc (suc m) (y ∷ ys) t p = ap (λ l. y ∷ l) (take-snoc m ys t (omega arith))

map-take {ℓ κ} :
    {A : Type ℓ} {B : Type κ} (f : A → B) (m : ℕ) (xs : List A)
    → map f (take m xs) ≡ take m (map f xs)
map-take f zero xs = refl
map-take f (suc m) [] = refl
map-take f (suc m) (x ∷ xs) = ap (λ l. f x ∷ l) (map-take f m xs)

module _ {Operation : Type 0} where
  allocate-max :
      (key fp : String) (r : ApplyResult Operation) (c : IdempCache Operation)
      → (allocate key fp r c).max ≡ c.max
  unfolding allocate
  allocate-max key fp r c = refl

  allocate-fresh :
      (key fp : String) (r : ApplyResult Operation) (c : IdempCache Operation)
      → c.fresh < (allocate key fp r c).fresh
  unfolding allocate
  allocate-fresh key fp r c = omega arith

  Keeps-refl : {c : IdempCache Operation} → Keeps c c
  Keeps-refl = record { max = refl; fresh = refl; viewed = refl }

  Keeps-trans : {b c d : IdempCache Operation} → Keeps b c → Keeps c d → Keeps b d
  Keeps-trans s t = record {
    max = t.max ∙ s.max;
    fresh = t.fresh ∙ s.fresh;
    viewed = t.viewed ∙ s.viewed;
  }

  -- With too many entries there is a last one.
  over_last :
      {h : ℕ → IdempEntry Operation} {p last : Option ℕ} (m : ℕ) (xs : List ℕ)
      → Seg h none p xs none last
      → m < length xs
      → (t : ℕ) × (ys : List ℕ) × (last ≡ some t) × (xs ≡ ys ++ t ∷ [])
  over_last m [] s p = absurd (omega arith)
  over_last m (a ∷ xs) s p = snoc_of xs a s

  evict_over_step :
      (n : ℕ) (c : IdempCache Operation) (t : ℕ)
      → ltb c.max (length c.entries) ≡ true
      → c.tail ≡ some t
      → evict_over (suc n) c ≡ evict_over n (remove_entry t c)
  unfolding evict_over
  evict_over_step n c t over last =
      let g : Option ℕ → IdempCache Operation =
        λ o. elim o [ some u ↦ evict_over n (remove_entry u c) | none ↦ c ] in
      rw (evict_over, over) (ap g last)

  -- The loop drops the last entries until no more than `max` are left, in as many rounds as there are
  -- entries at most.
  pub evict_over-IsCache :
      (n : ℕ) (c : IdempCache Operation) (xs : List ℕ)
      → IsCache c xs
      → length xs ≤ n
      → IsCache (evict_over n c) (take c.max xs) × Keeps c (evict_over n c)
  unfolding evict_over
  evict_over-IsCache zero c xs w p = rw (take_all c.max xs (omega arith)) (w, Keeps-refl)
  evict_over-IsCache (suc n) c xs w p = elim (Bool-cases (ltb c.max (length c.entries))) [
    | inr fits ↦
        let small : length xs ≤ c.max = ground (arith, w.count) in
        rw (evict_over, fits, take_all c.max xs small) (w, Keeps-refl)
    | inl over ↦
        let many : c.max < length xs = ground (arith, w.count) in
        let (t, ys, last, whole) = over_last c.max xs w.linked.chain many in
        let (smaller, kept) = remove_entry-IsCache ys t [] (subst (IsCache c) whole w) in
        let shorter : length xs ≡ suc (length (ys ++ [])) =
          ap length whole ∙ omega (arith, length-append ys (t ∷ []), length-append ys []) in
        let (final, keeps) =
          evict_over-IsCache n (remove_entry t c) (ys ++ []) smaller (omega arith) in
        let same : take (remove_entry t c).max (ys ++ []) ≡ take c.max xs =
          rw (kept.max, whole) (sym (take-snoc c.max ys t (omega (arith, length-append ys [])))) in
        let goes : evict_over (suc n) c ≡ evict_over n (remove_entry t c) =
          evict_over_step n c t over last in
        subst (λ d. IsCache d (take c.max xs) × Keeps c d) (sym goes)
          (subst (IsCache (evict_over n (remove_entry t c))) same final, Keeps-trans kept keeps)
  ]

  -- What dropping a key's entry comes to.
  pub record Dropped (k : String) (c d : IdempCache Operation) (xs ys : List ℕ) : Type 0 where
    pub cache : IsCache d ys
    pub keeps : Keeps c d
    pub items : map (view c) ys ≡ drop_key k (map (view c) xs)
    pub gone : find_at (view c) k ys ≡ none
    pub among : (b : ℕ) → has b ys ≡ true → has b xs ≡ true
    pub shorter : length ys ≤ length xs

  pub remove_found :
      {c : IdempCache Operation} (k : String) (a : ℕ) (xs : List ℕ)
      → IsCache c xs
      → find_at (view c) k xs ≡ some a
      → (ys : List ℕ) × Dropped k c (remove_entry a c) xs ys
  remove_found {c} k a xs w found =
      let (us, vs, whole, keyed) = find_at-split (view c) k a xs found in
      let there = subst (IsCache c) whole w in
      let m = HasUniqueKeys-Middle (view c) us a vs there.keys in
      let (cache, keeps) = remove_entry-IsCache us a vs there in
      (
        us ++ vs,
        record {
          cache = cache;
          keeps = keeps;
          items = rw (whole, ← keyed) (sym m.without);
          gone = ground (arith, m.others k, eq_iff (view c a).0 k);
          among = λ b i. rw whole (ground (arith, has-append b us vs, has-append b us (a ∷ vs)));
          shorter = rw whole (omega (arith, length-append us vs, length-append us (a ∷ vs)));
        },
      )

  pub remove_old-Dropped :
      {c : IdempCache Operation} (k : String) (xs : List ℕ)
      → IsCache c xs
      → (ys : List ℕ) × Dropped k c (remove_old k c) xs ys
  unfolding remove_old
  remove_old-Dropped {c} k xs w = elim (Option-cases (lookup k c.entries)) [
    | inl e ↦
        let gone = sym (w.index k) ∙ e in
        rw (remove_old, e)
          (
            xs,
            record {
              cache = w;
              keeps = Keeps-refl;
              items = sym (drop_key-absent (view c) k xs gone);
              gone = gone;
              among = λ b i. i;
              shorter = omega arith;
            },
          )
    | inr (a, e) ↦ rw (remove_old, e) (remove_found k a xs w (sym (w.index k) ∙ e))
  ]

  -- An entry that the cache does not hold yet, under a key that it does not hold, becomes the head.
  register_link-IsCache :
      {c : IdempCache Operation} (a : ℕ) (xs : List ℕ)
      → IsCache c xs
      → a ∉ xs
      → a < c.fresh
      → find_at (view c) (c.heap a).key xs ≡ none
      → IsCache (link_front a (register a c)) (a ∷ xs) × Keeps c (link_front a (register a c))
  unfolding register find_at
  register_link-IsCache {c} a xs w out below new =
      let k = (c.heap a).key in
      let start : IsLinked (register a c) xs = record {
        chain = w.linked.chain;
        distinct = w.linked.distinct;
      } in
      let (linked, same) = link_front-IsLinked a xs out start in
      let seen : view (link_front a (register a c)) ≡ view c = fun_ext same.contents in
      let unknown : lookup k c.entries ≡ none = w.index k ∙ new in
      (
        record {
          linked = linked;
          keys = subst (λ v. HasUniqueKeys v (a ∷ xs)) (sym seen) (new, w.keys);
          index = λ j. rw same.entries (
              subst (λ v. lookup j (put k a c.entries) ≡ find_at v j (a ∷ xs)) (sym seen)
                (lookup-put k j a c.entries ∙ ground (arith, w.index j)));
          unique = rw same.entries (put-IsUnique k a c.entries w.unique);
          count = rw same.entries (length-put k a c.entries unknown ∙ ap suc w.count);
          below = λ b i. rw same.fresh (ground (arith, w.below b));
        },
        record { max = same.max; fresh = same.fresh; viewed = seen },
      )

  -- A new entry changes nothing of the ones that are there.
  allocate-IsCache :
      {c : IdempCache Operation} (key fp : String) (r : ApplyResult Operation) (xs : List ℕ)
      → IsCache c xs
      → IsCache (allocate key fp r c) xs
        × (map (view (allocate key fp r c)) xs ≡ map (view c) xs)
        × (view (allocate key fp r c) c.fresh ≡ (key, fp, r))
        × (c.fresh ∉ xs)
  unfolding allocate
  allocate-IsCache {c} key fp r xs w =
      let d = allocate key fp r c in
      let old : (b : ℕ) → has b xs ≡ true → d.heap b ≡ c.heap b =
        λ b i. ground (arith, w.below b i) in
      let same = λ (b : ℕ) (i : has b xs ≡ true). ap content (old b i) in
      let same_keys = λ (b : ℕ) (i : has b xs ≡ true). ap (λ e. e.key) (old b i) in
      let fresh_out : c.fresh ∉ xs = elim (Bool-cases (has c.fresh xs)) [
        | inl i ↦ absurd (omega (arith, w.below c.fresh i))
        | inr out ↦ out
      ] in
      (
        record {
          linked = record {
            chain =
                frame w.linked.chain
                  λ b i. (ap (λ e. e.prev) (old b i), ap (λ e. e.next) (old b i));
            distinct = w.linked.distinct;
          };
          keys = HasUniqueKeys-same (view c) (view d) xs same_keys w.keys;
          index = λ j. w.index j ∙ sym (find_at-same (view c) (view d) j xs same_keys);
          unique = w.unique;
          count = w.count;
          below = λ b i. omega (arith, w.below b i);
        },
        map-same (view c) (view d) xs same,
        ground arith,
        fresh_out,
      )

  -- `insertFrontLocked` on an entry that was allocated: it takes the place of its key's, as the head.
  insert_front-IsCache :
      {c : IdempCache Operation} (a : ℕ) (xs : List ℕ)
      → IsCache c xs
      → a ∉ xs
      → a < c.fresh
      → (ys : List ℕ) × IsCache (insert_front a c) ys
        × (map (view (insert_front a c)) ys
            ≡ take c.max (view c a ∷ drop_key (c.heap a).key (map (view c) xs)))
        × ((insert_front a c).max ≡ c.max)
  unfolding insert_front
  insert_front-IsCache {c} a xs w out below =
      let k = (c.heap a).key in
      let (ys, dropped) = remove_old-Dropped k xs w in
      let c1 = remove_old k c in
      let viewed = dropped.keeps.viewed in
      let same_key : (c1.heap a).key ≡ k = ap (λ v. (v a).0) viewed in
      let apart : a ∉ ys = ground (arith, dropped.among a) in
      let new : find_at (view c1) (c1.heap a).key ys ≡ none =
        subst (λ v. find_at v (v a).0 ys ≡ none) (sym viewed) dropped.gone in
      let (linked, kept) =
        register_link-IsCache a ys dropped.cache apart (rw dropped.keeps.fresh below) new in
      let c2 = link_front a (register a c1) in
      let (final, keeps) =
        evict_over-IsCache (length c2.entries) c2 (a ∷ ys) linked (omega (arith, linked.count)) in
      let seen : view (insert_front a c) ≡ view c = keeps.viewed ∙ kept.viewed ∙ viewed in
      let max : c2.max ≡ c.max = kept.max ∙ dropped.keeps.max in
      (
        take c2.max (a ∷ ys),
        final,
        rw (seen, max)
            (map-take (view c) c.max (a ∷ ys) ∙ ap (λ l. take c.max (view c a ∷ l)) dropped.items),
        keeps.max ∙ max,
      )

  -- A result that is stored under a key without an entry of the same request.
  pub insert_new-IsCache :
      {c : IdempCache Operation} (key fp : String) (r : ApplyResult Operation) (xs : List ℕ)
      → IsCache c xs
      → (ys : List ℕ) × IsCache (insert_new key fp r c) ys
        × (map (view (insert_new key fp r c)) ys
            ≡ take c.max ((key, fp, clone_apply r) ∷ drop_key key (map (view c) xs)))
        × ((insert_new key fp r c).max ≡ c.max)
  unfolding insert_new
  insert_new-IsCache {c} key fp r xs w =
      let (started, same, here, out) = allocate-IsCache key fp (clone_apply r) xs w in
      let d = allocate key fp (clone_apply r) c in
      let max : d.max ≡ c.max = allocate-max key fp (clone_apply r) c in
      let (ys, final, items, max') =
        insert_front-IsCache c.fresh xs started out (allocate-fresh key fp (clone_apply r) c) in
      let same_key : (d.heap c.fresh).key ≡ key = ap (λ e. e.0) here in
      (ys, final, items ∙ rw (max, here, same_key, same) refl, max' ∙ max)
