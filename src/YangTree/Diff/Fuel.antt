-- ===== src/YangTree/Diff/Fuel.antt =====
-- internal/yangtree/node.go: the depth that a comparison of two trees reaches.
use go_lab_netconf.Base.{
  ℕ, zero, suc, ◌+◌, ◌≤◌, Bytes, bytes_eq, Bool, true, false, Bool-cases, inl, inr, List, [], ◌∷◌,
  ◌++◌, Option, some, All, ◌≡◌, refl, sym, arith, if◌then◌else◌,
}
use mathlib.Core.Bool.{false≢true}
use go_lab_netconf.Datastore.Yang.{Change}
use go_lab_netconf.YangTree.Value.{
  Floats, Value, null, text, boolean, number, slice, mapping, Items, nil, cons, Fields, end, field,
  equal, field_at, or_null,
}
use go_lab_netconf.YangTree.Path.{Key, InstancePath}
use go_lab_netconf.YangTree.Lists.{Sprint}
use go_lab_netconf.YangTree.Node.{child_path, entry_path}
use go_lab_netconf.YangTree.Diff.{
  size, size_items, size_fields, Pair, fresh_pair, add_pair, add_items, item_keys, item_id,
  both_changes, walk_keys, walk_pairs, both_lists, keys_of, other_keys, differ, diff_walk,
}

-- Two walks did not run out of fuel, and gave the same changes.
abbrev pub Both : Option (List Change) → Option (List Change) → Type 0
Both x y = (cs : List Change) × (x ≡ some cs) × (y ≡ some cs)

module _ (F : Floats) where
  size_pos : (v : Value F) → 1 ≤ size F v
  unfolding size
  size_pos null = omega arith
  size_pos (text s) = omega arith
  size_pos (boolean b) = omega arith
  size_pos (number n) = omega arith
  size_pos (slice xs) = omega arith
  size_pos (mapping fs) = omega arith

  size-field_at :
      (k : Bytes) (fs : Fields F) → size F (or_null F (field_at F k fs)) ≤ size_fields F fs
  unfolding size field_at
  size-field_at k end = omega arith
  size-field_at k (field j v fs) = elim (Bool-cases (bytes_eq j k)) [
    | inl e ↦ rw e (omega arith)
    | inr e ↦ let later = size-field_at k fs in rw e (omega arith)
  ]

  module _ (sprint : Sprint F)
      (walk walk' : InstancePath → Value F → Value F → Option (List Change)) (n : ℕ) where
    -- Two walks that give the same changes on pairs of values up to a size.
    abbrev Agree : Type 0
    Agree =
        (p : InstancePath) (a b : Value F)
        → size F a + size F b ≤ n
        → Both (walk p a b) (walk' p a b)

    both_changes-Both :
        (x x' y y' : Option (List Change))
        → Both x x'
        → Both y y'
        → Both (both_changes F sprint x y) (both_changes F sprint x' y')
    unfolding both_changes
    both_changes-Both x x' y y' (as', p, p') (bs, q, q') =
        (as' ++ bs, rw (p, q) refl, rw (p', q') refl)

    walk_keys-Agree :
        (p : InstancePath) (fs gs : Fields F) (ks : List Bytes)
        → Agree
        → size_fields F fs + size_fields F gs ≤ n
        → Both (walk_keys F sprint walk p fs gs ks) (walk_keys F sprint walk' p fs gs ks)
    unfolding walk_keys
    walk_keys-Agree p fs gs [] agree bound = ([], refl, refl)
    walk_keys-Agree p fs gs (k ∷ ks) agree bound =
        let small = size-field_at k fs in
        let small' = size-field_at k gs in
        both_changes-Both _ _ _ _
          (agree (child_path p k) (or_null F (field_at F k fs)) (or_null F (field_at F k gs))
            (omega arith))
          (walk_keys-Agree p fs gs ks agree bound)

    -- The values of a pair are no larger than the lists they are from.
    abbrev Bounded : ℕ → ℕ → Pair F → Type 0
    Bounded l r pr = (size F pr.left ≤ l) × (size F pr.right ≤ r)

    walk_pairs-Agree :
        (l r : ℕ) (p : InstancePath) (prs : List (Pair F))
        → Agree
        → l + r ≤ n
        → All (Bounded l r) prs
        → Both (walk_pairs F sprint walk p prs) (walk_pairs F sprint walk' p prs)
    unfolding walk_pairs
    walk_pairs-Agree l r p [] agree bound all = ([], refl, refl)
    walk_pairs-Agree l r p (pr ∷ prs) agree bound ((left, right), all) =
        let q = entry_path p pr.keys in
        both_changes-Both _ _ _ _ (agree q pr.left pr.right (omega arith))
          (walk_pairs-Agree l r q prs agree bound all)

    fresh_pair-Bounded :
        (l r : ℕ) (id : Bytes) (keys : List Key) (item : Value F) (from_left : Bool)
        → 1 ≤ l
        → 1 ≤ r
        → (from_left ≡ true → size F item ≤ l)
        → (from_left ≡ false → size F item ≤ r)
        → Bounded l r (fresh_pair F sprint id keys item from_left)
    unfolding fresh_pair size
    fresh_pair-Bounded l r id keys item true pl pr left right = (left refl, pr)
    fresh_pair-Bounded l r id keys item false pl pr left right = (pl, right refl)

    placed-Bounded :
        (l r : ℕ) (pr : Pair F) (item : Value F) (from_left : Bool)
        → Bounded l r pr
        → (from_left ≡ true → size F item ≤ l)
        → (from_left ≡ false → size F item ≤ r)
        → Bounded l r (if from_left then record pr { left = item } else record pr { right = item })
    placed-Bounded l r pr item true (a, b) left right = (left refl, b)
    placed-Bounded l r pr item false (a, b) left right = (a, right refl)

    add_pair-Bounded :
        (l r : ℕ) (id : Bytes) (keys : List Key) (item : Value F) (from_left : Bool)
        (prs : List (Pair F))
        → 1 ≤ l
        → 1 ≤ r
        → (from_left ≡ true → size F item ≤ l)
        → (from_left ≡ false → size F item ≤ r)
        → All (Bounded l r) prs
        → All (Bounded l r) (add_pair F sprint id keys item from_left prs)
    unfolding add_pair
    add_pair-Bounded l r id keys item from_left [] pl pr left right all =
        (fresh_pair-Bounded l r id keys item from_left pl pr left right, tt)
    add_pair-Bounded l r id keys item from_left (q ∷ qs) pl pr left right (here, all) =
        elim (Bool-cases (bytes_eq q.id id)) [
          | inl e ↦ rw (add_pair, e) (placed-Bounded l r q item from_left here left right, all)
          | inr e ↦
              rw (add_pair, e)
                (here, add_pair-Bounded l r id keys item from_left qs pl pr left right all)
        ]

    add_items-Bounded :
        (l r : ℕ) (from_left : Bool) (xs : Items F) (p : InstancePath) (prs : List (Pair F))
        → 1 ≤ l
        → 1 ≤ r
        → (from_left ≡ true → size_items F xs ≤ l)
        → (from_left ≡ false → size_items F xs ≤ r)
        → All (Bounded l r) prs
        → All (Bounded l r) (add_items F sprint from_left xs (p, prs)).1
    unfolding add_items size_items
    add_items-Bounded l r from_left nil p prs pl pr left right all = all
    add_items-Bounded l r from_left (cons x xs) p prs pl pr left right all =
        let keys = item_keys F sprint x in
        add_items-Bounded l r from_left xs (entry_path p keys) _ pl pr
          (λ e. let q = left e in omega arith) (λ e. let q = right e in omega arith)
          (add_pair-Bounded l r (item_id F sprint p x keys) keys x from_left prs pl pr
            (λ e. let q = left e in omega arith) (λ e. let q = right e in omega arith) all)

    size_items_pos : (xs : Items F) → 1 ≤ size_items F xs
    unfolding size_items
    size_items_pos nil = omega arith
    size_items_pos (cons x xs) = omega arith

    both_lists-Agree :
        (p : InstancePath) (xs ys : Items F)
        → Agree
        → size_items F xs + size_items F ys ≤ n
        → Both (both_lists F sprint walk p xs ys) (both_lists F sprint walk' p xs ys)
    unfolding both_lists
    both_lists-Agree p xs ys agree bound =
        let l = size_items F xs in
        let r = size_items F ys in
        let pl = size_items_pos xs in
        let pr = size_items_pos ys in
        let (q, pairs) = add_items F sprint true xs (p, []) in
        let first =
          add_items-Bounded l r true xs p [] pl pr (λ e. omega arith)
            (λ e. absurd (false≢true (sym e))) tt in
        let second =
          add_items-Bounded l r false ys q pairs pl pr (λ e. absurd (false≢true e))
            (λ e. omega arith) first in
        walk_pairs-Agree l r (add_items F sprint false ys (q, pairs)).0
          (add_items F sprint false ys (q, pairs)).1 agree bound second

    differ-Agree :
        (p : InstancePath) (a b : Value F)
        → Agree
        → size F a + size F b ≤ suc n
        → Both (differ F sprint walk p a b) (differ F sprint walk' p a b)
    unfolding differ size
    differ-Agree p (mapping fs) (mapping gs) agree bound =
        walk_keys-Agree p fs gs (keys_of F fs ++ other_keys F fs gs) agree (omega arith)
    differ-Agree p (slice xs) (slice ys) agree bound = both_lists-Agree p xs ys agree (omega arith)
    differ-Agree p (mapping fs) null agree bound = (_, refl, refl)
    differ-Agree p (mapping fs) (text s) agree bound = (_, refl, refl)
    differ-Agree p (mapping fs) (boolean c) agree bound = (_, refl, refl)
    differ-Agree p (mapping fs) (number m) agree bound = (_, refl, refl)
    differ-Agree p (mapping fs) (slice ys) agree bound = (_, refl, refl)
    differ-Agree p (slice xs) null agree bound = (_, refl, refl)
    differ-Agree p (slice xs) (text s) agree bound = (_, refl, refl)
    differ-Agree p (slice xs) (boolean c) agree bound = (_, refl, refl)
    differ-Agree p (slice xs) (number m) agree bound = (_, refl, refl)
    differ-Agree p (slice xs) (mapping gs) agree bound = (_, refl, refl)
    differ-Agree p null b agree bound = (_, refl, refl)
    differ-Agree p (text s) b agree bound = (_, refl, refl)
    differ-Agree p (boolean c) b agree bound = (_, refl, refl)
    differ-Agree p (number m) b agree bound = (_, refl, refl)

  module _ (sprint : Sprint F) where
    -- The depth that `diff` gives the comparison, the sizes of both values, is enough: it does not run out,
    -- and any more of it gives the same changes.
    pub diff_walk_enough :
        (fuel more : ℕ) (p : InstancePath) (a b : Value F)
        → size F a + size F b ≤ fuel
        → fuel ≤ more
        → Both (diff_walk F sprint fuel p a b) (diff_walk F sprint more p a b)
    unfolding diff_walk
    diff_walk_enough zero more p a b bound le = let pos_a = size_pos a in absurd (omega arith)
    diff_walk_enough (suc fuel) zero p a b bound le = absurd (omega arith)
    diff_walk_enough (suc fuel) (suc more) p a b bound le = elim (Bool-cases (equal F a b)) [
      | inl e ↦ rw (diff_walk, e) ([], refl, refl)
      | inr e ↦
          rw (diff_walk, e)
            (differ-Agree sprint (diff_walk F sprint fuel) (diff_walk F sprint more) fuel p a b
              (λ q c d small. diff_walk_enough fuel more q c d small (omega arith)) bound)
    ]
