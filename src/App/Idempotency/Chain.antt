-- ===== src/App/Idempotency/Chain.antt =====
-- Stretches of the doubly linked list of internal/app/idempotency.go, and what a changed pointer at
-- either end does to them.
use go_lab_netconf.Base.{
  ℕ, Bool, true, false, ◌||◌, List, [], ◌∷◌, ◌++◌, Option, none, some, ◌≡◌, ◌≢◌, refl, ap, sym, ◌∙◌,
  arith, ◌==◌,
}
use go_lab_netconf.App.Idempotency.{IdempEntry, write}

abbrev pub has : ℕ → List ℕ → Bool
has a [] = false
has a (b ∷ xs) = (a == b) || has a xs

infix 40 ◌∉◌
abbrev pub ◌∉◌ : ℕ → List ℕ → Type 0
a ∉ xs = has a xs ≡ false

abbrev pub IsDistinct : List ℕ → Type 0
IsDistinct [] = Unit
IsDistinct (a ∷ xs) = (a ∉ xs) × IsDistinct xs

pub or_true : (b : Bool) → (b || true) ≡ true
or_true true = refl
or_true false = refl

-- The first address, or what stands behind the stretch.
abbrev pub first_of : List ℕ → Option ℕ → Option ℕ
first_of [] r = r
first_of (a ∷ xs) r = some a

pub has-append : (a : ℕ) (xs ys : List ℕ) → has a (xs ++ ys) ≡ (has a xs || has a ys)
has-append a [] ys = refl
has-append a (x ∷ xs) ys = rw (has-append a xs ys) (ground arith)

-- Addresses of the parts of a list without repetition are apart.
pub record Apart (xs : List ℕ) (a : ℕ) (ys : List ℕ) : Type 0 where
  pub left : IsDistinct xs
  pub right : IsDistinct ys
  pub not_left : a ∉ xs
  pub not_right : a ∉ ys
  pub disjoint : (b : ℕ) → has b xs ≡ true → b ∉ ys
  pub rest : IsDistinct (xs ++ ys)

pub IsDistinct-Apart :
    (xs : List ℕ) (a : ℕ) (ys : List ℕ) → IsDistinct (xs ++ a ∷ ys) → Apart xs a ys
IsDistinct-Apart [] a ys d = record {
  left = tt;
  right = d.1;
  not_left = refl;
  not_right = d.0;
  disjoint = λ b i. cc;
  rest = d.1;
}
IsDistinct-Apart (x ∷ xs) a ys d =
    let t = IsDistinct-Apart xs a ys d.1 in
    let out : has x (xs ++ a ∷ ys) ≡ false = d.0 in
    let parts = has-append x xs (a ∷ ys) in
    let apart = has-append x xs ys in
    record {
      left = (ground arith, t.left);
      right = t.right;
      not_left = ground (arith, t.not_left);
      not_right = t.not_right;
      disjoint = λ b i. ground (arith, t.disjoint b);
      rest = (ground arith, t.rest);
    }

abbrev pub Heap : Type 0 → Type 0
Heap Operation = ℕ → IdempEntry Operation

module _ {Operation : Type 0} where
  -- From `p`, whose entry's `prev` is `before`, the `next` pointers lead through the entries at `xs`,
  -- each of which points back, to `after`; `last` is the last entry, or `before`.
  pub data Seg (h : Heap Operation)
      : Option ℕ → Option ℕ → List ℕ → Option ℕ → Option ℕ → Type 0 where
    nil :
        {before p after last : Option ℕ} → p ≡ after → before ≡ last → Seg h before p [] after last
    cons :
        {before p after last : Option ℕ} {a : ℕ} {xs : List ℕ}
        → p ≡ some a
        → (h a).prev ≡ before
        → Seg h (some a) (h a).next xs after last
        → Seg h before p (a ∷ xs) after last

  abbrev pub SameLinks : List ℕ → Heap Operation → Heap Operation → Type 0
  SameLinks xs h g =
      (b : ℕ) → has b xs ≡ true → ((g b).prev ≡ (h b).prev) × ((g b).next ≡ (h b).next)

  module _ {h : Heap Operation} where
    pub frame :
        {g : Heap Operation} {before p : Option ℕ} {xs : List ℕ} {after last : Option ℕ}
        → Seg h before p xs after last
        → SameLinks xs h g
        → Seg g before p xs after last
    frame (nil at end) same = nil at end
    frame (cons {a} at back s) same =
        let here = same a (ground arith) in
        cons at (here.0 ∙ back) (rw here.1 (frame s λ b i. same b (ground arith)))

    pub Seg-append :
        {before p : Option ℕ} {xs ys : List ℕ} {mid m after last : Option ℕ}
        → Seg h before p xs mid m
        → Seg h m mid ys after last
        → Seg h before p (xs ++ ys) after last
    Seg-append (nil at end) t = rw (at, end) t
    Seg-append (cons at back s) t = cons at back (Seg-append s t)

    pub Seg-split :
        (xs : List ℕ) {before p : Option ℕ} {a : ℕ} {ys : List ℕ} {after last : Option ℕ}
        → Seg h before p (xs ++ a ∷ ys) after last
        → Seg h before p xs (some a) (h a).prev × Seg h (some a) (h a).next ys after last
    Seg-split [] (cons at back s) = (nil at (sym back), s)
    Seg-split (b ∷ xs) (cons at back s) =
        let (left, right) = Seg-split xs s in (cons at back left, right)

    -- The last entry of a stretch is one of its entries.
    pub last_of :
        (xs : List ℕ) {before p : Option ℕ} (a : ℕ) {after last : Option ℕ}
        → Seg h before p (a ∷ xs) after last
        → (b : ℕ) × (last ≡ some b) × (has b (a ∷ xs) ≡ true)
    last_of [] a (cons at back (nil end same)) = (a, sym same, ground arith)
    last_of (c ∷ xs) a (cons at back s) = let (b, e, i) = last_of xs c s in (b, e, ground arith)

    pub snoc_of :
        (xs : List ℕ) {before p : Option ℕ} (a : ℕ) {after last : Option ℕ}
        → Seg h before p (a ∷ xs) after last
        → (b : ℕ) × (ys : List ℕ) × (last ≡ some b) × (a ∷ xs ≡ ys ++ b ∷ [])
    snoc_of [] a (cons at back (nil end same)) = (a, [], sym same, refl)
    snoc_of (c ∷ xs) a (cons at back s) =
        let (b, ys, e, whole) = snoc_of xs c s in (b, a ∷ ys, e, ap (λ l. a ∷ l) whole)

    pub last-has :
        {p : Option ℕ} {xs : List ℕ} {after last : Option ℕ} (b : ℕ)
        → Seg h none p xs after last
        → last ≡ some b
        → has b xs ≡ true
    last-has b (nil at end) e = cc
    last-has b (cons {a} {xs} at back s) e =
        let (c, e', i) = last_of xs a (cons at back s) in ground arith

    pub first-has :
        {before p : Option ℕ} {xs : List ℕ} {last : Option ℕ} (b : ℕ)
        → Seg h before p xs none last
        → p ≡ some b
        → has b xs ≡ true
    first-has b (nil at end) e = cc
    first-has b (cons at back s) e = ground arith

  -- `b.next = r` and `b.prev = r`, where there is an entry b
  unfoldable pub set_next : Option ℕ → Option ℕ → Heap Operation → Heap Operation
  set_next none r h = h
  set_next (some b) r h = write h b (record (h b) { next = r })

  unfoldable pub set_prev : Option ℕ → Option ℕ → Heap Operation → Heap Operation
  set_prev none r h = h
  set_prev (some b) r h = write h b (record (h b) { prev = r })

  set_next-prev :
      (l r : Option ℕ) (h : Heap Operation) (a : ℕ) → (set_next l r h a).prev ≡ (h a).prev
  unfolding set_next
  set_next-prev none r h a = refl
  set_next-prev (some b) r h a = ground arith

  set_prev-next :
      (l r : Option ℕ) (h : Heap Operation) (a : ℕ) → (set_prev l r h a).next ≡ (h a).next
  unfolding set_prev
  set_prev-next none r h a = refl
  set_prev-next (some b) r h a = ground arith

  pub set_next-elsewhere :
      (l r : Option ℕ) (h : Heap Operation) (a : ℕ) → l ≢ some a → set_next l r h a ≡ h a
  unfolding set_next
  set_next-elsewhere none r h a p = refl
  set_next-elsewhere (some b) r h a p = ground arith

  pub set_prev-elsewhere :
      (l r : Option ℕ) (h : Heap Operation) (a : ℕ) → l ≢ some a → set_prev l r h a ≡ h a
  unfolding set_prev
  set_prev-elsewhere none r h a p = refl
  set_prev-elsewhere (some b) r h a p = ground arith

  -- With the last entry's `next` changed, the stretch leads to another place; an empty stretch is
  -- entered there.
  pub Seg-set_next :
      {h : Heap Operation} {before p : Option ℕ} {xs : List ℕ} {after last : Option ℕ}
      (r : Option ℕ)
      → Seg h before p xs after last
      → IsDistinct xs
      → Seg (set_next last r h) before (first_of xs r) xs r last
  unfolding set_next
  Seg-set_next r (nil at end) d = nil refl end
  Seg-set_next {h} r (cons {a} at back (nil at' end)) d =
      rw (← end) (cons refl (ground arith) (nil (ground arith) refl))
  Seg-set_next {h} {last} r (cons {a} at back (cons {a = c} {xs} at' back' s)) d =
      let (b, e, i) = last_of xs c (cons at' back' s) in
      let away : set_next last r h a ≡ h a = set_next-elsewhere last r h a (ground arith) in
      let rest = Seg-set_next r (cons at' back' s) d.1 in
      cons refl (set_next-prev last r h a ∙ back) (rw (ap (λ e. e.next) away ∙ at') rest)

  -- With the first entry's `prev` changed, the stretch comes from another place.
  pub Seg-set_prev :
      {h : Heap Operation} {before p : Option ℕ} {xs : List ℕ} {last : Option ℕ} (m : Option ℕ)
      → Seg h before p xs none last
      → IsDistinct xs
      → Seg (set_prev p m h) m p xs none (elim xs [ [] ↦ m | _ ∷ _ ↦ last ])
  unfolding set_prev
  Seg-set_prev m (nil at end) d = nil at refl
  Seg-set_prev {h} m (cons {a} {xs} at back s) d = rw at (
      cons refl (ground arith) (
        rw (set_prev-next (some a) m h a)
          (frame s λ b i. ground (arith, set_prev-elsewhere (some a) m h b))))
