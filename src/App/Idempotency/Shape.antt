-- ===== src/App/Idempotency/Shape.antt =====
-- The doubly linked list of internal/app/idempotency.go: an entry leaves it from any place and enters it
-- at the head, and nothing else of the cache changes.
use go_lab_netconf.Base.{
  ℕ, List, [], ◌∷◌, ◌++◌, Option, none, some, ◌≡◌, ◌≢◌, refl, ap, ◌∙◌, arith, Option-cases, inl,
  inr,
}
use go_lab_netconf.App.Idempotency.{
  IdempEntry, IdempCache, write, unlink_prev, unlink_next, forget_links, unlink, link_front,
}
use go_lab_netconf.App.Idempotency.Chain.{
  ◌∉◌, IsDistinct, IsDistinct-Apart, Heap, Seg, nil, cons, frame, Seg-append, Seg-split, first_of,
  last_of, last-has, first-has, set_next, set_prev, set_next-elsewhere, set_prev-elsewhere,
  Seg-set_next, Seg-set_prev, has-append,
}
use go_lab_netconf.App.Idempotency.Lru.{Content}

module _ {Operation : Type 0} where
  -- What an entry holds beside its links.
  abbrev pub content : IdempEntry Operation → Content Operation
  content e = (e.key, e.fp, e.apply)

  pub record IsLinked (c : IdempCache Operation) (xs : List ℕ) : Type 0 where
    pub chain : Seg c.heap none c.head xs none c.tail
    pub distinct : IsDistinct xs

  -- Nothing but links has changed.
  pub record SameRest (c d : IdempCache Operation) : Type 0 where
    pub max : d.max ≡ c.max
    pub entries : d.entries ≡ c.entries
    pub fresh : d.fresh ≡ c.fresh
    pub contents : (b : ℕ) → content (d.heap b) ≡ content (c.heap b)

  SameRest-trans : {b c d : IdempCache Operation} → SameRest b c → SameRest c d → SameRest b d
  SameRest-trans s t = record {
    max = t.max ∙ s.max;
    entries = t.entries ∙ s.entries;
    fresh = t.fresh ∙ s.fresh;
    contents = λ b. t.contents b ∙ s.contents b;
  }

  set_next-content :
      (l r : Option ℕ) (h : Heap Operation) (b : ℕ) → content (set_next l r h b) ≡ content (h b)
  unfolding set_next
  set_next-content none r h b = refl
  set_next-content (some l) r h b = ground arith

  set_prev-content :
      (l r : Option ℕ) (h : Heap Operation) (b : ℕ) → content (set_prev l r h b) ≡ content (h b)
  unfolding set_prev
  set_prev-content none r h b = refl
  set_prev-content (some l) r h b = ground arith

  abbrev without_prev : ℕ → IdempCache Operation → IdempCache Operation
  without_prev a c = record c {
    heap = set_next (c.heap a).prev (c.heap a).next c.heap;
    head = elim (c.heap a).prev [ none ↦ (c.heap a).next | some _ ↦ c.head ];
  }

  unlink_prev_lem : (a : ℕ) (c : IdempCache Operation) → unlink_prev a c ≡ without_prev a c
  unfolding unlink_prev set_next
  unlink_prev_lem a c = elim (Option-cases (c.heap a).prev) [
    | inl e ↦ rw (unlink_prev, e) refl
    | inr (b, e) ↦ rw (unlink_prev, e) refl
  ]

  abbrev without_next : IdempEntry Operation → IdempCache Operation → IdempCache Operation
  without_next e c = record c {
    heap = set_prev e.next e.prev c.heap;
    tail = elim e.next [ none ↦ e.prev | some _ ↦ c.tail ];
  }

  unlink_next_lem : (a : ℕ) (c : IdempCache Operation) → unlink_next a c ≡ without_next (c.heap a) c
  unfolding unlink_next set_prev
  unlink_next_lem a c = elim (Option-cases (c.heap a).next) [
    | inl q ↦ rw (unlink_next, q) refl
    | inr (b, q) ↦ rw (unlink_next, q) refl
  ]

  -- The heap with an entry taken out, where the entry does not link to itself.
  abbrev bridged : ℕ → Heap Operation → Heap Operation
  bridged a h = set_prev (h a).next (h a).prev (set_next (h a).prev (h a).next h)

  unlink_lem :
      (a : ℕ) (c : IdempCache Operation)
      → (c.heap a).prev ≢ some a
      → (c.heap a).next ≢ some a
      → unlink a c ≡ record c {
        heap = write (bridged a c.heap) a (record (c.heap a) { prev = none; next = none });
        head = elim (c.heap a).prev [ none ↦ (c.heap a).next | some _ ↦ c.head ];
        tail = elim (c.heap a).next [ none ↦ (c.heap a).prev | some _ ↦ c.tail ];
      }
  unfolding unlink forget_links
  unlink_lem a c p q =
      let c1 = without_prev a c in
      let here : set_next (c.heap a).prev (c.heap a).next c.heap a ≡ c.heap a =
        set_next-elsewhere (c.heap a).prev (c.heap a).next c.heap a p in
      let there : bridged a c.heap a ≡ c.heap a =
        set_prev-elsewhere (c.heap a).next (c.heap a).prev
          (set_next (c.heap a).prev (c.heap a).next c.heap) a q
        ∙ here in
      rw (unlink_prev_lem a c) (
        ap (forget_links a) (unlink_next_lem a c1 ∙ ap (λ e. without_next e c1) here)
        ∙ rw there refl)

  -- The first and the last of a stretch as the code finds them.
  head_after :
      {h : Heap Operation} {p : Option ℕ} {xs : List ℕ} {after last : Option ℕ} (r : Option ℕ)
      → Seg h none p xs after last
      → (elim last [ none ↦ r | some _ ↦ p ]) ≡ first_of xs r
  head_after r (nil at end) = rw (← end) refl
  head_after r (cons {a} {xs} at back s) =
      let (b, e, i) = last_of xs a (cons at back s) in rw (e, at) refl

  tail_after :
      {h : Heap Operation} {before p : Option ℕ} {xs : List ℕ} {last : Option ℕ} (m : Option ℕ)
      → Seg h before p xs none last
      → (elim p [ none ↦ m | some _ ↦ last ]) ≡ (elim xs [ [] ↦ m | _ ∷ _ ↦ last ])
  tail_after m (nil at end) = rw at refl
  tail_after m (cons at back s) = rw at refl

  same_links : (e f : IdempEntry Operation) → e ≡ f → (e.prev ≡ f.prev) × (e.next ≡ f.next)
  same_links e f p = (ap (λ g. g.prev) p, ap (λ g. g.next) p)

  bridged-content : (a : ℕ) (h : Heap Operation) (b : ℕ) → content (bridged a h b) ≡ content (h b)
  bridged-content a h b =
      set_prev-content (h a).next (h a).prev (set_next (h a).prev (h a).next h) b
      ∙ set_next-content (h a).prev (h a).next h b

  -- An entry that is taken out leaves the entries before and behind it linked, in their order.
  pub unlink-IsLinked :
      {c : IdempCache Operation} (xs : List ℕ) (a : ℕ) (ys : List ℕ)
      → IsLinked c (xs ++ a ∷ ys)
      → IsLinked (unlink a c) (xs ++ ys) × SameRest c (unlink a c)
  unlink-IsLinked {c} xs a ys l =
      let (left, right) = Seg-split xs l.chain in
      let apart = IsDistinct-Apart xs a ys l.distinct in
      let m = (c.heap a).prev in
      let n = (c.heap a).next in
      let prev_in = λ (b : ℕ). last-has b left in
      let next_in = λ (b : ℕ). first-has b right in
      let h1 : Heap Operation = set_next m n c.heap in
      let left1 : Seg h1 none (first_of xs n) xs n m = Seg-set_next n left apart.left in
      let right1 : Seg h1 (some a) n ys none c.tail = frame right λ b i.
        same_links (h1 b) (c.heap b)
          (set_next-elsewhere m n c.heap b (λ e. ground (arith, prev_in b e, apart.disjoint b))) in
      let right2 = Seg-set_prev m right1 apart.right in
      let left2 : Seg (bridged a c.heap) none (first_of xs n) xs n m = frame left1 λ b i.
        same_links (bridged a c.heap b) (h1 b)
          (set_prev-elsewhere n m h1 b (λ e. ground (arith, next_in b e, apart.disjoint b))) in
      let joined = Seg-append left2 right2 in
      rw
        (unlink_lem a c (λ e. ground (arith, prev_in a e, apart.not_left))
          (λ e. ground (arith, next_in a e, apart.not_right)))
        (
          record {
            chain =
                rw (head_after n left, tail_after m right)
                  (frame joined
                    λ b i. ground (arith, has-append b xs ys, apart.not_left, apart.not_right));
            distinct = apart.rest;
          },
          record {
            max = refl;
            entries = refl;
            fresh = refl;
            contents = λ b. ground (arith, bridged-content a c.heap b, bridged-content a c.heap a);
          },
        )

  tail_front :
      {h : Heap Operation} {p : Option ℕ} {xs : List ℕ} {after last : Option ℕ} (a : ℕ)
      → Seg h none p xs after last
      → (elim last [ some t ↦ some t | none ↦ some a ]) ≡ (elim xs [ [] ↦ some a | _ ∷ _ ↦ last ])
  tail_front a (nil at end) = rw (← end) refl
  tail_front a (cons {a = d} {xs} at back s) =
      let (b, e, i) = last_of xs d (cons at back s) in rw e refl

  abbrev fronted : ℕ → IdempCache Operation → IdempCache Operation
  fronted a c = record c {
    heap =
        set_prev c.head (some a)
          (write c.heap a (record (c.heap a) { prev = none; next = c.head }));
    head = some a;
    tail = elim c.tail [ some t ↦ some t | none ↦ some a ];
  }

  set_prev_cases :
      (l m : Option ℕ) (h : Heap Operation)
      → (elim l [ some b ↦ write h b (record (h b) { prev = m }) | none ↦ h ]) ≡ set_prev l m h
  unfolding set_prev
  set_prev_cases none m h = refl
  set_prev_cases (some b) m h = refl

  link_front_lem : (a : ℕ) (c : IdempCache Operation) → link_front a c ≡ fronted a c
  unfolding link_front
  link_front_lem a c =
      ap (λ (g : Heap Operation). record (fronted a c) { heap = g })
        (set_prev_cases c.head (some a)
          (write c.heap a (record (c.heap a) { prev = none; next = c.head })))

  -- An entry that is not in the list becomes its head, and the others keep their order.
  pub link_front-IsLinked :
      {c : IdempCache Operation} (a : ℕ) (xs : List ℕ)
      → a ∉ xs
      → IsLinked c xs
      → IsLinked (link_front a c) (a ∷ xs) × SameRest c (link_front a c)
  link_front-IsLinked {c} a xs out l =
      let h : Heap Operation = write c.heap a (record (c.heap a) { prev = none; next = c.head }) in
      let head_in = λ (b : ℕ). first-has b l.chain in
      let away : set_prev c.head (some a) h a ≡ h a =
        set_prev-elsewhere c.head (some a) h a (λ e. ground (arith, head_in a e)) in
      let moved : Seg h none c.head xs none c.tail = frame l.chain λ b i. ground arith in
      let rest = Seg-set_prev (some a) moved l.distinct in
      let here : (h a).prev ≡ none = ground arith in
      let onward : (h a).next ≡ c.head = ground arith in
      rw (link_front_lem a c) (
        record {
          chain =
              cons refl (ap (λ e. e.prev) away ∙ here)
                (rw (ap (λ e. e.next) away ∙ onward, tail_front a l.chain) rest);
          distinct = (out, l.distinct);
        },
        record {
          max = refl;
          entries = refl;
          fresh = refl;
          contents = λ b. set_prev-content c.head (some a) h b ∙ ground arith;
        },
      )
