-- ===== src/App/Idempotency/Represents.antt =====
-- The map and the list of internal/app/idempotency.go hold the same entries, each under its own key:
-- each step of the operations keeps it so.
use mathlib.Core.Path.{fun_ext}
use go_lab_netconf.Base.{
  ℕ, suc, ◌<◌, String, eq_iff, true, false, List, [], ◌∷◌, ◌++◌, Option, none, some, ◌≡◌, refl, sym,
  ap, subst, ◌∙◌, arith, Bool-cases, inl, inr, length, length-append,
}
use go_lab_netconf.Base.Dict.{
  lookup, remove, IsUnique, lookup-remove, length-remove, remove-IsUnique,
}
use go_lab_netconf.App.Idempotency.{
  IdempEntry, IdempCache, unlink, link_front, move_front, points_to, remove_entry,
}
use go_lab_netconf.App.Idempotency.Chain.{
  has, ◌∉◌, IsDistinct, IsDistinct-Apart, has-append, Seg, cons,
}
use go_lab_netconf.App.Idempotency.Keys.{find_at, HasUniqueKeys, HasUniqueKeys-Middle}
use go_lab_netconf.App.Idempotency.Lru.{Content}
use go_lab_netconf.App.Idempotency.Shape.{
  content, IsLinked, SameRest, unlink-IsLinked, link_front-IsLinked,
}

pub length-middle :
    (us : List ℕ) (a : ℕ) (vs : List ℕ) → length (us ++ a ∷ vs) ≡ suc (length (us ++ vs))
length-middle us a vs = omega (arith, length-append us (a ∷ vs), length-append us vs)

points_to_iff : (p : Option ℕ) (a : ℕ) → points_to p a ≡ true → p ≡ some a
unfolding points_to
points_to_iff none a h = ground arith
points_to_iff (some b) a h = ground arith

module _ {Operation : Type 0} where
  abbrev pub view : IdempCache Operation → ℕ → Content Operation
  view c = λ b. content (c.heap b)

  -- The list of the entries at `xs` and the map are one.
  pub record IsCache (c : IdempCache Operation) (xs : List ℕ) : Type 0 where
    pub linked : IsLinked c xs
    pub keys : HasUniqueKeys (view c) xs
    pub index : (k : String) → lookup k c.entries ≡ find_at (view c) k xs
    pub unique : IsUnique c.entries
    pub count : length c.entries ≡ length xs
    pub below : (b : ℕ) → has b xs ≡ true → b < c.fresh

  -- What a step that moves or drops an entry leaves.
  pub record Keeps (c d : IdempCache Operation) : Type 0 where
    pub max : d.max ≡ c.max
    pub fresh : d.fresh ≡ c.fresh
    pub viewed : view d ≡ view c

  pub SameRest-Keeps : {c d : IdempCache Operation} → SameRest c d → Keeps c d
  SameRest-Keeps s = record { max = s.max; fresh = s.fresh; viewed = fun_ext s.contents }

  -- `removeLocked` takes an entry out of both.
  pub remove_entry-IsCache :
      {c : IdempCache Operation} (us : List ℕ) (a : ℕ) (vs : List ℕ)
      → IsCache c (us ++ a ∷ vs)
      → IsCache (remove_entry a c) (us ++ vs) × Keeps c (remove_entry a c)
  unfolding remove_entry
  remove_entry-IsCache {c} us a vs w =
      let m = HasUniqueKeys-Middle (view c) us a vs w.keys in
      let k = (c.heap a).key in
      let smaller = record c { entries = remove k c.entries } in
      let start : IsLinked smaller (us ++ a ∷ vs) = record {
        chain = w.linked.chain;
        distinct = w.linked.distinct;
      } in
      let (linked, same) = unlink-IsLinked us a vs start in
      let seen : view (remove_entry a c) ≡ view c = fun_ext same.contents in
      (
        record {
          linked = linked;
          keys = rw seen m.unique;
          index = λ j.
              rw (seen, same.entries)
                (lookup-remove k j c.entries ∙ ground (arith, m.others j, w.index j));
          unique = rw same.entries (remove-IsUnique k c.entries w.unique);
          count = rw same.entries (
              ground (
                arith,
                length-remove k c.entries a w.unique (w.index k ∙ m.here),
                length-middle us a vs,
                w.count,
              ));
          below = λ b i.
              rw same.fresh
                (w.below b (ground (arith, has-append b us (a ∷ vs), has-append b us vs)));
        },
        record { max = same.max; fresh = same.fresh; viewed = seen },
      )

  -- The head has no entry before it.
  head-first :
      {h : ℕ → IdempEntry Operation} {p after last : Option ℕ} (us : List ℕ) (a : ℕ) (vs : List ℕ)
      → Seg h none p (us ++ a ∷ vs) after last
      → IsDistinct (us ++ a ∷ vs)
      → p ≡ some a
      → us ≡ []
  head-first [] a vs s d e = refl
  head-first (u ∷ us) a vs (cons at back s) d e =
      let same : u ≡ a = ground arith in
      let out : has u (us ++ a ∷ vs) ≡ false = d.0 in
      absurd (ground (arith, has-append u us (a ∷ vs)))

  -- `moveFrontLocked` changes the order alone.
  moved-IsCache :
      {c : IdempCache Operation} (us : List ℕ) (a : ℕ) (vs : List ℕ)
      → IsCache c (us ++ a ∷ vs)
      → IsCache (link_front a (unlink a c)) (a ∷ us ++ vs) × Keeps c (link_front a (unlink a c))
  unfolding find_at
  moved-IsCache {c} us a vs w =
      let m = HasUniqueKeys-Middle (view c) us a vs w.keys in
      let apart = IsDistinct-Apart us a vs w.linked.distinct in
      let (out, freed) = unlink-IsLinked us a vs w.linked in
      let away : a ∉ us ++ vs =
        ground (arith, has-append a us vs, apart.not_left, apart.not_right) in
      let (linked, placed) = link_front-IsLinked a (us ++ vs) away out in
      let seen : view (link_front a (unlink a c)) ≡ view c =
        fun_ext λ b. placed.contents b ∙ freed.contents b in
      let entries : (link_front a (unlink a c)).entries ≡ c.entries =
        placed.entries ∙ freed.entries in
      let fresh : (link_front a (unlink a c)).fresh ≡ c.fresh = placed.fresh ∙ freed.fresh in
      let k = (c.heap a).key in
      (
        record {
          linked = linked;
          keys =
              subst (λ v. HasUniqueKeys v (a ∷ us ++ vs)) (sym seen)
                (ground (arith, m.others k, eq_iff k k), m.unique);
          index = λ j. rw entries (
              subst (λ v. lookup j c.entries ≡ find_at v j (a ∷ us ++ vs)) (sym seen)
                (w.index j ∙ ground (arith, m.here, m.others j, eq_iff k j)));
          unique = rw entries w.unique;
          count = rw entries (omega (arith, w.count, length-middle us a vs));
          below = λ b i.
              rw fresh (w.below b (ground (arith, has-append b us (a ∷ vs), has-append b us vs)));
        },
        record { max = placed.max ∙ freed.max; fresh = fresh; viewed = seen },
      )

  pub move_front-IsCache :
      {c : IdempCache Operation} (us : List ℕ) (a : ℕ) (vs : List ℕ)
      → IsCache c (us ++ a ∷ vs)
      → IsCache (move_front a c) (a ∷ us ++ vs) × Keeps c (move_front a c)
  unfolding move_front points_to
  move_front-IsCache {c} us a vs w = elim (Bool-cases (points_to c.head a)) [
    | inl first ↦
        let at : c.head ≡ some a = points_to_iff c.head a first in
        let none_before = head-first us a vs w.linked.chain w.linked.distinct at in
        rw first (
          subst (IsCache c)
              (ap (λ l. l ++ a ∷ vs) none_before ∙ ap (λ l. a ∷ l ++ vs) (sym none_before)) w,
          record { max = refl; fresh = refl; viewed = refl },
        )
    | inr other ↦ rw other (moved-IsCache us a vs w)
  ]
