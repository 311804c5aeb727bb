-- ===== src/YangTree/Value/Laws.antt =====
-- internal/yangtree/value.go: what clone and equal make of a value.
use go_lab_netconf.Base.{
  Bytes, bytes_eq, bytes_eq_iff, Bool, true, false, Option-cases, inl, inr, none, some, ◌≡◌, refl,
  ap, arith, ◌==◌,
}
use go_lab_netconf.Base.Int.{ℤ, pos, negsuc}
use go_lab_netconf.YangTree.Value.{
  Floats, Number, int, float, literal, Value, null, text, boolean, number, slice, mapping, Items,
  nil, cons, Fields, end, field, clone, clone_items, clone_fields, as_int64, as_uint64, as_float64,
  field_at, count_fields, same_int, same_scalar, equal_float, equal_uint, equal_scalar, equal,
  equal_fields, equal_items,
}

module _ (F : Floats) where
  mutual
    unfolding clone

    clone-eq : (v : Value F) → clone F v ≡ v
    clone-eq null = refl
    clone-eq (text s) = refl
    clone-eq (boolean b) = refl
    clone-eq (number n) = refl
    clone-eq (slice xs) = ap slice (clone_items-eq xs)
    clone-eq (mapping fs) = ap mapping (clone_fields-eq fs)

    clone_items-eq : (xs : Items F) → clone_items F xs ≡ xs
    clone_items-eq nil = refl
    clone_items-eq (cons x xs) = rw (clone-eq x, clone_items-eq xs) refl

    clone_fields-eq : (fs : Fields F) → clone_fields F fs ≡ fs
    clone_fields-eq end = refl
    clone_fields-eq (field k v fs) = rw (clone-eq v, clone_fields-eq fs) refl

  pub clone_lem : (v : Value F) → clone F v ≡ v
  clone_lem v = clone-eq v

  pub clone_fields_lem : (fs : Fields F) → clone_fields F fs ≡ fs
  clone_fields_lem fs = clone_fields-eq fs

  -- A value that reads as a float reads as one that equals itself.
  abbrev pub IsOrdered : Value F → Type 0
  IsOrdered v = (x : F.Float) → as_float64 F v ≡ some x → F.eq x x ≡ true

  unfoldable mutual
    pub IsRegular : Value F → Type 0
    IsRegular null = Unit
    IsRegular (text s) = IsOrdered (text s)
    IsRegular (boolean b) = Unit
    IsRegular (number n) = IsOrdered (number n)
    IsRegular (slice xs) = AllRegular xs
    IsRegular (mapping fs) = FieldsRegular fs

    pub AllRegular : Items F → Type 0
    AllRegular nil = Unit
    AllRegular (cons x xs) = IsRegular x × AllRegular xs

    -- The keys differ, as those of a Go map do.
    pub FieldsRegular : Fields F → Type 0
    FieldsRegular end = Unit
    FieldsRegular (field k v fs) = (field_at F k fs ≡ none) × IsRegular v × FieldsRegular fs

  same_int_self : (z : ℤ) → same_int F z z ≡ true
  unfolding same_int
  same_int_self (pos n) = ground arith
  same_int_self (negsuc n) = ground arith

  -- `gs` has each of the fields.
  abbrev Within : Fields F → Fields F → Type 0
  Within end gs = Unit {0}
  Within (field k v fs) gs = (field_at F k gs ≡ some v) × Within fs gs

  bytes_refl : (s : Bytes) → bytes_eq s s ≡ true
  bytes_refl s = (bytes_eq_iff s s).1 refl

  same_scalar_text : (s : Bytes) → same_scalar F (text s) (text s) ≡ true
  unfolding same_scalar
  same_scalar_text s = bytes_refl s

  -- A scalar that has no numeric reading equals itself by `==`, any other by its number.
  equal_scalar_self :
      (v : Value F)
      → IsOrdered v
      → (as_float64 F v ≡ none → same_scalar F v v ≡ true)
      → equal_scalar F v v ≡ true
  unfolding equal_scalar equal_uint equal_float
  equal_scalar_self v ordered plain = elim (Option-cases (as_int64 F v)) [
    | inr (z, e) ↦ rw (equal_scalar, e) (rw e (same_int_self z))
    | inl no_int ↦ elim (Option-cases (as_uint64 F v)) [
      | inr (n, e) ↦ rw (equal_scalar, no_int, equal_uint, e) (rw e (ground arith))
      | inl no_uint ↦ elim (Option-cases (as_float64 F v)) [
        | inr (x, e) ↦
            rw (equal_scalar, no_int, equal_uint, no_uint, equal_float, e) (rw e (ordered x e))
        | inl no_float ↦
            rw (equal_scalar, no_int, equal_uint, no_uint, equal_float, no_float) (plain no_float)
      ]
    ]
  ]

  -- A number other than a literal has a float; a literal equals itself.
  same_number :
      (n : Number F) → as_float64 F (number n) ≡ none → same_scalar F (number n) (number n) ≡ true
  same_number (int z) e = unfold same_scalar in same_int_self z
  same_number (float x) e = unfold as_float64 in ground arith
  same_number (literal s) e = unfold same_scalar in bytes_refl s

  field_at-absent :
      (k j : Bytes) (v : Value F) (fs : Fields F)
      → field_at F k fs ≡ some v
      → field_at F j fs ≡ none
      → bytes_eq j k ≡ false
  field_at-absent k j v fs here gone = ground (arith, bytes_eq_iff j k)

  Within-weaken :
      (fs gs : Fields F) (k : Bytes) (w : Value F)
      → field_at F k gs ≡ none
      → Within fs gs
      → Within fs (field k w gs)
  unfolding field_at
  Within-weaken end gs k w new p = _
  Within-weaken (field j v fs) gs k w new (here, rest) =
      let other = field_at-absent j k v gs here new in
      (rw other here, Within-weaken fs gs k w new rest)

  Within-self : (fs : Fields F) → FieldsRegular fs → Within fs fs
  unfolding field_at FieldsRegular
  Within-self end p = _
  Within-self (field k v fs) (new, here, rest) =
      (rw (bytes_refl k) refl, Within-weaken fs fs k v new (Within-self fs rest))

  equal_null_self : equal_scalar F null null ≡ true
  unfolding as_int64 as_uint64 as_float64 equal_scalar
  equal_null_self = refl

  equal_boolean_self : (b : Bool) → equal_scalar F (boolean b) (boolean b) ≡ true
  unfolding as_int64 as_uint64 as_float64 equal_scalar
  equal_boolean_self true = refl
  equal_boolean_self false = refl

  mutual
    unfolding equal IsRegular

    equal_self-Regular : (v : Value F) → IsRegular v → equal F v v ≡ true
    equal_self-Regular null p = equal_null_self
    equal_self-Regular (text s) p = equal_scalar_self (text s) p (λ e. same_scalar_text s)
    equal_self-Regular (boolean b) p = equal_boolean_self b
    equal_self-Regular (number n) p = equal_scalar_self (number n) p (same_number n)
    equal_self-Regular (slice xs) p = equal_items_self xs p
    equal_self-Regular (mapping fs) p =
        let count : (count_fields F fs == count_fields F fs) ≡ true = ground arith in
        rw (count, equal_fields_self fs fs p (Within-self fs p)) refl

    equal_fields_self :
        (fs gs : Fields F) → FieldsRegular fs → Within fs gs → equal_fields F fs gs ≡ true
    equal_fields_self end gs p w = refl
    equal_fields_self (field k v fs) gs (new, here, rest) (found, others) =
        rw (found, equal_self-Regular v here, equal_fields_self fs gs rest others) refl

    equal_items_self : (xs : Items F) → AllRegular xs → equal_items F xs xs ≡ true
    equal_items_self nil p = refl
    equal_items_self (cons x xs) (here, rest) =
        rw (equal_self-Regular x here, equal_items_self xs rest) refl

  -- A regular value equals itself and its clone.
  pub equal-clone_Regular :
      (v : Value F) → IsRegular v → (equal F v (clone F v) ≡ true) × (equal F (clone F v) v ≡ true)
  equal-clone_Regular v p =
      (rw (clone_lem v) (equal_self-Regular v p), rw (clone_lem v) (equal_self-Regular v p))
