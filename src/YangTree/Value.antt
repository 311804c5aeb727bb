-- ===== src/YangTree/Value.antt =====
-- internal/yangtree/value.go: the dynamic values of a tree. A map is the list of its entries in one
-- order of iteration; map[any]any and []map[string]any stand as what clone makes of them. The
-- integer kinds of Go are one, with their value.
use go_lab_netconf.Base.{
  ℕ, ◌+◌, ◌-◌, ◌^◌, Bytes, bytes_eq, Bool, true, false, not, ◌&&◌, ◌||◌, List, [], ◌∷◌, ◌++◌,
  Option, none, some, ltb, leb, ◌==◌, if◌then◌else◌,
}
use go_lab_netconf.Base.Int.{ℤ, pos, negsuc}
pub mod Laws
pub mod Access

-- float64 and strconv, of which the code uses these operations.
pub record Floats : Type 1 where
  pub Float : Type 0
  -- float64(n) of an int64 or uint64
  pub of_int : ℤ → Float
  -- x == math.Trunc(x) and its bounds, and the conversion; so for uint64
  pub to_int64 : Float → Option ℤ
  pub to_uint64 : Float → Option ℕ
  pub eq : Float → Float → Bool
  pub lt : Float → Float → Bool
  -- strconv.ParseInt and strconv.ParseUint in base 10 and 64 bits, strconv.ParseFloat
  pub parse_int : Bytes → Option ℤ
  pub parse_uint : Bytes → Option ℕ
  pub parse_float : Bytes → Option Float

module _ (F : Floats) where
  pub data Number : Type 0 where
    int : ℤ → Number
    float : F.Float → Number
    -- json.Number
    literal : Bytes → Number

  mutual
    pub data Value : Type 0 where
      null : Value
      text : Bytes → Value
      boolean : Bool → Value
      number : Number → Value
      slice : Items → Value
      mapping : Fields → Value

    pub data Items : Type 0 where
      nil : Items
      cons : Value → Items → Items

    pub data Fields : Type 0 where
      end : Fields
      field : Bytes → Value → Fields → Fields

  unfoldable mutual
    pub clone : Value → Value
    clone null = null
    clone (text s) = text s
    clone (boolean b) = boolean b
    clone (number n) = number n
    clone (slice xs) = slice (clone_items xs)
    clone (mapping fs) = mapping (clone_fields fs)

    pub clone_items : Items → Items
    clone_items nil = nil
    clone_items (cons x xs) = cons (clone x) (clone_items xs)

    pub clone_fields : Fields → Fields
    clone_fields end = end
    clone_fields (field k v fs) = field k (clone v) (clone_fields fs)

  abbrev pub as_map : Value → Option Fields
  as_map (mapping fs) = some fs
  as_map _ = none

  abbrev pub as_slice : Value → Option Items
  as_slice (slice xs) = some xs
  as_slice _ = none

  abbrev pub is_map : Value → Bool
  is_map (mapping fs) = true
  is_map _ = false

  abbrev pub is_slice : Value → Bool
  is_slice (slice xs) = true
  is_slice _ = false

  -- `isEmptyType`
  abbrev pub is_empty_type : Value → Bool
  is_empty_type null = true
  is_empty_type (boolean b) = b
  is_empty_type (mapping end) = true
  is_empty_type (slice nil) = true
  is_empty_type (slice (cons null nil)) = true
  is_empty_type _ = false

  int64_of : ℤ → Option ℤ
  int64_of (pos n) = if ltb n (2 ^ 63) then some (pos n) else none
  int64_of (negsuc n) = if ltb n (2 ^ 63) then some (negsuc n) else none

  uint64_of : ℤ → Option ℕ
  uint64_of (pos n) = if ltb n (2 ^ 64) then some n else none
  uint64_of (negsuc n) = none

  unfoldable pub as_int64 : Value → Option ℤ
  unfolding int64_of
  as_int64 (number (int z)) = int64_of z
  as_int64 (number (float x)) = F.to_int64 x
  as_int64 (number (literal s)) = F.parse_int s
  as_int64 _ = none

  unfoldable pub as_uint64 : Value → Option ℕ
  unfolding uint64_of
  as_uint64 (number (int z)) = uint64_of z
  as_uint64 (number (float x)) = F.to_uint64 x
  as_uint64 (number (literal s)) = F.parse_uint s
  as_uint64 _ = none

  plain_float : Value → Option F.Float
  plain_float (number (float x)) = some x
  plain_float (number (literal s)) = F.parse_float s
  plain_float (text s) = F.parse_float s
  plain_float _ = none

  unfoldable pub as_float64 : Value → Option F.Float
  unfolding plain_float
  as_float64 v = elim (as_int64 v) [
    | some z ↦ some (F.of_int z)
    | none ↦ elim (as_uint64 v) [ some n ↦ some (F.of_int (pos n)) | none ↦ plain_float v ]
  ]

  -- m[k], with Go's second result as the option
  unfoldable pub field_at : Bytes → Fields → Option Value
  field_at k end = none
  field_at k (field j v fs) = if bytes_eq j k then some v else field_at k fs

  -- m[k] alone, which is nil on a missing key
  abbrev pub or_null : Option Value → Value
  or_null (some v) = v
  or_null none = null

  -- m[k] = v
  unfoldable pub put_field : Bytes → Value → Fields → Fields
  put_field k v end = field k v end
  put_field k v (field j w fs) = if bytes_eq j k then field j v fs else field j w (put_field k v fs)

  -- delete(m, k)
  unfoldable pub remove_field : Bytes → Fields → Fields
  remove_field k end = end
  remove_field k (field j w fs) =
      let rest = remove_field k fs in if bytes_eq j k then rest else field j w rest

  abbrev pub count_fields : Fields → ℕ
  count_fields end = 0
  count_fields (field k v fs) = 1 + count_fields fs

  abbrev pub count_items : Items → ℕ
  count_items nil = 0
  count_items (cons x xs) = 1 + count_items xs

  same_int : ℤ → ℤ → Bool
  same_int (pos m) (pos n) = m == n
  same_int (negsuc m) (negsuc n) = m == n
  same_int _ _ = false

  -- `a == b` on what is no map, no slice and no pair of numbers
  same_scalar : Value → Value → Bool
  unfolding same_int
  same_scalar null null = true
  same_scalar (text s) (text t) = bytes_eq s t
  same_scalar (boolean true) (boolean true) = true
  same_scalar (boolean false) (boolean false) = true
  same_scalar (number (int y)) (number (int z)) = same_int y z
  same_scalar (number (literal s)) (number (literal t)) = bytes_eq s t
  same_scalar _ _ = false

  -- The numeric comparisons at the end of `equal`, each made when both sides convert.
  equal_float : Value → Value → Bool
  unfolding same_scalar
  equal_float a b = elim (as_float64 a) [
    | none ↦ same_scalar a b
    | some x ↦ elim (as_float64 b) [ none ↦ same_scalar a b | some y ↦ F.eq x y ]
  ]

  equal_uint : Value → Value → Bool
  unfolding equal_float
  equal_uint a b = elim (as_uint64 a) [
    | none ↦ equal_float a b
    | some m ↦ elim (as_uint64 b) [ none ↦ equal_float a b | some n ↦ m == n ]
  ]

  equal_scalar : Value → Value → Bool
  unfolding equal_uint same_int
  equal_scalar a b = elim (as_int64 a) [
    | none ↦ equal_uint a b
    | some y ↦ elim (as_int64 b) [ none ↦ equal_uint a b | some z ↦ same_int y z ]
  ]

  unfoldable mutual
    unfolding equal_scalar

    pub equal : Value → Value → Bool
    equal (mapping fs) (mapping gs) = count_fields fs == count_fields gs && equal_fields fs gs
    equal (mapping fs) _ = false
    equal (slice xs) (slice ys) = equal_items xs ys
    equal (slice xs) _ = false
    equal a b = equal_scalar a b

    -- The loop over the first map; a key that the second has not is nil there.
    pub equal_fields : Fields → Fields → Bool
    equal_fields end gs = true
    equal_fields (field k v fs) gs = equal v (or_null (field_at k gs)) && equal_fields fs gs

    pub equal_items : Items → Items → Bool
    equal_items nil nil = true
    equal_items (cons x xs) (cons y ys) = equal x y && equal_items xs ys
    equal_items _ _ = false
