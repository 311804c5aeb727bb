-- ===== src/YangTree/Schema/Integers.antt =====
-- internal/yangtree/schema.go: the values of the types int32 and uint32.
use go_lab_netconf.Base.{ℕ, ◌^◌, ◌<◌, Bool, true, false, Option, none, some, ◌≡◌, ◌↔◌, refl, arith}
use mathlib.Core.Bool.{false≢true}
use go_lab_netconf.Base.Int.{ℤ, pos, negsuc}
use go_lab_netconf.DomainErr.{AnyError}
use go_lab_netconf.Datastore.Yang.{ok, err≢ok}
use go_lab_netconf.YangTree.Value.{Floats, Value, as_int64, as_uint64}
use go_lab_netconf.YangTree.Schema.{
  has_type, check_type, ensure, type_error, int32_range, uint32_range,
}

-- From -2^31 to 2^31 - 1.
abbrev pub IsInt32 : ℤ → Type 0
IsInt32 (pos n) = n < 2 ^ 31
IsInt32 (negsuc n) = n < 2 ^ 31

abbrev pub Among {ℓ} : {A : Type ℓ} → (A → Type 0) → Option A → Type 0
Among P none = ⊥
Among P (some a) = P a

module _ (F : Floats) where
  int32_range_iff : (o : Option ℤ) → (int32_range F o ≡ true) ↔ Among IsInt32 o
  unfolding int32_range
  int32_range_iff none = (λ e. absurd (false≢true e), absurd)
  int32_range_iff (some (pos n)) = ground arith
  int32_range_iff (some (negsuc n)) = ground arith

  uint32_range_iff : (o : Option ℕ) → (uint32_range F o ≡ true) ↔ Among (λ n. n < 2 ^ 32) o
  unfolding uint32_range
  uint32_range_iff none = (λ e. absurd (false≢true e), absurd)
  uint32_range_iff (some n) = ground arith

  ensure_iff : (b : Bool) (e : AnyError) → (ensure b e ≡ ok _) ↔ (b ≡ true)
  ensure_iff true e = (λ q. refl, λ q. refl)
  ensure_iff false e = (λ q. absurd (err≢ok e _ q), λ q. absurd (false≢true q))

  -- A value passes as an int32 exactly when it converts to an int64 from -2^31 to 2^31 - 1, and as a uint32
  -- exactly when it converts to a uint64 below 2^32.
  pub check_type-bounds :
      (v : Value F)
      → ((check_type F "int32" v ≡ ok _) ↔ Among IsInt32 (as_int64 F v))
        × ((check_type F "uint32" v ≡ ok _) ↔ Among (λ n. n < 2 ^ 32) (as_uint64 F v))
  unfolding check_type has_type
  check_type-bounds v =
      let signed = int32_range_iff (as_int64 F v) in
      let unsigned = uint32_range_iff (as_uint64 F v) in
      let e = ensure_iff (int32_range F (as_int64 F v)) (type_error "int32") in
      let e' = ensure_iff (uint32_range F (as_uint64 F v)) (type_error "uint32") in
      (
        (λ q. signed.0 (e.0 q), λ q. e.1 (signed.1 q)),
        (λ q. unsigned.0 (e'.0 q), λ q. e'.1 (unsigned.1 q)),
      )
