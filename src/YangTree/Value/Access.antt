-- ===== src/YangTree/Value/Access.antt =====
-- internal/yangtree/value.go: reading a map after a write.
use go_lab_netconf.Base.{
  Bytes, bytes_eq, bytes_eq_iff, true, none, some, ◌≡◌, refl, arith, if◌then◌else◌,
}
use go_lab_netconf.YangTree.Value.{
  Floats, Value, Fields, end, field, field_at, put_field, remove_field,
}

module _ (F : Floats) where
  pub field_at-put :
      (k j : Bytes) (v : Value F) (m : Fields F)
      → field_at F j (put_field F k v m) ≡ (if bytes_eq k j then some v else field_at F j m)
  unfolding field_at put_field
  field_at-put k j v end = refl
  field_at-put k j v (field i w m) =
      ground (arith, bytes_eq_iff k j, bytes_eq_iff i k, bytes_eq_iff i j, field_at-put k j v m)

  pub field_at-remove :
      (k j : Bytes) (m : Fields F)
      → field_at F j (remove_field F k m) ≡ (if bytes_eq k j then none else field_at F j m)
  unfolding field_at remove_field
  field_at-remove k j end = ground arith
  field_at-remove k j (field i w m) =
      ground (arith, bytes_eq_iff k j, bytes_eq_iff i k, bytes_eq_iff i j, field_at-remove k j m)

  pub bytes_eq_self : (k : Bytes) → bytes_eq k k ≡ true
  bytes_eq_self k = ground (arith, bytes_eq_iff k k)
