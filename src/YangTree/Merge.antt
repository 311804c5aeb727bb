-- ===== src/YangTree/Merge.antt =====
-- internal/yangtree/edit.go: what a merge of two maps has under a key.
use go_lab_netconf.Base.{
  Bytes, bytes_eq, bytes_eq_iff, Bool-cases, Option, none, some, ◌≡◌, refl, sym, ap, ◌∙◌, inl, inr,
  arith, if◌then◌else◌,
}
use go_lab_netconf.YangTree.Value.{Floats, Value, Fields, end, field, clone, field_at, put_field}
use go_lab_netconf.YangTree.Value.Laws.{clone_lem}
use go_lab_netconf.YangTree.Value.Access.{field_at-put}
use go_lab_netconf.YangTree.Lists.{Sprint, merge_values, merge_maps}

module _ (F : Floats) (sprint : Sprint F) where
  -- No key occurs twice, as in a Go map.
  abbrev pub IsDistinct : Fields F → Type 0
  IsDistinct end = Unit
  IsDistinct (field k v fs) = (field_at F k fs ≡ none) × IsDistinct fs

  -- One key of a merge: what only one map has stays, and two values are merged.
  abbrev pub merged_at : Option (Value F) → Option (Value F) → Option (Value F)
  merged_at dst none = dst
  merged_at none (some sv) = some sv
  merged_at (some dv) (some sv) = some (merge_values F sprint dv sv)

  -- The value that a round of `mergeMaps` stores.
  abbrev stored : Option (Value F) → Value F → Value F
  stored o sv = elim o [ some dv ↦ merge_values F sprint dv sv | none ↦ clone F sv ]

  stored-merged_at :
      (o : Option (Value F)) (sv : Value F) → some (stored o sv) ≡ merged_at o (some sv)
  stored-merged_at none sv = ap some (clone_lem F sv)
  stored-merged_at (some dv) sv = refl

  -- The step of the induction, over what the maps have under the keys `j` and `k`.
  after_round :
      (k j : Bytes) (dst : Fields F) (sv : Value F) (s : Option (Value F))
      → (j ≡ k → s ≡ none)
      → merged_at (field_at F k (put_field F j (stored (field_at F j dst) sv) dst)) s
        ≡ merged_at (field_at F k dst) (if bytes_eq j k then some sv else s)
  after_round k j dst sv s new =
      let x = stored (field_at F j dst) sv in
      let there = field_at-put F j k x dst in
      elim (Bool-cases (bytes_eq j k)) [
        | inl e ↦
            let same : j ≡ k = ground (arith, bytes_eq_iff j k) in
            let value : some (stored (field_at F j dst) sv)
                ≡ merged_at (field_at F k dst) (some sv) =
              stored-merged_at (field_at F j dst) sv
              ∙ ap (λ i. merged_at (field_at F i dst) (some sv)) same in
            rw (there, e, new same) value
        | inr e ↦ rw (there, e) refl
      ]

  -- Under each key a merge has the merge of what the two maps have there, if no key of the second occurs
  -- twice.
  pub field_at-merge :
      (k : Bytes) (dst src : Fields F)
      → IsDistinct src
      → field_at F k (merge_maps F sprint dst src) ≡ merged_at (field_at F k dst) (field_at F k src)
  unfolding merge_maps field_at
  field_at-merge k dst end p = refl
  field_at-merge k dst (field j sv src) (new, rest) =
      let x = stored (field_at F j dst) sv in
      field_at-merge k (put_field F j x dst) src rest
      ∙ after_round k j dst sv (field_at F k src)
          (λ same. ap (λ i. field_at F i src) (sym same) ∙ new)
