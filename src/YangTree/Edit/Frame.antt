-- ===== src/YangTree/Edit/Frame.antt =====
-- internal/yangtree/edit.go: what `Apply` leaves as it is.
use go_lab_netconf.Base.{
  Bytes, bytes_eq_iff, String, str_eq, Bool, true, false, not, ◌||◌, Option, some, length, ◌==◌,
  ◌≡◌, ◌≢◌, sym, ap, subst, ◌∙◌, inl, inr, Option-cases, arith, if◌then◌else◌,
}
use go_lab_netconf.Base.Int.{ℤ}
use go_lab_netconf.Datastore.Yang.{Result, ok, err, ◌>>=◌}
use go_lab_netconf.YangTree.Value.{Floats, Value, Fields, field_at}
use go_lab_netconf.YangTree.Value.Laws.{clone_fields_lem}
use go_lab_netconf.YangTree.Value.Access.{field_at-put, field_at-remove}
use go_lab_netconf.YangTree.Path.{InstancePath, Unicode, is_root, parse_path}
use go_lab_netconf.YangTree.Schema.{Regexps, Schema, ensure, unknown_path}
use go_lab_netconf.YangTree.Lists.{Sprint}
use go_lab_netconf.YangTree.Node.{Node, fields, to_map}
use go_lab_netconf.YangTree.Edit.{
  module_cursor, delete_module, delete_in_module, delete_at, put, Written, value_of, is_unknown,
  mutate, apply_path, apply,
}
use go_lab_netconf.YangTree.Edit.Isolation.{WritesAt, delete_below-WritesAt, put_below-WritesAt}

module _ (F : Floats) (p : InstancePath) (below : is_root p ≡ false) where
  abbrev SameElsewhere : Fields F → Fields F → Type 0
  SameElsewhere root root' =
      (m : Bytes) → m ≢ p.module_name → field_at F m root' ≡ field_at F m root

  abbrev KeepsOthers : Fields F → Result (Fields F) → Type 0
  KeepsOthers root (err e) = Unit
  KeepsOthers root (ok root') = SameElsewhere root root'

  KeepsOthers-WritesAt :
      (root : Fields F) (create : Bool) (r : Result (Fields F))
      → WritesAt F (module_cursor F root p.module_name create) r
      → KeepsOthers root r
  unfolding module_cursor
  KeepsOthers-WritesAt root create (err e) q = _
  KeepsOthers-WritesAt root create (ok root') (v, q) = λ m other.
      ap (field_at F m) q
      ∙ ground (arith, bytes_eq_iff p.module_name m, field_at-put F p.module_name m v root)

  KeepsOthers-after {ℓ} :
      {A : Type ℓ} (root : Fields F) (r : Result A) (k : A → Result (Fields F))
      → ((a : A) → KeepsOthers root (k a))
      → KeepsOthers root (r >>= k)
  KeepsOthers-after root (err e) k q = _
  KeepsOthers-after root (ok a) k q = q a

  KeepsOthers-if :
      (root : Fields F) (b : Bool) (q r : Result (Fields F))
      → KeepsOthers root q
      → KeepsOthers root r
      → KeepsOthers root (if b then q else r)
  KeepsOthers-if root true q r left right = left
  KeepsOthers-if root false q r left right = right

  module _ (sprint : Sprint F) where
    delete_module-KeepsOthers :
        (root : Fields F) → KeepsOthers root (delete_module F sprint root p.module_name)
    unfolding delete_module
    delete_module-KeepsOthers root = elim (Option-cases (field_at F p.module_name root)) [
      | inl e ↦ rw (KeepsOthers, e) _
      | inr (v, e) ↦
          rw (KeepsOthers, e)
            (λ m other.
              ground (arith, bytes_eq_iff p.module_name m, field_at-remove F p.module_name m root))
    ]

    delete_at-KeepsOthers : (root : Fields F) → KeepsOthers root (delete_at F sprint root p)
    unfolding delete_at delete_in_module
    delete_at-KeepsOthers root =
        rw (KeepsOthers, below)
          (KeepsOthers-if root (length p.segments == 0) _ _ (delete_module-KeepsOthers root) (
            KeepsOthers-after root _ _ (λ u. KeepsOthers-WritesAt root false _ (
              delete_below-WritesAt F sprint (module_cursor F root p.module_name false)
                p.segments))))

    module _ (R : Regexps) (uptime : ℤ) where
      put-KeepsOthers :
          (s : Option (Schema F R)) (value : Value F) (merge : Bool) (root : Fields F)
          → KeepsOthers root (put F sprint R s p value merge root)
      unfolding put
      put-KeepsOthers s value merge root =
          rw (KeepsOthers, below)
            (KeepsOthers-WritesAt root true _ (
              put_below-WritesAt F sprint R s p value merge
                (module_cursor F root p.module_name true) p.segments))

      mutate-KeepsOthers :
          (op : String) (v : Value F) (n : Node F R)
          → KeepsOthers (to_map F R n) (mutate F sprint R uptime op p v n)
      unfolding mutate
      mutate-KeepsOthers op v n =
          let root = to_map F R n in
          KeepsOthers-if root (str_eq op "merge" || str_eq op "") _ _
            (put-KeepsOthers n.schema v true root)
            (KeepsOthers-if root (str_eq op "replace") _ _ (put-KeepsOthers n.schema v false root)
              (KeepsOthers-if root (str_eq op "delete") _ _ (delete_at-KeepsOthers root) _))

      KeepsNode : Node F R → Result (Node F R) → Type 0
      KeepsNode n (err e) = Unit
      KeepsNode n (ok n') = SameElsewhere (fields F R n) (fields F R n')

      KeepsNode-root :
          (n : Node F R) (r : Result (Fields F))
          → KeepsOthers (to_map F R n) r
          → KeepsNode n (r >>= λ root. ok (record { schema = n.schema; root = some root }))
      unfolding KeepsNode
      KeepsNode-root n (err e) q = _
      KeepsNode-root n (ok root) q =
          λ m other. q m other ∙ ap (field_at F m) (clone_fields_lem F (fields F R n))

      KeepsNode-after {ℓ} :
          {A : Type ℓ} (n : Node F R) (r : Result A) (k : A → Result (Node F R))
          → ((a : A) → KeepsNode n (k a))
          → KeepsNode n (r >>= k)
      unfolding KeepsNode
      KeepsNode-after n (err e) k q = _
      KeepsNode-after n (ok a) k q = q a

      apply_path-KeepsNode :
          (op : String) (w : Written F sprint R uptime) (n : Node F R)
          → KeepsNode n (apply_path F sprint R uptime op p w n)
      unfolding apply_path
      apply_path-KeepsNode op w n =
          KeepsNode-after n
            (ensure (not (is_unknown F sprint R uptime n.schema p)) (unknown_path p)) _
            (λ u.
              KeepsNode-after n _ _ (λ u'.
                KeepsNode-root n _ (mutate-KeepsOthers op (value_of F sprint R uptime p w) n)))

      -- A successful edit at a path below a module leaves every other module of the tree as it was,
      -- whatever the operation and the value.
      pub apply-elsewhere :
          (U : Unicode) (op : String) (path : Bytes) (w : Written F sprint R uptime)
          (n n' : Node F R)
          → parse_path U path ≡ ok p
          → apply F sprint R uptime U op path w n ≡ ok n'
          → (m : Bytes) → m ≢ p.module_name
          → field_at F m (fields F R n') ≡ field_at F m (fields F R n)
      unfolding apply KeepsNode
      apply-elsewhere U op path w n n' parsed applied =
          let run =
            ap (λ r. r >>= λ q. apply_path F sprint R uptime op q w n) (sym parsed) ∙ applied in
          subst (KeepsNode n) run (apply_path-KeepsNode op w n)
