-- ===== src/YangTree/Edit/Results.antt =====
-- internal/yangtree/edit.go: what `Apply` makes of the value at its path.
use go_lab_netconf.Base.{
  Bytes, String, str_eq, eq_iff, Bool, Bool-cases, true, false, not, ◌||◌, Option, none, some,
  length, ◌==◌, ◌≡◌, ◌≢◌, refl, sym, ap, subst, ◌∙◌, inl, inr, Option-cases, arith,
}
use mathlib.Core.Bool.{false≢true}
use go_lab_netconf.Base.Int.{ℤ}
use go_lab_netconf.DomainErr.{AnyError, not_writable}
use go_lab_netconf.Datastore.Yang.{Result, ok, err, ◌>>=◌, ◌>>◌, bind_ok, err≢ok}
use go_lab_netconf.YangTree.Value.{Floats, Value, Fields, field_at}
use go_lab_netconf.YangTree.Value.Access.{field_at-remove, bytes_eq_self}
use go_lab_netconf.YangTree.Path.{InstancePath, Unicode, is_root, parse_path}
use go_lab_netconf.YangTree.Schema.{Regexps, Schema, ensure, read_only, unknown_path}
use go_lab_netconf.YangTree.Lists.{Sprint}
use go_lab_netconf.YangTree.Node.{Node, fields, to_map}
use go_lab_netconf.YangTree.Reads.{walk_get}
use go_lab_netconf.YangTree.Edit.{
  module_cursor, delete_module, delete_in_module, delete_at, check_written, Written, value_of,
  is_unknown, mutate, apply_path, apply,
}
use go_lab_netconf.YangTree.Edit.Entering.{Keyless, ReadIn, ReadIn-module, ReadsBack-after}
use go_lab_netconf.YangTree.Edit.Readback.{IsWritten, put-ReadIn, IsGone, delete_below-ReadsBack}

module _ (F : Floats) (sprint : Sprint F) (p : InstancePath) (below : is_root p ≡ false)
    (plain : Keyless p.segments) where
  delete_module-ReadIn :
      (root : Fields F)
      → (length p.segments == 0) ≡ true
      → ReadIn F sprint (IsGone F sprint) p (delete_module F sprint root p.module_name)
  unfolding delete_module walk_get
  delete_module-ReadIn root e = elim (Option-cases (field_at F p.module_name root)) [
    | inl e ↦ rw (ReadIn, e) _
    | inr (v, e) ↦
        rw (ReadIn, e)
          (rw
            (
              walk_get,
              field_at-remove F p.module_name p.module_name root,
              bytes_eq_self F p.module_name,
            )
            refl)
  ]

  delete_in_module-ReadIn :
      (root : Fields F) → ReadIn F sprint (IsGone F sprint) p (delete_in_module F sprint root p)
  unfolding delete_in_module
  delete_in_module-ReadIn root =
      let cur = module_cursor F root p.module_name false in
      ReadIn-module F sprint (IsGone F sprint) p root false _ (
        ReadsBack-after F sprint (IsGone F sprint) cur p.segments _ _
          (λ u. delete_below-ReadsBack F sprint cur p.segments plain))

  delete_at-ReadIn :
      (root : Fields F) → ReadIn F sprint (IsGone F sprint) p (delete_at F sprint root p)
  unfolding delete_at
  delete_at-ReadIn root = elim (Bool-cases (length p.segments == 0)) [
    | inl e ↦ rw (ReadIn, below) (rw (ReadIn, e) (delete_module-ReadIn root e))
    | inr e ↦ rw (ReadIn, below) (rw (ReadIn, e) (delete_in_module-ReadIn root))
  ]

  module _ (R : Regexps) (uptime : ℤ) where
    -- What stands at the path after a merge or a replace.
    abbrev pub IsApplied : String → Value F → Option (Schema F R) → Option (Value F) → Type 0
    IsApplied op value s o =
        (v : Value F) × (o ≡ some v)
        × (check_written F sprint R s p v ≡ ok _)
        × (op ≡ "replace" → v ≡ value)

    merge-IsApplied :
        (op : String) (value : Value F) (s : Option (Schema F R)) (r : Result (Fields F))
        → op ≢ "replace"
        → ReadIn F sprint (IsWritten F sprint R s p value true) p r
        → ReadIn F sprint (IsApplied op value s) p r
    merge-IsApplied op value s (err e) other q = _
    merge-IsApplied op value s (ok root) other (v, read, checked, same) =
        (v, read, checked, λ e. absurd (other e))

    replace-IsApplied :
        (op : String) (value : Value F) (s : Option (Schema F R)) (r : Result (Fields F))
        → ReadIn F sprint (IsWritten F sprint R s p value false) p r
        → ReadIn F sprint (IsApplied op value s) p r
    replace-IsApplied op value s (err e) q = _
    replace-IsApplied op value s (ok root) (v, read, checked, same) =
        (v, read, checked, λ e. same refl)

    no_replace : (op : String) → (str_eq op "merge" || str_eq op "") ≡ true → op ≢ "replace"
    no_replace op e eq =
        absurd (false≢true (subst (λ o. (str_eq o "merge" || str_eq o "") ≡ true) eq e))

    mutate-IsApplied :
        (op : String) (value : Value F) (n : Node F R)
        → op ≢ "delete"
        → ReadIn F sprint (IsApplied op value n.schema) p (mutate F sprint R uptime op p value n)
    unfolding mutate
    mutate-IsApplied op value n other =
        let root = to_map F R n in
        let merged = put-ReadIn F sprint R n.schema p value true root below plain in
        let replaced = put-ReadIn F sprint R n.schema p value false root below plain in
        elim (Bool-cases (str_eq op "merge" || str_eq op "")) [
          | inl e ↦ rw (ReadIn, e) (merge-IsApplied op value n.schema _ (no_replace op e) merged)
          | inr e ↦ elim (Bool-cases (str_eq op "replace")) [
            | inl e' ↦
                rw (ReadIn, e) (rw (ReadIn, e') (replace-IsApplied op value n.schema _ replaced))
            | inr e' ↦
                let kept : str_eq op "delete" ≡ false = ground (arith, eq_iff op "delete") in
                rw (ReadIn, e) (rw (ReadIn, e') (rw (ReadIn, kept) _))
          ]
        ]

    written :
        (op : String) (value : Value F) (n : Node F R) (root : Fields F)
        → op ≢ "delete"
        → mutate F sprint R uptime op p value n ≡ ok root
        → IsApplied op value n.schema (walk_get F sprint p root)
    written op value n root other done =
        subst (ReadIn F sprint (IsApplied op value n.schema) p) done
          (mutate-IsApplied op value n other)

    ensured : (b : Bool) (e : AnyError) (u : Unit {0}) → ensure b e ≡ ok u → b ≡ true
    ensured true e u q = refl
    ensured false e u q = absurd (err≢ok e u q)

    -- The steps of an edit that succeeds.
    pub applied :
        (op : String) (w : Written F sprint R uptime) (n n' : Node F R)
        → apply_path F sprint R uptime op p w n ≡ ok n'
        → ((str_eq op "delete" || not (read_only F R n.schema p)) ≡ true)
          × (mutate F sprint R uptime op p (value_of F sprint R uptime p w) n ≡ ok (fields F R n'))
    unfolding apply_path
    applied op w n n' done =
        let known_path = not (is_unknown F sprint R uptime n.schema p) in
        let may_write = str_eq op "delete" || not (read_only F R n.schema p) in
        let change = mutate F sprint R uptime op p (value_of F sprint R uptime p w) n in
        let finish : Fields F → Result (Node F R) =
          λ root. ok (record { schema = n.schema; root = some root }) in
        let denied = not_writable "leaf is not writable" in
        let (u, known, rest) =
          bind_ok (ensure known_path (unknown_path p))
            (λ x. ensure may_write denied >> (change >>= finish)) n' done in
        let (u', writable, rest') =
          bind_ok (ensure may_write denied) (λ x. change >>= finish) n' rest in
        let (root, changed, same) = bind_ok change finish n' rest' in
        (
          ensured may_write denied u' writable,
          changed ∙ ap (λ r. r >>= λ m. ok (fields F R m)) same,
        )

    pub parsed_apply :
        (U : Unicode) (op : String) (path : Bytes) (w : Written F sprint R uptime) (n n' : Node F R)
        → parse_path U path ≡ ok p
        → apply F sprint R uptime U op path w n ≡ ok n'
        → apply_path F sprint R uptime op p w n ≡ ok n'
    unfolding apply
    parsed_apply U op path w n n' parsed done =
        ap (λ r. r >>= λ q. apply_path F sprint R uptime op q w n) (sym parsed) ∙ done

    -- After a successful merge or replace at a path of names below a module, that path holds a value that
    -- has passed the checks against the schema, and after a replace it holds the value that was given; the
    -- path is not one of a read-only leaf.
    pub apply-written :
        (U : Unicode) (op : String) (path : Bytes) (w : Written F sprint R uptime) (n n' : Node F R)
        → op ≢ "delete"
        → parse_path U path ≡ ok p
        → apply F sprint R uptime U op path w n ≡ ok n'
        → (read_only F R n.schema p ≡ false)
          × IsApplied op
              (value_of F sprint R uptime p w)
              n.schema
              (walk_get F sprint p (fields F R n'))
    apply-written U op path w n n' other parsed done =
        let (writable, changed) = applied op w n n' (parsed_apply U op path w n n' parsed done) in
        let kept : str_eq op "delete" ≡ false = ground (arith, eq_iff op "delete") in
        (ground arith, written op _ n (fields F R n') other changed)

    -- After a successful deletion at a path of names below a module there is nothing at that path.
    pub apply-deleted :
        (U : Unicode) (path : Bytes) (w : Written F sprint R uptime) (n n' : Node F R)
        → parse_path U path ≡ ok p
        → apply F sprint R uptime U "delete" path w n ≡ ok n'
        → walk_get F sprint p (fields F R n') ≡ none
    unfolding mutate
    apply-deleted U path w n n' parsed done =
        let (writable, changed) =
          applied "delete" w n n' (parsed_apply U "delete" path w n n' parsed done) in
        subst (ReadIn F sprint (IsGone F sprint) p) changed (delete_at-ReadIn (to_map F R n))
