-- ===== src/YangTree/Schema/Build.antt =====
-- internal/yangtree/schema.go: the schema of a tree from the leaves of a document.
use go_lab_netconf.Base.{
  ℕ, suc, Bytes, bytes_eq, String, str_eq, Bool, true, false, not, ◌&&◌, ◌||◌, List, [], ◌∷◌, ◌++◌,
  Option, none, some, length, ◌==◌, if◌then◌else◌,
}
use go_lab_netconf.DomainErr.{AnyError, domain, other, validation_failed}
use go_lab_netconf.Datastore.Yang.{Result, ok, err, ◌>>=◌, ◌>>◌}
use go_lab_netconf.Framing.{itoa}
use go_lab_netconf.YangTree.Value.{Floats}
use go_lab_netconf.YangTree.Path.{InstancePath, Unicode, schema_string, parse_path}
use go_lab_netconf.YangTree.Schema.{Regexps, Check, ensure, Entry, Schema, at_key}

-- model.SchemaLeaf
pub record SchemaLeaf : Type 0 where
  pub path : Bytes
  pub typ : String
  pub access : String
  pub range : Bytes
  pub pattern : Bytes
  pub value_from : String

abbrev pub compact_schema_types : List String
compact_schema_types =
    "string" ∷ "boolean" ∷ "int32" ∷ "int64" ∷ "uint32" ∷ "uint64" ∷ "decimal64" ∷ "identityref"
    ∷ "enumeration" ∷ "leaf-list" ∷ "list" ∷ "container" ∷ "empty" ∷ []

is_among : String → List String → Bool
is_among t [] = false
is_among t (k ∷ ks) = str_eq t k || is_among t ks

unfoldable pub known_schema_type : String → Bool
unfolding is_among
known_schema_type t = is_among t compact_schema_types

-- "schema[%d].path"
pub leaf_field : ℕ → Bytes
leaf_field i =
    b's'
    ∷ b'c'
    ∷ b'h'
    ∷ b'e'
    ∷ b'm'
    ∷ b'a'
    ∷ b'['
    ∷ (itoa i ++ (b']' ∷ b'.' ∷ b'p' ∷ b'a' ∷ b't' ∷ b'h' ∷ []))

abbrev pub leaf_error : String → Bytes → String → AnyError
leaf_error message path code =
    validation_failed message (record { path = path; code = code; message = message } ∷ [])

-- An error of a library, whose text goes into the violation.
relabelled {ℓ} : {A : Type ℓ} → String → Bytes → Result A → Result A
relabelled message path (ok a) = ok a
relabelled message path (err (other text)) = err (
    validation_failed message (record { path = path; code = "invalid_value"; message = text } ∷ []))
relabelled message path (err (domain e)) = err (domain e)

onto_first : ℕ → List Bytes → List Bytes
onto_first c [] = (c ∷ []) ∷ []
onto_first c (s ∷ ss) = (c ∷ s) ∷ ss

-- strings.Split(s, "..")
unfoldable pub split_dots : Bytes → List Bytes
unfolding onto_first
split_dots [] = [] ∷ []
split_dots (c ∷ []) = (c ∷ []) ∷ []
split_dots (c ∷ d ∷ s) = elim (c == b'.' && d == b'.') [
  | true ↦ [] ∷ split_dots s
  | false ↦ onto_first c (split_dots (d ∷ s))
]

module _ (F : Floats) where
  module _ (U : Unicode) where
    range_end : Bytes → Bytes → String → Result (Option F.Float)
    range_end word s message =
        if bytes_eq (U.trim_space s) word then ok none else elim (F.parse_float (U.trim_space s)) [
          | some x ↦ ok (some x)
          | none ↦ err (other message)
        ]

    range_parts : List Bytes → Result (Option F.Float × Option F.Float)
    unfolding range_end
    range_parts (a ∷ b ∷ []) = do
      low ← range_end (b'm' ∷ b'i' ∷ b'n' ∷ []) a "invalid range min"
      high ← range_end (b'm' ∷ b'a' ∷ b'x' ∷ []) b "invalid range max"
      ok (low, high)
    range_parts _ = err (other "range must be min..max")

    unfoldable pub parse_range : Bytes → Result (Option F.Float × Option F.Float)
    unfolding range_parts split_dots
    parse_range s = range_parts (split_dots s)

    module _ (R : Regexps) where
      pub leaf_range : SchemaLeaf → Result (Option F.Float × Option F.Float)
      unfolding relabelled parse_range
      leaf_range leaf =
          if length leaf.range == 0
          then ok (none, none)
          else relabelled "invalid range" leaf.path (parse_range leaf.range)

      pub leaf_pattern : SchemaLeaf → Result (Option R.Pattern)
      unfolding relabelled
      leaf_pattern leaf =
          if length leaf.pattern == 0
          then ok none
          else relabelled "invalid pattern" leaf.path (R.compile leaf.pattern) >>= λ re.
              ok (some re)

      unfoldable pub is_taken : Option (Entry F R) → Bool
      is_taken none = false
      is_taken (some e) = true

      -- The checks of a leaf whose path is parsed.
      unfoldable pub leaf_checks : SchemaLeaf → InstancePath → Schema F R → Check
      unfolding is_taken known_schema_type
      leaf_checks leaf p s = do
        ensure (not (is_taken (at_key F R (schema_string p) s)))
            (leaf_error "duplicate schema path" leaf.path "duplicate_id")
        ensure (known_schema_type leaf.typ)
            (leaf_error "unsupported compact schema type" leaf.path "invalid_value")
        ensure (str_eq leaf.value_from "" || str_eq leaf.value_from "processUptime")
            (leaf_error "valueFrom must be processUptime" leaf.path "invalid_value")

      -- Its entry, with the range and the pattern.
      unfoldable pub made_entry : SchemaLeaf → InstancePath → Result (Entry F R)
      unfolding leaf_range leaf_pattern
      made_entry leaf p = do
        (low, high) ← leaf_range leaf
        re ← leaf_pattern leaf
        ok (record {
          path = p;
          typ = leaf.typ;
          access = leaf.access;
          range_min = low;
          range_max = high;
          pattern = re;
          value_from = leaf.value_from;
        })

      -- A round of the loop of `newSchema`: the leaf's entry under its key.
      unfoldable pub leaf_entry : ℕ → SchemaLeaf → Schema F R → Result (Bytes × Entry F R)
      unfolding leaf_field leaf_checks made_entry
      leaf_entry i leaf s = do
        ensure (not (length (U.trim_space leaf.path) == 0))
            (leaf_error "schema path is required" (leaf_field i) "required")
        p ← parse_path U leaf.path
        leaf_checks leaf p s
        e ← made_entry leaf p
        ok (schema_string p, e)

      unfoldable pub add_leaves : ℕ → List SchemaLeaf → Schema F R → Result (Schema F R)
      unfolding leaf_entry
      add_leaves i [] s = ok s
      add_leaves i (leaf ∷ leaves) s = do
        entry ← leaf_entry i leaf s
        add_leaves (suc i) leaves (s ++ entry ∷ [])

      -- `newSchema`
      unfoldable pub new_schema : List SchemaLeaf → Result (Schema F R)
      unfolding add_leaves
      new_schema leaves = add_leaves 0 leaves []
