-- ===== src/YangTree/Schema.antt =====
-- internal/yangtree/schema.go: the compact schema of a tree, and the checks of values against it.
-- A check's error is the error of a result with no content.
use go_lab_netconf.Base.{
  ℕ, ◌+◌, ◌-◌, ◌^◌, Bytes, bytes_eq, String, str_append, str_eq, Bool, true, false, not, ◌&&◌, ◌||◌,
  List, [], ◌∷◌, ◌++◌, Option, none, some, length, ltb, leb, ◌==◌, if◌then◌else◌,
}
use go_lab_netconf.Base.Int.{ℤ, pos, negsuc, ltb_ℤ}
use go_lab_netconf.DomainErr.{AnyError, other, validation_failed}
use go_lab_netconf.Datastore.Yang.{Result, ok, err, ◌>>=◌, ◌>>◌}
use go_lab_netconf.Framing.{itoa}
use go_lab_netconf.YangTree.Value.{
  Floats, Value, null, text, boolean, number, slice, mapping, Items, nil, cons, int, as_int64,
  as_uint64, as_float64, is_map, is_slice, is_empty_type,
}
use go_lab_netconf.YangTree.Path.{InstancePath, Unicode, is_root, print, schema_string, parse_path}
pub mod Build
pub mod Recorded
pub mod Known
pub mod Integers

-- Package regexp.
pub record Regexps : Type 1 where
  pub Pattern : Type 0
  -- `Compile`, with the text of its error
  pub compile : Bytes → Result Pattern
  pub matches : Pattern → Bytes → Bool

-- An error, or nil.
abbrev pub Check : Type 0
Check = Result {0} Unit

abbrev pub ensure : Bool → AnyError → Check
ensure b e = if b then ok _ else err e

abbrev pub invalid : String → Bytes → AnyError
invalid message path =
    validation_failed message
      (record { path = path; code = "invalid_value"; message = message } ∷ [])

abbrev pub type_error : String → AnyError
type_error typ = validation_failed (str_append "value does not match compact type " typ) (
    record {
      path = [];
      code = "invalid_value";
      message = str_append "value does not match type " typ;
    }
    ∷ [])

-- `unknownPath`
abbrev pub unknown_path : InstancePath → AnyError
unknown_path p = validation_failed "unknown path" (
    record { path = print p; code = "unknown-element"; message = "path is not in the schema" } ∷ [])

-- strings.HasPrefix(s, prefix)
unfoldable pub has_prefix : Bytes → Bytes → Bool
has_prefix s [] = true
has_prefix [] (c ∷ prefix) = false
has_prefix (d ∷ s) (c ∷ prefix) = d == c && has_prefix s prefix

module _ (F : Floats) where
  is_text : Value F → Bool
  is_text (text s) = true
  is_text _ = false

  is_boolean : Value F → Bool
  is_boolean (boolean b) = true
  is_boolean _ = false

  is_null : Value F → Bool
  is_null null = true
  is_null _ = false

  all_leaves : Items F → Bool
  all_leaves nil = true
  all_leaves (cons x xs) = not (is_map F x || is_slice F x) && all_leaves xs

  is_leaf_list : Value F → Bool
  unfolding all_leaves
  is_leaf_list (slice xs) = all_leaves xs
  is_leaf_list _ = false

  int32_range : Option ℤ → Bool
  int32_range (some n) = not (ltb_ℤ n (negsuc (2 ^ 31 - 1)) || ltb_ℤ (pos (2 ^ 31 - 1)) n)
  int32_range none = false

  uint32_range : Option ℕ → Bool
  uint32_range (some n) = not (ltb (2 ^ 32 - 1) n)
  uint32_range none = false

  abbrev is_some {ℓ} : {A : Type ℓ} → Option A → Bool
  is_some (some a) = true
  is_some none = false

  -- The switch of `checkType`: whether it reaches the end.
  unfoldable pub has_type : String → Value F → Bool
  unfolding is_text is_boolean is_null is_leaf_list int32_range uint32_range
  has_type typ v =
      if str_eq typ "string" || str_eq typ "identityref" || str_eq typ "enumeration"
      then is_text v
      else if str_eq typ "boolean"
      then is_boolean v
      else if str_eq typ "int32"
      then int32_range (as_int64 F v)
      else if str_eq typ "int64"
      then is_some (as_int64 F v)
      else if str_eq typ "uint32"
      then uint32_range (as_uint64 F v)
      else if str_eq typ "uint64"
      then is_some (as_uint64 F v)
      else if str_eq typ "decimal64"
      then is_some (as_float64 F v)
      else if str_eq typ "empty"
      then is_empty_type F v
      else if str_eq typ "leaf-list"
      then is_leaf_list v
      else if str_eq typ "list"
      then is_slice F v || is_map F v
      else if str_eq typ "container"
      then is_map F v || is_null v
      else false

  unfoldable pub check_type : String → Value F → Check
  unfolding has_type
  check_type typ v = ensure (has_type typ v) (type_error typ)

  module _ (R : Regexps) where
    -- `schemaEntry`
    pub record Entry : Type 0 where
      pub path : InstancePath
      pub typ : String
      pub access : String
      pub range_min : Option F.Float
      pub range_max : Option F.Float
      pub pattern : Option R.Pattern
      pub value_from : String

    -- `byPath`, by the schema strings of the paths
    abbrev pub Schema : Type 0
    Schema = List (Bytes × Entry)

    unfoldable pub at_key : Bytes → Schema → Option Entry
    at_key k [] = none
    at_key k ((j, e) ∷ s) = if bytes_eq j k then some e else at_key k s

    -- A nil schema has no entry.
    unfoldable pub lookup : Option Schema → InstancePath → Option Entry
    unfolding at_key
    lookup none p = none
    lookup (some s) p = at_key (schema_string p) s

    -- The loop over the keys: the path itself, or one below it.
    unfoldable pub known_among : InstancePath → Schema → Bool
    unfolding has_prefix
    known_among p [] = false
    known_among p ((key, e) ∷ s) =
        bytes_eq key (schema_string p)
        || has_prefix key (schema_string p ++ b'/' ∷ [])
        || (length p.segments == 0 && has_prefix key (schema_string p))
        || known_among p s

    unfoldable pub known : Option Schema → InstancePath → Bool
    unfolding known_among
    known none p = is_root p
    known (some s) p = is_root p || known_among p s

    unfoldable pub read_only : Option Schema → InstancePath → Bool
    unfolding lookup
    read_only s p = elim (lookup s p) [
      | none ↦ false
      | some e ↦ not (str_eq e.value_from "") || str_eq e.access "read"
    ]

    check_pattern : Entry → Value F → Check
    check_pattern e v = elim e.pattern [
      | none ↦ ok _
      | some re ↦ elim v [
        | text s ↦ ensure (R.matches re s) (invalid "value does not match pattern" (print e.path))
        | _ ↦ err (invalid "pattern applies to strings" (print e.path))
      ]
    ]

    below_min : Entry → F.Float → Bool
    below_min e x = elim e.range_min [ none ↦ false | some low ↦ F.lt x low ]

    above_max : Entry → F.Float → Bool
    above_max e x = elim e.range_max [ none ↦ false | some high ↦ F.lt high x ]

    check_range : Entry → Value F → Check
    unfolding below_min above_max
    check_range e v =
        if is_some e.range_min || is_some e.range_max
        then elim (as_float64 F v) [
          | none ↦ err (invalid "range applies to numeric values" (print e.path))
          | some x ↦
              ensure (not (below_min e x)) (invalid "value is below range" (print e.path))
              >> ensure (not (above_max e x)) (invalid "value is above range" (print e.path))
        ]
        else ok _

    unfoldable pub check_value : Entry → Value F → Check
    unfolding check_type check_pattern check_range
    check_value e v = check_type e.typ v >> check_pattern e v >> check_range e v
