-- ===== src/YangTree/Tests.antt =====
-- Runs on the small trees, and the theorems applied to them.
use go_lab_netconf.Base.{
  bytes, if◌then◌else◌, ◌||◌, All, suc, Bytes, bytes_eq, String, true, false, List, [], ◌∷◌, none,
  some, ◌≡◌, refl, ap, arith, length,
}
use go_lab_netconf.Base.Int.{ℤ, pos, negsuc}
use go_lab_netconf.Datastore.Yang.{ok, err}
use go_lab_netconf.Datastore.Yang.{Tree}
use go_lab_netconf.Datastore.{Context, Handle, new, commit, dirty, deny_if_locked}
use go_lab_netconf.Base.Dict
use go_lab_netconf.Datastore.Content.{dirty-commit}
use go_lab_netconf.YangTree.AsTree.{yang_tree}
use go_lab_netconf.YangTree.Value.{
  Floats, Value, null, text, boolean, slice, nil, cons, number, int, mapping, field_at, equal,
  clone, clone_fields, as_int64, as_uint64, as_float64,
}
use go_lab_netconf.YangTree.Value.Laws.{IsRegular}
use go_lab_netconf.YangTree.Path.{
  root_path, InstancePath, is_head, is_ident, contains_byte, print_segments, print_keys,
  quote_key_value, is_tail, tail_run, schema_string, print, read_segments, out_of_fuel, parse_path,
}
use go_lab_netconf.YangTree.Path.RoundTrip.{parse_path-print}
use go_lab_netconf.YangTree.Path.Totality.{read_segments_total}
use go_lab_netconf.YangTree.Schema.{
  Regexps, Entry, Schema, known, read_only, check_value, check_type,
}
use go_lab_netconf.YangTree.Schema
use go_lab_netconf.YangTree.Schema.Build.{SchemaLeaf, new_schema}
use go_lab_netconf.YangTree.Schema.Recorded.{IsRecorded, lookup-new_schema}
use go_lab_netconf.YangTree.Lists.{merge_maps, keys_for_item}
use go_lab_netconf.YangTree.Merge.{merged_at, field_at-merge}
use go_lab_netconf.YangTree.Node.{Node, fields, validate, getter_value}
use go_lab_netconf.YangTree.Reads.{walk_get, lookup}
use go_lab_netconf.YangTree.Diff.{diff, diff_walk, size}
use go_lab_netconf.YangTree.Diff.Fuel.{Both, diff_walk_enough}
use go_lab_netconf.YangTree.Samples.{
  up, trim_left, trim_right, ascii, same_ℤ, whole, literal_patterns, shown, named, host, leaf,
  small_schema, one, system, before, renamed,
}

host-known : known whole literal_patterns (some small_schema) host ≡ true
unfolding known bytes_eq schema_string
host-known = refl

length_eq : {a b : Bytes} → a ≡ b → length a ≡ length b
length_eq p = ap length p

abbrev entry : InstancePath
entry = record {
  module_name = bytes "a";
  segments =
      record { name = bytes "a"; keys = record { name = bytes "b"; value = bytes "x y" } ∷ [] }
      ∷ named "b"
      ∷ [];
}

parse_path-print_example : parse_path ascii (print entry) ≡ ok entry
unfolding is_head contains_byte is_ident print print_segments print_keys quote_key_value trim_left
    trim_right
parse_path-print_example =
    parse_path-print ascii entry
      (
        (λ e. ground (arith, length_eq e)),
        refl,
        refl,
        (((refl, tt), (((refl, tt), refl), tt)), (((refl, tt), tt), tt)),
      )
      refl

field_at-merge_example :
    field_at whole (bytes "a") (merge_maps whole shown (one "a" null) (one "a" (text (bytes "b"))))
    ≡ merged_at whole shown
        (field_at whole (bytes "a") (one "a" null))
        (field_at whole (bytes "a") (one "a" (text (bytes "b"))))
unfolding field_at
field_at-merge_example =
    field_at-merge whole shown (bytes "a") (one "a" null) (one "a" (text (bytes "b"))) (refl, tt)

-- A getter's leaf that is stored is replaced in the whole tree and under its own path, and not under the
-- path of its container.
abbrev stale : Node whole literal_patterns
stale = system (mapping (one "up" (number (int (pos 0)))))

getters_run :
    (lookup whole shown literal_patterns (pos 5) stale up ≡ some (number (int (pos 5))))
    × (lookup whole shown literal_patterns (pos 5) stale (record up { segments = named "sys" ∷ [] })
        ≡ some (mapping (one "up" (number (int (pos 0))))))
unfolding lookup known bytes_eq schema_string Schema.lookup getter_value walk_get field_at clone
getters_run = (refl, refl)

-- Two keys that differ in a single quote have one printed path.
quotes_lost : quote_key_value (bytes "a'b") ≡ bytes "'ab'"
unfolding quote_key_value
quotes_lost = refl

-- The change of an entry without keys carries the keys of the entry before it.
abbrev listed : String → Value whole → Node whole literal_patterns
listed flag v = record {
  schema = none;
  root = some (
      one "m" (
        mapping (
          one "l" (
            slice (
              cons (mapping (one "name" (text (bytes "a")))) (cons (mapping (one flag v)) nil))))));
}

sticky_keys :
    diff whole shown literal_patterns (listed "f" (boolean true)) (listed "f" (boolean false))
    ≡ record { path = bytes "m:l[name=a]"; operation = "delete" }
      ∷ record { path = bytes "m:l[name=a]"; operation = "create" }
      ∷ []
unfolding diff equal field_at bytes_eq as_int64 as_uint64 as_float64 keys_for_item print print_keys
    quote_key_value shown
sticky_keys = refl

read_segments_total_example : ¬ (
    read_segments ascii (suc (length (bytes "sys[name=a]/host"))) (bytes "sys[name=a]/host")
    ≡ err out_of_fuel)
read_segments_total_example = read_segments_total ascii (bytes "sys[name=a]/host")

-- The datastore over this tree.
abbrev real : Tree
real = yang_tree whole ascii literal_patterns shown (pos 1)

abbrev handle : Handle real
handle = new real "router" before renamed before true

nobody : Context
nobody = record { session = ""; error = none }

committed : (commit real handle nobody).0.0 ≡ none
unfolding commit new nobody deny_if_locked Dict.lookup validate Schema.lookup bytes_eq schema_string
    clone_fields check_value as_int64
committed = refl

same_ℤ-refl : (z : ℤ) → same_ℤ z z ≡ true
unfolding same_ℤ
same_ℤ-refl (pos n) = ground arith
same_ℤ-refl (negsuc n) = ground arith

regular : IsRegular whole (mapping (fields whole literal_patterns renamed))
unfolding IsRegular field_at bytes_eq
regular = (
  refl,
  (refl, (refl, (λ x p. same_ℤ-refl x), tt), tt),
  (refl, (refl, (λ x p. same_ℤ-refl x), tt), tt),
)

commit_clean : dirty real (commit real handle nobody).0.1 ≡ false
unfolding new clone_fields
commit_clean = dirty-commit real handle nobody regular committed

abbrev leaves : List SchemaLeaf
leaves =
    record {
      path = bytes "m:sys/host";
      typ = "string";
      access = "write";
      range = [];
      pattern = bytes "a";
      value_from = "";
    }
    ∷ record {
      path = bytes "m:sys/up";
      typ = "uint32";
      access = "read";
      range = bytes "min..max";
      pattern = [];
      value_from = "processUptime";
    }
    ∷ []

abbrev compiled : Schema whole literal_patterns
compiled =
    (
      bytes "m:sys/host",
      record (leaf host "string" "") { access = "write"; pattern = some (bytes "a") },
    )
    ∷ (bytes "m:sys/up", record (leaf up "uint32" "processUptime") { access = "read" })
    ∷ []

leaves-compiled : new_schema whole ascii literal_patterns leaves ≡ ok compiled
unfolding new_schema trim_left trim_right parse_path is_head tail_run is_tail Schema.at_key bytes_eq
    schema_string
leaves-compiled = refl

lookup-new_schema_example : All (IsRecorded whole ascii literal_patterns compiled) leaves
lookup-new_schema_example =
    lookup-new_schema whole ascii literal_patterns leaves compiled leaves-compiled

diff_walk_enough_example :
    Both
      (diff_walk whole shown 9 root_path
        (mapping (one "a" null))
        (mapping (one "a" (text (bytes "b")))))
      (diff_walk whole shown 20 root_path
        (mapping (one "a" null))
        (mapping (one "a" (text (bytes "b")))))
unfolding size
diff_walk_enough_example =
    diff_walk_enough whole shown 9 20 root_path (mapping (one "a" null))
      (mapping (one "a" (text (bytes "b")))) (omega arith) (omega arith)

-- A key that only one map has reads as nil in the other, so two maps with one key each are equal here in one
-- order and not in the other.
nil_keys :
    (equal whole (mapping (one "a" null)) (mapping (one "b" (boolean true))) ≡ true)
    × (equal whole (mapping (one "b" (boolean true))) (mapping (one "a" null)) ≡ false)
unfolding equal as_int64 as_uint64 as_float64 field_at bytes_eq
nil_keys = (refl, refl)

-- Texts that parse as one number are equal.
abbrev tenths : Floats
tenths = record whole {
  parse_float =
      λ s. if bytes_eq s (bytes "1.1") || bytes_eq s (bytes "1.10") then some (pos 11) else none;
}

equal_texts : equal tenths (text (bytes "1.1")) (text (bytes "1.10")) ≡ true
unfolding equal as_int64 as_uint64 as_float64 bytes_eq same_ℤ
equal_texts = refl
