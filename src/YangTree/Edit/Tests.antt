-- ===== src/YangTree/Edit/Tests.antt =====
-- Edits of the small trees, and the theorems applied to them.
use go_lab_netconf.Base.{
  bytes, Bytes, bytes_eq, bytes_eq_iff, eq_iff, String, false, none, ◌≡◌, inl, inr, ◌≢◌, refl,
  arith,
}
use go_lab_netconf.Base.Int.{pos}
use go_lab_netconf.Datastore.Yang.{ok}
use go_lab_netconf.YangTree.Value.{
  null, text, number, int, mapping, end, field_at, put_field, remove_field, clone, clone_fields,
}
use go_lab_netconf.YangTree.Path.{is_head, is_tail, tail_run, schema_string, parse_path}
use go_lab_netconf.YangTree.Schema.{known, read_only, check_value}
use go_lab_netconf.YangTree.Node.{fields, validate_value}
use go_lab_netconf.YangTree.Reads.{walk_get}
use go_lab_netconf.YangTree.Edit.{plain, value_of, apply}
use go_lab_netconf.YangTree.Edit.Apart.{apply-apart}
use go_lab_netconf.YangTree.Edit.Frame.{apply-elsewhere}
use go_lab_netconf.YangTree.Edit.Results.{IsApplied, apply-written, apply-deleted}
use go_lab_netconf.YangTree.Samples.{
  up, trim_left, trim_right, ascii, whole, literal_patterns, shown, host, one, system, before,
  renamed,
}

host_parsed : parse_path ascii (bytes "m:sys/host") ≡ ok host
unfolding parse_path trim_left trim_right is_head tail_run is_tail
host_parsed = refl

replaced :
    apply whole shown literal_patterns
      (pos 1)
      ascii
      "replace"
      (bytes "m:sys/host")
      (plain (text (bytes "b")))
      before
    ≡ ok renamed
unfolding apply parse_path trim_left trim_right is_head tail_run is_tail known bytes_eq
    schema_string read_only field_at clone_fields check_value validate_value put_field
replaced = refl

other_bytes : (a b : Bytes) → bytes_eq a b ≡ false → a ≢ b
other_bytes a b e same = ground (arith, bytes_eq_iff a b)

replace_kept : ◌≢◌ {A = String} "replace" "delete"
replace_kept e = ground (arith, eq_iff "replace" "delete")

removed :
    apply whole shown literal_patterns
      (pos 1)
      ascii
      "delete"
      (bytes "m:sys/host")
      (plain null)
      before
    ≡ ok (system (mapping end))
unfolding apply parse_path trim_left trim_right is_head tail_run is_tail known bytes_eq
    schema_string field_at clone_fields put_field remove_field
removed = refl

apply-elsewhere_example :
    field_at whole (bytes "n") (fields whole literal_patterns renamed)
    ≡ field_at whole (bytes "n") (fields whole literal_patterns before)
unfolding bytes_eq
apply-elsewhere_example =
    apply-elsewhere whole host refl shown literal_patterns (pos 1) ascii "replace"
      (bytes "m:sys/host") (plain (text (bytes "b"))) before renamed host_parsed replaced
      (bytes "n") (other_bytes (bytes "n") (bytes "m") refl)

apply-written_example :
    (read_only whole literal_patterns before.schema host ≡ false)
    × IsApplied whole shown host refl
        (refl, (refl, tt))
        literal_patterns
        (pos 1)
        "replace"
        (text (bytes "b"))
        before.schema
        (walk_get whole shown host (fields whole literal_patterns renamed))
unfolding value_of
apply-written_example =
    apply-written whole shown host refl (refl, (refl, tt)) literal_patterns (pos 1) ascii "replace"
      (bytes "m:sys/host") (plain (text (bytes "b"))) before renamed replace_kept host_parsed
      replaced

apply-deleted_example :
    walk_get whole shown host (fields whole literal_patterns (system (mapping end))) ≡ none
apply-deleted_example =
    apply-deleted whole shown host refl (refl, (refl, tt)) literal_patterns (pos 1) ascii
      (bytes "m:sys/host") (plain null) before (system (mapping end)) host_parsed removed

-- A replace of the container writes the leaf that may not be written by itself.
container_replaced :
    apply whole shown literal_patterns
      (pos 1)
      ascii
      "replace"
      (bytes "m:sys")
      (plain (mapping (one "up" (number (int (pos 9))))))
      before
    ≡ ok (system (mapping (one "up" (number (int (pos 9))))))
unfolding apply parse_path trim_left trim_right is_head tail_run is_tail known bytes_eq
    schema_string read_only validate_value clone put_field field_at
container_replaced = refl

apply-apart_example :
    walk_get whole shown up (fields whole literal_patterns renamed)
    ≡ walk_get whole shown up (fields whole literal_patterns before)
apply-apart_example =
    apply-apart whole shown host refl (refl, (refl, tt)) literal_patterns (pos 1) ascii "replace"
      (bytes "m:sys/host") (plain (text (bytes "b"))) before renamed host_parsed replaced
      up.segments (refl, (refl, tt))
      (inr (refl, inl (other_bytes (bytes "host") (bytes "up") (unfold bytes_eq in refl))))
