-- ===== src/YangTree/Samples.antt =====
-- Small trees under a schema of three leaves, and what the parameters are for them.
use go_lab_netconf.Base.{
  ℕ, Bytes, bytes, bytes_eq, Bool, true, false, ◌||◌, ◌&&◌, [], ◌∷◌, none, some, length, String,
  ◌==◌, if◌then◌else◌,
}
use go_lab_netconf.Base.Int.{ℤ, pos, negsuc, pos_part, ltb_ℤ}
use go_lab_netconf.Datastore.Yang.{ok}
use go_lab_netconf.YangTree.Value.{
  Floats, Value, text, boolean, number, int, mapping, Fields, end, field,
}
use go_lab_netconf.YangTree.Path.{Segment, InstancePath, Unicode}
use go_lab_netconf.YangTree.Schema.{Regexps, Entry, Schema}
use go_lab_netconf.YangTree.Node.{Node}

is_space : ℕ → Bool
is_space c = c == b' ' || c == b'\t' || c == b'\n'

unfoldable pub trim_left : Bytes → Bytes
unfolding is_space
trim_left [] = []
trim_left (c ∷ s) = let rest = trim_left s in if is_space c then rest else c ∷ s

unfoldable pub trim_right : Bytes → Bytes
unfolding is_space
trim_right [] = []
trim_right (c ∷ s) =
    let rest = trim_right s in if length rest == 0 && is_space c then [] else c ∷ rest

-- ASCII alone.
abbrev pub ascii : Unicode
ascii = record {
  letter = λ r. false;
  digit = λ r. false;
  runes = λ s. s;
  trim_space = λ s. trim_left (trim_right s);
}

unfoldable pub same_ℤ : ℤ → ℤ → Bool
same_ℤ (pos m) (pos n) = m == n
same_ℤ (negsuc m) (negsuc n) = m == n
same_ℤ _ _ = false

-- Floats that are integers, and no text that is a number.
abbrev pub whole : Floats
whole = record {
  Float = ℤ;
  of_int = λ z. z;
  to_int64 = some;
  to_uint64 = λ z. some (pos_part z);
  eq = same_ℤ;
  lt = ltb_ℤ;
  parse_int = λ s. none;
  parse_uint = λ s. none;
  parse_float = λ s. none;
}

-- Patterns that are the text they match.
abbrev pub literal_patterns : Regexps
literal_patterns = record { Pattern = Bytes; compile = ok; matches = bytes_eq }

unfoldable pub shown : Value whole → Bytes
shown (mapping (field k (boolean true) end)) = bytes "map[f:true]"
shown (mapping (field k (boolean false) end)) = bytes "map[f:false]"
shown v = bytes "?"

abbrev pub named : String → Segment
named s = record { name = bytes s; keys = [] }

abbrev pub host : InstancePath
host = record { module_name = bytes "m"; segments = named "sys" ∷ named "host" ∷ [] }

abbrev pub leaf : InstancePath → String → String → Entry whole literal_patterns
leaf p typ value_from = record {
  path = p;
  typ = typ;
  access = "";
  range_min = none;
  range_max = none;
  pattern = none;
  value_from = value_from;
}

abbrev pub small_schema : Schema whole literal_patterns
small_schema =
    (bytes "m:sys/host", leaf host "string" "")
    ∷ (
      bytes "m:sys/up",
      leaf (record { module_name = bytes "m"; segments = named "sys" ∷ named "up" ∷ [] }) "uint32"
          "processUptime",
    )
    ∷ (
      bytes "n:limit",
      leaf (record { module_name = bytes "n"; segments = named "limit" ∷ [] }) "int32" "",
    )
    ∷ []

abbrev pub one : String → Value whole → Fields whole
one k v = field (bytes k) v end

abbrev pub system : Value whole → Node whole literal_patterns
system v = record {
  schema = some small_schema;
  root = some (
      field (bytes "m") (mapping (one "sys" v))
        (one "n" (mapping (one "limit" (number (int (pos 7)))))));
}

abbrev pub before : Node whole literal_patterns
before = system (mapping (one "host" (text (bytes "a"))))

abbrev pub renamed : Node whole literal_patterns
renamed = system (mapping (one "host" (text (bytes "b"))))

abbrev pub up : InstancePath
up = record { module_name = bytes "m"; segments = named "sys" ∷ named "up" ∷ [] }
