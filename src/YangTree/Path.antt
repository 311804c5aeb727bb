-- ===== src/YangTree/Path.antt =====
-- internal/yangtree/path.go: instance identifiers, module:container/list[key=value]/leaf. An index
-- into the text is the text that is left from it.
use go_lab_netconf.Base.{
  String, ℕ, zero, suc, Bytes, bytes_eq, Bool, true, false, not, ◌&&◌, ◌||◌, List, [], ◌∷◌, ◌++◌,
  Option, none, some, length, ltb, leb, ◌==◌, if◌then◌else◌,
}
use go_lab_netconf.DomainErr.{AnyError, domain, other, validation_failed}
use go_lab_netconf.Datastore.Yang.{Result, ok, err, ◌>>=◌, ◌>>◌}
pub mod Reading
pub mod RoundTrip
pub mod Totality

pub record Key : Type 0 where
  pub name : Bytes
  pub value : Bytes

pub record Segment : Type 0 where
  pub name : Bytes
  pub keys : List Key

pub record InstancePath : Type 0 where
  pub module_name : Bytes
  pub segments : List Segment

-- What package unicode says of the code points past ASCII, the decoding of UTF-8, and
-- strings.TrimSpace.
pub record Unicode : Type 0 where
  pub letter : ℕ → Bool
  pub digit : ℕ → Bool
  pub runes : Bytes → List ℕ
  pub trim_space : Bytes → Bytes

-- `IsRoot`
abbrev pub is_root : InstancePath → Bool
is_root p = length p.module_name == 0 && length p.segments == 0

abbrev pub root_path : InstancePath
root_path = record { module_name = []; segments = [] }

unfoldable pub contains_byte : ℕ → Bytes → Bool
contains_byte b [] = false
contains_byte b (c ∷ s) = c == b || contains_byte b s

-- The bytes of "/[]'\" \t", of which one calls for quotes.
abbrev pub is_special : ℕ → Bool
is_special c =
    c == b'/' || c == b'[' || c == b']' || c == b'\'' || c == b'"' || c == b' ' || c == b'\t'

has_special : Bytes → Bool
has_special [] = false
has_special (c ∷ s) = is_special c || has_special s

without_quotes : Bytes → Bytes
without_quotes [] = []
without_quotes (c ∷ s) = let rest = without_quotes s in if c == b'\'' then rest else c ∷ rest

unfoldable pub quote_key_value : Bytes → Bytes
unfolding has_special without_quotes
quote_key_value v =
    if length v == 0 || has_special v then b'\'' ∷ (without_quotes v ++ b'\'' ∷ []) else v

unfoldable pub print_keys : List Key → Bytes
print_keys [] = []
print_keys (k ∷ ks) =
    b'[' ∷ (k.name ++ (b'=' ∷ (quote_key_value k.value ++ (b']' ∷ print_keys ks))))

unfoldable pub print_segments : List Segment → Bytes
print_segments [] = []
print_segments (seg ∷ []) = seg.name ++ print_keys seg.keys
print_segments (seg ∷ seg' ∷ segs) =
    seg.name ++ (print_keys seg.keys ++ (b'/' ∷ print_segments (seg' ∷ segs)))

-- `Path.String`
unfoldable pub print : InstancePath → Bytes
unfolding print_segments
print p = if is_root p then [] else p.module_name ++ (b':' ∷ print_segments p.segments)

unfoldable pub schema_segments : List Segment → Bytes
schema_segments [] = []
schema_segments (seg ∷ []) = seg.name
schema_segments (seg ∷ seg' ∷ segs) = seg.name ++ (b'/' ∷ schema_segments (seg' ∷ segs))

-- `SchemaString`
unfoldable pub schema_string : InstancePath → Bytes
unfolding schema_segments
schema_string p = if is_root p then [] else p.module_name ++ (b':' ∷ schema_segments p.segments)

abbrev pub append_segment : InstancePath → Segment → InstancePath
append_segment p seg = record p { segments = p.segments ++ seg ∷ [] }

-- `last`
abbrev pub last_segment : List Segment → Option Segment
last_segment [] = none
last_segment (seg ∷ []) = some seg
last_segment (seg ∷ seg' ∷ segs) = last_segment (seg' ∷ segs)

abbrev pub out_of_fuel : AnyError
out_of_fuel = other "out of fuel"

module _ (U : Unicode) where
  unfoldable pub is_letter : ℕ → Bool
  is_letter r =
      if ltb r 128 then leb b'a' r && leb r b'z' || leb b'A' r && leb r b'Z' else U.letter r

  unfoldable pub is_digit : ℕ → Bool
  is_digit r = if ltb r 128 then leb b'0' r && leb r b'9' else U.digit r

  unfoldable pub is_head : ℕ → Bool
  unfolding is_letter
  is_head r = is_letter r || r == b'_'

  unfoldable pub is_tail : ℕ → Bool
  unfolding is_letter is_digit
  is_tail r = is_letter r || is_digit r || r == b'_' || r == b'-' || r == b'.'

  all_tail : List ℕ → Bool
  all_tail [] = true
  all_tail (r ∷ rs) = is_tail r && all_tail rs

  ident_runes : List ℕ → Bool
  unfolding all_tail
  ident_runes [] = false
  ident_runes (r ∷ rs) = is_head r && all_tail rs

  unfoldable pub is_ident : Bytes → Bool
  unfolding ident_runes
  is_ident s = ident_runes (U.runes s)

  -- The longest run of identifier bytes, and what is left.
  unfoldable pub tail_run : Bytes → Bytes × Bytes
  tail_run [] = ([], [])
  tail_run (c ∷ s) =
      let (run, rest) = tail_run s in if is_tail c then (c ∷ run, rest) else ([], c ∷ s)

  -- `readIdentAt`
  unfoldable pub read_ident : Bytes → Result (Bytes × Bytes)
  read_ident [] = err (other "expected identifier")
  read_ident (c ∷ s) =
      let (run, rest) = tail_run s in
      if is_head c then ok (c ∷ run, rest) else err (other "expected identifier")

  -- The bytes before the first `q`, and what is left from it.
  unfoldable pub until_byte : ℕ → Bytes → Bytes × Bytes
  until_byte q [] = ([], [])
  until_byte q (c ∷ s) =
      let (run, rest) = until_byte q s in if c == q then ([], c ∷ s) else (c ∷ run, rest)

  read_quoted : ℕ → Bytes → Result (Bytes × Bytes)
  unfolding until_byte
  read_quoted q s =
      let (run, left) = until_byte q s in
      elim left [ [] ↦ err (other "unterminated quoted list key") | c ∷ rest ↦ ok (run, rest) ]

  read_bare : Bytes → Result (Bytes × Bytes)
  unfolding until_byte
  read_bare s =
      let (run, rest) = until_byte b']' s in
      if length run == 0 then err (other "empty list key value") else ok (run, rest)

  -- `readKeyValueAt`
  unfoldable pub read_key_value : Bytes → Result (Bytes × Bytes)
  unfolding read_quoted read_bare
  read_key_value [] = err (other "missing list key value")
  read_key_value (c ∷ s) = if c == b'\'' || c == b'"' then read_quoted c s else read_bare (c ∷ s)

  -- One byte that must come next.
  expect_byte : ℕ → AnyError → Bytes → Result Bytes
  expect_byte b e [] = err e
  expect_byte b e (c ∷ s) = if c == b then ok s else err e

  read_key_name : Bytes → Result (Bytes × Bytes)
  unfolding read_ident
  read_key_name s = elim (read_ident s) [
    | ok r ↦ ok r
    | err e ↦ err (other "invalid list key name")
  ]

  -- `readKeyAt`
  unfoldable pub read_key : Bytes → Result (Key × Bytes)
  unfolding expect_byte read_key_name read_key_value
  read_key s = do
    s ← expect_byte b'[' (other "expected '['") s
    (name, s) ← read_key_name s
    s ← expect_byte b'=' (other "expected '=' in list predicate") s
    (value, s) ← read_key_value s
    s ← expect_byte b']' (other "unterminated list predicate") s
    ok (record { name = name; value = value }, s)

  starts_with : ℕ → Bytes → Bool
  starts_with b [] = false
  starts_with b (c ∷ s) = c == b

  -- The loop over the predicates of a segment. A round reads a byte at least, so the fuel is one more
  -- than the bytes that are left; so too for the loop over the segments.
  unfoldable pub read_keys : ℕ → Bytes → Result (List Key × Bytes)
  unfolding starts_with read_key
  read_keys zero s = err out_of_fuel
  read_keys (suc fuel) s = elim (starts_with b'[' s) [
    | false ↦ ok ([], s)
    | true ↦ do (k, s) ← read_key s; (ks, s) ← read_keys fuel s; ok (k ∷ ks, s)
  ]

  -- What follows a segment: nothing, or a slash with more behind it.
  abbrev next_segment : Bytes → (Bytes → Result (List Segment)) → Result (List Segment)
  next_segment [] k = ok []
  next_segment (c ∷ []) k =
      if c == b'/'
      then err (other "trailing slash")
      else err (other "expected '/' between segments")
  next_segment (c ∷ d ∷ s) k =
      if c == b'/' then k (d ∷ s) else err (other "expected '/' between segments")

  unfoldable pub read_segments : ℕ → Bytes → Result (List Segment)
  unfolding read_ident read_keys starts_with
  read_segments zero s = err out_of_fuel
  read_segments (suc fuel) s = elim (starts_with b'/' s) [
    | true ↦ err (other "empty path segment")
    | false ↦ do
      (name, s) ← read_ident s
      (keys, s) ← read_keys (suc (length s)) s
      segs ← next_segment s (read_segments fuel)
      ok (record { name = name; keys = keys } ∷ segs)
  ]

  abbrev bad_path : String → Bytes → String → AnyError
  bad_path what s message =
      validation_failed what (record { path = s; code = "unknown-element"; message = message } ∷ [])

  -- An error that the loops give as the message of a violation.
  abbrev wrapped {ℓ} : {A : Type ℓ} → Bytes → Result A → Result A
  wrapped s (ok a) = ok a
  wrapped s (err (other message)) = err (bad_path "invalid path" s message)
  wrapped s (err (domain e)) = err (domain e)

  parse_rest : Bytes → Bytes → Bytes → Result InstancePath
  unfolding read_segments
  parse_rest s name [] = ok (record { module_name = name; segments = [] })
  parse_rest s name (c ∷ rest) = do
    segs ← wrapped s (read_segments (suc (length (c ∷ rest))) (c ∷ rest))
    ok (record { module_name = name; segments = segs })

  parse_trimmed : Bytes → Result InstancePath
  unfolding until_byte is_ident parse_rest
  parse_trimmed [] = ok root_path
  parse_trimmed (c ∷ t) =
      let s = c ∷ t in
      let (name, left) = until_byte b':' s in
      elim left [
        | [] ↦ err (bad_path "path must be module-qualified" s "missing module:")
        | colon ∷ rest ↦
            if length name == 0
            then err (bad_path "path must be module-qualified" s "missing module:")
            else if not (is_ident name)
            then err (bad_path "invalid module name" s "invalid module name")
            else parse_rest s name rest
      ]

  -- `ParsePath`
  unfoldable pub parse_path : Bytes → Result InstancePath
  unfolding parse_trimmed
  parse_path s = parse_trimmed (U.trim_space s)
