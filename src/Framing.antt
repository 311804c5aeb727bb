-- ===== src/Framing.antt =====
-- internal/ncframing/framing.go: the framing versions, the limits and the writers.
-- A write to the connection is the list of bytes handed to it; its own failures are not modelled.
pub mod Reader
pub mod Chunks
pub mod Eom
mod Tests
use go_lab_netconf.Base.{
  ℕ, zero, suc, ◌+◌, ◌/◌, ◌%◌, ◌^◌, Bool, true, false, [], ◌∷◌, ◌++◌, ltb, ◌==◌, length, Bytes,
  if◌then◌else◌, ◌||◌, ◌&&◌, ◌*◌,
}

-- A negative version behaves as any other that is not supported.
abbrev pub Version : Type 0
Version = ℕ

abbrev pub version10 : Version
version10 = 10

abbrev pub version11 : Version
version11 = 11

-- "]]>]]>"
abbrev pub eom10 : Bytes
eom10 = b']' ∷ b']' ∷ b'>' ∷ b']' ∷ b']' ∷ b'>' ∷ []

abbrev pub max_message_size : ℕ
max_message_size = 16 * 2 ^ 20

-- The errors of the package, `io.EOF` and `io.ErrUnexpectedEOF`, and any other read error.
pub data Error : Type 0 where
  eof unexpected_eof too_large invalid_frame eom_in_message empty_message : Error
  unsupported_version : Version → Error
  read_failure : ℕ → Error

pub data Result {ℓ} (A : Type ℓ) : Type ℓ where
  ok : A → Result A
  err : Error → Result A

-- `bytes.HasPrefix(s, p)`
unfoldable pub has_prefix : Bytes → Bytes → Bool
has_prefix s [] = true
has_prefix [] (y ∷ p) = false
has_prefix (x ∷ s) (y ∷ p) = x == y && has_prefix s p

-- `bytes.Contains(s, eom10)`
unfoldable pub contains_eom : Bytes → Bool
unfolding has_prefix
contains_eom [] = false
contains_eom (x ∷ s) = has_prefix (x ∷ s) eom10 || contains_eom s

unfoldable pub write10 : Bytes → Result Bytes
write10 msg =
    if contains_eom msg
    then err eom_in_message
    else if ltb max_message_size (length msg)
    then err too_large
    else ok (msg ++ eom10)

-- `strconv.Itoa` on a number that is not negative: the digits, from the last.
pub digits_onto : ℕ → ℕ → Bytes → Bytes
digits_onto zero n acc = acc
digits_onto (suc fuel) n acc =
    let more = digits_onto fuel (n / 10) ((b'0' + n % 10) ∷ acc) in
    if ltb n 10 then (b'0' + n) ∷ acc else more

unfoldable pub itoa : ℕ → Bytes
unfolding digits_onto
itoa n = digits_onto (suc n) n []

-- "\n##\n"
abbrev pub end_of_chunks : Bytes
end_of_chunks = b'\n' ∷ b'#' ∷ b'#' ∷ b'\n' ∷ []

unfoldable pub write11 : Bytes → Result Bytes
write11 msg =
    if length msg == 0
    then err empty_message
    else if ltb max_message_size (length msg)
    then err too_large
    else ok (b'\n' ∷ b'#' ∷ (itoa (length msg) ++ (b'\n' ∷ (msg ++ end_of_chunks))))

unfoldable pub write : Version → Bytes → Result Bytes
unfolding write10 write11
write ver msg =
    if ver == version10
    then write10 msg
    else if ver == version11
    then write11 msg
    else err (unsupported_version ver)
