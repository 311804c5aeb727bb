-- ===== src/Framing/Reader.antt =====
-- internal/ncframing/reader.go: the decoder of both framings.
-- A connection is the bytes that are still to come and the error behind them; bufio's buffering
-- changes neither. A reading action takes the bytes and gives back those that it leaves.
use go_lab_netconf.Base.{
  ℕ, zero, suc, ◌+◌, ◌-◌, ◌*◌, Bool, true, false, ◌||◌, ◌&&◌, Option, none, some, [], ◌∷◌, ◌++◌,
  ltb, ◌==◌, bytes_eq, length, Bytes, if◌then◌else◌,
}
use go_lab_netconf.Framing.{
  Version, version10, version11, eom10, max_message_size, Error, eof, unexpected_eof, too_large,
  invalid_frame, unsupported_version, Result, ok, err,
}

pub record Reader : Type 0 where
  pub input : Bytes
  pub ending : Error
  pub ver : Version
  pub max : ℕ

abbrev pub new_reader : Bytes → Error → Version → Reader
new_reader input ending ver = record {
  input = input;
  ending = ending;
  ver = ver;
  max = max_message_size;
}

abbrev pub set_version : Reader → Version → Reader
set_version r ver = record r { ver = ver }

abbrev pub version : Reader → Version
version r = r.ver

-- What a read gives: its result, and the bytes behind what it read.
abbrev pub Read {ℓ} : Type ℓ → Type ℓ
Read A = Bytes → Result A × Bytes

infixl 5 ◌>>=◌ ◌>>◌
abbrev pub continue {ℓ κ} : {A : Type ℓ} {B : Type κ} → Result A → (A → Read B) → Read B
continue (ok a) f rest = f a rest
continue (err e) f rest = (err e, rest)

abbrev pub ◌>>=◌ {ℓ κ} : {A : Type ℓ} {B : Type κ} → Read A → (A → Read B) → Read B
◌>>=◌ m f input = let (r, rest) = m input in continue r f rest

abbrev pub ◌>>◌ {ℓ κ} : {A : Type ℓ} {B : Type κ} → Read A → Read B → Read B
m >> k = m >>= λ _. k

abbrev pub throw {ℓ} : {A : Type ℓ} → Error → Read A
throw e input = (err e, input)

abbrev pub pure {ℓ} : {A : Type ℓ} → A → Read A
pure a input = (ok a, input)

abbrev pub unexpected : Error → Error
unexpected eof = unexpected_eof
unexpected e = e

-- `unexpectedEOF(err)` on the error of a read.
abbrev pub or_unexpected {ℓ} : {A : Type ℓ} → Result A → Result A
or_unexpected (ok a) = ok a
or_unexpected (err e) = err (unexpected e)

-- One round of `read11`'s loop: the end of the chunks, or a chunk added to `msg`.
pub data Round : Type 0 where
  finished : Bytes → Round
  more : Bytes → Round

-- `read11` and `read10` of one reader: its limit, and the error at the end of its bytes.
module _ (max : ℕ) (ending : Error) where
  unfoldable pub read_byte : Read ℕ
  read_byte [] = (err ending, [])
  read_byte (b ∷ rest) = (ok b, rest)

  -- `io.ReadFull` into a buffer of `n` bytes.
  unfoldable pub read_full : ℕ → Read Bytes
  read_full zero input = (ok [], input)
  read_full (suc n) [] = (err ending, [])
  read_full (suc n) (b ∷ rest) =
      let (r, rest') = read_full n rest in
      (elim r [ ok bs ↦ ok (b ∷ bs) | err e ↦ err (unexpected e) ], rest')

  unfoldable pub expect : ℕ → Read (Unit {0})
  unfolding read_byte
  expect want = do b ← read_byte; if b == want then pure tt else throw invalid_frame

  -- The errors of `read11`'s inner reads go through `unexpectedEOF`.
  abbrev pub inner {ℓ} : {A : Type ℓ} → Read A → Read A
  inner m input = let (r, rest) = m input in (or_unexpected r, rest)

  -- The window of six bytes is the list of those that it holds; `got` is set by the first byte.
  unfoldable pub read10_loop : Bytes → Bytes → Bool → Read Bytes
  unfolding bytes_eq
  read10_loop msg window got [] =
      (err (elim ending [ eof ↦ if got then unexpected_eof else eof | e ↦ e ]), [])
  read10_loop msg [] got (b ∷ rest) = read10_loop msg (b ∷ []) true rest
  read10_loop msg (w ∷ ws) got (b ∷ rest) =
      let full = length ws == 5 in
      let msg' = if full then msg ++ w ∷ [] else msg in
      let window' = if full then ws ++ b ∷ [] else w ∷ (ws ++ b ∷ []) in
      let next = read10_loop msg' window' true rest in
      if full && ltb max (length msg + 1)
      then (err too_large, rest)
      else if length window' == 6 && bytes_eq window' eom10
      then (ok msg', rest)
      else next

  unfoldable pub read10 : Read Bytes
  unfolding read10_loop
  read10 = read10_loop [] [] false

  -- The digits of a chunk size behind the first, up to the line feed.
  unfoldable pub read_size : ℕ → ℕ → Read ℕ
  read_size digits size [] = (err (unexpected ending), [])
  read_size digits size (b ∷ rest) =
      let more = read_size (digits + 1) (size * 10 + (b - b'0')) rest in
      if b == b'\n'
      then (ok size, rest)
      else if ltb b b'0' || ltb b'9' b
      then (err invalid_frame, rest)
      else if ltb 10 (digits + 1)
      then (err invalid_frame, rest)
      else if ltb max (size * 10 + (b - b'0'))
      then (err too_large, rest)
      else more

  unfoldable pub finish_chunks : ℕ → Bytes → Read Round
  unfolding expect
  finish_chunks chunks msg = do
    inner (expect b'\n')
    if chunks == 0 then throw invalid_frame else pure (finished msg)

  unfoldable pub read_body : Bytes → ℕ → Read Round
  unfolding read_full
  read_body msg size =
      if ltb size 1
      then throw invalid_frame
      else if ltb max (length msg + size)
      then throw too_large
      else do chunk ← inner (read_full size); pure (more (msg ++ chunk))

  unfoldable pub read_chunk : Bytes → ℕ → Read Round
  unfolding read_size read_body
  read_chunk msg b =
      if ltb b b'1' || ltb b'9' b
      then throw invalid_frame
      else do size ← read_size 1 (b - b'0'); read_body msg size

  unfoldable pub read_header : ℕ → Bytes → Read Round
  unfolding expect read_byte finish_chunks read_chunk
  read_header chunks msg = do
    inner (expect b'#')
    b ← inner read_byte
    if b == b'#' then finish_chunks chunks msg else read_chunk msg b

  unfoldable pub read_round : ℕ → Bytes → Read Round
  unfolding read_header
  read_round chunks msg [] =
      (err (elim ending [ eof ↦ if chunks == 0 then eof else unexpected_eof | e ↦ e ]), [])
  read_round chunks msg (b ∷ rest) =
      if b == b'\n' then read_header chunks msg rest else (err invalid_frame, rest)

  -- The loop of `read11`; `none` means that the fuel ran out.
  unfoldable pub read11_loop : ℕ → ℕ → Bytes → Bytes → Option (Result Bytes × Bytes)
  read11_loop zero chunks msg input = none
  read11_loop (suc fuel) chunks msg input =
      let (r, rest) = read_round chunks msg input in
      elim r [
        | err e ↦ some (err e, rest)
        | ok (finished m) ↦ some (ok m, rest)
        | ok (more m) ↦ read11_loop fuel (chunks + 1) m rest
      ]

  -- Every round reads a byte, so the fuel is one more than the bytes to come.
  unfoldable pub read11 : Read Bytes
  unfolding read11_loop read_round
  read11 input = elim (read11_loop (suc (length input)) 0 [] input) [
    | some r ↦ r
    | none ↦ (err invalid_frame, input)
  ]

unfoldable pub read_message : Reader → Result Bytes × Reader
unfolding read10 read11
read_message r =
    let (res, rest) =
      if r.ver == version10
      then read10 r.max r.ending r.input
      else if r.ver == version11
      then read11 r.max r.ending r.input
      else (err (unsupported_version r.ver), r.input) in
    (res, record r { input = rest })
