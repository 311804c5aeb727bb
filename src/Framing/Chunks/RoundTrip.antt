-- ===== src/Framing/Chunks/RoundTrip.antt =====
-- `read11` (reader.go) joins the chunks of a frame, however the message was cut into chunks.
use go_lab_netconf.Base.{
  ℕ, zero, suc, ◌+◌, ◌≤◌, ◌<◌, ◌^◌, ◌≡◌, refl, ap, ◌∙◌, List, [], ◌∷◌, ◌++◌, some, Bytes, length,
  length-append, append_assoc, append-nil, arith, All, ◌≢◌, ◌/◌, ◌%◌,
}
use go_lab_netconf.Framing.{Error, ok, digits_onto, itoa, write11, end_of_chunks, max_message_size}
use go_lab_netconf.Framing.Reader.{
  read_byte, expect, finish_chunks, read_chunk, read_header, read_round, finished, more,
  read11_loop, read11,
}
use go_lab_netconf.Framing.Chunks.{first_digit, read_chunk-itoa, loop_more, loop_finished}

-- One chunk in front of what follows it, and the frame of a list of chunks.
abbrev pub chunk_onto : Bytes → Bytes → Bytes
chunk_onto c rest = b'\n' ∷ b'#' ∷ (itoa (length c) ++ (b'\n' ∷ (c ++ rest)))

pub frame_onto : List Bytes → Bytes → Bytes
frame_onto [] rest = end_of_chunks ++ rest
frame_onto (c ∷ cs) rest = chunk_onto c (frame_onto cs rest)

unfoldable pub joined : List Bytes → Bytes
joined [] = []
joined (c ∷ cs) = c ++ joined cs

digits_onto-append :
    (fuel n : ℕ) (acc r : Bytes) → digits_onto fuel n acc ++ r ≡ digits_onto fuel n (acc ++ r)
unfolding digits_onto
digits_onto-append zero n acc r = refl
digits_onto-append (suc fuel) n acc r =
    ground (arith, digits_onto-append fuel (n / 10) ((b'0' + n % 10) ∷ acc) r)

itoa-append : (n : ℕ) (r : Bytes) → itoa n ++ r ≡ digits_onto (suc n) n r
unfolding itoa
itoa-append n r = digits_onto-append (suc n) n [] r

-- Each chunk holds a byte.
abbrev pub NonEmpty : List Bytes → Type 0
NonEmpty = All (λ c. 0 < length c)

length-frame_onto : (cs : List Bytes) (rest : Bytes) → length cs ≤ length (frame_onto cs rest)
unfolding frame_onto
length-frame_onto [] rest = omega arith
length-frame_onto (c ∷ cs) rest = omega (
  arith,
  length-frame_onto cs rest,
  length-append (itoa (length c)) (b'\n' ∷ (c ++ frame_onto cs rest)),
  length-append c (frame_onto cs rest),
)

module _ (max : ℕ) (ending : Error) (room : max < 10 ^ 10) where
  header_chunk :
      (chunks : ℕ) (msg : Bytes) (b : ℕ) (t : Bytes)
      → b'1' ≤ b
      → read_round max ending chunks msg (b'\n' ∷ b'#' ∷ b ∷ t) ≡ read_chunk max ending msg b t
  unfolding read_round read_header expect read_byte
  header_chunk chunks msg b t lo = ground arith

  read_round-chunk :
      (chunks : ℕ) (msg c rest : Bytes)
      → 0 < length c
      → length msg + length c ≤ max
      → read_round max ending chunks msg (chunk_onto c rest) ≡ (ok (more (msg ++ c)), rest)
  read_round-chunk chunks msg c rest pos fits =
      let (b, t, lo, hi, e) =
        first_digit max ending (suc (length c)) (length c) (b'\n' ∷ (c ++ rest)) (omega arith)
          pos in
      rw (itoa-append, e, header_chunk chunks msg b t lo)
        (read_chunk-itoa max ending room chunks msg c rest b t pos fits lo hi e)

  read_round_end :
      (chunks : ℕ) (msg rest : Bytes)
      → read_round max ending (suc chunks) msg (end_of_chunks ++ rest) ≡ (ok (finished msg), rest)
  unfolding read_round read_header expect read_byte finish_chunks
  read_round_end chunks msg rest = ground arith

  loop-frame_onto :
      (cs : List Bytes) (fuel chunks : ℕ) (msg rest : Bytes)
      → NonEmpty cs
      → length cs < fuel
      → 0 < chunks + length cs
      → length msg + length (joined cs) ≤ max
      → read11_loop max ending fuel chunks msg (frame_onto cs rest)
        ≡ some (ok (msg ++ joined cs), rest)
  unfolding frame_onto joined
  loop-frame_onto cs zero chunks msg rest ne lt pos fits = absurd (omega arith)
  loop-frame_onto [] (suc fuel) zero msg rest ne lt pos fits = absurd (omega arith)
  loop-frame_onto [] (suc fuel) (suc chunks) msg rest ne lt pos fits =
      rw append-nil
        (loop_finished max ending fuel (suc chunks) msg _ msg rest (read_round_end chunks msg rest))
  loop-frame_onto (c ∷ cs) (suc fuel) chunks msg rest ne lt pos fits =
      let step =
        read_round-chunk chunks msg c (frame_onto cs rest) ne.0
          (omega (arith, length-append c (joined cs))) in
      loop_more max ending fuel chunks msg _ (msg ++ c) _ step
      ∙ loop-frame_onto cs fuel (chunks + 1) (msg ++ c) rest ne.1 (omega arith) (omega arith)
          (omega (arith, length-append c (joined cs), length-append msg c))
      ∙ ap (λ m. some (ok m, rest)) (append_assoc msg c (joined cs))

  -- A frame of at least one chunk, each chunk with a byte in it and all of them within the limit, is
  -- read to the chunks joined in order, whatever bytes follow, and those bytes are left.
  pub read11-frame_onto :
      (cs : List Bytes) (rest : Bytes)
      → NonEmpty cs
      → cs ≢ []
      → length (joined cs) ≤ max
      → read11 max ending (frame_onto cs rest) ≡ (ok (joined cs), rest)
  unfolding read11
  read11-frame_onto [] rest ne some_chunk fits = absurd (some_chunk refl)
  read11-frame_onto (c ∷ cs) rest ne some_chunk fits = ground (
    arith,
    loop-frame_onto (c ∷ cs) (suc (length (frame_onto (c ∷ cs) rest))) 0 [] rest ne
        (omega (arith, length-frame_onto (c ∷ cs) rest)) (omega arith) (omega arith),
  )

write11_accepts :
    (msg : Bytes) {frame : Bytes}
    → write11 msg ≡ ok frame
    → (0 < length msg)
      × (length msg ≤ max_message_size)
      × (b'\n' ∷ b'#' ∷ (itoa (length msg) ++ (b'\n' ∷ (msg ++ end_of_chunks))) ≡ frame)
unfolding write11
write11_accepts msg h = ground arith

write11_frame :
    (msg rest : Bytes)
    → (b'\n' ∷ b'#' ∷ (itoa (length msg) ++ (b'\n' ∷ (msg ++ end_of_chunks)))) ++ rest
      ≡ frame_onto (msg ∷ []) rest
unfolding frame_onto
write11_frame msg rest = simp append_assoc

-- A message that `Write1_1` accepts is read back from its frame, whatever bytes follow.
pub read11-write11 :
    (ending : Error) (msg rest : Bytes) {frame : Bytes}
    → write11 msg ≡ ok frame
    → read11 max_message_size ending (frame ++ rest) ≡ (ok msg, rest)
read11-write11 ending msg rest h =
    let (pos, fits, e) = write11_accepts msg h in
    rw (← e, write11_frame msg rest)
      (read11-frame_onto max_message_size ending (omega arith) (msg ∷ []) rest (pos, tt) (λ e. cc)
          (unfold joined in omega (arith, ap length (append-nil msg)))
        ∙ unfold joined in ap (λ m. (ok m, rest)) (append-nil msg))
