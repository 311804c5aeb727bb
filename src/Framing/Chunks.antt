-- ===== src/Framing/Chunks.antt =====
-- The 1.1 framing (`Write1_1` of framing.go, `read11` of reader.go).
pub mod RoundTrip
pub mod Bounds
use native.Mathlib.Nat.{pow-suc}
use go_lab_netconf.Base.{
  ℕ, zero, suc, ◌+◌, ◌-◌, ◌*◌, ◌/◌, ◌%◌, ◌^◌, ◌≤◌, ◌<◌, ◌≡◌, refl, ap, sym, ◌∙◌, Bool, true, false,
  List, [], ◌∷◌, ◌++◌, Option, none, some, Bytes, length, length-append, append_assoc, append-nil,
  arith, ltb, ◌==◌, if◌then◌else◌, All, Bool-cases, inl, inr,
}
use go_lab_netconf.Framing.{
  Error, Result, ok, err, digits_onto, itoa, write11, end_of_chunks, max_message_size,
}
use go_lab_netconf.Framing.Reader.{
  read_byte, read_full, expect, read_size, finish_chunks, read_body, read_chunk, read_header,
  read_round, Round, finished, more, read11_loop, read11,
}

module _ (max : ℕ) (ending : Error) where
  -- `read_chunk`'s size: the first digit, and those behind it.
  abbrev size_from : Bytes → Result ℕ × Bytes
  size_from [] = (err ending, [])
  size_from (b ∷ rest) = read_size max ending 1 (b - b'0') rest

  read_size_digit :
      (d size c : ℕ) (rest : Bytes)
      → c < 10
      → d < 10
      → size * 10 + c ≤ max
      → read_size max ending d size ((b'0' + c) ∷ rest)
        ≡ read_size max ending (d + 1) (size * 10 + c) rest
  unfolding read_size
  read_size_digit d size c rest hc hd hm = ground arith

  -- `s` is read as a size to the number `n`, in at most `k` digits, with `rest` behind them.
  abbrev ReadAs : ℕ → ℕ → Bytes → Bytes → Type 0
  ReadAs k n s rest = (d : ℕ) × (d ≤ k) × (size_from s ≡ read_size max ending d n rest)

  last_digit :
      (n k : ℕ) (s acc : Bytes)
      → k < 10
      → n ≤ max
      → ReadAs k (n / 10) s ((b'0' + n % 10) ∷ acc)
      → ReadAs (suc k) n s acc
  last_digit n k s acc hk hm (d, hd, e) =
      let same : n / 10 * 10 + n % 10 ≡ n = omega arith in
      let step =
        read_size_digit d (n / 10) (n % 10) acc (omega arith) (omega arith) (omega arith) in
      (d + 1, omega arith, e ∙ step ∙ ap (λ m. read_size max ending (d + 1) m acc) same)

  -- The decimal digits of a positive number are read to that number.
  size_from-digits :
      (fuel n k : ℕ) (acc : Bytes)
      → n < fuel
      → 0 < n
      → n < 10 ^ k
      → k ≤ 10
      → n ≤ max
      → ReadAs k n (digits_onto fuel n acc) acc
  unfolding digits_onto
  size_from-digits zero n k acc hf pos hk h10 hm = absurd (omega arith)
  size_from-digits (suc fuel) n zero acc hf pos hk h10 hm = absurd (omega arith)
  size_from-digits (suc fuel) n (suc k) acc hf pos hk h10 hm = elim (Bool-cases (ltb n 10)) [
    | inl small ↦ (1, omega arith, rw small (ground arith))
    | inr big ↦ rw big (
        last_digit n k _ acc (omega arith) hm (
          size_from-digits fuel (n / 10) k ((b'0' + n % 10) ∷ acc) (ground arith) (ground arith)
            (omega (arith, pow-suc 10 k)) (omega arith) (omega arith)))
  ]

  pub first_digit :
      (fuel n : ℕ) (acc : Bytes)
      → n < fuel
      → 0 < n
      → (b : ℕ) × (t : Bytes) × (b'1' ≤ b) × (b ≤ b'9') × (digits_onto fuel n acc ≡ b ∷ t)
  unfolding digits_onto
  first_digit zero n acc hf pos = absurd (omega arith)
  first_digit (suc fuel) n acc hf pos = elim (Bool-cases (ltb n 10)) [
    | inl small ↦ (b'0' + n, acc, omega arith, ground arith, rw small)
    | inr big ↦
        rw big (first_digit fuel (n / 10) ((b'0' + n % 10) ∷ acc) (ground arith) (ground arith))
  ]

  pub loop_more :
      (fuel chunks : ℕ) (msg input m rest : Bytes)
      → read_round max ending chunks msg input ≡ (ok (more m), rest)
      → read11_loop max ending (suc fuel) chunks msg input
        ≡ read11_loop max ending fuel (chunks + 1) m rest
  unfolding read11_loop
  loop_more fuel chunks msg input m rest e = ground arith

  pub loop_finished :
      (fuel chunks : ℕ) (msg input m rest : Bytes)
      → read_round max ending chunks msg input ≡ (ok (finished m), rest)
      → read11_loop max ending (suc fuel) chunks msg input ≡ some (ok m, rest)
  unfolding read11_loop
  loop_finished fuel chunks msg input m rest e = ground arith

  pub loop_failed :
      (fuel chunks : ℕ) (msg input rest : Bytes) (e : Error)
      → read_round max ending chunks msg input ≡ (err e, rest)
      → read11_loop max ending (suc fuel) chunks msg input ≡ some (err e, rest)
  unfolding read11_loop
  loop_failed fuel chunks msg input rest e h = ground arith

  read_full-append : (c rest : Bytes) → read_full max ending (length c) (c ++ rest) ≡ (ok c, rest)
  unfolding read_full
  read_full-append [] rest = refl
  read_full-append (x ∷ c) rest = rw (read_full-append c rest)

  -- The line feed ends the size.
  read_size_end : (d n : ℕ) (rest : Bytes) → read_size max ending d n (b'\n' ∷ rest) ≡ (ok n, rest)
  unfolding read_size
  read_size_end d n rest = refl

  module _ (room : max < 10 ^ 10) (chunks : ℕ) (msg : Bytes) where
    read_body-append :
        (c rest : Bytes)
        → 0 < length c
        → length msg + length c ≤ max
        → read_body max ending msg (length c) (c ++ rest) ≡ (ok (more (msg ++ c)), rest)
    unfolding read_body
    read_body-append c rest pos fits = ground (arith, read_full-append c rest)

    pub read_chunk-itoa :
        (c rest : Bytes) (b : ℕ) (t : Bytes)
        → 0 < length c
        → length msg + length c ≤ max
        → b'1' ≤ b
        → b ≤ b'9'
        → digits_onto (suc (length c)) (length c) (b'\n' ∷ (c ++ rest)) ≡ b ∷ t
        → read_chunk max ending msg b t ≡ (ok (more (msg ++ c)), rest)
    unfolding read_chunk
    read_chunk-itoa c rest b t pos fits lo hi e =
        let (d, hd, sized) =
          size_from-digits (suc (length c)) (length c) 10 (b'\n' ∷ (c ++ rest)) (omega arith) pos
            (omega arith) (omega arith) (omega arith) in
        let sized' : read_size max ending 1 (b - b'0') t ≡ (ok (length c), c ++ rest) =
          (rw e at sized) ∙ read_size_end d (length c) (c ++ rest) in
        ground (arith, sized', read_body-append c rest pos fits)
