-- ===== src/Framing/Eom.antt =====
-- The 1.0 framing (`Write1_0` of framing.go, `read10` of reader.go): the sliding window of the
-- reader against the first end-of-message delimiter of the input.
pub mod RoundTrip
use go_lab_netconf.Base.{
  ℕ, zero, suc, ◌+◌, ◌≤◌, ◌<◌, ◌≡◌, ◌≢◌, refl, ap, sym, ◌∙◌, Bool, true, false, ◌&&◌, ◌||◌, [], ◌∷◌,
  ◌++◌, Option, none, some, Bytes, length, length-append, append-nil, append_assoc, arith, ltb,
  ltb→lt, leb, ◌==◌, bytes_eq, bytes_eq_iff, if◌then◌else◌, drop, inl, inr, ◌⊎◌, Bool-cases,
}
use go_lab_netconf.Framing.{
  Error, eof, unexpected_eof, too_large, Result, ok, err, eom10, has_prefix, contains_eom, write10,
  max_message_size,
}
use go_lab_netconf.Framing.Reader.{read10, read10_loop, unexpected}

-- The input before its first delimiter, and the input behind it.
abbrev map_first : ℕ → Option (Bytes × Bytes) → Option (Bytes × Bytes)
map_first x none = none
map_first x (some (m, rest)) = some (x ∷ m, rest)

starts : Bytes → Bool
starts s = has_prefix s eom10

pub split_eom : Bytes → Option (Bytes × Bytes)
split_eom [] = none
split_eom (x ∷ s) = if starts (x ∷ s) then some ([], drop 6 (x ∷ s)) else map_first x (split_eom s)

-- A window of six bytes is a prefix of what it begins.
starts-bytes_eq :
    (a b c d e f : ℕ) (s : Bytes)
    → starts (a ∷ b ∷ c ∷ d ∷ e ∷ f ∷ s) ≡ bytes_eq (a ∷ b ∷ c ∷ d ∷ e ∷ f ∷ []) eom10
unfolding starts has_prefix bytes_eq
starts-bytes_eq a b c d e f s = refl

-- No delimiter fits in fewer than six bytes.
split_eom_short : (s : Bytes) → length s < 6 → split_eom s ≡ none
unfolding split_eom starts has_prefix
split_eom_short [] h = refl
split_eom_short (a ∷ []) h = ground arith
split_eom_short (a ∷ b ∷ []) h = ground arith
split_eom_short (a ∷ b ∷ c ∷ []) h = ground arith
split_eom_short (a ∷ b ∷ c ∷ d ∷ []) h = ground arith
split_eom_short (a ∷ b ∷ c ∷ d ∷ e ∷ []) h = ground arith
split_eom_short (a ∷ b ∷ c ∷ d ∷ e ∷ f ∷ s) h = absurd (omega arith)

-- Past a byte that begins no delimiter.
split_eom_pass :
    (x : ℕ) (s : Bytes) → starts (x ∷ s) ≡ false → split_eom (x ∷ s) ≡ map_first x (split_eom s)
unfolding split_eom
split_eom_pass x s h = rw h

split_eom_stop :
    (x : ℕ) (s : Bytes) → starts (x ∷ s) ≡ true → split_eom (x ∷ s) ≡ some ([], drop 6 (x ∷ s))
unfolding split_eom
split_eom_stop x s h = rw h

-- A read's result, with the bytes that a successful one leaves.
abbrev pub taken : Result Bytes × Bytes → Result (Bytes × Bytes)
taken (ok m, rest) = ok (m, rest)
taken (err e, rest) = err e

module _ (max : ℕ) (ending : Error) where
  -- The error of an input that ends with no delimiter.
  abbrev pub cut_off : Bytes → Error
  cut_off [] = ending
  cut_off (x ∷ s) = unexpected ending

  -- What follows `msg`, where the input `s` splits as given.
  pub framed : Bytes → Bytes → Option (Bytes × Bytes) → Result (Bytes × Bytes)
  framed msg s (some (m, rest)) =
      if leb (length msg + length m) max then ok (msg ++ m, rest) else err too_large
  framed msg s none =
      if leb (length msg + length s) (max + 6) then err (cut_off (msg ++ s)) else err too_large

  -- One byte of the message moves from the window to `msg`.
  framed_pass :
      (x : ℕ) (msg s : Bytes) (o : Option (Bytes × Bytes))
      → framed msg (x ∷ s) (map_first x o) ≡ framed (msg ++ x ∷ []) s o
  unfolding framed
  framed_pass x msg s none = ground (arith, append_assoc msg (x ∷ []) s, length-append msg (x ∷ []))
  framed_pass x msg s (some (m, rest)) =
      ground (arith, append_assoc msg (x ∷ []) m, length-append msg (x ∷ []))

  framed_full :
      (msg s : Bytes) (o : Option (Bytes × Bytes))
      → max < length msg
      → max + 6 < length msg + length s
      → framed msg s o ≡ err too_large
  unfolding framed
  framed_full msg s none h k = ground arith
  framed_full msg s (some (m, rest)) h k = ground arith

  slide :
      (s msg : Bytes) (a b c d e f g : ℕ)
      → read10_loop max ending msg (a ∷ b ∷ c ∷ d ∷ e ∷ f ∷ []) true (g ∷ s) ≡ (
          if ltb max (length msg + 1)
          then (err too_large, s)
          else if bytes_eq (b ∷ c ∷ d ∷ e ∷ f ∷ g ∷ []) eom10
          then (ok (msg ++ a ∷ []), s)
          else read10_loop max ending (msg ++ a ∷ []) (b ∷ c ∷ d ∷ e ∷ f ∷ g ∷ []) true s)
  unfolding read10_loop
  slide s msg a b c d e f g = refl

  fill6 :
      (s : Bytes) (a b c d e f : ℕ)
      → read10 max ending (a ∷ b ∷ c ∷ d ∷ e ∷ f ∷ s) ≡ (
          if bytes_eq (a ∷ b ∷ c ∷ d ∷ e ∷ f ∷ []) eom10
          then (ok [], s)
          else read10_loop max ending [] (a ∷ b ∷ c ∷ d ∷ e ∷ f ∷ []) true s)
  unfolding read10 read10_loop bytes_eq
  fill6 s a b c d e f = ground arith

  cut_off-append : (msg s : Bytes) (x : ℕ) → cut_off (msg ++ (x ∷ s)) ≡ unexpected ending
  cut_off-append [] s x = refl
  cut_off-append (m ∷ msg) s x = refl

  stop_full :
      (s msg : Bytes) (a b c d e f : ℕ)
      → bytes_eq (a ∷ b ∷ c ∷ d ∷ e ∷ f ∷ []) eom10 ≡ true
      → length msg ≤ max
      → framed msg (a ∷ b ∷ c ∷ d ∷ e ∷ f ∷ s) (split_eom (a ∷ b ∷ c ∷ d ∷ e ∷ f ∷ s)) ≡ ok (msg, s)
  unfolding framed
  stop_full s msg a b c d e f h l =
      rw (split_eom_stop a (b ∷ c ∷ d ∷ e ∷ f ∷ s) (starts-bytes_eq a b c d e f s ∙ h))
        (ground (arith, append-nil msg))

  at_end :
      (msg : Bytes) (a b c d e f : ℕ)
      → bytes_eq (a ∷ b ∷ c ∷ d ∷ e ∷ f ∷ []) eom10 ≡ false
      → length msg ≤ max
      → taken (read10_loop max ending msg (a ∷ b ∷ c ∷ d ∷ e ∷ f ∷ []) true [])
        ≡ framed msg (a ∷ b ∷ c ∷ d ∷ e ∷ f ∷ []) (split_eom (a ∷ b ∷ c ∷ d ∷ e ∷ f ∷ []))
  unfolding framed read10_loop
  at_end msg a b c d e f h l =
      rw
        (
          split_eom_pass a (b ∷ c ∷ d ∷ e ∷ f ∷ []) (starts-bytes_eq a b c d e f [] ∙ h),
          split_eom_short (b ∷ c ∷ d ∷ e ∷ f ∷ []) (omega arith),
        )
        (ground (arith, cut_off-append msg (b ∷ c ∷ d ∷ e ∷ f ∷ []) a))

  -- The loop with a full window that is no delimiter.
  sliding :
      (s msg : Bytes) (a b c d e f : ℕ)
      → bytes_eq (a ∷ b ∷ c ∷ d ∷ e ∷ f ∷ []) eom10 ≡ false
      → length msg ≤ max
      → taken (read10_loop max ending msg (a ∷ b ∷ c ∷ d ∷ e ∷ f ∷ []) true s)
        ≡ framed msg (a ∷ b ∷ c ∷ d ∷ e ∷ f ∷ s) (split_eom (a ∷ b ∷ c ∷ d ∷ e ∷ f ∷ s))
  sliding [] msg a b c d e f h l = at_end msg a b c d e f h l
  sliding (g ∷ s) msg a b c d e f h l =
      rw
        (
          slide s msg a b c d e f g,
          split_eom_pass a (b ∷ c ∷ d ∷ e ∷ f ∷ g ∷ s) (starts-bytes_eq a b c d e f (g ∷ s) ∙ h),
          framed_pass a msg (b ∷ c ∷ d ∷ e ∷ f ∷ g ∷ s),
        )
        (elim (Bool-cases (ltb max (length msg + 1))) [
          | inl over ↦ rw over (
              sym (
                framed_full (msg ++ a ∷ []) _ _ (omega (arith, ltb→lt, length-append msg (a ∷ [])))
                  (omega (arith, ltb→lt, length-append msg (a ∷ [])))))
          | inr fits ↦ rw fits (elim (Bool-cases (bytes_eq (b ∷ c ∷ d ∷ e ∷ f ∷ g ∷ []) eom10)) [
            | inl stop ↦ rw stop (
                sym (
                  stop_full s (msg ++ a ∷ []) b c d e f g stop
                    (ground (arith, length-append msg (a ∷ [])))))
            | inr go ↦ rw go (
                sliding s (msg ++ a ∷ []) b c d e f g go
                  (ground (arith, length-append msg (a ∷ []))))
          ])
        ])

  read10_short :
      (s : Bytes) → length s < 6 → taken (read10 max ending s) ≡ framed [] s (split_eom s)
  unfolding read10 read10_loop framed
  read10_short [] h = rw (split_eom_short [] h) (ground arith)
  read10_short (a ∷ []) h = rw (split_eom_short _ h) (ground arith)
  read10_short (a ∷ b ∷ []) h = rw (split_eom_short _ h) (ground arith)
  read10_short (a ∷ b ∷ c ∷ []) h = rw (split_eom_short _ h) (ground arith)
  read10_short (a ∷ b ∷ c ∷ d ∷ []) h = rw (split_eom_short _ h) (ground arith)
  read10_short (a ∷ b ∷ c ∷ d ∷ e ∷ []) h = rw (split_eom_short _ h) (ground arith)
  read10_short (a ∷ b ∷ c ∷ d ∷ e ∷ f ∷ s) h = absurd (omega arith)

  -- `read10` returns the input up to its first delimiter, and leaves what is behind it, if those
  -- bytes are no more than the limit; past the limit it fails with `too_large`. With no delimiter in
  -- the input the error is `too_large` where the limit and a window fit in the input and a byte is
  -- left, and else the error of the input's end: an EOF is `eof` on no byte, and then unexpected.
  pub read10_lem : (s : Bytes) → taken (read10 max ending s) ≡ framed [] s (split_eom s)
  read10_lem (a ∷ b ∷ c ∷ d ∷ e ∷ f ∷ s) =
      rw fill6 (elim (Bool-cases (bytes_eq (a ∷ b ∷ c ∷ d ∷ e ∷ f ∷ []) eom10)) [
        | inl stop ↦ rw stop (sym (stop_full s [] a b c d e f stop (omega arith)))
        | inr go ↦ rw go (sliding s [] a b c d e f go (omega arith))
      ])
  read10_lem [] = read10_short [] (omega arith)
  read10_lem s = read10_short s (omega arith)

  pub framed-Within :
      (s m rest : Bytes) (o : Option (Bytes × Bytes))
      → framed [] s o ≡ ok (m, rest)
      → length m ≤ max
  unfolding framed
  framed-Within s m rest none h = ground arith
  framed-Within s m rest (some (m', rest')) h = ground arith
