-- ===== src/Framing/Chunks/Bounds.antt =====
-- `read11` (reader.go) ends, and no message that a reader returns is past the reader's limit.
use go_lab_netconf.Base.{
  ℕ, zero, suc, ◌+◌, ◌-◌, ◌*◌, ◌≤◌, ◌<◌, ◌≡◌, refl, ◌∙◌, sym, ◌||◌, Bool, true, false, [], ◌∷◌,
  Option, some, Bytes, length, length-append, arith, ltb, ◌==◌, if◌then◌else◌,
}
use go_lab_netconf.Framing.{Error, Result, ok, err}
use go_lab_netconf.Framing.Reader.{
  Reader, read_byte, read_full, expect, read_size, finish_chunks, read_body, read_chunk,
  read_header, read_round, Read, continue, or_unexpected, Round, finished, more, read11_loop,
  read11, read10, read_message,
}
use go_lab_netconf.Framing.Chunks.{loop_more, loop_finished, loop_failed}
use go_lab_netconf.Framing.Eom.{split_eom, framed, framed-Within, taken, read10_lem}

-- A message that was returned is no longer than the limit.
abbrev pub Within : ℕ → Result Bytes → Type 0
Within max (ok m) = length m ≤ max
Within max (err e) = Unit {0}

-- The bytes that a read leaves, and what a round may return.
module _ (max : ℕ) (ending : Error) where
  read_byte-le : (s : Bytes) → length (read_byte max ending s).1 ≤ length s
  unfolding read_byte
  read_byte-le [] = omega arith
  read_byte-le (b ∷ s) = omega arith

  expect-le : (want : ℕ) (s : Bytes) → length (expect max ending want s).1 ≤ length s
  unfolding expect read_byte
  expect-le want [] = omega arith
  expect-le want (b ∷ s) = ground arith

  read_size-le : (d size : ℕ) (s : Bytes) → length (read_size max ending d size s).1 ≤ length s
  unfolding read_size
  read_size-le d size [] = omega arith
  read_size-le d size (b ∷ s) = ground (arith, read_size-le (d + 1) (size * 10 + (b - b'0')) s)

  -- A full read of `n` bytes, and no more than the input.
  read_full-le : (n : ℕ) (s : Bytes) → length (read_full max ending n s).1 ≤ length s
  unfolding read_full
  read_full-le zero s = omega arith
  read_full-le (suc n) [] = omega arith
  read_full-le (suc n) (b ∷ s) = omega (arith, read_full-le n s)

  abbrev Sized : ℕ → Result Bytes → Type 0
  Sized n (ok c) = length c ≡ n
  Sized n (err e) = Unit {0}

  read_full-Sized : (n : ℕ) (s : Bytes) → Sized n (read_full max ending n s).0
  unfolding read_full
  read_full-Sized zero s = refl
  read_full-Sized (suc n) [] = tt
  read_full-Sized (suc n) (b ∷ s) = ground (arith, read_full-Sized n s)

  -- What is kept of `msg` in a round: the finished message, or one within the limit.
  abbrev Kept : Bytes → Result Round → Type 0
  Kept msg (ok (finished m)) = m ≡ msg
  Kept msg (ok (more m)) = length m ≤ max
  Kept msg (err e) = Unit {0}

  -- A round on the bytes `s`: what it returns, and that it leaves no more bytes than it was given.
  abbrev IsRound : Bytes → Bytes → Result Round × Bytes → Type 0
  IsRound msg s p = Kept msg p.0 × (length p.1 ≤ length s)

  IsRound-if :
      (msg s : Bytes) (b : Bool) (m n : Read Round)
      → (b ≡ true → IsRound msg s (m s))
      → (b ≡ false → IsRound msg s (n s))
      → IsRound msg s ((if b then m else n) s)
  IsRound-if msg s true m n hm hn = hm refl
  IsRound-if msg s false m n hm hn = hn refl

  IsRound-continue :
      {A : Type 0} (msg s rest : Bytes) (r : Result A) (f : A → Read Round)
      → length rest ≤ length s
      → ((a : A) → r ≡ ok a → IsRound msg rest (f a rest))
      → IsRound msg s (continue (or_unexpected r) f rest)
  IsRound-continue msg s rest (ok a) f h k = let (kept, le) = k a refl in (kept, omega arith)
  IsRound-continue msg s rest (err e) f h k = (tt, omega arith)

  IsRound-continue_plain :
      {A : Type 0} (msg s rest : Bytes) (r : Result A) (f : A → Read Round)
      → length rest ≤ length s
      → ((a : A) → r ≡ ok a → IsRound msg rest (f a rest))
      → IsRound msg s (continue r f rest)
  IsRound-continue_plain msg s rest (ok a) f h k = let (kept, le) = k a refl in (kept, omega arith)
  IsRound-continue_plain msg s rest (err e) f h k = (tt, omega arith)

  read_body-IsRound :
      (msg : Bytes) (size : ℕ) (s : Bytes) → IsRound msg s (read_body max ending msg size s)
  unfolding read_body
  read_body-IsRound msg size s =
      IsRound-if msg s (ltb size 1) _ _ (λ _. (tt, omega arith))
        λ _.
          IsRound-if msg s (ltb max (length msg + size)) _ _ (λ _. (tt, omega arith))
            λ fits.
              let (r, rest) = read_full max ending size s in
              IsRound-continue msg s rest r _ (read_full-le size s) λ c e. (
                let n : length c ≡ size = rw e at (read_full-Sized size s) in
                    ground (arith, length-append msg c),
                omega arith,
              )

  read_chunk-IsRound :
      (msg : Bytes) (b : ℕ) (s : Bytes) → IsRound msg s (read_chunk max ending msg b s)
  unfolding read_chunk
  read_chunk-IsRound msg b s =
      IsRound-if msg s (ltb b b'1' || ltb b'9' b) _ _ (λ _. (tt, omega arith))
        λ _.
          let (r, rest) = read_size max ending 1 (b - b'0') s in
          IsRound-continue_plain msg s rest r _ (read_size-le 1 (b - b'0') s)
            λ size _. read_body-IsRound msg size rest

  finish_chunks-IsRound :
      (chunks : ℕ) (msg s : Bytes) → IsRound msg s (finish_chunks max ending chunks msg s)
  unfolding finish_chunks
  finish_chunks-IsRound chunks msg s =
      let (r, rest) = expect max ending b'\n' s in
      IsRound-continue msg s rest r _ (expect-le b'\n' s) λ _ _.
        IsRound-if msg rest (chunks == 0) _ _ (λ _. (tt, omega arith)) (λ _. (refl, omega arith))

  read_header-IsRound :
      (chunks : ℕ) (msg s : Bytes) → IsRound msg s (read_header max ending chunks msg s)
  unfolding read_header
  read_header-IsRound chunks msg s =
      let (r, rest) = expect max ending b'#' s in
      IsRound-continue msg s rest r _ (expect-le b'#' s) λ _ _.
        let (r', rest') = read_byte max ending rest in
        IsRound-continue msg rest rest' r' _ (read_byte-le rest) λ b _.
          IsRound-if msg rest' (b == b'#') _ _ (λ _. finish_chunks-IsRound chunks msg rest')
            (λ _. read_chunk-IsRound msg b rest')

  read_round-IsRound :
      (chunks : ℕ) (msg : Bytes) (b : ℕ) (s : Bytes)
      → IsRound msg s (read_round max ending chunks msg (b ∷ s))
  unfolding read_round
  read_round-IsRound chunks msg b s = ground (arith, read_header-IsRound chunks msg s)

  abbrev Ends : Option (Result Bytes × Bytes) → Type 0
  Ends o = (p : Result Bytes × Bytes) × (o ≡ some p) × Within max p.0

  -- A round ends the loop, or hands it fewer bytes.
  after_round :
      (fuel chunks : ℕ) (msg s input : Bytes) (q : Result Round × Bytes)
      → read_round max ending chunks msg input ≡ q
      → IsRound msg s q
      → length msg ≤ max
      → ((m rest : Bytes)
          → length rest ≤ length s
          → length m ≤ max
          → Ends (read11_loop max ending fuel (chunks + 1) m rest))
      → Ends (read11_loop max ending (suc fuel) chunks msg input)
  after_round fuel chunks msg s input (ok (finished m), rest) e k fits next =
      ((ok m, rest), loop_finished max ending fuel chunks msg input m rest e, rw k.0 fits)
  after_round fuel chunks msg s input (ok (more m), rest) e k fits next =
      let (p, e', within) = next m rest k.1 k.0 in
      (p, loop_more max ending fuel chunks msg input m rest e ∙ e', within)
  after_round fuel chunks msg s input (err x, rest) e k fits next =
      ((err x, rest), loop_failed max ending fuel chunks msg input rest x e, tt)

  -- With more fuel than bytes the loop ends, and a message that it returns is within the limit.
  loop_total :
      (fuel chunks : ℕ) (msg s : Bytes)
      → length s < fuel
      → length msg ≤ max
      → Ends (read11_loop max ending fuel chunks msg s)
  loop_total zero chunks msg s lt fits = absurd (omega arith)
  loop_total (suc fuel) chunks msg [] lt fits =
      (unfold read_round in ((_, []), loop_failed max ending fuel chunks msg [] [] _ refl, tt))
  loop_total (suc fuel) chunks msg (b ∷ s) lt fits =
      after_round fuel chunks msg s (b ∷ s) _ refl (read_round-IsRound chunks msg b s) fits
        λ m rest le fits'. loop_total fuel (chunks + 1) m rest (omega arith) fits'

  -- `read11` ends by a round of its loop, never for want of fuel, and a message that it returns is
  -- no longer than the limit.
  pub read11_total :
      (s : Bytes)
      → (p : Result Bytes × Bytes) × (read11_loop max ending (suc (length s)) 0 [] s ≡ some p)
        × (read11 max ending s ≡ p)
        × Within max p.0
  unfolding read11
  read11_total s =
      let (p, e, within) = loop_total (suc (length s)) 0 [] s (omega arith) (omega arith) in
      (p, e, ground arith, within)

  read10-Within : (s : Bytes) → Within max (read10 max ending s).0
  read10-Within s = of_taken (read10 max ending s) (read10_lem max ending s)
    where
      of_taken :
          (p : Result Bytes × Bytes)
          → taken p ≡ framed max ending [] s (split_eom s)
          → Within max p.0
      of_taken (ok m, rest) e = framed-Within max ending s m rest (split_eom s) (sym e)
      of_taken (err x, rest) e = tt

  read11-Within : (s : Bytes) → Within max (read11 max ending s).0
  read11-Within s = let (p, e, e', within) = read11_total s in rw e' within

-- A message that a reader returns, in either framing, is no longer than the reader's limit. The
-- reader's framing, limit and end of input stay as they were.
pub read_message_bounds :
    (r : Reader)
    → Within r.max (read_message r).0
      × ((read_message r).1.ver ≡ r.ver)
      × ((read_message r).1.max ≡ r.max)
      × ((read_message r).1.ending ≡ r.ending)
unfolding read_message
read_message_bounds r =
    ground (arith, read10-Within r.max r.ending r.input, read11-Within r.max r.ending r.input)
