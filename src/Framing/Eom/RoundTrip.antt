-- ===== src/Framing/Eom/RoundTrip.antt =====
-- What `read10` (reader.go) gives back of a message that `Write1_0` (framing.go) accepted.
use go_lab_netconf.Base.{
  ℕ, ◌≤◌, ◌≡◌, refl, ap, ◌∙◌, Bool, false, ◌||◌, [], ◌∷◌, ◌++◌, some, Bytes, length, length-append,
  append_assoc, arith, bytes_eq,
}
use go_lab_netconf.Framing.{
  Error, Result, ok, err, eom10, has_prefix, contains_eom, write10, max_message_size,
}
use go_lab_netconf.Framing.Reader.{read10}
use go_lab_netconf.Framing.Eom.{
  starts, split_eom, split_eom_pass, map_first, framed, taken, read10_lem,
}

-- "]]>", with which the delimiter begins and ends.
abbrev pub half_eom : Bytes
half_eom = b']' ∷ b']' ∷ b'>' ∷ []

-- `bytes.HasSuffix(s, half_eom)`
unfoldable pub ends_in_half : Bytes → Bool
ends_in_half [] = false
ends_in_half (x ∷ s) = bytes_eq (x ∷ s) half_eom || ends_in_half s

starts_inside :
    (x : ℕ) (m rest : Bytes)
    → has_prefix (x ∷ m) eom10 ≡ false
    → bytes_eq (x ∷ m) half_eom ≡ false
    → starts ((x ∷ m) ++ (eom10 ++ rest)) ≡ false
unfolding starts has_prefix bytes_eq
starts_inside x [] rest h k = ground arith
starts_inside x (a ∷ []) rest h k = ground arith
starts_inside x (a ∷ b ∷ []) rest h k = ground arith
starts_inside x (a ∷ b ∷ c ∷ []) rest h k = ground arith
starts_inside x (a ∷ b ∷ c ∷ d ∷ []) rest h k = ground arith
starts_inside x (a ∷ b ∷ c ∷ d ∷ e ∷ m) rest h k = ground arith

split_eom_eom : (rest : Bytes) → split_eom (eom10 ++ rest) ≡ some ([], rest)
unfolding split_eom starts has_prefix
split_eom_eom rest = refl

split_eom-append :
    (msg rest : Bytes)
    → contains_eom msg ≡ false
    → ends_in_half msg ≡ false
    → split_eom (msg ++ (eom10 ++ rest)) ≡ some (msg, rest)
unfolding contains_eom ends_in_half
split_eom-append [] rest h k = split_eom_eom rest
split_eom-append (x ∷ m) rest h k =
    split_eom_pass x (m ++ (eom10 ++ rest)) (starts_inside x m rest (ground arith) (ground arith))
    ∙ ap (map_first x) (split_eom-append m rest (ground arith) (ground arith))

starts_before :
    (x : ℕ) (m rest : Bytes)
    → has_prefix ((x ∷ m) ++ half_eom) eom10 ≡ false
    → starts ((x ∷ m) ++ (half_eom ++ (eom10 ++ rest))) ≡ false
unfolding starts has_prefix
starts_before x [] rest h = ground arith
starts_before x (a ∷ []) rest h = ground arith
starts_before x (a ∷ b ∷ []) rest h = ground arith
starts_before x (a ∷ b ∷ c ∷ []) rest h = ground arith
starts_before x (a ∷ b ∷ c ∷ d ∷ []) rest h = ground arith
starts_before x (a ∷ b ∷ c ∷ d ∷ e ∷ m) rest h = ground arith

split_eom_half :
    (m rest : Bytes)
    → contains_eom (m ++ half_eom) ≡ false
    → split_eom (m ++ (half_eom ++ (eom10 ++ rest))) ≡ some (m, half_eom ++ rest)
unfolding contains_eom
split_eom_half [] rest h = split_eom_eom (half_eom ++ rest)
split_eom_half (x ∷ m) rest h =
    split_eom_pass x (m ++ (half_eom ++ (eom10 ++ rest))) (starts_before x m rest (ground arith))
    ∙ ap (map_first x) (split_eom_half m rest (ground arith))

write10_accepts :
    (msg : Bytes) {frame : Bytes}
    → write10 msg ≡ ok frame
    → (contains_eom msg ≡ false) × (length msg ≤ max_message_size) × (msg ++ eom10 ≡ frame)
unfolding write10
write10_accepts msg h = ground arith

-- A successful read, from `taken`.
taken-ok : (r : Result Bytes × Bytes) (m rest : Bytes) → taken r ≡ ok (m, rest) → r ≡ (ok m, rest)
taken-ok (ok a, b) m rest h = ground arith
taken-ok (err e, b) m rest h = cc

module _ (ending : Error) where
  read10-split :
      (s m rest : Bytes)
      → split_eom s ≡ some (m, rest)
      → length m ≤ max_message_size
      → read10 max_message_size ending s ≡ (ok m, rest)
  unfolding framed
  read10-split s m rest h l =
      taken-ok _ m rest (read10_lem max_message_size ending s ∙ rw h (ground arith))

  -- A message that `Write1_0` accepts and that does not end in "]]>" is read back from its frame,
  -- whatever bytes follow, and those bytes are left.
  pub read10-write10 :
      (msg rest : Bytes) {frame : Bytes}
      → write10 msg ≡ ok frame
      → ends_in_half msg ≡ false
      → read10 max_message_size ending (frame ++ rest) ≡ (ok msg, rest)
  read10-write10 msg rest h k =
      let (clean, fits, e) = write10_accepts msg h in
      rw (← e, append_assoc) (read10-split _ msg rest (split_eom-append msg rest clean k) fits)

  -- A message that `Write1_0` accepts and that ends in "]]>" is read back without that end, and the
  -- end is left in front of the bytes that follow.
  pub read10-write10_half :
      (m rest : Bytes) {frame : Bytes}
      → write10 (m ++ half_eom) ≡ ok frame
      → read10 max_message_size ending (frame ++ rest) ≡ (ok m, half_eom ++ rest)
  read10-write10_half m rest h =
      let (clean, fits, e) = write10_accepts (m ++ half_eom) h in
      rw (← e, append_assoc, append_assoc)
        (read10-split _ m (half_eom ++ rest) (split_eom_half m rest clean)
          (omega (arith, length-append m half_eom)))
