-- ===== src/YangTree/Path/Reading.antt =====
-- internal/yangtree/path.go: what the readers of a path make of printed parts.
use go_lab_netconf.Base.{
  ℕ, Bytes, true, false, ◌||◌, Bool-cases, inl, inr, [], ◌∷◌, ◌++◌, ◌≡◌, refl, length, ◌==◌, All,
  append_assoc, arith,
}
use go_lab_netconf.Datastore.Yang.{ok}
use go_lab_netconf.YangTree.Path.{
  Key, Unicode, contains_byte, has_special, without_quotes, quote_key_value, is_head, is_tail,
  tail_run, read_ident, until_byte, read_quoted, read_bare, read_key_value, expect_byte,
  read_key_name, read_key,
}

-- The text begins with none of the bytes of a name.
abbrev pub Stops : Unicode → Bytes → Type 0
Stops U [] = Unit
Stops U (c ∷ s) = is_tail U c ≡ false

module _ (U : Unicode) where
  abbrev pub AllTail : Bytes → Type 0
  AllTail = All (λ c. is_tail U c ≡ true)

  -- A name as `readIdentAt` takes it.
  abbrev pub IsName : Bytes → Type 0
  IsName [] = ⊥
  IsName (c ∷ s) = (is_head U c ≡ true) × AllTail s

  tail_run-append : (s rest : Bytes) → AllTail s → Stops U rest → tail_run U (s ++ rest) ≡ (s, rest)
  unfolding tail_run
  tail_run-append [] [] p stop = refl
  tail_run-append [] (c ∷ rest) p stop = rw (tail_run, stop) refl
  tail_run-append (c ∷ s) rest (here, later) stop =
      rw (tail_run-append s rest later stop, here) refl

  pub read_ident-append :
      (s rest : Bytes) → IsName s → Stops U rest → read_ident U (s ++ rest) ≡ ok (s, rest)
  unfolding read_ident
  read_ident-append [] rest p stop = elim p [ ]
  read_ident-append (c ∷ s) rest (head, tail) stop =
      rw (tail_run-append s rest tail stop, head) refl

  pub until_byte-append :
      (q : ℕ) (s rest : Bytes)
      → contains_byte q s ≡ false
      → until_byte U q (s ++ q ∷ rest) ≡ (s, q ∷ rest)
  unfolding until_byte contains_byte
  until_byte-append q [] rest p = ground arith
  until_byte-append q (c ∷ s) rest p =
      let later = until_byte-append q s rest (ground arith) in
      let other_byte : (c == q) ≡ false = ground arith in rw (later, other_byte) refl

  without_quotes-eq : (s : Bytes) → contains_byte b'\'' s ≡ false → without_quotes s ≡ s
  unfolding without_quotes contains_byte
  without_quotes-eq [] p = refl
  without_quotes-eq (c ∷ s) p =
      let later = without_quotes-eq s (ground arith) in
      let other_byte : (c == b'\'') ≡ false = ground arith in rw (later, other_byte) refl

  plain-contains : (s : Bytes) → has_special s ≡ false → contains_byte b']' s ≡ false
  unfolding has_special contains_byte
  plain-contains [] p = refl
  plain-contains (c ∷ s) p = ground (arith, plain-contains s)

  quoted_read :
      (v rest : Bytes)
      → contains_byte b'\'' v ≡ false
      → read_key_value U (b'\'' ∷ (v ++ b'\'' ∷ rest)) ≡ ok (v, rest)
  unfolding read_key_value read_quoted
  quoted_read v rest p =
      let run = until_byte-append b'\'' v rest p in rw (read_quoted, run) (rw run refl)

  bare_read :
      (v rest : Bytes)
      → (length v == 0 || has_special v) ≡ false
      → read_key_value U (v ++ b']' ∷ rest) ≡ ok (v, b']' ∷ rest)
  unfolding read_key_value read_bare has_special
  bare_read [] rest p = ground arith
  bare_read (c ∷ s) rest p =
      let plain : has_special (c ∷ s) ≡ false = ground arith in
      let no_quote : (c == b'\'' || c == b'"') ≡ false = ground arith in
      let run = until_byte-append b']' (c ∷ s) rest (plain-contains (c ∷ s) plain) in
      let nonempty : (length (c ∷ s) == 0) ≡ false = ground arith in
      rw (read_key_value, no_quote, read_bare, run, nonempty) refl

  -- A value without a single quote is read back from its printed form.
  pub read_key_value-quote :
      (v rest : Bytes)
      → contains_byte b'\'' v ≡ false
      → read_key_value U (quote_key_value v ++ b']' ∷ rest) ≡ ok (v, b']' ∷ rest)
  unfolding quote_key_value
  read_key_value-quote v rest p = elim (Bool-cases (length v == 0 || has_special v)) [
    | inl quoted ↦
        rw
          (
            quote_key_value,
            quoted,
            without_quotes-eq v p,
            append_assoc v (b'\'' ∷ []) (b']' ∷ rest),
          )
          (quoted_read v (b']' ∷ rest) p)
    | inr plain ↦ rw (quote_key_value, plain) (bare_read v rest plain)
  ]

  abbrev pub IsKey : Key → Type 0
  IsKey k = IsName k.name × (contains_byte b'\'' k.value ≡ false)

  equals-Stops : (s : Bytes) → Stops U (b'=' ∷ s)
  unfolding is_tail
  equals-Stops s = refl

  pub read_key-print :
      (k : Key) (rest : Bytes)
      → IsKey k
      → read_key U (b'[' ∷ (k.name ++ (b'=' ∷ (quote_key_value k.value ++ (b']' ∷ rest)))))
        ≡ ok (k, rest)
  unfolding read_key read_key_name expect_byte
  read_key-print k rest (name, value) =
      let text = quote_key_value k.value ++ (b']' ∷ rest) in
      rw
        (
          read_key,
          read_key_name,
          read_ident-append k.name (b'=' ∷ text) name (equals-Stops text),
          read_key_value-quote k.value rest value,
        )
        refl
