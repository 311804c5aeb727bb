-- ===== src/YangTree/Path/RoundTrip.antt =====
-- internal/yangtree/path.go: parsing what was printed.
use go_lab_netconf.Base.{
  ℕ, zero, suc, ◌≤◌, ◌<◌, Bytes, true, false, List, [], ◌∷◌, ◌++◌, ◌≡◌, ◌≢◌, refl, sym, ap, subst,
  ◌∙◌, length, ◌==◌, All, append_assoc, append-nil, arith, length-append,
}
use go_lab_netconf.Datastore.Yang.{ok, ◌>>=◌}
use go_lab_netconf.YangTree.Path.{
  Key, Segment, InstancePath, Unicode, contains_byte, quote_key_value, print_keys, print_segments,
  print, is_tail, is_ident, until_byte, is_head, starts_with, read_keys, next_segment,
  read_segments, parse_rest, parse_trimmed, parse_path,
}
use go_lab_netconf.YangTree.Path.Reading.{
  Stops, IsName, IsKey, read_ident-append, read_key-print, until_byte-append,
}

module _ (U : Unicode) where
  print_keys-append :
      (k : Key) (ks : List Key) (rest : Bytes)
      → print_keys (k ∷ ks) ++ rest
        ≡ b'[' ∷ (k.name ++ (b'=' ∷ (quote_key_value k.value ++ (b']' ∷ (print_keys ks ++ rest)))))
  unfolding print_keys
  print_keys-append k ks rest = simp append_assoc

  -- Nothing, or a slash.
  abbrev Ends : Bytes → Type 0
  Ends [] = Unit
  Ends (c ∷ s) = c ≡ b'/'

  Ends-no_bracket : (s : Bytes) → Ends s → starts_with U b'[' s ≡ false
  unfolding starts_with
  Ends-no_bracket [] p = refl
  Ends-no_bracket (c ∷ s) p = rw p refl

  Ends-Stops : (s : Bytes) → Ends s → Stops U s
  unfolding is_tail
  Ends-Stops [] p = _
  Ends-Stops (c ∷ s) p = rw p refl

  length-print_keys : (ks : List Key) → length ks ≤ length (print_keys ks)
  unfolding print_keys
  length-print_keys [] = omega arith
  length-print_keys (k ∷ ks) = omega (
    arith,
    length-append k.name (b'=' ∷ (quote_key_value k.value ++ (b']' ∷ print_keys ks))),
    length-append (quote_key_value k.value) (b']' ∷ print_keys ks),
    length-print_keys ks,
  )

  read_keys-print :
      (fuel : ℕ) (ks : List Key) (rest : Bytes)
      → length ks < fuel
      → All (IsKey U) ks
      → Ends rest
      → read_keys U fuel (print_keys ks ++ rest) ≡ ok (ks, rest)
  unfolding read_keys
  read_keys-print zero ks rest p keys ends = absurd (omega arith)
  read_keys-print (suc fuel) [] rest p keys ends =
      unfold print_keys in rw (read_keys, Ends-no_bracket rest ends) refl
  read_keys-print (suc fuel) (k ∷ ks) rest p (key, keys) ends =
      let text = print_keys ks ++ rest in
      let later = read_keys-print fuel ks rest (omega arith) keys ends in
      let here = read_key-print U k text key in
      let read : read_keys U (suc fuel)
            (b'[' ∷ (k.name ++ (b'=' ∷ (quote_key_value k.value ++ (b']' ∷ text)))))
          ≡ ok (k ∷ ks, rest) =
        rw (read_keys, here, later) refl in
      ap (read_keys U (suc fuel)) (print_keys-append k ks rest) ∙ read

  abbrev pub IsSegment : Segment → Type 0
  IsSegment seg = IsName U seg.name × All (IsKey U) seg.keys

  keys_Stop : (ks : List Key) (rest : Bytes) → Ends rest → Stops U (print_keys ks ++ rest)
  unfolding print_keys is_tail
  keys_Stop [] rest ends = Ends-Stops rest ends
  keys_Stop (k ∷ ks) rest ends = refl

  name-no_slash : (s rest : Bytes) → IsName U s → starts_with U b'/' (s ++ rest) ≡ false
  unfolding starts_with is_head
  name-no_slash [] rest p = elim p [ ]
  name-no_slash (c ∷ s) rest (head, tail) = ground arith

  read_segment :
      (fuel : ℕ) (seg : Segment) (tail : Bytes)
      → IsSegment seg
      → Ends tail
      → read_segments U (suc fuel) (seg.name ++ (print_keys seg.keys ++ tail))
        ≡ (next_segment U tail (read_segments U fuel) >>= λ segs. ok (seg ∷ segs))
  unfolding read_segments
  read_segment fuel seg tail (name, keys) ends =
      let text = print_keys seg.keys ++ tail in
      let enough : length seg.keys < suc (length text) =
        omega (arith, length-append (print_keys seg.keys) tail, length-print_keys seg.keys) in
      rw
        (
          read_segments,
          name-no_slash seg.name text name,
          read_ident-append U seg.name text name (keys_Stop seg.keys tail ends),
          read_keys-print (suc (length text)) seg.keys tail enough keys ends,
        )
        refl

  name-nonempty : (s rest : Bytes) → IsName U s → (c : ℕ) × (t : Bytes) × (s ++ rest ≡ c ∷ t)
  name-nonempty [] rest p = elim p [ ]
  name-nonempty (c ∷ s) rest p = (c, s ++ rest, refl)

  segments-nonempty :
      (seg : Segment) (segs : List Segment)
      → IsSegment seg
      → (c : ℕ) × (t : Bytes) × (print_segments (seg ∷ segs) ≡ c ∷ t)
  unfolding print_segments
  segments-nonempty seg [] (name, keys) = name-nonempty seg.name (print_keys seg.keys) name
  segments-nonempty seg (seg' ∷ segs) (name, keys) =
      name-nonempty seg.name (print_keys seg.keys ++ (b'/' ∷ print_segments (seg' ∷ segs))) name

  read_further :
      (fuel : ℕ) (seg : Segment) (segs : List Segment) (s : Bytes) (c : ℕ) (t : Bytes)
      → s ≡ c ∷ t
      → read_segments U (suc fuel) s ≡ ok segs
      → (next_segment U (b'/' ∷ s) (read_segments U (suc fuel)) >>= λ segs. ok (seg ∷ segs))
        ≡ ok (seg ∷ segs)
  read_further fuel seg segs s c t text later =
      let read : read_segments U (suc fuel) (c ∷ t) ≡ ok segs =
        ap (read_segments U (suc fuel)) (sym text) ∙ later in
      rw text (rw read refl)

  read_segments-print :
      (fuel : ℕ) (seg : Segment) (segs : List Segment)
      → length segs ≤ fuel
      → IsSegment seg
      → All IsSegment segs
      → read_segments U (suc fuel) (print_segments (seg ∷ segs)) ≡ ok (seg ∷ segs)
  unfolding print_segments
  read_segments-print fuel seg [] p here rest =
      rw (← append-nil (print_keys seg.keys)) (read_segment fuel seg [] here _)
  read_segments-print zero seg (seg' ∷ segs) p here rest = absurd (omega arith)
  read_segments-print (suc fuel) seg (seg' ∷ segs) p here (next, rest) =
      let (c, t, text) = segments-nonempty seg' segs next in
      let later = read_segments-print fuel seg' segs (omega arith) next rest in
      read_segment (suc fuel) seg (b'/' ∷ print_segments (seg' ∷ segs)) here refl
      ∙ read_further fuel seg (seg' ∷ segs) (print_segments (seg' ∷ segs)) c t text later

  length-print_segments :
      (segs : List Segment) → All IsSegment segs → length segs ≤ length (print_segments segs)
  unfolding print_segments
  length-print_segments [] p = omega arith
  length-print_segments (seg ∷ []) (here, rest) =
      let (c, t, text) = segments-nonempty seg [] here in
      unfold print_segments in omega (arith, ap length text)
  length-print_segments (seg ∷ seg' ∷ segs) (here, rest) = omega (
    arith,
    length-append seg.name (print_keys seg.keys ++ (b'/' ∷ print_segments (seg' ∷ segs))),
    length-append (print_keys seg.keys) (b'/' ∷ print_segments (seg' ∷ segs)),
    length-print_segments (seg' ∷ segs) rest,
  )

  -- The module's name as `ParsePath` takes it, and segments that are names with keys without quotes.
  abbrev pub IsPrintable : InstancePath → Type 0
  IsPrintable p =
      (p.module_name ≢ [])
      × (contains_byte b':' p.module_name ≡ false)
      × (is_ident U p.module_name ≡ true)
      × All IsSegment p.segments

  parse_some :
      (s name text : Bytes) (segs : List Segment) (c : ℕ) (t : Bytes)
      → text ≡ c ∷ t
      → read_segments U (suc (length text)) text ≡ ok segs
      → parse_rest U s name text ≡ ok (record { module_name = name; segments = segs })
  unfolding parse_rest
  parse_some s name text segs c t eq read =
      let read' : read_segments U (suc (length (c ∷ t))) (c ∷ t) ≡ ok segs =
        ap (λ u. read_segments U (suc (length u)) u) (sym eq) ∙ read in
      rw eq (rw read' refl)

  parse_rest-print :
      (s name : Bytes) (segs : List Segment)
      → All IsSegment segs
      → parse_rest U s name (print_segments segs)
        ≡ ok (record { module_name = name; segments = segs })
  unfolding parse_rest
  parse_rest-print s name [] p = unfold print_segments in refl
  parse_rest-print s name (seg ∷ segs) (here, rest) =
      let (c, t, text) = segments-nonempty seg segs here in
      let bound = length-print_segments (seg ∷ segs) (here, rest) in
      let read =
        read_segments-print (length (print_segments (seg ∷ segs))) seg segs (omega arith) here
          rest in
      parse_some s name (print_segments (seg ∷ segs)) (seg ∷ segs) c t text read

  parse_split :
      (c : ℕ) (t name rest : Bytes)
      → until_byte U b':' (c ∷ t) ≡ (name, b':' ∷ rest)
      → (length name == 0) ≡ false
      → is_ident U name ≡ true
      → parse_trimmed U (c ∷ t) ≡ parse_rest U (c ∷ t) name rest
  unfolding parse_trimmed
  parse_split c t name rest run nonempty ident =
      rw (parse_trimmed, run) (rw run (rw (nonempty, ident) refl))

  parse_trimmed-print :
      (name rest : Bytes)
      → name ≢ []
      → contains_byte b':' name ≡ false
      → is_ident U name ≡ true
      → parse_trimmed U (name ++ (b':' ∷ rest)) ≡ parse_rest U (name ++ (b':' ∷ rest)) name rest
  parse_trimmed-print [] rest p colon ident = absurd (p refl)
  parse_trimmed-print (c ∷ name) rest p colon ident =
      parse_split c (name ++ (b':' ∷ rest)) (c ∷ name) rest
        (until_byte-append U b':' (c ∷ name) rest colon) (ground arith) ident

  parse_named :
      (name : Bytes) (segs : List Segment) (p : InstancePath)
      → p ≡ record { module_name = name; segments = segs }
      → IsPrintable p
      → parse_trimmed U (print p) ≡ ok p
  unfolding print
  parse_named [] segs p eq (nonempty, colon, ident, each) =
      absurd (nonempty (ap (λ q. q.module_name) eq))
  parse_named (c ∷ name) segs p eq printable =
      let (nonempty, colon, ident, each) = subst IsPrintable eq printable in
      let text = (c ∷ name) ++ (b':' ∷ print_segments segs) in
      let named : (length (c ∷ name) == 0) ≡ false = ground arith in
      rw (eq, named)
        (parse_trimmed-print (c ∷ name) (print_segments segs) nonempty colon ident
          ∙ parse_rest-print text (c ∷ name) segs each)

  -- A path of names whose keys have no single quote is parsed back from its printed form, when trimming
  -- leaves that form as it is.
  pub parse_path-print :
      (p : InstancePath)
      → IsPrintable p
      → U.trim_space (print p) ≡ print p
      → parse_path U (print p) ≡ ok p
  unfolding parse_path
  parse_path-print p printable trimmed =
      ap (parse_trimmed U) trimmed ∙ parse_named p.module_name p.segments p refl printable
