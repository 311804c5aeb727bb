-- ===== src/NcRpc/Decode/Documents.antt =====
-- internal/ncrpc/decode.go on the tokens of a whole document: what a decoder takes from an element tree.
use go_lab_netconf.Base.{
  ℕ, zero, suc, ◌<◌, Bytes, String, eq_iff, [], ◌∷◌, ◌++◌, Option, ◌≡◌, refl, append_assoc, arith,
  length, length-append,
}
use go_lab_netconf.NcRpc.{Filter, parsed}
use go_lab_netconf.NcRpc.Decode.{
  Start, start, end, chars, Tokens, XmlDecoder, Handler, children, each_child,
}

mutual
  pub data Content : Type 0 where
    done : Content
    text : String → Content → Content
    child : Elem → Content → Content

  pub data Elem : Type 0 where
    elem : Start → Content → Elem

unfoldable mutual
  pub content_tokens : Content → Tokens
  content_tokens done = []
  content_tokens (text s c) = chars s ∷ content_tokens c
  content_tokens (child e c) = elem_tokens e ++ content_tokens c

  pub elem_tokens : Elem → Tokens
  elem_tokens (elem t c) = start t ∷ (content_tokens c ++ end t.name ∷ [])

-- What encoding/xml documents of the parameters, on the tokens of an element whose start was read.
pub record ReadsContent (D : XmlDecoder) : Type 0 where
  pub text_of : Content → String
  pub inner_of : Content → Bytes
  pub filter_of : Start → Content → Filter
  pub skips :
      (name : String) (c : Content) (rest : Tokens)
      → D.skip (content_tokens c ++ end name ∷ rest) ≡ parsed rest
  pub reads_text :
      (name : String) (c : Content) (rest : Tokens)
      → D.decode_text (content_tokens c ++ end name ∷ rest) ≡ parsed (text_of c, rest)
  pub reads_inner :
      (name : String) (c : Content) (rest : Tokens)
      → D.decode_inner (content_tokens c ++ end name ∷ rest) ≡ parsed (inner_of c, rest)
  pub reads_filter :
      (t : Start) (c : Content) (rest : Tokens)
      → D.decode_filter t (content_tokens c ++ end t.name ∷ rest) ≡ parsed (filter_of t c, rest)

unfoldable pub fold_children : {S : Type 0} → (S → Elem → S) → S → Content → S
fold_children g s done = s
fold_children g s (text c k) = fold_children g s k
fold_children g s (child e k) = fold_children g (g s e) k

module _ (D : XmlDecoder) (ending : Option String) where
  -- The handler reads whole elements, as `g` says.
  abbrev pub IsHandler : {S : Type 0} → Handler S → (S → Elem → S) → Type 0
  IsHandler {S} f g =
      (s : S) (t : Start) (c : Content) (rest : Tokens)
      → f s t (content_tokens c ++ end t.name ∷ rest) ≡ parsed (g s (elem t c), rest)

  -- The decoders' loop goes through the children of an element, up to its end.
  children-content :
      {S : Type 0} (name : String) (f : Handler S) (g : S → Elem → S)
      → IsHandler f g
      → (n : ℕ) (c : Content) (s : S) (rest : Tokens) → length (content_tokens c) < n
      → children D ending n name f s (content_tokens c ++ end name ∷ rest)
        ≡ parsed (fold_children g s c, rest)
  unfolding children content_tokens fold_children
  children-content name f g h zero c s rest p = absurd (omega arith)
  children-content name f g h (suc n) done s rest p = rw ((eq_iff name name).1 refl) refl
  children-content name f g h (suc n) (text k c) s rest p =
      children-content name f g h n c s rest (omega arith)
  children-content name f g h (suc n) (child (elem t k) c) s rest p =
      let behind = content_tokens c ++ end name ∷ rest in
      let inner = content_tokens k in
      let apart : ((inner ++ end t.name ∷ []) ++ content_tokens c) ++ end name ∷ rest
          ≡ inner ++ end t.name ∷ behind =
        simp append_assoc in
      let short : length (content_tokens c) < n = omega (
        arith,
        length-append (inner ++ end t.name ∷ []) (content_tokens c),
        length-append inner (end t.name ∷ []),
      ) in
      rw (apart, h s t k behind) (children-content name f g h n c (g s (elem t k)) rest short)

  pub each_child-content :
      {S : Type 0} (name : String) (f : Handler S) (g : S → Elem → S)
      → IsHandler f g
      → (c : Content) (s : S) (rest : Tokens)
      → each_child D ending name f s (content_tokens c ++ end name ∷ rest)
        ≡ parsed (fold_children g s c, rest)
  each_child-content name f g h c s rest =
      children-content name f g h (suc (length (content_tokens c ++ end name ∷ rest))) c s rest
        (omega (arith, length-append (content_tokens c) (end name ∷ rest)))
