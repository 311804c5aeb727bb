-- ===== src/NcRpc/Decode/Requests.antt =====
-- internal/ncrpc/decode.go on an rpc document: the request that it is read as.
use go_lab_netconf.Base.{
  String, str_eq, Bool, true, false, ◌||◌, [], ◌∷◌, ◌++◌, Option, none, some, ◌≡◌, refl, ap, ◌∙◌,
  arith, if◌then◌else◌,
}
use go_lab_netconf.NcRpc.{Rpc, Message, Parsed, parsed, failed, ◌>>=◌}
use go_lab_netconf.NcRpc.Decode.{
  Start, end, Tokens, XmlDecoder, message_id_of, empty_rpc, datastore_child, decode_datastore,
  typed_filter, op_child, decode_op, rpc_child, decode_rpc, decode, decode_root, no_message,
}
use go_lab_netconf.NcRpc.Decode.Documents.{
  Content, done, text, child, Elem, elem, content_tokens, elem_tokens, ReadsContent, fold_children,
  IsHandler, each_child-content,
}

-- The datastore that a source or a target names: the last child that is one, or url.
unfoldable pub store_of : String → Elem → String
store_of name (elem t c) =
    if str_eq t.name "running"
      || str_eq t.name "candidate"
      || str_eq t.name "startup"
      || str_eq t.name "url"
    then t.name
    else name

-- The first child element.
unfoldable pub first_child : Content → Option Elem
first_child done = none
first_child (text s c) = first_child c
first_child (child e c) = some e

if_both :
    {S : Type 0} (b : Bool) {x y : Parsed (S × Tokens)} {u v : S} {rest : Tokens}
    → x ≡ parsed (u, rest)
    → y ≡ parsed (v, rest)
    → (if b then x else y) ≡ parsed (if b then u else v, rest)
if_both true p q = p
if_both false p q = q

-- A read that goes on with what it found.
then_reads_at :
    {A S : Type 0} (m : Parsed (A × Tokens)) {a : A} {rest : Tokens}
    → m ≡ parsed (a, rest)
    → (g : A → S) → ◌>>=◌ {B = S × Tokens} m (λ d. parsed (g d.0, d.1)) ≡ parsed (g a, rest)
then_reads_at m p g = rw p refl

abbrev skipped : {S : Type 0} → S → Parsed Tokens → Parsed (S × Tokens)
skipped {S} s m = ◌>>=◌ {B = S × Tokens} m (λ rest. parsed (s, rest))

abbrev is_store : String → Bool
is_store name =
    str_eq name "running" || str_eq name "candidate" || str_eq name "startup" || str_eq name "url"

module _ {D : XmlDecoder} (ending : Option String) (L : ReadsContent D) where
  open L use {text_of, inner_of, filter_of, skips, reads_text, reads_inner, reads_filter}

  -- What an operation's child says of the request.
  unfoldable pub with_argument : Rpc → Elem → Rpc
  unfolding fold_children store_of
  with_argument r (elem t c) =
      if str_eq t.name "source"
      then record r { source = fold_children store_of "" c }
      else if str_eq t.name "target"
      then record r { target = fold_children store_of "" c }
      else if str_eq t.name "filter"
      then record r { filter = some (typed_filter (filter_of t c)) }
      else if str_eq t.name "default-operation"
      then record r { default_op = text_of c }
      else if str_eq t.name "config"
      then record r { config = inner_of c }
      else if str_eq t.name "session-id"
      then record r { session_id = text_of c }
      else if str_eq t.name "stream"
      then record r { stream = text_of c }
      else r

  -- The request of an rpc element whose operation is its first child.
  unfoldable pub request_of : Start → Elem → Rpc
  unfolding fold_children with_argument
  request_of t (elem op c) =
      let r = record empty_rpc {
        message_id = message_id_of "" t.attributes;
        name = op.name;
        namespace = op.space;
      } in
      fold_children with_argument r c

  store_child : IsHandler D ending (datastore_child D ending) store_of
  unfolding datastore_child store_of
  store_child s t c rest =
      if_both (is_store t.name) (ap (skipped t.name) (skips t.name c rest))
        (ap (skipped s) (skips t.name c rest))

  store_read :
      (name : String) (c : Content) (rest : Tokens)
      → decode_datastore D ending name (content_tokens c ++ end name ∷ rest)
        ≡ parsed (fold_children store_of "" c, rest)
  unfolding decode_datastore
  store_read name c rest =
      each_child-content D ending name (datastore_child D ending) store_of store_child c "" rest

  argument_child : IsHandler D ending (op_child D ending) with_argument
  unfolding op_child with_argument
  argument_child r t c rest =
      let ts = content_tokens c ++ end t.name ∷ rest in
      let store = then_reads_at (decode_datastore D ending t.name ts) (store_read t.name c rest) in
      let leaf = then_reads_at (D.decode_text ts) (reads_text t.name c rest) in
      if_both (str_eq t.name "source") (store (λ d. record r { source = d })) (
        if_both (str_eq t.name "target") (store (λ d. record r { target = d })) (
          if_both (str_eq t.name "filter")
            (then_reads_at (D.decode_filter t ts) (reads_filter t c rest)
              (λ d. record r { filter = some (typed_filter d) }))
            (if_both (str_eq t.name "default-operation") (leaf (λ d. record r { default_op = d })) (
              if_both (str_eq t.name "config")
                (then_reads_at (D.decode_inner ts) (reads_inner t.name c rest)
                  (λ d. record r { config = d }))
                (if_both (str_eq t.name "session-id") (leaf (λ d. record r { session_id = d })) (
                  if_both (str_eq t.name "stream") (leaf (λ d. record r { stream = d }))
                    (ap (skipped r) (skips t.name c rest))))))))

  op_read :
      (r : Rpc) (t : Start) (c : Content) (rest : Tokens)
      → decode_op D ending t r (content_tokens c ++ end t.name ∷ rest)
        ≡ parsed
            (fold_children with_argument (record r { name = t.name; namespace = t.space }) c, rest)
  unfolding decode_op
  op_read r t c rest =
      each_child-content D ending t.name (op_child D ending) with_argument argument_child c
        (record r { name = t.name; namespace = t.space }) rest

  with_argument-name : (r : Rpc) (e : Elem) → (with_argument r e).name ≡ r.name
  unfolding with_argument
  with_argument-name r (elem t c) = ground arith

  arguments-name : (r : Rpc) (c : Content) → (fold_children with_argument r c).name ≡ r.name
  unfolding fold_children
  arguments-name r done = refl
  arguments-name r (text s c) = arguments-name r c
  arguments-name r (child e c) = arguments-name (with_argument r e) c ∙ with_argument-name r e

  -- The operation is read from the child that comes first; there is none after it.
  with_operation : Rpc → Elem → Rpc
  with_operation r (elem t c) =
      if str_eq r.name ""
      then fold_children with_argument (record r { name = t.name; namespace = t.space }) c
      else r

  operation_child : IsHandler D ending (rpc_child D ending) with_operation
  unfolding rpc_child with_operation
  operation_child r t c rest =
      if_both (str_eq r.name "") (op_read r t c rest) (ap (skipped r) (skips t.name c rest))

  operation_later :
      (r : Rpc) (c : Content) → str_eq r.name "" ≡ false → fold_children with_operation r c ≡ r
  unfolding fold_children with_operation
  operation_later r done p = refl
  operation_later r (text s c) p = operation_later r c p
  operation_later r (child (elem t k) c) p = rw p (operation_later r c p)

  operation_first :
      (r : Rpc) (c : Content) (op : Elem)
      → first_child c ≡ some op
      → str_eq (with_operation r op).name "" ≡ false
      → fold_children with_operation r c ≡ with_operation r op
  unfolding fold_children first_child
  operation_first r done op p n = ground arith
  operation_first r (text s c) op p n = operation_first r c op p n
  operation_first r (child e c) op p n =
      let same : e ≡ op = ground arith in rw same (operation_later (with_operation r op) c n)

  operation_none :
      (r : Rpc) (c : Content) → first_child c ≡ none → fold_children with_operation r c ≡ r
  unfolding fold_children first_child
  operation_none r done p = refl
  operation_none r (text s c) p = operation_none r c p
  operation_none r (child e c) p = ground arith

  -- An element has a name.
  abbrev pub IsNamed : Elem → Type 0
  IsNamed (elem t c) = str_eq t.name "" ≡ false

  abbrev started : Start → Rpc
  started t = record empty_rpc { message_id = message_id_of "" t.attributes }

  named_operation :
      (t : Start) (op : Elem) → IsNamed op → with_operation (started t) op ≡ request_of t op
  unfolding with_operation request_of
  named_operation t (elem u k) p = refl

  request-name : (t : Start) (op : Elem) → IsNamed op → str_eq (request_of t op).name "" ≡ false
  unfolding request_of
  request-name t (elem u k) p =
      ap (λ n. str_eq n "")
        (arguments-name (record (started t) { name = u.name; namespace = u.space }) k)
      ∙ p

  request_read :
      (t : Start) (c : Content) (op : Elem) (rest : Tokens)
      → first_child c ≡ some op
      → IsNamed op
      → decode_rpc D ending t (content_tokens c ++ end t.name ∷ rest)
        ≡ parsed (request_of t op, rest)
  unfolding decode_rpc
  request_read t c op rest p n =
      let same = named_operation t op n in
      let name = ap (λ r. str_eq r.name "") same ∙ request-name t op n in
      rw
        (
          each_child-content D ending t.name (rpc_child D ending) with_operation operation_child c
              (started t) rest,
          operation_first (started t) c op p name,
          same,
          request-name t op n,
        )
        refl

  nothing_read :
      (t : Start) (c : Content) (rest : Tokens)
      → first_child c ≡ none
      → decode_rpc D ending t (content_tokens c ++ end t.name ∷ rest)
        ≡ failed "ncrpc: missing rpc operation"
  unfolding decode_rpc
  nothing_read t c rest p =
      rw
        (
          each_child-content D ending t.name (rpc_child D ending) with_operation operation_child c
              (started t) rest,
          operation_none (started t) c p,
        )
        refl

  -- An rpc document whose first child element is an operation, whatever else stands in it, is the
  -- request of that operation, with the arguments that its children give, the last of each kind.
  pub decode-request :
      (unexpected : String → String) (t : Start) (c : Content) (op : Elem)
      → t.name ≡ "rpc"
      → first_child c ≡ some op
      → IsNamed op
      → decode D ending unexpected (elem_tokens (elem t c))
        ≡ parsed (record no_message { rpc = some (request_of t op) })
  unfolding decode decode_root elem_tokens
  decode-request unexpected t c op root p n =
      let not_hello : str_eq t.name "hello" ≡ false = ap (λ n. str_eq n "hello") root in
      let is_rpc : str_eq t.name "rpc" ≡ true = ap (λ n. str_eq n "rpc") root in
      let wrap : Parsed (Rpc × Tokens) → Parsed Message =
        λ m. m >>= λ r. parsed (record no_message { rpc = some r.0 }) in
      rw (decode_root, not_hello, is_rpc) (ap wrap (request_read t c op [] p n))

  -- An rpc document without a child element is refused.
  pub decode-nothing :
      (unexpected : String → String) (t : Start) (c : Content)
      → t.name ≡ "rpc"
      → first_child c ≡ none
      → decode D ending unexpected (elem_tokens (elem t c)) ≡ failed "ncrpc: missing rpc operation"
  unfolding decode decode_root elem_tokens
  decode-nothing unexpected t c root p =
      let not_hello : str_eq t.name "hello" ≡ false = ap (λ n. str_eq n "hello") root in
      let is_rpc : str_eq t.name "rpc" ≡ true = ap (λ n. str_eq n "rpc") root in
      let wrap : Parsed (Rpc × Tokens) → Parsed Message =
        λ m. m >>= λ r. parsed (record no_message { rpc = some r.0 }) in
      rw (decode_root, not_hello, is_rpc) (ap wrap (nothing_read t c [] p))
