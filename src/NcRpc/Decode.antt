-- ===== src/NcRpc/Decode.antt =====
-- internal/ncrpc/decode.go: a message from the tokens of its document. The tokens are those of
-- `xml.Decoder`, whose `Skip` and `DecodeElement` are parameters; both work on the tokens that are left.
pub mod Documents
pub mod Fuel
pub mod Requests
use go_lab_netconf.Base.{
  ℕ, zero, suc, Bytes, String, str_append, str_eq, Bool, true, false, ◌||◌, List, [], ◌∷◌, ◌++◌,
  Option, none, some, length, if◌then◌else◌,
}
use go_lab_netconf.NcRpc.{Filter, Rpc, Error, Reply, Hello, Message, Parsed, parsed, failed, ◌>>=◌}

-- Local names, and the attributes by theirs.
pub record Start : Type 0 where
  pub name : String
  pub space : String
  pub attributes : List (String × String)

pub data Token : Type 0 where
  start : Start → Token
  end : String → Token
  chars : String → Token

abbrev pub Tokens : Type 0
Tokens = List Token

-- What `DecodeElement` finds of an element whose start was read: its text, its inner XML, the type, the
-- selection and the inner XML of a filter, and the leaves of an error.
pub record XmlDecoder : Type 0 where
  pub skip : Tokens → Parsed Tokens
  pub decode_text : Tokens → Parsed (String × Tokens)
  pub decode_inner : Tokens → Parsed (Bytes × Tokens)
  pub decode_filter : Start → Tokens → Parsed (Filter × Tokens)
  pub decode_error : Tokens → Parsed (Error × Tokens)

-- What a decoder does with a child element: the start is read, its content and end are not.
abbrev pub Handler : Type 0 → Type 0
Handler S = S → Start → Tokens → Parsed (S × Tokens)

-- The attribute that comes last.
unfoldable pub message_id_of : String → List (String × String) → String
message_id_of id [] = id
message_id_of id ((name, value) ∷ as') =
    message_id_of (if str_eq name "message-id" then value else id) as'

abbrev pub empty_rpc : Rpc
empty_rpc = record {
  message_id = "";
  name = "";
  namespace = "";
  source = "";
  target = "";
  filter = none;
  default_op = "";
  config = [];
  session_id = "";
  stream = "";
}

-- A filter without a type is of the subtree.
abbrev pub typed_filter : Filter → Filter
typed_filter f = record f { type = if str_eq f.type "" then "subtree" else f.type }

abbrev pub no_message : Message
no_message = record { hello = none; rpc = none; reply = none }

-- `ending` is the error of `Token` at the end of the tokens: its text, or none for io.EOF.
module _ (D : XmlDecoder) (ending : Option String) where
  open D use {skip, decode_text, decode_inner, decode_filter, decode_error}

  -- `unexpectedEOF`
  abbrev pub at_end : String
  at_end = elim ending [ none ↦ "unexpected EOF" | some e ↦ e ]

  -- The loop that the decoders share, on fuel: child elements go to the handler, up to the end of the
  -- element itself.
  unfoldable pub children : {S : Type 0} → ℕ → String → Handler S → S → Tokens → Parsed (S × Tokens)
  children zero name f s ts = failed "out of fuel"
  children (suc n) name f s [] = failed at_end
  children (suc n) name f s (chars c ∷ ts) = children n name f s ts
  children (suc n) name f s (end m ∷ ts) =
      let more = children n name f s ts in if str_eq m name then parsed (s, ts) else more
  children (suc n) name f s (start t ∷ ts) = f s t ts >>= λ r. children n name f r.0 r.1

  -- With a round for each token and one more.
  abbrev pub each_child : {S : Type 0} → String → Handler S → S → Tokens → Parsed (S × Tokens)
  each_child name f s ts = children (suc (length ts)) name f s ts

  abbrev pub skipping : {S : Type 0} → S → Tokens → Parsed (S × Tokens)
  skipping s ts = skip ts >>= λ rest. parsed (s, rest)

  unfoldable pub caps_child : Handler (List String)
  caps_child caps t ts =
      if str_eq t.name "capability"
      then (do r ← decode_text ts; parsed (caps ++ r.0 ∷ [], r.1))
      else skipping caps ts

  unfoldable pub decode_caps : String → Tokens → Parsed (List String × Tokens)
  unfolding caps_child
  decode_caps name ts = each_child name caps_child [] ts

  unfoldable pub hello_child : Handler Hello
  unfolding decode_caps
  hello_child h t ts =
      if str_eq t.name "capabilities"
      then (do r ← decode_caps t.name ts; parsed (record h { capabilities = r.0 }, r.1))
      else if str_eq t.name "session-id"
      then (do r ← decode_text ts; parsed (record h { session_id = r.0 }, r.1))
      else skipping h ts

  unfoldable pub decode_hello : String → Tokens → Parsed (Hello × Tokens)
  unfolding hello_child
  decode_hello name ts =
      each_child name hello_child (record { capabilities = []; session_id = "" }) ts

  unfoldable pub datastore_child : Handler String
  datastore_child name t ts =
      if str_eq t.name "running"
        || str_eq t.name "candidate"
        || str_eq t.name "startup"
        || str_eq t.name "url"
      then skipping t.name ts
      else skipping name ts

  unfoldable pub decode_datastore : String → Tokens → Parsed (String × Tokens)
  unfolding datastore_child
  decode_datastore name ts = each_child name datastore_child "" ts

  unfoldable pub op_child : Handler Rpc
  unfolding decode_datastore
  op_child r t ts =
      if str_eq t.name "source"
      then (do d ← decode_datastore t.name ts; parsed (record r { source = d.0 }, d.1))
      else if str_eq t.name "target"
      then (do d ← decode_datastore t.name ts; parsed (record r { target = d.0 }, d.1))
      else if str_eq t.name "filter"
      then (do d ← decode_filter t ts; parsed (record r { filter = some (typed_filter d.0) }, d.1))
      else if str_eq t.name "default-operation"
      then (do d ← decode_text ts; parsed (record r { default_op = d.0 }, d.1))
      else if str_eq t.name "config"
      then (do d ← decode_inner ts; parsed (record r { config = d.0 }, d.1))
      else if str_eq t.name "session-id"
      then (do d ← decode_text ts; parsed (record r { session_id = d.0 }, d.1))
      else if str_eq t.name "stream"
      then (do d ← decode_text ts; parsed (record r { stream = d.0 }, d.1))
      else skipping r ts

  unfoldable pub decode_op : Start → Rpc → Tokens → Parsed (Rpc × Tokens)
  unfolding op_child
  decode_op t r ts = each_child t.name op_child (record r { name = t.name; namespace = t.space }) ts

  unfoldable pub rpc_child : Handler Rpc
  unfolding decode_op
  rpc_child r t ts = if str_eq r.name "" then decode_op t r ts else skipping r ts

  unfoldable pub decode_rpc : Start → Tokens → Parsed (Rpc × Tokens)
  unfolding rpc_child
  decode_rpc t ts =
      each_child t.name rpc_child (record empty_rpc { message_id = message_id_of "" t.attributes })
        ts
      >>= λ r. if str_eq r.0.name "" then failed "ncrpc: missing rpc operation" else parsed r

  unfoldable pub reply_child : Handler Reply
  reply_child r t ts =
      if str_eq t.name "ok"
      then skipping (record r { is_ok = true }) ts
      else if str_eq t.name "data"
      then (do d ← decode_inner ts; parsed (record r { payload = some d.0 }, d.1))
      else if str_eq t.name "rpc-error"
      then (do d ← decode_error ts; parsed (record r { errors = r.errors ++ d.0 ∷ [] }, d.1))
      else skipping r ts

  unfoldable pub decode_reply : Start → Tokens → Parsed (Reply × Tokens)
  unfolding reply_child
  decode_reply t ts =
      each_child t.name reply_child
        (record {
          message_id = message_id_of "" t.attributes;
          is_ok = false;
          payload = none;
          errors = [];
        })
        ts

  -- The switch of `Decode` on the root; `unexpected` is the text that fmt.Errorf makes of its name.
  unfoldable pub decode_root : (String → String) → Start → Tokens → Parsed Message
  unfolding decode_hello decode_rpc decode_reply
  decode_root unexpected t ts =
      if str_eq t.name "hello"
      then (do r ← decode_hello t.name ts; parsed (record no_message { hello = some r.0 }))
      else if str_eq t.name "rpc"
      then (do r ← decode_rpc t ts; parsed (record no_message { rpc = some r.0 }))
      else if str_eq t.name "rpc-reply"
      then (do r ← decode_reply t ts; parsed (record no_message { reply = some r.0 }))
      else failed (unexpected t.name)

  -- What stands before the root is passed over.
  unfoldable pub decode : (String → String) → Tokens → Parsed Message
  unfolding decode_root
  decode unexpected [] =
      failed
        (elim ending [ none ↦ "ncrpc: missing root element" | some e ↦ str_append "ncrpc: " e ])
  decode unexpected (start t ∷ ts) = decode_root unexpected t ts
  decode unexpected (end m ∷ ts) = decode unexpected ts
  decode unexpected (chars c ∷ ts) = decode unexpected ts
