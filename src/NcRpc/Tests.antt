-- ===== src/NcRpc/Tests.antt =====
-- The documents of a lock request, and what is read of them.
use go_lab_netconf.Base.{
  ℕ, zero, suc, bytes, String, str_append, false, List, [], ◌∷◌, ◌++◌, none, some, ◌≡◌, refl, ap,
  ◌∙◌, append_assoc, arith, length,
}
use go_lab_netconf.NcRpc.{Filter, Rpc, Error, Reply, Hello, Message, Parsed, parsed, failed, ◌>>=◌}
use go_lab_netconf.NcRpc.Decode.{
  Start, Token, start, end, chars, Tokens, XmlDecoder, empty_rpc, children, each_child, caps_child,
  hello_child, datastore_child, op_child, rpc_child, reply_child, decode, no_message,
}
use go_lab_netconf.NcRpc.Decode.Documents.{
  Content, done, text, child, Elem, elem, content_tokens, elem_tokens, ReadsContent,
}
use go_lab_netconf.NcRpc.Decode.Fuel.{Leaves, LeavesTokens, Consumes, Ends, loops_end}
use go_lab_netconf.NcRpc.Decode.Requests.{first_child, request_of, decode-request}
use go_lab_netconf.NcRpc.Samples.{skip_from, first_text, reading, subtree, reader, plain_xml}
use go_lab_netconf.NcRpc.Encode.{encode_rpc, encode_reply, reply_content}

mutual
  unfolding skip_from content_tokens elem_tokens

  skip_content :
      (d : ℕ) (c : Content) (rest : Tokens)
      → skip_from d (content_tokens c ++ rest) ≡ skip_from d rest
  skip_content d done rest = refl
  skip_content d (text s c) rest = skip_content d c rest
  skip_content d (child e c) rest =
      ap (skip_from d) (append_assoc (elem_tokens e) (content_tokens c) rest)
      ∙ skip_elem d e (content_tokens c ++ rest)
      ∙ skip_content d c rest

  skip_elem :
      (d : ℕ) (e : Elem) (rest : Tokens) → skip_from d (elem_tokens e ++ rest) ≡ skip_from d rest
  skip_elem d (elem t c) rest =
      ap (skip_from (suc d)) (append_assoc (content_tokens c) (end t.name ∷ []) rest)
      ∙ skip_content (suc d) c (end t.name ∷ rest)

text_in : Content → String
text_in (text s c) = s
text_in done = ""
text_in (child e c) = ""

first_text-content :
    (c : Content) (name : String) (rest : Tokens)
    → first_text (content_tokens c ++ end name ∷ rest) ≡ text_in c
unfolding first_text content_tokens elem_tokens text_in
first_text-content done name rest = refl
first_text-content (text s c) name rest = refl
first_text-content (child (elem t k) c) name rest = refl

reading-content :
    {A : Type 0} (f : String → A) (name : String) (c : Content) (rest : Tokens)
    → reading f (content_tokens c ++ end name ∷ rest) ≡ parsed (f (text_in c), rest)
unfolding skip_from
reading-content f name c rest =
    rw (skip_content 0 c (end name ∷ rest), first_text-content c name rest) refl

LeavesTokens-suc : (n : ℕ) (m : Parsed Tokens) → LeavesTokens n m → LeavesTokens (suc n) m
LeavesTokens-suc n (parsed ts) p = omega arith
LeavesTokens-suc n (failed e) p = tt

skip-le : (d : ℕ) (ts : Tokens) → LeavesTokens (length ts) (skip_from d ts)
unfolding skip_from
skip-le d [] = tt
skip-le d (chars c ∷ ts) = LeavesTokens-suc (length ts) (skip_from d ts) (skip-le d ts)
skip-le d (start t ∷ ts) = LeavesTokens-suc (length ts) (skip_from (suc d) ts) (skip-le (suc d) ts)
skip-le zero (end n ∷ ts) = omega arith
skip-le (suc d) (end n ∷ ts) = LeavesTokens-suc (length ts) (skip_from d ts) (skip-le d ts)

reading-Leaves :
    {A : Type 0} (n : ℕ) (m : Parsed Tokens) (a : A)
    → LeavesTokens n m
    → Leaves n (◌>>=◌ {B = A × Tokens} m (λ rest. parsed (a, rest)))
reading-Leaves n (parsed r) a p = p
reading-Leaves n (failed e) a p = tt

closes : (name : String) (rest : Tokens) → skip_from 0 (end name ∷ rest) ≡ parsed rest
unfolding skip_from
closes name rest = refl

reads_content : ReadsContent reader
reads_content = record {
  text_of = text_in;
  inner_of = λ c. bytes (text_in c);
  filter_of = λ t c. subtree (text_in c);
  skips = λ name c rest. skip_content 0 c (end name ∷ rest) ∙ closes name rest;
  reads_text = reading-content (λ s. s);
  reads_inner = reading-content bytes;
  reads_filter = λ t. reading-content subtree t.name;
}

consumes : Consumes reader
consumes = record {
  skip = skip-le 0;
  decode_text = λ ts. reading-Leaves (length ts) (skip_from 0 ts) (first_text ts) (skip-le 0 ts);
  decode_inner =
      λ ts. reading-Leaves (length ts) (skip_from 0 ts) (bytes (first_text ts)) (skip-le 0 ts);
  decode_filter =
      λ t ts. reading-Leaves (length ts) (skip_from 0 ts) (subtree (first_text ts)) (skip-le 0 ts);
  decode_error = λ ts. reading-Leaves (length ts) (skip_from 0 ts) _ (skip-le 0 ts);
}

abbrev named : String → Start
named name = record { name = name; space = ""; attributes = [] }

abbrev rpc_start : Start
rpc_start = record { name = "rpc"; space = ""; attributes = ("message-id", "7") ∷ [] }

-- The lock that comes first is read, with the last target that names a store; the commit is not.
abbrev lock_op : Elem
lock_op =
    elem (named "lock")
      (child (elem (named "target") (child (elem (named "candidate") done) (text " " done))) done)

abbrev both : Content
both = text " " (child lock_op (child (elem (named "commit") done) done))

abbrev none_known : String → String
none_known = str_append "ncrpc: unexpected element "

decoded :
    decode reader none none_known (elem_tokens (elem rpc_start both))
    ≡ parsed (record no_message {
      rpc = some (record empty_rpc { message_id = "7"; name = "lock"; target = "candidate" });
    })
unfolding decode elem_tokens skip_from children go_lab_netconf.NcRpc.Decode.message_id_of
decoded = refl

first_is_lock : first_child both ≡ some lock_op
unfolding first_child
first_is_lock = refl

decode-request_example :
    decode reader none none_known (elem_tokens (elem rpc_start both))
    ≡ parsed (record no_message { rpc = some (request_of none reads_content rpc_start lock_op) })
decode-request_example =
    decode-request none reads_content none_known rpc_start both lock_op refl first_is_lock refl

abbrev stray_end : Tokens
stray_end = chars "x" ∷ end "b" ∷ end "a" ∷ []

loops_end_example :
    ((s : List String)
      → Ends reader none "a"
          (caps_child reader none)
          s
          stray_end
          (each_child reader none "a" (caps_child reader none) s stray_end))
    × ((s : Hello)
        → Ends reader none "a"
            (hello_child reader none)
            s
            stray_end
            (each_child reader none "a" (hello_child reader none) s stray_end))
    × ((s : String)
        → Ends reader none "a"
            (datastore_child reader none)
            s
            stray_end
            (each_child reader none "a" (datastore_child reader none) s stray_end))
    × ((s : Rpc)
        → Ends reader none "a"
            (op_child reader none)
            s
            stray_end
            (each_child reader none "a" (op_child reader none) s stray_end))
    × ((s : Rpc)
        → Ends reader none "a"
            (rpc_child reader none)
            s
            stray_end
            (each_child reader none "a" (rpc_child reader none) s stray_end))
    × ((s : Reply)
        → Ends reader none "a"
            (reply_child reader none)
            s
            stray_end
            (each_child reader none "a" (reply_child reader none) s stray_end))
loops_end_example = loops_end reader none consumes "a" stray_end

-- A lock has its target alone, and a reply with an error has no data.
encoded :
    (encode_rpc plain_xml (record empty_rpc {
      message_id = "7";
      name = "lock";
      target = "candidate";
      stream = "NETCONF";
    })
      ≡ parsed (bytes "<lock><target><candidate/></target></lock>"))
    × (encode_rpc plain_xml (record empty_rpc { name = "lock" })
        ≡ failed "ncrpc: missing message-id")
    × (encode_reply plain_xml (record {
      message_id = "7";
      is_ok = false;
      payload = some (bytes "x");
      errors =
          record {
            type = "rpc";
            tag = "";
            severity = "error";
            app_tag = "";
            path = "";
            message = "";
          }
          ∷ [];
    })
        ≡ parsed (
            bytes
              "<rpc-error><error-type>rpc</error-type><error-severity>error</error-severity></rpc-error>"))
unfolding encode_rpc encode_reply reply_content
encoded = (refl, refl, refl)
