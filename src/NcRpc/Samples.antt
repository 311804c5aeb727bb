-- ===== src/NcRpc/Samples.antt =====
-- A reader of tokens in the place of encoding/xml.
use go_lab_netconf.Base.{ℕ, zero, suc, bytes, String, [], ◌∷◌}
use go_lab_netconf.NcRpc.{Filter, Parsed, parsed, failed, ◌>>=◌}
use go_lab_netconf.NcRpc.Encode.{Xml}
use go_lab_netconf.NcRpc.Decode.{start, end, chars, Tokens, XmlDecoder}

-- The tokens behind the end of the element that is open at the given depth.
unfoldable pub skip_from : ℕ → Tokens → Parsed Tokens
skip_from d [] = failed "unexpected EOF"
skip_from d (chars c ∷ ts) = skip_from d ts
skip_from d (start t ∷ ts) = skip_from (suc d) ts
skip_from zero (end n ∷ ts) = parsed ts
skip_from (suc d) (end n ∷ ts) = skip_from d ts

unfoldable pub first_text : Tokens → String
first_text (chars c ∷ ts) = c
first_text ts = ""

abbrev pub reading : {A : Type 0} → (String → A) → Tokens → Parsed (A × Tokens)
reading {A} g ts =
    ◌>>=◌ {B = A × Tokens} (skip_from 0 ts) (λ rest. parsed (g (first_text ts), rest))

abbrev pub subtree : String → Filter
subtree s = record { type = ""; select = ""; inner = bytes s }

abbrev pub reader : XmlDecoder
reader = record {
  skip = skip_from 0;
  decode_text = reading (λ s. s);
  decode_inner = reading bytes;
  decode_filter = λ t. reading subtree;
  decode_error =
      reading
        (λ s. record { type = s; tag = ""; severity = ""; app_tag = ""; path = ""; message = "" });
}

-- Roots that are their content alone, and texts that need no escape.
abbrev pub plain_xml : Xml
plain_xml = record {
  text_bytes = bytes;
  escape_text = λ s. s;
  marshal_hello = λ caps id. parsed (bytes "H");
  marshal_rpc = λ id inner. parsed inner;
  marshal_reply = λ id inner. parsed inner;
}
