-- ===== src/NcRpc/Encode.antt =====
-- internal/ncrpc/encode.go: the documents of hellos, requests and replies.
use go_lab_netconf.Base.{
  Bytes, bytes, String, str_eq, ◌||◌, List, [], ◌∷◌, ◌++◌, Option, none, some, length, ◌==◌,
  if◌then◌else◌,
}
use go_lab_netconf.NcRpc.{Filter, Rpc, Error, Reply, Hello, Message, Parsed, failed}

-- A string's UTF-8, `xml.EscapeText`, and `xml.Marshal` of the three roots; those of a request and of a
-- reply get their content as it is.
pub record Xml : Type 0 where
  pub text_bytes : String → Bytes
  pub escape_text : Bytes → Bytes
  pub marshal_hello : List String → String → Parsed Bytes
  pub marshal_rpc : String → Bytes → Parsed Bytes
  pub marshal_reply : String → Bytes → Parsed Bytes

abbrev pub notification_namespace : String
notification_namespace = "urn:ietf:params:xml:ns:netconf:notification:1.0"

module _ (X : Xml) where
  open X use {text_bytes, escape_text, marshal_hello, marshal_rpc, marshal_reply}

  pub escape : String → Bytes
  escape s = escape_text (text_bytes s)

  unfoldable pub encode_leaf : Bytes → String → Bytes
  unfolding escape
  encode_leaf name value =
      bytes "<" ++ name ++ bytes ">" ++ escape value ++ bytes "</" ++ name ++ bytes ">"

  -- A leaf that is written if it is not empty.
  unfoldable pub encode_some : Bytes → String → Bytes
  unfolding encode_leaf
  encode_some name value = if str_eq value "" then [] else encode_leaf name value

  unfoldable pub encode_error : Error → Bytes
  unfolding encode_some
  encode_error e =
      bytes "<rpc-error>"
      ++ encode_some (bytes "error-type") e.type
      ++ encode_some (bytes "error-tag") e.tag
      ++ encode_some (bytes "error-severity") e.severity
      ++ encode_some (bytes "error-app-tag") e.app_tag
      ++ encode_some (bytes "error-path") e.path
      ++ encode_some (bytes "error-message") e.message
      ++ bytes "</rpc-error>"

  unfoldable pub encode_errors : List Error → Bytes
  unfolding encode_error
  encode_errors [] = []
  encode_errors (e ∷ es) = encode_error e ++ encode_errors es

  unfoldable pub reply_content : List Error → Option Bytes → Bytes
  unfolding encode_errors
  reply_content (e ∷ es) payload = encode_errors (e ∷ es)
  reply_content [] (some d) = bytes "<data>" ++ d ++ bytes "</data>"
  reply_content [] none = bytes "<ok/>"

  unfoldable pub encode_reply : Reply → Parsed Bytes
  encode_reply r =
      if str_eq r.message_id ""
      then failed "ncrpc: missing message-id"
      else marshal_reply r.message_id (reply_content r.errors r.payload)

  unfoldable pub encode_hello : Hello → Parsed Bytes
  encode_hello h = marshal_hello h.capabilities h.session_id

  unfoldable pub encode_datastore : Bytes → String → Bytes
  encode_datastore tag store =
      if str_eq store ""
      then []
      else bytes "<" ++ tag ++ bytes "><" ++ text_bytes store ++ bytes "/></" ++ tag ++ bytes ">"

  encode_attribute : String → String → Bytes
  unfolding escape
  encode_attribute before value = bytes before ++ escape value ++ bytes "\""

  unfoldable pub encode_filter : Option Filter → Bytes
  unfolding encode_attribute
  encode_filter none = []
  encode_filter (some f) =
      encode_attribute "<filter type=\"" (if str_eq f.type "" then "subtree" else f.type)
      ++ (if str_eq f.select "" then [] else encode_attribute " select=\"" f.select)
      ++ (if length f.inner == 0 then bytes "/>" else bytes ">" ++ f.inner ++ bytes "</filter>")

  unfoldable pub encode_config : Bytes → Bytes
  encode_config config =
      if length config == 0 then [] else bytes "<config>" ++ config ++ bytes "</config>"

  unfoldable pub encode_container : String → String → Bytes → Bytes
  encode_container name xmlns inner =
      let opened =
        bytes "<"
        ++ text_bytes name
        ++ (if str_eq xmlns "" then [] else bytes " xmlns=\"" ++ text_bytes xmlns ++ bytes "\"") in
      if length inner == 0
      then opened ++ bytes "/>"
      else opened ++ bytes ">" ++ inner ++ bytes "</" ++ text_bytes name ++ bytes ">"

  -- The switch of `encodeOp`.
  unfoldable pub op_content : Rpc → Bytes
  unfolding encode_datastore encode_filter encode_config encode_some
  op_content r =
      let source = encode_datastore (bytes "source") r.source in
      let target = encode_datastore (bytes "target") r.target in
      let default_op = encode_some (bytes "default-operation") r.default_op in
      let filter = encode_filter r.filter in
      let config = encode_config r.config in
      let session_id = encode_some (bytes "session-id") r.session_id in
      let stream = encode_some (bytes "stream") r.stream in
      if str_eq r.name "copy-config"
      then target ++ source
      else if str_eq r.name "edit-config"
      then target ++ default_op ++ filter ++ config
      else if str_eq r.name "get"
      then filter
      else if str_eq r.name "get-config" || str_eq r.name "validate"
      then source ++ filter
      else if str_eq r.name "delete-config" || str_eq r.name "lock" || str_eq r.name "unlock"
      then target
      else if str_eq r.name "kill-session"
      then session_id
      else if str_eq r.name "create-subscription"
      then stream ++ filter
      else source ++ target ++ default_op ++ filter ++ config ++ session_id ++ stream

  unfoldable pub encode_op : Rpc → Bytes
  unfolding op_content encode_container
  encode_op r =
      encode_container r.name
        (if str_eq r.name "create-subscription" then notification_namespace else "") (op_content r)

  unfoldable pub encode_rpc : Rpc → Parsed Bytes
  unfolding encode_op
  encode_rpc r =
      if str_eq r.message_id ""
      then failed "ncrpc: missing message-id"
      else if str_eq r.name ""
      then failed "ncrpc: missing rpc operation"
      else marshal_rpc r.message_id (encode_op r)

  choose : Option Hello → Option Rpc → Option Reply → Parsed Bytes
  unfolding encode_hello encode_rpc encode_reply
  choose (some h) none none = encode_hello h
  choose none (some r) none = encode_rpc r
  choose none none (some r) = encode_reply r
  choose _ _ _ = failed "ncrpc: message must be hello, rpc, or rpc-reply"

  unfoldable pub encode : Message → Parsed Bytes
  unfolding choose
  encode m = choose m.hello m.rpc m.reply
