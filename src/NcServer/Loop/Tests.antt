-- ===== src/NcServer/Loop/Tests.antt =====
-- A session that sends a hello and a close-session, on documents of a few tokens.
use go_lab_netconf.Base.{
  Bytes, bytes, bytes_eq, String, str_append, false, List, [], ◌∷◌, ◌++◌, none, some, ◌≡◌, refl,
  arith, All, if◌then◌else◌,
}
use go_lab_netconf.Framing
use go_lab_netconf.Framing.{version11, eof}
use go_lab_netconf.Framing.Eom.RoundTrip.{ends_in_half}
use go_lab_netconf.NcRpc.{
  Rpc, Reply, Hello, Message, Parsed, parsed, failed, cap_base11, advertised_capabilities,
}
use go_lab_netconf.NcRpc.Encode.{Xml, encode_hello, encode_reply}
use go_lab_netconf.NcRpc.Decode.{Token, start, end, chars, Tokens, decode, children, message_id_of}
use go_lab_netconf.NcRpc.Samples.{reader, skip_from, plain_xml}
use go_lab_netconf.Datastore.Tests.{toy, edited}
use go_lab_netconf.NcServer.{Codec, Session, dispatch, route}
use go_lab_netconf.NcServer.Loop.{Wire, Turn, decode_message, respond, frame_reply, run}
use go_lab_netconf.NcServer.Loop.Answers.{IsQuiet, Sends, nothing, sends, IsFramed, Serves, answers}
use go_lab_netconf.NcServer.Loop.Greeting.{agreed, agreed-IsVersion, run-Serves}

abbrev codec : Codec toy
codec = record {
  filter_path = λ s. failed "not a filter";
  encode_tree = λ n. n ∷ [];
  decode_config = λ s. parsed 8;
}

abbrev session : Session
session = record { id = "7"; access = "read-write" }

abbrev named : String → Token
named name = start (record { name = name; space = ""; attributes = [] })

-- A hello with base:1.1.
abbrev hello_tokens : Tokens
hello_tokens =
    named "hello"
    ∷ named "capabilities"
    ∷ named "capability"
    ∷ chars cap_base11
    ∷ end "capability"
    ∷ end "capabilities"
    ∷ end "hello"
    ∷ []

abbrev close_tokens : Tokens
close_tokens =
    start (record { name = "rpc"; space = ""; attributes = ("message-id", "1") ∷ [] })
    ∷ named "close-session"
    ∷ end "close-session"
    ∷ end "rpc"
    ∷ []

-- "h" stands for the hello's document and any other for the request's.
abbrev wire : Wire
wire = record {
  xml = plain_xml;
  tokens = λ raw. (if bytes_eq raw (bytes "h") then hello_tokens else close_tokens, none);
  decoder = reader;
  unexpected = str_append "ncrpc: unexpected element ";
}

abbrev turn : Turn toy
turn = record { ctx_error = none; request_error = none; live = []; others = λ h. h; broken = false }

abbrev client_hello : Hello
client_hello = record { capabilities = cap_base11 ∷ []; session_id = "" }

-- A request, and one behind the close-session that is not answered.
abbrev sent : List Bytes
sent = bytes "c" ∷ bytes "d" ∷ []

abbrev input : Bytes
input = bytes "\n#1\nc\n##\n" ++ bytes "\n#1\nd\n##\n" ++ []

agrees : agreed client_hello ≡ version11
unfolding agreed
agrees = refl

sent_frames : Sends (agreed client_hello) sent input
unfolding agreed Framing.write Framing.write11 Framing.itoa
sent_frames =
    sends refl (λ p. absurd (omega arith)) refl
      (sends refl (λ p. absurd (omega arith)) refl (nothing refl))

one_answer :
    All
      (IsFramed toy codec wire session (agreed client_hello) (agreed-IsVersion client_hello))
      (answers toy codec wire session (turn ∷ turn ∷ turn ∷ []) sent edited).0
unfolding answers respond frame_reply agreed dispatch decode_message decode bytes_eq children
    encode_reply message_id_of route Framing.write go_lab_netconf.NcRpc.Encode.reply_content
    Framing.itoa
one_answer = ((bytes "\n#5\n<ok/>\n##\n", refl), tt)

hello_read :
    decode_message wire (bytes "h")
    ≡ parsed (record { hello = some client_hello; rpc = none; reply = none })
unfolding decode_message decode children skip_from bytes_eq go_lab_netconf.NcRpc.Samples.first_text
hello_read = refl

frames_written :
    (run toy codec wire session
      (bytes "h]]>]]>" ++ input)
      eof
      edited
      false
      (turn ∷ turn ∷ turn ∷ [])).1.frames
    ≡ bytes "H]]>]]>" ∷ bytes "\n#5\n<ok/>\n##\n" ∷ []
unfolding run encode_hello Framing.write10 Framing.contains_eom
    go_lab_netconf.Framing.Reader.read_message decode_message decode children skip_from
    go_lab_netconf.NcRpc.Samples.first_text encode_reply dispatch message_id_of route Framing.write
    go_lab_netconf.NcRpc.Encode.reply_content Framing.itoa
frames_written = refl

hellos_written :
    (encode_hello wire.xml (record { capabilities = advertised_capabilities; session_id = "7" })
      ≡ parsed (bytes "H"))
    × (Framing.write10 (bytes "H") ≡ Framing.ok (bytes "H]]>]]>"))
    × (Framing.write10 (bytes "h") ≡ Framing.ok (bytes "h]]>]]>"))
    × (ends_in_half (bytes "h") ≡ false)
unfolding encode_hello Framing.write10 Framing.contains_eom ends_in_half bytes_eq
hellos_written = (refl, refl, refl, refl)

quiet : IsQuiet turn
quiet = record { running = refl; open_ = refl }

run-Serves_example :
    Serves toy codec wire session
      (agreed client_hello)
      (agreed-IsVersion client_hello)
      (answers toy codec wire session (turn ∷ turn ∷ turn ∷ []) sent edited).0
      (answers toy codec wire session (turn ∷ turn ∷ turn ∷ []) sent edited).1
      (bytes "H]]>]]>" ∷ [])
      (run toy codec wire session
        (bytes "h]]>]]>" ++ input)
        eof
        edited
        false
        (turn ∷ turn ∷ turn ∷ []))
run-Serves_example =
    run-Serves toy codec wire session edited (turn ∷ turn ∷ turn ∷ []) (bytes "H") (bytes "H]]>]]>")
      (bytes "h") (bytes "h]]>]]>") input sent
      (record { hello = some client_hello; rpc = none; reply = none }) client_hello hellos_written.0
      hellos_written.1 hellos_written.2 hellos_written.3 hello_read refl sent_frames
      (quiet, (quiet, (quiet, tt))) (omega arith) one_answer
