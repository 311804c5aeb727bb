-- ===== src/NcServer/Loop.antt =====
-- internal/ncserver/session.go: the hellos and the loop of one session. What happens around the session
-- while it waits is given round by round, as a list of turns.
pub mod Answers
pub mod Greeting
mod Tests
use go_lab_netconf.Base.{
  Bytes, String, str_eq, Bool, true, false, ◌||◌, ◌&&◌, List, [], ◌∷◌, ◌++◌, Option, none, some,
  if◌then◌else◌,
}
use go_lab_netconf.DomainErr.{AnyError}
use go_lab_netconf.Framing
use go_lab_netconf.Framing.{Version, version10, version11, eof}
use go_lab_netconf.Framing.Reader.{Reader, new_reader, set_version, read_message}
use go_lab_netconf.NcRpc.{
  Rpc, Reply, Hello, Message, Parsed, parsed, failed, cap_base11, advertised_capabilities,
}
use go_lab_netconf.NcRpc.Encode.{Xml, encode_hello, encode_reply}
use go_lab_netconf.NcRpc.Decode.{XmlDecoder, Tokens, decode}
use go_lab_netconf.Datastore.Yang.{Tree}
use go_lab_netconf.Datastore.{Handle, Event}
use go_lab_netconf.NcServer.{Codec, Session, Dispatched, dispatch, rpc_err}

-- encoding/xml: the writer, the tokens of a document with the error behind them, what is read of an
-- element, and the text for a root that is not known.
pub record Wire : Type 0 where
  pub xml : Xml
  pub tokens : Bytes → Tokens × Option String
  pub decoder : XmlDecoder
  pub unexpected : String → String

unfoldable pub decode_message : Wire → Bytes → Parsed Message
decode_message W raw = let (ts, ending) = W.tokens raw in decode W.decoder ending W.unexpected ts

has_cap : List String → String → Bool
has_cap [] want = false
has_cap (c ∷ caps) want = str_eq c want || has_cap caps want

-- What the session finds in one round of its loop: the context's error at the loop's head and at the
-- request, the ids of the live sessions, what other sessions have done to the handle, and whether a
-- write fails because the connection was closed.
pub record Turn (T : Tree) : Type 0 where
  pub ctx_error : Option AnyError
  pub request_error : Option AnyError
  pub live : List String
  pub others : Handle T → Handle T
  pub broken : Bool

-- The errors that `run` returns.
pub data RunError : Type 0 where
  cancelled : AnyError → RunError
  reading : Framing.Error → RunError
  coding : String → RunError
  writing : Framing.Error → RunError
  expected_hello closed : RunError

-- The connection's reader and version, the datastore, the frames that were written, and the events
-- and the cancelled sessions, all in order.
pub record Conn (T : Tree) : Type 0 where
  pub reader : Reader
  pub ver : Version
  pub handle : Handle T
  pub frames : List Bytes
  pub events : List (Option Event × Option String)

-- The session waits when there are no more turns; it ends with nil or with an error.
pub data Ended : Type 0 where
  waits : Ended
  ended : Option RunError → Ended

pub data Framed : Type 0 where
  framed : Bytes → Framed
  lost : RunError → Framed

-- The end of the input between two messages is no error.
end_of_input : Framing.Error → Option RunError
end_of_input eof = none
end_of_input e = some (reading e)

-- The answer to one message, and whether the session ends with it.
pub record Response (T : Tree) : Type 0 where
  pub dispatched : Dispatched T
  pub last : Bool

module _ (T : Tree) (C : Codec T) (W : Wire) (s : Session) where
  malformed : Handle T → String → Response T
  malformed h message = record {
    dispatched = record {
      reply = record {
        message_id = "0";
        is_ok = false;
        payload = none;
        errors = rpc_err "rpc" "malformed-message" message ∷ [];
      };
      handle = h;
      event = none;
      cancelled = none;
    };
    last = false;
  }

  respond_rpc : Turn T → Handle T → Option Rpc → Response T
  unfolding malformed
  respond_rpc t h none = malformed h "expected rpc"
  respond_rpc t h (some rpc) = record {
    dispatched = dispatch T C s t.live h t.request_error rpc;
    last = str_eq rpc.name "close-session";
  }

  -- The loop's body between the read and the write.
  unfoldable pub respond : Turn T → Handle T → Bytes → Response T
  unfolding respond_rpc
  respond t h raw = elim (decode_message W raw) [
    | failed e ↦ malformed h e
    | parsed m ↦ respond_rpc t h m.rpc
  ]

  -- `writeReply`: the frame, or the error.
  unfoldable pub frame_reply : Version → Reply → Framed
  frame_reply ver r = elim (encode_reply W.xml r) [
    | failed e ↦ lost (coding e)
    | parsed raw ↦ elim (Framing.write ver raw) [
      | Framing.err e ↦ lost (writing e)
      | Framing.ok frame ↦ framed frame
    ]
  ]

  -- The write of a reply, behind the request's effects; `last` says that the session ends with it.
  unfoldable pub after_frame : Bool → Bool → Conn T → Framed → Option Ended × Conn T
  after_frame broken last c (lost e) = (some (ended (some e)), c)
  after_frame broken last c (framed f) =
      if broken
      then (some (ended (some closed)), c)
      else (if last then some (ended none) else none, record c { frames = c.frames ++ f ∷ [] })

  unfoldable pub answer : Turn T → Conn T → Bytes → Option Ended × Conn T
  unfolding respond frame_reply after_frame
  answer t c raw =
      let r = respond t (t.others c.handle) raw in
      let d = r.dispatched in
      after_frame t.broken r.last
        (record c { handle = d.handle; events = c.events ++ (d.event, d.cancelled) ∷ [] })
        (frame_reply c.ver d.reply)

  unfoldable pub after_read :
      Turn T → Conn T → Framing.Result Bytes × Reader → Option Ended × Conn T
  unfolding answer end_of_input
  after_read t c (Framing.err e, reader) =
      (some (ended (end_of_input e)), record c { reader = reader })
  after_read t c (Framing.ok raw, reader) = answer t (record c { reader = reader }) raw

  unfoldable pub unless_cancelled :
      Option AnyError → Conn T → Option Ended × Conn T → Option Ended × Conn T
  unless_cancelled (some e) c next = (some (ended (some (cancelled e))), c)
  unless_cancelled none c next = next

  -- One round of the loop, and how the session ends if it ends with it.
  unfoldable pub round : Turn T → Conn T → Option Ended × Conn T
  unfolding after_read unless_cancelled
  round t c = unless_cancelled t.ctx_error c (after_read t c (read_message c.reader))

  unfoldable pub loop : List (Turn T) → Conn T → Ended × Conn T
  unfolding round
  loop [] c = (waits, c)
  loop (t ∷ ts) c = let (e, c') = round t c in elim e [ some e ↦ (e, c') | none ↦ loop ts c' ]

  -- The session goes on with 1.1 frames if both sides have base:1.1.
  unfoldable pub negotiate : Conn T → Hello → Conn T
  unfolding has_cap
  negotiate c hello =
      if has_cap advertised_capabilities cap_base11 && has_cap hello.capabilities cap_base11
      then record c { ver = version11; reader = set_version c.reader version11 }
      else c

  -- From the client's first message on, which is to be a hello.
  unfoldable pub greet_message : List (Turn T) → Conn T → Parsed Message → Ended × Conn T
  unfolding loop negotiate
  greet_message ts c (failed e) = (ended (some (coding e)), c)
  greet_message ts c (parsed m) = elim m.hello [
    | none ↦ (ended (some expected_hello), c)
    | some hello ↦ loop ts (negotiate c hello)
  ]

  unfoldable pub greet : List (Turn T) → Conn T → Framing.Result Bytes × Reader → Ended × Conn T
  unfolding greet_message
  greet ts c (Framing.err e, reader) = (ended (some (reading e)), record c { reader = reader })
  greet ts c (Framing.ok raw, reader) =
      greet_message ts (record c { reader = reader }) (decode_message W raw)

  -- The write of the server's hello.
  unfoldable pub after_hello : Bool → List (Turn T) → Conn T → Framing.Result Bytes → Ended × Conn T
  unfolding greet
  after_hello broken ts c (Framing.err e) = (ended (some (writing e)), c)
  after_hello broken ts c (Framing.ok frame) =
      if broken
      then (ended (some closed), c)
      else greet ts (record c { frames = frame ∷ [] }) (read_message c.reader)

  -- `run` on the bytes that the client sends and the error behind them; `broken` says that the first
  -- write fails.
  unfoldable pub run : Bytes → Framing.Error → Handle T → Bool → List (Turn T) → Ended × Conn T
  unfolding after_hello
  run input ending h broken ts =
      let c : Conn T = record {
        reader = new_reader input ending version10;
        ver = version10;
        handle = h;
        frames = [];
        events = [];
      } in
      let hello : Hello = record { capabilities = advertised_capabilities; session_id = s.id } in
      elim (encode_hello W.xml hello) [
        | failed e ↦ (ended (some (coding e)), c)
        | parsed raw ↦ after_hello broken ts c (Framing.write10 raw)
      ]
