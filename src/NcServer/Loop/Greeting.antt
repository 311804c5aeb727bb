-- ===== src/NcServer/Loop/Greeting.antt =====
-- A whole session of internal/ncserver/session.go: the hellos, the version that they come to, and the
-- requests.
use go_lab_netconf.Base.{
  ◌<◌, Bytes, false, Bool-cases, inl, inr, List, [], ◌∷◌, ◌++◌, Option, none, some, ◌≡◌, refl, sym,
  subst, ap, ◌∙◌, arith, length, All, if◌then◌else◌,
}
use go_lab_netconf.Framing
use go_lab_netconf.Framing.{Version, version10, version11, eof}
use go_lab_netconf.Framing.Reader.{new_reader}
use go_lab_netconf.Framing.Eom.RoundTrip.{ends_in_half}
use go_lab_netconf.NcRpc.{
  Hello, Message, Parsed, parsed, failed, cap_base11, advertised_capabilities,
}
use go_lab_netconf.NcRpc.Encode.{encode_hello}
use go_lab_netconf.Datastore.Yang.{Tree}
use go_lab_netconf.Datastore.{Handle}
use go_lab_netconf.NcServer.{Codec, Session}
use go_lab_netconf.NcServer.Loop.{
  Wire, Turn, Conn, Ended, ended, coding, expected_hello, has_cap, decode_message, negotiate, loop,
  greet_message, greet, after_hello, run,
}
use go_lab_netconf.NcServer.Loop.Answers.{
  IsQuiet, IsVersion, Sends, IsFramed, Serves, answers, conn, read_sent, loop-Serves,
}

-- The version that a client's hello comes to.
unfoldable pub agreed : Hello → Version
unfolding has_cap
agreed hello = if has_cap hello.capabilities cap_base11 then version11 else version10

pub agreed-IsVersion : (hello : Hello) → IsVersion (agreed hello)
unfolding agreed
agreed-IsVersion hello = elim (Bool-cases (has_cap hello.capabilities cap_base11)) [
  | inl both ↦ rw (agreed, both) (inr refl)
  | inr one ↦ rw (agreed, one) (inl refl)
]

module _ (T : Tree) (C : Codec T) (W : Wire) (s : Session) where
  greeted :
      (input : Bytes) (h : Handle T) (frames : List Bytes) (hello : Hello)
      → negotiate T C W s
          (record {
            reader = new_reader input eof version10;
            ver = version10;
            handle = h;
            frames = frames;
            events = [];
          })
          hello
        ≡ record {
          reader = new_reader input eof (agreed hello);
          ver = agreed hello;
          handle = h;
          frames = frames;
          events = [];
        }
  unfolding negotiate agreed
  greeted input h frames hello = ground arith

  -- The hello that the server writes.
  abbrev pub own_hello : Hello
  own_hello = record { capabilities = advertised_capabilities; session_id = s.id }

  greet-loop :
      (ts : List (Turn T)) (input : Bytes) (h : Handle T) (frames : List Bytes) (m : Message)
      (hello : Hello)
      → m.hello ≡ some hello
      → greet_message T C W s ts (conn T C W s version10 (inl refl) input h frames []) (parsed m)
        ≡ loop T C W s ts (conn T C W s (agreed hello) (agreed-IsVersion hello) input h frames [])
  unfolding greet_message
  greet-loop ts input h frames m hello p =
      let c = conn T C W s version10 (inl refl) input h frames [] in
      let g : Option Hello → Ended × Conn T = λ o. elim o [
        | none ↦ (ended (some expected_hello), c)
        | some h' ↦ loop T C W s ts (negotiate T C W s c h')
      ] in
      ap g p ∙ ap (loop T C W s ts) (greeted input h frames hello)

-- A client whose first message is a hello, in a 1.0 frame, and that then sends messages in frames of
-- the version that the hellos agree on, 1.1 if its own has base:1.1 and 1.0 otherwise, and ends its
-- input behind them, gets the server's hello and then one reply for each message, in their order and in
-- frames of that version, up to the reply of the first close-session; each reply is the one that the
-- request has on the handle as those before it and the other sessions left it. The session then ends
-- without an error. The context does not end, no write fails, all replies can be framed, and the
-- session has a turn for each message and one more.
pub run-Serves :
    (T : Tree) (C : Codec T) (W : Wire) (s : Session) (h : Handle T) (ts : List (Turn T))
    (own_raw own_frame raw frame input : Bytes) (ms : List Bytes) (m : Message) (hello : Hello)
    → encode_hello W.xml (record { capabilities = advertised_capabilities; session_id = s.id })
      ≡ parsed own_raw
    → Framing.write10 own_raw ≡ Framing.ok own_frame
    → Framing.write10 raw ≡ Framing.ok frame
    → ends_in_half raw ≡ false
    → decode_message W raw ≡ parsed m
    → m.hello ≡ some hello
    → Sends (agreed hello) ms input
    → All IsQuiet ts
    → length ms < length ts
    → All (IsFramed T C W s (agreed hello) (agreed-IsVersion hello)) (answers T C W s ts ms h).0
    → Serves T C W s
        (agreed hello)
        (agreed-IsVersion hello)
        (answers T C W s ts ms h).0
        (answers T C W s ts ms h).1
        (own_frame ∷ [])
        (run T C W s (frame ++ input) eof h false ts)
unfolding run after_hello greet Framing.write Framing.write10
run-Serves T C W s h ts own_raw own_frame raw frame input ms m hello enc own w whole dec is sent q
      le e =
    let c : Conn T = conn T C W s version10 (inl refl) (frame ++ input) h [] [] in
    let begin : Parsed Bytes → Ended × Conn T = λ p. elim p [
      | failed e ↦ (ended (some (coding e)), c)
      | parsed r ↦ after_hello T C W s false ts c (Framing.write10 r)
    ] in
    let read = read_sent version10 raw frame input (inl refl) w (λ _. whole) in
    let goes : run T C W s (frame ++ input) eof h false ts
        ≡ loop T C W s ts
            (conn T C W s (agreed hello) (agreed-IsVersion hello) input h (own_frame ∷ []) []) =
      ap begin enc
      ∙ ap (after_hello T C W s false ts c) own
      ∙ ap (greet T C W s ts (record c { frames = own_frame ∷ [] })) read
      ∙ ap
          (greet_message T C W s ts (conn T C W s version10 (inl refl) input h (own_frame ∷ []) []))
          dec
      ∙ greet-loop T C W s ts input h (own_frame ∷ []) m hello is in
    subst
      (Serves T C W s (agreed hello) (agreed-IsVersion hello) (answers T C W s ts ms h).0
        (answers T C W s ts ms h).1 (own_frame ∷ []))
      (sym goes)
      (loop-Serves T C W s (agreed hello) (agreed-IsVersion hello) ts ms h input (own_frame ∷ []) []
        q le sent e)
