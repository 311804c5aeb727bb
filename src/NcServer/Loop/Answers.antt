-- ===== src/NcServer/Loop/Answers.antt =====
-- What a client of internal/ncserver/session.go gets for the messages that it sends.
use go_lab_netconf.Base.{
  ◌<◌, Bytes, String, Bool, true, false, Bool-cases, inl, inr, ◌⊎◌, List, [], ◌∷◌, ◌++◌, map,
  Option, none, some, ◌≡◌, refl, sym, subst, ap, ◌∙◌, arith, length, All, append_assoc, append-nil,
  if◌then◌else◌,
}
use go_lab_netconf.Framing
use go_lab_netconf.Framing.{Version, version10, version11, eof, max_message_size}
use go_lab_netconf.Framing.Reader.{new_reader, read_message, read10, read11}
use go_lab_netconf.Framing.Eom.RoundTrip.{ends_in_half, read10-write10}
use go_lab_netconf.Framing.Chunks.RoundTrip.{read11-write11}
use go_lab_netconf.NcRpc.{Reply}
use go_lab_netconf.Datastore.Yang.{Tree}
use go_lab_netconf.Datastore.{Handle, Event}
use go_lab_netconf.NcServer.{Codec, Session}
use go_lab_netconf.NcServer.Loop.{
  Wire, Turn, Conn, Ended, ended, framed, respond, frame_reply, answer, round, loop,
  unless_cancelled, after_read, after_frame,
}

-- The context is not ended and the connection is open.
pub record IsQuiet {T : Tree} (t : Turn T) : Type 0 where
  pub running : t.ctx_error ≡ none
  pub open_ : t.broken ≡ false

abbrev pub IsVersion : Version → Type 0
IsVersion ver = (ver ≡ version10) ⊎ (ver ≡ version11)

-- The client's bytes are the frames of its messages; in a 1.0 frame a message does not end in "]]>".
pub data Sends (ver : Version) : List Bytes → Bytes → Type 0 where
  nothing : {input : Bytes} → input ≡ [] → Sends ver [] input
  sends :
      {m frame rest input : Bytes} {ms : List Bytes}
      → Framing.write ver m ≡ Framing.ok frame
      → (ver ≡ version10 → ends_in_half m ≡ false)
      → input ≡ frame ++ rest
      → Sends ver ms rest
      → Sends ver (m ∷ ms) input

pub read_sent :
    (ver : Version) (m frame rest : Bytes)
    → IsVersion ver
    → Framing.write ver m ≡ Framing.ok frame
    → (ver ≡ version10 → ends_in_half m ≡ false)
    → read_message (new_reader (frame ++ rest) eof ver) ≡ (Framing.ok m, new_reader rest eof ver)
unfolding read_message Framing.write
read_sent ver m frame rest (inl e) w whole =
    let w' : Framing.write10 m ≡ Framing.ok frame = rw e at w in
    rw (e, read10-write10 eof m rest w' (whole e)) refl
read_sent ver m frame rest (inr e) w whole =
    let w' : Framing.write11 m ≡ Framing.ok frame = rw e at w in
    rw (e, read11-write11 eof m rest w') refl

read_end :
    (ver : Version)
    → IsVersion ver
    → read_message (new_reader [] eof ver) ≡ (Framing.err eof, new_reader [] eof ver)
unfolding read_message read10 read11
read_end ver (inl e) = rw e refl
read_end ver (inr e) = rw e refl

module _ (T : Tree) (C : Codec T) (W : Wire) (s : Session) where
  -- The replies to the messages, each from what its turn finds and the handle that the ones before it
  -- left, up to the reply that ends the session; and the handle at the end.
  unfoldable pub answers : List (Turn T) → List Bytes → Handle T → List Reply × Handle T
  unfolding respond
  answers [] ms h = ([], h)
  answers (t ∷ ts) [] h = ([], h)
  answers (t ∷ ts) (m ∷ ms) h =
      let r = respond T C W s t (t.others h) m in
      let rest = answers ts ms r.dispatched.handle in
      if r.last
      then (r.dispatched.reply ∷ [], r.dispatched.handle)
      else (r.dispatched.reply ∷ rest.0, rest.1)

  module _ (ver : Version) (v : IsVersion ver) where
    abbrev pub conn : Bytes → Handle T → List Bytes → List (Option Event × Option String) → Conn T
    conn input h frames events = record {
      reader = new_reader input eof ver;
      ver = ver;
      handle = h;
      frames = frames;
      events = events;
    }

    -- A reply that can be framed.
    abbrev pub IsFramed : Reply → Type 0
    IsFramed r = (f : Bytes) × (frame_reply T C W s ver r ≡ framed f)

    round_end :
        (t : Turn T) (h : Handle T) (frames : List Bytes)
        (events : List (Option Event × Option String))
        → IsQuiet t
        → round T C W s t (conn [] h frames events) ≡ (some (ended none), conn [] h frames events)
    unfolding round
    round_end t h frames events q =
        let c = conn [] h frames events in
        ap (λ e. unless_cancelled T C W s e c (after_read T C W s t c (read_message c.reader)))
          q.running
        ∙ ap (after_read T C W s t c) (read_end ver v)

    round_message :
        (t : Turn T) (h : Handle T) (frames : List Bytes)
        (events : List (Option Event × Option String)) (m frame rest f : Bytes)
        → IsQuiet t
        → Framing.write ver m ≡ Framing.ok frame
        → (ver ≡ version10 → ends_in_half m ≡ false)
        → frame_reply T C W s ver (respond T C W s t (t.others h) m).dispatched.reply ≡ framed f
        → round T C W s t (conn (frame ++ rest) h frames events) ≡ (
          if (respond T C W s t (t.others h) m).last then some (ended none) else none,
          conn rest (respond T C W s t (t.others h) m).dispatched.handle (frames ++ f ∷ []) (
              events
              ++ (
                (respond T C W s t (t.others h) m).dispatched.event,
                (respond T C W s t (t.others h) m).dispatched.cancelled,
              )
                ∷ []),
        )
    unfolding round answer
    round_message t h frames events m frame rest f q w whole e =
        let c = conn (frame ++ rest) h frames events in
        let r = respond T C W s t (t.others h) m in
        let done =
          conn rest r.dispatched.handle frames
            (events ++ (r.dispatched.event, r.dispatched.cancelled) ∷ []) in
        ap (λ e. unless_cancelled T C W s e c (after_read T C W s t c (read_message c.reader)))
          q.running
        ∙ ap (after_read T C W s t c) (read_sent ver m frame rest v w whole)
        ∙ ap (after_frame T C W s t.broken r.last done) e
        ∙ ap (λ b. after_frame T C W s b r.last done (framed f)) q.open_

    -- The connection when a message is answered by the frame f.
    abbrev after :
        Turn T
        → Handle T
        → List Bytes
        → List (Option Event × Option String)
        → Bytes
        → Bytes
        → Bytes
        → Conn T
    after t h frames events m rest f =
        let d = (respond T C W s t (t.others h) m).dispatched in
        conn rest d.handle (frames ++ f ∷ []) (events ++ (d.event, d.cancelled) ∷ [])

    loop_step :
        (t : Turn T) (ts : List (Turn T)) (c : Conn T) (next : Option Ended × Conn T)
        → round T C W s t c ≡ next
        → loop T C W s (t ∷ ts) c
          ≡ (elim next.0 [ some e ↦ (e, next.1) | none ↦ loop T C W s ts next.1 ])
    unfolding loop
    loop_step t ts c next p =
        let g : Option Ended × Conn T → Ended × Conn T =
          λ n. elim n.0 [ some e ↦ (e, n.1) | none ↦ loop T C W s ts n.1 ] in
        ap g p

    loop_message :
        (t : Turn T) (ts : List (Turn T)) (h : Handle T) (frames : List Bytes)
        (events : List (Option Event × Option String)) (m frame rest f : Bytes)
        → IsQuiet t
        → Framing.write ver m ≡ Framing.ok frame
        → (ver ≡ version10 → ends_in_half m ≡ false)
        → frame_reply T C W s ver (respond T C W s t (t.others h) m).dispatched.reply ≡ framed f
        → loop T C W s (t ∷ ts) (conn (frame ++ rest) h frames events)
          ≡ (elim (if (respond T C W s t (t.others h) m).last then some (ended none) else none) [
            | some e ↦ (e, after t h frames events m rest f)
            | none ↦ loop T C W s ts (after t h frames events m rest f)
          ])
    loop_message t ts h frames events m frame rest f q w whole e =
        loop_step t ts (conn (frame ++ rest) h frames events)
          (
            if (respond T C W s t (t.others h) m).last then some (ended none) else none,
            after t h frames events m rest f,
          )
          (round_message t h frames events m frame rest f q w whole e)

    -- The session ends without an error; its handle is that of the answers, and the frames that it has
    -- written since are the answers' replies, each framed, in their order.
    pub record Serves (replies : List Reply) (h : Handle T) (frames : List Bytes)
        (result : Ended × Conn T) : Type 0 where
      pub finished : result.0 ≡ ended none
      pub handle : result.1.handle ≡ h
      pub fresh : List Bytes
      pub written : result.1.frames ≡ frames ++ fresh
      pub framed_each : map (frame_reply T C W s ver) replies ≡ map framed fresh

    Serves-cons :
        (r : Reply) (f : Bytes) (replies : List Reply) (h : Handle T) (frames : List Bytes)
        (result : Ended × Conn T)
        → frame_reply T C W s ver r ≡ framed f
        → Serves replies h (frames ++ f ∷ []) result
        → Serves (r ∷ replies) h frames result
    Serves-cons r f replies h frames result e w = record {
      finished = w.finished;
      handle = w.handle;
      fresh = f ∷ w.fresh;
      written = w.written ∙ append_assoc frames (f ∷ []) w.fresh;
      framed_each = rw e (ap (λ l. framed f ∷ l) w.framed_each);
    }

    pub loop-Serves :
        (ts : List (Turn T)) (ms : List Bytes) (h : Handle T) (input : Bytes) (frames : List Bytes)
        (events : List (Option Event × Option String))
        → All IsQuiet ts
        → length ms < length ts
        → Sends ver ms input
        → All IsFramed (answers ts ms h).0
        → Serves
            (answers ts ms h).0
            (answers ts ms h).1
            frames
            (loop T C W s ts (conn input h frames events))
    unfolding answers
    loop-Serves [] ms h input frames events q le sent e = absurd (omega arith)
    loop-Serves (t ∷ ts) [] h input frames events q le (nothing empty) e =
        let c = conn [] h frames events in
        let stops : loop T C W s (t ∷ ts) (conn input h frames events) ≡ (ended none, c) =
          ap (λ i. loop T C W s (t ∷ ts) (conn i h frames events)) empty
          ∙ loop_step t ts c (some (ended none), c) (round_end t h frames events q.0) in
        subst (Serves [] h frames) (sym stops) (record {
          finished = refl;
          handle = refl;
          fresh = [];
          written = sym (append-nil frames);
          framed_each = refl;
        })
    loop-Serves (t ∷ ts) (m ∷ ms) h input frames events q le (sends {frame} {rest} w whole cut more)
          e =
        let r = respond T C W s t (t.others h) m in
        let tail = answers ts ms r.dispatched.handle in
        let choose : Bool → List Reply × Handle T = λ b.
          if b
          then (r.dispatched.reply ∷ [], r.dispatched.handle)
          else (r.dispatched.reply ∷ tail.0, tail.1) in
        let here = conn input h frames events in
        let next = λ (f : Bytes). after t h frames events m rest f in
        elim (Bool-cases r.last) [
          | inl last ↦
              let is : choose r.last ≡ choose true = ap choose last in
              let (f, p) = (subst (λ a. All IsFramed a.0) is e).0 in
              let stops : loop T C W s (t ∷ ts) here ≡ (ended none, next f) =
                ap (λ i. loop T C W s (t ∷ ts) (conn i h frames events)) cut
                ∙ loop_message t ts h frames events m frame rest f q.0 w whole p
                ∙ rw last refl in
              subst (λ a. Serves a.0 a.1 frames (loop T C W s (t ∷ ts) here)) (sym is)
                (subst (Serves (r.dispatched.reply ∷ []) r.dispatched.handle frames) (sym stops)
                  (record {
                    finished = refl;
                    handle = refl;
                    fresh = f ∷ [];
                    written = refl;
                    framed_each = rw p refl;
                  }))
          | inr goes ↦
              let is : choose r.last ≡ choose false = ap choose goes in
              let all = subst (λ a. All IsFramed a.0) is e in
              let (f, p) = all.0 in
              let continues : loop T C W s (t ∷ ts) here ≡ loop T C W s ts (next f) =
                ap (λ i. loop T C W s (t ∷ ts) (conn i h frames events)) cut
                ∙ loop_message t ts h frames events m frame rest f q.0 w whole p
                ∙ rw goes refl in
              let later =
                loop-Serves ts ms r.dispatched.handle rest (frames ++ f ∷ [])
                  (events ++ (r.dispatched.event, r.dispatched.cancelled) ∷ []) q.1 (omega arith)
                  more all.1 in
              subst (λ a. Serves a.0 a.1 frames (loop T C W s (t ∷ ts) here)) (sym is)
                (subst (Serves (r.dispatched.reply ∷ tail.0) tail.1 frames) (sym continues) (
                  Serves-cons r.dispatched.reply f tail.0 tail.1 frames (loop T C W s ts (next f)) p
                    later))
        ]
