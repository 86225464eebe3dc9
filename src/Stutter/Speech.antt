-- ===== src/Stutter/Speech.antt =====
-- stutter/src/task_connection.rs, mumble-protocol/src/control.rs and the session and routing tasks
-- of stammer/src: the way of a voice packet from one client to the others.
use atof.Prelude.{
  ℕ, ◌≤◌, ◌≡◌, refl, ap, ◌∙◌, List, [], ◌∷◌, ◌++◌, append-nil, map, false, Option, none, some,
  arith, length, Result, IoError, ok, err,
}
use atof.Prelude.Maps.{lookup}
use atof.Prelude.Words.{IsU32}
use atof.Varint.Reading.{write_varint-shape}
use atof.Voice.Packet.{
  VoicePacketDst, LawfulDst, VoicePacket, serverbound, clientbound, serverbound_lawful,
  clientbound_lawful, audio, opus,
}
use atof.Voice.Codec
use atof.Voice.RoundTrip.{Fits}
use atof.Voice.Size.{length-encode-opus}
use atof.Control.Raw.{RawControlPacket, max_len, raw_encode}
use atof.Control.Packet.{version, Protobuf, ControlPacket, tunnel, into_raw, decode, encode}
use atof.Control.Codec.{control_decode-encode, length-raw_encode}
use atof.Stammer.RoutingTable.{Session}
use atof.Stammer.Membership.{Valid}
use atof.Stammer.Recipients.{PeerSenders}
use atof.Stammer.ControlTask.{Table, RoutingMessage, voice}
use atof.Stammer.RoutingTask.{TextFields, Sent, run_routing_task}
use atof.Stammer.Delivery.{routing_step-voice}
use atof.Stammer.SessionTask
use atof.Stammer.SessionTask.{to_routing, to_client, to_control, handle_client, session_step}
use atof.Stutter.Messages.{inbound, ConnectionMessage}
use atof.Stutter.AudioCodec.{voice_packet}
use atof.Stutter.AudioCodec.Wire.{voice_packet-Fits}
use atof.Stutter.Connection
use atof.Stutter.Connection.{ClientMessages, to_audio_codec, connection_step}
use atof.Stutter.Handshake.{client_packets}

-- The packet that the peer's codec makes of what the codec writes, if it makes one.
module _ (protobuf : Protobuf) (Dst : VoicePacketDst) where
  abbrev pub received :
      Option (Result IoError (Option (ControlPacket protobuf Dst)))
      → Option (ControlPacket protobuf Dst)
  received (some (ok packet)) = packet
  received (some (err e)) = none
  received none = none

  abbrev pub over_wire : ControlPacket protobuf Dst → Option (ControlPacket protobuf Dst)
  over_wire p = elim (encode protobuf Dst p []) [
    | none ↦ none
    | some bytes ↦ received (decode protobuf Dst bytes).0
  ]

over_wire-tunnel :
    (protobuf : Protobuf) {Dst : VoicePacketDst} (law : LawfulDst Dst)
    (packet : VoicePacket Dst.SessionId)
    → Fits law packet
    → length (Codec.encode Dst packet []) ≤ max_len
    → over_wire protobuf Dst (tunnel packet) ≡ some (tunnel packet)
over_wire-tunnel protobuf {Dst = Dst} law packet fits short =
    let raw : RawControlPacket = record { id = 1; bytes = Codec.encode Dst packet [] } in
    let out = raw_encode raw [] in
    let written : encode protobuf Dst (tunnel packet) [] ≡ some out =
      unfold encode into_raw in refl in
    let read =
      control_decode-encode protobuf law (tunnel packet) out [] fits written
        (omega (arith, length-raw_encode protobuf law raw, short)) in
    let read' = rw (append-nil out) at read in rw (written, over_wire) (rw read' refl)

module _ {protobuf : Protobuf} (fields : TextFields protobuf) (Sample Sender : Type 0)
    (msgs : ClientMessages protobuf) where
  -- The messages that a session sends to the routing task.
  abbrev pub routing_messages :
      List (SessionTask.Effect protobuf Sender) → List (RoutingMessage protobuf Sender)
  routing_messages [] = []
  routing_messages (to_routing m ∷ effects) = m ∷ routing_messages effects
  routing_messages (to_client _ ∷ effects) = routing_messages effects
  routing_messages (to_control _ ∷ effects) = routing_messages effects

  -- The packets that a session sends to its client.
  abbrev pub packets_to_client :
      List (SessionTask.Effect protobuf Sender) → List (ControlPacket protobuf clientbound)
  packets_to_client [] = []
  packets_to_client (to_client p ∷ effects) = p ∷ packets_to_client effects
  packets_to_client (to_routing _ ∷ effects) = packets_to_client effects
  packets_to_client (to_control _ ∷ effects) = packets_to_client effects

  -- What a client does with the packets that reach it over the wire.
  abbrev pub and_then_heard :
      Option (ControlPacket protobuf clientbound)
      → Option (List (Connection.Effect protobuf Sample msgs))
      → Option (List (Connection.Effect protobuf Sample msgs))
  and_then_heard none later = none
  and_then_heard (some p) none = none
  and_then_heard (some p) (some later) =
      some
        ((connection_step protobuf Sample msgs (Connection.from_server (some (ok p)))).1 ++ later)

  abbrev pub client_hears :
      List (ControlPacket protobuf clientbound)
      → Option (List (Connection.Effect protobuf Sample msgs))
  client_hears [] = some []
  client_hears (p ∷ ps) = and_then_heard (over_wire protobuf clientbound p) (client_hears ps)

  -- A sender, and what the client does with a packet that is sent to it.
  abbrev pub Heard : Type 0
  Heard = Sender × List (Connection.Effect protobuf Sample msgs)

  abbrev pub and_heard :
      Sender
      → Option (List (Connection.Effect protobuf Sample msgs))
      → Option (List Heard)
      → Option (List Heard)
  and_heard sender none heard = none
  and_heard sender (some effects) none = none
  and_heard sender (some effects) (some heard) = some ((sender, effects) ∷ heard)

  -- The session task at the other end of each sender: its id and its last ping.
  module _ (session_timeout : ℕ) (id_of last_ping_of : Sender → ℕ) where
    -- The session task takes the packet from the channel and sends it to its client.
    abbrev pub hear :
        Sender
        → ControlPacket protobuf clientbound
        → Option (List (Connection.Effect protobuf Sample msgs))
    hear sender p = client_hears (
        packets_to_client
          (session_step protobuf Sender session_timeout (id_of sender) (last_ping_of sender)
            (SessionTask.from_server (some p) (ok tt))).1)

    unfoldable pub hear_all : List (Sent fields Sender) → Option (List Heard)
    hear_all [] = some []
    hear_all ((sender, p) ∷ sent) = and_heard sender (hear sender p) (hear_all sent)

    abbrev pub all_heard :
        Option (Table protobuf Sender × List (Sent fields Sender)) → Option (List Heard)
    all_heard none = none
    all_heard (some (t, sent)) = hear_all sent

    -- The packets of a client, one after the other: over the wire, through its session to the
    -- routing task, which holds the table, and on through the other sessions to their clients.
    module _ (id last_ping now : ℕ) (t : Table protobuf Sender) where
      abbrev pub relay_packet : Option (ControlPacket protobuf serverbound) → Option (List Heard)
      relay_packet none = none
      relay_packet (some p) = all_heard (
          run_routing_task fields Sender
            (routing_messages
              (session_step protobuf Sender session_timeout id last_ping
                (SessionTask.from_client (some (ok p)) (ok tt) now)).1)
            t)

      -- What comes of a frame that the audio codec task of the client has encoded.
      unfoldable pub speak : List ℕ → List (Option (List Heard))
      speak output =
          map
            (λ (p : ControlPacket protobuf serverbound).
              relay_packet (over_wire protobuf serverbound p))
            (client_packets protobuf Sample Sender msgs
              (connection_step protobuf Sample msgs (
                Connection.from_task (some (ConnectionMessage.voice (voice_packet output)))
                  (ok tt))).1)

  -- The packet of such a frame, as the other clients get it.
  abbrev pub spoken : ℕ → List ℕ → VoicePacket clientbound.SessionId
  spoken id output = audio 0 id 0 (opus output false) none

  spoken-over_wire :
      (id : ℕ) (output : List ℕ)
      → IsU32 id
      → length output ≤ 1024
      → over_wire protobuf clientbound (tunnel (spoken id output))
        ≡ some (tunnel (spoken id output))
  spoken-over_wire id output h short =
      let (_, _, id_size) = write_varint-shape id (omega arith) in
      over_wire-tunnel protobuf clientbound_lawful (spoken id output)
        (omega arith, h, omega arith, omega arith, λ e. cc)
        (omega (
          arith,
          length-encode-opus clientbound_lawful id 0 output (omega arith) (omega arith),
          id_size,
        ))

  voice_packet-over_wire :
      (output : List ℕ)
      → length output ≤ 1024
      → over_wire protobuf serverbound (tunnel (voice_packet output))
        ≡ some (tunnel (voice_packet output))
  voice_packet-over_wire output short =
      over_wire-tunnel protobuf serverbound_lawful (voice_packet output)
        (voice_packet-Fits output short)
        (omega
          (arith, length-encode-opus serverbound_lawful tt 0 output (omega arith) (omega arith)))

  abbrev hears : ℕ → List ℕ → Sender → Heard
  hears id output x = (x, to_audio_codec (inbound (spoken id output)) ∷ [])

  hear-spoken :
      (session_timeout : ℕ) (id_of last_ping_of : Sender → ℕ) (id : ℕ) (output : List ℕ)
      (x : Sender)
      → IsU32 id
      → length output ≤ 1024
      → hear session_timeout id_of last_ping_of x (tunnel (spoken id output))
        ≡ some (to_audio_codec (inbound (spoken id output)) ∷ [])
  unfolding session_step connection_step
  hear-spoken session_timeout id_of last_ping_of id output x h short =
      rw (spoken-over_wire id output h short, session_step) refl

  hear_all-spoken :
      (session_timeout : ℕ) (id_of last_ping_of : Sender → ℕ) (id : ℕ) (output : List ℕ)
      (senders : List Sender)
      → IsU32 id
      → length output ≤ 1024
      → hear_all session_timeout id_of last_ping_of
          (map (λ (x : Sender). (x, tunnel (spoken id output))) senders)
        ≡ some (map (hears id output) senders)
  unfolding hear_all
  hear_all-spoken session_timeout id_of last_ping_of id output [] h short = refl
  hear_all-spoken session_timeout id_of last_ping_of id output (x ∷ xs) h short =
      rw
        (
          hear_all,
          hear-spoken session_timeout id_of last_ping_of id output x h short,
          hear_all-spoken session_timeout id_of last_ping_of id output xs h short,
        )
        refl

  -- An Opus frame of at most 1024 bytes that a client's codec task hands to its connection task, of
  -- a client whose session the valid table holds, comes to the audio codec task of every other client
  -- in the room exactly once, and of no one else: over the connection to the client's session task,
  -- through the routing task and the session task of the other client, whatever its state, and over
  -- the connection of that one. The frame is as it was and has the session's id as its source. Every
  -- send succeeds.
  pub speak-heard :
      (session_timeout : ℕ) (id_of last_ping_of : Sender → ℕ) (id last_ping now : ℕ)
      (t : Table protobuf Sender) (output : List ℕ) (s : Session (protobuf.Message version) Sender)
      → Valid t
      → lookup id t.sessions ≡ some s
      → IsU32 id
      → length output ≤ 1024
      → (senders : List Sender) × (speak session_timeout id_of last_ping_of id last_ping now t
            output
          ≡ some
              (map (λ (x : Sender). (x, to_audio_codec (inbound (spoken id output)) ∷ [])) senders)
            ∷ [])
        × PeerSenders t s.room_id id senders
  unfolding speak connection_step session_step handle_client run_routing_task
  speak-heard session_timeout id_of last_ping_of id last_ping now t output s v held h short =
      let (senders, routed, peers) =
        routing_step-voice fields t id 0 (opus output false) none s v held in
      let sent = map (λ (x : Sender). (x, tunnel (spoken id output))) senders in
      let ran : run_routing_task fields Sender (voice id (voice_packet output) ∷ []) t
          ≡ some (t, sent) =
        rw (routed, run_routing_task)
          (ap (λ (later : List (Sent fields Sender)). some (t, later)) (append-nil sent)) in
      (
        senders,
        rw (voice_packet-over_wire output short, speak)
            (ap (◌∷ []) (
              ap (all_heard session_timeout id_of last_ping_of) ran
              ∙ hear_all-spoken session_timeout id_of last_ping_of id output senders h short)),
        peers,
      )
