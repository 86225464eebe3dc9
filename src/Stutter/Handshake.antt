-- ===== src/Stutter/Handshake.antt =====
-- stutter/src/task_connection.rs, stammer/src/task_session.rs and stammer/src/task_control.rs: the
-- handshake of a client with the server.
use atof.Prelude.{ℕ, List, [], ◌∷◌, true, none, some, ok}
use atof.Voice.Packet.{serverbound}
use atof.Control.Packet.{version, Protobuf, ControlPacket}
use atof.Stammer.ControlTask.{ControlMessage}
use atof.Stammer.SessionTask
use atof.Stammer.SessionTask.{from_client, to_client, to_control, to_routing, run_session_task}
use atof.Stutter.Connection.{ClientMessages, Effect, to_server, to_audio_codec}

module _ (protobuf : Protobuf) (Sample Sender : Type 0) (msgs : ClientMessages protobuf) where
  -- The packets that the client sends to the server.
  abbrev pub client_packets :
      List (Effect protobuf Sample msgs) → List (ControlPacket protobuf serverbound)
  client_packets [] = []
  client_packets (to_server p ∷ effects) = p ∷ client_packets effects
  client_packets (to_audio_codec _ ∷ effects) = client_packets effects

  -- The messages that a session sends to the control task.
  abbrev pub control_messages :
      List (SessionTask.Effect protobuf Sender) → List (ControlMessage protobuf Sender)
  control_messages [] = []
  control_messages (to_control m ∷ effects) = m ∷ control_messages effects
  control_messages (to_client _ ∷ effects) = control_messages effects
  control_messages (to_routing _ ∷ effects) = control_messages effects

  -- The packets of a client as the events of its session, all at the time `now`, with every answer
  -- sent.
  abbrev pub arriving :
      ℕ → List (ControlPacket protobuf serverbound) → List (SessionTask.Event protobuf Sender)
  arriving now [] = []
  arriving now (p ∷ ps) = from_client (some (ok p)) (ok tt) now ∷ arriving now ps

  module _ (session_timeout : ℕ) (server_version : protobuf.Message version) (sender : Sender)
      (now : ℕ) where
    -- The session of a client that sends these packets: the first answers the server's version.
    abbrev pub serve :
        ℕ → List (ControlPacket protobuf serverbound) → List (SessionTask.Effect protobuf Sender)
    serve id [] =
        run_session_task protobuf Sender session_timeout id server_version (ok tt) none sender true
          now []
    serve id (p ∷ ps) =
        run_session_task protobuf Sender session_timeout id server_version (ok tt) (some (ok p))
          sender true now (arriving now ps)
