-- ===== src/Stammer/SessionTask.antt =====
-- stammer/src/task_session.rs: the handshake of a session, and what its loop does with an event.
-- The stream to the client and the clock are not of this code: what they answer is part of the
-- event. A message that the task sends is returned as an effect. That a send to the control or the
-- routing task fails is ignored, as in the source.
use atof.Prelude.{
  ℕ, ◌-◌, List, [], ◌∷◌, ◌++◌, Bool, Option, none, some, ltb, if◌then◌else◌, Result, IoError, ok,
  err,
}
use atof.Voice.Packet.{serverbound, clientbound}
use atof.Control.Packet.{version, ping, text_message, Protobuf, ControlPacket, proto, tunnel}
use atof.Stammer.ControlTask.{
  ControlMessage, packet, add_session, remove_session, RoutingMessage, voice, text,
}

pub data VersionError : Type 0 where
  connection_closed unexpected_packet : VersionError
  io : IoError → VersionError

module _ (protobuf : Protobuf) (Sender : Type 0) where
  -- What the three branches of `select!` wait for. `sent` is the answer of `client_stream.send`,
  -- for an event on which the task sends, and `now` is the time.
  pub data Event : Type 0 where
    from_client :
        Option (Result IoError (ControlPacket protobuf serverbound))
        → (sent : Result IoError (Unit {0})) → (now : ℕ) → Event
    from_server :
        Option (ControlPacket protobuf clientbound) → (sent : Result IoError (Unit {0})) → Event
    keepalive : (now : ℕ) → Event

  pub data Effect : Type 0 where
    to_client : ControlPacket protobuf clientbound → Effect
    to_control : ControlMessage protobuf Sender → Effect
    to_routing : RoutingMessage protobuf Sender → Effect

  -- `version_exchange`, after its own version was sent to the client with the answer `sent`.
  unfoldable pub version_exchange :
      (sent : Result IoError (Unit {0}))
      → Option (Result IoError (ControlPacket protobuf serverbound))
      → Result VersionError (protobuf.Message version)
  version_exchange (err e) reply = err (io e)
  version_exchange (ok _) none = err connection_closed
  version_exchange (ok _) (some (err e)) = err (io e)
  version_exchange (ok _) (some (ok (proto version v))) = ok v
  version_exchange (ok _) (some (ok _)) = err unexpected_packet

  -- The time of the last ping if the loop goes on, `none` if it ends, and the effects.
  abbrev pub Step : Type 0
  Step = Option ℕ × List Effect

  -- After a send to the client: an error ends the session.
  abbrev pub after_send : ℕ → (last_ping : ℕ) → List Effect → Result IoError (Unit {0}) → Step
  after_send id last_ping effects (ok _) = (some last_ping, effects)
  after_send id last_ping effects (err _) = (none, effects ++ (to_control (remove_session id) ∷ []))

  -- `match packet`, for a packet from the client.
  unfoldable pub handle_client :
      ℕ → ℕ → ControlPacket protobuf serverbound → Result IoError (Unit {0}) → ℕ → Step
  handle_client id last_ping (tunnel voice_packet) sent now =
      (some last_ping, to_routing (voice id voice_packet) ∷ [])
  handle_client id last_ping (proto text_message msg) sent now =
      (some last_ping, to_routing (text id msg) ∷ [])
  handle_client id last_ping (proto ping ts) sent now =
      after_send id now (to_client (proto ping ts) ∷ []) sent
  handle_client id last_ping p sent now = (some last_ping, to_control (packet id p) ∷ [])

  module _ (session_timeout : ℕ) where
    unfoldable pub session_step : ℕ → ℕ → Event → Step
    session_step id last_ping (from_client none sent now) =
        (none, to_control (remove_session id) ∷ [])
    session_step id last_ping (from_client (some (err _)) sent now) =
        (none, to_control (remove_session id) ∷ [])
    session_step id last_ping (from_client (some (ok p)) sent now) =
        handle_client id last_ping p sent now
    session_step id last_ping (from_server none sent) = (none, [])
    session_step id last_ping (from_server (some p) sent) =
        after_send id last_ping (to_client p ∷ []) sent
    session_step id last_ping (keepalive now) =
        if ltb session_timeout (now - last_ping)
        then (none, to_control (remove_session id) ∷ [])
        else (some last_ping, [])

    -- The loop over the events that occur, as far as they are given.
    unfoldable pub session_loop : ℕ → ℕ → List Event → List Effect
    session_loop id last_ping [] = []
    session_loop id last_ping (event ∷ events) =
        let (next, effects) = session_step id last_ping event in
        elim next [
          | none ↦ effects
          | some last_ping' ↦ effects ++ session_loop id last_ping' events
        ]

    -- The task: `server_version` is the packet it sends first, `session_send` the sender it
    -- registers, and `control_open` whether the control task still takes messages.
    unfoldable pub run_session_task :
        ℕ
        → protobuf.Message version
        → Result IoError (Unit {0})
        → Option (Result IoError (ControlPacket protobuf serverbound))
        → Sender
        → Bool
        → ℕ
        → List Event
        → List Effect
    run_session_task id server_version sent reply session_send control_open start events =
        to_client (proto version server_version) ∷ (elim (version_exchange sent reply) [
          | err _ ↦ []
          | ok v ↦
              if control_open
              then to_control (add_session id (record { version = v; send = session_send }))
                ∷ session_loop id start events
              else []
        ])
