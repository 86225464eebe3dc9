-- ===== src/Stutter/Connection.antt =====
-- stutter/src/task_connection.rs: the handshake with the server, and what the loop of the
-- connection task does with an event.
-- The stream to the server and the clock are not of this code: what they answer is part of the
-- event. A message that the task sends is returned as an effect. That a send to the audio codec task
-- fails is ignored, as in the source.
use atof.Prelude.{
  ◌/◌, List, [], ◌∷◌, ◌++◌, ℕ, Bool, Option, none, some, Result, IoError, ok, err, if◌then◌else◌,
}
use atof.Voice.Packet.{serverbound, clientbound}
use atof.Control.Packet.{version, authenticate, ping, Protobuf, ControlPacket, proto, tunnel}
use atof.Stutter.Messages.{AudioCodecMessage, inbound, ConnectionMessage, voice, control}

pub data HandshakeError : Type 0 where
  connection_closed unexpected_packet incompatible_versions : HandshakeError
  io : IoError → HandshakeError

-- The period of `keepalive`, from the configured timeout.
abbrev pub ping_interval : ℕ → ℕ
ping_interval session_timeout = session_timeout / 2

-- What the task makes of the generated messages: the version it speaks, the test `!=` on versions,
-- `Authenticate::new()`, and a ping with the time in seconds.
pub record ClientMessages (protobuf : Protobuf) : Type 0 where
  pub client_version : protobuf.Message version
  pub differs : protobuf.Message version → protobuf.Message version → Bool
  pub new_authenticate : protobuf.Message authenticate
  pub new_ping : ℕ → protobuf.Message ping

module _ (protobuf : Protobuf) (Sample : Type 0) (msgs : ClientMessages protobuf) where
  -- What the three branches of `select!` wait for. `sent` is the answer of `server_stream.send`,
  -- for an event on which the task sends, and `now` is the time.
  pub data Event : Type 0 where
    keepalive : (now : ℕ) (sent : Result IoError (Unit {0})) → Event
    from_task : Option (ConnectionMessage protobuf) → (sent : Result IoError (Unit {0})) → Event
    from_server : Option (Result IoError (ControlPacket protobuf clientbound)) → Event

  pub data Effect : Type 0 where
    to_server : ControlPacket protobuf serverbound → Effect
    to_audio_codec : AudioCodecMessage Sample → Effect

  -- `version_handshake`, after its own version was sent with the answer `sent`.
  unfoldable pub version_handshake :
      (sent : Result IoError (Unit {0}))
      → Option (Result IoError (ControlPacket protobuf clientbound))
      → Result HandshakeError (Unit {0})
  version_handshake (err e) reply = err (io e)
  version_handshake (ok _) none = err connection_closed
  version_handshake (ok _) (some (err e)) = err (io e)
  version_handshake (ok _) (some (ok (proto version server_version))) =
      if msgs.differs server_version msgs.client_version then err incompatible_versions else ok tt
  version_handshake (ok _) (some (ok _)) = err unexpected_packet

  abbrev pub io_result : Result IoError (Unit {0}) → Result HandshakeError (Unit {0})
  io_result (ok _) = ok tt
  io_result (err e) = err (io e)

  -- `handshake`: the version, and after the server's the authentication, which is sent with the
  -- answer `sent_last`.
  unfoldable pub handshake :
      (sent : Result IoError (Unit {0}))
      → Option (Result IoError (ControlPacket protobuf clientbound))
      → (sent_last : Result IoError (Unit {0})) → List Effect × Result HandshakeError (Unit {0})
  handshake sent reply sent_last =
      let hello = to_server (proto version msgs.client_version) in
      elim (version_handshake sent reply) [
        | err e ↦ (hello ∷ [], err e)
        | ok _ ↦
            (hello ∷ to_server (proto authenticate msgs.new_authenticate) ∷ [], io_result sent_last)
      ]

  -- What the loop does next: it goes on, or the task returns.
  pub data Next : Type 0 where
    goes_on : Next
    returns : Result HandshakeError (Unit {0}) → Next

  -- `?` on the answer of a send.
  abbrev pub or_return : Result IoError (Unit {0}) → Next
  or_return (ok _) = goes_on
  or_return (err e) = returns (err (io e))

  -- `break` on an error of a send.
  abbrev pub or_break : Result IoError (Unit {0}) → Next
  or_break (ok _) = goes_on
  or_break (err _) = returns (ok tt)

  -- `ping`, with the seconds since the epoch.
  abbrev pub ping_server : ℕ → List Effect
  ping_server now = to_server (proto ping (msgs.new_ping now)) ∷ []

  unfoldable pub connection_step : Event → Next × List Effect
  connection_step (keepalive now sent) = (or_return sent, ping_server now)
  connection_step (from_task none sent) = (returns (ok tt), [])
  connection_step (from_task (some (voice voice_packet)) sent) =
      (or_break sent, to_server (tunnel voice_packet) ∷ [])
  connection_step (from_task (some (control packet)) sent) = (or_return sent, to_server packet ∷ [])
  connection_step (from_server none) = (returns (ok tt), [])
  connection_step (from_server (some (err _))) = (returns (ok tt), [])
  connection_step (from_server (some (ok (tunnel voice_packet)))) =
      (goes_on, to_audio_codec (inbound voice_packet) ∷ [])
  connection_step (from_server (some (ok _))) = (goes_on, [])

  -- The loop over the events that occur, as far as they are given, and what the task returns, if it
  -- does.
  unfoldable pub connection_loop :
      List Event → List Effect × Option (Result HandshakeError (Unit {0}))
  connection_loop [] = ([], none)
  connection_loop (event ∷ events) =
      let (next, effects) = connection_step event in
      elim next [
        | returns result ↦ (effects, some result)
        | goes_on ↦ let (later, result) = connection_loop events in (effects ++ later, result)
      ]

  unfoldable pub run_connection_task :
      (sent : Result IoError (Unit {0}))
      → Option (Result IoError (ControlPacket protobuf clientbound))
      → (sent_last : Result IoError (Unit {0})) → List Event
      → List Effect × Option (Result HandshakeError (Unit {0}))
  run_connection_task sent reply sent_last events =
      let (effects, result) = handshake sent reply sent_last in
      elim result [
        | err e ↦ (effects, some (err e))
        | ok _ ↦ let (later, ended) = connection_loop events in (effects ++ later, ended)
      ]
