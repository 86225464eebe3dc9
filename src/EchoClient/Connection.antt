-- ===== src/EchoClient/Connection.antt =====
-- `connect` of echo_client.rs, from the authentication on: the handshake, and the loop over the
-- packets that the server sends. `none` is a panic. TCP, TLS and the generated messages are not of
-- this code; what `sink.send` answers is part of an event.
use atof.Prelude.{
  ℕ, List, [], ◌∷◌, ◌++◌, Bool, true, false, Option, none, some, ◌==◌, if◌then◌else◌, length,
  Result, IoError, ok, err,
}
use atof.Voice.Packet.{serverbound, clientbound}
use atof.Control.Packet.{
  authenticate, text_message, crypt_setup, server_sync, Protobuf, ControlPacket, proto,
}
use atof.Crypt.State.{CryptState, new_from}

-- What the client makes and reads of the generated messages: the authentication of a user name that
-- asks for Opus, and a text message to one session.
pub record EchoMessages (protobuf : Protobuf) : Type 0 where
  pub authenticate_as : List ℕ → protobuf.Message authenticate
  pub get_actor : protobuf.Message text_message → ℕ
  pub get_message : protobuf.Message text_message → List ℕ
  pub message_to : ℕ → List ℕ → protobuf.Message text_message
  pub get_key : protobuf.Message crypt_setup → List ℕ
  pub get_client_nonce : protobuf.Message crypt_setup → List ℕ
  pub get_server_nonce : protobuf.Message crypt_setup → List ℕ

-- The variables of `connect`: whether `crypt_state_sender` is still there, and `crypt_state`.
pub record Login : Type 0 where
  pub has_sender : Bool
  pub crypt_state : Option CryptState

-- `TryInto<[u8; n]>` of a slice: it must have the array's length.
abbrev try_into : ℕ → List ℕ → Option (List ℕ)
try_into n bytes = if length bytes == n then some bytes else none

abbrev new_from_slices : Option (List ℕ) → Option (List ℕ) → Option (List ℕ) → Option CryptState
new_from_slices (some key) (some client_nonce) (some server_nonce) =
    some (new_from key client_nonce server_nonce)
new_from_slices none _ _ = none
new_from_slices (some _) none _ = none
new_from_slices (some _) (some _) none = none

module _ (protobuf : Protobuf) (msgs : EchoMessages protobuf) where
  pub data Effect : Type 0 where
    to_server : ControlPacket protobuf serverbound → Effect
    send_crypt_state : CryptState → Effect

  -- The arm of `ControlPacket::CryptSetup`.
  abbrev pub set_up : Login → Option CryptState → Option (Login × List Effect)
  set_up s none = none
  set_up s (some crypt_state) = some (record s { crypt_state = some crypt_state }, [])

  -- The arm of `ControlPacket::ServerSync`. That the receiver is gone is ignored.
  abbrev pub hand_over : Login → Option (Login × List Effect)
  hand_over s =
      if s.has_sender
      then elim s.crypt_state [
        | none ↦ none
        | some c ↦ some (record { has_sender = false; crypt_state = none }, send_crypt_state c ∷ [])
      ]
      else some (s, [])

  -- `unwrap` of what `sink.send` answers.
  abbrev pub sending : Result IoError (Unit {0}) → Login → Effect → Option (Login × List Effect)
  sending (ok _) s effect = some (s, effect ∷ [])
  sending (err _) s effect = none

  -- What the loop does with a packet. `sent` is the answer of `sink.send`, where it sends.
  unfoldable pub connect_step :
      Login
      → Result IoError (ControlPacket protobuf clientbound)
      → (sent : Result IoError (Unit {0})) → Option (Login × List Effect)
  connect_step s (err _) sent = none
  connect_step s (ok (proto text_message msg)) sent =
      sending sent s (
        to_server
          (proto text_message (msgs.message_to (msgs.get_actor msg) (msgs.get_message msg))))
  connect_step s (ok (proto crypt_setup msg)) sent = set_up s (
      new_from_slices (try_into 16 (msgs.get_key msg)) (try_into 16 (msgs.get_client_nonce msg))
        (try_into 16 (msgs.get_server_nonce msg)))
  connect_step s (ok (proto server_sync msg)) sent = hand_over s
  connect_step s (ok _) sent = some (s, [])

  abbrev pub later_effects :
      List Effect → Option (Login × List Effect) → Option (Login × List Effect)
  later_effects effects none = none
  later_effects effects (some (s, later)) = some (s, effects ++ later)

  -- The loop over the packets that come, as far as they are given.
  unfoldable pub connect_loop :
      Login
      → List (Result IoError (ControlPacket protobuf clientbound) × Result IoError (Unit {0}))
      → Option (Login × List Effect)
  connect_loop s [] = some (s, [])
  connect_loop s ((packet, sent) ∷ events) = elim (connect_step s packet sent) [
    | none ↦ none
    | some (s', effects) ↦ later_effects effects (connect_loop s' events)
  ]

  -- From the authentication on, which is sent with the answer `sent`.
  unfoldable pub connect :
      (user_name : List ℕ) (sent : Result IoError (Unit {0}))
      → List (Result IoError (ControlPacket protobuf clientbound) × Result IoError (Unit {0}))
      → Option (Login × List Effect)
  connect user_name (err _) events = none
  connect user_name (ok _) events =
      later_effects (to_server (proto authenticate (msgs.authenticate_as user_name)) ∷ [])
        (connect_loop (record { has_sender = true; crypt_state = none }) events)
