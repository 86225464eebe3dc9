-- ===== src/EchoClient/Tests.antt =====
-- A login and an echo with a cipher that copies its block, and messages that are bytes.
use atof.Prelude.{
  ℕ, ◌+◌, ◌≡◌, refl, List, [], ◌∷◌, ◌++◌, false, none, some, arith, get_or, take, drop, replicate,
  ok, Result, IoError,
}
use atof.Prelude.Words.{IsBytes, to_le_bytes}
use atof.Varint.{write_varint, write_sized, put_varint}
use atof.Voice.Packet.{serverbound, clientbound, VoicePacket, audio, opus}
use atof.Voice.Codec
use atof.Voice.Codec.{put_payload}
use atof.Control.Packet.{ControlPacket, authenticate, text_message, crypt_setup, server_sync, proto}
use atof.Control.Plain.{plain_messages}
use atof.Crypt.State.{CryptState, get_encrypt_nonce, get_decrypt_nonce}
use atof.Crypt.Stream.{seal_all, open_all}
use atof.Crypt.Plain.{copying}
use atof.EchoClient.Connection.{
  EchoMessages, Login, to_server, send_crypt_state, connect_step, connect_loop, connect,
}
use atof.EchoClient.Udp.{handle_udp, dummy_packet}
use atof.EchoClient.Exchange.{Echoable, received_from, addressed_to, arriving, all_replies}
use atof.EchoClient.Login.{Describes, login_events, connect-echoes}
use atof.EchoClient.Once.{handed, senders, connect-once}

abbrev plain_echo : EchoMessages plain_messages
plain_echo = record {
  authenticate_as = λ name. name;
  get_actor = λ msg. get_or msg 0 0;
  get_message = λ msg. drop 1 msg;
  message_to = λ actor text. actor ∷ text;
  get_key = λ msg. take 16 msg;
  get_client_nonce = λ msg. take 16 (drop 16 msg);
  get_server_nonce = λ msg. take 16 (drop 32 msg);
}

abbrev test_server : CryptState
test_server = record {
  key = replicate 16 7;
  encrypt_nonce = 5;
  decrypt_nonce = 9;
  decrypt_history = replicate 0x100 0;
  good = 0;
  late = 0;
  lost = 0;
}

abbrev test_setup : List ℕ
test_setup = replicate 16 7 ++ (to_le_bytes 16 9 ++ to_le_bytes 16 5)

abbrev user_name : List ℕ
user_name = 69 ∷ 66 ∷ []

setup-Describes : Describes plain_messages plain_echo test_setup test_server
unfolding get_encrypt_nonce get_decrypt_nonce
setup-Describes = record { key = refl; client_nonce = refl; server_nonce = refl }

abbrev speech : VoicePacket ℕ
speech = audio 1 3 5 (opus (1 ∷ 2 ∷ 3 ∷ []) false) none

speech-IsBytes : IsBytes (Codec.encode clientbound speech [])
unfolding Codec.encode put_payload put_varint write_varint write_sized
speech-IsBytes = omega arith

reply-IsBytes :
    IsBytes (Codec.encode serverbound (audio 0 tt 5 (opus (1 ∷ 2 ∷ 3 ∷ []) false) none) [])
unfolding Codec.encode put_payload put_varint write_varint write_sized
reply-IsBytes = omega arith

ping-IsBytes : IsBytes (Codec.encode clientbound (VoicePacket.ping 7) [])
unfolding Codec.encode put_payload put_varint write_varint write_sized
ping-IsBytes = omega arith

abbrev test_packets : List (VoicePacket ℕ)
test_packets = speech ∷ VoicePacket.ping 7 ∷ speech ∷ []

speech-Echoable : Echoable speech
speech-Echoable = (
  (omega arith, omega arith, omega arith, omega arith, λ e. cc),
  speech-IsBytes,
  (reply-IsBytes, tt),
)

ping-Echoable : Echoable (VoicePacket.ping 7)
ping-Echoable = (omega arith, ping-IsBytes, tt)

connect-echoes_example :
    (client server' server'' : CryptState) × (login : Login) × (datagrams replies : List (List ℕ))
    × (connect plain_messages plain_echo user_name
          (ok tt)
          (login_events plain_messages plain_echo test_setup [])
        ≡ some (login, to_server (proto authenticate user_name) ∷ send_crypt_state client ∷ []))
    × (seal_all copying serverbound clientbound test_server (arriving test_packets)
        ≡ some (server', datagrams))
    × (handle_udp copying 64738 (some client) (ok tt) (received_from 64738 datagrams)
        ≡ some (addressed_to 64738 replies))
    × (open_all copying clientbound serverbound server' replies
        ≡ some (server'', dummy_packet ∷ all_replies test_packets))
connect-echoes_example =
    connect-echoes plain_messages plain_echo copying 64738 user_name test_server test_setup []
      test_packets setup-Describes refl (omega arith) (omega arith)
      (speech-Echoable, (ping-Echoable, (speech-Echoable, tt)))

-- The server repeats its `ServerSync`, and sends a text.
abbrev test_events :
    List (Result IoError (ControlPacket plain_messages clientbound) × Result IoError (Unit {0}))
test_events =
    (ok (proto crypt_setup test_setup), ok tt)
    ∷ (ok (proto server_sync []), ok tt)
    ∷ (ok (proto text_message (4 ∷ 104 ∷ 105 ∷ [])), ok tt)
    ∷ (ok (proto server_sync []), ok tt)
    ∷ []

test_run :
    (c : CryptState) × (connect plain_messages plain_echo user_name (ok tt) test_events
      ≡ some (
        record { has_sender = false; crypt_state = none },
        to_server (proto authenticate user_name)
            ∷ send_crypt_state c
            ∷ to_server (proto text_message (4 ∷ 104 ∷ 105 ∷ []))
            ∷ [],
      ))
unfolding connect connect_loop connect_step
test_run = (_, refl)

-- Without a `CryptSetup`, the client panics.
sync_first :
    connect plain_messages plain_echo user_name (ok tt) ((ok (proto server_sync []), ok tt) ∷ [])
    ≡ none
unfolding connect connect_loop connect_step
sync_first = refl

connect-once_example :
    handed plain_messages plain_echo (
        to_server (proto authenticate user_name)
        ∷ send_crypt_state test_run.0
        ∷ to_server (proto text_message (4 ∷ 104 ∷ 105 ∷ []))
        ∷ [])
      + senders plain_messages plain_echo (record { has_sender = false; crypt_state = none })
    ≡ 1
connect-once_example =
    connect-once plain_messages plain_echo user_name (ok tt) test_events
      (record { has_sender = false; crypt_state = none })
      (to_server (proto authenticate user_name)
        ∷ send_crypt_state test_run.0
        ∷ to_server (proto text_message (4 ∷ 104 ∷ 105 ∷ []))
        ∷ [])
      test_run.1
