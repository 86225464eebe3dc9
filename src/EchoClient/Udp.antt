-- ===== src/EchoClient/Udp.antt =====
-- `handle_udp` of echo_client.rs: the dummy packet, and the loop over the datagrams that the socket
-- receives. `UdpFramed` hands each datagram to the crypt state's `decode` on its own, and sends what
-- `encrypt` makes of a packet as one datagram. An address is a number.
use atof.Prelude.{
  ℕ, List, [], ◌∷◌, ◌++◌, true, Option, none, some, Result, IoError, ok, err, replicate,
}
use atof.Voice.Packet.{serverbound, clientbound, VoicePacket, VoicePacketPayload, ping, audio, opus}
use atof.Crypt.Cipher.{Aes}
use atof.Crypt.State.{CryptState, encrypt, decode}

-- The packet that makes the server accept the client.
abbrev pub dummy_packet : VoicePacket Unit
dummy_packet = audio 0 tt 0 (opus (replicate 128 0) true) none

-- The reply to audio: normal speech, and no session id.
abbrev pub reply_to : (seq_num : ℕ) → VoicePacketPayload → Option (List ℕ) → VoicePacket Unit
reply_to seq_num payload position_info = audio 0 tt seq_num payload position_info

-- A datagram or the error of the socket, the source, and the answer of `sink.send`, if the client
-- replies.
pub record Received : Type 0 where
  pub datagram : Result IoError (List ℕ)
  pub src_addr : ℕ
  pub sent : Result IoError (Unit {0})

-- What the loop does with a datagram: it goes on with what it sent, it ends, or it panics.
pub data Step : Type 0 where
  goes_on : CryptState → List (List ℕ × ℕ) → Step
  ends : CryptState → Step
  panics : Step

abbrev pub send_datagram : Option (CryptState × List ℕ) → ℕ → Result IoError (Unit {0}) → Step
send_datagram none addr sent = panics
send_datagram (some (s, datagram)) addr (ok _) = goes_on s ((datagram, addr) ∷ [])
send_datagram (some (s, datagram)) addr (err _) = panics

module _ (aes : Aes) where
  unfoldable pub udp_step : CryptState → Received → Step
  udp_step s received = elim received.datagram [
    | err _ ↦ goes_on s []
    | ok datagram ↦ elim (decode aes serverbound clientbound s datagram) [
      | none ↦ panics
      | some (s', _, err _) ↦ goes_on s' []
      | some (s', _, ok none) ↦ ends s'
      | some (s', _, ok (some (ping timestamp))) ↦ goes_on s' []
      | some (s', _, ok (some (audio target session_id seq_num payload position_info))) ↦
          send_datagram
            (encrypt aes serverbound clientbound s' (reply_to seq_num payload position_info))
            received.src_addr received.sent
    ]
  ]

  abbrev pub sent_before :
      List (List ℕ × ℕ)
      → Option (CryptState × List (List ℕ × ℕ))
      → Option (CryptState × List (List ℕ × ℕ))
  sent_before sent none = none
  sent_before sent (some (s, later)) = some (s, sent ++ later)

  -- The loop over the datagrams that come, as far as they are given: the datagrams that it sends.
  unfoldable pub udp_loop : CryptState → List Received → Option (CryptState × List (List ℕ × ℕ))
  udp_loop s [] = some (s, [])
  udp_loop s (received ∷ events) = elim (udp_step s received) [
    | panics ↦ none
    | ends s' ↦ some (s', [])
    | goes_on s' sent ↦ sent_before sent (udp_loop s' events)
  ]

  -- On the crypt state that the control task sent, if it did; `sent` is the answer to the dummy.
  unfoldable pub handle_udp :
      (server_addr : ℕ)
      → Option CryptState
      → (sent : Result IoError (Unit {0})) → List Received
      → Option (List (List ℕ × ℕ))
  handle_udp server_addr none sent events = some []
  handle_udp server_addr (some s) sent events =
      elim (send_datagram (encrypt aes serverbound clientbound s dummy_packet) server_addr sent) [
        | panics ↦ none
        | ends s' ↦ some []
        | goes_on s' dummy ↦ elim (udp_loop s' events) [
          | none ↦ none
          | some (_, replies) ↦ some (dummy ++ replies)
        ]
      ]
