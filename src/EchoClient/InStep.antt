-- ===== src/EchoClient/InStep.antt =====
-- mumble-protocol/src/crypt.rs: two crypt states of which the one sends what the other expects.
use atof.Prelude.{ℕ, ◌≡◌, refl, List, [], false, some, arith, ok}
use atof.Prelude.Words.{u8, IsU128, IsBytes}
use atof.Voice.Packet.{VoicePacketDst, LawfulDst, VoicePacket}
use atof.Voice.Codec
use atof.Voice.Codec.{put_payload}
use atof.Voice.RoundTrip.{Fits, leftover}
use atof.Crypt.Cipher.{Aes}
use atof.Crypt.State.{CryptState, parsed, wrapping_add, encrypt, decrypt, count_packet}
use atof.Crypt.Session.{decrypt-encrypt}

-- The sender's state is what the receiver's state expects.
pub record InStep (sender receiver : CryptState) : Type 0 where
  pub keys : sender.key ≡ receiver.key
  pub nonce : IsU128 receiver.decrypt_nonce
  pub nonces : sender.encrypt_nonce ≡ receiver.decrypt_nonce

abbrev pub bump : CryptState → CryptState
bump s = record s { encrypt_nonce = wrapping_add s.encrypt_nonce 1 }

-- The state of the receiver after the next packet in order.
abbrev pub took : CryptState → ℕ → CryptState
took s nonce = count_packet s (u8 nonce) nonce false 0

pub took-InStep :
    (sender receiver : CryptState)
    → InStep sender receiver
    → InStep (bump sender) (took receiver (bump sender).encrypt_nonce)
took-InStep sender receiver step = record { keys = step.keys; nonce = omega arith; nonces = refl }

-- A receiver that seals a packet is in step as before.
pub bump-InStep :
    (sender receiver : CryptState) → InStep sender receiver → InStep sender (bump receiver)
bump-InStep sender receiver step = record {
  keys = step.keys;
  nonce = step.nonce;
  nonces = step.nonces;
}

-- `decrypt-encrypt` for the next packet in order, with the sender's state written out.
pub in_order :
    (aes : Aes) (ReplyDst Dst : VoicePacketDst) (law : LawfulDst Dst) (sender receiver : CryptState)
    (packet : VoicePacket Dst.SessionId) (datagram : List ℕ)
    → InStep sender receiver
    → Fits law packet
    → IsBytes (Codec.encode Dst packet [])
    → encrypt aes Dst ReplyDst sender packet ≡ some (bump sender, datagram)
    → decrypt aes ReplyDst Dst receiver datagram
      ≡ some (took receiver (bump sender).encrypt_nonce, leftover law packet, parsed (ok packet))
in_order aes ReplyDst Dst law sender receiver packet datagram step fits bytes sealed =
    let keys = step.keys in
    let nonce = step.nonce in
    let nonces = step.nonces in
    let (sender', sent, again, moved, opened) =
      decrypt-encrypt aes ReplyDst Dst law sender receiver 0 packet keys nonce (omega arith)
        (omega (arith, nonce, nonces)) fits bytes in
    let same : sender' ≡ bump sender = cc in
    let same_sent : sent ≡ datagram = cc in rw (same, same_sent) at opened
