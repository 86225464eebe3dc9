-- ===== src/Crypt/Tests.antt =====
-- Runs of the crypt state with a cipher that copies its block, and its theorems at those runs.
mod Replays
mod Streams
use atof.Prelude.{
  ℕ, ◌-◌, ◌^◌, ◌≡◌, ◌≢◌, refl, List, [], ◌∷◌, false, none, some, arith, length, drop, replicate, ok,
  All-replicate,
}
use atof.Prelude.Words.{IsU128, IsByte, IsBytes}
use atof.Varint.{read_varint, read_after, write_varint, write_sized, put_varint}
use atof.Voice.Packet.{clientbound, serverbound, serverbound_lawful, VoicePacket, audio, opus}
use atof.Voice.Codec
use atof.Voice.Codec.{read_payload, read_opus, put_payload}
use atof.Crypt.Cipher.{
  Aes, s2, to_be, aes_encrypt, aes_decrypt, encrypt_last, decrypt_last, encrypt_blocks,
  decrypt_blocks, ocb_encrypt, ocb_decrypt,
}
use atof.Crypt.Ocb.{ocb_decrypt-ocb_encrypt}
use atof.Crypt.Plain.{copying}
use atof.Crypt.State.{
  CryptState, DecryptError, repeated, mac, wrapping_add, failed, parsed, count_packet, new_from,
  arrival, encrypt, decrypt, open_packet,
}
use atof.Crypt.Total.{decrypt-ne-none}
use atof.Crypt.Invariant.{WellFormed}
use atof.Crypt.Accounting.{Accepts, decrypt-Accepts}
use atof.Crypt.Answers.{Failure, decrypt_replay, decrypt-failed}

abbrev pub client_packet : VoicePacket Unit
client_packet = audio 0 tt 5 (opus (1 ∷ 2 ∷ 3 ∷ []) false) none

abbrev test_key : List ℕ
test_key = replicate 16 7

abbrev pub test_sender : CryptState
test_sender = new_from test_key (replicate 16 1) (replicate 16 2)

abbrev pub test_receiver : CryptState
test_receiver = new_from test_key (replicate 16 2) (replicate 16 1)

encode-client_packet : Codec.encode serverbound client_packet [] ≡ 0x80 ∷ 5 ∷ 3 ∷ 1 ∷ 2 ∷ 3 ∷ []
unfolding Codec.encode put_payload put_varint write_varint write_sized
encode-client_packet = refl

abbrev pub test_datagram : List ℕ
test_datagram = 2 ∷ 140 ∷ 3 ∷ 5 ∷ 132 ∷ 7 ∷ 1 ∷ 3 ∷ 0 ∷ 1 ∷ []

abbrev pub next_nonce : ℕ
next_nonce = wrapping_add test_sender.encrypt_nonce 1

abbrev pub after_packet : CryptState
after_packet = count_packet test_receiver 2 next_nonce false 0

encrypt-client_packet :
    encrypt copying serverbound clientbound test_sender client_packet
    ≡ some (record test_sender { encrypt_nonce = next_nonce }, test_datagram)
unfolding encrypt Codec.encode put_payload put_varint write_varint write_sized ocb_encrypt
    encrypt_blocks encrypt_last aes_encrypt to_be s2 new_from
encrypt-client_packet = refl

pub decrypt-client_packet :
    decrypt copying clientbound serverbound test_receiver test_datagram
    ≡ some (after_packet, [], parsed (ok client_packet))
unfolding decrypt arrival open_packet Codec.decode read_payload read_opus read_varint read_after
    ocb_decrypt decrypt_blocks decrypt_last aes_encrypt aes_decrypt to_be s2 new_from
decrypt-client_packet = refl

-- A byte of the tag has changed.
decrypt_wrong_tag :
    decrypt copying clientbound serverbound test_receiver
      (2 ∷ 140 ∷ 3 ∷ 6 ∷ 132 ∷ 7 ∷ 1 ∷ 3 ∷ 0 ∷ 1 ∷ [])
    ≡ some (test_receiver, 0x80 ∷ 5 ∷ 3 ∷ 1 ∷ 2 ∷ 3 ∷ [], failed mac)
unfolding decrypt arrival open_packet ocb_decrypt decrypt_blocks decrypt_last aes_encrypt
    aes_decrypt to_be s2 new_from
decrypt_wrong_tag = refl

decrypt_late :
    decrypt copying clientbound serverbound test_receiver (200 ∷ 1 ∷ 2 ∷ 3 ∷ [])
    ≡ some (
      record test_receiver {
        decrypt_nonce = wrapping_add test_receiver.decrypt_nonce (2 ^ 128 - 57);
      },
      [],
      failed DecryptError.late,
    )
unfolding decrypt arrival new_from
decrypt_late = refl

ocb_decrypt-ocb_encrypt_example :
    (tag : ℕ) × (out : List ℕ) × (ocb_encrypt copying test_key 9 (replicate 20 3) ≡ some (tag, out))
    × (length out ≡ 20)
    × IsBytes out
    × (ocb_decrypt copying test_key 9 out ≡ some (tag, replicate 20 3))
ocb_decrypt-ocb_encrypt_example =
    ocb_decrypt-ocb_encrypt copying test_key 9 (replicate 20 3)
      (All-replicate IsByte 20 3 (omega arith))

pub client_packet-IsBytes : IsBytes (Codec.encode serverbound client_packet [])
client_packet-IsBytes = rw encode-client_packet (omega arith)

pub same_nonce : test_sender.encrypt_nonce ≡ wrapping_add test_receiver.decrypt_nonce 0
unfolding new_from
same_nonce = refl

pub same_key : test_sender.key ≡ test_receiver.key
unfolding new_from
same_key = refl

receiver-IsU128 : IsU128 test_receiver.decrypt_nonce
unfolding new_from
receiver-IsU128 = omega arith

pub history_length : length test_receiver.decrypt_history ≡ 256
unfolding new_from
history_length = refl

decrypt_replay_example :
    decrypt copying clientbound serverbound after_packet test_datagram
    ≡ some (after_packet, drop 4 test_datagram, failed repeated)
decrypt_replay_example =
    decrypt_replay copying clientbound serverbound test_receiver after_packet test_datagram []
      (ok client_packet) (omega arith) history_length decrypt-client_packet

decrypt-failed_example :
    Failure test_receiver
      (record test_receiver {
        decrypt_nonce = wrapping_add test_receiver.decrypt_nonce (2 ^ 128 - 57);
      })
      DecryptError.late
decrypt-failed_example =
    decrypt-failed copying clientbound serverbound test_receiver _ (200 ∷ 1 ∷ 2 ∷ 3 ∷ []) []
      DecryptError.late (omega arith) decrypt_late

decrypt-ne-none_example : decrypt copying clientbound serverbound test_receiver test_datagram ≢ none
decrypt-ne-none_example =
    decrypt-ne-none copying clientbound serverbound_lawful test_receiver test_datagram

pub test_receiver-WellFormed : WellFormed test_receiver
unfolding new_from
test_receiver-WellFormed = record {
  history = refl;
  nonce = omega arith;
  good = omega arith;
  late = omega arith;
  lost = omega arith;
}

decrypt-Accepts_example : Accepts test_receiver after_packet 2
decrypt-Accepts_example =
    decrypt-Accepts copying clientbound serverbound test_receiver after_packet test_datagram []
      (ok client_packet) (omega arith) receiver-IsU128 decrypt-client_packet
