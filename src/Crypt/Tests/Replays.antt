-- ===== src/Crypt/Tests/Replays.antt =====
-- Datagrams that a receiver gets more than once, with a cipher that copies its block.
use atof.Prelude.{◌+◌, ◌-◌, ◌*◌, ◌^◌, ◌≤◌, ◌<◌, ◌≡◌, refl, [], ◌∷◌, false, some, arith, drop, ok}
use atof.Prelude.Words.{u8, IsBytes}
use atof.Voice.Packet.{clientbound, serverbound}
use atof.Crypt.State.{
  CryptState, DecryptError, repeated, accept, wrapping_add, arrival, failed, parsed, new_from,
  decrypt,
}
use atof.Crypt.Answers.{decrypt_replay}
use atof.Crypt.Replay.{
  Distinct, Receives, start, takes, refuses, Receives-Distinct, decrypt-after_late,
}
use atof.Crypt.Plain.{copying}
use atof.Crypt.Tests.{
  test_receiver, test_datagram, client_packet, next_nonce, after_packet, decrypt-client_packet,
  history_length,
}

arrives : arrival test_receiver 2 ≡ accept next_nonce false 0
unfolding arrival new_from
arrives = refl

datagram-IsBytes : IsBytes test_datagram
datagram-IsBytes = omega arith

-- A packet, and the same packet once more.
two_datagrams :
    Receives copying clientbound serverbound test_receiver (next_nonce ∷ []) after_packet
two_datagrams =
    refuses
      (takes start test_datagram [] (ok client_packet) next_nonce false 0 datagram-IsBytes
        decrypt-client_packet arrives)
      test_datagram (drop 4 test_datagram) repeated datagram-IsBytes
      (decrypt_replay copying clientbound serverbound test_receiver after_packet test_datagram []
        (ok client_packet) datagram-IsBytes history_length decrypt-client_packet)
      (λ e. cc)

receiver_nonce :
    (30 ≤ test_receiver.decrypt_nonce) × (test_receiver.decrypt_nonce + 127 * 1 < 2 ^ 128)
unfolding new_from
receiver_nonce = (omega arith, omega arith)

Receives-Distinct_example : Distinct (next_nonce ∷ [])
Receives-Distinct_example =
    Receives-Distinct copying clientbound serverbound test_receiver after_packet (next_nonce ∷ [])
      receiver_nonce.0 receiver_nonce.1 history_length two_datagrams

decrypt-after_late_example :
    (u u' : CryptState) × (decrypt copying clientbound serverbound after_packet
        (u8 (wrapping_add next_nonce (2 ^ 128 - 50)) ∷ 0 ∷ 0 ∷ 0 ∷ [])
      ≡ some (u, [], failed DecryptError.late))
    × (decrypt copying clientbound serverbound u test_datagram
        ≡ some (u', [], parsed (ok client_packet)))
decrypt-after_late_example =
    decrypt-after_late copying clientbound serverbound test_receiver after_packet 2 140 3 5
      (drop 4 test_datagram) [] (ok client_packet) next_nonce 0 50 0 0 0 datagram-IsBytes arrives
      decrypt-client_packet (omega arith) (omega arith)
