-- ===== src/Voice/Tests.antt =====
-- Runs of the voice codec, and its theorems at concrete packets.
use atof.Prelude.{
  ℕ, ◌≡◌, refl, List, [], ◌∷◌, true, false, none, some, arith, replicate, ok, shorter_wf,
}
use atof.Varint.{read_varint, read_after, write_varint, write_sized, put_varint}
use atof.Voice.Packet.{
  serverbound, clientbound, serverbound_lawful, clientbound_lawful, read_client_session,
  VoicePacket, audio, opus, speex,
}
use atof.Voice.Codec.{decode, encode, read_payload, read_frames, read_opus, put_payload}
use atof.Voice.RoundTrip.{decode-encode, encode-opus_overflow}
use atof.Voice.Decoding.{decode-encode-decode}

-- The packet of the test `encrypt_and_decrypt_are_inverse`.
abbrev test_packet : VoicePacket ℕ
test_packet = audio 13 42 123_567 (opus (b't' ∷ b'e' ∷ b's' ∷ b't' ∷ []) true) none

abbrev test_bytes : List ℕ
test_bytes = 0x8d ∷ 42 ∷ 0xc1 ∷ 0xe2 ∷ 0xaf ∷ 0xa0 ∷ 4 ∷ b't' ∷ b'e' ∷ b's' ∷ b't' ∷ []

encode-test_packet : encode clientbound test_packet [] ≡ test_bytes
unfolding encode put_payload put_varint write_varint write_sized
encode-test_packet = refl

decode-test_packet : decode clientbound test_bytes ≡ (some (ok (some test_packet)), [])
unfolding decode read_payload read_opus read_client_session read_varint read_after
decode-test_packet = refl

abbrev two_frames : List ℕ
two_frames = 0x40 ∷ 7 ∷ 0x81 ∷ 1 ∷ 2 ∷ 5 ∷ 6 ∷ 9 ∷ []

decode-two_frames :
    decode serverbound two_frames
    ≡ (some (ok (some (audio 0 tt 7 (speex ((1 ∷ []) ∷ (5 ∷ 6 ∷ []) ∷ [])) (some (9 ∷ []))))), [])
unfolding decode read_payload read_frames read_varint read_after shorter_wf
decode-two_frames = refl

decode-encode_example :
    decode clientbound (encode clientbound test_packet []) ≡ (some (ok (some test_packet)), [])
decode-encode_example =
    decode-encode clientbound_lawful test_packet
      (omega arith, omega arith, omega arith, omega arith, λ e. cc)

decode-encode-decode_example :
    decode clientbound (encode clientbound test_packet []) ≡ (some (ok (some test_packet)), [])
decode-encode-decode_example =
    decode-encode-decode clientbound_lawful test_bytes (omega arith) test_packet []
      decode-test_packet

abbrev large_frame : List ℕ
large_frame = replicate 0x2000 7

encode-opus_overflow_example :
    encode serverbound (audio 0 tt 1 (opus large_frame false) none) []
    ≡ encode serverbound (audio 0 tt 1 (opus [] true) (some large_frame)) []
encode-opus_overflow_example =
    encode-opus_overflow serverbound_lawful 0 tt 1 large_frame 0 (omega arith) refl
