-- ===== src/Control/Tests.antt =====
-- Runs of the control codecs, and their theorems at concrete packets.
use atof.Prelude.{
  ℕ, ◌≡◌, ◌≢◌, refl, ◌↔◌, List, [], ◌∷◌, ◌++◌, none, some, arith, length, replicate,
  length-replicate, ok, err, other_error, true,
}
use atof.Varint.{write_varint, write_sized, put_varint}
use atof.Voice.Packet.{serverbound, serverbound_lawful, VoicePacket, audio, opus}
use atof.Voice.Codec
use atof.Voice.Codec.{put_payload}
use atof.Control.Raw.{RawControlPacket, raw_decode, raw_encode}
use atof.Control.Framing.{Framed, raw_decode_iff, raw_decode-oversized}
use atof.Control.Packet.{ping, ControlPacket, tunnel, try_from_raw, into_raw, decode, encode}
use atof.Control.Plain.{plain_messages}
use atof.Control.Conversions.{
  raw_from_voice, voice_from_raw, packet_from_voice, packet_from_message, raw_from_message,
  message_from_raw, conversions-agree,
}
use atof.Control.Codec.{control_decode-encode, control_decode-ne-none}

abbrev test_raw : RawControlPacket
test_raw = record { id = 11; bytes = 1 ∷ 2 ∷ 3 ∷ [] }

abbrev test_frame : List ℕ
test_frame = 0 ∷ 11 ∷ 0 ∷ 0 ∷ 0 ∷ 3 ∷ 1 ∷ 2 ∷ 3 ∷ 0 ∷ 9 ∷ []

decode_frame : raw_decode test_frame ≡ (some (ok (some test_raw)), 0 ∷ 9 ∷ [])
unfolding raw_decode
decode_frame = refl

raw_decode_iff_example :
    (raw_decode test_frame ≡ (some (ok (some test_raw)), 0 ∷ 9 ∷ []))
    ↔ ((raw_encode test_raw [] ++ (0 ∷ 9 ∷ []) ≡ test_frame) × Framed test_raw)
raw_decode_iff_example = raw_decode_iff test_frame (0 ∷ 9 ∷ []) test_raw (omega arith)

zeros-length : (n : ℕ) → (bytes : List ℕ) × (length bytes ≡ n)
zeros-length n = (replicate n 0, length-replicate n 0)

abbrev big_raw : RawControlPacket
big_raw = record { id = 1; bytes = (zeros-length 0x80_0000).0 }

raw_decode-oversized_example :
    raw_decode (raw_encode big_raw [] ++ []) ≡ (some (err other_error), raw_encode big_raw [] ++ [])
raw_decode-oversized_example =
    raw_decode-oversized big_raw [] (omega (arith, (zeros-length 0x80_0000).1))
      (omega (arith, (zeros-length 0x80_0000).1))

-- Both packets that the tests send: a voice packet in the tunnel, and an unknown packet.
abbrev test_tunnel : ControlPacket plain_messages serverbound
test_tunnel = tunnel (audio 0 tt 5 (opus (1 ∷ 2 ∷ []) true) none)

abbrev tunnel_bytes : List ℕ
tunnel_bytes = 0 ∷ 1 ∷ 0 ∷ 0 ∷ 0 ∷ 6 ∷ 0x80 ∷ 5 ∷ 0xa0 ∷ 2 ∷ 1 ∷ 2 ∷ []

encode_tunnel : encode plain_messages serverbound test_tunnel [] ≡ some tunnel_bytes
unfolding encode into_raw Codec.encode put_payload put_varint write_varint write_sized raw_encode
encode_tunnel = refl

control_decode-encode_example :
    decode plain_messages serverbound (tunnel_bytes ++ (7 ∷ []))
    ≡ (some (ok (some test_tunnel)), 7 ∷ [])
control_decode-encode_example =
    control_decode-encode plain_messages serverbound_lawful test_tunnel tunnel_bytes (7 ∷ [])
      (omega arith, tt, omega arith, omega arith, λ e. cc) encode_tunnel (omega arith)

control_decode-ne-none_example : (decode plain_messages serverbound tunnel_bytes).0 ≢ none
control_decode-ne-none_example =
    control_decode-ne-none plain_messages serverbound_lawful tunnel_bytes (omega arith)

abbrev test_voice : VoicePacket Unit
test_voice = audio 0 tt 5 (opus [] true) none

conversions-agree_example :
    (raw_from_message plain_messages serverbound ping (7 ∷ [])
      ≡ into_raw plain_messages serverbound
          (packet_from_message plain_messages serverbound ping (7 ∷ [])))
    × (some (raw_from_voice plain_messages serverbound test_voice)
        ≡ into_raw plain_messages serverbound
            (packet_from_voice plain_messages serverbound test_voice))
    × ((message_from_raw plain_messages serverbound ping (record { id = 3; bytes = 7 ∷ [] })
          ≡ ok (7 ∷ []))
        ↔ (try_from_raw plain_messages serverbound (record { id = 3; bytes = 7 ∷ [] })
            ≡ some (ok (packet_from_message plain_messages serverbound ping (7 ∷ [])))))
    × ((voice_from_raw plain_messages serverbound (record { id = 3; bytes = 7 ∷ [] })
          ≡ some (ok test_voice))
        ↔ (try_from_raw plain_messages serverbound (record { id = 3; bytes = 7 ∷ [] })
            ≡ some (ok (packet_from_voice plain_messages serverbound test_voice))))
conversions-agree_example =
    conversions-agree plain_messages serverbound ping (7 ∷ []) test_voice
      (record { id = 3; bytes = 7 ∷ [] })
