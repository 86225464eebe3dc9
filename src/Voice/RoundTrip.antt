-- ===== src/Voice/RoundTrip.antt =====
-- mumble-protocol/src/voice.rs: `decode` on what `encode` wrote.
mod Frames
mod Payload
use atof.Prelude.{
  [], ℕ, ◌+◌, ◌*◌, ◌/◌, ◌%◌, ◌^◌, ◌≤◌, ◌<◌, bit_and, bit_or, ◌≡◌, ◌≢◌, refl, sym, List, ◌∷◌, ◌++◌,
  append-nil, append_assoc, true, false, Option, none, some, arith, ◌==◌, length, take, drop, ok,
}
use atof.Prelude.Bits.Masks.{bit_or_disjoint, byte_low_five}
use atof.Prelude.Words.{IsU64, u8, shr}
use atof.Varint.{read_varint, write_varint, put_varint}
use atof.Varint.RoundTrip.{read_varint-write_varint}
use atof.Voice.Packet.{
  VoicePacketDst, LawfulDst, VoicePacket, ping, audio, VoicePacketPayload, opus,
}
use atof.Voice.Codec.{
  try_read, try_step, read_payload, split_position, decode, kind_of, put_position, encode,
}
use Payload.{payload_bytes, put_payload-bytes, read_payload-bytes, opus_overflow-bytes}
pub use Payload.{ShortFrames, ClearBit, FitsPayload, mask-ClearBit}

abbrev pub position_bytes : Option (List ℕ) → List ℕ
position_bytes none = []
position_bytes (some bytes) = bytes

put_position-bytes :
    (out : List ℕ) (pos : Option (List ℕ)) → put_position out pos ≡ out ++ position_bytes pos
put_position-bytes out none = sym (append-nil out)
put_position-bytes out (some bytes) = refl

split-position_bytes :
    (pos : Option (List ℕ)) → pos ≢ some [] → split_position (position_bytes pos) ≡ pos
split-position_bytes none h = refl
split-position_bytes (some []) h = absurd (h refl)
split-position_bytes (some (b ∷ bs)) h = refl

-- The header byte and its two fields.
header_fields :
    (k target : ℕ)
    → k ≤ 4
    → target < 32
    → bit_or (u8 (k * 2 ^ 5)) (bit_and target 0x1f) ≡ k * 32 + target
header_fields k target hk ht =
    let low : bit_and target 0x1f ≡ target = omega (arith, byte_low_five target) in
    let high : u8 (k * 2 ^ 5) ≡ k * 2 ^ 5 = omega arith in
    rw (low, high) (bit_or_disjoint 5 k target (omega arith))

kind_of-le : (p : VoicePacketPayload) → (kind_of p ≤ 4) × (kind_of p ≢ 1)
kind_of-le p = (ground arith, λ e. ground arith)

module _ {dst : VoicePacketDst} (law : LawfulDst dst) where
  open dst use {SessionId}

  -- The packets that the wire format can carry.
  abbrev pub Fits : VoicePacket SessionId → Type 0
  Fits (ping timestamp) = IsU64 timestamp
  Fits (audio target session_id seq_num payload position_info) =
      (target < 32)
      × law.Valid session_id
      × IsU64 seq_num
      × FitsPayload payload
      × (position_info ≢ some [])

  -- What `decode` leaves in the buffer: all of a ping, nothing of an audio packet.
  abbrev pub leftover : VoicePacket SessionId → List ℕ
  leftover (ping timestamp) = encode dst (ping timestamp) []
  leftover (audio _ _ _ _ _) = []

  pub encode-bytes :
      (target : ℕ) (s : SessionId) (seq : ℕ) (p : VoicePacketPayload) (pos : Option (List ℕ))
      → encode dst (audio target s seq p pos) []
        ≡ bit_or (u8 (kind_of p * 2 ^ 5)) (bit_and target 0x1f)
          ∷ (dst.write_session_id s
              ++ (write_varint seq ++ (payload_bytes p ++ position_bytes pos)))
  unfolding encode put_varint
  encode-bytes target s seq p pos = rw (put_position-bytes, put_payload-bytes) (simp append_assoc)

  -- Past the header, with the kind and the target that it holds.
  decode-header :
      (k target : ℕ) (bytes : List ℕ)
      → k ≤ 4
      → k ≢ 1
      → target < 32
      → decode dst ((k * 32 + target) ∷ bytes)
        ≡ try_read ((k * 32 + target) ∷ bytes) (dst.read_session_id bytes) (λ s after_id.
          try_read ((k * 32 + target) ∷ bytes) (read_varint after_id) λ seq after_seq.
            try_step (read_payload k ((k * 32 + target) ∷ bytes) after_seq) λ payload rest.
              (some (ok (some (audio target s seq payload (split_position rest)))), []))
  unfolding decode
  decode-header k target bytes hk hne ht =
      let kind : shr (k * 32 + target) 5 ≡ k = omega arith in
      let other : (k == 1) ≡ false = ground arith in
      let low : bit_and (k * 32 + target) 0x1f ≡ target =
        omega (arith, byte_low_five (k * 32 + target)) in
      rw (kind, low, other)

  -- For a direction whose session ids are lawful, every packet that fits the wire format is decoded
  -- as it was encoded. A ping is left in the buffer, and nothing of an audio packet.
  pub decode-encode :
      (packet : VoicePacket SessionId)
      → Fits packet
      → decode dst (encode dst packet []) ≡ (some (ok (some packet)), leftover packet)
  decode-encode (ping timestamp) h =
      unfold decode encode put_varint in
      rw (← append-nil (write_varint timestamp)) (rw (read_varint-write_varint timestamp [] h))
  decode-encode (audio target s seq p pos) h = rw (
    encode-bytes target s seq p pos,
    header_fields (kind_of p) target (kind_of-le p).0 h.0,
    decode-header (kind_of p) target _ (kind_of-le p).0 (kind_of-le p).1 h.0,
    law.read-write s (write_varint seq ++ (payload_bytes p ++ position_bytes pos)) h.1,
    read_varint-write_varint seq (payload_bytes p ++ position_bytes pos) h.2,
    read_payload-bytes p _ (position_bytes pos) h.3,
    split-position_bytes pos h.4,
  )

  -- An Opus frame whose length has bit 13 set, 8192 bytes for one, is encoded exactly as the
  -- terminating frame of the remaining length with the other bytes as positional information.
  pub encode-opus_overflow :
      (target : ℕ) (s : SessionId) (seq : ℕ) (frame : List ℕ) (n : ℕ)
      → n / 0x2000 % 2 ≡ 0
      → length frame ≡ 0x2000 + n
      → encode dst (audio target s seq (opus frame false) none) []
        ≡ encode dst (audio target s seq (opus (take n frame) true) (some (drop n frame))) []
  encode-opus_overflow target s seq frame n clear size =
      rw
        (
          encode-bytes target s seq (opus frame false) none,
          encode-bytes target s seq (opus (take n frame) true) (some (drop n frame)),
        )
        (unfold position_bytes in rw (opus_overflow-bytes frame n clear size, append-nil))
