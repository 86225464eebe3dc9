-- ===== src/Voice/RoundTrip/Payload.antt =====
-- mumble-protocol/src/voice.rs: the payload, as it is written and read.
use atof.Prelude.{
  ℕ, ◌+◌, ◌-◌, ◌*◌, ◌/◌, ◌%◌, ◌^◌, ◌<◌, bit_and, bit_or, ◌≡◌, ◌≢◌, refl, ap, ◌∙◌, List, [], ◌∷◌,
  ◌++◌, append_assoc, Bool, true, false, arith, ◌==◌, if◌then◌else◌, length, length-append,
  length-take, take-append-drop, take, drop, take-append_length, drop-append_length, All, some, ok,
  shorter_wf,
}
use atof.Prelude.Bits.Masks.{bit_and_ones, bit_and_bit, bit_and-zero, zero-bit_or}
use atof.Prelude.Bits.{bit_and_fields, bit_or_fields}
use atof.Varint.{write_varint, put_varint}
use atof.Varint.RoundTrip.{read_varint-write_varint}
use atof.Voice.Packet.{VoicePacketPayload, celt_alpha, celt_beta, speex, opus}
use atof.Voice.Codec.{read_frames, read_opus, read_payload, kind_of, put_payload}
use atof.Voice.RoundTrip.Frames.{frames_bytes, put_frames-bytes, read_frames-bytes}

-- What the wire format can carry: frame lengths of seven bits and at least one frame in CELT and
-- Speex, and in Opus a frame length of 64 bits in which the terminator's bit is clear.
abbrev pub ShortFrames : List (List ℕ) → Type 0
ShortFrames frames = (frames ≢ []) × All (λ frame. length frame < 0x80) frames

abbrev pub ClearBit : ℕ → Type 0
ClearBit n = (n / 0x2000 % 2 ≡ 0) × (n < 2 ^ 64)

abbrev pub FitsPayload : VoicePacketPayload → Type 0
FitsPayload (celt_alpha frames) = ShortFrames frames
FitsPayload (celt_beta frames) = ShortFrames frames
FitsPayload (speex frames) = ShortFrames frames
FitsPayload (opus frame _) = ClearBit (length frame)

abbrev opus_header : List ℕ → Bool → ℕ
opus_header frame end = bit_or (if end then 0x2000 else 0) (length frame)

abbrev pub payload_bytes : VoicePacketPayload → List ℕ
payload_bytes (celt_alpha frames) = frames_bytes frames
payload_bytes (celt_beta frames) = frames_bytes frames
payload_bytes (speex frames) = frames_bytes frames
payload_bytes (opus frame end) = write_varint (opus_header frame end) ++ frame

pub put_payload-bytes :
    (out : List ℕ) (p : VoicePacketPayload) → put_payload out p ≡ out ++ payload_bytes p
unfolding put_payload put_varint
put_payload-bytes out (celt_alpha frames) = put_frames-bytes out frames
put_payload-bytes out (celt_beta frames) = put_frames-bytes out frames
put_payload-bytes out (speex frames) = put_frames-bytes out frames
put_payload-bytes out (opus frame end) =
    append_assoc out (write_varint (opus_header frame end)) frame

record HeaderFields (n : ℕ) (end : Bool) (header : ℕ) : Type 0 where
  fits : header < 2 ^ 64
  bit : (bit_and header 0x2000 == 0x2000) ≡ end
  len : bit_and header (2 ^ 64 - 1 - 0x2000) ≡ n

-- A length with the bit clear is a field above the bit and a field below it.
or_bit :
    (end : Bool) (n : ℕ)
    → n / 0x2000 % 2 ≡ 0
    → bit_or (if end then 0x2000 else 0) n ≡ (if end then 0x2000 else 0) + n
or_bit true n h = ground (
  arith,
  bit_or_fields 13 1 0 (n / 0x2000) (n % 0x2000),
  bit_or_fields 1 0 1 (n / 0x4000) 0,
  zero-bit_or (n % 0x2000),
  zero-bit_or (n / 0x4000),
)
or_bit false n h = rw zero-bit_or (omega arith)

-- The mask that clears the bit keeps both fields.
clear_bit :
    (q r : ℕ) (b : ℕ)
    → b < 2
    → r < 0x2000
    → q < 2 ^ 50
    → bit_and ((q * 2 + b) * 2 ^ 13 + r) (2 ^ 64 - 1 - 0x2000) ≡ q * 2 * 2 ^ 13 + r
clear_bit q r b hb hr hq = ground (
  arith,
  bit_and_fields 13 (q * 2 + b) r (2 ^ 51 - 2) (2 ^ 13 - 1) hr (omega arith),
  bit_and_ones 13 r,
  bit_and_fields 1 q b (2 ^ 50 - 1) 0,
  bit_and_ones 50 q,
  bit_and-zero b,
)

sum_fields :
    (end : Bool) (n : ℕ) → ClearBit n → HeaderFields n end ((if end then 0x2000 else 0) + n)
sum_fields true n h =
    let cut : 0x2000 + n ≡ (n / 0x4000 * 2 + 1) * 2 ^ 13 + n % 0x2000 = omega (arith, h.0) in
    record {
      fits = omega (arith, h.0, h.1);
      bit = ground (arith, bit_and_bit 13 (0x2000 + n));
      len = rw cut (
          clear_bit (n / 0x4000) (n % 0x2000) 1 (omega arith) (omega arith) (omega (arith, h.1))
          ∙ omega (arith, h.0));
    }
sum_fields false n h =
    let cut : 0 + n ≡ (n / 0x4000 * 2 + 0) * 2 ^ 13 + n % 0x2000 = omega (arith, h.0) in
    record {
      fits = omega (arith, h.0, h.1);
      bit = ground (arith, bit_and_bit 13 (0 + n));
      len = rw cut (
          clear_bit (n / 0x4000) (n % 0x2000) 0 (omega arith) (omega arith) (omega (arith, h.1))
          ∙ omega (arith, h.0));
    }

opus_header-fields :
    (n : ℕ) (end : Bool) → ClearBit n → HeaderFields n end (bit_or (if end then 0x2000 else 0) n)
opus_header-fields n end h = rw (or_bit end n h.0) (sum_fields end n h)

read_opus-bytes :
    (buf frame rest : List ℕ) (end : Bool)
    → ClearBit (length frame)
    → read_opus buf ((write_varint (opus_header frame end) ++ frame) ++ rest)
      ≡ (some (ok (opus frame end)), rest)
unfolding read_opus
read_opus-bytes buf frame rest end h =
    let f = opus_header-fields (length frame) end h in
    rw
      (
        append_assoc (write_varint (opus_header frame end)) frame rest,
        read_varint-write_varint (opus_header frame end) (frame ++ rest) f.fits,
        f.len,
        f.bit,
        take-append_length frame rest,
        drop-append_length frame rest,
      )
      (ground (arith, length-append frame rest))

read_frames-all :
    (frames : List (List ℕ)) (rest : List ℕ)
    → ShortFrames frames
    → read_frames [] (frames_bytes frames ++ rest) (shorter_wf.apply (frames_bytes frames ++ rest))
      ≡ (some (ok frames), rest)
read_frames-all [] rest h = absurd (h.0 refl)
read_frames-all (first ∷ more) rest h =
    read_frames-bytes [] first more rest h.1 _ (shorter_wf.apply _) refl

-- The payload parser, given the kind that the header names, reads back the payload.
pub read_payload-bytes :
    (p : VoicePacketPayload) (buf rest : List ℕ)
    → FitsPayload p
    → read_payload (kind_of p) buf (payload_bytes p ++ rest) ≡ (some (ok p), rest)
unfolding read_payload
read_payload-bytes (celt_alpha frames) buf rest h = rw (read_frames-all frames rest h)
read_payload-bytes (celt_beta frames) buf rest h = rw (read_frames-all frames rest h)
read_payload-bytes (speex frames) buf rest h = rw (read_frames-all frames rest h)
read_payload-bytes (opus frame end) buf rest h = read_opus-bytes buf frame rest end h

-- The length that the decoder takes out of a header has the bit clear.
pub mask-ClearBit : (header : ℕ) → header < 2 ^ 64 → ClearBit (bit_and header (2 ^ 64 - 1 - 0x2000))
mask-ClearBit header h =
    let cut : header ≡ (header / 0x4000 * 2 + header / 0x2000 % 2) * 2 ^ 13 + header % 0x2000 =
      omega arith in
    let e : bit_and header (2 ^ 64 - 1 - 0x2000) ≡ header / 0x4000 * 2 * 2 ^ 13 + header % 0x2000 =
      ap (λ (t : ℕ). bit_and t (2 ^ 64 - 1 - 0x2000)) cut
      ∙ clear_bit (header / 0x4000) (header % 0x2000) (header / 0x2000 % 2) (omega arith)
          (omega arith) (omega arith) in
    (omega (arith, e), omega (arith, e))

-- A frame whose length carries the terminator's bit is written as a shorter, final frame and the
-- bytes behind that.
pub opus_overflow-bytes :
    (frame : List ℕ) (n : ℕ)
    → n / 0x2000 % 2 ≡ 0
    → length frame ≡ 0x2000 + n
    → payload_bytes (opus frame false) ≡ payload_bytes (opus (take n frame) true) ++ drop n frame
opus_overflow-bytes frame n clear size =
    let short : length (take n frame) ≡ n = omega (arith, length-take n frame, size) in
    rw (
      size,
      zero-bit_or (0x2000 + n),
      short,
      or_bit true n clear,
      append_assoc (write_varint (0x2000 + n)) (take n frame) (drop n frame),
      take-append-drop n frame,
    )
