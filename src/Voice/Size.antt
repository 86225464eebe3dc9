-- ===== src/Voice/Size.antt =====
-- mumble-protocol/src/voice.rs: how long the encoding of an Opus packet is.
use atof.Prelude.{
  ℕ, bit_or, ◌+◌, ◌≤◌, ap, List, [], ◌++◌, false, none, arith, length, length-append,
}
use atof.Prelude.Bits.Masks.{zero-bit_or}
use atof.Prelude.Words.{IsU64}
use atof.Varint.{write_varint}
use atof.Varint.Reading.{write_varint-shape}
use atof.Voice.Packet.{VoicePacketDst, LawfulDst, opus, audio}
use atof.Voice.Codec.{encode}
use atof.Voice.RoundTrip.{encode-bytes}

pub length-encode-opus :
    {dst : VoicePacketDst} (law : LawfulDst dst) (s : dst.SessionId) (seq : ℕ) (frame : List ℕ)
    → IsU64 seq
    → IsU64 (length frame)
    → length (encode dst (audio 0 s seq (opus frame false) none) [])
      ≤ 21 + length (dst.write_session_id s) + length frame
length-encode-opus {dst = dst} law s seq frame hs hf =
    rw (encode-bytes law 0 s seq (opus frame false) none) (
      let (_, _, seq_size) = write_varint-shape seq hs in
      let header = zero-bit_or (length frame) in
      let (_, _, header_size) = write_varint-shape (length frame) hf in
      let same = ap (λ (n : ℕ). length (write_varint n)) header in
      omega (
        arith,
        length-append (dst.write_session_id s)
            (write_varint seq ++ ((write_varint (bit_or 0 (length frame)) ++ frame) ++ [])),
        length-append (write_varint seq) ((write_varint (bit_or 0 (length frame)) ++ frame) ++ []),
        length-append (write_varint (bit_or 0 (length frame)) ++ frame) [],
        length-append (write_varint (bit_or 0 (length frame))) frame,
        seq_size,
        header_size,
        same,
      ))
