-- ===== src/Voice/Decoding.antt =====
-- mumble-protocol/src/voice.rs: `decode` on any bytes.
mod Payload
mod NoPanic
pub use NoPanic.{decode-no_panic}
use atof.Prelude.{
  [], ℕ, bit_and, ◌≡◌, ◌≢◌, sym, subst, List, ◌∷◌, ◌++◌, Option, none, some, arith, ◌==◌,
  Bool-cases, inl, inr, ok, read_u8, All-append_end,
}
use atof.Prelude.Bits.Masks.{byte_low_five}
use atof.Prelude.Readers.{Reads-read_u8}
use atof.Prelude.Words.{IsByte, IsBytes, shr}
use atof.Varint.{read_varint}
use atof.Voice.Packet.{VoicePacketDst, LawfulDst, varint_reads, VoicePacket, ping, audio}
use atof.Voice.Codec.{try_read, try_step, read_payload, split_position, decode, encode}
use atof.Voice.RoundTrip.{Fits, leftover, decode-encode}
use Payload.{try_read-eq-ok, try_step-eq-ok, read_payload-Fits}

split_position-ne : (rest : List ℕ) → split_position rest ≢ some []
split_position-ne [] e = cc
split_position-ne (b ∷ bs) e = cc

behind : (front rest bytes : List ℕ) → bytes ≡ front ++ rest → IsBytes bytes → IsBytes rest
behind front rest bytes cut h = All-append_end IsByte front rest (subst IsBytes cut h)

module _ {dst : VoicePacketDst} (law : LawfulDst dst) where
  open dst use {SessionId}

  module _ (buf : List ℕ) (bytes : IsBytes buf) where
    audio-result :
        (header : ℕ) (cursor : List ℕ)
        → IsBytes cursor
        → (answer : Option (VoicePacket SessionId)) (rest : List ℕ)
        → try_read buf (dst.read_session_id cursor) (λ s after_id.
          try_read buf (read_varint after_id) λ seq after_seq.
            try_step (read_payload (shr header 5) buf after_seq) λ payload left. (
              some (ok (some (audio (bit_and header 0x1f) s seq payload (split_position left)))),
              [],
            ))
          ≡ (some (ok answer), rest)
        → (packet : VoicePacket SessionId) × (answer ≡ some packet) × Fits law packet
    audio-result header cursor hc answer rest e =
        let (s, after_id, es, e1) = try_read-eq-ok buf (dst.read_session_id cursor) _ e in
        let (valid, front, cut) = law.reads cursor hc s after_id es in
        let h1 : IsBytes after_id = behind front after_id cursor cut hc in
        let (seq, after_seq, eq, e2) = try_read-eq-ok buf (read_varint after_id) _ e1 in
        let (fits, front', cut') = varint_reads after_id h1 seq after_seq eq in
        let h2 : IsBytes after_seq = behind front' after_seq after_id cut' h1 in
        let (payload, left, ep, e3) =
          try_step-eq-ok (read_payload (shr header 5) buf after_seq) _ e2 in
        let same : some (audio (bit_and header 0x1f) s seq payload (split_position left)) ≡ answer =
          cc in
        (
          audio (bit_and header 0x1f) s seq payload (split_position left),
          sym same,
          (
            omega (arith, byte_low_five header),
            valid,
            fits,
            read_payload-Fits (shr header 5) buf after_seq payload left h2 ep,
            split_position-ne left,
          ),
        )

    -- A successful `decode` returns a packet, and one that fits the format.
    decode-result :
        (answer : Option (VoicePacket SessionId)) (rest : List ℕ)
        → decode dst buf ≡ (some (ok answer), rest)
        → (packet : VoicePacket SessionId) × (answer ≡ some packet) × Fits law packet
    unfolding decode
    decode-result answer rest e =
        let (header, cursor, eh, e1) = try_read-eq-ok buf (read_u8 buf) _ e in
        let (_, front, cut) = Reads-read_u8 buf bytes header cursor eh in
        let after_header : IsBytes cursor = behind front cursor buf cut bytes in
        elim (Bool-cases (shr header 5 == 1)) [
          | inl is_ping ↦
              let (timestamp, left, et, e2) =
                try_read-eq-ok buf (read_varint cursor) _ (rw is_ping at e1) in
              (ping timestamp, cc, (varint_reads cursor after_header timestamp left et).0)
          | inr is_audio ↦ audio-result header cursor after_header answer rest (rw is_audio at e1)
        ]

  -- On bytes, `decode` never answers `Ok(None)`, for a direction whose session ids are lawful.
  pub decode-ne-none :
      (buf : List ℕ) → IsBytes buf → (rest : List ℕ) → decode dst buf ≢ (some (ok none), rest)
  decode-ne-none buf bytes rest e =
      let (packet, some_packet, _) = decode-result buf bytes none rest e in cc

  -- A packet that is decoded from bytes fits the wire format, for a lawful direction.
  pub decode-Fits :
      (buf : List ℕ)
      → IsBytes buf
      → (packet : VoicePacket SessionId) (rest : List ℕ)
      → decode dst buf ≡ (some (ok (some packet)), rest)
      → Fits law packet
  decode-Fits buf bytes packet rest e =
      let (found, same, fits) = decode-result buf bytes (some packet) rest e in
      let e' : found ≡ packet = cc in subst (Fits law) e' fits

  -- A packet that was decoded from bytes is the same after it is encoded and decoded once more, for
  -- a lawful direction. The second `decode` leaves a ping in the buffer, and nothing else.
  pub decode-encode-decode :
      (buf : List ℕ)
      → IsBytes buf
      → (packet : VoicePacket SessionId) (rest : List ℕ)
      → decode dst buf ≡ (some (ok (some packet)), rest)
      → decode dst (encode dst packet []) ≡ (some (ok (some packet)), leftover law packet)
  decode-encode-decode buf bytes packet rest e =
      decode-encode law packet (decode-Fits buf bytes packet rest e)
