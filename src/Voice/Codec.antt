-- ===== src/Voice/Codec.antt =====
-- `VoiceCodec`: `decode` and `encode` of voice.rs, in the order in which they touch the buffer.
use mathlib.Core.WellFounded.{Acc}
use atof.Prelude.{
  ℕ, ◌-◌, ◌*◌, ◌^◌, bit_and, bit_or, List, [], ◌∷◌, ◌++◌, ◌||◌, Option, none, some, arith, ltb,
  ◌==◌, if◌then◌else◌, length, length-drop, take, drop, can_split, Result, IoError, ok, err,
  unexpected_eof, invalid_data, read_u8, Shorter, shorter_wf,
}
use atof.Prelude.Words.{u8, shr}
use atof.Varint.{read_varint, put_varint}
use atof.Voice.Packet.{
  VoicePacketDst, VoicePacket, ping, audio, VoicePacketPayload, celt_alpha, celt_beta, speex, opus,
}

-- What a call that works on `buf_mut` returns, and the buffer that it leaves. `none` is a panic.
abbrev pub Outcome : Type 0 → Type 0
Outcome A = Option (Result IoError A) × List ℕ

-- `?` on a read through the cursor: a failed read leaves `buf_mut` as it is.
abbrev pub try_read :
    {A B : Type 0} → List ℕ → Result IoError (A × List ℕ) → (A → List ℕ → Outcome B) → Outcome B
try_read buf_mut (ok (a, cursor)) k = k a cursor
try_read buf_mut (err e) k = (some (err e), buf_mut)

-- `?` on a step that has changed `buf_mut`.
abbrev pub try_step : {A B : Type 0} → Outcome A → (A → List ℕ → Outcome B) → Outcome B
try_step (none, buf_mut) k = (none, buf_mut)
try_step (some (ok a), buf_mut) k = k a buf_mut
try_step (some (err e), buf_mut) k = (some (err e), buf_mut)

pub drop-Shorter : (len h : ℕ) (bs : List ℕ) → Shorter (drop len bs) (h ∷ bs)
drop-Shorter len h bs = omega (arith, length-drop len bs)

-- The loop over the frames of a CELT or Speex payload. `frames` are those pushed so far.
unfoldable pub read_frames :
    List (List ℕ) → (buf_mut : List ℕ) → Acc Shorter buf_mut → Outcome (List (List ℕ))
read_frames frames [] (Acc.intro _ smaller) = (some (err unexpected_eof), [])
read_frames frames (header ∷ buf_mut) (Acc.intro _ smaller) =
    let len = bit_and header 0x7f in
    let frames' = frames ++ (take len buf_mut ∷ []) in
    let more =
      read_frames frames' (drop len buf_mut) (smaller _ (drop-Shorter len header buf_mut)) in
    if ltb (length buf_mut) len
    then (some (err unexpected_eof), buf_mut)
    else if can_split len buf_mut
    then (if bit_and header 0x80 == 0x80 then more else (some (ok frames'), drop len buf_mut))
    else (none, buf_mut)

-- The payload of an Opus packet: a varint with the terminator bit and the length, and one frame.
unfoldable pub read_opus : List ℕ → List ℕ → Outcome VoicePacketPayload
read_opus buf_mut cursor = try_read buf_mut (read_varint cursor) λ header rest.
    let termination_bit = bit_and header 0x2000 == 0x2000 in
    let len = bit_and header (2 ^ 64 - 1 - 0x2000) in
    if ltb (length rest) len
    then (some (err unexpected_eof), rest)
    else if can_split len rest
    then (some (ok (opus (take len rest) termination_bit)), drop len rest)
    else (none, rest)

-- The inner `match kind`, whose last arm panics.
abbrev pub framed : ℕ → List (List ℕ) → Option (Result IoError VoicePacketPayload)
framed kind frames =
    if kind == 0
    then some (ok (celt_alpha frames))
    else if kind == 2
    then some (ok (speex frames))
    else if kind == 3
    then some (ok (celt_beta frames))
    else none

-- `match kind` of the payload: `cursor` is what the cursor has not read of `buf_mut`.
unfoldable pub read_payload : ℕ → List ℕ → List ℕ → Outcome VoicePacketPayload
read_payload kind buf_mut cursor =
    if kind == 0 || (kind == 2 || kind == 3)
    then try_step (read_frames [] cursor (shorter_wf.apply cursor))
        (λ frames rest. (framed kind frames, rest))
    else if kind == 4
    then read_opus buf_mut cursor
    else (some (err invalid_data), buf_mut)

-- What is left in the buffer is positional information.
abbrev pub split_position : List ℕ → Option (List ℕ)
split_position [] = none
split_position (b ∷ bs) = some (b ∷ bs)

-- `match payload` of the encoder: the three bits of the header.
abbrev pub kind_of : VoicePacketPayload → ℕ
kind_of (celt_alpha _) = 0
kind_of (speex _) = 2
kind_of (celt_beta _) = 3
kind_of (opus _ _) = 4

-- `iter.peek()`: every frame but the last is marked as continued.
abbrev pub continuation : List (List ℕ) → ℕ
continuation [] = 0
continuation (_ ∷ _) = 0x80

unfoldable pub put_frames : List ℕ → List (List ℕ) → List ℕ
put_frames out [] = out
put_frames out (frame ∷ frames) =
    put_frames ((out ++ (bit_or (continuation frames) (u8 (length frame)) ∷ [])) ++ frame) frames

unfoldable pub put_payload : List ℕ → VoicePacketPayload → List ℕ
put_payload out (celt_alpha frames) = put_frames out frames
put_payload out (speex frames) = put_frames out frames
put_payload out (celt_beta frames) = put_frames out frames
put_payload out (opus frame termination_bit) =
    let term_bit = if termination_bit then 0x2000 else 0 in
    put_varint out (bit_or term_bit (length frame)) ++ frame

abbrev pub put_position : List ℕ → Option (List ℕ) → List ℕ
put_position out none = out
put_position out (some bytes) = out ++ bytes

module _ (dst : VoicePacketDst) where
  open dst use {SessionId, read_session_id, write_session_id}

  unfoldable pub decode : List ℕ → Outcome (Option (VoicePacket SessionId))
  decode buf_mut = try_read buf_mut (read_u8 buf_mut) λ header cursor.
      let kind = shr header 5 in
      let target = bit_and header 0x1f in
      if kind == 1
      then try_read buf_mut (read_varint cursor)
          (λ timestamp _. (some (ok (some (ping timestamp))), buf_mut))
      else try_read buf_mut (read_session_id cursor) λ session_id after_id.
        try_read buf_mut (read_varint after_id) λ seq_num after_seq.
          try_step (read_payload kind buf_mut after_seq) λ payload rest.
            (some (ok (some (audio target session_id seq_num payload (split_position rest)))), [])

  -- The header, the session id, the sequence number, the payload and the position.
  unfoldable pub encode : VoicePacket SessionId → List ℕ → List ℕ
  encode (ping timestamp) out = put_varint (out ++ (0x20 ∷ [])) timestamp
  encode (audio target session_id seq_num payload position_info) out =
      let header = bit_or (u8 (kind_of payload * 2 ^ 5)) (bit_and target 0x1f) in
      let out1 = (out ++ (header ∷ [])) ++ write_session_id session_id in
      let out2 = put_payload (put_varint out1 seq_num) payload in put_position out2 position_info
