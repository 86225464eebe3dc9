-- ===== src/Voice/RoundTrip/Frames.antt =====
-- mumble-protocol/src/voice.rs: the two loops over the frames of a payload.
use mathlib.Core.WellFounded.{Acc}
use atof.Prelude.{
  ℕ, ◌+◌, ◌≤◌, ◌<◌, bit_and, bit_or, ◌≡◌, sym, ap, ap₂, ◌∙◌, List, [], ◌∷◌, ◌++◌, append-nil,
  append_assoc, arith, length, length-append, take, drop, take-append_length, drop-append_length,
  All, some, ok, Shorter,
}
use atof.Prelude.Bits.Masks.{bit_or_disjoint, bit_and_bit, byte_low_seven}
use atof.Prelude.Words.{u8}
use atof.Voice.Codec.{drop-Shorter, read_frames, continuation, put_frames}

-- One frame as it is written.
abbrev pub frames_bytes : List (List ℕ) → List ℕ
frames_bytes [] = []
frames_bytes (frame ∷ frames) =
    bit_or (continuation frames) (u8 (length frame)) ∷ (frame ++ frames_bytes frames)

pub put_frames-bytes :
    (out : List ℕ) (frames : List (List ℕ)) → put_frames out frames ≡ out ++ frames_bytes frames
unfolding put_frames
put_frames-bytes out [] = sym (append-nil out)
put_frames-bytes out (frame ∷ frames) =
    put_frames-bytes ((out ++ (bit_or (continuation frames) (u8 (length frame)) ∷ [])) ++ frame)
      frames
    ∙ append_assoc (out ++ (_ ∷ [])) frame (frames_bytes frames)
    ∙ append_assoc out (_ ∷ []) (frame ++ frames_bytes frames)

-- The header of a frame of at most 127 bytes: its length, and whether another frame follows.
frame_header :
    (frame : List ℕ) (frames : List (List ℕ))
    → length frame < 0x80
    → bit_or (continuation frames) (u8 (length frame)) ≡ continuation frames + length frame
frame_header frame [] h = bit_or_disjoint 7 0 (u8 (length frame)) (omega arith) ∙ omega arith
frame_header frame (_ ∷ _) h = bit_or_disjoint 7 1 (u8 (length frame)) (omega arith) ∙ omega arith

header_length :
    (frame : List ℕ) (frames : List (List ℕ))
    → length frame < 0x80
    → bit_and (bit_or (continuation frames) (u8 (length frame))) 0x7f ≡ length frame
header_length frame [] h =
    rw (frame_header frame [] h, byte_low_seven (0 + length frame)) (omega arith)
header_length frame (f ∷ fs) h =
    rw (frame_header frame (f ∷ fs) h, byte_low_seven (0x80 + length frame)) (omega arith)

header_more :
    (frame : List ℕ) (frames : List (List ℕ))
    → length frame < 0x80
    → bit_and (bit_or (continuation frames) (u8 (length frame))) 0x80 ≡ continuation frames
header_more frame [] h =
    rw (frame_header frame [] h, bit_and_bit 7 (0 + length frame)) (omega arith)
header_more frame (f ∷ fs) h =
    rw (frame_header frame (f ∷ fs) h, bit_and_bit 7 (0x80 + length frame)) (omega arith)

module _ (frames : List (List ℕ)) (header : ℕ) (buf : List ℕ)
    (smaller : (y : List ℕ) → Shorter y (header ∷ buf) → Acc Shorter y)
    (room : bit_and header 0x7f ≤ length buf) where
  abbrev pushed : List (List ℕ)
  pushed = frames ++ (take (bit_and header 0x7f) buf ∷ [])

  read_frames-last :
      bit_and header 0x80 ≡ 0
      → read_frames frames (header ∷ buf) (Acc.intro (header ∷ buf) smaller)
        ≡ (some (ok pushed), drop (bit_and header 0x7f) buf)
  unfolding read_frames
  read_frames-last flag = ground arith

  read_frames-next :
      bit_and header 0x80 ≡ 0x80
      → read_frames frames (header ∷ buf) (Acc.intro (header ∷ buf) smaller)
        ≡ read_frames pushed
            (drop (bit_and header 0x7f) buf)
            (smaller _ (drop-Shorter (bit_and header 0x7f) header buf))
  unfolding read_frames
  read_frames-next flag = ground arith

-- What the loop finds in front of it when the next frame is `first`.
record AtFrame (first : List ℕ) (more : List (List ℕ)) (rest : List ℕ) (header : ℕ) (buf : List ℕ)
    : Type 0 where
  room : bit_and header 0x7f ≤ length buf
  flag : bit_and header 0x80 ≡ continuation more
  taken : take (bit_and header 0x7f) buf ≡ first
  left : drop (bit_and header 0x7f) buf ≡ frames_bytes more ++ rest

frames_bytes-AtFrame :
    (first : List ℕ) (more : List (List ℕ)) (rest : List ℕ) (header : ℕ) (buf : List ℕ)
    → length first < 0x80
    → header ∷ buf ≡ frames_bytes (first ∷ more) ++ rest
    → AtFrame first more rest header buf
frames_bytes-AtFrame first more rest header buf h e =
    let head : header ≡ bit_or (continuation more) (u8 (length first)) = cc in
    let tail : buf ≡ (first ++ frames_bytes more) ++ rest = cc in
    let tail' : buf ≡ first ++ (frames_bytes more ++ rest) =
      tail ∙ append_assoc first (frames_bytes more) rest in
    let len : bit_and header 0x7f ≡ length first = rw head (header_length first more h) in
    record {
      room = rw (len, tail') (omega (arith, length-append first (frames_bytes more ++ rest)));
      flag = rw head (header_more first more h);
      taken = rw (len, tail') (take-append_length first (frames_bytes more ++ rest));
      left = rw (len, tail') (drop-append_length first (frames_bytes more ++ rest));
    }

-- The loop reads the frames of a payload back, and leaves what follows them.
pub read_frames-bytes :
    (frames : List (List ℕ)) (first : List ℕ) (more : List (List ℕ)) (rest : List ℕ)
    → All (λ frame. length frame < 0x80) (first ∷ more)
    → (buf : List ℕ) (w : Acc Shorter buf) → buf ≡ frames_bytes (first ∷ more) ++ rest
    → read_frames frames buf w ≡ (some (ok (frames ++ (first ∷ more))), rest)
read_frames-bytes frames first more rest h [] w e = cc
read_frames-bytes frames first [] rest h (header ∷ buf) (Acc.intro _ smaller) e =
    let at = frames_bytes-AtFrame first [] rest header buf h.0 e in
    read_frames-last frames header buf smaller at.room at.flag
    ∙ ap₂ (λ (f : List ℕ) (r : List ℕ). (some (ok (frames ++ (f ∷ []))), r)) at.taken at.left
read_frames-bytes frames first (second ∷ more) rest h (header ∷ buf) (Acc.intro _ smaller) e =
    let at = frames_bytes-AtFrame first (second ∷ more) rest header buf h.0 e in
    read_frames-next frames header buf smaller at.room at.flag
    ∙ read_frames-bytes (frames ++ (take (bit_and header 0x7f) buf ∷ [])) second more rest h.1
        (drop (bit_and header 0x7f) buf) (smaller _ (drop-Shorter (bit_and header 0x7f) header buf))
        at.left
    ∙ ap (λ (t : List (List ℕ)). (some (ok t), rest))
        (append_assoc frames (take (bit_and header 0x7f) buf ∷ []) (second ∷ more)
          ∙ ap (λ (f : List ℕ). frames ++ (f ∷ (second ∷ more))) at.taken)
