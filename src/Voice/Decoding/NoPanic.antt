-- ===== src/Voice/Decoding/NoPanic.antt =====
-- mumble-protocol/src/voice.rs: no step of `decode` takes more of the buffer than there is.
use mathlib.Core.WellFounded.{Acc}
use atof.Prelude.{
  ℕ, bit_and, ◌-◌, ◌^◌, ◌≡◌, ◌≢◌, refl, inl, inr, List, [], ◌∷◌, ◌++◌, ◌||◌, true, none, some,
  arith, ltb, ◌==◌, Bool-cases, length, take, drop, can_split, Result, IoError, ok, err, read_u8,
  Shorter, shorter_wf,
}
use atof.Prelude.Words.{shr}
use atof.Varint.{read_varint}
use atof.Voice.Packet.{VoicePacketDst}
use atof.Voice.Codec.{
  drop-Shorter, Outcome, framed, try_read, try_step, read_frames, read_opus, read_payload, decode,
}

try_read-no_panic :
    {A B : Type 0} (buf : List ℕ) (r : Result IoError (A × List ℕ)) (k : A → List ℕ → Outcome B)
    → ((a : A) (cursor : List ℕ) → (k a cursor).0 ≢ none)
    → (try_read buf r k).0 ≢ none
try_read-no_panic buf (ok (a, cursor)) k h = h a cursor
try_read-no_panic buf (err x) k h = λ e. cc

try_step-no_panic :
    {A B : Type 0} (o : Outcome A) (k : A → List ℕ → Outcome B)
    → o.0 ≢ none
    → ((a : A) (rest : List ℕ) → (k a rest).0 ≢ none)
    → (try_step o k).0 ≢ none
try_step-no_panic (none, rest) k safe h = λ e. absurd (safe refl)
try_step-no_panic (some (ok a), rest) k safe h = h a rest
try_step-no_panic (some (err x), rest) k safe h = λ e. cc

read_frames-no_panic :
    (frames : List (List ℕ)) (buf : List ℕ) (w : Acc Shorter buf)
    → (read_frames frames buf w).0 ≢ none
unfolding read_frames
read_frames-no_panic frames [] (Acc.intro _ smaller) e = cc
read_frames-no_panic frames (header ∷ buf) (Acc.intro _ smaller) e =
    elim (Bool-cases (ltb (length buf) (bit_and header 0x7f))) [
      | inl cut ↦ let e' = rw cut at e in cc
      | inr room ↦
          let fits : can_split (bit_and header 0x7f) buf ≡ true = ground arith in
          elim (Bool-cases (bit_and header 0x80 == 0x80)) [
            | inl more ↦
                read_frames-no_panic (frames ++ (take (bit_and header 0x7f) buf ∷ []))
                  (drop (bit_and header 0x7f) buf)
                  (smaller _ (drop-Shorter (bit_and header 0x7f) header buf))
                  (rw (room, fits, more) at e)
            | inr last ↦ let e' = rw (room, fits, last) at e in cc
          ]
    ]

read_opus-no_panic : (buf cursor : List ℕ) → (read_opus buf cursor).0 ≢ none
unfolding read_opus
read_opus-no_panic buf cursor = try_read-no_panic buf (read_varint cursor) _ λ header rest e.
    let len = bit_and header (2 ^ 64 - 1 - 0x2000) in
    elim (Bool-cases (ltb (length rest) len)) [
      | inl short ↦ let e' = rw short at e in cc
      | inr room ↦
          let fits : can_split len rest ≡ true = ground arith in let e' = rw (room, fits) at e in cc
    ]

framed-no_panic :
    (kind : ℕ) (frames : List (List ℕ))
    → (kind == 0 || (kind == 2 || kind == 3)) ≡ true
    → framed kind frames ≢ none
framed-no_panic kind frames h e = elim (Bool-cases (kind == 0)) [
  | inl zeroth ↦ let e' = rw zeroth at e in cc
  | inr other ↦ elim (Bool-cases (kind == 2)) [
    | inl second ↦ let e' = rw (other, second) at e in cc
    | inr apart ↦ elim (Bool-cases (kind == 3)) [
      | inl third ↦ let e' = rw (other, apart, third) at e in cc
      | inr unknown ↦ let h' = rw (other, apart, unknown) at h in absurd cc
    ]
  ]
]

read_payload-no_panic : (kind : ℕ) (buf cursor : List ℕ) → (read_payload kind buf cursor).0 ≢ none
unfolding read_payload
read_payload-no_panic kind buf cursor e =
    elim (Bool-cases (kind == 0 || (kind == 2 || kind == 3))) [
      | inl frames_kind ↦
          try_step-no_panic (read_frames [] cursor (shorter_wf.apply cursor)) _
            (read_frames-no_panic [] cursor (shorter_wf.apply cursor))
            (λ frames rest. framed-no_panic kind frames frames_kind) (rw frames_kind at e)
      | inr other ↦ elim (Bool-cases (kind == 4)) [
        | inl opus_kind ↦ read_opus-no_panic buf cursor (rw (other, opus_kind) at e)
        | inr unknown ↦ let e' = rw (other, unknown) at e in cc
      ]
    ]

-- `decode` never panics, whatever the bytes and the direction.
pub decode-no_panic : (dst : VoicePacketDst) (buf : List ℕ) → (decode dst buf).0 ≢ none
unfolding decode
decode-no_panic dst buf = try_read-no_panic buf (read_u8 buf) _ λ header cursor e.
    elim (Bool-cases (shr header 5 == 1)) [
      | inl is_ping ↦
          try_read-no_panic buf (read_varint cursor) _ (λ timestamp rest e'. cc) (rw is_ping at e)
      | inr is_audio ↦
          try_read-no_panic buf (dst.read_session_id cursor) _
            (λ s after_id. try_read-no_panic buf (read_varint after_id) _ λ seq after_seq.
              try_step-no_panic (read_payload (shr header 5) buf after_seq) _
                (read_payload-no_panic (shr header 5) buf after_seq) (λ payload rest e'. cc))
            (rw is_audio at e)
    ]
