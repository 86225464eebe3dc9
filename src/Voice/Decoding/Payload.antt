-- ===== src/Voice/Decoding/Payload.antt =====
-- mumble-protocol/src/voice.rs: the steps of `decode` on any bytes.
use mathlib.Core.WellFounded.{Acc}
use atof.Prelude.{
  ℕ, ◌-◌, ◌^◌, ◌<◌, bit_and, ◌≡◌, ◌≢◌, refl, subst, inl, inr, true, none, some, List, [], ◌∷◌, ◌++◌,
  ◌||◌, arith, ltb, ◌==◌, Bool-cases, length, take, drop, can_split, length-take, All, All-append,
  Result, IoError, ok, err, Shorter, shorter_wf,
}
use atof.Prelude.Bits.Masks.{byte_low_seven}
use atof.Prelude.Words.{IsBytes}
use atof.Varint.{read_varint}
use atof.Voice.Packet.{varint_reads, VoicePacketPayload, celt_alpha, celt_beta, speex, opus}
use atof.Voice.Codec.{
  drop-Shorter, Outcome, framed, try_read, try_step, read_frames, read_opus, read_payload,
}
use atof.Voice.RoundTrip.{ShortFrames, FitsPayload, mask-ClearBit}

pub try_read-eq-ok :
    {A B : Type 0} (buf : List ℕ) (r : Result IoError (A × List ℕ)) (k : A → List ℕ → Outcome B)
    {b : B} {rest : List ℕ}
    → try_read buf r k ≡ (some (ok b), rest)
    → (a : A) × (cursor : List ℕ) × (r ≡ ok (a, cursor)) × (k a cursor ≡ (some (ok b), rest))
try_read-eq-ok buf (ok (a, cursor)) k e = (a, cursor, refl, e)
try_read-eq-ok buf (err x) k e = cc

pub try_step-eq-ok :
    {A B : Type 0} (o : Outcome A) (k : A → List ℕ → Outcome B) {b : B} {rest : List ℕ}
    → try_step o k ≡ (some (ok b), rest)
    → (a : A) × (mid : List ℕ) × (o ≡ (some (ok a), mid)) × (k a mid ≡ (some (ok b), rest))
try_step-eq-ok (none, mid) k e = cc
try_step-eq-ok (some (ok a), mid) k e = (a, mid, refl, e)
try_step-eq-ok (some (err x), mid) k e = cc

-- Two answers that are the same have the same result.
done-same :
    {A : Type 0} {a b : A} {x y : List ℕ}
    → ◌≡◌ {A = Outcome A} (some (ok a), x) (some (ok b), y)
    → a ≡ b
done-same e = cc

pushed-ne : (frames : List (List ℕ)) (frame : List ℕ) → frames ++ (frame ∷ []) ≢ []
pushed-ne [] frame e = cc
pushed-ne (f ∷ fs) frame e = cc

read_frames-Short :
    (frames : List (List ℕ)) (buf : List ℕ) (w : Acc Shorter buf) (out : List (List ℕ))
    (rest : List ℕ)
    → All (λ frame. length frame < 0x80) frames
    → read_frames frames buf w ≡ (some (ok out), rest)
    → ShortFrames out
unfolding read_frames
read_frames-Short frames [] (Acc.intro _ smaller) out rest h e = cc
read_frames-Short frames (header ∷ buf) (Acc.intro _ smaller) out rest h e =
    elim (Bool-cases (ltb (length buf) (bit_and header 0x7f))) [
      | inl cut ↦ let e' = rw cut at e in cc
      | inr room ↦
          let fits : can_split (bit_and header 0x7f) buf ≡ true = ground arith in
          elim (Bool-cases (bit_and header 0x80 == 0x80)) [
            | inl more ↦
                read_frames-Short frames' (drop (bit_and header 0x7f) buf)
                  (smaller _ (drop-Shorter (bit_and header 0x7f) header buf)) out rest short
                  (rw (room, fits, more) at e)
            | inr last ↦
                let e' : (some (ok frames'), drop (bit_and header 0x7f) buf)
                    ≡ (some (ok out), rest) =
                  rw (room, fits, last) at e in
                let same : frames' ≡ out = done-same e' in
                rw (← same) (pushed-ne frames (take (bit_and header 0x7f) buf), short)
          ]
    ]
  where
    frames' : List (List ℕ)
    frames' = frames ++ (take (bit_and header 0x7f) buf ∷ [])

    short : All (λ frame. length frame < 0x80) frames'
    short =
        All-append (λ (f : List ℕ). length f < 0x80) frames (take (bit_and header 0x7f) buf ∷ []) h
          (omega (arith, length-take (bit_and header 0x7f) buf, byte_low_seven header), tt)

read_opus-Fits :
    (buf cursor : List ℕ) (p : VoicePacketPayload) (rest : List ℕ)
    → IsBytes cursor
    → read_opus buf cursor ≡ (some (ok p), rest)
    → FitsPayload p
unfolding read_opus
read_opus-Fits buf cursor p rest h e =
    let (header, cur, eh, ek) = try_read-eq-ok buf (read_varint cursor) _ e in
    let len = bit_and header (2 ^ 64 - 1 - 0x2000) in
    elim (Bool-cases (ltb (length cur) len)) [
      | inl short ↦ let e' = rw short at ek in cc
      | inr room ↦
          let whole_frame : can_split len cur ≡ true = ground arith in
          let e' : ◌≡◌ {A = Outcome VoicePacketPayload}
              (some (ok (opus (take len cur) (bit_and header 0x2000 == 0x2000))), drop len cur)
              (some (ok p), rest) =
            rw (room, whole_frame) at ek in
          let same : opus (take len cur) (bit_and header 0x2000 == 0x2000) ≡ p = cc in
          let fits = (varint_reads cursor h header cur eh).0 in
          let clear = mask-ClearBit header fits in
          let whole : length (take len cur) ≡ len = ground (arith, length-take len cur) in
          subst FitsPayload same (rw whole clear)
    ]

framed-Fits :
    (kind : ℕ) (frames : List (List ℕ)) (p : VoicePacketPayload)
    → ShortFrames frames
    → framed kind frames ≡ some (ok p)
    → FitsPayload p
framed-Fits kind frames p h e = elim (Bool-cases (kind == 0)) [
  | inl zeroth ↦
      let e' = rw zeroth at e in let same : celt_alpha frames ≡ p = cc in subst FitsPayload same h
  | inr other ↦ elim (Bool-cases (kind == 2)) [
    | inl second ↦
        let e' = rw (other, second) at e in
        let same : speex frames ≡ p = cc in subst FitsPayload same h
    | inr apart ↦ elim (Bool-cases (kind == 3)) [
      | inl third ↦
          let e' = rw (other, apart, third) at e in
          let same : celt_beta frames ≡ p = cc in subst FitsPayload same h
      | inr unknown ↦ let e' = rw (other, apart, unknown) at e in absurd cc
    ]
  ]
]

-- A payload that is read fits the format, whatever the bytes were.
pub read_payload-Fits :
    (kind : ℕ) (buf cursor : List ℕ) (p : VoicePacketPayload) (rest : List ℕ)
    → IsBytes cursor
    → read_payload kind buf cursor ≡ (some (ok p), rest)
    → FitsPayload p
unfolding read_payload
read_payload-Fits kind buf cursor p rest h e =
    elim (Bool-cases (kind == 0 || (kind == 2 || kind == 3))) [
      | inl frames_kind ↦
          let e1 = rw frames_kind at e in
          let (frames, mid, ef, ek) = try_step-eq-ok _ _ e1 in
          let same : framed kind frames ≡ some (ok p) = cc in
          framed-Fits kind frames p
            (read_frames-Short [] cursor (shorter_wf.apply cursor) frames mid tt ef) same
      | inr other ↦ elim (Bool-cases (kind == 4)) [
        | inl opus_kind ↦ read_opus-Fits buf cursor p rest h (rw (other, opus_kind) at e)
        | inr unknown ↦ let e' = rw (other, unknown) at e in cc
      ]
    ]
