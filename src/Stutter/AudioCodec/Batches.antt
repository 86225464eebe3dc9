-- ===== src/Stutter/AudioCodec/Batches.antt =====
-- stutter/src/task_audio_codec.rs: the recorded samples are cut into frames and encoded in order.
use atof.Prelude.{
  ℕ, zero, suc, ◌-◌, ◌≤◌, ◌<◌, ◌≡◌, refl, ap, ◌∙◌, ◌⊎◌, inl, inr, List, [], ◌∷◌, ◌++◌, map,
  append_assoc, true, false, Option, some, ltb, ltb-false, ltb-true, dec_lt, arith, length, take,
  All, length-take, length-drop, take-append-drop, joined,
}
use atof.Control.Packet.{Protobuf}
use atof.Stutter.Ring.{RingBuffer, LawfulRing}
use atof.Stutter.Opus.{Opus, LawfulOpus}
use atof.Stutter.Messages.{voice}
use atof.Stutter.AudioCodec.{
  frame_len, voice_packet, CodecState, Effect, to_connection, sent_before, encode_frames,
}

module _ {Sample : Type 0} (codec : Opus Sample) where
  -- The encoder makes these outputs of these frames, one after the other.
  pub data Encodes
      : codec.Encoder → List (List Sample) → codec.Encoder → List (List ℕ) → Type 0 where
    done : {e : codec.Encoder} → Encodes e [] e []
    frame :
        {e e' e'' : codec.Encoder} {b : List Sample} {output : List ℕ} {frames : List (List Sample)}
        {outputs : List (List ℕ)}
        → codec.encode_float e b 1024 ≡ some (e', output)
        → Encodes e' frames e'' outputs
        → Encodes e (b ∷ frames) e'' (output ∷ outputs)

  pub Encodes-append :
      {e e' e'' : codec.Encoder} {xs ys : List (List Sample)} {os ps : List (List ℕ)}
      → Encodes e xs e' os
      → Encodes e' ys e'' ps
      → Encodes e (xs ++ ys) e'' (os ++ ps)
  Encodes-append done later = later
  Encodes-append (frame e first) later = frame e (Encodes-append first later)

module _ (protobuf : Protobuf) (Sample : Type 0) (silence : Sample) (ring : RingBuffer Sample)
    (codec : Opus Sample) (lawful : LawfulRing ring) (lawful_opus : LawfulOpus codec) where
  open lawful use {contents, capacity}

  abbrev pub State : Type 0
  State = CodecState protobuf Sample silence ring codec

  abbrev pub Effects : Type 0
  Effects = List (Effect protobuf Sample silence ring codec)

  abbrev pub sends : List ℕ → Effect protobuf Sample silence ring codec
  sends output = to_connection (voice (voice_packet output))

  -- From `s` to `s'` the task cuts whole frames off the samples, encodes them in order with these
  -- outputs, and keeps the samples that are left.
  pub record Batches (s s' : State) (samples : List Sample) (outputs : List (List ℕ)) : Type 0 where
    pub frames : List (List Sample)
    pub whole : All (λ (b : List Sample). length b ≡ frame_len) frames
    pub cut : joined frames ++ contents s'.buffer ≡ samples
    pub encoded : Encodes codec s.encoder frames s'.encoder outputs
    pub room : capacity s'.buffer ≡ capacity s.buffer

  -- The state after a frame was popped and encoded.
  abbrev popped : State → codec.Encoder → State
  popped s e = record s { encoder = e; buffer = (ring.pop_slice s.buffer frame_len).1 }

  not_short :
      (s : State)
      → frame_len ≤ length (contents s.buffer)
      → ltb (ring.len s.buffer) frame_len ≡ false
  not_short s enough =
      rw (lawful.len-contents s.buffer) (ltb-false (length (contents s.buffer)) frame_len enough)

  whole_frame :
      (s : State)
      → frame_len ≤ length (contents s.buffer)
      → length (take frame_len (contents s.buffer)) ≡ frame_len
  whole_frame s enough = omega (arith, length-take frame_len (contents s.buffer))

  module _ (fuel : ℕ) (s : State) (e : codec.Encoder) (output : List ℕ)
      (enough : frame_len ≤ length (contents s.buffer))
      (encodes : codec.encode_float s.encoder (take frame_len (contents s.buffer)) 1024
        ≡ some (e, output)) where
    pub encode_frames-refused :
        encode_frames protobuf Sample silence ring codec (suc fuel) zero s ≡ some (popped s e, [])
    unfolding encode_frames
    encode_frames-refused = rw (
      not_short s enough,
      lawful.pop_slice-take s.buffer frame_len,
      whole_frame s enough,
      encodes,
      encode_frames,
    )

    pub encode_frames-sent :
        (more : ℕ)
        → encode_frames protobuf Sample silence ring codec (suc fuel) (suc more) s
          ≡ sent_before protobuf Sample silence ring codec
              (sends output)
              (encode_frames protobuf Sample silence ring codec fuel more (popped s e))
    unfolding encode_frames
    encode_frames-sent more = rw (
      not_short s enough,
      lawful.pop_slice-take s.buffer frame_len,
      whole_frame s enough,
      encodes,
      encode_frames,
    )

    -- One frame, and what comes after it.
    pub frame-Batches :
        (s' : State) (outputs : List (List ℕ))
        → Batches (popped s e) s' (contents (popped s e).buffer) outputs
        → Batches s s' (contents s.buffer) (output ∷ outputs)
    frame-Batches s' outputs later = record {
      frames = take frame_len (contents s.buffer) ∷ later.frames;
      whole = (whole_frame s enough, later.whole);
      cut =
          append_assoc (take frame_len (contents s.buffer)) (joined later.frames)
            (contents s'.buffer)
          ∙ ap (take frame_len (contents s.buffer) ++◌) later.cut
          ∙ ap (take frame_len (contents s.buffer) ++◌)
              (lawful.contents-pop_slice s.buffer frame_len)
          ∙ take-append-drop frame_len (contents s.buffer);
      encoded = frame encodes later.encoded;
      room = later.room ∙ lawful.capacity-pop_slice s.buffer frame_len;
    }

  fewer :
      (s : State) (e : codec.Encoder)
      → length (contents (popped s e).buffer) ≡ length (contents s.buffer) - frame_len
  fewer s e =
      ap length (lawful.contents-pop_slice s.buffer frame_len)
      ∙ length-drop frame_len (contents s.buffer)

  pub no-Batches : (s : State) → Batches s s (contents s.buffer) []
  no-Batches s = record { frames = []; whole = tt; cut = refl; encoded = done; room = refl }

  encode_frames-short :
      (fuel accepted : ℕ) (s : State)
      → length (contents s.buffer) < frame_len
      → encode_frames protobuf Sample silence ring codec (suc fuel) accepted s ≡ some (s, [])
  unfolding encode_frames
  encode_frames-short fuel accepted s few =
      let short : ltb (ring.len s.buffer) frame_len ≡ true =
        rw (lawful.len-contents s.buffer) (ltb-true (length (contents s.buffer)) frame_len few) in
      rw (short, encode_frames)

  -- The answer of `encode_frames`: the first `accepted` outputs are sent, and the loop ends for want
  -- of samples, or at the output after those.
  abbrev pub Ends : (accepted : ℕ) → State → Option (State × Effects) → Type 0
  Ends accepted s answer =
      (s' : State) × (outputs : List (List ℕ)) × (answer
        ≡ some (s', map sends (take accepted outputs)))
      × Batches s s' (contents s.buffer) outputs
      × ((length (contents s'.buffer) < frame_len) ⊎ (length outputs ≡ suc accepted))

  sent-Ends :
      (fuel more : ℕ) (s : State) (e : codec.Encoder) (output : List ℕ)
      → frame_len ≤ length (contents s.buffer)
      → codec.encode_float s.encoder (take frame_len (contents s.buffer)) 1024 ≡ some (e, output)
      → Ends more
          (popped s e)
          (encode_frames protobuf Sample silence ring codec fuel more (popped s e))
      → Ends (suc more) s (encode_frames protobuf Sample silence ring codec (suc fuel) (suc more) s)
  sent-Ends fuel more s e output enough encodes (s', outputs, later, batches, ends) = (
    s',
    output ∷ outputs,
    encode_frames-sent fuel s e output enough encodes more
        ∙ ap (sent_before protobuf Sample silence ring codec (sends output)) later,
    frame-Batches fuel s e output enough encodes s' outputs batches,
    elim ends [ inl few ↦ inl few | inr all ↦ inr (ap suc all) ],
  )

  refused-Ends :
      (fuel : ℕ) (s : State) (e : codec.Encoder) (output : List ℕ)
      → frame_len ≤ length (contents s.buffer)
      → codec.encode_float s.encoder (take frame_len (contents s.buffer)) 1024 ≡ some (e, output)
      → Ends zero s (encode_frames protobuf Sample silence ring codec (suc fuel) zero s)
  refused-Ends fuel s e output enough encodes = (
    popped s e,
    output ∷ [],
    encode_frames-refused fuel s e output enough encodes,
    frame-Batches fuel s e output enough encodes (popped s e) [] (no-Batches (popped s e)),
    inr refl,
  )

  -- Fuel for each sample in the buffer is enough.
  pub encode_frames-Ends :
      (fuel accepted : ℕ) (s : State)
      → length (contents s.buffer) < fuel
      → Ends accepted s (encode_frames protobuf Sample silence ring codec fuel accepted s)
  encode_frames-Ends zero accepted s enough = absurd (omega arith)
  encode_frames-Ends (suc fuel) zero s enough =
      elim (dec_lt (length (contents s.buffer)) frame_len) [
        | yes few ↦ (s, [], encode_frames-short fuel zero s few, no-Batches s, inl few)
        | no many ↦
            let (e, output, encodes) =
              lawful_opus.encodes s.encoder (take frame_len (contents s.buffer))
                (whole_frame s (omega arith)) in
            refused-Ends fuel s e output (omega arith) encodes
      ]
  encode_frames-Ends (suc fuel) (suc more) s enough =
      elim (dec_lt (length (contents s.buffer)) frame_len) [
        | yes few ↦ (s, [], encode_frames-short fuel (suc more) s few, no-Batches s, inl few)
        | no many ↦
            let (e, output, encodes) =
              lawful_opus.encodes s.encoder (take frame_len (contents s.buffer))
                (whole_frame s (omega arith)) in
            sent-Ends fuel more s e output (omega arith) encodes
              (encode_frames-Ends fuel more (popped s e) (omega (arith, fewer s e)))
      ]
