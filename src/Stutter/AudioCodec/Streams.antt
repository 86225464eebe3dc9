-- ===== src/Stutter/AudioCodec/Streams.antt =====
-- stutter/src/task_audio_codec.rs: what becomes of the samples that the microphone delivers.
use atof.Prelude.{
  ℕ, suc, ◌+◌, ◌-◌, ◌*◌, ◌≤◌, ◌<◌, ◌≡◌, refl, sym, ap, subst, ◌∙◌, ◌⊎◌, inl, inr, List, [], ◌∷◌,
  ◌++◌, map, append-nil, append_assoc, true, some, arith, length, take, All, length-append,
  take_all, All-append, joined, joined-append, joined-length, map-append,
}
use atof.Control.Packet.{Protobuf}
use atof.Stutter.Ring.{RingBuffer, LawfulRing}
use atof.Stutter.Opus.{Opus, LawfulOpus}
use atof.Stutter.Messages.{outbound}
use atof.Stutter.AudioCodec.{
  frame_len, initial, Event, codec_step, and_on, effects_before, run_audio_codec_task,
}
use atof.Stutter.AudioCodec.Batches.{
  Encodes, done, frame, Encodes-append, State, Effects, sends, Batches, no-Batches,
  encode_frames-Ends,
}

Encodes-length :
    {Sample : Type 0} (codec : Opus Sample) {e e' : codec.Encoder} {frames : List (List Sample)}
    {outputs : List (List ℕ)}
    → Encodes codec e frames e' outputs
    → length outputs ≡ length frames
Encodes-length codec done = refl
Encodes-length codec (frame _ later) = ap suc (Encodes-length codec later)

module _ (protobuf : Protobuf) (Sample : Type 0) (silence : Sample) (ring : RingBuffer Sample)
    (codec : Opus Sample) (lawful : LawfulRing ring) (lawful_opus : LawfulOpus codec) where
  open lawful use {contents, capacity}

  abbrev pub Task : Type 0
  Task = State protobuf Sample silence ring codec lawful lawful_opus

  abbrev pub Cuts : Task → Task → List Sample → List (List ℕ) → Type 0
  Cuts = Batches protobuf Sample silence ring codec lawful lawful_opus

  -- The messages that carry these outputs.
  abbrev pub sent : List (List ℕ) → Effects protobuf Sample silence ring codec lawful lawful_opus
  sent = map (sends protobuf Sample silence ring codec lawful lawful_opus)

  Batches-bound :
      (s s' : Task) (samples : List Sample) (outputs : List (List ℕ))
      → Cuts s s' samples outputs
      → length outputs * frame_len ≤ length samples
  Batches-bound s s' samples outputs batches =
      let same = Encodes-length codec batches.encoded in
      let frames = joined-length frame_len batches.frames batches.whole in
      let both = length-append (joined batches.frames) (contents s'.buffer) in
      let all = ap length batches.cut in omega (arith, same, frames, both, all)

  Batches-append :
      (s t u : Task) (xs ys : List Sample) (os ps : List (List ℕ))
      → Cuts s t xs os
      → Cuts t u (contents t.buffer ++ ys) ps
      → Cuts s u (xs ++ ys) (os ++ ps)
  Batches-append s t u xs ys os ps first later = record {
    frames = first.frames ++ later.frames;
    whole =
        All-append (λ (b : List Sample). length b ≡ frame_len) first.frames later.frames first.whole
          later.whole;
    cut =
        ap (◌++ contents u.buffer) (joined-append first.frames later.frames)
        ∙ append_assoc (joined first.frames) (joined later.frames) (contents u.buffer)
        ∙ ap (joined first.frames ++◌) later.cut
        ∙ sym (append_assoc (joined first.frames) (contents t.buffer) ys)
        ∙ ap (◌++ ys) first.cut;
    encoded = Encodes-append codec first.encoded later.encoded;
    room = later.room ∙ first.room;
  }

  -- What a message of the microphone does: the samples that fit are queued, and the frames that are
  -- full are encoded in order. The first `accepted` of the outputs are sent. The task goes on, with
  -- less than a frame left, or because the output after those was refused.
  pub codec_step-outbound :
      (samples : List Sample) (accepted : ℕ) (s : Task)
      → (s' : Task) × (outputs : List (List ℕ)) × (codec_step protobuf Sample silence ring codec
            (record { message = outbound samples; accepted = accepted })
            s
          ≡ some (s', sent (take accepted outputs), true))
        × Cuts s s'
            (contents s.buffer ++ take (capacity s.buffer - length (contents s.buffer)) samples)
            outputs
        × ((length (contents s'.buffer) < frame_len) ⊎ (length outputs ≡ suc accepted))
  unfolding codec_step
  codec_step-outbound samples accepted s =
      let pushed = record s { buffer = ring.push_slice s.buffer samples } in
      let (s', outputs, answer, batches, ends) =
        encode_frames-Ends protobuf Sample silence ring codec lawful lawful_opus
          (suc (ring.len pushed.buffer)) accepted pushed
          (omega (arith, lawful.len-contents pushed.buffer)) in
      (
        s',
        outputs,
        ap (and_on protobuf Sample silence ring codec) answer,
        record {
          frames = batches.frames;
          whole = batches.whole;
          cut = batches.cut ∙ lawful.contents-push_slice s.buffer samples;
          encoded = batches.encoded;
          room = batches.room ∙ lawful.capacity-push_slice s.buffer samples;
        },
        ends,
      )

  -- Samples that the microphone delivers, and how many sends the connection task accepts then.
  abbrev pub recording : List Sample × ℕ → Event protobuf Sample silence ring codec
  recording (samples, accepted) = record { message = outbound samples; accepted = accepted }

  -- They fit the buffer beside the rest of a frame, and no send that they lead to is refused.
  abbrev pub Heard : ℕ → List Sample × ℕ → Type 0
  Heard room (samples, accepted) =
      (length samples + frame_len ≤ room) × (length samples ≤ accepted * frame_len)

  -- One message that is heard: nothing is lost and nothing is refused.
  codec_step-Heard :
      (input : List Sample × ℕ) (s : Task)
      → length (contents s.buffer) < frame_len
      → Heard (capacity s.buffer) input
      → (s' : Task) × (outputs : List (List ℕ)) × (codec_step protobuf Sample silence ring codec
            (recording input)
            s
          ≡ some (s', sent outputs, true))
        × Cuts s s' (contents s.buffer ++ input.0) outputs
        × (length (contents s'.buffer) < frame_len)
  codec_step-Heard (samples, accepted) s few (fits, open_channel) =
      let (s', outputs, answer, batches, ends) = codec_step-outbound samples accepted s in
      let kept = take_all (capacity s.buffer - length (contents s.buffer)) samples (omega arith) in
      let bound = Batches-bound s s' _ outputs batches in
      let size =
        length-append (contents s.buffer)
          (take (capacity s.buffer - length (contents s.buffer)) samples) in
      let taken = ap length kept in
      let few_sent : length outputs ≤ accepted = omega (arith, bound, size, taken) in
      (
        s',
        outputs,
        answer
            ∙ ap (λ (os : List (List ℕ)). some (s', sent os, true))
                (take_all accepted outputs few_sent),
        subst (λ (xs : List Sample). Cuts s s' (contents s.buffer ++ xs) outputs) kept batches,
        elim ends [ inl short ↦ short | inr all ↦ absurd (omega arith) ],
      )

  -- All the samples, in the order in which they were delivered.
  abbrev pub all_samples : List (List Sample × ℕ) → List Sample
  all_samples inputs = joined (map (λ (input : List Sample × ℕ). input.0) inputs)

  run-goes_on :
      (event : Event protobuf Sample silence ring codec)
      (events : List (Event protobuf Sample silence ring codec)) (s s' : Task)
      (effects : Effects protobuf Sample silence ring codec lawful lawful_opus)
      → codec_step protobuf Sample silence ring codec event s ≡ some (s', effects, true)
      → run_audio_codec_task protobuf Sample silence ring codec (event ∷ events) s
        ≡ effects_before protobuf Sample silence ring codec effects
            (run_audio_codec_task protobuf Sample silence ring codec events s')
  unfolding run_audio_codec_task
  run-goes_on event events s s' effects e = rw (e, run_audio_codec_task)

  run-Heard :
      (inputs : List (List Sample × ℕ)) (s : Task)
      → length (contents s.buffer) < frame_len
      → All (Heard (capacity s.buffer)) inputs
      → (s' : Task) × (outputs : List (List ℕ)) × (run_audio_codec_task protobuf Sample silence ring
            codec
            (map recording inputs)
            s
          ≡ some (s', sent outputs))
        × Cuts s s' (contents s.buffer ++ all_samples inputs) outputs
        × (length (contents s'.buffer) < frame_len)
  unfolding run_audio_codec_task
  run-Heard [] s few heard = (
    s,
    [],
    refl,
    subst (λ (xs : List Sample). Cuts s s xs []) (sym (append-nil (contents s.buffer)))
        (no-Batches protobuf Sample silence ring codec lawful lawful_opus s),
    few,
  )
  run-Heard (input ∷ inputs) s few (here, heard) =
      let (t, outputs, answer, batches, short) = codec_step-Heard input s few here in
      let (u, later_outputs, later, later_batches, ends) =
        run-Heard inputs t short
          (subst (λ (room : ℕ). All (Heard room) inputs) (sym batches.room) heard) in
      (
        u,
        outputs ++ later_outputs,
        run-goes_on (recording input) (map recording inputs) s t (sent outputs) answer
            ∙ ap (effects_before protobuf Sample silence ring codec (sent outputs)) later
            ∙ ap
                (λ (effects : Effects protobuf Sample silence ring codec lawful lawful_opus).
                  some (u, effects))
                (sym (
                  map-append (sends protobuf Sample silence ring codec lawful lawful_opus) outputs
                    later_outputs)),
        subst (λ (xs : List Sample). Cuts s u xs (outputs ++ later_outputs))
            (append_assoc (contents s.buffer) input.0 (all_samples inputs))
            (Batches-append s t u (contents s.buffer ++ input.0) (all_samples inputs) outputs
              later_outputs batches later_batches),
        ends,
      )

  -- From its start, whatever the microphone delivers in messages of at most 95040 samples, and as
  -- long as no send is refused, the task does not panic: the stream of all samples is cut into
  -- frames of 960, less than a frame is left in the buffer, the encoder makes one output of each
  -- frame, in order, and each output is sent to the connection task once, in order.
  pub run_audio_codec_task-recorded :
      (inputs : List (List Sample × ℕ))
      → All (Heard (48000 * 2)) inputs
      → (s' : Task) × (outputs : List (List ℕ)) × (run_audio_codec_task protobuf Sample silence ring
            codec
            (map recording inputs)
            (initial protobuf Sample silence ring codec)
          ≡ some (s', sent outputs))
        × Cuts (initial protobuf Sample silence ring codec) s' (all_samples inputs) outputs
        × (length (contents s'.buffer) < frame_len)
  run_audio_codec_task-recorded inputs heard =
      let start = initial protobuf Sample silence ring codec in
      let empty : contents start.buffer ≡ [] = lawful.contents-new (48000 * 2) in
      let none_yet = ap length empty in
      let (s', outputs, answer, batches, short) = run-Heard inputs start (omega (arith, none_yet)) (
        subst (λ (room : ℕ). All (Heard room) inputs) (sym (lawful.capacity-new (48000 * 2)))
          heard) in
      (
        s',
        outputs,
        answer,
        subst (λ (xs : List Sample). Cuts start s' (xs ++ all_samples inputs) outputs) empty
            batches,
        short,
      )
