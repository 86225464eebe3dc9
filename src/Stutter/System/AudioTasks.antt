-- ===== src/Stutter/System/AudioTasks.antt =====
-- stutter/src/lib.rs: the two audio tasks keep one another alive.
use atof.Prelude.{
  ℕ, zero, suc, ◌≡◌, ◌≢◌, refl, inl, inr, List, Bool, true, false, Option, none, some, arith,
  if◌then◌else◌, Option-cases, replicate,
}
use atof.Voice.Packet.{VoicePacketPayload, celt_alpha, celt_beta, speex, opus, ping, audio}
use atof.Control.Packet.{Protobuf}
use atof.Stutter.Ring.{RingBuffer}
use atof.Stutter.Opus.{Opus}
use atof.Stutter.Messages.{
  AudioCodecMessage, inbound, outbound, AudioIoMessage, recording_play, recording_pause,
  playback_play, playback_pause, playback_inbound,
}
use atof.Stutter.AudioCodec
use atof.Stutter.AudioCodec.{
  frame_len, CodecState, and_on, encode_frames, handle_payload, codec_step,
}
use atof.Stutter.AudioIo.{from_task, io_step}
use atof.Stutter.System.{
  Client, Accepts, Moves, hears, disconnects, codec_handles, codec_closed, io_handles, io_closed,
  records, plays, Reachable, starts, moves,
}

module _ (protobuf : Protobuf) (Sample : Type 0) (silence : Sample) (ring : RingBuffer Sample)
    (codec : Opus Sample) where
  -- A message that is not from a closed channel of the audio io task does not end the task.
  handle_payload-goes_on :
      (payload : VoicePacketPayload) (more : ℕ)
      (c c' : CodecState protobuf Sample silence ring codec)
      (effects : List (AudioCodec.Effect protobuf Sample silence ring codec)) (goes_on : Bool)
      → handle_payload protobuf Sample silence ring codec payload (suc more) c
        ≡ some (c', effects, goes_on)
      → goes_on ≡ true
  unfolding handle_payload
  handle_payload-goes_on (opus buffer end) more c c' effects goes_on e =
      elim (Option-cases (codec.decode_float c.decoder buffer (replicate frame_len silence) end)) [
        | inl failed ↦ let e' = rw (failed, handle_payload) at e in absurd cc
        | inr ((d, b), decodes) ↦ let e' = rw (decodes, handle_payload) at e in cc
      ]
  handle_payload-goes_on (celt_alpha _) more c c' effects goes_on e = cc
  handle_payload-goes_on (celt_beta _) more c c' effects goes_on e = cc
  handle_payload-goes_on (speex _) more c c' effects goes_on e = cc

  and_on-goes_on :
      (answer : Option (
        CodecState protobuf Sample silence ring codec
        × List (AudioCodec.Effect protobuf Sample silence ring codec)))
      (c' : CodecState protobuf Sample silence ring codec)
      (effects : List (AudioCodec.Effect protobuf Sample silence ring codec)) (goes_on : Bool)
      → and_on protobuf Sample silence ring codec answer ≡ some (c', effects, goes_on)
      → goes_on ≡ true
  and_on-goes_on none c' effects goes_on e = absurd cc
  and_on-goes_on (some (c, sent)) c' effects goes_on e = cc

  codec_step-goes_on :
      (s : Client protobuf Sample silence ring codec) (m : AudioCodecMessage Sample) (accepted : ℕ)
      (c c' : CodecState protobuf Sample silence ring codec)
      (effects : List (AudioCodec.Effect protobuf Sample silence ring codec)) (goes_on : Bool)
      → s.io_task ≢ none
      → Accepts protobuf Sample silence ring codec s m accepted
      → codec_step protobuf Sample silence ring codec
          (record { message = m; accepted = accepted })
          c
        ≡ some (c', effects, goes_on)
      → goes_on ≡ true
  unfolding codec_step
  codec_step-goes_on s (outbound samples) accepted c c' effects goes_on io taken e =
      let pushed = record c { buffer = ring.push_slice c.buffer samples } in
      and_on-goes_on
        (encode_frames protobuf Sample silence ring codec (suc (ring.len pushed.buffer)) accepted
          pushed)
        c' effects goes_on e
  codec_step-goes_on s (inbound (ping _)) accepted c c' effects goes_on io taken e = absurd cc
  codec_step-goes_on s (inbound (audio _ _ _ payload _)) zero c c' effects goes_on io taken e =
      absurd (let enough = taken.1 io in omega (arith, enough))
  codec_step-goes_on s (inbound (audio _ _ _ payload _)) (suc more) c c' effects goes_on io taken
        e =
      handle_payload-goes_on payload more c c' effects goes_on e

  io_step-goes_on :
      (m : AudioIoMessage Sample) (b : ring.Buffer)
      → (io_step Sample silence ring (from_task m true) b).2 ≡ true
  unfolding io_step
  io_step-goes_on recording_play b = refl
  io_step-goes_on recording_pause b = refl
  io_step-goes_on playback_play b = refl
  io_step-goes_on playback_pause b = refl
  io_step-goes_on (playback_inbound xs) b = refl

  -- Both audio tasks run.
  abbrev pub AudioRuns : Client protobuf Sample silence ring codec → Type 0
  AudioRuns s = (s.codec_task ≢ none) × (s.io_task ≢ none)

  kept :
      {A : Type 0} (x : A) (goes_on : Bool)
      → goes_on ≡ true
      → (if goes_on then some x else none) ≢ none
  kept x true e same = cc
  kept x false e same = cc

  Moves-AudioRuns :
      {s s' : Client protobuf Sample silence ring codec}
      → Moves protobuf Sample silence ring codec s s'
      → AudioRuns s
      → AudioRuns s'
  Moves-AudioRuns (hears p on) runs = runs
  Moves-AudioRuns disconnects runs = runs
  Moves-AudioRuns {s = s} (codec_handles m ms accepted c c' effects goes_on held next taken e)
        runs =
      (
        kept c' goes_on (codec_step-goes_on s m accepted c c' effects goes_on runs.1 taken e),
        runs.1,
      )
  Moves-AudioRuns (codec_closed empty off ended) runs = absurd (runs.1 ended)
  Moves-AudioRuns (io_handles m ms b held next) runs = (runs.0, kept _ _ (io_step-goes_on m b))
  Moves-AudioRuns (io_closed empty ended) runs = absurd (runs.0 ended)
  Moves-AudioRuns (records samples b held) runs = runs
  Moves-AudioRuns (plays n b held) runs = (runs.0, λ same. cc)

  -- However the tasks of the client take turns once both audio streams are set up, and whether or not
  -- the connection task has ended: as long as nothing panics and no stream refuses to start or to
  -- stop, neither the audio codec task nor the audio io task ends. Each keeps the other's channel open,
  -- so `run_stutter_task`, which waits for all three, does not return after the connection is closed.
  pub Reachable-AudioRuns :
      (s : Client protobuf Sample silence ring codec)
      → Reachable protobuf Sample silence ring codec s
      → AudioRuns s
  Reachable-AudioRuns s starts = (λ same. cc, λ same. cc)
  Reachable-AudioRuns s (moves before step) = Moves-AudioRuns step (Reachable-AudioRuns _ before)
