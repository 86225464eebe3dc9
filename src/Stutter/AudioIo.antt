-- ===== src/Stutter/AudioIo.antt =====
-- stutter/src/task_audio_io.rs: the loop of the audio io task and the two callbacks of the audio
-- drivers, which share the ring buffer with it. The crate `cpal` calls a callback from a thread of
-- its own; a callback is one step here, between the messages that the task handles.
pub mod Playback
use atof.Prelude.{
  ℕ, zero, suc, ◌*◌, List, [], ◌∷◌, ◌++◌, Bool, true, Option, none, some, if◌then◌else◌,
}
use atof.Stutter.Ring.{RingBuffer}
use atof.Stutter.Messages.{
  AudioCodecMessage, outbound, AudioIoMessage, recording_play, recording_pause, playback_play,
  playback_pause, playback_inbound,
}

pub data Command : Type 0 where
  play pause : Command

module _ (Sample : Type 0) (silence : Sample) (ring : RingBuffer Sample) where
  -- A message to the task, with the answer of the stream if it is for one; samples of the
  -- microphone; or a slice of `n` samples that the speakers want filled.
  pub data Event : Type 0 where
    from_task : AudioIoMessage Sample → (accepted : Bool) → Event
    microphone : List Sample → Event
    speakers : (n : ℕ) → Event

  pub data Effect : Type 0 where
    input_stream output_stream : Command → Effect
    to_audio_codec : AudioCodecMessage Sample → Effect
    to_speakers : List Sample → Effect

  -- `output_data_fn`: each sample of the slice is the next of the buffer, or silence.
  abbrev pub next_sample : Option (Sample × ring.Buffer) → ring.Buffer → Sample × ring.Buffer
  next_sample none b = (silence, b)
  next_sample (some (x, b')) b = (x, b')

  unfoldable pub fill : ℕ → ring.Buffer → List Sample × ring.Buffer
  fill zero b = ([], b)
  fill (suc n) b =
      let (x, b') = next_sample (ring.pop b) b in let (xs, b'') = fill n b' in (x ∷ xs, b'')

  -- `input_data_fn`: the samples go to the audio codec task. That it may have ended is ignored.
  abbrev pub input_data : List Sample → List Effect
  input_data samples = to_audio_codec (outbound samples) ∷ []

  -- The buffer, the effects, and whether the task goes on. An error of a stream ends it.
  abbrev pub Step : Type 0
  Step = ring.Buffer × List Effect × Bool

  unfoldable pub io_step : Event → ring.Buffer → Step
  io_step (from_task (playback_inbound buffer) accepted) b = (ring.push_slice b buffer, [], true)
  io_step (from_task recording_play accepted) b = (b, input_stream play ∷ [], accepted)
  io_step (from_task recording_pause accepted) b = (b, input_stream pause ∷ [], accepted)
  io_step (from_task playback_play accepted) b = (b, output_stream play ∷ [], accepted)
  io_step (from_task playback_pause accepted) b = (b, output_stream pause ∷ [], accepted)
  io_step (microphone samples) b = (b, input_data samples, true)
  io_step (speakers n) b = let (xs, b') = fill n b in (b', to_speakers xs ∷ [], true)

  -- The events up to the end of the task, as far as they are given. The streams stop with it.
  unfoldable pub io_loop : List Event → ring.Buffer → ring.Buffer × List Effect
  io_loop [] b = (b, [])
  io_loop (event ∷ events) b =
      let (b', effects, goes_on) = io_step event b in
      let (end, later) = io_loop events b' in
      if goes_on then (end, effects ++ later) else (b', effects)

  -- `run_audio_io_task`, and whether each of the streams could be set up.
  unfoldable pub run_audio_io_task : (input_ok output_ok : Bool) → List Event → List Effect
  run_audio_io_task input_ok output_ok events =
      if input_ok then (if output_ok then (io_loop events (ring.new (48000 * 2))).1 else []) else []
