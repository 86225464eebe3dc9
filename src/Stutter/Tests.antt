-- ===== src/Stutter/Tests.antt =====
-- Runs of the client's tasks, and their theorems at these runs. A sender is a number.
mod Server
use atof.Prelude.{
  ℕ, ◌*◌, ◌<◌, ◌≡◌, ◌⊎◌, refl, List, [], ◌∷◌, map, true, false, none, some, arith, length, take,
  replicate, All,
}
use atof.Voice.Packet.{audio, opus}
use atof.Control.Plain.{plain_messages}
use atof.Stutter.Messages.{
  inbound, outbound, voice, recording_play, playback_play, playback_inbound,
}
use atof.Stutter.AudioCodec.{
  frame_len, initial, voice_packet, to_connection, to_audio_io, encode_frames, handle_payload,
  codec_step, run_audio_codec_task,
}
use atof.Stutter.AudioCodec.Streams.{
  Task, Cuts, sent, recording, all_samples, codec_step-outbound, run_audio_codec_task-recorded,
}
use atof.Stutter.AudioCodec.Wire.{ReadBack, run_audio_codec_task-ReadBack}
use atof.Stutter.AudioIo
use atof.Stutter.AudioIo.{
  play, from_task, microphone, speakers, fill, io_step, io_loop, run_audio_io_task,
}
use atof.Stutter.AudioIo.Playback.{slices, play_queue, run_audio_io_task-play_queue}
use atof.Stutter.System.{Client, Reachable, starts, moves, disconnects, records, io_handles}
use atof.Stutter.System.AudioTasks.{AudioRuns, Reachable-AudioRuns}
use atof.Stutter.Plain.{list_ring, list_ring_lawful, numbering, numbering_lawful}

abbrev recorded : List (List ℕ × ℕ)
recorded = (replicate 1000 7, 2) ∷ (replicate 950 8, 1) ∷ []

abbrev TestTask : Type 0
TestTask = Task plain_messages ℕ 0 list_ring numbering list_ring_lawful numbering_lawful

abbrev test_start : TestTask
test_start = initial plain_messages ℕ 0 list_ring numbering

run_audio_codec_task-recorded_example :
    (s' : TestTask) × (outputs : List (List ℕ)) × (run_audio_codec_task plain_messages ℕ 0 list_ring
        numbering
        (map
          (recording plain_messages ℕ 0 list_ring numbering list_ring_lawful numbering_lawful)
          recorded)
        test_start
      ≡ some (
        s',
        sent plain_messages ℕ 0 list_ring numbering list_ring_lawful numbering_lawful outputs,
      ))
    × Cuts plain_messages ℕ 0 list_ring numbering list_ring_lawful numbering_lawful test_start s'
        (all_samples plain_messages ℕ 0 list_ring numbering list_ring_lawful numbering_lawful
          recorded)
        outputs
    × (length s'.buffer.1 < frame_len)
run_audio_codec_task-recorded_example =
    run_audio_codec_task-recorded plain_messages ℕ 0 list_ring numbering list_ring_lawful
      numbering_lawful recorded ((omega arith, omega arith), ((omega arith, omega arith), tt))

-- A message of two frames, of which only the first is accepted.
codec_step-outbound_example :
    (s' : TestTask) × (outputs : List (List ℕ)) × (codec_step plain_messages ℕ 0 list_ring numbering
        (record { message = outbound (replicate 2000 7); accepted = 1 })
        test_start
      ≡ some (
        s',
        sent plain_messages ℕ 0 list_ring numbering list_ring_lawful numbering_lawful
            (take 1 outputs),
        true,
      ))
    × Cuts plain_messages ℕ 0 list_ring numbering list_ring_lawful numbering_lawful test_start s'
        (take (48000 * 2) (replicate 2000 7))
        outputs
    × ((length s'.buffer.1 < frame_len) ⊎ (length outputs ≡ 2))
codec_step-outbound_example =
    codec_step-outbound plain_messages ℕ 0 list_ring numbering list_ring_lawful numbering_lawful
      (replicate 2000 7) 1 test_start

three_frames :
    run_audio_codec_task plain_messages ℕ 0 list_ring numbering
      (record { message = outbound (replicate 1000 7); accepted = 1 }
        ∷ record { message = inbound (audio 0 3 1 (opus [] true) none); accepted = 1 }
        ∷ record { message = outbound (replicate 1000 8); accepted = 1 }
        ∷ [])
      test_start
    ≡ some (
      record { encoder = 2; decoder = tt; buffer = (48000 * 2, replicate 80 8) },
      to_connection (voice (voice_packet (0 ∷ 7 ∷ [])))
          ∷ to_audio_io (playback_inbound (replicate 960 0))
          ∷ to_connection (voice (voice_packet (1 ∷ 7 ∷ [])))
          ∷ [],
    )
unfolding run_audio_codec_task codec_step encode_frames handle_payload
three_frames = refl

run_audio_codec_task-ReadBack_example :
    All (ReadBack plain_messages ℕ 0 list_ring numbering numbering_lawful) (
      to_connection (voice (voice_packet (0 ∷ 7 ∷ [])))
      ∷ to_audio_io (playback_inbound (replicate 960 0))
      ∷ to_connection (voice (voice_packet (1 ∷ 7 ∷ [])))
      ∷ [])
run_audio_codec_task-ReadBack_example =
    run_audio_codec_task-ReadBack plain_messages ℕ 0 list_ring numbering numbering_lawful
      (record { message = outbound (replicate 1000 7); accepted = 1 }
        ∷ record { message = inbound (audio 0 3 1 (opus [] true) none); accepted = 1 }
        ∷ record { message = outbound (replicate 1000 8); accepted = 1 }
        ∷ [])
      test_start (record { encoder = 2; decoder = tt; buffer = (48000 * 2, replicate 80 8) }) _
      three_frames

abbrev playing : List (AudioIo.Event ℕ 0 list_ring)
playing =
    from_task playback_play true
    ∷ from_task (playback_inbound (5 ∷ 6 ∷ 7 ∷ [])) true
    ∷ speakers 2
    ∷ microphone (1 ∷ [])
    ∷ speakers 2
    ∷ []

two_slices :
    run_audio_io_task ℕ 0 list_ring true true playing
    ≡ AudioIo.output_stream play
      ∷ AudioIo.to_speakers (5 ∷ 6 ∷ [])
      ∷ AudioIo.to_audio_codec (outbound (1 ∷ []))
      ∷ AudioIo.to_speakers (7 ∷ 0 ∷ [])
      ∷ []
unfolding run_audio_io_task io_loop io_step fill
two_slices = refl

-- Two slices of two samples for three samples: the last is filled up.
run_audio_io_task-play_queue_example :
    slices ℕ 0 list_ring list_ring_lawful (run_audio_io_task ℕ 0 list_ring true true playing)
    ≡ play_queue ℕ 0 list_ring list_ring_lawful playing []
run_audio_io_task-play_queue_example =
    run_audio_io_task-play_queue ℕ 0 list_ring list_ring_lawful playing (refl, (omega arith, tt))

-- The client starts, loses its connection, records a sample, and starts the microphone.
abbrev after_loss : Client plain_messages ℕ 0 list_ring numbering
after_loss = record {
  connected = false;
  codec_task = some (initial plain_messages ℕ 0 list_ring numbering);
  io_task = some (48000 * 2, []);
  to_codec = outbound (1 ∷ []) ∷ [];
  to_io = playback_play ∷ [];
}

after_loss-Reachable : Reachable plain_messages ℕ 0 list_ring numbering after_loss
unfolding io_step
after_loss-Reachable =
    moves (moves (moves starts disconnects) (records (1 ∷ []) (48000 * 2, []) refl))
      (io_handles recording_play (playback_play ∷ []) (48000 * 2, []) refl refl)

Reachable-AudioRuns_example : AudioRuns plain_messages ℕ 0 list_ring numbering after_loss
Reachable-AudioRuns_example =
    Reachable-AudioRuns plain_messages ℕ 0 list_ring numbering after_loss after_loss-Reachable
