-- ===== src/Stutter/AudioCodec.antt =====
-- stutter/src/task_audio_codec.rs: the state of the audio codec task, and what it does with a
-- message. Samples are opaque, and `silence` is `0f32`. The messages that it sends are returned.
-- `none` is a panic: an `unwrap`, an `assert_eq!` or `unimplemented!`.
pub mod Batches
pub mod Streams
pub mod Wire
use atof.Prelude.{
  ℕ, zero, suc, ◌*◌, ◌/◌, List, [], ◌∷◌, ◌++◌, Bool, true, false, not, Option, none, some, ltb,
  ◌==◌, if◌then◌else◌, length, replicate,
}
use atof.Voice.Packet.{serverbound, VoicePacket, VoicePacketPayload, ping, audio, opus}
use atof.Control.Packet.{Protobuf}
use atof.Stutter.Ring.{RingBuffer}
use atof.Stutter.Opus.{Opus}
use atof.Stutter.Messages.{
  AudioCodecMessage, inbound, outbound, ConnectionMessage, voice, AudioIoMessage, playback_inbound,
}

abbrev pub frame_len : ℕ
frame_len = 48000 / 50

-- The packet that carries an encoded frame to the server.
abbrev pub voice_packet : List ℕ → VoicePacket serverbound.SessionId
voice_packet output = audio 0 tt 0 (opus output false) none

module _ (protobuf : Protobuf) (Sample : Type 0) (silence : Sample) (ring : RingBuffer Sample)
    (codec : Opus Sample) where
  pub record CodecState : Type 0 where
    pub encoder : codec.Encoder
    pub decoder : codec.Decoder
    pub buffer : ring.Buffer

  abbrev pub initial : CodecState
  initial = record {
    encoder = codec.new_encoder;
    decoder = codec.new_decoder;
    buffer = ring.new (48000 * 2);
  }

  -- A message that arrives, and how many of the messages that it leads to are accepted before the
  -- task they are for has closed its channel.
  pub record Event : Type 0 where
    pub message : AudioCodecMessage Sample
    pub accepted : ℕ

  pub data Effect : Type 0 where
    to_connection : ConnectionMessage protobuf → Effect
    to_audio_io : AudioIoMessage Sample → Effect

  abbrev pub sent_before :
      Effect → Option (CodecState × List Effect) → Option (CodecState × List Effect)
  sent_before effect none = none
  sent_before effect (some (s, later)) = some (s, effect ∷ later)

  -- `while producer.len() >= 48_000 / 50`. A send that fails leaves this loop, not the task.
  unfoldable pub encode_frames :
      (fuel accepted : ℕ) → CodecState → Option (CodecState × List Effect)
  encode_frames zero accepted s = none
  encode_frames (suc fuel) accepted s =
      if ltb (ring.len s.buffer) frame_len
      then some (s, [])
      else let (b, buffer) = ring.pop_slice s.buffer frame_len in
        if not (length b == frame_len) then none else elim (codec.encode_float s.encoder b 1024) [
          | none ↦ none
          | some (encoder, output) ↦
              let s' = record s { encoder = encoder; buffer = buffer } in
              elim accepted [
                | zero ↦ some (s', [])
                | suc more ↦
                    sent_before (to_connection (voice (voice_packet output)))
                      (encode_frames fuel more s')
              ]
        ]

  -- The state, the messages sent, and whether the loop goes on.
  abbrev pub Step : Type 0
  Step = Option (CodecState × List Effect × Bool)

  abbrev pub and_on : Option (CodecState × List Effect) → Step
  and_on none = none
  and_on (some (s, effects)) = some (s, effects, true)

  -- `match payload`, for an audio packet of the server.
  unfoldable pub handle_payload : VoicePacketPayload → (accepted : ℕ) → CodecState → Step
  handle_payload (opus buffer end) accepted s =
      elim (codec.decode_float s.decoder buffer (replicate frame_len silence) end) [
        | none ↦ none
        | some (decoder, b) ↦
            let s' = record s { decoder = decoder } in
            elim accepted [
              | zero ↦ some (s', [], false)
              | suc _ ↦ some (s', to_audio_io (playback_inbound b) ∷ [], true)
            ]
      ]
  handle_payload _ accepted s = some (s, [], true)

  unfoldable pub codec_step : Event → CodecState → Step
  codec_step event s = elim event.message [
    | outbound samples ↦
        let s' = record s { buffer = ring.push_slice s.buffer samples } in
        and_on (encode_frames (suc (ring.len s'.buffer)) event.accepted s')
    | inbound (audio _ _ _ payload _) ↦ handle_payload payload event.accepted s
    | inbound (ping _) ↦ none
  ]

  abbrev pub effects_before :
      List Effect → Option (CodecState × List Effect) → Option (CodecState × List Effect)
  effects_before sent none = none
  effects_before sent (some (s, later)) = some (s, sent ++ later)

  -- The loop over the messages that arrive, until there are no more or a send has failed.
  unfoldable pub run_audio_codec_task : List Event → CodecState → Option (CodecState × List Effect)
  run_audio_codec_task [] s = some (s, [])
  run_audio_codec_task (event ∷ events) s = elim (codec_step event s) [
    | none ↦ none
    | some (s', effects, true) ↦ effects_before effects (run_audio_codec_task events s')
    | some (s', effects, false) ↦ some (s', effects)
  ]
