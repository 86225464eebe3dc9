-- ===== src/Stutter/System.antt =====
-- stutter/src/lib.rs: the three tasks of the client with the channels between them, in any
-- interleaving. A channel is a queue. It is closed for its receiver when the tasks that hold a sender
-- have ended: the audio codec task's when the connection and the audio io task have, the audio io
-- task's when the audio codec task has.
pub mod AudioTasks
use atof.Prelude.{
  ℕ, ◌*◌, ◌≤◌, ◌≡◌, ◌≢◌, List, [], ◌∷◌, ◌++◌, Bool, true, false, Option, none, some, if◌then◌else◌,
}
use atof.Voice.Packet.{clientbound, VoicePacket}
use atof.Control.Packet.{Protobuf}
use atof.Stutter.Ring.{RingBuffer}
use atof.Stutter.Opus.{Opus}
use atof.Stutter.Messages.{
  AudioCodecMessage, inbound, outbound, AudioIoMessage, recording_play, playback_play,
}
use atof.Stutter.AudioCodec
use atof.Stutter.AudioCodec.{CodecState, codec_step}
use atof.Stutter.AudioIo
use atof.Stutter.AudioIo.{from_task, microphone, speakers, io_step}

module _ (protobuf : Protobuf) (Sample : Type 0) (silence : Sample) (ring : RingBuffer Sample)
    (codec : Opus Sample) where
  -- Whether the connection task runs, the states of the two other tasks while they run, and the
  -- messages that wait for them.
  pub record Client : Type 0 where
    pub connected : Bool
    pub codec_task : Option (CodecState protobuf Sample silence ring codec)
    pub io_task : Option ring.Buffer
    pub to_codec : List (AudioCodecMessage Sample)
    pub to_io : List (AudioIoMessage Sample)

  abbrev pub start : Client
  start = record {
    connected = true;
    codec_task = some (AudioCodec.initial protobuf Sample silence ring codec);
    io_task = some (ring.new (48000 * 2));
    to_codec = [];
    to_io = recording_play ∷ playback_play ∷ [];
  }

  abbrev pub io_messages :
      List (AudioCodec.Effect protobuf Sample silence ring codec) → List (AudioIoMessage Sample)
  io_messages [] = []
  io_messages (AudioCodec.to_audio_io m ∷ effects) = m ∷ io_messages effects
  io_messages (AudioCodec.to_connection _ ∷ effects) = io_messages effects

  abbrev pub codec_messages :
      List (AudioIo.Effect Sample silence ring) → List (AudioCodecMessage Sample)
  codec_messages [] = []
  codec_messages (AudioIo.to_audio_codec m ∷ effects) = m ∷ codec_messages effects
  codec_messages (AudioIo.to_speakers _ ∷ effects) = codec_messages effects
  codec_messages (AudioIo.input_stream _ ∷ effects) = codec_messages effects
  codec_messages (AudioIo.output_stream _ ∷ effects) = codec_messages effects

  -- How many sends the receiving task can accept: none when it has ended.
  abbrev pub Accepts : Client → AudioCodecMessage Sample → ℕ → Type 0
  Accepts s (outbound _) accepted = s.connected ≡ false → accepted ≡ 0
  Accepts s (inbound _) accepted =
      (s.io_task ≡ none → accepted ≡ 0) × (s.io_task ≢ none → 1 ≤ accepted)

  -- A step of the client in which no audio stream refuses to start or to stop.
  pub data Moves (s : Client) : Client → Type 0 where
    -- The connection task hears from the server, or ends.
    hears :
        (p : VoicePacket clientbound.SessionId)
        → s.connected ≡ true
        → Moves s (record s { to_codec = s.to_codec ++ (inbound p ∷ []) })
    disconnects : Moves s (record s { connected = false })
    -- The audio codec task handles its next message, or sees its channel closed.
    codec_handles :
        (m : AudioCodecMessage Sample) (ms : List (AudioCodecMessage Sample)) (accepted : ℕ)
        (c c' : CodecState protobuf Sample silence ring codec)
        (effects : List (AudioCodec.Effect protobuf Sample silence ring codec)) (goes_on : Bool)
        → s.codec_task ≡ some c
        → s.to_codec ≡ m ∷ ms
        → Accepts s m accepted
        → codec_step protobuf Sample silence ring codec
            (record { message = m; accepted = accepted })
            c
          ≡ some (c', effects, goes_on)
        → Moves s (record s {
          codec_task = if goes_on then some c' else none;
          to_codec = ms;
          to_io = s.to_io ++ io_messages effects;
        })
    codec_closed :
        s.to_codec ≡ []
        → s.connected ≡ false
        → s.io_task ≡ none
        → Moves s (record s { codec_task = none })
    -- The audio io task handles its next message, or sees its channel closed.
    io_handles :
        (m : AudioIoMessage Sample) (ms : List (AudioIoMessage Sample)) (b : ring.Buffer)
        → s.io_task ≡ some b
        → s.to_io ≡ m ∷ ms
        → Moves s (record s {
          io_task =
              if (io_step Sample silence ring (from_task m true) b).2
              then some (io_step Sample silence ring (from_task m true) b).0
              else none;
          to_io = ms;
        })
    io_closed : s.to_io ≡ [] → s.codec_task ≡ none → Moves s (record s { io_task = none })
    -- The audio drivers call back.
    records :
        (samples : List Sample) (b : ring.Buffer)
        → s.io_task ≡ some b
        → Moves s (record s {
          to_codec =
              s.to_codec ++ codec_messages (io_step Sample silence ring (microphone samples) b).1;
        })
    plays :
        (n : ℕ) (b : ring.Buffer)
        → s.io_task ≡ some b
        → Moves s (record s { io_task = some (io_step Sample silence ring (speakers n) b).0 })

  pub data Reachable : Client → Type 0 where
    starts : Reachable start
    moves : {s s' : Client} → Reachable s → Moves s s' → Reachable s'
