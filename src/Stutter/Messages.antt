-- ===== src/Stutter/Messages.antt =====
-- The messages between the three tasks of the client: `AudioCodecMessage` of task_audio_codec.rs,
-- `ConnectionMessage` of task_connection.rs and `AudioIOMessage` of task_audio_io.rs.
use atof.Prelude.{List}
use atof.Voice.Packet.{serverbound, clientbound, VoicePacket}
use atof.Control.Packet.{Protobuf, ControlPacket}

pub data AudioCodecMessage (Sample : Type 0) : Type 0 where
  inbound : VoicePacket clientbound.SessionId → AudioCodecMessage Sample
  outbound : List Sample → AudioCodecMessage Sample

pub data ConnectionMessage (protobuf : Protobuf) : Type 0 where
  voice : VoicePacket serverbound.SessionId → ConnectionMessage protobuf
  control : ControlPacket protobuf serverbound → ConnectionMessage protobuf

pub data AudioIoMessage (Sample : Type 0) : Type 0 where
  recording_play recording_pause playback_play playback_pause : AudioIoMessage Sample
  playback_inbound : List Sample → AudioIoMessage Sample
