-- ===== src/Voice.antt =====
-- mumble-protocol/src/voice.rs: voice packets and the codec that parses and writes them.
pub mod Packet
pub mod Codec
pub mod RoundTrip
pub mod Decoding
pub mod Size
mod Tests
