-- ===== src/Stutter.antt =====
-- stutter/src: the client's tasks, as functions on their state and on the messages they receive.
pub mod Ring
pub mod Opus
pub mod Messages
pub mod AudioCodec
pub mod Connection
pub mod AudioIo
pub mod Handshake
pub mod Speech
pub mod Keepalive
pub mod System
pub mod Config
mod Plain
mod Tests
