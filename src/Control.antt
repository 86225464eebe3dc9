-- ===== src/Control.antt =====
-- mumble-protocol/src/control.rs: the frames of the control channel, and the packets in them.
pub mod Raw
pub mod Framing
pub mod Packet
pub mod Codec
pub mod Plain
pub mod Conversions
mod Tests
