-- ===== src/Crypt.antt =====
-- mumble-protocol/src/crypt.rs: OCB2-AES128 over voice packets, and the nonces that both ends keep.
pub mod Cipher
pub mod Ocb
pub mod State
pub mod Session
mod Answers
mod Total
mod Invariant
pub mod Accounting
pub mod Replay
pub mod Stream
pub mod Plain
mod Tests
