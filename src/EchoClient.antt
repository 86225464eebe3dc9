-- ===== src/EchoClient.antt =====
-- mumble-protocol/examples/echo_client.rs
pub mod Connection
pub mod Udp
mod InStep
mod Exchange
mod Echo
pub mod Login
pub mod Once
mod Tests
