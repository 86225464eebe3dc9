-- ===== src/Stammer.antt =====
-- stammer/src: the server's tasks, as functions on their state and on the messages they receive.
pub mod RoutingTable
pub mod Membership
pub mod Operations
pub mod Recipients
pub mod ControlTask
pub mod RoutingTask
pub mod SessionTask
pub mod Sessions
pub mod AcceptTask
pub mod SessionIds
pub mod Enrollment
pub mod Authentication
pub mod Delivery
pub mod Removal
pub mod Lifetime
pub mod System
pub mod Config
pub mod Plain
mod Tests
