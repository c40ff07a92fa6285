-- ===== src/Channels.antt =====
-- The package channels.
pub mod Internal
pub mod Fsm
pub mod State
pub mod Caches
pub mod Group
pub mod Ops
pub mod Migrations
