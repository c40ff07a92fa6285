-- ===== src/Channels/Fsm.antt =====
-- channels/channels_fsm.go: the table of events, what the state machine makes of it, the classes of
-- statuses and the cleanup on entry.
pub mod Table
pub mod Progress
pub mod Settings
pub mod Pausing
pub mod Lifecycle
pub mod Events
pub mod Finality
pub mod Engine
pub mod Machine
