-- ===== src/Dispatch.antt =====
-- crates/server/src/realtime/dispatch.rs: what each inbound page-channel message does.
pub mod Context
pub mod Replay
pub mod Handlers
pub mod Leased
pub mod Announced
pub mod Commits
pub mod Told
pub mod Replayed
pub mod Stored
pub mod Served
mod Tests
