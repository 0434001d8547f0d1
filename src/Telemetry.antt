-- ===== src/Telemetry.antt =====
-- frontend/src/telemetry/outbox.rs: the SPA's telemetry queue and the rules for sending it.
pub mod Outbox
pub mod Policy
pub mod Lifecycle
pub mod Stopping
pub mod Configured
mod Tests
