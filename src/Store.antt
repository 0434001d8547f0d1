-- ===== src/Store.antt =====
-- crates/server/src/realtime/store.rs: the page channel's persistence, over the tables of
-- crates/server/migrations. Each statement is read as its SQL says; a transaction is one function,
-- since it holds the page's row lock throughout and an error rolls it back.
pub mod Tables
pub mod Writes
pub mod Batches
pub mod Erasures
pub mod PaperChange
pub mod Replay
pub mod Snapshots
pub mod Sound
pub mod Commits
pub mod FreshIds
pub mod Erased
pub mod Repapered
pub mod Runs
pub mod DeleteWins
pub mod Retries
pub mod Resumes
pub mod Tests
