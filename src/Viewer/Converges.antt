-- ===== src/Viewer/Converges.antt =====
-- The viewer of frontend/src/viewer.rs against the database of
-- crates/server/src/realtime/store.rs.
use v_note.Viewer.{Viewer}
