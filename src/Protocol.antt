-- ===== src/Protocol.antt =====
-- crates/protocol: the types that the server and its clients share.
pub mod Float
pub mod Paper
pub mod PaperMarks
pub mod PaperTexture
pub mod MarksDrawn
pub mod Ink
pub mod Messages
mod Tests
