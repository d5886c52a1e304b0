-- ===== src/Textdelta.antt =====
-- The svndiff decoder and the appliers built on it (src/textdelta).
pub mod Uint
pub mod Window
pub mod Apply
pub mod CursorBuf
pub mod Stream
pub mod Applier
pub mod Record
