-- ===== src/Svndiff.antt =====
-- The svndiff encoder (src/svndiff.rs).
pub mod Uint
pub mod Encode
