-- ===== src/Commit.antt =====
-- Commits (src/commit).
pub mod Util
