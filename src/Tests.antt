-- ===== src/Tests.antt =====
-- The code run on concrete inputs, and the theorems applied to them.
pub mod Codecs
mod Textdeltas
mod Records
mod Commands
mod Paths
mod Reports
mod Conns
mod Parsers
mod Handshakes
mod Files
mod Commits
