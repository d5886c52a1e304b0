-- ===== src/Rasvn/Conn.antt =====
-- The connection (src/rasvn/conn).
pub mod Read
pub mod Io
pub mod Progress
pub mod Runs
pub mod Rounds
pub mod Items
pub mod Stream
pub mod Tokens
pub mod Exact
pub mod Atoms
pub mod RoundTrip
pub mod Write
pub mod Meanwhile
pub mod Response
pub mod Auth
pub mod Handshake
pub mod Choices
pub mod Pipeline
pub mod Exchange
pub mod Cram
pub mod Call
