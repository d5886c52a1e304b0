-- ===== src/Rasvn.antt =====
-- The ra_svn protocol (src/rasvn): its items and their encoding, editor commands and events.
pub mod Wire
pub mod Item
pub mod Edit
pub mod Conn
pub mod Parse
