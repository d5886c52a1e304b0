-- ===== src/Rasvn/Edit.antt =====
-- Editor commands, reports and events on the wire (src/rasvn/edit).
pub mod Command
pub mod Decode
pub mod Report
pub mod Sendable
pub mod RoundTrip
pub mod Drive
