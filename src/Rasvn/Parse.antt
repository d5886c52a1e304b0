-- ===== src/Rasvn/Parse.antt =====
-- The parsers of responses (src/rasvn/parse.rs): scalars, entries, log, directories and stat.
pub mod Scalar
pub mod Entry
pub mod Log
pub mod Dir
pub mod Failure
pub mod Known
pub mod Dirent
pub mod Stat
pub mod Defaults
