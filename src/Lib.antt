-- ===== src/Lib.antt =====
-- Verification of the svn client library: a Subversion client for the ra_svn protocol.
--
-- The program encodes and decodes svndiff, the delta format of file contents, encodes editor
-- commands and reports as protocol items, reads the items that the server sends, parses them as
-- editor events, which the editor drive hands to handlers, of which the textdelta recorder is one,
-- or as responses to commands.
--
-- Base holds shared names: bytes and strings as lists of numbers, results, 64-bit arithmetic,
-- UTF-8, maps (association lists for HashMap).
--   Codec: zlib and lz4, which are other packages, as a parameter; what is documented of them is
--     `IsLossless`.
--   Svndiff (src/svndiff.rs): `encode_fulltext_with_options` and all that it calls.
--   Textdelta (src/textdelta): `Uint`, `Window` and `Apply` are the functions of decode.rs,
--     `CursorBuf` and `Stream` its stateful types, with `&mut self` as a state passed on;
--     `Applier` is the in-memory applier of applier.rs over any writer, and `Applier.File` the
--     applier over a file, with the file system as a parameter; `Record` is record.rs.
--   Commit (src/commit): the path helpers of util.rs, and `TokenGen` in `Util.Token`.
--   Path (src/path.rs), Editor (src/editor.rs), Types (src/types.rs).
--   Rasvn (src/rasvn): `Wire` and `Item` are wire.rs and item.rs; `Edit` is edit/command.rs,
--     edit/decode.rs, edit/report.rs and edit/drive.rs; `Parse` is parse.rs, with the helpers of
--     src/error.rs in `Parse.Failure`; `Conn` is conn/io.rs, with `CommandResponse` of conn/mod.rs,
--     conn/auth.rs (`Auth`), conn/handshake.rs (`Handshake`) and conn/call.rs (`Call`).
--     A connection is its buffer, its position and what the reads of the stream will return, one
--     after another (`Reader`), and a reading operation is a function of it (`Read`). `Stream` sees
--     only the bytes to come, whichever reads they come in. What is written is a list of bytes, and
--     `write_all`, `flush`, the handler and `String::from_utf8_lossy` are parameters. The attempts
--     to report an error early are a list that ends at the deadline.
--   Tests: runs on concrete inputs.
--
-- Bounds and fuel. `usize` has 64 bits. The applier's loop over windows takes as fuel one more
-- than the bytes available, and each window that is taken has a header of five bytes at least.
-- The decimal encoder's fuel is the 20 bytes of its buffer, and a 64-bit number has at most 20
-- digits. The loops of the reader, the exchange of challenges and the editor drive take as fuel
-- one more than what is still to come. `Conn.Runs` has their runs without any fuel, as a
-- relation: every round that goes on reads at least a byte or a read of the stream, so that the
-- fuel is enough for the run. The other loops recur on their input. An encoder that fails returns
-- no output, where the source leaves a part of it in a buffer that its caller drops.
--
-- Not modelled: timeouts of reads and writes, SASL, SSH, URLs, the client operations, the rest of
-- the commit builder, export and the pool, which wrap the network, the file system or other
-- packages; `tracing` and `serde`; the Windows checks of src/path.rs.
pub mod Base
pub mod Codec
pub mod Commit
pub mod Svndiff
pub mod Textdelta
pub mod Path
pub mod Types
pub mod Editor
pub mod Rasvn
mod Tests
