-- ===== src/Rasvn/Edit/Report.antt =====
-- Reports (src/rasvn/edit/report.rs). The connection is the list of the buffers written to it by
-- `write_wire_bytes`, and `write` is what that call returns for the buffer.
pub mod Batch
use svn.Base.{
  ℕ, ◌*◌, List, [], ◌∷◌, Bytes, text, length, Bool, true, false, leb, ◌||◌, if◌then◌else◌, Result,
  ok, err, ◌>>=◌, protocol,
}
use svn.Path.{validate_rel_path, validate_rel_dir_path}
use svn.Types.{as_word}
use svn.Editor.{
  Report, ReportCommand, set_path, delete_path, link_path, finish_report, abort_report,
}
use svn.Rasvn.Wire.{◌▹◌, word, number, bool, string_str, list_start, list_end, newline}
use svn.Rasvn.Edit.Command.{optional}

-- The output, and whether the command ends the report.
unfoldable pub encode_report_command : ReportCommand → Bytes → Result (Bytes × Bool)
encode_report_command (set_path path rev start_empty lock_token depth) out =
    validate_rel_dir_path path >>= λ path'. ok (
      out
          ▹ list_start
          ▹ word (text "set-path")
          ▹ list_start
          ▹ string_str path'
          ▹ number rev
          ▹ bool start_empty
          ▹ list_start
          ▹ optional string_str lock_token
          ▹ list_end
          ▹ word (as_word depth)
          ▹ list_end
          ▹ list_end
          ▹ newline,
      false,
    )
encode_report_command (delete_path path) out = validate_rel_path path >>= λ path'. ok (
  out
      ▹ list_start
      ▹ word (text "delete-path")
      ▹ list_start
      ▹ string_str path'
      ▹ list_end
      ▹ list_end
      ▹ newline,
  false,
)
encode_report_command (link_path path url rev start_empty lock_token depth) out =
    validate_rel_dir_path path >>= λ path'. ok (
      out
          ▹ list_start
          ▹ word (text "link-path")
          ▹ list_start
          ▹ string_str path'
          ▹ string_str url
          ▹ number rev
          ▹ bool start_empty
          ▹ list_start
          ▹ optional string_str lock_token
          ▹ list_end
          ▹ word (as_word depth)
          ▹ list_end
          ▹ list_end
          ▹ newline,
      false,
    )
encode_report_command finish_report out = ok (
  out ▹ list_start ▹ word (text "finish-report") ▹ list_start ▹ list_end ▹ list_end ▹ newline,
  true,
)
encode_report_command abort_report out = ok (
  out ▹ list_start ▹ word (text "abort-report") ▹ list_start ▹ list_end ▹ list_end ▹ newline,
  true,
)

abbrev pub max_batch_bytes : ℕ
max_batch_bytes = 64 * 1024

-- The connection's writer: each buffer goes to `write`, whose state is the connection's.
module _ {ℓ} {Conn : Type ℓ} (write_wire_bytes : Bytes → Conn → Conn × Result (Unit {0})) where
  -- One encoded command: the buffer is written when it is full or the report ends.
  abbrev pub after_write :
      Bool → (Conn → Conn × Result (Unit {0})) → Conn × Result (Unit {0}) → Conn × Result (Unit {0})
  after_write done' next (conn, err e) = (conn, err e)
  after_write true next (conn, ok u) = (conn, ok tt)
  after_write false next (conn, ok u) = next conn

  abbrev pub after_encode :
      (Bytes → Conn → Conn × Result (Unit {0}))
      → Conn
      → Result (Bytes × Bool)
      → Conn × Result (Unit {0})
  after_encode next conn (err e) = (conn, err e)
  after_encode next conn (ok (buf, done')) =
      if leb max_batch_bytes (length buf) || done'
      then after_write done' (next []) (write_wire_bytes buf conn)
      else next buf conn

  -- The loop over the commands, with the buffer so far.
  unfoldable pub send_commands : List ReportCommand → Bytes → Conn → Conn × Result (Unit {0})
  send_commands [] buf conn =
      (conn, err (protocol (text "report did not end with finish-report/abort-report")))
  send_commands (command ∷ commands) buf conn =
      after_encode (send_commands commands) conn (encode_report_command command buf)

  unfoldable pub send_report : Report → Conn → Conn × Result (Unit {0})
  unfolding send_commands
  send_report report conn = send_commands report.commands [] conn
