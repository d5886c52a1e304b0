-- ===== src/Tests/Reports.antt =====
-- A report sent.
use svn.Base.{◌≡◌, refl, [], ◌∷◌, ◌++◌, Bytes, text, none, false, ok}
use svn.Path.{validate_rel_path, validate_rel_dir_path, canonicalize_rel_path}
use svn.Types.{as_word, infinity}
use svn.Editor.{Report, set_path, delete_path, finish_report, abort_report}
use svn.Rasvn.Wire as Wire
use svn.Rasvn.Edit.Report.{encode_report_command, send_report}
use svn.Rasvn.Edit.Report.Batch.{open_wire, report_bytes, send_report-report_bytes}

abbrev report : Report
report = record {
  commands =
      set_path [] 3 false none infinity
      ∷ delete_path (47 ∷ 97 ∷ [])
      ∷ finish_report
      ∷ abort_report
      ∷ [];
}

abbrev sent : Bytes
sent =
    text "( set-path ( 0: 3 false ( ) infinity ) ) "
    ++ (10
        ∷ (text "( delete-path ( 1:a ) ) " ++ (10 ∷ (text "( finish-report ( ) ) " ++ (10 ∷ [])))))

report_encoded : report_bytes report.commands ≡ ok sent
unfolding report_bytes encode_report_command validate_rel_path validate_rel_dir_path
    canonicalize_rel_path as_word text Wire.list_end Wire.word Wire.list_start Wire.string_str
    Wire.string_bytes Wire.encode_decimal_usize Wire.encode_decimal_u64 Wire.number Wire.bool
    Wire.newline Wire.decimal_loop
report_encoded = refl

send_report-report_bytes_example : send_report open_wire report (9 ∷ []) ≡ ((9 ∷ []) ++ sent, ok tt)
send_report-report_bytes_example = send_report-report_bytes report (9 ∷ []) sent report_encoded
