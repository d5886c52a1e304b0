-- ===== src/Rasvn/Edit/Report/Batch.antt =====
-- What `send_report` (src/rasvn/edit/report.rs) puts on the wire, whatever its batches.
use svn.Base.{
  ◌≡◌, refl, sym, ap, ◌∙◌, List, [], ◌∷◌, ◌++◌, append_assoc, append-nil, Bytes, text, length, Bool,
  true, false, ◌⊎◌, leb, Bool-cases, Result-cases, inl, inr, if◌then◌else◌, Option, none, some,
  Result, ok, err, ◌>>=◌, protocol,
}
use svn.Path.{validate_rel_path, validate_rel_dir_path}
use svn.Types.{as_word}
use svn.Editor.{
  Report, ReportCommand, set_path, delete_path, link_path, finish_report, abort_report,
}
use svn.Rasvn.Wire.{word, number, bool, string_str, list_start, list_end, newline}
use svn.Rasvn.Wire.Appends.{
  Appends, run_all-Appends, word-Appends, number-Appends, bool-Appends, string_str-Appends,
  list_start-Appends, list_end-Appends, newline-Appends,
}
use svn.Rasvn.Edit.Command.{optional}
use svn.Rasvn.Edit.Report.{
  encode_report_command, max_batch_bytes, after_encode, send_commands, send_report,
}

-- A connection that takes every buffer, as the bytes written so far.
abbrev pub open_wire : Bytes → Bytes → Bytes × Result (Unit {0})
open_wire buf written = (written ++ buf, ok tt)

-- The encodings of the commands up to the first that ends the report.
unfoldable pub report_bytes : List ReportCommand → Result Bytes
report_bytes [] = err (protocol (text "report did not end with finish-report/abort-report"))
report_bytes (command ∷ commands) = do
  (bytes, done') ← encode_report_command command []
  let rest = report_bytes commands
  if done' then ok bytes else (rest >>= λ more. ok (bytes ++ more))

abbrev behind : Bytes → Result (Bytes × Bool) → Result (Bytes × Bool)
behind out (ok (bytes, done')) = ok (out ++ bytes, done')
behind out (err e) = err e

optional_token-Appends : (token : Option Bytes) → Appends (optional string_str token)
optional_token-Appends none out = sym (append-nil out)
optional_token-Appends (some token) out = string_str-Appends token out

terminator :
    (name out : Bytes)
    → ◌≡◌ {A = Result (Bytes × Bool)}
        (ok (newline (list_end (list_end (list_start (word name (list_start out))))), true))
        (ok (out ++ newline (list_end (list_end (list_start (word name (list_start []))))), true))
terminator name out =
    ap (λ t. ok (t, true))
      (run_all-Appends (list_start ∷ word name ∷ list_start ∷ list_end ∷ list_end ∷ newline ∷ [])
        (
          list_start-Appends,
          (
            word-Appends name,
            (list_start-Appends, (list_end-Appends, (list_end-Appends, (newline-Appends, tt)))),
          ),
        )
        out)

encode_report_command-behind :
    (cmd : ReportCommand) (out : Bytes)
    → encode_report_command cmd out ≡ behind out (encode_report_command cmd [])
unfolding encode_report_command
encode_report_command-behind (set_path path rev start_empty lock_token depth) out =
    elim (Result-cases (validate_rel_dir_path path)) [
      | inr (x, e) ↦ rw e refl
      | inl (path', e) ↦ rw e (
          ap (λ t. ok (t, false))
            (run_all-Appends
              (list_start
                ∷ word (text "set-path")
                ∷ list_start
                ∷ string_str path'
                ∷ number rev
                ∷ bool start_empty
                ∷ list_start
                ∷ optional string_str lock_token
                ∷ list_end
                ∷ word (as_word depth)
                ∷ list_end
                ∷ list_end
                ∷ newline
                ∷ [])
              (
                list_start-Appends,
                (
                  word-Appends (text "set-path"),
                  (
                    list_start-Appends,
                    (
                      string_str-Appends path',
                      (
                        number-Appends rev,
                        (
                          bool-Appends start_empty,
                          (
                            list_start-Appends,
                            (
                              optional_token-Appends lock_token,
                              (
                                list_end-Appends,
                                (
                                  word-Appends (as_word depth),
                                  (list_end-Appends, (list_end-Appends, (newline-Appends, tt))),
                                ),
                              ),
                            ),
                          ),
                        ),
                      ),
                    ),
                  ),
                ),
              )
              out))
    ]
encode_report_command-behind (delete_path path) out = elim (Result-cases (validate_rel_path path)) [
  | inr (x, e) ↦ rw e refl
  | inl (path', e) ↦ rw e (
      ap (λ t. ok (t, false))
        (run_all-Appends
          (list_start
            ∷ word (text "delete-path")
            ∷ list_start
            ∷ string_str path'
            ∷ list_end
            ∷ list_end
            ∷ newline
            ∷ [])
          (
            list_start-Appends,
            (
              word-Appends (text "delete-path"),
              (
                list_start-Appends,
                (
                  string_str-Appends path',
                  (list_end-Appends, (list_end-Appends, (newline-Appends, tt))),
                ),
              ),
            ),
          )
          out))
]
encode_report_command-behind (link_path path url rev start_empty lock_token depth) out =
    elim (Result-cases (validate_rel_dir_path path)) [
      | inr (x, e) ↦ rw e refl
      | inl (path', e) ↦ rw e (
          ap (λ t. ok (t, false))
            (run_all-Appends
              (list_start
                ∷ word (text "link-path")
                ∷ list_start
                ∷ string_str path'
                ∷ string_str url
                ∷ number rev
                ∷ bool start_empty
                ∷ list_start
                ∷ optional string_str lock_token
                ∷ list_end
                ∷ word (as_word depth)
                ∷ list_end
                ∷ list_end
                ∷ newline
                ∷ [])
              (
                list_start-Appends,
                (
                  word-Appends (text "link-path"),
                  (
                    list_start-Appends,
                    (
                      string_str-Appends path',
                      (
                        string_str-Appends url,
                        (
                          number-Appends rev,
                          (
                            bool-Appends start_empty,
                            (
                              list_start-Appends,
                              (
                                optional_token-Appends lock_token,
                                (
                                  list_end-Appends,
                                  (
                                    word-Appends (as_word depth),
                                    (list_end-Appends, (list_end-Appends, (newline-Appends, tt))),
                                  ),
                                ),
                              ),
                            ),
                          ),
                        ),
                      ),
                    ),
                  ),
                ),
              )
              out))
    ]
encode_report_command-behind finish_report out = terminator (text "finish-report") out
encode_report_command-behind abort_report out = terminator (text "abort-report") out

-- One command: what it adds to the buffer, and whether the buffer is written then.
after_encode-ok :
    (next : Bytes → Bytes → Bytes × Result (Unit {0})) (conn buf bytes more : Bytes)
    → ((buf' conn' : Bytes) → next buf' conn' ≡ (conn' ++ (buf' ++ more), ok tt))
    → after_encode open_wire next conn (ok (buf ++ bytes, false))
      ≡ (conn ++ (buf ++ (bytes ++ more)), ok tt)
after_encode-ok next conn buf bytes more step =
    elim (Bool-cases (leb max_batch_bytes (length (buf ++ bytes)))) [
      | inl full ↦ rw full (
          step [] (conn ++ (buf ++ bytes))
          ∙ ap (λ t. (t, ok tt))
              (append_assoc conn (buf ++ bytes) more
                ∙ ap (λ t. conn ++ t) (append_assoc buf bytes more)))
      | inr room ↦
          rw room
            (step (buf ++ bytes) conn ∙ ap (λ t. (conn ++ t, ok tt)) (append_assoc buf bytes more))
    ]

after_encode-last :
    (next : Bytes → Bytes → Bytes × Result (Unit {0})) (conn buf bytes : Bytes)
    → after_encode open_wire next conn (ok (buf ++ bytes, true)) ≡ (conn ++ (buf ++ bytes), ok tt)
after_encode-last next conn buf bytes =
    elim (Bool-cases (leb max_batch_bytes (length (buf ++ bytes)))) [
      | inl full ↦ rw full refl
      | inr room ↦ rw room refl
    ]

report_bytes-ok :
    (command : ReportCommand) (commands : List ReportCommand) (bytes : Bytes)
    → report_bytes (command ∷ commands) ≡ ok bytes
    → (encode_report_command command [] ≡ ok (bytes, true))
      ⊎ ((b : Bytes) × (more : Bytes) × (encode_report_command command [] ≡ ok (b, false))
          × (report_bytes commands ≡ ok more)
          × (b ++ more ≡ bytes))
unfolding report_bytes
report_bytes-ok command commands bytes h = elim (Result-cases (encode_report_command command [])) [
  | inr (x, e) ↦ absurd (cc (rw e at h))
  | inl ((b, true), e) ↦ let p : b ≡ bytes = cc (rw e at h) in inl (e ∙ ap (λ t. ok (t, true)) p)
  | inl ((b, false), e) ↦ elim (Result-cases (report_bytes commands)) [
    | inr (x, r) ↦ absurd (cc (rw (e, r) at h))
    | inl (more, r) ↦ inr (b, more, e, r, cc (rw (e, r) at h))
  ]
]

send_commands-bytes :
    (commands : List ReportCommand) (buf conn bytes : Bytes)
    → report_bytes commands ≡ ok bytes
    → send_commands open_wire commands buf conn ≡ (conn ++ (buf ++ bytes), ok tt)
unfolding send_commands
send_commands-bytes [] buf conn bytes h = absurd (unfold report_bytes in cc h)
send_commands-bytes (command ∷ commands) buf conn bytes h =
    let shifted = encode_report_command-behind command buf in
    let next = send_commands open_wire commands in
    elim (report_bytes-ok command commands bytes h) [
      | inl e ↦
          ap (after_encode open_wire next conn) (shifted ∙ ap (behind buf) e)
          ∙ after_encode-last next conn buf bytes
      | inr (b, more, e, r, joined) ↦
          ap (after_encode open_wire next conn) (shifted ∙ ap (behind buf) e)
          ∙ after_encode-ok next conn buf b more
              (λ buf' conn'. send_commands-bytes commands buf' conn' more r)
          ∙ ap (λ t. (conn ++ (buf ++ t), ok tt)) joined
    ]

-- A report whose commands are all encoded up to one that ends it is sent: on a connection that
-- takes every buffer, what is written is the encodings one after another up to that command,
-- however they fall into batches, and nothing of what follows it.
pub send_report-report_bytes :
    (report : Report) (conn bytes : Bytes)
    → report_bytes report.commands ≡ ok bytes
    → send_report open_wire report conn ≡ (conn ++ bytes, ok tt)
unfolding send_report
send_report-report_bytes report conn bytes h = send_commands-bytes report.commands [] conn bytes h
