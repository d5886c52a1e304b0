-- ===== src/Rasvn/Edit/Drive.antt =====
-- The editor drive (src/rasvn/edit/drive.rs); the asynchronous one differs only in its `await`s.
pub mod Rounds
pub mod Deliver
pub mod Refusal
use svn.Base.{
  ℕ, List, [], ◌∷◌, ◌++◌, Bytes, text, bytes_eq, Bool, true, false, not, ◌&&◌, ◌||◌, if◌then◌else◌,
  Option, none, some, Result, ok, err, SvnError, protocol, ok_or, ◌>>=◌, ◌⊎◌, inl, inr,
}
use svn.Editor.{EditorEvent}
use svn.Rasvn.Item.{SvnItem, list, as_word, as_list, to_list}
use svn.Rasvn.Edit.Decode.{refuse, parse_editor_event}
use svn.Rasvn.Parse.Failure.{parse_failure}
use svn.Rasvn.Conn.Read.{Reader, Step, Read, loop}
use svn.Rasvn.Conn.Io.{read_item}
use svn.Rasvn.Conn.Write.{Writer, write_cmd_success, write_cmd_failure_early}

pub data EditorDriveStatus : Type 0 where
  completed : EditorDriveStatus
  aborted : SvnError → EditorDriveStatus

abbrev pub Command : Type 0
Command = Bytes × List SvnItem

abbrev pub name_and_params : SvnItem → SvnItem → Result Command
name_and_params c p = do
  cmd ← ok_or (protocol (text "command name not a word")) (as_word c)
  params ← ok_or (protocol (text "editor command params not a list")) (as_list p)
  ok (cmd, params)

unfoldable pub parse_parts : List SvnItem → Result Command
parse_parts (c ∷ p ∷ []) = name_and_params c p
parse_parts _ = refuse (text "editor command must contain name and parameter list")

unfoldable pub parse_command_item : SvnItem → Result Command
unfolding parse_parts
parse_command_item (list xs) = parse_parts (to_list xs)
parse_command_item _ = refuse (text "expected command list")

abbrev pub ends_drain : Option Bytes → Bool
ends_drain none = false
ends_drain (some cmd) = bytes_eq cmd (text "abort-edit") || bytes_eq cmd (text "success")

abbrev pub first_word : SvnItem → Option Bytes
first_word (list xs) = word_of (to_list xs)
  where
    word_of : List SvnItem → Option Bytes
    word_of [] = none
    word_of (x ∷ xs) = as_word x
first_word _ = none

abbrev pub Round : Type 0
Round = Step (Unit {0} ⊎ Unit {0})

abbrev pub after_drained : Step SvnItem → Round
after_drained (r, err (protocol message)) =
    (r, (if bytes_eq message (text "unexpected EOF") then ok (inr tt) else err (protocol message)))
after_drained (r, err e) = (r, err e)
after_drained (r, ok x) = (r, ok (if ends_drain (first_word x) then inr tt else inl tt))

unfoldable pub drain_body : Unit {0} → Read (Unit {0} ⊎ Unit {0})
drain_body _ r = after_drained (read_item r)

unfoldable pub drain_until_abort_or_success : Read (Unit {0})
unfolding drain_body
drain_until_abort_or_success = loop drain_body tt

-- The handler's state and answers, the stream, and `String::from_utf8_lossy`.
module _ {H : Type 0} (on_event : H → EditorEvent → H × Result (Unit {0}))
    (write_all : Bytes → Bytes → Result (Unit {0})) (flush : Bytes → Result (Unit {0}))
    (from_utf8_lossy : Bytes → Bytes) where
  abbrev pub Drive : Type 0
  Drive = Option H × Writer

  abbrev pub Outcome : Type 0
  Outcome = Drive × Result EditorDriveStatus

  abbrev pub notified : H × Result (Unit {0}) → Option H × Result (Unit {0})
  notified (h, answer) = (some h, answer)

  -- `if let Some(handler) = … && let Err(err) = handler.on_event(event)`
  unfoldable pub notify : Option H → EditorEvent → Option H × Result (Unit {0})
  notify none event = (none, ok tt)
  notify (some h) event = notified (on_event h event)

  abbrev pub ended : Drive → Result EditorDriveStatus → Read (Drive ⊎ Outcome)
  ended s result r = (r, ok (inr (s, result)))

  abbrev pub after_drain : Drive → SvnError → Step (Unit {0}) → Step (Drive ⊎ Outcome)
  after_drain s e (r, err e') = ended s (err e') r
  after_drain s e (r, ok _) = ended s (ok (aborted e)) r

  abbrev pub after_failure :
      Option H → SvnError → Bool → Step (Writer × Result Bool) → Step (Drive ⊎ Outcome)
  after_failure h e drain (r, err e') = (r, err e')
  after_failure h e drain (r, ok (w, err e')) = ended (h, w) (err e') r
  after_failure h e true (r, ok (w, ok false)) =
      after_drain (h, w) e (drain_until_abort_or_success r)
  after_failure h e drain (r, ok (w, ok done)) = ended (h, w) (ok (aborted e)) r

  unfoldable pub handle_editor_consumer_error : Drive → SvnError → Bool → Read (Drive ⊎ Outcome)
  handle_editor_consumer_error (h, w) e drain r =
      after_failure h e drain (write_cmd_failure_early write_all flush e w r)

  abbrev pub after_replay : Option H × Result (Unit {0}) → Writer → Read (Drive ⊎ Outcome)
  after_replay (h, err e) w = handle_editor_consumer_error (h, w) e false
  after_replay (h, ok _) w = ended (h, w) (ok completed)

  abbrev pub after_success : Option H → Writer × Result (Unit {0}) → Read (Drive ⊎ Outcome)
  after_success h (w, err e) = ended (h, w) (err e)
  after_success h (w, ok _) = ended (h, w) (ok completed)

  abbrev pub after_close : Option H × Result (Unit {0}) → Writer → Read (Drive ⊎ Outcome)
  after_close (h, err e) w = handle_editor_consumer_error (h, w) e false
  after_close (h, ok _) w = after_success h (write_cmd_success write_all flush w)

  abbrev pub after_event : Option H × Result (Unit {0}) → Writer → Read (Drive ⊎ Outcome)
  after_event (h, err e) w r = handle_editor_consumer_error (h, w) e true r
  after_event (h, ok _) w r = (r, ok (inl (h, w)))

  abbrev pub on_parsed : Drive → Result EditorEvent → Read (Drive ⊎ Outcome)
  on_parsed s (err e) = handle_editor_consumer_error s e true
  on_parsed (h, w) (ok event) = after_event (notify h event) w

  unfoldable pub on_command : Bool → Drive → Command → Read (Drive ⊎ Outcome)
  unfolding notify handle_editor_consumer_error
  on_command for_replay (h, w) (cmd, params) =
      if bytes_eq cmd (text "failure")
      then ended (h, w) (err (parse_failure from_utf8_lossy params))
      else if bytes_eq cmd (text "finish-replay")
      then (if not for_replay
          then ended (h, w) (refuse (text "finish-replay is only valid during replay"))
          else after_replay (notify h EditorEvent.finish_replay) w)
      else if bytes_eq cmd (text "close-edit")
      then after_close (notify h EditorEvent.close_edit) w
      else if bytes_eq cmd (text "abort-edit")
      then after_close (notify h EditorEvent.abort_edit) w
      else on_parsed (h, w) (parse_editor_event cmd params)

  abbrev pub on_item : Bool → Drive → Result Command → Read (Drive ⊎ Outcome)
  on_item for_replay s (err e) = handle_editor_consumer_error s e true
  on_item for_replay s (ok command) = on_command for_replay s command

  abbrev pub after_read : Bool → Drive → Step SvnItem → Step (Drive ⊎ Outcome)
  after_read for_replay s (r, err e) = ended s (err e) r
  after_read for_replay s (r, ok x) = on_item for_replay s (parse_command_item x) r

  unfoldable pub drive_body : Bool → Drive → Read (Drive ⊎ Outcome)
  drive_body for_replay s r = after_read for_replay s (read_item r)

  unfoldable pub drive_editor : Bool → Drive → Read Outcome
  drive_editor for_replay = loop (drive_body for_replay)
