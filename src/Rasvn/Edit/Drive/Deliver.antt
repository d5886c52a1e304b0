-- ===== src/Rasvn/Edit/Drive/Deliver.antt =====
-- The editor drive (src/rasvn/edit/drive.rs) over the commands that the encoder of
-- src/rasvn/edit/command.rs writes.
use svn.Base.{
  ◌≡◌, refl, sym, ap, ◌∙◌, subst, List, [], ◌∷◌, ◌++◌, map, append_assoc, Bytes, text, bytes_eq,
  Bool, if◌then◌else◌, Option, some, Result, ok, err, ◌==◌, arith, inl, inr,
}
use svn.Base.Utf8.{is_utf8}
use svn.Editor.{EditorEvent, EditorCommand}
use svn.Rasvn.Wire as Wire
use svn.Rasvn.Item.{SvnItem, as_word, as_list, to_list-items, encode_item, encode_items}
use svn.Rasvn.Edit.Command.{encode_editor_command, encode_body}
use svn.Rasvn.Edit.Decode.{parse_editor_event}
use svn.Rasvn.Edit.Sendable.{IsEdit, event_of, command_word, command_params, command_item}
use svn.Rasvn.Edit.RoundTrip.{parse_editor_event-event_of, encode_editor_command-command_item}
use svn.Rasvn.Conn.Read.{Reader, ◌>>=◌, after_step, loop, after_round}
use svn.Rasvn.Conn.Io.{skip_ws, skip_ws_body, read_item, read_list, read_atom, peek_byte}
use svn.Rasvn.Conn.Rounds.{skip_ws_unroll}
use svn.Rasvn.Conn.Stream.{
  Gets, gets, run_Gets, upcoming, return-Gets, bind-Gets, more-Gets, done-Gets, peek_byte-Gets,
  consume_byte-Gets,
}
use svn.Rasvn.Conn.Tokens.{IsToken}
use svn.Rasvn.Conn.RoundTrip.{IsReadable, AreReadable, encoded_item, encode_item-Appends}
use svn.Rasvn.Conn.Write.{Writer, write_cmd_success}
use svn.Rasvn.Edit.Drive.{
  parse_parts, parse_command_item, completed, drive_editor, drive_body, on_command, on_item,
  on_parsed, after_read, after_event, after_close, after_success, notified, notify,
}
use svn.Rasvn.Edit.Drive.Rounds.{drive_body-IsRound}

-- Whitespace in front of an item is skipped.
newline_round : (bs : Bytes) → Gets (skip_ws_body tt) (10 ∷ bs) (inl tt) bs
unfolding skip_ws_body
newline_round bs =
    bind-Gets _ (peek_byte-Gets 10 bs)
      (bind-Gets _ (consume_byte-Gets 10 bs) (return-Gets (inl tt) bs))

newline_skipped :
    (x : SvnItem) (bs rest : Bytes) → Gets read_item bs x rest → Gets read_item (10 ∷ bs) x rest
unfolding read_item skip_ws
newline_skipped x bs rest h = gets (λ r e.
    let (r₁, run, e₁) = run_Gets (newline_round bs) r e in
    let (r', run', e') = run_Gets h r₁ e₁ in
    (
      r',
      ap (λ s. after_step s (λ _. peek_byte >>= λ ch. if ch == 40 then read_list else read_atom))
            (skip_ws_unroll r ∙ ap (after_round (loop skip_ws_body)) run)
          ∙ run',
      e',
    ))

pub parse_command_item-command_item :
    (cmd : EditorCommand)
    → parse_command_item (command_item cmd) ≡ ok (command_word cmd, command_params cmd)
unfolding parse_command_item parse_parts as_word as_list
parse_command_item-command_item cmd =
    ap (λ (t : List SvnItem). ok (command_word cmd, t)) (to_list-items (command_params cmd))

close_edit-IsReadable : IsReadable 0 (command_item EditorCommand.close_edit)
unfolding IsReadable AreReadable text is_utf8 bytes_eq
close_edit-IsReadable =
    let token : IsToken (text "close-edit") = (
      refl,
      refl,
      (
        refl,
        refl,
        (
          refl,
          refl,
          (
            refl,
            refl,
            (refl, refl, (refl, refl, (refl, refl, (refl, refl, (refl, refl, (refl, refl, tt)))))),
          ),
        ),
      ),
    ) in
    (
      omega arith,
      (((99, text "lose-edit", refl, refl, token, refl), refl, refl), ((omega arith, tt), tt)),
    )

-- The bytes of the commands and of a `close-edit` behind them.
abbrev pub line : EditorCommand → Bytes
line cmd = encode_item (command_item cmd) [] ++ (10 ∷ [])

abbrev pub lines : List EditorCommand → Bytes
lines [] = line EditorCommand.close_edit
lines (cmd ∷ cmds) = line cmd ++ lines cmds

-- The commands and a `close-edit`, each encoded behind the ones before it.
abbrev pub encode_all : List EditorCommand → Bytes → Result Bytes
encode_all [] out = encode_editor_command EditorCommand.close_edit out
encode_all (cmd ∷ cmds) out = elim (encode_editor_command cmd out) [
  | err e ↦ err e
  | ok out' ↦ encode_all cmds out'
]

encode_close :
    (out : Bytes)
    → encode_editor_command EditorCommand.close_edit out
      ≡ ok (Wire.newline (encode_item (command_item EditorCommand.close_edit) out))
unfolding encode_editor_command encode_body encode_item encode_items
encode_close out = refl

line_appended :
    (cmd : EditorCommand) (out : Bytes)
    → Wire.newline (encode_item (command_item cmd) out) ≡ out ++ line cmd
unfolding Wire.newline
line_appended cmd out =
    ap (λ (t : Bytes). t ++ (10 ∷ [])) (encode_item-Appends (command_item cmd) out)
    ∙ append_assoc out (encode_item (command_item cmd) []) (10 ∷ [])

abbrev pub AreEdits : List EditorCommand → Type 0
AreEdits [] = Unit
AreEdits (cmd ∷ cmds) = IsEdit cmd × IsReadable 0 (command_item cmd) × AreEdits cmds

encode_all-lines :
    (cmds : List EditorCommand) (out : Bytes)
    → AreEdits cmds
    → encode_all cmds out ≡ ok (out ++ lines cmds)
encode_all-lines [] out edits =
    encode_close out ∙ ap (λ (t : Bytes). ok t) (line_appended EditorCommand.close_edit out)
encode_all-lines (cmd ∷ cmds) out (is, readable, edits) =
    ap (λ r. elim r [ err e ↦ err e | ok out' ↦ encode_all cmds out' ])
      (encode_editor_command-command_item cmd out is
        ∙ ap (λ (t : Bytes). ok t) (line_appended cmd out))
    ∙ encode_all-lines cmds (out ++ line cmd) edits
    ∙ ap (λ (t : Bytes). ok t) (append_assoc out (line cmd) (lines cmds))

same_value : {a b : Bytes} → ok a ≡ ok b → a ≡ b
same_value e = cc e

module _ {H : Type 0} (on_event : H → EditorEvent → H × Result (Unit {0}))
    (write_all : Bytes → Bytes → Result (Unit {0})) (flush : Bytes → Result (Unit {0}))
    (from_utf8_lossy : Bytes → Bytes) where
  -- The handler accepts these events, one after another, and comes from one state to another.
  abbrev pub Accepts : H → List EditorEvent → H → Type 0
  Accepts h [] h' = h ≡ h'
  Accepts h (event ∷ events) h' = (h₁ : H) × (on_event h event ≡ (h₁, ok tt)) × Accepts h₁ events h'

  by_word :
      (for_replay : Bool) (s : Option H) (w : Writer) (cmd : EditorCommand)
      → IsEdit cmd
      → on_command on_event write_all flush from_utf8_lossy for_replay
          (s, w)
          (command_word cmd, command_params cmd)
        ≡ on_parsed on_event write_all flush from_utf8_lossy
            (s, w)
            (parse_editor_event (command_word cmd) (command_params cmd))
  unfolding on_command text bytes_eq
  by_word for_replay s w (EditorCommand.open_root _ _) h = refl
  by_word for_replay s w (EditorCommand.delete_entry _ _ _) h = refl
  by_word for_replay s w (EditorCommand.add_dir _ _ _ _) h = refl
  by_word for_replay s w (EditorCommand.open_dir _ _ _ _) h = refl
  by_word for_replay s w (EditorCommand.change_dir_prop _ _ _) h = refl
  by_word for_replay s w (EditorCommand.close_dir _) h = refl
  by_word for_replay s w (EditorCommand.absent_dir _ _) h = refl
  by_word for_replay s w (EditorCommand.add_file _ _ _ _) h = refl
  by_word for_replay s w (EditorCommand.open_file _ _ _ _) h = refl
  by_word for_replay s w (EditorCommand.apply_text_delta _ _) h = refl
  by_word for_replay s w (EditorCommand.text_delta_chunk _ _) h = refl
  by_word for_replay s w (EditorCommand.text_delta_end _) h = refl
  by_word for_replay s w (EditorCommand.change_file_prop _ _ _) h = refl
  by_word for_replay s w (EditorCommand.close_file _ _) h = refl
  by_word for_replay s w (EditorCommand.absent_file _ _) h = refl
  by_word for_replay s w EditorCommand.close_edit h = elim h [ ]
  by_word for_replay s w EditorCommand.abort_edit h = elim h [ ]

  pub on_command-event_of :
      (for_replay : Bool) (s : Option H) (w : Writer) (cmd : EditorCommand)
      → IsEdit cmd
      → on_command on_event write_all flush from_utf8_lossy for_replay
          (s, w)
          (command_word cmd, command_params cmd)
        ≡ on_parsed on_event write_all flush from_utf8_lossy (s, w) (ok (event_of cmd))
  on_command-event_of for_replay s w cmd h =
      by_word for_replay s w cmd h
      ∙ ap (on_parsed on_event write_all flush from_utf8_lossy (s, w))
          (parse_editor_event-event_of cmd h)

  edit_round :
      (for_replay : Bool) (h h₁ : H) (w : Writer) (cmd : EditorCommand) (bs rest : Bytes)
      → IsEdit cmd
      → on_event h (event_of cmd) ≡ (h₁, ok tt)
      → Gets read_item bs (command_item cmd) rest
      → Gets
          (drive_body on_event write_all flush from_utf8_lossy for_replay (some h, w))
          bs
          (inl (some h₁, w))
          rest
  unfolding drive_body notify
  edit_round for_replay h h₁ w cmd bs rest is accepts item = gets (λ r e.
      let (r', run, e') = run_Gets item r e in
      (
        r',
        ap (after_read on_event write_all flush from_utf8_lossy for_replay (some h, w)) run
            ∙ ap (λ c. on_item on_event write_all flush from_utf8_lossy for_replay (some h, w) c r')
                (parse_command_item-command_item cmd)
            ∙ ap (λ m. m r') (on_command-event_of for_replay (some h) w cmd is)
            ∙ ap
                (λ a.
                  after_event on_event write_all flush from_utf8_lossy
                    (notified on_event write_all flush from_utf8_lossy a) w r')
                accepts,
        e',
      ))

  close_round :
      (for_replay : Bool) (h h₁ : H) (w w' : Writer) (bs rest : Bytes)
      → on_event h EditorEvent.close_edit ≡ (h₁, ok tt)
      → write_cmd_success write_all flush w ≡ (w', ok tt)
      → Gets read_item bs (command_item EditorCommand.close_edit) rest
      → Gets
          (drive_body on_event write_all flush from_utf8_lossy for_replay (some h, w))
          bs
          (inr ((some h₁, w'), ok completed))
          rest
  unfolding drive_body notify on_command text bytes_eq
  close_round for_replay h h₁ w w' bs rest accepts written item = gets (λ r e.
      let (r', run, e') = run_Gets item r e in
      (
        r',
        ap (after_read on_event write_all flush from_utf8_lossy for_replay (some h, w)) run
            ∙ ap (λ c. on_item on_event write_all flush from_utf8_lossy for_replay (some h, w) c r')
                (parse_command_item-command_item EditorCommand.close_edit)
            ∙ ap
                (λ a.
                  after_close on_event write_all flush from_utf8_lossy
                    (notified on_event write_all flush from_utf8_lossy a) w r')
                accepts
            ∙ ap (λ a. after_success on_event write_all flush from_utf8_lossy (some h₁) a r')
                written,
        e',
      ))

  all_rounds :
      (for_replay : Bool) (cmds : List EditorCommand) (h h' : H) (w w' : Writer)
      (start rest : Bytes)
      → ((x : SvnItem) (behind : Bytes)
          → IsReadable 0 x
          → Gets read_item (start ++ (encode_item x [] ++ behind)) x behind)
      → AreEdits cmds
      → Accepts h (map event_of cmds ++ (EditorEvent.close_edit ∷ [])) h'
      → write_cmd_success write_all flush w ≡ (w', ok tt)
      → Gets
          (drive_editor on_event write_all flush from_utf8_lossy for_replay (some h, w))
          (start ++ (lines cmds ++ rest))
          ((some h', w'), ok completed)
          (10 ∷ rest)
  unfolding drive_editor
  all_rounds for_replay [] h h' w w' start rest first edits (h₁, accepts, same) written =
      done-Gets (drive_body on_event write_all flush from_utf8_lossy for_replay)
        (drive_body-IsRound on_event write_all flush from_utf8_lossy for_replay)
        (close_round for_replay h h' w w' (start ++ (lines [] ++ rest)) (10 ∷ rest)
          (subst (λ t. on_event h EditorEvent.close_edit ≡ (t, ok tt)) same accepts) written
          (subst
            (λ (t : Bytes).
              Gets read_item (start ++ t) (command_item EditorCommand.close_edit) (10 ∷ rest))
            (sym (
              append_assoc (encode_item (command_item EditorCommand.close_edit) []) (10 ∷ []) rest))
            (first (command_item EditorCommand.close_edit) (10 ∷ rest) close_edit-IsReadable)))
  all_rounds for_replay (cmd ∷ cmds) h h' w w' start rest first (is, readable, edits)
        (h₁, accepts, more) written =
      more-Gets (drive_body on_event write_all flush from_utf8_lossy for_replay)
        (drive_body-IsRound on_event write_all flush from_utf8_lossy for_replay)
        (edit_round for_replay h h₁ w cmd (start ++ (lines (cmd ∷ cmds) ++ rest))
          (10 ∷ (lines cmds ++ rest)) is accepts
          (subst
            (λ (t : Bytes).
              Gets read_item (start ++ t) (command_item cmd) (10 ∷ (lines cmds ++ rest)))
            (sym (
              append_assoc (line cmd) (lines cmds) rest
              ∙ append_assoc (encode_item (command_item cmd) []) (10 ∷ []) (lines cmds ++ rest)))
            (first (command_item cmd) (10 ∷ (lines cmds ++ rest)) readable)))
        (all_rounds for_replay cmds h₁ h' w w' (10 ∷ []) rest
          (λ x behind ok_x.
            newline_skipped x (encode_item x [] ++ behind) behind (encoded_item x behind ok_x))
          edits more written)

  -- Editor commands and a closing `close-edit` that the encoder writes one after another are
  -- delivered by the editor drive, whichever reads of the stream their bytes come in: the handler
  -- gets the event with each command's fields in the order of the commands and then the end of the
  -- edit, the success is written, the drive is complete, and the last newline and what follows are left.
  -- The commands have UTF-8 strings, canonical paths and sizes that can be read back, the handler
  -- accepts the events, and the success can be written.
  pub drive_editor-encode_all :
      (for_replay : Bool) (cmds : List EditorCommand) (h h' : H) (w w' : Writer) (wire rest : Bytes)
      (r : Reader)
      → AreEdits cmds
      → Accepts h (map event_of cmds ++ (EditorEvent.close_edit ∷ [])) h'
      → write_cmd_success write_all flush w ≡ (w', ok tt)
      → encode_all cmds [] ≡ ok wire
      → upcoming r ≡ wire ++ rest
      → (r' : Reader) × (drive_editor on_event write_all flush from_utf8_lossy for_replay
            (some h, w)
            r
          ≡ (r', ok ((some h', w'), ok completed)))
        × (upcoming r' ≡ 10 ∷ rest)
  drive_editor-encode_all for_replay cmds h h' w w' wire rest r edits accepts written sent up =
      run_Gets (all_rounds for_replay cmds h h' w w' [] rest encoded_item edits accepts written) r (
        up ∙ ap (λ (t : Bytes). t ++ rest) (same_value (sym sent ∙ encode_all-lines cmds [] edits)))
