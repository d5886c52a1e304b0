-- ===== src/Rasvn/Edit/RoundTrip.antt =====
-- The editor commands that are sent (src/rasvn/edit/command.rs), read by the event parser
-- (src/rasvn/edit/decode.rs).
use svn.Base.{ℕ, ◌≡◌, refl, Bytes, text, bytes_eq, Option, none, some, ok}
use svn.Base.Utf8.{from_utf8}
use svn.Editor.{EditorCommand}
use svn.Rasvn.Wire as Wire
use svn.Rasvn.Wire.{newline}
use svn.Rasvn.Item.{string, as_string, as_u64, as_list, as_bytes_string, encode_item, encode_items}
use svn.Rasvn.Edit.Command.{encode_editor_command, encode_body}
use svn.Rasvn.Edit.Decode.{
  req_string, req_rel_path, req_bytes, opt_tuple_u64, optional_tuple_string, optional_tuple_bytes,
  copy_from_of, opt_tuple_copyfrom, copy_from_items, parse_editor_event, parse_target_rev,
  parse_open_root, parse_delete_entry, parse_add_dir, parse_open_dir, parse_change_dir_prop,
  parse_close_dir, parse_absent_dir, parse_add_file, parse_open_file, parse_apply_text_delta,
  parse_text_delta_chunk, parse_text_delta_end, parse_change_file_prop, parse_close_file,
  parse_absent_file,
}
use svn.Rasvn.Edit.Sendable.{
  IsText, IsTextOption, IsCanonical, IsCopySource, IsEdit, event_of, rev_items, bytes_items,
  copy_items, tuple, command_word, command_params, command_item,
}

as_string_lem : (s : Bytes) → IsText s → as_string (string s) ≡ some s
unfolding as_string from_utf8
as_string_lem s h = rw h refl

req_string_lem : (s ctx : Bytes) → IsText s → req_string (string s) ctx ≡ ok s
unfolding req_string
req_string_lem s ctx h = rw (as_string_lem s h) refl

req_rel_path_lem : (s ctx : Bytes) → IsCanonical s → req_rel_path (string s) ctx ≡ ok s
unfolding req_rel_path
req_rel_path_lem s ctx (t, c) = rw (req_string_lem s ctx t) c

opt_tuple_u64_lem : (rev : Option ℕ) → opt_tuple_u64 (tuple (rev_items rev)) ≡ rev
unfolding opt_tuple_u64 as_u64
opt_tuple_u64_lem none = refl
opt_tuple_u64_lem (some rev) = refl

optional_tuple_bytes_lem :
    (v : Option Bytes) (ctx : Bytes)
    → optional_tuple_bytes (some (tuple (bytes_items v))) ctx ≡ ok v
unfolding optional_tuple_bytes as_bytes_string
optional_tuple_bytes_lem none ctx = refl
optional_tuple_bytes_lem (some v) ctx = refl

optional_tuple_string_lem :
    (v : Option Bytes) (ctx : Bytes)
    → IsTextOption v
    → optional_tuple_string (some (tuple (bytes_items v))) ctx ≡ ok v
unfolding optional_tuple_string
optional_tuple_string_lem none ctx h = refl
optional_tuple_string_lem (some v) ctx h = rw (as_string_lem v h) refl

copy_from_of_lem :
    (c : Option (Bytes × ℕ)) → IsCopySource c → copy_from_of (some (tuple (copy_items c))) ≡ ok c
unfolding copy_from_of opt_tuple_copyfrom copy_from_items as_list as_u64
copy_from_of_lem none h = refl
copy_from_of_lem (some (path, rev)) (t, c) = rw (as_string_lem path t) (rw c refl)

pub encode_editor_command-command_item :
    (cmd : EditorCommand) (out : Bytes)
    → IsEdit cmd
    → encode_editor_command cmd out ≡ ok (newline (encode_item (command_item cmd) out))
unfolding encode_editor_command encode_body encode_item encode_items Wire.string_str
encode_editor_command-command_item (EditorCommand.open_root none token) out h = refl
encode_editor_command-command_item (EditorCommand.open_root (some v) token) out h = refl
encode_editor_command-command_item (EditorCommand.delete_entry path rev dir_token) out
      ((t, c), h₁) =
    rw c refl
encode_editor_command-command_item (EditorCommand.add_dir path parent_token child_token none) out
      ((t, c), h₁, h₂, h₃) =
    rw c refl
encode_editor_command-command_item
      (EditorCommand.add_dir path parent_token child_token (some (source, rev))) out
      ((t, c), h₁, h₂, h₃) =
    rw c refl
encode_editor_command-command_item (EditorCommand.open_dir path parent_token child_token rev) out
      ((t, c), h₁, h₂) =
    rw c refl
encode_editor_command-command_item (EditorCommand.change_dir_prop dir_token name none) out h = refl
encode_editor_command-command_item (EditorCommand.change_dir_prop dir_token name (some v)) out h =
    refl
encode_editor_command-command_item (EditorCommand.close_dir dir_token) out h = refl
encode_editor_command-command_item (EditorCommand.absent_dir path parent_token) out ((t, c), h₁) =
    rw c refl
encode_editor_command-command_item (EditorCommand.add_file path dir_token file_token none) out
      ((t, c), h₁, h₂, h₃) =
    rw c refl
encode_editor_command-command_item
      (EditorCommand.add_file path dir_token file_token (some (source, rev))) out
      ((t, c), h₁, h₂, h₃) =
    rw c refl
encode_editor_command-command_item (EditorCommand.open_file path dir_token file_token rev) out
      ((t, c), h₁, h₂) =
    rw c refl
encode_editor_command-command_item (EditorCommand.apply_text_delta file_token none) out h = refl
encode_editor_command-command_item (EditorCommand.apply_text_delta file_token (some v)) out h = refl
encode_editor_command-command_item (EditorCommand.text_delta_chunk file_token chunk) out h = refl
encode_editor_command-command_item (EditorCommand.text_delta_end file_token) out h = refl
encode_editor_command-command_item (EditorCommand.change_file_prop file_token name none) out h =
    refl
encode_editor_command-command_item (EditorCommand.change_file_prop file_token name (some v)) out h =
    refl
encode_editor_command-command_item (EditorCommand.close_file file_token none) out h = refl
encode_editor_command-command_item (EditorCommand.close_file file_token (some v)) out h = refl
encode_editor_command-command_item (EditorCommand.absent_file path parent_token) out ((t, c), h₁) =
    rw c refl
encode_editor_command-command_item EditorCommand.close_edit out h = elim h [ ]
encode_editor_command-command_item EditorCommand.abort_edit out h = elim h [ ]

pub parse_editor_event-event_of :
    (cmd : EditorCommand)
    → IsEdit cmd
    → parse_editor_event (command_word cmd) (command_params cmd) ≡ ok (event_of cmd)
unfolding parse_editor_event bytes_eq text parse_target_rev parse_open_root parse_delete_entry
    parse_add_dir parse_open_dir parse_change_dir_prop parse_close_dir parse_absent_dir
    parse_add_file parse_open_file parse_apply_text_delta parse_text_delta_chunk
    parse_text_delta_end parse_change_file_prop parse_close_file parse_absent_file req_bytes
    as_bytes_string
parse_editor_event-event_of (EditorCommand.open_root rev token) h_token =
    simp (opt_tuple_u64_lem rev, req_string_lem token _ h_token)
parse_editor_event-event_of (EditorCommand.delete_entry path rev dir_token) (p, h_dir_token) =
    simp (
      req_rel_path_lem path _ p,
      opt_tuple_u64_lem (some rev),
      req_string_lem dir_token _ h_dir_token,
    )
parse_editor_event-event_of (EditorCommand.add_dir path parent_token child_token copy_from)
      (p, h_parent_token, h_child_token, s) =
    simp (
      req_rel_path_lem path _ p,
      req_string_lem parent_token _ h_parent_token,
      req_string_lem child_token _ h_child_token,
      copy_from_of_lem copy_from s,
    )
parse_editor_event-event_of (EditorCommand.open_dir path parent_token child_token rev)
      (p, h_parent_token, h_child_token) =
    simp (
      req_rel_path_lem path _ p,
      req_string_lem parent_token _ h_parent_token,
      req_string_lem child_token _ h_child_token,
      opt_tuple_u64_lem (some rev),
    )
parse_editor_event-event_of (EditorCommand.change_dir_prop dir_token name value)
      (h_dir_token, h_name) =
    simp (
      req_string_lem dir_token _ h_dir_token,
      req_string_lem name _ h_name,
      optional_tuple_bytes_lem value _,
    )
parse_editor_event-event_of (EditorCommand.close_dir dir_token) h_dir_token =
    simp (as_string_lem dir_token h_dir_token)
parse_editor_event-event_of (EditorCommand.absent_dir path parent_token) (p, h_parent_token) =
    simp (req_rel_path_lem path _ p, req_string_lem parent_token _ h_parent_token)
parse_editor_event-event_of (EditorCommand.add_file path dir_token file_token copy_from)
      (p, h_dir_token, h_file_token, s) =
    simp (
      req_rel_path_lem path _ p,
      req_string_lem dir_token _ h_dir_token,
      req_string_lem file_token _ h_file_token,
      copy_from_of_lem copy_from s,
    )
parse_editor_event-event_of (EditorCommand.open_file path dir_token file_token rev)
      (p, h_dir_token, h_file_token) =
    simp (
      req_rel_path_lem path _ p,
      req_string_lem dir_token _ h_dir_token,
      req_string_lem file_token _ h_file_token,
      opt_tuple_u64_lem (some rev),
    )
parse_editor_event-event_of (EditorCommand.apply_text_delta file_token base_checksum)
      (h_file_token, s) =
    simp (req_string_lem file_token _ h_file_token, optional_tuple_string_lem base_checksum _ s)
parse_editor_event-event_of (EditorCommand.text_delta_chunk file_token chunk) h_file_token =
    simp (req_string_lem file_token _ h_file_token)
parse_editor_event-event_of (EditorCommand.text_delta_end file_token) h_file_token =
    simp (as_string_lem file_token h_file_token)
parse_editor_event-event_of (EditorCommand.change_file_prop file_token name value)
      (h_file_token, h_name) =
    simp (
      req_string_lem file_token _ h_file_token,
      req_string_lem name _ h_name,
      optional_tuple_bytes_lem value _,
    )
parse_editor_event-event_of (EditorCommand.close_file file_token text_checksum) (h_file_token, s) =
    simp (req_string_lem file_token _ h_file_token, optional_tuple_string_lem text_checksum _ s)
parse_editor_event-event_of (EditorCommand.absent_file path parent_token) (p, h_parent_token) =
    simp (req_rel_path_lem path _ p, req_string_lem parent_token _ h_parent_token)
parse_editor_event-event_of EditorCommand.close_edit h = elim h [ ]
parse_editor_event-event_of EditorCommand.abort_edit h = elim h [ ]

-- An editor command other than `close-edit` and `abort-edit`, whose paths are canonical and whose
-- strings are UTF-8, is encoded as the item with its name and parameters and a newline, and the
-- event parser reads that name and those parameters as the event with the command's fields.
pub parse_editor_event-encode_editor_command :
    (cmd : EditorCommand) (out : Bytes)
    → IsEdit cmd
    → (encode_editor_command cmd out ≡ ok (newline (encode_item (command_item cmd) out)))
      × (parse_editor_event (command_word cmd) (command_params cmd) ≡ ok (event_of cmd))
parse_editor_event-encode_editor_command cmd out h =
    (encode_editor_command-command_item cmd out h, parse_editor_event-event_of cmd h)
