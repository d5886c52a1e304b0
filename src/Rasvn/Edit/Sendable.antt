-- ===== src/Rasvn/Edit/Sendable.antt =====
-- Editor commands (src/rasvn/edit/command.rs) as protocol items and as events: what the encoder and
-- the event parser are compared with.
use svn.Base.{ℕ, ◌≡◌, List, [], ◌∷◌, Bytes, text, true, Option, none, some, ok}
use svn.Base.Utf8.{is_utf8}
use svn.Path.{validate_rel_path}
use svn.Editor.{EditorEvent, EditorCommand}
use svn.Rasvn.Item.{SvnItem, word, number, string, list, items}

-- What a `String` holds.
abbrev pub IsText : Bytes → Type 0
IsText s = is_utf8 s ≡ true

abbrev pub IsTextOption : Option Bytes → Type 0
IsTextOption none = Unit
IsTextOption (some s) = IsText s

-- A path that validation leaves as it is.
abbrev pub IsCanonical : Bytes → Type 0
IsCanonical path = IsText path × (validate_rel_path path ≡ ok path)

abbrev pub IsCopySource : Option (Bytes × ℕ) → Type 0
IsCopySource none = Unit
IsCopySource (some (path, rev)) = IsCanonical path

-- A command that is neither `close-edit` nor `abort-edit`, with its strings and its paths.
abbrev pub IsEdit : EditorCommand → Type 0
IsEdit (EditorCommand.open_root rev token) = IsText token
IsEdit (EditorCommand.delete_entry path rev dir_token) = IsCanonical path × IsText dir_token
IsEdit (EditorCommand.add_dir path parent_token child_token copy_from) =
    IsCanonical path × IsText parent_token × IsText child_token × IsCopySource copy_from
IsEdit (EditorCommand.open_dir path parent_token child_token rev) =
    IsCanonical path × IsText parent_token × IsText child_token
IsEdit (EditorCommand.change_dir_prop dir_token name value) = IsText dir_token × IsText name
IsEdit (EditorCommand.close_dir dir_token) = IsText dir_token
IsEdit (EditorCommand.absent_dir path parent_token) = IsCanonical path × IsText parent_token
IsEdit (EditorCommand.add_file path dir_token file_token copy_from) =
    IsCanonical path × IsText dir_token × IsText file_token × IsCopySource copy_from
IsEdit (EditorCommand.open_file path dir_token file_token rev) =
    IsCanonical path × IsText dir_token × IsText file_token
IsEdit (EditorCommand.apply_text_delta file_token base_checksum) =
    IsText file_token × IsTextOption base_checksum
IsEdit (EditorCommand.text_delta_chunk file_token chunk) = IsText file_token
IsEdit (EditorCommand.text_delta_end file_token) = IsText file_token
IsEdit (EditorCommand.change_file_prop file_token name value) = IsText file_token × IsText name
IsEdit (EditorCommand.close_file file_token text_checksum) =
    IsText file_token × IsTextOption text_checksum
IsEdit (EditorCommand.absent_file path parent_token) = IsCanonical path × IsText parent_token
IsEdit EditorCommand.close_edit = ⊥
IsEdit EditorCommand.abort_edit = ⊥

-- The event with a command's fields.
abbrev pub event_of : EditorCommand → EditorEvent
event_of (EditorCommand.open_root rev token) = EditorEvent.open_root rev token
event_of (EditorCommand.delete_entry path rev dir_token) =
    EditorEvent.delete_entry path rev dir_token
event_of (EditorCommand.add_dir path parent_token child_token copy_from) =
    EditorEvent.add_dir path parent_token child_token copy_from
event_of (EditorCommand.open_dir path parent_token child_token rev) =
    EditorEvent.open_dir path parent_token child_token rev
event_of (EditorCommand.change_dir_prop dir_token name value) =
    EditorEvent.change_dir_prop dir_token name value
event_of (EditorCommand.close_dir dir_token) = EditorEvent.close_dir dir_token
event_of (EditorCommand.absent_dir path parent_token) = EditorEvent.absent_dir path parent_token
event_of (EditorCommand.add_file path dir_token file_token copy_from) =
    EditorEvent.add_file path dir_token file_token copy_from
event_of (EditorCommand.open_file path dir_token file_token rev) =
    EditorEvent.open_file path dir_token file_token rev
event_of (EditorCommand.apply_text_delta file_token base_checksum) =
    EditorEvent.apply_text_delta file_token base_checksum
event_of (EditorCommand.text_delta_chunk file_token chunk) =
    EditorEvent.text_delta_chunk file_token chunk
event_of (EditorCommand.text_delta_end file_token) = EditorEvent.text_delta_end file_token
event_of (EditorCommand.change_file_prop file_token name value) =
    EditorEvent.change_file_prop file_token name value
event_of (EditorCommand.close_file file_token text_checksum) =
    EditorEvent.close_file file_token text_checksum
event_of (EditorCommand.absent_file path parent_token) = EditorEvent.absent_file path parent_token
event_of EditorCommand.close_edit = EditorEvent.close_edit
event_of EditorCommand.abort_edit = EditorEvent.abort_edit

-- The optional fields: the items between their parentheses.
abbrev pub rev_items : Option ℕ → List SvnItem
rev_items none = []
rev_items (some rev) = number rev ∷ []

abbrev pub bytes_items : Option Bytes → List SvnItem
bytes_items none = []
bytes_items (some v) = string v ∷ []

abbrev pub copy_items : Option (Bytes × ℕ) → List SvnItem
copy_items none = []
copy_items (some (path, rev)) = string path ∷ number rev ∷ []

abbrev pub tuple : List SvnItem → SvnItem
tuple xs = list (items xs)

-- A command's name and parameters.
abbrev pub command_word : EditorCommand → Bytes
command_word (EditorCommand.open_root _ _) = text "open-root"
command_word (EditorCommand.delete_entry _ _ _) = text "delete-entry"
command_word (EditorCommand.add_dir _ _ _ _) = text "add-dir"
command_word (EditorCommand.open_dir _ _ _ _) = text "open-dir"
command_word (EditorCommand.change_dir_prop _ _ _) = text "change-dir-prop"
command_word (EditorCommand.close_dir _) = text "close-dir"
command_word (EditorCommand.absent_dir _ _) = text "absent-dir"
command_word (EditorCommand.add_file _ _ _ _) = text "add-file"
command_word (EditorCommand.open_file _ _ _ _) = text "open-file"
command_word (EditorCommand.apply_text_delta _ _) = text "apply-textdelta"
command_word (EditorCommand.text_delta_chunk _ _) = text "textdelta-chunk"
command_word (EditorCommand.text_delta_end _) = text "textdelta-end"
command_word (EditorCommand.change_file_prop _ _ _) = text "change-file-prop"
command_word (EditorCommand.close_file _ _) = text "close-file"
command_word (EditorCommand.absent_file _ _) = text "absent-file"
command_word EditorCommand.close_edit = text "close-edit"
command_word EditorCommand.abort_edit = text "abort-edit"

abbrev pub command_params : EditorCommand → List SvnItem
command_params (EditorCommand.open_root rev token) = tuple (rev_items rev) ∷ string token ∷ []
command_params (EditorCommand.delete_entry path rev dir_token) =
    string path ∷ tuple (number rev ∷ []) ∷ string dir_token ∷ []
command_params (EditorCommand.add_dir path parent_token child_token copy_from) =
    string path ∷ string parent_token ∷ string child_token ∷ tuple (copy_items copy_from) ∷ []
command_params (EditorCommand.open_dir path parent_token child_token rev) =
    string path ∷ string parent_token ∷ string child_token ∷ tuple (number rev ∷ []) ∷ []
command_params (EditorCommand.change_dir_prop dir_token name value) =
    string dir_token ∷ string name ∷ tuple (bytes_items value) ∷ []
command_params (EditorCommand.close_dir dir_token) = string dir_token ∷ []
command_params (EditorCommand.absent_dir path parent_token) = string path ∷ string parent_token ∷ []
command_params (EditorCommand.add_file path dir_token file_token copy_from) =
    string path ∷ string dir_token ∷ string file_token ∷ tuple (copy_items copy_from) ∷ []
command_params (EditorCommand.open_file path dir_token file_token rev) =
    string path ∷ string dir_token ∷ string file_token ∷ tuple (number rev ∷ []) ∷ []
command_params (EditorCommand.apply_text_delta file_token base_checksum) =
    string file_token ∷ tuple (bytes_items base_checksum) ∷ []
command_params (EditorCommand.text_delta_chunk file_token chunk) =
    string file_token ∷ string chunk ∷ []
command_params (EditorCommand.text_delta_end file_token) = string file_token ∷ []
command_params (EditorCommand.change_file_prop file_token name value) =
    string file_token ∷ string name ∷ tuple (bytes_items value) ∷ []
command_params (EditorCommand.close_file file_token text_checksum) =
    string file_token ∷ tuple (bytes_items text_checksum) ∷ []
command_params (EditorCommand.absent_file path parent_token) =
    string path ∷ string parent_token ∷ []
command_params EditorCommand.close_edit = []
command_params EditorCommand.abort_edit = []

-- The item that a command is on the wire.
abbrev pub command_item : EditorCommand → SvnItem
command_item cmd = tuple (word (command_word cmd) ∷ tuple (command_params cmd) ∷ [])
