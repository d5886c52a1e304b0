-- ===== src/Rasvn/Edit/Command.antt =====
-- `encode_editor_command` (src/rasvn/edit/command.rs).
use svn.Base.{ℕ, Bytes, text, Option, none, some, Result, ok, ◌>>=◌}
use svn.Path.{validate_rel_path}
use svn.Editor.{EditorCommand}
use svn.Rasvn.Wire.{◌▹◌, word, number, string_bytes, string_str, list_start, list_end, newline}

-- `if let Some(a) = o { … }`
abbrev pub optional {ℓ} : {A : Type ℓ} → (A → Bytes → Bytes) → Option A → Bytes → Bytes
optional f none out = out
optional f (some a) out = f a out

abbrev pub copy_source : Bytes × ℕ → Bytes → Bytes
copy_source (copy_path, copy_rev) out = out ▹ string_str copy_path ▹ number copy_rev

-- The command's name and its list of parameters.
unfoldable pub encode_body : EditorCommand → Bytes → Result Bytes
encode_body (EditorCommand.open_root rev token) out = ok (
    out
    ▹ word (text "open-root")
    ▹ list_start
    ▹ list_start
    ▹ optional number rev
    ▹ list_end
    ▹ string_str token
    ▹ list_end)
encode_body (EditorCommand.delete_entry path rev dir_token) out =
    validate_rel_path path >>= λ path'. ok (
      out
      ▹ word (text "delete-entry")
      ▹ list_start
      ▹ string_str path'
      ▹ list_start
      ▹ number rev
      ▹ list_end
      ▹ string_str dir_token
      ▹ list_end)
encode_body (EditorCommand.add_dir path parent_token child_token copy_from) out =
    validate_rel_path path >>= λ path'. ok (
      out
      ▹ word (text "add-dir")
      ▹ list_start
      ▹ string_str path'
      ▹ string_str parent_token
      ▹ string_str child_token
      ▹ list_start
      ▹ optional copy_source copy_from
      ▹ list_end
      ▹ list_end)
encode_body (EditorCommand.open_dir path parent_token child_token rev) out =
    validate_rel_path path >>= λ path'. ok (
      out
      ▹ word (text "open-dir")
      ▹ list_start
      ▹ string_str path'
      ▹ string_str parent_token
      ▹ string_str child_token
      ▹ list_start
      ▹ number rev
      ▹ list_end
      ▹ list_end)
encode_body (EditorCommand.change_dir_prop dir_token name value) out = ok (
    out
    ▹ word (text "change-dir-prop")
    ▹ list_start
    ▹ string_str dir_token
    ▹ string_str name
    ▹ list_start
    ▹ optional string_bytes value
    ▹ list_end
    ▹ list_end)
encode_body (EditorCommand.close_dir dir_token) out =
    ok (out ▹ word (text "close-dir") ▹ list_start ▹ string_str dir_token ▹ list_end)
encode_body (EditorCommand.absent_dir path parent_token) out = validate_rel_path path >>= λ path'.
    ok (
      out
      ▹ word (text "absent-dir")
      ▹ list_start
      ▹ string_str path'
      ▹ string_str parent_token
      ▹ list_end)
encode_body (EditorCommand.add_file path dir_token file_token copy_from) out =
    validate_rel_path path >>= λ path'. ok (
      out
      ▹ word (text "add-file")
      ▹ list_start
      ▹ string_str path'
      ▹ string_str dir_token
      ▹ string_str file_token
      ▹ list_start
      ▹ optional copy_source copy_from
      ▹ list_end
      ▹ list_end)
encode_body (EditorCommand.open_file path dir_token file_token rev) out =
    validate_rel_path path >>= λ path'. ok (
      out
      ▹ word (text "open-file")
      ▹ list_start
      ▹ string_str path'
      ▹ string_str dir_token
      ▹ string_str file_token
      ▹ list_start
      ▹ number rev
      ▹ list_end
      ▹ list_end)
encode_body (EditorCommand.apply_text_delta file_token base_checksum) out = ok (
    out
    ▹ word (text "apply-textdelta")
    ▹ list_start
    ▹ string_str file_token
    ▹ list_start
    ▹ optional string_str base_checksum
    ▹ list_end
    ▹ list_end)
encode_body (EditorCommand.text_delta_chunk file_token chunk) out = ok (
    out
    ▹ word (text "textdelta-chunk")
    ▹ list_start
    ▹ string_str file_token
    ▹ string_bytes chunk
    ▹ list_end)
encode_body (EditorCommand.text_delta_end file_token) out =
    ok (out ▹ word (text "textdelta-end") ▹ list_start ▹ string_str file_token ▹ list_end)
encode_body (EditorCommand.change_file_prop file_token name value) out = ok (
    out
    ▹ word (text "change-file-prop")
    ▹ list_start
    ▹ string_str file_token
    ▹ string_str name
    ▹ list_start
    ▹ optional string_bytes value
    ▹ list_end
    ▹ list_end)
encode_body (EditorCommand.close_file file_token text_checksum) out = ok (
    out
    ▹ word (text "close-file")
    ▹ list_start
    ▹ string_str file_token
    ▹ list_start
    ▹ optional string_str text_checksum
    ▹ list_end
    ▹ list_end)
encode_body (EditorCommand.absent_file path parent_token) out = validate_rel_path path >>= λ path'.
    ok (
      out
      ▹ word (text "absent-file")
      ▹ list_start
      ▹ string_str path'
      ▹ string_str parent_token
      ▹ list_end)
encode_body EditorCommand.close_edit out =
    ok (out ▹ word (text "close-edit") ▹ list_start ▹ list_end)
encode_body EditorCommand.abort_edit out =
    ok (out ▹ word (text "abort-edit") ▹ list_start ▹ list_end)

unfoldable pub encode_editor_command : EditorCommand → Bytes → Result Bytes
unfolding encode_body
encode_editor_command cmd out =
    encode_body cmd (list_start out) >>= λ out'. ok (out' ▹ list_end ▹ newline)
