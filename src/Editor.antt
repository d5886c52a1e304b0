-- ===== src/Editor.antt =====
-- Reports, editor events and editor commands (src/editor.rs). A path, token, name, checksum or
-- URL is a `String`: the list of its bytes.
use svn.Base.{ℕ, List, [], ◌∷◌, ◌++◌, Bytes, Option, Bool}
use svn.Types.{PropertyList, Depth}

pub data ReportCommand : Type 0 where
  set_path :
      (path : Bytes) (rev : ℕ) (start_empty : Bool) (lock_token : Option Bytes) (depth : Depth)
      → ReportCommand
  delete_path : (path : Bytes) → ReportCommand
  link_path :
      (path url : Bytes) (rev : ℕ) (start_empty : Bool) (lock_token : Option Bytes) (depth : Depth)
      → ReportCommand
  finish_report abort_report : ReportCommand

pub record Report : Type 0 where
  pub commands : List ReportCommand

unfoldable pub new : Report
new = record { commands = [] }

unfoldable pub push : Report → ReportCommand → Report
push r cmd = record { commands = r.commands ++ (cmd ∷ []) }

unfoldable pub finish : Report → Report
finish r = record { commands = r.commands ++ (finish_report ∷ []) }

pub data EditorEvent : Type 0 where
  target_rev : (rev : ℕ) → EditorEvent
  open_root : (rev : Option ℕ) (token : Bytes) → EditorEvent
  delete_entry : (path : Bytes) (rev : ℕ) (dir_token : Bytes) → EditorEvent
  add_dir : (path parent_token child_token : Bytes) (copy_from : Option (Bytes × ℕ)) → EditorEvent
  open_dir : (path parent_token child_token : Bytes) (rev : ℕ) → EditorEvent
  change_dir_prop : (dir_token name : Bytes) (value : Option Bytes) → EditorEvent
  close_dir : (dir_token : Bytes) → EditorEvent
  absent_dir : (path parent_token : Bytes) → EditorEvent
  add_file : (path dir_token file_token : Bytes) (copy_from : Option (Bytes × ℕ)) → EditorEvent
  open_file : (path dir_token file_token : Bytes) (rev : ℕ) → EditorEvent
  apply_text_delta : (file_token : Bytes) (base_checksum : Option Bytes) → EditorEvent
  text_delta_chunk : (file_token chunk : Bytes) → EditorEvent
  text_delta_end : (file_token : Bytes) → EditorEvent
  change_file_prop : (file_token name : Bytes) (value : Option Bytes) → EditorEvent
  close_file : (file_token : Bytes) (text_checksum : Option Bytes) → EditorEvent
  absent_file : (path parent_token : Bytes) → EditorEvent
  close_edit abort_edit finish_replay : EditorEvent
  rev_props : (props : PropertyList) → EditorEvent

pub data EditorCommand : Type 0 where
  open_root : (rev : Option ℕ) (token : Bytes) → EditorCommand
  delete_entry : (path : Bytes) (rev : ℕ) (dir_token : Bytes) → EditorCommand
  add_dir : (path parent_token child_token : Bytes) (copy_from : Option (Bytes × ℕ)) → EditorCommand
  open_dir : (path parent_token child_token : Bytes) (rev : ℕ) → EditorCommand
  change_dir_prop : (dir_token name : Bytes) (value : Option Bytes) → EditorCommand
  close_dir : (dir_token : Bytes) → EditorCommand
  absent_dir : (path parent_token : Bytes) → EditorCommand
  add_file : (path dir_token file_token : Bytes) (copy_from : Option (Bytes × ℕ)) → EditorCommand
  open_file : (path dir_token file_token : Bytes) (rev : ℕ) → EditorCommand
  apply_text_delta : (file_token : Bytes) (base_checksum : Option Bytes) → EditorCommand
  text_delta_chunk : (file_token chunk : Bytes) → EditorCommand
  text_delta_end : (file_token : Bytes) → EditorCommand
  change_file_prop : (file_token name : Bytes) (value : Option Bytes) → EditorCommand
  close_file : (file_token : Bytes) (text_checksum : Option Bytes) → EditorCommand
  absent_file : (path parent_token : Bytes) → EditorCommand
  close_edit abort_edit : EditorCommand
