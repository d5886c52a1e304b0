-- ===== src/Rasvn/Edit/Decode.antt =====
-- `parse_editor_event` (src/rasvn/edit/decode.rs), with `parse_proplist` (src/rasvn/parse.rs).
use svn.Base.{
  ℕ, List, [], ◌∷◌, ◌++◌, Bytes, text, bytes_eq, Option, none, some, if◌then◌else◌, Result, ok, err,
  ◌>>=◌, ok_or, protocol,
}
use svn.Path.{validate_rel_path}
use svn.Types.{PropertyList, insert_prop}
use svn.Editor.{EditorEvent}
use svn.Rasvn.Item.{
  SvnItem, list, items, no_items, item, as_u64, as_string, as_bytes_string, as_list,
}

-- `Err(SvnError::Protocol(message))`
abbrev pub refuse {ℓ} : {A : Type ℓ} → Bytes → Result A
refuse message = err (protocol message)

unfoldable pub push_prop : PropertyList → List SvnItem → Result PropertyList
push_prop props (name ∷ value ∷ _) = do
  n ← ok_or (protocol (text "proplist entry name not a string")) (as_string name)
  v ← ok_or (protocol (text "proplist entry value not a string")) (as_bytes_string value)
  ok (insert_prop n v props)
push_prop props _ = refuse (text "proplist entry too short")

unfoldable pub push_props : PropertyList → List SvnItem → Result PropertyList
unfolding push_prop
push_props props [] = ok props
push_props props (entry ∷ entries) = do
  fields ← ok_or (protocol (text "proplist entry not a list")) (as_list entry)
  props' ← push_prop props fields
  push_props props' entries

unfoldable pub parse_proplist : SvnItem → Result PropertyList
unfolding push_props
parse_proplist x = do
  entries ← ok_or (protocol (text "proplist not a list")) (as_list x)
  push_props [] entries

unfoldable pub req_string : SvnItem → Bytes → Result Bytes
req_string x ctx = ok_or (protocol (ctx ++ text " not a string")) (as_string x)

unfoldable pub req_rel_path : SvnItem → Bytes → Result Bytes
unfolding req_string
req_rel_path x ctx = req_string x ctx >>= validate_rel_path

unfoldable pub req_bytes : SvnItem → Bytes → Result Bytes
req_bytes x ctx = ok_or (protocol (ctx ++ text " not a string")) (as_bytes_string x)

unfoldable pub opt_tuple_u64 : SvnItem → Option ℕ
opt_tuple_u64 (list no_items) = none
opt_tuple_u64 (list (item x _)) = as_u64 x
opt_tuple_u64 x = as_u64 x

unfoldable pub copy_from_items : List SvnItem → Result (Option (Bytes × ℕ))
copy_from_items [] = ok none
copy_from_items (p ∷ r ∷ []) = do
  path ← ok_or (protocol (text "copy-from path not a string")) (as_string p)
  rev ← ok_or (protocol (text "copy-from rev not a number")) (as_u64 r)
  path' ← validate_rel_path path
  ok (some (path', rev))
copy_from_items _ = refuse (text "copy-from tuple must contain path and rev")

unfoldable pub opt_tuple_copyfrom : SvnItem → Result (Option (Bytes × ℕ))
unfolding copy_from_items
opt_tuple_copyfrom x =
    ok_or (protocol (text "copy-from not a tuple")) (as_list x) >>= copy_from_items

-- `match params.get(3)`
unfoldable pub copy_from_of : Option SvnItem → Result (Option (Bytes × ℕ))
unfolding opt_tuple_copyfrom
copy_from_of none = ok none
copy_from_of (some x) = opt_tuple_copyfrom x

-- The last case of the two functions below.
abbrev pub tuple_field : Bytes → Option Bytes → Result (Option Bytes)
tuple_field ctx none = refuse (ctx ++ text " not a string")
tuple_field ctx (some v) = ok (some v)

unfoldable pub optional_tuple_string : Option SvnItem → Bytes → Result (Option Bytes)
optional_tuple_string none ctx = ok none
optional_tuple_string (some (list no_items)) ctx = ok none
optional_tuple_string (some (list (item x no_items))) ctx = tuple_field ctx (as_string x)
optional_tuple_string (some (list (item _ (item _ _)))) ctx = refuse (ctx ++ text " tuple too long")
optional_tuple_string (some x) ctx = tuple_field ctx (as_string x)

unfoldable pub optional_tuple_bytes : Option SvnItem → Bytes → Result (Option Bytes)
optional_tuple_bytes none ctx = ok none
optional_tuple_bytes (some (list no_items)) ctx = ok none
optional_tuple_bytes (some (list (item x no_items))) ctx = tuple_field ctx (as_bytes_string x)
optional_tuple_bytes (some (list (item _ (item _ _)))) ctx = refuse (ctx ++ text " tuple too long")
optional_tuple_bytes (some x) ctx = tuple_field ctx (as_bytes_string x)

abbrev pub first : List SvnItem → Option SvnItem
first [] = none
first (x ∷ _) = some x

-- The cases of the function, each with the parameters that it indexes.
unfoldable pub parse_target_rev : List SvnItem → Result EditorEvent
parse_target_rev params = elim (first params) [
  | none ↦ refuse (text "target-rev missing rev")
  | some x ↦ ok_or (protocol (text "target-rev missing rev")) (as_u64 x) >>= λ rev.
      ok (EditorEvent.target_rev rev)
]

unfoldable pub parse_open_root : List SvnItem → Result EditorEvent
parse_open_root (p₀ ∷ p₁ ∷ _) = do
  token ← req_string p₁ (text "open-root token")
  ok (EditorEvent.open_root (opt_tuple_u64 p₀) token)
parse_open_root _ = refuse (text "open-root params too short")

unfoldable pub parse_delete_entry : List SvnItem → Result EditorEvent
parse_delete_entry (p₀ ∷ p₁ ∷ p₂ ∷ _) = do
  rev ← ok_or (protocol (text "delete-entry missing rev")) (opt_tuple_u64 p₁)
  path ← req_rel_path p₀ (text "delete-entry path")
  dir_token ← req_string p₂ (text "delete-entry dir token")
  ok (EditorEvent.delete_entry path rev dir_token)
parse_delete_entry _ = refuse (text "delete-entry params too short")

unfoldable pub parse_add_dir : List SvnItem → Result EditorEvent
parse_add_dir (p₀ ∷ p₁ ∷ p₂ ∷ rest) = do
  path ← req_rel_path p₀ (text "add-dir path")
  parent_token ← req_string p₁ (text "add-dir parent token")
  child_token ← req_string p₂ (text "add-dir child token")
  copy_from ← copy_from_of (first rest)
  ok (EditorEvent.add_dir path parent_token child_token copy_from)
parse_add_dir _ = refuse (text "add-dir params too short")

unfoldable pub parse_open_dir : List SvnItem → Result EditorEvent
parse_open_dir (p₀ ∷ p₁ ∷ p₂ ∷ p₃ ∷ _) = do
  rev ← ok_or (protocol (text "open-dir missing rev")) (opt_tuple_u64 p₃)
  path ← req_rel_path p₀ (text "open-dir path")
  parent_token ← req_string p₁ (text "open-dir parent token")
  child_token ← req_string p₂ (text "open-dir child token")
  ok (EditorEvent.open_dir path parent_token child_token rev)
parse_open_dir _ = refuse (text "open-dir params too short")

unfoldable pub parse_change_dir_prop : List SvnItem → Result EditorEvent
parse_change_dir_prop (p₀ ∷ p₁ ∷ rest) = do
  dir_token ← req_string p₀ (text "change-dir-prop token")
  name ← req_string p₁ (text "change-dir-prop name")
  value ← optional_tuple_bytes (first rest) (text "change-dir-prop value")
  ok (EditorEvent.change_dir_prop dir_token name value)
parse_change_dir_prop _ = refuse (text "change-dir-prop params too short")

unfoldable pub parse_close_dir : List SvnItem → Result EditorEvent
parse_close_dir params = elim (first params) [
  | none ↦ refuse (text "close-dir missing token")
  | some x ↦ ok_or (protocol (text "close-dir missing token")) (as_string x) >>= λ token.
      ok (EditorEvent.close_dir token)
]

unfoldable pub parse_absent_dir : List SvnItem → Result EditorEvent
parse_absent_dir (p₀ ∷ p₁ ∷ _) = do
  path ← req_rel_path p₀ (text "absent-dir path")
  parent_token ← req_string p₁ (text "absent-dir parent token")
  ok (EditorEvent.absent_dir path parent_token)
parse_absent_dir _ = refuse (text "absent-dir params too short")

unfoldable pub parse_add_file : List SvnItem → Result EditorEvent
parse_add_file (p₀ ∷ p₁ ∷ p₂ ∷ rest) = do
  path ← req_rel_path p₀ (text "add-file path")
  dir_token ← req_string p₁ (text "add-file dir token")
  file_token ← req_string p₂ (text "add-file file token")
  copy_from ← copy_from_of (first rest)
  ok (EditorEvent.add_file path dir_token file_token copy_from)
parse_add_file _ = refuse (text "add-file params too short")

unfoldable pub parse_open_file : List SvnItem → Result EditorEvent
parse_open_file (p₀ ∷ p₁ ∷ p₂ ∷ p₃ ∷ _) = do
  rev ← ok_or (protocol (text "open-file missing rev")) (opt_tuple_u64 p₃)
  path ← req_rel_path p₀ (text "open-file path")
  dir_token ← req_string p₁ (text "open-file dir token")
  file_token ← req_string p₂ (text "open-file file token")
  ok (EditorEvent.open_file path dir_token file_token rev)
parse_open_file _ = refuse (text "open-file params too short")

unfoldable pub parse_apply_text_delta : List SvnItem → Result EditorEvent
parse_apply_text_delta (p₀ ∷ rest) = do
  file_token ← req_string p₀ (text "apply-textdelta token")
  base_checksum ← optional_tuple_string (first rest) (text "apply-textdelta base checksum")
  ok (EditorEvent.apply_text_delta file_token base_checksum)
parse_apply_text_delta [] = refuse (text "apply-textdelta params too short")

unfoldable pub parse_text_delta_chunk : List SvnItem → Result EditorEvent
parse_text_delta_chunk (p₀ ∷ p₁ ∷ _) = do
  file_token ← req_string p₀ (text "textdelta-chunk token")
  chunk ← req_bytes p₁ (text "textdelta-chunk chunk")
  ok (EditorEvent.text_delta_chunk file_token chunk)
parse_text_delta_chunk _ = refuse (text "textdelta-chunk params too short")

unfoldable pub parse_text_delta_end : List SvnItem → Result EditorEvent
parse_text_delta_end params = elim (first params) [
  | none ↦ refuse (text "textdelta-end missing token")
  | some x ↦ ok_or (protocol (text "textdelta-end missing token")) (as_string x) >>= λ token.
      ok (EditorEvent.text_delta_end token)
]

unfoldable pub parse_change_file_prop : List SvnItem → Result EditorEvent
parse_change_file_prop (p₀ ∷ p₁ ∷ rest) = do
  file_token ← req_string p₀ (text "change-file-prop token")
  name ← req_string p₁ (text "change-file-prop name")
  value ← optional_tuple_bytes (first rest) (text "change-file-prop value")
  ok (EditorEvent.change_file_prop file_token name value)
parse_change_file_prop _ = refuse (text "change-file-prop params too short")

unfoldable pub parse_close_file : List SvnItem → Result EditorEvent
parse_close_file (p₀ ∷ rest) = do
  file_token ← req_string p₀ (text "close-file token")
  text_checksum ← optional_tuple_string (first rest) (text "close-file checksum")
  ok (EditorEvent.close_file file_token text_checksum)
parse_close_file [] = refuse (text "close-file params too short")

unfoldable pub parse_absent_file : List SvnItem → Result EditorEvent
parse_absent_file (p₀ ∷ p₁ ∷ _) = do
  path ← req_rel_path p₀ (text "absent-file path")
  parent_token ← req_string p₁ (text "absent-file parent token")
  ok (EditorEvent.absent_file path parent_token)
parse_absent_file _ = refuse (text "absent-file params too short")

unfoldable pub parse_rev_props : List SvnItem → Result EditorEvent
unfolding parse_proplist
parse_rev_props params =
    parse_proplist (list (items params)) >>= λ props. ok (EditorEvent.rev_props props)

unfoldable pub parse_editor_event : Bytes → List SvnItem → Result EditorEvent
parse_editor_event cmd params =
    if bytes_eq cmd (text "target-rev")
    then parse_target_rev params
    else if bytes_eq cmd (text "open-root")
    then parse_open_root params
    else if bytes_eq cmd (text "delete-entry")
    then parse_delete_entry params
    else if bytes_eq cmd (text "add-dir")
    then parse_add_dir params
    else if bytes_eq cmd (text "open-dir")
    then parse_open_dir params
    else if bytes_eq cmd (text "change-dir-prop")
    then parse_change_dir_prop params
    else if bytes_eq cmd (text "close-dir")
    then parse_close_dir params
    else if bytes_eq cmd (text "absent-dir")
    then parse_absent_dir params
    else if bytes_eq cmd (text "add-file")
    then parse_add_file params
    else if bytes_eq cmd (text "open-file")
    then parse_open_file params
    else if bytes_eq cmd (text "apply-textdelta")
    then parse_apply_text_delta params
    else if bytes_eq cmd (text "textdelta-chunk")
    then parse_text_delta_chunk params
    else if bytes_eq cmd (text "textdelta-end")
    then parse_text_delta_end params
    else if bytes_eq cmd (text "change-file-prop")
    then parse_change_file_prop params
    else if bytes_eq cmd (text "close-file")
    then parse_close_file params
    else if bytes_eq cmd (text "absent-file")
    then parse_absent_file params
    else if bytes_eq cmd (text "revprops")
    then parse_rev_props params
    else refuse (text "unknown editor command: " ++ cmd)
