-- ===== src/Rasvn/Parse/Log.antt =====
-- Log entries (src/rasvn/parse.rs).
use svn.Base.{
  ℕ, ◌+◌, List, [], ◌∷◌, Bytes, text, Bool, true, false, not, ◌&&◌, Option, none, some, get_elem?,
  Result, ok, ok_or, protocol, ◌>>=◌, ◌>>◌, refuse_if,
}
use svn.Types.{PropertyList}
use svn.Types.Node.{NodeKind, from_word}
use svn.Types.Answers.{ChangedPath, LogEntry}
use svn.Rasvn.Item.{SvnItem, as_string, as_u64, as_bool, as_word, as_list}
use svn.Rasvn.Edit.Decode.{refuse, parse_proplist, opt_tuple_u64}
use svn.Rasvn.Parse.Scalar.{
  trim_slashes, and_then, parse_optional_string, parse_optional_bool, opt_tuple_bool, collect,
  unwrap_or,
}

unfoldable pub copyfrom_fields : List SvnItem → Result (Option Bytes × Option ℕ)
copyfrom_fields [] = ok (none, none)
copyfrom_fields (p ∷ r ∷ []) = do
  path ← ok_or (protocol (text "log copy-from path not a string")) (as_string p)
  rev ← ok_or (protocol (text "log copy-from rev not a number")) (as_u64 r)
  ok (some (trim_slashes path), some rev)
copyfrom_fields _ = refuse (text "log copy-from tuple must contain path and rev")

unfoldable pub parse_log_copyfrom : Option SvnItem → Result (Option Bytes × Option ℕ)
unfolding copyfrom_fields
parse_log_copyfrom none = ok (none, none)
parse_log_copyfrom (some x) =
    ok_or (protocol (text "log copy-from not a tuple")) (as_list x) >>= copyfrom_fields

pub record LogNodeFlags : Type 0 where
  pub kind : Option NodeKind
  pub text_mods : Option Bool
  pub prop_mods : Option Bool

unfoldable pub no_flags : LogNodeFlags
no_flags = record { kind = none; text_mods = none; prop_mods = none }

abbrev pub string_or_word : Option Bytes → Option Bytes → Option Bytes
string_or_word none w = w
string_or_word (some s) w = some s

-- `match items.get(i) { Some(item) => Some(item.as_bool()?), None => None }`
abbrev pub flag : Bytes → Option SvnItem → Result (Option Bool)
flag message none = ok none
flag message (some x) = ok_or (protocol message) (as_bool x) >>= λ b. ok (some b)

unfoldable pub flag_fields : List SvnItem → Result LogNodeFlags
unfolding no_flags
flag_fields [] = ok no_flags
flag_fields (k ∷ rest) = do
  w ← ok_or (protocol (text "log node kind not a word")) (string_or_word (as_string k) (as_word k))
  text_mods ← flag (text "log text-mods not a bool") (get_elem? rest 0)
  prop_mods ← flag (text "log prop-mods not a bool") (get_elem? rest 1)
  ok (record { kind = some (from_word w); text_mods = text_mods; prop_mods = prop_mods })

unfoldable pub parse_log_node_flags : Option SvnItem → Result LogNodeFlags
unfolding flag_fields no_flags
parse_log_node_flags none = ok no_flags
parse_log_node_flags (some x) =
    ok_or (protocol (text "log node flags not a tuple")) (as_list x) >>= flag_fields

unfoldable pub change_fields : List SvnItem → Result ChangedPath
change_fields (p ∷ a ∷ rest) = do
  path ← ok_or (protocol (text "log changed-path path not a string")) (as_string p)
  action ← ok_or (protocol (text "log changed-path action not a word")) (as_word a)
  copy_from ← parse_log_copyfrom (get_elem? rest 0)
  flags ← parse_log_node_flags (get_elem? rest 1)
  ok (record {
    action = action;
    path = trim_slashes path;
    copy_from_path = copy_from.0;
    copy_from_rev = copy_from.1;
    node_kind = flags.kind;
    text_mods = flags.text_mods;
    prop_mods = flags.prop_mods;
  })
change_fields _ = refuse (text "log changed-path too short")

unfoldable pub parse_change : SvnItem → Result ChangedPath
unfolding change_fields
parse_change x = ok_or (protocol (text "log changed-path not a list")) (as_list x) >>= change_fields

-- The optional blocks, which may or may not be there: what they say, and the index behind them.
abbrev pub merge_flags_of : ℕ → Option Bool → Option Bool → Bool × Bool × ℕ
merge_flags_of idx (some hc) (some invalid) = (hc, invalid, idx + 2)
merge_flags_of idx _ _ = (false, false, idx)

unfoldable pub merge_flags : List SvnItem → ℕ → Bool × Bool × ℕ
merge_flags fields idx =
    merge_flags_of idx (and_then (get_elem? fields idx) opt_tuple_bool)
      (and_then (get_elem? fields (idx + 1)) opt_tuple_bool)

abbrev pub revprops_of : ℕ → Option ℕ → Option SvnItem → Result (PropertyList × Bool × ℕ)
revprops_of idx (some _) (some props_item) =
    parse_proplist props_item >>= λ rev_props. ok (rev_props, true, idx + 2)
revprops_of idx _ _ = ok ([], false, idx)

unfoldable pub revprops_block : List SvnItem → ℕ → Result (PropertyList × Bool × ℕ)
revprops_block fields idx =
    revprops_of idx (and_then (get_elem? fields idx) opt_tuple_u64) (get_elem? fields (idx + 1))

-- Behind the author, the date and the message; `rest` starts at the third item.
unfoldable pub log_rest : Bool → List SvnItem → List SvnItem → ℕ → Bool × Bool × ℕ → Result LogEntry
log_rest expect_custom_revprops rest changes rev (has_children, invalid_revnum, idx) = do
  author ← parse_optional_string (get_elem? rest 0) (text "log author")
  date ← parse_optional_string (get_elem? rest 1) (text "log date")
  message ← parse_optional_string (get_elem? rest 2) (text "log message")
  block ← revprops_block rest idx
  refuse_if (expect_custom_revprops && not block.1)
      (protocol (text "server does not support custom revprops via log"))
  subtractive_merge ← parse_optional_bool (get_elem? rest block.2) (text "log subtractive-merge")
  changed_paths ← collect parse_change changes
  ok (record {
    rev = rev;
    changed_paths = changed_paths;
    author = author;
    date = date;
    message = message;
    rev_props = block.0;
    has_children = has_children;
    invalid_revnum = invalid_revnum;
    subtractive_merge = unwrap_or false subtractive_merge;
  })

unfoldable pub parse_log_entry : List SvnItem → Bool → Result LogEntry
unfolding log_rest merge_flags
parse_log_entry (c ∷ r ∷ rest) expect_custom_revprops = do
  changes ← ok_or (protocol (text "log entry changes not a list")) (as_list c)
  rev ← ok_or (protocol (text "log entry rev not a number")) (as_u64 r)
  log_rest expect_custom_revprops rest changes rev (merge_flags rest 3)
parse_log_entry _ expect_custom_revprops = refuse (text "log entry too short")
