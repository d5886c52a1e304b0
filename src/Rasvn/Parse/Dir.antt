-- ===== src/Rasvn/Parse/Dir.antt =====
-- Directory entries and `stat` responses (src/rasvn/parse.rs).
use svn.Base.{
  ℕ, ◌+◌, List, [], ◌∷◌, ◌++◌, Bytes, text, ◌==◌, if◌then◌else◌, Option, none, some, get_elem?,
  Result, ok, err, ok_or, protocol, ◌>>=◌,
}
use svn.Types.Node.{NodeKind, from_word}
use svn.Types.Answers.{DirEntry, DirListing, StatEntry}
use svn.Rasvn.Item.{SvnItem, as_string, as_u64, as_list}
use svn.Rasvn.Edit.Decode.{refuse, opt_tuple_u64}
use svn.Rasvn.Parse.Scalar.{
  trim_slashes, trim_end_slashes, and_then, parse_optional_string, parse_optional_u64,
  parse_optional_bool, parse_optional_wordish, opt_tuple_wordish, collect,
}

-- `if dir_prefix.is_empty() { name } else { format!("{dir_prefix}/{name}") }`
abbrev pub full_path : Bytes → Bytes → Bytes
full_path [] name = name
full_path (b ∷ bs) name = (b ∷ bs) ++ (47 ∷ name)

unfoldable pub listing_fields : Bytes → List SvnItem → Result DirEntry
listing_fields dir_prefix (n ∷ k ∷ rest) = do
  name ← ok_or (protocol (text "get-dir entry name not a string")) (as_string n)
  kind_field ← parse_optional_wordish (some k) (text "get-dir entry kind")
  kind_word ← ok_or (protocol (text "get-dir entry kind not a word")) kind_field
  size ← parse_optional_u64 (get_elem? rest 0) (text "get-dir entry size")
  has_props ← parse_optional_bool (get_elem? rest 1) (text "get-dir entry has-props")
  created_rev ← parse_optional_u64 (get_elem? rest 2) (text "get-dir entry created-rev")
  created_date ← parse_optional_string (get_elem? rest 3) (text "get-dir entry created-date")
  last_author ← parse_optional_string (get_elem? rest 4) (text "get-dir entry last-author")
  ok (record {
    name = name;
    path = full_path dir_prefix name;
    kind = from_word kind_word;
    size = size;
    has_props = has_props;
    created_rev = created_rev;
    created_date = created_date;
    last_author = last_author;
  })
listing_fields dir_prefix _ = refuse (text "get-dir entry too short")

unfoldable pub listing_entry : Bytes → SvnItem → Result DirEntry
unfolding listing_fields
listing_entry dir_prefix x =
    ok_or (protocol (text "get-dir entry not a list")) (as_list x) >>= listing_fields dir_prefix

unfoldable pub parse_get_dir_listing : Bytes → List SvnItem → Result DirListing
unfolding listing_entry
parse_get_dir_listing dir_path (r ∷ _ ∷ es ∷ _) = do
  listing_rev ← ok_or (protocol (text "get-dir rev not a number")) (as_u64 r)
  entries_list ← ok_or (protocol (text "get-dir entries not a list")) (as_list es)
  entries ← collect (listing_entry (trim_end_slashes dir_path)) entries_list
  ok (record { rev = listing_rev; entries = entries })
parse_get_dir_listing dir_path _ = refuse (text "get-dir response too short")

-- `rsplit_once('/')`, and the part behind the slash, or the whole where there is none: `seg` is
-- what was read since the last slash.
unfoldable pub base_name : Bytes → Bytes → Bytes
base_name seg [] = seg
base_name seg (b ∷ bs) =
    let after_slash = base_name [] bs in
    let same_segment = base_name (seg ++ (b ∷ [])) bs in
    if b == 47 then after_slash else same_segment

unfoldable pub parse_list_dirent : List SvnItem → Result DirEntry
unfolding base_name trim_slashes
parse_list_dirent (p ∷ k ∷ rest) = do
  rel_path ← ok_or (protocol (text "list dirent path missing")) (as_string p)
  kind_field ← parse_optional_wordish (some k) (text "list dirent kind")
  kind_word ← ok_or (protocol (text "list dirent kind not a word")) kind_field
  size ← parse_optional_u64 (get_elem? rest 0) (text "list dirent size")
  has_props ← parse_optional_bool (get_elem? rest 1) (text "list dirent has-props")
  created_rev ← parse_optional_u64 (get_elem? rest 2) (text "list dirent created-rev")
  created_date ← parse_optional_string (get_elem? rest 3) (text "list dirent created-date")
  last_author ← parse_optional_string (get_elem? rest 4) (text "list dirent last-author")
  ok (record {
    name = base_name [] (trim_slashes rel_path);
    path = trim_slashes rel_path;
    kind = from_word kind_word;
    size = size;
    has_props = has_props;
    created_rev = created_rev;
    created_date = created_date;
    last_author = last_author;
  })
parse_list_dirent _ = refuse (text "list dirent too short")

-- `if let Some(entry) = parse(…)? { return Ok(Some(entry)); }`, and else what comes behind it.
abbrev pub or_else {ℓ} : {A : Type ℓ} → Result (Option A) → Result (Option A) → Result (Option A)
or_else (err e) later = err e
or_else (ok (some entry)) later = ok (some entry)
or_else (ok none) later = later

unfoldable pub stat_fields : NodeKind → List SvnItem → ℕ → Result (Option StatEntry)
stat_fields NodeKind.unknown fields offset = ok none
stat_fields NodeKind.none fields offset = ok none
stat_fields kind fields offset = do
  size ← parse_optional_u64 (get_elem? fields (offset + 1)) (text "stat size")
  has_props ← parse_optional_bool (get_elem? fields (offset + 2)) (text "stat has-props")
  created_rev ← parse_optional_u64 (get_elem? fields (offset + 3)) (text "stat created-rev")
  created_date ← parse_optional_string (get_elem? fields (offset + 4)) (text "stat created-date")
  last_author ← parse_optional_string (get_elem? fields (offset + 5)) (text "stat last-author")
  ok (
      some (record {
        kind = kind;
        size = size;
        has_props = has_props;
        created_rev = created_rev;
        created_date = created_date;
        last_author = last_author;
      }))

abbrev pub stat_at : Option Bytes → List SvnItem → ℕ → Result (Option StatEntry)
stat_at none fields offset = ok none
stat_at (some kind_word) fields offset = stat_fields (from_word kind_word) fields offset

unfoldable pub parse_stat_entry_at : List SvnItem → ℕ → Result (Option StatEntry)
parse_stat_entry_at fields offset =
    stat_at (and_then (get_elem? fields offset) opt_tuple_wordish) fields offset

-- Behind a revision, or at the first item.
abbrev pub behind_revision : Option ℕ → List SvnItem → Result (Option StatEntry)
behind_revision none fields = ok none
behind_revision (some _) fields = parse_stat_entry_at fields 1

unfoldable pub parse_stat_entry : List SvnItem → Result (Option StatEntry)
unfolding parse_stat_entry_at
parse_stat_entry (x ∷ y ∷ rest) =
    or_else (behind_revision (opt_tuple_u64 x) (x ∷ y ∷ rest))
      (or_else (parse_stat_entry_at (x ∷ y ∷ rest) 0) (ok none))
parse_stat_entry fields = or_else (parse_stat_entry_at fields 0) (ok none)

abbrev pub stat_list : Option (List SvnItem) → Result (Option StatEntry)
stat_list none = ok none
stat_list (some fields) = parse_stat_entry fields

unfoldable pub any_stat : List SvnItem → Result (Option StatEntry)
any_stat [] = ok none
any_stat (x ∷ xs) = or_else (stat_list (as_list x)) (any_stat xs)

-- `opt_tuple_u64(&params[0]).is_some() && let Some(items) = params[1].as_list() && …`
abbrev pub stat_after : Option ℕ → SvnItem → Result (Option StatEntry)
stat_after none y = ok none
stat_after (some _) y = stat_list (as_list y)

unfoldable pub parse_stat_params : List SvnItem → Result (Option StatEntry)
unfolding parse_stat_entry any_stat
parse_stat_params [] = ok none
parse_stat_params (x ∷ []) =
    or_else (stat_list (as_list x)) (or_else (parse_stat_entry (x ∷ [])) (any_stat (x ∷ [])))
parse_stat_params (x ∷ y ∷ rest) =
    or_else (stat_after (opt_tuple_u64 x) y)
      (or_else (parse_stat_entry (x ∷ y ∷ rest)) (any_stat (x ∷ y ∷ rest)))
