-- ===== src/Tests/Parsers.antt =====
-- Responses that are parsed.
use svn.Base.{
  ◌≡◌, refl, List, [], ◌∷◌, Bytes, text, bytes_eq, true, false, none, some, ok, ◌⊎◌, map,
}
use svn.Base.Utf8.{is_utf8, from_utf8}
use svn.Types.{PropertyList, MergeInfoCatalog, insert_prop, bytes_lt}
use svn.Types.Node.{NodeKind, from_word}
use svn.Types.Answers.{DirEntry, StatEntry}
use svn.Rasvn.Item.{
  SvnItem, word, number, string, list, bool, items, no_items, as_list, as_string, as_bytes_string,
  as_u64, as_bool, as_word,
}
use svn.Rasvn.Edit.Decode.{parse_proplist, push_props, push_prop, opt_tuple_u64}
use svn.Rasvn.Parse.Scalar.{
  trim_slashes, parse_optional_scalar, parse_optional_string, parse_optional_u64,
  parse_optional_bool, parse_optional_wordish, opt_tuple_wordish,
}
use svn.Rasvn.Parse.Entry.{parse_mergeinfo_catalog}
use svn.Rasvn.Parse.Known.{
  HaveUtf8Names, HaveUtf8Values, pair_item, trim_name, IsMapOf, parse_proplist-IsMapOf,
}
use svn.Rasvn.Parse.Dir.{
  base_name, parse_list_dirent, parse_stat_params, parse_stat_entry, parse_stat_entry_at,
  stat_fields, any_stat,
}
use svn.Rasvn.Parse.Dirent.{IsRelative, HasNoSlash, IsNameOf, parse_list_dirent-IsRelative}
use svn.Rasvn.Parse.Stat.{parse_stat_params-IsNode}
use svn.Rasvn.Parse.Log.{parse_log_entry}
use svn.Rasvn.Parse.Defaults.{parse_log_entry-defaults}

abbrev props : List (Bytes × Bytes)
props = (text "b", text "1") ∷ (text "a", text "2") ∷ (text "b", text "3") ∷ []

abbrev merges : List (Bytes × Bytes)
merges = (text "/trunk", text "m") ∷ []

props_parsed :
    parse_proplist (list (items (map pair_item props)))
    ≡ ok ((text "a", text "2") ∷ (text "b", text "3") ∷ [])
unfolding parse_proplist push_props push_prop as_list as_string as_bytes_string from_utf8 is_utf8
    insert_prop bytes_lt text bytes_eq
props_parsed = refl

props_utf8 : HaveUtf8Names props
unfolding from_utf8 is_utf8 text
props_utf8 = (refl, (refl, (refl, tt)))

merges_utf8 : HaveUtf8Names merges × HaveUtf8Values merges
unfolding from_utf8 is_utf8 text
merges_utf8 = ((refl, tt), (refl, tt))

parse_proplist-IsMapOf_example :
    ((parsed : PropertyList) × (parse_proplist (list (items (map pair_item props))) ≡ ok parsed)
      × IsMapOf props parsed)
    × ((catalog : MergeInfoCatalog) × (parse_mergeinfo_catalog
            (list (items (map pair_item merges)) ∷ [])
          ≡ ok catalog)
        × IsMapOf (map trim_name merges) catalog)
parse_proplist-IsMapOf_example =
    parse_proplist-IsMapOf props merges [] props_utf8 merges_utf8.0 merges_utf8.1

abbrev entry : DirEntry
entry = record {
  name = text "a";
  path = text "d/a";
  kind = NodeKind.file;
  size = some 7;
  has_props = none;
  created_rev = none;
  created_date = none;
  last_author = none;
}

abbrev dirent : List SvnItem
dirent = string (text "//d/a") ∷ word (text "file") ∷ list (items (number 7 ∷ [])) ∷ []

dirent_parsed : parse_list_dirent dirent ≡ ok entry
unfolding parse_list_dirent as_string from_utf8 is_utf8 text trim_slashes base_name from_word
    parse_optional_u64 parse_optional_bool parse_optional_string parse_optional_wordish
    parse_optional_scalar opt_tuple_wordish as_word as_u64 bytes_eq
dirent_parsed = refl

parse_list_dirent-IsRelative_example :
    IsRelative (text "d/a") × HasNoSlash (text "a") × IsNameOf (text "d/a") (text "a")
parse_list_dirent-IsRelative_example = parse_list_dirent-IsRelative dirent entry dirent_parsed

abbrev stat_entry : StatEntry
stat_entry = record {
  kind = NodeKind.dir;
  size = some 0;
  has_props = some true;
  created_rev = none;
  created_date = none;
  last_author = none;
}

-- Behind a revision and in a list.
abbrev stat_params : List SvnItem
stat_params = number 4 ∷ list (items (word (text "dir") ∷ number 0 ∷ bool true ∷ [])) ∷ []

stat_parsed : parse_stat_params stat_params ≡ ok (some stat_entry)
unfolding parse_stat_params parse_stat_entry parse_stat_entry_at stat_fields any_stat opt_tuple_u64
    as_list as_u64 as_bool opt_tuple_wordish as_word from_word text parse_optional_u64
    parse_optional_bool parse_optional_string parse_optional_scalar bytes_eq
stat_parsed = refl

parse_stat_params-IsNode_example : (NodeKind.dir ≡ NodeKind.file) ⊎ (NodeKind.dir ≡ NodeKind.dir)
parse_stat_params-IsNode_example = parse_stat_params-IsNode stat_params stat_entry stat_parsed

abbrev change : SvnItem
change = list (items (string (text "/a") ∷ word (text "A") ∷ []))

parse_log_entry-defaults_example :
    parse_log_entry
      (list (items (change ∷ [])) ∷ number 2 ∷ list no_items ∷ list no_items ∷ list no_items ∷ [])
      false
    ≡ parse_log_entry
        (list (items (change ∷ []))
          ∷ number 2
          ∷ list no_items
          ∷ list no_items
          ∷ list no_items
          ∷ bool false
          ∷ bool false
          ∷ number 0
          ∷ list no_items
          ∷ bool false
          ∷ [])
        false
parse_log_entry-defaults_example =
    parse_log_entry-defaults (list (items (change ∷ []))) (number 2) (list no_items) (list no_items)
      (list no_items)
