-- ===== src/Rasvn/Parse/Entry.antt =====
-- Property lists and deltas, locks, merge info, locations, revisions of files and commits
-- (src/rasvn/parse.rs). A slice pattern stands for the length check and the indexing behind it.
use svn.Base.{
  ℕ, List, [], ◌∷◌, Bytes, text, false, Option, none, some, get_elem?, Result, ok, ok_or, protocol,
  ◌>>=◌,
}
use mathlib.Core.Option as Option
use svn.Types.{PropertyList, MergeInfoCatalog, insert_prop}
use svn.Types.Answers.{
  InheritedProps, RepositoryInfo, CommitInfo, LocationEntry, LocationSegment, PropDelta, FileRev,
  LockDesc,
}
use svn.Rasvn.Item.{SvnItem, no_items, item, list, as_string, as_u64, as_list}
use svn.Rasvn.Edit.Decode.{refuse, parse_proplist, optional_tuple_bytes}
use svn.Rasvn.Parse.Scalar.{
  trim_slashes, parse_optional_string, parse_optional_bool, parse_word_list, collect, unwrap_or,
}

unfoldable pub inherited_entry : List SvnItem → Result InheritedProps
inherited_entry (p ∷ ps ∷ _) = do
  path ← ok_or (protocol (text "iproplist path not a string")) (as_string p)
  props ← parse_proplist ps
  ok (record { path = path; props = props })
inherited_entry _ = refuse (text "iproplist entry too short")

unfoldable pub parse_iproplist : SvnItem → Result (List InheritedProps)
unfolding inherited_entry
parse_iproplist x = do
  entries ← ok_or (protocol (text "iproplist not a list")) (as_list x)
  collect
      (λ entry.
        ok_or (protocol (text "iproplist entry not a list")) (as_list entry) >>= inherited_entry)
      entries

unfoldable pub delta_entry : List SvnItem → Result PropDelta
delta_entry [] = refuse (text "propdelta entry too short")
delta_entry (n ∷ rest) = do
  name ← ok_or (protocol (text "propdelta name not a string")) (as_string n)
  value ← optional_tuple_bytes (get_elem? rest 0) (text "propdelta value")
  ok (record { name = name; value = value })

unfoldable pub parse_propdelta : SvnItem → Result (List PropDelta)
unfolding delta_entry
parse_propdelta x = do
  entries ← ok_or (protocol (text "propdelta not a list")) (as_list x)
  collect
      (λ entry.
        ok_or (protocol (text "propdelta entry not a list")) (as_list entry) >>= delta_entry)
      entries

unfoldable pub lock_fields : List SvnItem → Result LockDesc
lock_fields (p ∷ t ∷ o ∷ c ∷ d ∷ rest) = do
  path ← ok_or (protocol (text "lockdesc path not a string")) (as_string p)
  token ← ok_or (protocol (text "lockdesc token not a string")) (as_string t)
  owner ← ok_or (protocol (text "lockdesc owner not a string")) (as_string o)
  comment ← parse_optional_string (some c) (text "lockdesc comment")
  created ← ok_or (protocol (text "lockdesc created not a string")) (as_string d)
  expires ← parse_optional_string (get_elem? rest 0) (text "lockdesc expires")
  ok (record {
    path = trim_slashes path;
    token = token;
    owner = owner;
    comment = comment;
    created = created;
    expires = expires;
  })
lock_fields _ = refuse (text "lockdesc too short")

unfoldable pub parse_lockdesc : SvnItem → Result LockDesc
unfolding lock_fields
parse_lockdesc x = ok_or (protocol (text "lockdesc not a list")) (as_list x) >>= lock_fields

unfoldable pub push_mergeinfo : MergeInfoCatalog → List SvnItem → Result MergeInfoCatalog
push_mergeinfo out (p ∷ m ∷ _) = do
  path ← ok_or (protocol (text "mergeinfo path not a string")) (as_string p)
  mergeinfo ← ok_or (protocol (text "mergeinfo value not a string")) (as_string m)
  ok (insert_prop (trim_slashes path) mergeinfo out)
push_mergeinfo out _ = refuse (text "mergeinfo entry too short")

unfoldable pub push_mergeinfos : MergeInfoCatalog → List SvnItem → Result MergeInfoCatalog
unfolding push_mergeinfo
push_mergeinfos out [] = ok out
push_mergeinfos out (entry ∷ entries) = do
  fields ← ok_or (protocol (text "mergeinfo entry not a list")) (as_list entry)
  out' ← push_mergeinfo out fields
  push_mergeinfos out' entries

-- `params.first().and_then(|i| i.as_list())`
unfoldable pub parse_mergeinfo_catalog : List SvnItem → Result MergeInfoCatalog
unfolding push_mergeinfos
parse_mergeinfo_catalog [] = refuse (text "mergeinfo response not a list")
parse_mergeinfo_catalog (x ∷ _) = do
  entries ← ok_or (protocol (text "mergeinfo response not a list")) (as_list x)
  push_mergeinfos [] entries

unfoldable pub location_fields : List SvnItem → Result LocationEntry
location_fields (r ∷ p ∷ _) = do
  rev ← ok_or (protocol (text "location entry rev not a number")) (as_u64 r)
  path ← ok_or (protocol (text "location entry path not a string")) (as_string p)
  ok (record { rev = rev; path = trim_slashes path })
location_fields _ = refuse (text "location entry too short")

unfoldable pub parse_location_entry : SvnItem → Result LocationEntry
unfolding location_fields
parse_location_entry x =
    ok_or (protocol (text "location entry not a list")) (as_list x) >>= location_fields

unfoldable pub segment_fields : List SvnItem → Result LocationSegment
segment_fields (s ∷ e ∷ rest) = do
  range_start ← ok_or (protocol (text "location segment start not a number")) (as_u64 s)
  range_end ← ok_or (protocol (text "location segment end not a number")) (as_u64 e)
  path ← parse_optional_string (get_elem? rest 0) (text "location segment path")
  ok (record {
    range_start = range_start;
    range_end = range_end;
    path = Option.map trim_slashes path;
  })
segment_fields _ = refuse (text "location segment too short")

unfoldable pub parse_location_segment : SvnItem → Result LocationSegment
unfolding segment_fields
parse_location_segment x =
    ok_or (protocol (text "location segment not a list")) (as_list x) >>= segment_fields

unfoldable pub file_rev_fields : List SvnItem → Result FileRev
file_rev_fields (p ∷ r ∷ ps ∷ ds ∷ rest) = do
  path ← ok_or (protocol (text "file-rev path not a string")) (as_string p)
  rev ← ok_or (protocol (text "file-rev rev not a number")) (as_u64 r)
  rev_props ← parse_proplist ps
  prop_deltas ← parse_propdelta ds
  merged ← parse_optional_bool (get_elem? rest 0) (text "file-rev merged-revision")
  ok (record {
    path = trim_slashes path;
    rev = rev;
    rev_props = rev_props;
    prop_deltas = prop_deltas;
    merged_revision = unwrap_or false merged;
    delta_chunks = [];
  })
file_rev_fields _ = refuse (text "file-rev entry too short")

unfoldable pub parse_file_rev_entry : SvnItem → Result FileRev
unfolding file_rev_fields
parse_file_rev_entry x =
    ok_or (protocol (text "file-rev entry not a list")) (as_list x) >>= file_rev_fields

abbrev pub root_url_of : Option SvnItem → Result Bytes
root_url_of none = ok []
root_url_of (some x) = ok_or (protocol (text "repos-info root url not a string")) (as_string x)

abbrev pub capabilities_of : Option SvnItem → Result (List Bytes)
capabilities_of none = ok []
capabilities_of (some x) = parse_word_list x (text "repos-info caps")

unfoldable pub parse_repos_info : List SvnItem → Result RepositoryInfo
parse_repos_info [] = refuse (text "repos-info params empty")
parse_repos_info (u ∷ rest) = do
  uuid ← ok_or (protocol (text "repos-info uuid not a string")) (as_string u)
  root_url ← root_url_of (get_elem? rest 0)
  capabilities ← capabilities_of (get_elem? rest 1)
  ok (record { uuid = uuid; root_url = root_url; capabilities = capabilities })

unfoldable pub commit_fields : List SvnItem → Result CommitInfo
commit_fields [] = refuse (text "commit-info too short")
commit_fields (r ∷ rest) = do
  new_rev ← ok_or (protocol (text "commit-info new-rev not a number")) (as_u64 r)
  date ← parse_optional_string (get_elem? rest 0) (text "commit-info date")
  author ← parse_optional_string (get_elem? rest 1) (text "commit-info author")
  post_commit_err ← parse_optional_string (get_elem? rest 2) (text "commit-info post-commit error")
  ok (record { new_rev = new_rev; date = date; author = author; post_commit_err = post_commit_err })

unfoldable pub parse_commit_info : SvnItem → Result CommitInfo
unfolding commit_fields
parse_commit_info x = ok_or (protocol (text "commit-info not a list")) (as_list x) >>= commit_fields

pub record GetFileResponseParams : Type 0 where
  pub checksum : Option Bytes
  pub rev : ℕ
  pub props : PropertyList
  pub inherited_props : List InheritedProps

unfoldable pub inherited_of : Option SvnItem → Result (List InheritedProps)
inherited_of none = ok []
inherited_of (some (list no_items)) = ok []
inherited_of (some (list (item x no_items))) = parse_iproplist x
inherited_of (some (list (item _ (item _ _)))) = refuse (text "get-file iprops tuple too long")
inherited_of (some _) = refuse (text "get-file iprops not a list")

unfoldable pub parse_get_file_response_params : List SvnItem → Result GetFileResponseParams
unfolding inherited_of
parse_get_file_response_params (c ∷ r ∷ ps ∷ rest) = do
  checksum ← parse_optional_string (some c) (text "get-file checksum")
  rev ← ok_or (protocol (text "get-file rev not a number")) (as_u64 r)
  props ← parse_proplist ps
  inherited_props ← inherited_of (get_elem? rest 0)
  ok (record { checksum = checksum; rev = rev; props = props; inherited_props = inherited_props })
parse_get_file_response_params _ = refuse (text "get-file response too short")
