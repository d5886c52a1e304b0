-- ===== src/Rasvn/Parse/Stat.antt =====
-- The kinds that `parse_stat_params` (src/rasvn/parse.rs) returns, whichever layout it reads.
use svn.Base.{
  ℕ, ◌+◌, ◌≡◌, refl, List, [], ◌∷◌, Bytes, Option, none, some, get_elem?, Result, ok, err, ◌⊎◌, inl,
  inr,
}
use svn.Types.Node.{NodeKind, from_word}
use svn.Types.Answers.{StatEntry}
use svn.Rasvn.Item.{SvnItem, as_list}
use svn.Rasvn.Edit.Decode.{opt_tuple_u64}
use svn.Rasvn.Parse.Scalar.{
  and_then, parse_optional_string, parse_optional_u64, parse_optional_bool, opt_tuple_wordish,
}
use svn.Rasvn.Parse.Known.{Always, bind-Always, Always-ok}
use svn.Rasvn.Parse.Dir.{
  or_else, stat_fields, stat_at, parse_stat_entry_at, behind_revision, parse_stat_entry, stat_list,
  any_stat, stat_after, parse_stat_params,
}

abbrev pub IsNode : StatEntry → Type 0
IsNode entry = (entry.kind ≡ NodeKind.file) ⊎ (entry.kind ≡ NodeKind.dir)

abbrev pub IsNodeOption : Option StatEntry → Type 0
IsNodeOption none = Unit
IsNodeOption (some entry) = IsNode entry

or_else-Always :
    (first later : Result (Option StatEntry))
    → Always IsNodeOption first
    → Always IsNodeOption later
    → Always IsNodeOption (or_else first later)
or_else-Always (err e) later h k = tt
or_else-Always (ok (some entry)) later h k = h
or_else-Always (ok none) later h k = k

stat_fields-Always :
    (kind : NodeKind) (fields : List SvnItem) (offset : ℕ)
    → Always IsNodeOption (stat_fields kind fields offset)
unfolding stat_fields
stat_fields-Always NodeKind.unknown fields offset = tt
stat_fields-Always NodeKind.none fields offset = tt
stat_fields-Always NodeKind.file fields offset =
    bind-Always IsNodeOption (parse_optional_u64 (get_elem? fields (offset + 1)) _) _ λ size.
      bind-Always IsNodeOption (parse_optional_bool (get_elem? fields (offset + 2)) _) _
        λ has_props.
          bind-Always IsNodeOption (parse_optional_u64 (get_elem? fields (offset + 3)) _) _
            λ created_rev.
              bind-Always IsNodeOption (parse_optional_string (get_elem? fields (offset + 4)) _) _
                λ date.
                  bind-Always IsNodeOption (parse_optional_string (get_elem? fields (offset + 5)) _)
                    _ λ author. inl refl
stat_fields-Always NodeKind.dir fields offset =
    bind-Always IsNodeOption (parse_optional_u64 (get_elem? fields (offset + 1)) _) _ λ size.
      bind-Always IsNodeOption (parse_optional_bool (get_elem? fields (offset + 2)) _) _
        λ has_props.
          bind-Always IsNodeOption (parse_optional_u64 (get_elem? fields (offset + 3)) _) _
            λ created_rev.
              bind-Always IsNodeOption (parse_optional_string (get_elem? fields (offset + 4)) _) _
                λ date.
                  bind-Always IsNodeOption (parse_optional_string (get_elem? fields (offset + 5)) _)
                    _ λ author. inr refl

stat_at-Always :
    (o : Option Bytes) (fields : List SvnItem) (offset : ℕ)
    → Always IsNodeOption (stat_at o fields offset)
stat_at-Always none fields offset = tt
stat_at-Always (some w) fields offset = stat_fields-Always (from_word w) fields offset

parse_stat_entry_at-Always :
    (fields : List SvnItem) (offset : ℕ) → Always IsNodeOption (parse_stat_entry_at fields offset)
unfolding parse_stat_entry_at
parse_stat_entry_at-Always fields offset =
    stat_at-Always (and_then (get_elem? fields offset) opt_tuple_wordish) fields offset

behind_revision-Always :
    (o : Option ℕ) (fields : List SvnItem) → Always IsNodeOption (behind_revision o fields)
behind_revision-Always none fields = tt
behind_revision-Always (some n) fields = parse_stat_entry_at-Always fields 1

parse_stat_entry-Always : (fields : List SvnItem) → Always IsNodeOption (parse_stat_entry fields)
unfolding parse_stat_entry
parse_stat_entry-Always [] =
    or_else-Always (parse_stat_entry_at [] 0) (ok none) (parse_stat_entry_at-Always [] 0) tt
parse_stat_entry-Always (x ∷ []) =
    or_else-Always (parse_stat_entry_at (x ∷ []) 0) (ok none)
      (parse_stat_entry_at-Always (x ∷ []) 0) tt
parse_stat_entry-Always (x ∷ y ∷ rest) =
    or_else-Always (behind_revision (opt_tuple_u64 x) (x ∷ y ∷ rest)) _
      (behind_revision-Always (opt_tuple_u64 x) (x ∷ y ∷ rest))
      (or_else-Always (parse_stat_entry_at (x ∷ y ∷ rest) 0) (ok none)
        (parse_stat_entry_at-Always (x ∷ y ∷ rest) 0) tt)

stat_list-Always : (o : Option (List SvnItem)) → Always IsNodeOption (stat_list o)
stat_list-Always none = tt
stat_list-Always (some fields) = parse_stat_entry-Always fields

any_stat-Always : (params : List SvnItem) → Always IsNodeOption (any_stat params)
unfolding any_stat
any_stat-Always [] = tt
any_stat-Always (x ∷ xs) =
    or_else-Always (stat_list (as_list x)) (any_stat xs) (stat_list-Always (as_list x))
      (any_stat-Always xs)

stat_after-Always : (o : Option ℕ) (y : SvnItem) → Always IsNodeOption (stat_after o y)
stat_after-Always none y = tt
stat_after-Always (some n) y = stat_list-Always (as_list y)

parse_stat_params-Always : (params : List SvnItem) → Always IsNodeOption (parse_stat_params params)
unfolding parse_stat_params
parse_stat_params-Always [] = tt
parse_stat_params-Always (x ∷ []) =
    or_else-Always (stat_list (as_list x)) _ (stat_list-Always (as_list x)) (
      or_else-Always (parse_stat_entry (x ∷ [])) _ (parse_stat_entry-Always (x ∷ []))
        (any_stat-Always (x ∷ [])))
parse_stat_params-Always (x ∷ y ∷ rest) =
    or_else-Always (stat_after (opt_tuple_u64 x) y) _ (stat_after-Always (opt_tuple_u64 x) y) (
      or_else-Always (parse_stat_entry (x ∷ y ∷ rest)) _ (parse_stat_entry-Always (x ∷ y ∷ rest))
        (any_stat-Always (x ∷ y ∷ rest)))

-- A `stat` response that is read as an entry is read as one of a file or a directory, whichever of
-- its layouts the entry was found in.
pub parse_stat_params-IsNode :
    (params : List SvnItem) (entry : StatEntry)
    → parse_stat_params params ≡ ok (some entry)
    → (entry.kind ≡ NodeKind.file) ⊎ (entry.kind ≡ NodeKind.dir)
parse_stat_params-IsNode params entry e =
    Always-ok IsNodeOption (parse_stat_params params) (parse_stat_params-Always params) e
