-- ===== src/Rasvn/Parse/Defaults.antt =====
-- Log entries of servers that leave optional items out (`parse_log_entry` in src/rasvn/parse.rs).
use svn.Base.{◌≡◌, refl, [], ◌∷◌, false}
use svn.Rasvn.Item.{SvnItem, no_items, list, number, bool, as_list, as_u64, as_bool}
use svn.Rasvn.Edit.Decode.{parse_proplist, push_props, opt_tuple_u64}
use svn.Rasvn.Parse.Scalar.{parse_optional_scalar, parse_optional_bool, opt_tuple_bool}
use svn.Rasvn.Parse.Log.{merge_flags, revprops_block, log_rest, parse_log_entry}

-- An entry that ends behind its message is read as the one that has no children, a valid revision,
-- no revision properties and no subtractive merge, errors included, unless the caller needs the
-- revision properties.
pub parse_log_entry-defaults :
    (changes rev author date message : SvnItem)
    → parse_log_entry (changes ∷ rev ∷ author ∷ date ∷ message ∷ []) false
      ≡ parse_log_entry
          (changes
            ∷ rev
            ∷ author
            ∷ date
            ∷ message
            ∷ bool false
            ∷ bool false
            ∷ number 0
            ∷ list no_items
            ∷ bool false
            ∷ [])
          false
unfolding parse_log_entry log_rest merge_flags revprops_block opt_tuple_bool opt_tuple_u64 as_u64
    as_bool parse_proplist as_list push_props parse_optional_bool parse_optional_scalar
parse_log_entry-defaults changes rev author date message = refl
