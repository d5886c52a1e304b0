-- ===== src/Types.antt =====
-- Public data types (src/types.rs) that commands and events carry.
pub mod Node
pub mod Answers
pub mod Sorted
use svn.Base.{List, [], ◌∷◌, Bytes, bytes_eq, text, Bool, true, false, ltb, ◌==◌, if◌then◌else◌}

-- A `BTreeMap<String, Vec<u8>>`: pairs in the order of their names.
abbrev pub PropertyList : Type 0
PropertyList = List (Bytes × Bytes)

-- A `BTreeMap<String, String>`.
abbrev pub MergeInfoCatalog : Type 0
MergeInfoCatalog = List (Bytes × Bytes)

-- The order of `String`s: bytewise, a prefix first.
unfoldable pub bytes_lt : Bytes → Bytes → Bool
bytes_lt [] [] = false
bytes_lt [] (_ ∷ _) = true
bytes_lt (_ ∷ _) [] = false
bytes_lt (x ∷ xs) (y ∷ ys) = if ltb x y then true else if x == y then bytes_lt xs ys else false

-- `BTreeMap::insert`: a name that is present gets the new value.
unfoldable pub insert_prop : Bytes → Bytes → PropertyList → PropertyList
insert_prop k v [] = (k, v) ∷ []
insert_prop k v ((k', v') ∷ rest) =
    let later = insert_prop k v rest in
    if bytes_eq k k'
    then (k, v) ∷ rest
    else if bytes_lt k k'
    then (k, v) ∷ (k', v') ∷ rest
    else (k', v') ∷ later

pub data Depth : Type 0 where
  empty files immediates infinity : Depth

unfoldable pub as_word : Depth → Bytes
unfolding text
as_word empty = text "empty"
as_word files = text "files"
as_word immediates = text "immediates"
as_word infinity = text "infinity"
