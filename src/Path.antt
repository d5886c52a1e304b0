-- ===== src/Path.antt =====
-- Repository-relative paths (src/path.rs), as built for a target that is not Windows.
pub mod Canonical
use svn.Base.{
  ℕ, List, [], ◌∷◌, ◌++◌, Bytes, bytes_eq, text, Bool, true, false, ◌||◌, ◌==◌, if◌then◌else◌,
  Result, ok, err, SvnError, invalid_path,
}

-- The characters `/` and `\`.
abbrev pub is_separator : ℕ → Bool
is_separator b = b == 47 || b == 92

-- `trim_matches(['/', '\\'])`, from the front and then from the back.
unfoldable pub trim_start : Bytes → Bytes
trim_start [] = []
trim_start (b ∷ bs) = let rest = trim_start bs in if is_separator b then rest else b ∷ bs

-- A separator goes when nothing is left behind it.
unfoldable pub keep_unless_last : ℕ → Bytes → Bytes
keep_unless_last b [] = if is_separator b then [] else b ∷ []
keep_unless_last b (c ∷ cs) = b ∷ c ∷ cs

unfoldable pub trim_end : Bytes → Bytes
unfolding keep_unless_last
trim_end [] = []
trim_end (b ∷ bs) = keep_unless_last b (trim_end bs)

unfoldable pub contains_nul : Bytes → Bool
contains_nul [] = false
contains_nul (b ∷ bs) = b == 0 || contains_nul bs

-- `split(['/', '\\'])`: the first segment collected so far, and what follows.
unfoldable pub split : Bytes → Bytes → List Bytes
split seg [] = seg ∷ []
split seg (b ∷ bs) =
    let next = split [] bs in
    let longer = split (seg ++ (b ∷ [])) bs in if is_separator b then seg ∷ next else longer

-- The loop over the segments: `""` and `"."` are left out, and `".."` is an error.
unfoldable pub push_part : Bytes → Result (List Bytes) → Result (List Bytes)
push_part seg (ok parts) = ok (seg ∷ parts)
push_part seg (err e) = err e

unfoldable pub collect_parts : List Bytes → Result (List Bytes)
unfolding push_part text bytes_eq
collect_parts [] = ok []
collect_parts (seg ∷ segs) =
    let rest = collect_parts segs in
    if bytes_eq seg [] || bytes_eq seg (text ".")
    then rest
    else if bytes_eq seg (text "..")
    then err (invalid_path (text "unsafe path"))
    else push_part seg rest

-- `parts.join("/")`
unfoldable pub join : List Bytes → Bytes
join [] = []
join (p ∷ []) = p
join (p ∷ q ∷ ps) = p ++ (47 ∷ join (q ∷ ps))

abbrev pub empty_path : Bool → Result Bytes
empty_path true = ok []
empty_path false = err (invalid_path (text "empty path"))

unfoldable pub any_left_out : List Bytes → Bool
unfolding text bytes_eq
any_left_out [] = false
any_left_out (seg ∷ segs) = (bytes_eq seg [] || bytes_eq seg (text ".")) || any_left_out segs

unfoldable pub contains_backslash : Bytes → Bool
contains_backslash [] = false
contains_backslash (b ∷ bs) = b == 92 || contains_backslash bs

-- The end of the function: the trimmed text itself, if it needs no other allocation.
unfoldable pub join_parts : Bool → Bytes → Bool → Result (List Bytes) → Result Bytes
unfolding join
join_parts allow_empty trimmed needs_alloc (err e) = err e
join_parts allow_empty trimmed needs_alloc (ok []) = empty_path allow_empty
join_parts allow_empty trimmed needs_alloc (ok (p ∷ ps)) =
    if needs_alloc then ok (join (p ∷ ps)) else ok trimmed

unfoldable pub canonicalize_trimmed : Bool → Bytes → Result Bytes
unfolding contains_nul split collect_parts join_parts any_left_out contains_backslash text
canonicalize_trimmed allow_empty [] = empty_path allow_empty
canonicalize_trimmed allow_empty (b ∷ bs) =
    let trimmed : Bytes = b ∷ bs in
    let segs = split [] trimmed in
    let needs_alloc = contains_backslash trimmed || any_left_out segs in
    if contains_nul trimmed
    then err (invalid_path (text "unsafe path"))
    else join_parts allow_empty trimmed needs_alloc (collect_parts segs)

unfoldable pub canonicalize_rel_path : Bytes → Bool → Result Bytes
unfolding canonicalize_trimmed trim_start trim_end
canonicalize_rel_path path allow_empty =
    canonicalize_trimmed allow_empty (trim_end (trim_start path))

unfoldable pub validate_rel_path : Bytes → Result Bytes
validate_rel_path path = canonicalize_rel_path path false

unfoldable pub validate_rel_dir_path : Bytes → Result Bytes
validate_rel_dir_path path = canonicalize_rel_path path true
