-- ===== src/Rasvn/Parse/Scalar.antt =====
-- The fields that the parsers of src/rasvn/parse.rs share. `opt_tuple_u64` and
-- `optional_tuple_bytes` stand in src/rasvn/edit/decode.rs, too, and are modelled there.
use svn.Base.{
  ℕ, List, [], ◌∷◌, ◌++◌, Bytes, text, Bool, Option, none, some, ◌==◌, if◌then◌else◌, Result, ok,
  ok_or, protocol, ◌>>=◌,
}
use svn.Rasvn.Item.{
  SvnItem, no_items, item, word, string, list, as_string, as_u64, as_bool, as_word, as_list,
}
use svn.Rasvn.Edit.Decode.{refuse}

-- `trim_start_matches('/')`
unfoldable pub trim_slashes : Bytes → Bytes
trim_slashes [] = []
trim_slashes (b ∷ bs) = let rest = trim_slashes bs in if b == 47 then rest else b ∷ bs

abbrev pub keep_unless_slash : ℕ → Bytes → Bytes
keep_unless_slash b [] = if b == 47 then [] else b ∷ []
keep_unless_slash b (c ∷ cs) = b ∷ c ∷ cs

-- `trim_end_matches('/')`
unfoldable pub trim_end_slashes : Bytes → Bytes
trim_end_slashes [] = []
trim_end_slashes (b ∷ bs) = keep_unless_slash b (trim_end_slashes bs)

abbrev pub and_then {ℓ κ} : {A : Type ℓ} {B : Type κ} → Option A → (A → Option B) → Option B
and_then none f = none
and_then (some a) f = f a

-- `.map(Some).ok_or_else(|| SvnError::Protocol(format!("{ctx} not {expected}")))`
abbrev pub scalar_of {ℓ} : {A : Type ℓ} → Bytes → Bytes → Option A → Result (Option A)
scalar_of ctx expected none = refuse (ctx ++ text " not " ++ expected)
scalar_of ctx expected (some a) = ok (some a)

unfoldable pub parse_optional_scalar {ℓ} :
    {A : Type ℓ} → Option SvnItem → Bytes → Bytes → (SvnItem → Option A) → Result (Option A)
parse_optional_scalar none ctx expected parse = ok none
parse_optional_scalar (some (list no_items)) ctx expected parse = ok none
parse_optional_scalar (some (list (item x no_items))) ctx expected parse =
    scalar_of ctx expected (parse x)
parse_optional_scalar (some (list (item _ (item _ _)))) ctx expected parse =
    refuse (ctx ++ text " tuple too long")
parse_optional_scalar (some x) ctx expected parse = scalar_of ctx expected (parse x)

unfoldable pub parse_optional_string : Option SvnItem → Bytes → Result (Option Bytes)
unfolding parse_optional_scalar
parse_optional_string o ctx = parse_optional_scalar o ctx (text "a string") as_string

unfoldable pub parse_optional_u64 : Option SvnItem → Bytes → Result (Option ℕ)
unfolding parse_optional_scalar
parse_optional_u64 o ctx = parse_optional_scalar o ctx (text "a number") as_u64

unfoldable pub parse_optional_bool : Option SvnItem → Bytes → Result (Option Bool)
unfolding parse_optional_scalar
parse_optional_bool o ctx = parse_optional_scalar o ctx (text "a bool") as_bool

unfoldable pub opt_tuple_wordish : SvnItem → Option Bytes
opt_tuple_wordish (list no_items) = none
opt_tuple_wordish (list (item x _)) = opt_tuple_wordish x
opt_tuple_wordish (word w) = as_word (word w)
opt_tuple_wordish (string s) = as_string (string s)
opt_tuple_wordish _ = none

unfoldable pub parse_optional_wordish : Option SvnItem → Bytes → Result (Option Bytes)
unfolding parse_optional_scalar
parse_optional_wordish o ctx = parse_optional_scalar o ctx (text "a word") opt_tuple_wordish

unfoldable pub opt_tuple_bool : SvnItem → Option Bool
opt_tuple_bool (list no_items) = none
opt_tuple_bool (list (item x _)) = as_bool x
opt_tuple_bool x = as_bool x

-- `for entry in entries { … out.push(…) }`
abbrev pub collect {ℓ κ} : {A : Type ℓ} {B : Type κ} → (A → Result B) → List A → Result (List B)
collect parse [] = ok []
collect parse (x ∷ xs) = parse x >>= λ y. collect parse xs >>= λ ys. ok (y ∷ ys)

-- `unwrap_or`
abbrev pub unwrap_or {ℓ} : {A : Type ℓ} → A → Option A → A
unwrap_or d none = d
unwrap_or d (some a) = a

unfoldable pub word_entry : Bytes → SvnItem → Result Bytes
word_entry ctx x = ok_or (protocol (ctx ++ text " entry not a word")) (as_word x)

unfoldable pub parse_word_list : SvnItem → Bytes → Result (List Bytes)
unfolding word_entry
parse_word_list x ctx = do
  entries ← ok_or (protocol (ctx ++ text " not a list")) (as_list x)
  collect (word_entry ctx) entries
