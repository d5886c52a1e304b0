-- ===== src/Rasvn/Item.antt =====
-- Protocol items (src/rasvn/item.rs), and `encode_command_item` (src/rasvn/wire.rs).
use svn.Base.{
  ℕ, ◌≡◌, refl, ap, List, [], ◌∷◌, ◌++◌, Bytes, text, bytes_eq, Option, none, some, Bool, true,
  false, if◌then◌else◌,
}
use svn.Base.Utf8.{from_utf8}
use svn.Rasvn.Wire as Wire

-- `Items` are the items of a list.
mutual
  pub data SvnItem : Type 0 where
    word : Bytes → SvnItem
    number : ℕ → SvnItem
    string : Bytes → SvnItem
    list : Items → SvnItem
    bool : Bool → SvnItem

  pub data Items : Type 0 where
    no_items : Items
    item : SvnItem → Items → Items

abbrev pub items : List SvnItem → Items
items [] = no_items
items (x ∷ xs) = item x (items xs)

abbrev pub to_list : Items → List SvnItem
to_list no_items = []
to_list (item x xs) = x ∷ to_list xs

pub to_list-items : (xs : List SvnItem) → to_list (items xs) ≡ xs
to_list-items [] = refl
to_list-items (x ∷ xs) = ap (λ (t : List SvnItem). x ∷ t) (to_list-items xs)

unfoldable pub kind : SvnItem → Bytes
kind (word _) = text "word"
kind (number _) = text "number"
kind (string _) = text "string"
kind (list _) = text "list"
kind (bool _) = text "bool"

unfoldable pub as_word : SvnItem → Option Bytes
as_word (word s) = some s
as_word _ = none

unfoldable pub as_u64 : SvnItem → Option ℕ
as_u64 (number n) = some n
as_u64 _ = none

unfoldable pub as_bool : SvnItem → Option Bool
as_bool (bool b) = some b
as_bool (word w) =
    if bytes_eq w (text "true")
    then some true
    else if bytes_eq w (text "false")
    then some false
    else none
as_bool _ = none

unfoldable pub as_string : SvnItem → Option Bytes
as_string (string bytes) = from_utf8 bytes
as_string _ = none

unfoldable pub as_bytes_string : SvnItem → Option Bytes
as_bytes_string (string bytes) = some bytes
as_bytes_string _ = none

unfoldable pub as_list : SvnItem → Option (List SvnItem)
as_list (list xs) = some (to_list xs)
as_list _ = none

unfoldable mutual
  pub encode_item : SvnItem → Bytes → Bytes
  encode_item (word w) out = Wire.word w out
  encode_item (number n) out = Wire.number n out
  encode_item (bool b) out = Wire.bool b out
  encode_item (string s) out = Wire.string_bytes s out
  encode_item (list xs) out = Wire.list_end (encode_items xs (Wire.list_start out))

  pub encode_items : Items → Bytes → Bytes
  encode_items no_items out = out
  encode_items (item x xs) out = encode_items xs (encode_item x out)

unfoldable pub encode_command_item : Bytes → SvnItem → Bytes → Bytes
encode_command_item command params out =
    encode_item params (((out ++ (40 ∷ 32 ∷ [])) ++ command) ++ (32 ∷ [])) ++ (41 ∷ 32 ∷ [])
