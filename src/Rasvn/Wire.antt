-- ===== src/Rasvn/Wire.antt =====
-- The token encoder (src/rasvn/wire.rs): each operation appends to the output that it is given.
pub mod Appends
pub mod Decimal
use svn.Base.{
  ℕ, zero, suc, ◌+◌, ◌/◌, ◌%◌, [], ◌∷◌, ◌++◌, Bytes, text, length, Bool, true, false, ◌==◌,
  if◌then◌else◌,
}

infixl 3 ◌▹◌
abbrev pub ◌▹◌ : Bytes → (Bytes → Bytes) → Bytes
out ▹ f = f out

-- The loop fills a buffer from its end; the buffer's 20 bytes are the fuel. Digits that would not
-- fit are not written here, and a 64-bit number has at most 20.
unfoldable pub decimal_loop : ℕ → ℕ → Bytes → Bytes
decimal_loop zero n buf = buf
decimal_loop (suc i) n buf =
    let more = decimal_loop i (n / 10) ((48 + n % 10) ∷ buf) in if n == 0 then buf else more

unfoldable pub encode_decimal_u64 : ℕ → Bytes → Bytes
encode_decimal_u64 n out = if n == 0 then out ++ (48 ∷ []) else out ++ decimal_loop 20 n []

unfoldable pub encode_decimal_usize : ℕ → Bytes → Bytes
encode_decimal_usize n out = encode_decimal_u64 n out

unfoldable pub word : Bytes → Bytes → Bytes
word w out = (out ++ w) ++ (32 ∷ [])

unfoldable pub number : ℕ → Bytes → Bytes
number n out = encode_decimal_u64 n out ++ (32 ∷ [])

unfoldable pub bool : Bool → Bytes → Bytes
bool true out = out ++ text "true "
bool false out = out ++ text "false "

unfoldable pub string_bytes : Bytes → Bytes → Bytes
string_bytes bytes out =
    ((encode_decimal_usize (length bytes) out ++ (58 ∷ [])) ++ bytes) ++ (32 ∷ [])

unfoldable pub string_str : Bytes → Bytes → Bytes
string_str s out = string_bytes s out

unfoldable pub list_start : Bytes → Bytes
list_start out = out ++ (40 ∷ 32 ∷ [])

unfoldable pub list_end : Bytes → Bytes
list_end out = out ++ (41 ∷ 32 ∷ [])

unfoldable pub newline : Bytes → Bytes
newline out = out ++ (10 ∷ [])
