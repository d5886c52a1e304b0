-- ===== src/Rasvn/Conn/Io.antt =====
-- The item reader of src/rasvn/conn/io.rs, without SASL. The read timeout is left out.
use svn.Base.{
  ℕ, ◌+◌, ◌-◌, ◌^◌, List, [], ◌∷◌, ◌++◌, Bytes, text, bytes_eq, length, take, drop, get_elem?, ltb,
  leb, ◌==◌, ◌&&◌, ◌||◌, Bool, true, false, if◌then◌else◌, Option, none, some, ok, err, protocol,
  io, ◌⊎◌, inl, inr,
}
use Prim.Native.Nat.{min}
use svn.Base.Words.{checked_mul, checked_add, usize_try_from}
use svn.Base.Utf8.{from_utf8}
use svn.Rasvn.Item.{SvnItem, word, number, string, list, bool, items}
use svn.Rasvn.Conn.Read.{Arrival, bytes, failure, Read, ◌>>=◌, return, fail, loop}

abbrev pub max_list_depth : ℕ
max_list_depth = 256

-- `u8::is_ascii_whitespace`
abbrev pub is_whitespace : ℕ → Bool
is_whitespace b = b == 32 || b == 9 || b == 10 || b == 12 || b == 13

abbrev pub is_digit : ℕ → Bool
is_digit b = leb 48 b && leb b 57

-- `read`, behind the compaction of the buffer.
unfoldable pub receive : List Arrival → Read (Unit {0})
receive [] r = (r, err (protocol (text "unexpected EOF")))
receive (bytes [] ∷ rest) r = (record r { input = rest }, err (protocol (text "unexpected EOF")))
receive (bytes (b ∷ bs) ∷ rest) r = (record r { buf = r.buf ++ (b ∷ bs); input = rest }, ok tt)
receive (failure e ∷ rest) r = (record r { input = rest }, err (io e))

unfoldable pub fill : Read (Unit {0})
unfolding receive
fill r = receive r.input (record r { buf = drop r.pos r.buf; pos = 0 })

abbrev pub peek_at : Option ℕ → Read (Unit {0} ⊎ ℕ)
peek_at (some b) = return (inr b)
peek_at none = fill >>= λ u. return (inl u)

-- The byte at the position, once there is one.
unfoldable pub peek_body : Unit {0} → Read (Unit {0} ⊎ ℕ)
peek_body _ r = peek_at (get_elem? r.buf r.pos) r

unfoldable pub peek_byte : Read ℕ
unfolding peek_body loop
peek_byte = loop peek_body tt

abbrev pub advance : ℕ → Read ℕ
advance b r = (record r { pos = r.pos + 1 }, ok b)

unfoldable pub consume_byte : Read ℕ
unfolding peek_byte
consume_byte = peek_byte >>= advance

unfoldable pub skip_ws_body : Unit {0} → Read (Unit {0} ⊎ Unit {0})
skip_ws_body _ = peek_byte >>= λ b.
    if is_whitespace b then (consume_byte >>= λ _. return (inl tt)) else return (inr tt)

unfoldable pub skip_ws : Read (Unit {0})
skip_ws = loop skip_ws_body tt

unfoldable pub require_ws : Read (Unit {0})
require_ws =
    consume_byte >>= λ b. if is_whitespace b then return tt else fail (text "expected whitespace")

-- `n.checked_mul(10).and_then(|v| v.checked_add((b - b'0') as u64))`
unfoldable pub push_digit : ℕ → ℕ → Option ℕ
push_digit n b = elim (checked_mul n 10) [ none ↦ none | some v ↦ checked_add v (b - 48) ]

abbrev pub next_digit : Option ℕ → Read (ℕ ⊎ ℕ)
next_digit none = fail (text "number overflow")
next_digit (some n) = return (inl n)

unfoldable pub parse_digits_body : ℕ → Read (ℕ ⊎ ℕ)
parse_digits_body n = peek_byte >>= λ b.
    if is_digit b then (consume_byte >>= λ _. next_digit (push_digit n b)) else return (inr n)

unfoldable pub parse_digits : Read ℕ
parse_digits = loop parse_digits_body 0

unfoldable pub parse_word_body : Bytes → Read (Bytes ⊎ Bytes)
parse_word_body acc = peek_byte >>= λ b.
    if is_whitespace b
    then return (inr acc)
    else if b == 40 || b == 41 || b == 58
    then fail (text "invalid word token")
    else (consume_byte >>= λ c. return (inl (acc ++ (c ∷ []))))

abbrev pub utf8_word : Option Bytes → Read Bytes
utf8_word none = fail (text "non-utf8 word")
utf8_word (some w) = return w

unfoldable pub parse_word : Read Bytes
parse_word = loop parse_word_body [] >>= λ w. utf8_word (from_utf8 w)

-- What the buffer has of the rest.
abbrev pub take_available : ℕ → Bytes → Read (Bytes ⊎ Bytes)
take_available n out r =
    let count = min (n - length out) (length r.buf - r.pos) in
    (record r { pos = r.pos + count }, ok (inl (out ++ take count (drop r.pos r.buf))))

unfoldable pub read_exact_body : ℕ → Bytes → Read (Bytes ⊎ Bytes)
read_exact_body n out r =
    (if ltb (length out) n
        then (if ltb r.pos (length r.buf)
            then take_available n out
            else (fill >>= λ _. return (inl out)))
        else return (inr out))
      r

-- `try_reserve_exact` refuses what no allocation can hold.
unfoldable pub read_exact_vec : ℕ → Read Bytes
read_exact_vec n =
    if ltb n (2 ^ 63) then loop (read_exact_body n) [] else fail (text "string length too large")

abbrev pub word_item : Bytes → SvnItem
word_item w =
    if bytes_eq w (text "true")
    then bool true
    else if bytes_eq w (text "false")
    then bool false
    else word w

abbrev pub string_of : Option ℕ → Read SvnItem
string_of none = fail (text "string length too large")
string_of (some len) = read_exact_vec len >>= λ bs. require_ws >>= λ _. return (string bs)

unfoldable pub number_or_string : ℕ → Read SvnItem
number_or_string n = peek_byte >>= λ next.
    if next == 58
    then (consume_byte >>= λ _. string_of (usize_try_from n))
    else (require_ws >>= λ _. return (number n))

unfoldable pub word_or_bool : Read SvnItem
word_or_bool = parse_word >>= λ w. require_ws >>= λ _. return (word_item w)

unfoldable pub read_atom : Read SvnItem
read_atom = skip_ws >>= λ _.
    peek_byte >>= λ ch. if is_digit ch then (parse_digits >>= number_or_string) else word_or_bool

-- The open lists, innermost first.
abbrev pub Stack : Type 0
Stack = List (List SvnItem)

abbrev underflow {ℓ} : {A : Type ℓ} → Read A
underflow = fail (text "list stack underflow")

abbrev pub close_list : Stack → Read (Stack ⊎ SvnItem)
close_list [] = underflow
close_list (completed ∷ []) = return (inr (list (items completed)))
close_list (completed ∷ parent ∷ more) =
    return (inl ((parent ++ (list (items completed) ∷ [])) ∷ more))

abbrev pub push_atom : Stack → SvnItem → Read (Stack ⊎ SvnItem)
push_atom [] atom = underflow
push_atom (top ∷ more) atom = return (inl ((top ++ (atom ∷ [])) ∷ more))

unfoldable pub read_list_body : Stack → Read (Stack ⊎ SvnItem)
read_list_body stack = skip_ws >>= λ _. peek_byte >>= λ next.
    if next == 41
    then (consume_byte >>= λ _. require_ws >>= λ _. close_list stack)
    else if next == 40
    then (if leb max_list_depth (length stack)
        then fail (text "list nesting too deep")
        else (consume_byte >>= λ _. require_ws >>= λ _. return (inl ([] ∷ stack))))
    else (read_atom >>= push_atom stack)

unfoldable pub read_list : Read SvnItem
read_list = consume_byte >>= λ _. require_ws >>= λ _. loop read_list_body ([] ∷ [])

unfoldable pub read_item : Read SvnItem
read_item = skip_ws >>= λ _. peek_byte >>= λ ch. if ch == 40 then read_list else read_atom
