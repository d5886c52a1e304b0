-- ===== src/Rasvn/Conn/Atoms.antt =====
-- `read_atom` (src/rasvn/conn/io.rs) over what `encode_item` (src/rasvn/item.rs) writes.
use svn.Base.{
  ℕ, ◌^◌, ◌≤◌, ◌<◌, ◌≡◌, ◌≢◌, refl, sym, ap, ◌∙◌, subst, arith, [], ◌∷◌, ◌++◌, Bytes, text,
  bytes_eq, length, append_assoc, lt→ltb, ◌==◌, ◌||◌, Bool, true, false, Bool-cases, if◌then◌else◌,
  none, some, inl, inr,
}
use svn.Base.Words.{IsU64, usize_try_from}
use svn.Base.Utf8.{is_utf8}
use svn.Rasvn.Item.{SvnItem, word, number, string, bool, encode_item}
use svn.Rasvn.Wire as Wire
use svn.Rasvn.Wire.{encode_decimal_u64, encode_decimal_usize}
use svn.Rasvn.Wire.Decimal.{read_decimal, AllDigits, encode_decimal_u64_value}
use svn.Rasvn.Conn.Read.{◌>>=◌}
use svn.Rasvn.Conn.Io.{
  is_whitespace, is_digit, parse_word, parse_digits, number_or_string, word_or_bool, word_item,
  string_of, read_atom,
}
use svn.Rasvn.Conn.Stream.{
  Gets, return-Gets, bind-Gets, if_true-Gets, if_false-Gets, peek_byte-Gets, consume_byte-Gets,
}
use svn.Rasvn.Conn.Tokens.{skip_ws-Gets, require_ws-Gets, digits-Gets, IsToken, parse_word-Gets}
use svn.Rasvn.Conn.Exact.{read_exact_vec-Gets}

-- An item that is no list, in front of `rest`: its first byte opens no list and closes none.
pub data AtomAt (x : SvnItem) (bs rest : Bytes) : Type 0 where
  atom_at :
      (b : ℕ) (tl : Bytes)
      → bs ≡ b ∷ tl
      → is_whitespace b ≡ false
      → (b == 41) ≡ false
      → (b == 40) ≡ false
      → Gets read_atom bs x rest
      → AtomAt x bs rest

atom-Gets :
    (b : ℕ) (tl : Bytes) (x : SvnItem) (rest : Bytes)
    → is_whitespace b ≡ false
    → Gets
        (if is_digit b then (parse_digits >>= number_or_string) else word_or_bool)
        (b ∷ tl)
        x
        rest
    → Gets read_atom (b ∷ tl) x rest
unfolding read_atom
atom-Gets b tl x rest e h = bind-Gets _ (skip_ws-Gets b tl e) (bind-Gets _ (peek_byte-Gets b tl) h)

-- Digits and what follows them.
digits_atom :
    (ds : Bytes) (c : ℕ) (bs : Bytes) (x : SvnItem) (rest : Bytes)
    → ds ≢ []
    → AllDigits ds
    → read_decimal 0 ds < 2 ^ 64
    → is_digit c ≡ false
    → Gets (number_or_string (read_decimal 0 ds)) (c ∷ bs) x rest
    → AtomAt x (ds ++ (c ∷ bs)) rest
unfolding parse_digits
digits_atom [] c bs x rest ne h fits e k = absurd (ne refl)
digits_atom (d ∷ ds) c bs x rest ne (lo, hi, h) fits e k =
    atom_at d (ds ++ (c ∷ bs)) refl (apart d lo hi) (not_close d lo hi) (not_open d lo hi) (
      atom-Gets d (ds ++ (c ∷ bs)) x rest (apart d lo hi) (
        if_true-Gets _ (digit d lo hi)
          (bind-Gets number_or_string (digits-Gets 0 (d ∷ ds) c bs (lo, hi, h) fits e) k)))
  where
    apart : (d : ℕ) → 48 ≤ d → d ≤ 57 → is_whitespace d ≡ false
    apart d lo hi = ground arith

    not_close : (d : ℕ) → 48 ≤ d → d ≤ 57 → (d == 41) ≡ false
    not_close d lo hi = ground arith

    not_open : (d : ℕ) → 48 ≤ d → d ≤ 57 → (d == 40) ≡ false
    not_open d lo hi = ground arith

    digit : (d : ℕ) → 48 ≤ d → d ≤ 57 → is_digit d ≡ true
    digit d lo hi = ground arith

some_digits : (n : ℕ) → IsU64 n → encode_decimal_u64 n [] ≢ []
unfolding encode_decimal_u64 read_decimal
some_digits n h e = elim (Bool-cases (n == 0)) [
  | inl z ↦ nonempty (sym (ap (λ b. if b then 48 ∷ [] else Wire.decimal_loop 20 n []) z) ∙ e)
  | inr nz ↦
      let (value, digits, len) = encode_decimal_u64_value n h in
      let zero' : 0 ≡ n = sym (ap (read_decimal 0) e) ∙ value in ground arith
]
  where
    nonempty : {b : ℕ} {bs : Bytes} → b ∷ bs ≢ []
    nonempty e = cc e

decimal_atom :
    (n c : ℕ) (bs : Bytes) (x : SvnItem) (rest : Bytes)
    → IsU64 n
    → is_digit c ≡ false
    → Gets (number_or_string n) (c ∷ bs) x rest
    → AtomAt x (encode_decimal_u64 n [] ++ (c ∷ bs)) rest
decimal_atom n c bs x rest h e k =
    let (value, digits, len) = encode_decimal_u64_value n h in
    digits_atom (encode_decimal_u64 n []) c bs x rest (some_digits n h) digits
      (subst (λ m. m < 2 ^ 64) (sym value) h) e
      (subst (λ m. Gets (number_or_string m) (c ∷ bs) x rest) (sym value) k)

pub number-AtomAt :
    (n : ℕ) (rest : Bytes) → IsU64 n → AtomAt (number n) (encode_item (number n) [] ++ rest) rest
unfolding encode_item Wire.number number_or_string
number-AtomAt n rest h =
    subst (λ (t : Bytes). AtomAt (number n) t rest)
      (sym (append_assoc (encode_decimal_u64 n []) (32 ∷ []) rest))
      (decimal_atom n 32 rest (number n) rest h refl (
        bind-Gets _ (peek_byte-Gets 32 rest)
          (bind-Gets _ (require_ws-Gets rest) (return-Gets (number n) rest))))

string_of-Gets :
    (s rest : Bytes)
    → length s < 2 ^ 63
    → Gets (string_of (usize_try_from (length s))) (s ++ (32 ∷ rest)) (string s) rest
string_of-Gets s rest h =
    subst
      (λ b.
        Gets (string_of (if b then some (length s) else none)) (s ++ (32 ∷ rest)) (string s) rest)
      (sym (lt→ltb (length s) (2 ^ 64) (omega (arith, h))))
      (bind-Gets _ (read_exact_vec-Gets s (32 ∷ rest) h)
        (bind-Gets _ (require_ws-Gets rest) (return-Gets (string s) rest)))

pub string-AtomAt :
    (s rest : Bytes)
    → length s < 2 ^ 63
    → AtomAt (string s) (encode_item (string s) [] ++ rest) rest
unfolding encode_item Wire.string_bytes encode_decimal_usize number_or_string
string-AtomAt s rest h =
    let digits = encode_decimal_u64 (length s) [] in
    subst (λ (t : Bytes). AtomAt (string s) t rest)
      (sym (
        append_assoc ((digits ++ (58 ∷ [])) ++ s) (32 ∷ []) rest
        ∙ append_assoc (digits ++ (58 ∷ [])) s (32 ∷ rest)
        ∙ append_assoc digits (58 ∷ []) (s ++ (32 ∷ rest))))
      (decimal_atom (length s) 58 (s ++ (32 ∷ rest)) (string s) rest (omega (arith, h)) refl (
        bind-Gets _ (peek_byte-Gets 58 (s ++ (32 ∷ rest)))
          (bind-Gets _ (consume_byte-Gets 58 (s ++ (32 ∷ rest))) (string_of-Gets s rest h))))

-- The words that are read back as words.
abbrev pub IsWord : Bytes → Type 0
IsWord w =
    (b : ℕ) × (tl : Bytes) × (w ≡ b ∷ tl) × (is_digit b ≡ false) × IsToken w × (is_utf8 w ≡ true)

word_atom : (w rest : Bytes) → IsWord w → AtomAt (word_item w) (w ++ (32 ∷ rest)) rest
unfolding word_or_bool
word_atom w rest (b, tl, e, nd, tok, utf) =
    let (ws, delim, more) = subst IsToken e tok in
    atom_at b (tl ++ (32 ∷ rest)) (ap (λ (t : Bytes). t ++ (32 ∷ rest)) e) ws (not_close b delim)
      (not_open b delim)
      (subst (λ (t : Bytes). Gets read_atom (t ++ (32 ∷ rest)) (word_item w) rest) (sym e)
        (atom-Gets b (tl ++ (32 ∷ rest)) (word_item w) rest ws (
          if_false-Gets _ nd (
            bind-Gets _
              (subst (λ (t : Bytes). Gets parse_word (t ++ (32 ∷ rest)) w (32 ∷ rest)) e
                (parse_word-Gets w rest tok utf))
              (bind-Gets _ (require_ws-Gets rest) (return-Gets (word_item w) rest))))))
  where
    not_close : (b : ℕ) → (b == 40 || b == 41 || b == 58) ≡ false → (b == 41) ≡ false
    not_close b h = ground arith

    not_open : (b : ℕ) → (b == 40 || b == 41 || b == 58) ≡ false → (b == 40) ≡ false
    not_open b h = ground arith

word_item-eq :
    (w : Bytes)
    → bytes_eq w (text "true") ≡ false
    → bytes_eq w (text "false") ≡ false
    → word_item w ≡ word w
word_item-eq w t f =
    ap (λ b. if b then bool true else if bytes_eq w (text "false") then bool false else word w) t
    ∙ ap (λ b. if b then bool false else word w) f

pub word-AtomAt :
    (w rest : Bytes)
    → IsWord w
    → bytes_eq w (text "true") ≡ false
    → bytes_eq w (text "false") ≡ false
    → AtomAt (word w) (encode_item (word w) [] ++ rest) rest
unfolding encode_item Wire.word
word-AtomAt w rest h t f =
    subst (λ (s : Bytes). AtomAt (word w) s rest) (sym (append_assoc w (32 ∷ []) rest))
      (subst (λ x. AtomAt x (w ++ (32 ∷ rest)) rest) (word_item-eq w t f) (word_atom w rest h))

pub bool-AtomAt : (b : Bool) (rest : Bytes) → AtomAt (bool b) (encode_item (bool b) [] ++ rest) rest
unfolding encode_item Wire.bool text is_utf8 bytes_eq
bool-AtomAt true rest =
    word_atom (text "true") rest (
      116,
      text "rue",
      refl,
      refl,
      (refl, refl, (refl, refl, (refl, refl, (refl, refl, tt)))),
      refl,
    )
bool-AtomAt false rest = word_atom (text "false") rest (
  102,
  text "alse",
  refl,
  refl,
  (refl, refl, (refl, refl, (refl, refl, (refl, refl, (refl, refl, tt))))),
  refl,
)
