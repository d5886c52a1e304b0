-- ===== src/Rasvn/Conn/Tokens.antt =====
-- The tokens of src/rasvn/conn/io.rs over the bytes to come.
use svn.Base.{
  ℕ, suc, ◌+◌, ◌-◌, ◌*◌, ◌^◌, ◌≤◌, ◌<◌, ◌≡◌, sym, ap, ◌∙◌, subst, arith, [], ◌∷◌, ◌++◌, Bytes,
  length, take, drop, length-drop, take-append, drop-append, drop-drop, append_assoc, append-nil,
  ltb, lt→ltb, ◌==◌, ◌||◌, Bool, true, false, if◌then◌else◌, none, some, ◌⊎◌, inl, inr,
}
use Prim.Native.Nat.{min}
use svn.Base.Words.{checked_add}
use svn.Base.Utf8.{from_utf8, is_utf8}
use svn.Rasvn.Wire.Decimal.{read_decimal, AllDigits}
use svn.Rasvn.Conn.Read.{Reader, ◌>>=◌, return, loop, after_round}
use svn.Rasvn.Conn.Io.{
  is_whitespace, is_digit, fill, skip_ws_body, skip_ws, require_ws, push_digit, next_digit,
  parse_digits_body, parse_word_body, parse_word, utf8_word, take_available, read_exact_body,
}
use svn.Rasvn.Conn.Progress.{loop_unroll}
use svn.Rasvn.Conn.Rounds.{
  skip_ws_body-IsRound, parse_digits_body-IsRound, parse_word_body-IsRound, read_exact_body-IsRound,
}
use svn.Rasvn.Conn.Stream.{
  Gets, return-Gets, bind-Gets, if_true-Gets, if_false-Gets, more-Gets, done-Gets, IsReady,
  upcoming, coming, peek_byte-Gets, consume_byte-Gets,
}

pub skip_ws-Gets :
    (b : ℕ) (bs : Bytes) → is_whitespace b ≡ false → Gets skip_ws (b ∷ bs) tt (b ∷ bs)
unfolding skip_ws skip_ws_body
skip_ws-Gets b bs e =
    done-Gets skip_ws_body skip_ws_body-IsRound
      (bind-Gets _ (peek_byte-Gets b bs) (if_false-Gets _ e (return-Gets (inr tt) (b ∷ bs))))

pub require_ws-Gets : (bs : Bytes) → Gets require_ws (32 ∷ bs) tt bs
unfolding require_ws
require_ws-Gets bs = bind-Gets _ (consume_byte-Gets 32 bs) (return-Gets tt bs)

read_decimal-more : (n : ℕ) (ds : Bytes) → n ≤ read_decimal n ds
unfolding read_decimal
read_decimal-more n [] = omega arith
read_decimal-more n (d ∷ ds) = omega (arith, read_decimal-more (n * 10 + (d - 48)) ds)

push_digit-eq : (n d : ℕ) → n * 10 + (d - 48) < 2 ^ 64 → push_digit n d ≡ some (n * 10 + (d - 48))
unfolding push_digit
push_digit-eq n d h =
    let fits : ltb (n * 10) (2 ^ 64) ≡ true = lt→ltb (n * 10) (2 ^ 64) (omega arith) in
    let fits' : ltb (n * 10 + (d - 48)) (2 ^ 64) ≡ true = lt→ltb _ (2 ^ 64) h in
    ap
      (λ b. elim (if b then some (n * 10) else none) [
        | none ↦ none
        | some v ↦ checked_add v (d - 48)
      ])
      fits
    ∙ ap (λ b. if b then some (n * 10 + (d - 48)) else none) fits'

-- Digits, up to a byte that is none.
pub digits-Gets :
    (n : ℕ) (ds : Bytes) (c : ℕ) (bs : Bytes)
    → AllDigits ds
    → read_decimal n ds < 2 ^ 64
    → is_digit c ≡ false
    → Gets (loop parse_digits_body n) (ds ++ (c ∷ bs)) (read_decimal n ds) (c ∷ bs)
unfolding parse_digits_body read_decimal
digits-Gets n [] c bs h fits e =
    done-Gets parse_digits_body parse_digits_body-IsRound
      (bind-Gets _ (peek_byte-Gets c bs) (if_false-Gets _ e (return-Gets (inr n) (c ∷ bs))))
digits-Gets n (d ∷ ds) c bs (lo, hi, h) fits e =
    more-Gets parse_digits_body parse_digits_body-IsRound
      (bind-Gets _ (peek_byte-Gets d (ds ++ (c ∷ bs))) (
        if_true-Gets _ (digit_test d lo hi) (
          bind-Gets _ (consume_byte-Gets d (ds ++ (c ∷ bs))) (
            subst
              (λ o. Gets (next_digit o) (ds ++ (c ∷ bs)) (inl (n * 10 + (d - 48))) (ds ++ (c ∷ bs)))
              (sym (push_digit-eq n d (below n d ds fits)))
              (return-Gets (inl (n * 10 + (d - 48))) (ds ++ (c ∷ bs)))))))
      (digits-Gets (n * 10 + (d - 48)) ds c bs h fits e)
  where
    digit_test : (d : ℕ) → 48 ≤ d → d ≤ 57 → is_digit d ≡ true
    digit_test d lo hi = ground arith

    below :
        (n d : ℕ) (ds : Bytes)
        → read_decimal (n * 10 + (d - 48)) ds < 2 ^ 64
        → n * 10 + (d - 48) < 2 ^ 64
    below n d ds h = omega (arith, h, read_decimal-more (n * 10 + (d - 48)) ds)

abbrev pub is_delimiter : ℕ → Bool
is_delimiter b = b == 40 || b == 41 || b == 58

-- The bytes of a token.
abbrev pub IsToken : Bytes → Type 0
IsToken [] = Unit
IsToken (b ∷ bs) = (is_whitespace b ≡ false) × (is_delimiter b ≡ false) × IsToken bs

token-Gets :
    (acc w bs : Bytes)
    → IsToken w
    → Gets (loop parse_word_body acc) (w ++ (32 ∷ bs)) (acc ++ w) (32 ∷ bs)
unfolding parse_word_body
token-Gets acc [] bs h = done-Gets parse_word_body parse_word_body-IsRound (
    bind-Gets _ (peek_byte-Gets 32 bs) (
      subst (λ (t : Bytes). Gets {A = Bytes ⊎ Bytes} (return (inr acc)) (32 ∷ bs) (inr t) (32 ∷ bs))
        (sym (append-nil acc)) (return-Gets (inr acc) (32 ∷ bs))))
token-Gets acc (b ∷ w) bs (e, e', h) =
    more-Gets parse_word_body parse_word_body-IsRound
      (bind-Gets _ (peek_byte-Gets b (w ++ (32 ∷ bs))) (
        if_false-Gets _ e (
          if_false-Gets _ e' (
            bind-Gets _ (consume_byte-Gets b (w ++ (32 ∷ bs)))
              (return-Gets (inl (acc ++ (b ∷ []))) (w ++ (32 ∷ bs)))))))
      (subst
        (λ (t : Bytes). Gets (loop parse_word_body (acc ++ (b ∷ []))) (w ++ (32 ∷ bs)) t (32 ∷ bs))
        (append_assoc acc (b ∷ []) w) (token-Gets (acc ++ (b ∷ [])) w bs h))

pub parse_word-Gets :
    (w bs : Bytes) → IsToken w → is_utf8 w ≡ true → Gets parse_word (w ++ (32 ∷ bs)) w (32 ∷ bs)
unfolding parse_word from_utf8
parse_word-Gets w bs h e = bind-Gets _ (token-Gets [] w bs h) (
    subst (λ b. Gets (utf8_word (if b then some w else none)) (32 ∷ bs) w (32 ∷ bs)) (sym e)
      (return-Gets w (32 ∷ bs)))

-- What the buffer has of the bytes that are asked for, one at least.
pub take_step :
    (n : ℕ) (out : Bytes) (x : ℕ) (xs bs : Bytes) (r : Reader)
    → length out + suc (length xs) ≡ n
    → IsReady r x (xs ++ bs)
    → (r' : Reader) × (c : ℕ) × (1 ≤ c)
      × (loop (read_exact_body n) out r ≡ loop (read_exact_body n) (out ++ take c (x ∷ xs)) r')
      × (upcoming r' ≡ drop c (x ∷ xs) ++ bs)
unfolding read_exact_body
take_step n out x xs bs r e (ys, here, more) =
    let count = min (n - length out) (length r.buf - r.pos) in
    let room : suc (length ys) ≡ length r.buf - r.pos =
      sym (ap length here) ∙ length-drop r.pos r.buf in
    let whole : (x ∷ ys) ++ coming r.input ≡ (x ∷ xs) ++ bs = ap (λ (t : Bytes). x ∷ t) more in
    let inside : count ≤ length (x ∷ ys) = omega (arith, room) in
    let inside' : count ≤ length (x ∷ xs) = omega (arith, room, e) in
    let taken : take count (drop r.pos r.buf) ≡ take count (x ∷ xs) =
      ap (take count) here
      ∙ sym (take-append count (x ∷ ys) (coming r.input) inside)
      ∙ ap (take count) whole
      ∙ take-append count (x ∷ xs) bs inside' in
    (
      record r { pos = r.pos + count },
      count,
      omega (arith, room, e),
      loop_unroll (read_exact_body n) (read_exact_body-IsRound n) out r
          ∙ ap
              (λ b. after_round (loop (read_exact_body n)) (
                (if b
                    then (if ltb r.pos (length r.buf)
                        then take_available n out
                        else (fill >>= λ _. return (inl out)))
                    else return (inr out))
                  r))
              (lt→ltb (length out) n (omega (arith, e)))
          ∙ ap
              (λ b.
                after_round (loop (read_exact_body n))
                  ((if b then take_available n out else (fill >>= λ _. return (inl out))) r))
              (lt→ltb r.pos (length r.buf) (omega (arith, room)))
          ∙ ap
              (λ (t : Bytes).
                loop (read_exact_body n) (out ++ t) (record r { pos = r.pos + count }))
              taken,
      ap (λ (t : Bytes). t ++ coming r.input)
            (sym (drop-drop r.pos count r.buf) ∙ ap (drop count) here)
          ∙ sym (drop-append count (x ∷ ys) (coming r.input) inside)
          ∙ ap (drop count) whole
          ∙ drop-append count (x ∷ xs) bs inside',
    )
