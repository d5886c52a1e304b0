-- ===== src/Rasvn/Conn/Rounds.antt =====
-- The operations of src/rasvn/conn/io.rs: none of them puts bytes back, and each round of their
-- loops that goes on takes some.
use svn.Base.{
  ℕ, zero, suc, ◌≤◌, ◌<◌, ◌≡◌, refl, sym, ap, subst, arith, List, [], ◌∷◌, ◌++◌, Bytes, text,
  ltb→lt, ◌^◌, length, drop, length-drop, length-append, get_elem?, ltb, ◌==◌, ◌||◌, Bool-cases,
  if◌then◌else◌, Option, none, some, ok, err, ◌⊎◌, inl, inr,
}
use svn.Base.Utf8.{from_utf8}
use svn.Rasvn.Conn.Read.{
  Arrival, bytes, failure, Reader, Step, Read, ◌>>=◌, after_step, return, fail, weight, weight_of,
  loop, after_round,
}
use svn.Rasvn.Conn.Io.{
  receive, fill, peek_at, advance, take_available, peek_body, peek_byte, consume_byte, skip_ws_body,
  skip_ws, require_ws, is_whitespace, is_digit, push_digit, next_digit, parse_digits_body,
  parse_digits, parse_word_body, parse_word, utf8_word, read_exact_body, read_exact_vec,
}
use svn.Rasvn.Conn.Progress.{
  AtMost, Less, Goes, Tame, Eats, IsRound, Tame-bind, Eats-first, return-Tame, if-Tame,
  Eats-IsRound, done-IsRound, if-IsRound, IsRound-last, loop-Tame, loop_unroll, Ends, Gives,
  loop-Gives,
}

pub receive-Less :
    (arrivals : List Arrival) (r : Reader)
    → r.input ≡ arrivals
    → Less (weight r) (receive arrivals r)
unfolding receive weight
receive-Less [] r e = omega arith
receive-Less (bytes [] ∷ rest) r e = omega (arith, ap weight_of e)
receive-Less (bytes (b ∷ bs) ∷ rest) r e =
    omega (arith, ap weight_of e, length-append r.buf (b ∷ bs))
receive-Less (failure x ∷ rest) r e = omega (arith, ap weight_of e)

compacted : Reader → Reader
compacted r = record r { buf = drop r.pos r.buf; pos = 0 }

weight-compacted : (r : Reader) → weight (compacted r) ≡ weight r
unfolding weight compacted
weight-compacted r = omega (arith, length-drop r.pos r.buf)

pub fill-Eats : Eats fill
unfolding fill compacted
fill-Eats r =
    subst (λ w. Less w (receive r.input (compacted r))) (weight-compacted r)
      (receive-Less r.input (compacted r) refl)

pub fail-Tame : (A : Type 0) (message : Bytes) → Tame {A = A} (fail message)
fail-Tame A message r = omega arith

pub fail-Eats_of : (A : Type 0) (message : Bytes) → Eats {A = A} (fail message)
fail-Eats_of A message r = omega arith

fail-IsRound : (S A : Type 0) (message : Bytes) → IsRound {S = S} {A = A} (fail message)
fail-IsRound S A message r = omega arith

-- A state that goes on behind what reads.
goes_on :
    {C S : Type 0} (A : Type 0) (m : Read C) (s : C → S)
    → Eats m
    → IsRound {A = A} (m >>= λ c. return (inl (s c)))
goes_on {S = S} A m s h =
    Eats-IsRound (m >>= λ c. return (inl (s c)))
      (Eats-first m (λ c. return (inl (s c))) h (λ c. return-Tame {A = S ⊎ A} (inl (s c))))

peek_at-IsRound : (o : Option ℕ) → IsRound (peek_at o)
peek_at-IsRound (some b) = done-IsRound (Unit {0}) b
peek_at-IsRound none = goes_on ℕ fill (λ u. u) fill-Eats

pub peek_body-IsRound : (u : Unit {0}) → IsRound (peek_body u)
unfolding peek_body
peek_body-IsRound u r = peek_at-IsRound (get_elem? r.buf r.pos) r

pub peek_byte-Tame : Tame peek_byte
unfolding peek_byte
peek_byte-Tame = loop-Tame peek_body peek_body-IsRound tt

-- The byte that is peeked is the one at the position.
abbrev pub IsHere : ℕ → Reader → Type 0
IsHere b r = get_elem? r.buf r.pos ≡ some b

fill-Ends : (s : Step (Unit {0})) → Ends IsHere (after_step s (λ u. return (inl u)))
fill-Ends (r, ok u) = tt
fill-Ends (r, err e) = tt

peek_at-Ends : (o : Option ℕ) (r : Reader) → get_elem? r.buf r.pos ≡ o → Ends IsHere (peek_at o r)
peek_at-Ends (some b) r e = e
peek_at-Ends none r e = fill-Ends (fill r)

pub peek_byte-Gives : (r : Reader) → Gives IsHere (peek_byte r)
unfolding peek_byte peek_body
peek_byte-Gives r =
    loop-Gives peek_body IsHere (λ u r. peek_at-Ends (get_elem? r.buf r.pos) r refl) tt r

elem_in : (bs : Bytes) (i b : ℕ) → get_elem? bs i ≡ some b → i < length bs
elem_in [] i b e = absurd (cc e)
elem_in (x ∷ bs) zero b e = omega arith
elem_in (x ∷ bs) (suc i) b e = omega (arith, elem_in bs i b e)

pub consume_byte-Eats : Eats consume_byte
unfolding consume_byte
consume_byte-Eats r = go (peek_byte r) (peek_byte-Tame r) (peek_byte-Gives r)
  where
    go :
        (s : Step ℕ) → AtMost (weight r) s → Gives IsHere s → Less (weight r) (after_step s advance)
    go (r', ok b) h e = advanced r' b (elem_in r'.buf r'.pos b e) h
      where
        advanced :
            (r' : Reader) (b : ℕ)
            → r'.pos < length r'.buf
            → weight r' ≤ weight r
            → Less (weight r) (advance b r')
        advanced r' b lt h = unfold weight in omega (arith, lt, h)
    go (r', err e) h g = h

pub skip_ws_body-IsRound : (u : Unit {0}) → IsRound (skip_ws_body u)
unfolding skip_ws_body
skip_ws_body-IsRound u = IsRound-last peek_byte _ peek_byte-Tame λ b.
    if-IsRound (is_whitespace b) (consume_byte >>= λ _. return (inl tt)) (return (inr tt))
      (goes_on (Unit {0}) consume_byte (λ _. tt) consume_byte-Eats)
      (done-IsRound {0, 0} (Unit {0}) tt)

pub skip_ws_unroll : (r : Reader) → skip_ws r ≡ after_round (loop skip_ws_body) (skip_ws_body tt r)
unfolding skip_ws
skip_ws_unroll r = loop_unroll skip_ws_body skip_ws_body-IsRound tt r

pub skip_ws-Tame : Tame skip_ws
unfolding skip_ws
skip_ws-Tame = loop-Tame skip_ws_body skip_ws_body-IsRound tt

pub require_ws-Eats : Eats require_ws
unfolding require_ws
require_ws-Eats = Eats-first consume_byte _ consume_byte-Eats λ b.
    if-Tame (is_whitespace b) (return tt) (fail (text "expected whitespace")) (return-Tame {0} tt)
      (fail-Tame (Unit {0}) (text "expected whitespace"))

next_digit-Tame : (o : Option ℕ) → Tame (next_digit o)
next_digit-Tame none = fail-Tame (ℕ ⊎ ℕ) (text "number overflow")
next_digit-Tame (some n) = return-Tame {A = ℕ ⊎ ℕ} (inl n)

pub parse_digits_body-IsRound : (n : ℕ) → IsRound (parse_digits_body n)
unfolding parse_digits_body
parse_digits_body-IsRound n = IsRound-last peek_byte _ peek_byte-Tame λ b.
    if-IsRound (is_digit b) (consume_byte >>= λ _. next_digit (push_digit n b)) (return (inr n))
      (Eats-IsRound (consume_byte >>= λ _. next_digit (push_digit n b))
        (Eats-first consume_byte _ consume_byte-Eats (λ _. next_digit-Tame (push_digit n b))))
      (done-IsRound ℕ n)

pub parse_digits-Tame : Tame parse_digits
unfolding parse_digits
parse_digits-Tame = loop-Tame parse_digits_body parse_digits_body-IsRound 0

pub parse_word_body-IsRound : (acc : Bytes) → IsRound (parse_word_body acc)
unfolding parse_word_body
parse_word_body-IsRound acc = IsRound-last peek_byte _ peek_byte-Tame λ b.
    if-IsRound (is_whitespace b) (return (inr acc)) _ (done-IsRound Bytes acc) (
      if-IsRound (b == 40 || b == 41 || b == 58) (fail (text "invalid word token")) _
        (fail-IsRound Bytes Bytes (text "invalid word token"))
        (goes_on Bytes consume_byte (λ c. acc ++ (c ∷ [])) consume_byte-Eats))

utf8_word-Tame : (o : Option Bytes) → Tame (utf8_word o)
utf8_word-Tame none = fail-Tame Bytes (text "non-utf8 word")
utf8_word-Tame (some w) = return-Tame w

pub parse_word-Tame : Tame parse_word
unfolding parse_word
parse_word-Tame =
    Tame-bind (loop parse_word_body []) _ (loop-Tame parse_word_body parse_word_body-IsRound [])
      (λ w. utf8_word-Tame (from_utf8 w))

take_available-less :
    (n : ℕ) (out : Bytes) (r : Reader)
    → length out < n
    → r.pos < length r.buf
    → Goes (weight r) (take_available n out r)
unfolding weight
take_available-less n out r h k = omega (arith, h, k)

pub read_exact_body-IsRound : (n : ℕ) (out : Bytes) → IsRound (read_exact_body n out)
unfolding read_exact_body
read_exact_body-IsRound n out r = elim (Bool-cases (ltb (length out) n)) [
  | inr full ↦
      subst
        (λ b. Goes (weight r) (
          (if b
              then (if ltb r.pos (length r.buf)
                  then take_available n out
                  else (fill >>= λ _. return (inl out)))
              else return (inr out))
            r))
        (sym full) (done-IsRound Bytes out r)
  | inl more ↦
      subst
        (λ b. Goes (weight r) (
          (if b
              then (if ltb r.pos (length r.buf)
                  then take_available n out
                  else (fill >>= λ _. return (inl out)))
              else return (inr out))
            r))
        (sym more)
        (elim (Bool-cases (ltb r.pos (length r.buf))) [
          | inl some_left ↦
              subst
                (λ b.
                  Goes (weight r)
                    ((if b then take_available n out else (fill >>= λ _. return (inl out))) r))
                (sym some_left)
                (take_available-less n out r (ltb→lt (length out) n more)
                  (ltb→lt r.pos (length r.buf) some_left))
          | inr none_left ↦
              subst
                (λ b.
                  Goes (weight r)
                    ((if b then take_available n out else (fill >>= λ _. return (inl out))) r))
                (sym none_left) (goes_on Bytes fill (λ _. out) fill-Eats r)
        ])
]

pub read_exact_vec-Tame : (n : ℕ) → Tame (read_exact_vec n)
unfolding read_exact_vec
read_exact_vec-Tame n =
    if-Tame (ltb n (2 ^ 63)) (loop (read_exact_body n) []) _
      (loop-Tame (read_exact_body n) (read_exact_body-IsRound n) [])
      (fail-Tame Bytes (text "string length too large"))
