-- ===== src/Rasvn/Conn/Items.antt =====
-- The items of src/rasvn/conn/io.rs: reading one takes something, and so do the rounds of a list.
use svn.Base.{
  ℕ, arith, Bytes, [], ◌∷◌, text, length, leb, ◌==◌, if◌then◌else◌, Option, none, some, ◌⊎◌, inl,
}
use svn.Base.Words.{usize_try_from}
use svn.Rasvn.Item.{SvnItem, number, string}
use svn.Rasvn.Conn.Read.{Reader, Read, ◌>>=◌, return, fail, loop}
use svn.Rasvn.Conn.Io.{
  peek_byte, consume_byte, skip_ws, require_ws, is_digit, parse_digits, parse_word, read_exact_vec,
  word_item, string_of, number_or_string, word_or_bool, read_atom, Stack, close_list, push_atom,
  read_list_body, read_list, read_item, max_list_depth, peek_body, skip_ws_body, parse_digits_body,
  parse_word_body, read_exact_body,
}
use svn.Rasvn.Conn.Progress.{
  Tame, Eats, IsRound, Tame-bind, Eats-first, Eats-last, Eats-Tame, return-Tame, if-Eats,
  Eats-IsRound, loop-Tame,
}
use svn.Rasvn.Conn.Runs.{HasRun, loop-HasRun}
use svn.Rasvn.Conn.Rounds.{
  fail-Eats_of, peek_byte-Tame, consume_byte-Eats, skip_ws-Tame, require_ws-Eats, parse_digits-Tame,
  parse_word-Tame, read_exact_vec-Tame, peek_body-IsRound, skip_ws_body-IsRound,
  parse_digits_body-IsRound, parse_word_body-IsRound, read_exact_body-IsRound,
}

-- What ends with whitespace that has to stand there reads it.
ended : (A : Type 0) (m : Read A) → Tame m → Eats (m >>= λ a. require_ws >>= λ _. return a)
ended A m h = Eats-last m _ h λ a. Eats-first require_ws _ require_ws-Eats (λ _. return-Tame {0} a)

string_of-Eats : (o : Option ℕ) → Eats (string_of o)
string_of-Eats none = fail-Eats_of SvnItem (text "string length too large")
string_of-Eats (some len) =
    Eats-last (read_exact_vec len) _ (read_exact_vec-Tame len)
      λ bs. Eats-first require_ws _ require_ws-Eats (λ _. return-Tame {0} (string bs))

number_or_string-Eats : (n : ℕ) → Eats (number_or_string n)
unfolding number_or_string
number_or_string-Eats n = Eats-last peek_byte _ peek_byte-Tame λ next.
    if-Eats (next == 58) (consume_byte >>= λ _. string_of (usize_try_from n))
      (require_ws >>= λ _. return (number n))
      (Eats-first consume_byte _ consume_byte-Eats
        (λ _. Eats-Tame (string_of (usize_try_from n)) (string_of-Eats (usize_try_from n))))
      (Eats-first require_ws _ require_ws-Eats (λ _. return-Tame {0} (number n)))

word_or_bool-Eats : Eats word_or_bool
unfolding word_or_bool
word_or_bool-Eats =
    Eats-last parse_word _ parse_word-Tame
      λ w. Eats-first require_ws _ require_ws-Eats (λ _. return-Tame {0} (word_item w))

pub read_atom-Eats : Eats read_atom
unfolding read_atom
read_atom-Eats = Eats-last skip_ws _ skip_ws-Tame λ _. Eats-last peek_byte _ peek_byte-Tame λ ch.
    if-Eats (is_digit ch) (parse_digits >>= number_or_string) word_or_bool
      (Eats-last parse_digits number_or_string parse_digits-Tame number_or_string-Eats)
      word_or_bool-Eats

close_list-Tame : (stack : Stack) → Tame (close_list stack)
close_list-Tame [] r = omega arith
close_list-Tame (completed ∷ []) r = omega arith
close_list-Tame (completed ∷ parent ∷ more) r = omega arith

push_atom-Tame : (stack : Stack) (atom : SvnItem) → Tame (push_atom stack atom)
push_atom-Tame [] atom r = omega arith
push_atom-Tame (top ∷ more) atom r = omega arith

consume_then-Eats :
    (A : Type 0) (m : Read A) → Tame m → Eats (consume_byte >>= λ _. require_ws >>= λ _. m)
consume_then-Eats A m h =
    Eats-first consume_byte _ consume_byte-Eats
      λ _. Tame-bind require_ws _ (Eats-Tame require_ws require_ws-Eats) (λ _. h)

read_list_body-Eats : (stack : Stack) → Eats (read_list_body stack)
unfolding read_list_body
read_list_body-Eats stack = Eats-last skip_ws _ skip_ws-Tame λ _.
    Eats-last peek_byte _ peek_byte-Tame λ next.
      if-Eats (next == 41) (consume_byte >>= λ _. require_ws >>= λ _. close_list stack) _
        (consume_then-Eats (Stack ⊎ SvnItem) (close_list stack) (close_list-Tame stack))
        (if-Eats (next == 40)
          (if leb max_list_depth (length stack)
            then fail (text "list nesting too deep")
            else (consume_byte >>= λ _. require_ws >>= λ _. return (inl ([] ∷ stack))))
          (read_atom >>= push_atom stack)
          (if-Eats (leb max_list_depth (length stack)) (fail (text "list nesting too deep")) _
            (fail-Eats_of (Stack ⊎ SvnItem) (text "list nesting too deep"))
            (consume_then-Eats (Stack ⊎ SvnItem) (return (inl ([] ∷ stack)))
              (return-Tame {0} {A = Stack ⊎ SvnItem} (inl ([] ∷ stack)))))
          (Eats-first read_atom (push_atom stack) read_atom-Eats (push_atom-Tame stack)))

pub read_list_body-IsRound : (stack : Stack) → IsRound (read_list_body stack)
read_list_body-IsRound stack = Eats-IsRound (read_list_body stack) (read_list_body-Eats stack)

-- The six loops of the item reader end, in whatever state they are and whatever the reads of the
-- stream return, after at most one round more than the bytes and reads that are to come: the wait
-- for a byte, and the loops over whitespace, digits, a word, the bytes of a string, and the items of
-- open lists. The outcome is that of the last round.
pub read_loops-HasRun :
    (n : ℕ) (out : Bytes) (stack : Stack) (r : Reader)
    → HasRun peek_body tt r
      × HasRun skip_ws_body tt r
      × HasRun parse_digits_body n r
      × HasRun parse_word_body out r
      × HasRun (read_exact_body n) out r
      × HasRun read_list_body stack r
read_loops-HasRun n out stack r = (
  loop-HasRun peek_body peek_body-IsRound tt r,
  loop-HasRun skip_ws_body skip_ws_body-IsRound tt r,
  loop-HasRun parse_digits_body parse_digits_body-IsRound n r,
  loop-HasRun parse_word_body parse_word_body-IsRound out r,
  loop-HasRun (read_exact_body n) (read_exact_body-IsRound n) out r,
  loop-HasRun read_list_body read_list_body-IsRound stack r,
)

read_list-Eats : Eats read_list
unfolding read_list
read_list-Eats =
    consume_then-Eats SvnItem (loop read_list_body ([] ∷ []))
      (loop-Tame read_list_body read_list_body-IsRound ([] ∷ []))

pub read_item-Eats : Eats read_item
unfolding read_item
read_item-Eats = Eats-last skip_ws _ skip_ws-Tame λ _.
    Eats-last peek_byte _ peek_byte-Tame
      λ ch. if-Eats (ch == 40) read_list read_atom read_list-Eats read_atom-Eats
