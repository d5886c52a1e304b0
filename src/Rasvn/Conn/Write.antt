-- ===== src/Rasvn/Conn/Write.antt =====
-- The writing operations of src/rasvn/conn/io.rs, without SASL, and what is written to report an
-- error while the other side may still be sending. The write timeout belongs to the stream.
use svn.Base.{
  ℕ, zero, suc, ◌+◌, List, [], ◌∷◌, ◌++◌, Bytes, text, bytes_eq, take, drop, length, ltb, Bool,
  true, false, ◌||◌, if◌then◌else◌, Option, none, some, Result, ok, err, SvnError, io,
}
use svn.Rasvn.Item.{SvnItem, word, number, string, list, items, as_word, to_list, encode_item}
use svn.Rasvn.Parse.Failure.{display}
use svn.Rasvn.Conn.Read.{Reader, Step, Read, ◌>>=◌, return}
use svn.Rasvn.Conn.Io.{is_whitespace, receive, read_item}

-- What one write that does not wait comes to: some bytes written, an error, or nothing yet, and
-- then whether a read would return at once. The list of them ends when the deadline has passed.
pub data Attempt : Type 0 where
  wrote : ℕ → Attempt
  refused : Bytes → Attempt
  pending : Bool → Attempt

pub record Writer : Type 0 where
  pub sent : Bytes
  pub attempts : List Attempt

abbrev pub leading_whitespace : Bytes → ℕ
leading_whitespace [] = 0
leading_whitespace (b ∷ bs) =
    let more = leading_whitespace bs in if is_whitespace b then suc more else 0

unfoldable pub skip_buffered : Reader → Reader
skip_buffered r = record r { pos = r.pos + leading_whitespace (drop r.pos r.buf) }

unfoldable pub compact : Reader → Reader
compact r = record r { buf = drop r.pos r.buf; pos = 0 }

abbrev pub found : Reader → Read Bool → Step Bool
found r otherwise = if ltb r.pos (length r.buf) then (r, ok true) else otherwise (compact r)

unfoldable pub after_arrival : Step (Unit {0}) → Step Bool
unfolding skip_buffered compact
after_arrival (r, err e) = (r, err e)
after_arrival (r, ok _) = found (skip_buffered r) (λ r'. (r', ok false))

abbrev pub look_further : Bool → Read Bool
look_further true r = after_arrival (receive r.input r)
look_further false r = (r, ok false)

-- `arrived` tells whether the read that does not wait returns something.
unfoldable pub data_available : Bool → Read Bool
unfolding skip_buffered after_arrival compact
data_available arrived r = found (skip_buffered r) (look_further arrived)

abbrev pub is_abort : SvnItem → Bool
is_abort (list xs) = names_abort (to_list xs)
  where
    word_is_abort : Option Bytes → Bool
    word_is_abort none = false
    word_is_abort (some cmd) = bytes_eq cmd (text "abort-edit")

    names_abort : List SvnItem → Bool
    names_abort [] = false
    names_abort (x ∷ xs) = word_is_abort (as_word x)
is_abort _ = false

unfoldable pub failure_item : SvnError → SvnItem
failure_item e = list (
    items (
      word (text "failure")
      ∷ list (items (list (items (number 1 ∷ string (display e) ∷ string [] ∷ number 0 ∷ [])) ∷ []))
      ∷ []))

unfoldable pub success_item : SvnItem
success_item = list (items (word (text "success") ∷ list (items []) ∷ []))

-- What was written, and whether an abort was read.
abbrev pub Early : Type 0
Early = Bytes × Result Bool

abbrev pub after_item : Bool → Bytes → (Bool → Bytes → Read Early) → Step SvnItem → Step Early
after_item done sent again (r, err e) = (r, ok (sent, err e))
after_item done sent again (r, ok x) = again (done || is_abort x) sent r

abbrev pub after_available : Bool → Bytes → (Bool → Bytes → Read Early) → Step Bool → Step Early
after_available done sent again (r, err e) = (r, ok (sent, err e))
after_available done sent again (r, ok false) = again done sent r
after_available done sent again (r, ok true) = after_item done sent again (read_item r)

-- The stream: `write_all` and `flush` answer to what was written before.
module _ (write_all : Bytes → Bytes → Result (Unit {0})) (flush : Bytes → Result (Unit {0})) where
  abbrev pub after_write_all : Bytes → Writer → Result (Unit {0}) → Writer × Result (Unit {0})
  after_write_all cleartext w (err e) = (w, err e)
  after_write_all cleartext w (ok _) =
      (record w { sent = w.sent ++ cleartext }, flush (w.sent ++ cleartext))

  unfoldable pub write_wire_bytes : Bytes → Writer → Writer × Result (Unit {0})
  write_wire_bytes cleartext w = after_write_all cleartext w (write_all w.sent cleartext)

  unfoldable pub write_item : SvnItem → Writer → Writer × Result (Unit {0})
  unfolding write_wire_bytes
  write_item x = write_wire_bytes (encode_item x [] ++ (10 ∷ []))

  unfoldable pub write_cmd_success : Writer → Writer × Result (Unit {0})
  unfolding write_item success_item
  write_cmd_success = write_item success_item

  abbrev pub flushed : Bool → Result (Unit {0}) → Result Bool
  flushed done (err e) = err e
  flushed done (ok _) = ok done

  -- `wire` is what is left to write, `done` whether an abort was read meanwhile.
  unfoldable pub write_early : List Attempt → Bytes → Bool → Bytes → Read Early
  write_early attempts [] done sent r = (r, ok (sent, flushed done (flush sent)))
  write_early [] (b ∷ wire) done sent r = (r, ok (sent, err (io (text "write timed out"))))
  write_early (wrote zero ∷ more) (b ∷ wire) done sent r =
      (r, ok (sent, err (io (text "write returned 0 bytes"))))
  write_early (wrote (suc n) ∷ more) (b ∷ wire) done sent r =
      write_early more (drop n wire) done (sent ++ take (suc n) (b ∷ wire)) r
  write_early (refused e ∷ more) (b ∷ wire) done sent r = (r, ok (sent, err (io e)))
  write_early (pending arrived ∷ more) (b ∷ wire) done sent r =
      after_available done sent (write_early more (b ∷ wire)) (data_available arrived r)

  unfoldable pub write_cmd_failure_early : SvnError → Writer → Read (Writer × Result Bool)
  unfolding write_early failure_item
  write_cmd_failure_early e w =
      write_early w.attempts (encode_item (failure_item e) [] ++ (10 ∷ [])) false w.sent >>= λ out.
      return (record w { sent = out.0 }, out.1)
