-- ===== src/Rasvn/Conn/Meanwhile.antt =====
-- Reporting an error while the other side may still be sending (src/rasvn/conn/io.rs) puts no bytes
-- back.
use svn.Base.{
  ℕ, zero, suc, ◌≤◌, ◌≡◌, refl, arith, List, [], ◌∷◌, ◌++◌, Bytes, length, drop, take, length-drop,
  ltb, Bool, true, false, ◌||◌, if◌then◌else◌, Result, ok, err, SvnError,
}
use svn.Rasvn.Item.{SvnItem, encode_item}
use svn.Rasvn.Conn.Read.{Reader, Step, Read, weight}
use svn.Rasvn.Conn.Io.{receive, read_item}
use svn.Rasvn.Conn.Write.{
  Attempt, wrote, refused, pending, Writer, skip_buffered, compact, found, after_arrival,
  look_further, data_available, is_abort, failure_item, write_early, write_cmd_failure_early, Early,
  after_item, after_available,
}
use svn.Rasvn.Conn.Progress.{AtMost, Less, Tame, Tame-bind, Eats-Tame, return-Tame}
use svn.Rasvn.Conn.Rounds.{receive-Less}
use svn.Rasvn.Conn.Items.{read_item-Eats}

skip_buffered-weight : (r : Reader) → weight (skip_buffered r) ≤ weight r
unfolding skip_buffered weight
skip_buffered-weight r = omega arith

compact-weight : (r : Reader) → weight (compact r) ≡ weight r
unfolding compact weight
compact-weight r = omega (arith, length-drop r.pos r.buf)

pub AtMost-widen : {A : Type 0} (v w : ℕ) (s : Step A) → AtMost v s → v ≤ w → AtMost w s
AtMost-widen v w (r, x) h k = omega (arith, h, k)

found-Tame : (m : Read Bool) → Tame m → Tame (λ r. found r m)
found-Tame m h r = by_test (ltb r.pos (length r.buf))
  where
    by_test : (b : Bool) → AtMost (weight r) (if b then (r, ok true) else m (compact r))
    by_test true = omega arith
    by_test false =
        AtMost-widen (weight (compact r)) (weight r) (m (compact r)) (h (compact r))
          (omega (arith, compact-weight r))

after_arrival-AtMost : (w : ℕ) (s : Step (Unit {0})) → Less w s → AtMost w (after_arrival s)
unfolding after_arrival
after_arrival-AtMost w (r, err e) h = h
after_arrival-AtMost w (r, ok u) h =
    AtMost-widen (weight (skip_buffered r)) w (found (skip_buffered r) (λ r'. (r', ok false)))
      (found-Tame (λ r'. (r', ok false)) (λ r'. return-Tame {0} false r') (skip_buffered r))
      (omega (arith, h, skip_buffered-weight r))

look_further-Tame : (arrived : Bool) → Tame (look_further arrived)
look_further-Tame true r =
    after_arrival-AtMost (weight r) (receive r.input r) (receive-Less r.input r refl)
look_further-Tame false r = omega arith

pub data_available-Tame : (arrived : Bool) → Tame (data_available arrived)
unfolding data_available
data_available-Tame arrived r =
    AtMost-widen (weight (skip_buffered r)) (weight r)
      (found (skip_buffered r) (look_further arrived))
      (found-Tame (look_further arrived) (look_further-Tame arrived) (skip_buffered r))
      (skip_buffered-weight r)

after_item-AtMost :
    (done : Bool) (sent : Bytes) (again : Bool → Bytes → Read Early) (w : ℕ) (s : Step SvnItem)
    → ((d : Bool) (b : Bytes) → Tame (again d b))
    → AtMost w s
    → AtMost w (after_item done sent again s)
after_item-AtMost done sent again w (r, err e) h k = k
after_item-AtMost done sent again w (r, ok x) h k =
    AtMost-widen (weight r) w (again (done || is_abort x) sent r) (h (done || is_abort x) sent r) k

after_available-AtMost :
    (done : Bool) (sent : Bytes) (again : Bool → Bytes → Read Early) (w : ℕ) (s : Step Bool)
    → ((d : Bool) (b : Bytes) → Tame (again d b))
    → AtMost w s
    → AtMost w (after_available done sent again s)
after_available-AtMost done sent again w (r, err e) h k = k
after_available-AtMost done sent again w (r, ok false) h k =
    AtMost-widen (weight r) w (again done sent r) (h done sent r) k
after_available-AtMost done sent again w (r, ok true) h k =
    AtMost-widen (weight r) w (after_item done sent again (read_item r))
      (after_item-AtMost done sent again (weight r) (read_item r) h
        (Eats-Tame read_item read_item-Eats r))
      k

module _ (write_all : Bytes → Bytes → Result (Unit {0})) (flush : Bytes → Result (Unit {0})) where
  write_early-Tame :
      (attempts : List Attempt) (wire : Bytes) (done : Bool) (sent : Bytes)
      → Tame (write_early write_all flush attempts wire done sent)
  unfolding write_early
  write_early-Tame [] [] done sent r = omega arith
  write_early-Tame (a ∷ more) [] done sent r = omega arith
  write_early-Tame [] (b ∷ wire) done sent r = omega arith
  write_early-Tame (wrote zero ∷ more) (b ∷ wire) done sent r = omega arith
  write_early-Tame (wrote (suc n) ∷ more) (b ∷ wire) done sent r =
      write_early-Tame more (drop n wire) done (sent ++ take (suc n) (b ∷ wire)) r
  write_early-Tame (refused e ∷ more) (b ∷ wire) done sent r = omega arith
  write_early-Tame (pending arrived ∷ more) (b ∷ wire) done sent r =
      after_available-AtMost done sent (write_early write_all flush more (b ∷ wire)) (weight r)
        (data_available arrived r) (write_early-Tame more (b ∷ wire))
        (data_available-Tame arrived r)

  pub write_cmd_failure_early-Tame :
      (e : SvnError) (w : Writer) → Tame (write_cmd_failure_early write_all flush e w)
  unfolding write_cmd_failure_early
  write_cmd_failure_early-Tame e w =
      Tame-bind
        (write_early write_all flush w.attempts (encode_item (failure_item e) [] ++ (10 ∷ [])) false
          w.sent)
        _ (write_early-Tame w.attempts (encode_item (failure_item e) [] ++ (10 ∷ [])) false w.sent)
        (λ out. return-Tame {0} {A = Writer × Result Bool} (record w { sent = out.0 }, out.1))
