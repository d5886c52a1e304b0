-- ===== src/Rasvn/Edit/Drive/Rounds.antt =====
-- Every round of the editor drive (src/rasvn/edit/drive.rs) that goes on has read an item.
use svn.Base.{
  ℕ, suc, ◌≤◌, ◌<◌, ◌≡◌, arith, List, Bytes, text, bytes_eq, Bool, true, false, not, if◌then◌else◌,
  Option, Result, ok, err, SvnError, protocol, io, invalid_url, invalid_path, auth_unavailable,
  auth_failed, server, ◌⊎◌, inl, inr,
}
use svn.Editor.{EditorEvent}
use svn.Rasvn.Item.{SvnItem}
use svn.Rasvn.Edit.Decode.{parse_editor_event}
use svn.Rasvn.Conn.Read.{Reader, Step, weight, after_round}
use svn.Rasvn.Conn.Io.{read_item}
use svn.Rasvn.Conn.Write.{Writer, write_cmd_success, write_cmd_failure_early}
use svn.Rasvn.Conn.Progress.{AtMost, Less, Goes, Tame, IsRound, if-Tame, loop-Tame, loop_unroll}
use svn.Rasvn.Conn.Runs.{Runs, loop-HasRun}
use svn.Rasvn.Conn.Items.{read_item-Eats}
use svn.Rasvn.Conn.Meanwhile.{AtMost-widen, write_cmd_failure_early-Tame}
use svn.Rasvn.Edit.Drive.{
  Command, ends_drain, first_word, after_drained, drain_body, drain_until_abort_or_success, notify,
  after_drain, after_failure, handle_editor_consumer_error, after_replay, after_success,
  after_close, after_event, on_parsed, on_command, on_item, after_read, drive_body, drive_editor,
  parse_command_item,
}

drained-Goes : (w : ℕ) (s : Step SvnItem) → Less w s → Goes w (after_drained s)
drained-Goes w (r, ok x) h = by_test (ends_drain (first_word x))
  where
    by_test :
        (b : Bool)
        → Goes {0, 0} {S = Unit {0}} {A = Unit {0}} w (r, ok (if b then inr tt else inl tt))
    by_test true = omega arith
    by_test false = h
drained-Goes w (r, err (protocol m)) h = by_test (bytes_eq m (text "unexpected EOF"))
  where
    by_test :
        (b : Bool)
        → Goes {0, 0} {S = Unit {0}} {A = Unit {0}} w
            (r, (if b then ok (inr tt) else err (protocol m)))
    by_test true = h
    by_test false = h
drained-Goes w (r, err (invalid_url m)) h = h
drained-Goes w (r, err (invalid_path m)) h = h
drained-Goes w (r, err (io m)) h = h
drained-Goes w (r, err auth_unavailable) h = h
drained-Goes w (r, err (auth_failed m)) h = h
drained-Goes w (r, err (server e)) h = h

drain_body-IsRound : (u : Unit {0}) → IsRound (drain_body u)
unfolding drain_body
drain_body-IsRound u r = drained-Goes (weight r) (read_item r) (read_item-Eats r)

drain-Tame : Tame drain_until_abort_or_success
unfolding drain_until_abort_or_success
drain-Tame = loop-Tame drain_body drain_body-IsRound tt

module _ {H : Type 0} (on_event : H → EditorEvent → H × Result (Unit {0}))
    (write_all : Bytes → Bytes → Result (Unit {0})) (flush : Bytes → Result (Unit {0}))
    (from_utf8_lossy : Bytes → Bytes) where
  after_drain-AtMost :
      (v : ℕ) (s : Option H × Writer) (e : SvnError) (t : Step (Unit {0}))
      → AtMost v t
      → AtMost v (after_drain on_event write_all flush from_utf8_lossy s e t)
  after_drain-AtMost v s e (r, ok u) h = h
  after_drain-AtMost v s e (r, err e') h = h

  after_failure-AtMost :
      (v : ℕ) (s : Option H) (e : SvnError) (drain : Bool) (t : Step (Writer × Result Bool))
      → AtMost v t
      → AtMost v (after_failure on_event write_all flush from_utf8_lossy s e drain t)
  after_failure-AtMost v s e drain (r, err e') h = h
  after_failure-AtMost v s e drain (r, ok (w, err e')) h = h
  after_failure-AtMost v s e true (r, ok (w, ok false)) h =
      AtMost-widen (weight r) v
        (after_drain on_event write_all flush from_utf8_lossy (s, w) e
          (drain_until_abort_or_success r))
        (after_drain-AtMost (weight r) (s, w) e (drain_until_abort_or_success r) (drain-Tame r)) h
  after_failure-AtMost v s e true (r, ok (w, ok true)) h = h
  after_failure-AtMost v s e false (r, ok (w, ok done)) h = h

  consumer_error-Tame :
      (s : Option H) (w : Writer) (e : SvnError) (drain : Bool)
      → Tame (handle_editor_consumer_error on_event write_all flush from_utf8_lossy (s, w) e drain)
  unfolding handle_editor_consumer_error
  consumer_error-Tame s w e drain r =
      after_failure-AtMost (weight r) s e drain (write_cmd_failure_early write_all flush e w r)
        (write_cmd_failure_early-Tame write_all flush e w r)

  after_replay-Tame :
      (n : Option H × Result (Unit {0})) (w : Writer)
      → Tame (after_replay on_event write_all flush from_utf8_lossy n w)
  after_replay-Tame (s, err e) w r = consumer_error-Tame s w e false r
  after_replay-Tame (s, ok u) w r = omega arith

  after_success-Tame :
      (s : Option H) (n : Writer × Result (Unit {0}))
      → Tame (after_success on_event write_all flush from_utf8_lossy s n)
  after_success-Tame s (w, err e) r = omega arith
  after_success-Tame s (w, ok u) r = omega arith

  after_close-Tame :
      (n : Option H × Result (Unit {0})) (w : Writer)
      → Tame (after_close on_event write_all flush from_utf8_lossy n w)
  after_close-Tame (s, err e) w = consumer_error-Tame s w e false
  after_close-Tame (s, ok u) w = after_success-Tame s (write_cmd_success write_all flush w)

  after_event-Tame :
      (n : Option H × Result (Unit {0})) (w : Writer)
      → Tame (after_event on_event write_all flush from_utf8_lossy n w)
  after_event-Tame (s, err e) w r = consumer_error-Tame s w e true r
  after_event-Tame (s, ok u) w r = omega arith

  on_parsed-Tame :
      (s : Option H) (w : Writer) (parsed : Result EditorEvent)
      → Tame (on_parsed on_event write_all flush from_utf8_lossy (s, w) parsed)
  on_parsed-Tame s w (err e) = consumer_error-Tame s w e true
  on_parsed-Tame s w (ok event) =
      after_event-Tame (notify on_event write_all flush from_utf8_lossy s event) w

  on_command-Tame :
      (for_replay : Bool) (s : Option H) (w : Writer) (cmd : Bytes) (params : List SvnItem)
      → Tame (on_command on_event write_all flush from_utf8_lossy for_replay (s, w) (cmd, params))
  unfolding on_command
  on_command-Tame for_replay s w cmd params =
      if-Tame (bytes_eq cmd (text "failure")) _ _ (λ r. omega arith)
        (if-Tame (bytes_eq cmd (text "finish-replay")) _ _
          (if-Tame (not for_replay) _ _ (λ r. omega arith) (after_replay-Tame _ w))
          (if-Tame (bytes_eq cmd (text "close-edit")) _ _ (after_close-Tame _ w) (
            if-Tame (bytes_eq cmd (text "abort-edit")) _ _ (after_close-Tame _ w)
              (on_parsed-Tame s w (parse_editor_event cmd params)))))

  on_item-Tame :
      (for_replay : Bool) (s : Option H) (w : Writer) (command : Result Command)
      → Tame (on_item on_event write_all flush from_utf8_lossy for_replay (s, w) command)
  on_item-Tame for_replay s w (err e) = consumer_error-Tame s w e true
  on_item-Tame for_replay s w (ok (cmd, params)) = on_command-Tame for_replay s w cmd params

  AtMost-Goes : {S A : Type 0} (v u : ℕ) (t : Step (S ⊎ A)) → AtMost v t → v < u → Goes u t
  AtMost-Goes v u (r, ok (inl s)) h k = omega (arith, h, k)
  AtMost-Goes v u (r, ok (inr a)) h k = omega (arith, h, k)
  AtMost-Goes v u (r, err e) h k = omega (arith, h, k)

  after_read-Goes :
      (for_replay : Bool) (s : Option H) (w : Writer) (v : ℕ) (t : Step SvnItem)
      → Less v t
      → Goes v (after_read on_event write_all flush from_utf8_lossy for_replay (s, w) t)
  after_read-Goes for_replay s w v (r, err e) h = h
  after_read-Goes for_replay s w v (r, ok x) h =
      AtMost-Goes (weight r) v
        (on_item on_event write_all flush from_utf8_lossy for_replay (s, w) (parse_command_item x)
          r)
        (on_item-Tame for_replay s w (parse_command_item x) r) h

  pub drive_body-IsRound :
      (for_replay : Bool) (s : Option H × Writer)
      → IsRound (drive_body on_event write_all flush from_utf8_lossy for_replay s)
  unfolding drive_body
  drive_body-IsRound for_replay (s, w) r =
      after_read-Goes for_replay s w (weight r) (read_item r) (read_item-Eats r)

  -- A drive is its first round and then the drive from there.
  pub drive_editor_unroll :
      (for_replay : Bool) (s : Option H × Writer) (r : Reader)
      → drive_editor on_event write_all flush from_utf8_lossy for_replay s r
        ≡ after_round
            (drive_editor on_event write_all flush from_utf8_lossy for_replay)
            (drive_body on_event write_all flush from_utf8_lossy for_replay s r)
  unfolding drive_editor
  drive_editor_unroll for_replay =
      loop_unroll (drive_body on_event write_all flush from_utf8_lossy for_replay)
        (drive_body-IsRound for_replay)

  -- The editor drive ends, from any state and whatever the stream holds and the handler, the writes
  -- and the report of an error come to: there are at most as many rounds as bytes and reads that are
  -- to come, and one more, and the drive's outcome is that of the last of them. The loop that drains
  -- the stream behind an error ends in the same way.
  pub drive_editor-HasRun :
      (for_replay : Bool) (s : Option H × Writer) (r : Reader)
      → ((n : ℕ) × (n ≤ suc (weight r))
          × Runs
              (drive_body on_event write_all flush from_utf8_lossy for_replay)
              n
              s
              r
              (drive_editor on_event write_all flush from_utf8_lossy for_replay s r))
        × ((n : ℕ) × (n ≤ suc (weight r)) × Runs drain_body n tt r (drain_until_abort_or_success r))
  unfolding drive_editor drain_until_abort_or_success
  drive_editor-HasRun for_replay s r = (
    loop-HasRun (drive_body on_event write_all flush from_utf8_lossy for_replay)
        (drive_body-IsRound for_replay) s r,
    loop-HasRun drain_body drain_body-IsRound tt r,
  )
