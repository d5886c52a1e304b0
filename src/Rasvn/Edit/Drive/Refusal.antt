-- ===== src/Rasvn/Edit/Drive/Refusal.antt =====
-- The editor drive (src/rasvn/edit/drive.rs) when the handler refuses an event.
use svn.Base.{
  zero, suc, ◌≡◌, refl, sym, ap, ◌∙◌, subst, List, [], ◌∷◌, ◌++◌, Bytes, take, drop, Bool, true,
  false, ◌||◌, Option, some, Result, ok, err, SvnError, ◌⊎◌, inl, inr,
}
use svn.Editor.{EditorEvent, EditorCommand}
use svn.Rasvn.Item.{SvnItem, encode_item}
use svn.Rasvn.Edit.Sendable.{IsEdit, event_of, command_item}
use svn.Rasvn.Conn.Read.{Reader, Step, Read, after_round, after_step, return}
use svn.Rasvn.Conn.Io.{read_item}
use svn.Rasvn.Conn.Stream.{run_Gets, upcoming}
use svn.Rasvn.Conn.RoundTrip.{IsReadable, encoded_item}
use svn.Rasvn.Conn.Write.{
  Attempt, wrote, refused, pending, Writer, Early, is_abort, data_available, after_item,
  after_available, failure_item, write_early, write_cmd_failure_early,
}
use svn.Rasvn.Edit.Drive.{
  EditorDriveStatus, aborted, drain_until_abort_or_success, after_drain, after_failure, after_event,
  after_read, on_item, notified, notify, handle_editor_consumer_error, drive_body, drive_editor,
}
use svn.Rasvn.Edit.Drive.Rounds.{drive_editor_unroll}
use svn.Rasvn.Edit.Drive.Deliver.{on_command-event_of, parse_command_item-command_item}

-- An operation whose errors are values.
abbrev IsValue {ℓ} : {A : Type ℓ} → Step A → Type ℓ
IsValue {A = A} t = (r : Reader) × (a : A) × (t ≡ (r, ok a))

after_item-IsValue :
    (done : Bool) (sent : Bytes) (again : Bool → Bytes → Read Early) (s : Step SvnItem)
    → ((d : Bool) (b : Bytes) (r : Reader) → IsValue (again d b r))
    → IsValue (after_item done sent again s)
after_item-IsValue done sent again (r, err e) h = (r, (sent, err e), refl)
after_item-IsValue done sent again (r, ok x) h = h (done || is_abort x) sent r

after_available-IsValue :
    (done : Bool) (sent : Bytes) (again : Bool → Bytes → Read Early) (s : Step Bool)
    → ((d : Bool) (b : Bytes) (r : Reader) → IsValue (again d b r))
    → IsValue (after_available done sent again s)
after_available-IsValue done sent again (r, err e) h = (r, (sent, err e), refl)
after_available-IsValue done sent again (r, ok false) h = h done sent r
after_available-IsValue done sent again (r, ok true) h =
    after_item-IsValue done sent again (read_item r) h

-- How a refusal ends: with the refusal, or with an error of the stream.
abbrev pub IsAbort : SvnError → Result EditorDriveStatus → Type 0
IsAbort e result = (result ≡ ok (aborted e)) ⊎ ((e' : SvnError) × (result ≡ err e'))

module _ {H : Type 0} (on_event : H → EditorEvent → H × Result (Unit {0}))
    (write_all : Bytes → Bytes → Result (Unit {0})) (flush : Bytes → Result (Unit {0}))
    (from_utf8_lossy : Bytes → Bytes) where
  write_early-IsValue :
      (attempts : List Attempt) (wire : Bytes) (done : Bool) (sent : Bytes) (r : Reader)
      → IsValue (write_early write_all flush attempts wire done sent r)
  unfolding write_early
  write_early-IsValue [] [] done sent r = (r, _, refl)
  write_early-IsValue (a ∷ more) [] done sent r = (r, _, refl)
  write_early-IsValue [] (b ∷ wire) done sent r = (r, _, refl)
  write_early-IsValue (wrote zero ∷ more) (b ∷ wire) done sent r = (r, _, refl)
  write_early-IsValue (wrote (suc n) ∷ more) (b ∷ wire) done sent r =
      write_early-IsValue more (drop n wire) done (sent ++ take (suc n) (b ∷ wire)) r
  write_early-IsValue (refused e ∷ more) (b ∷ wire) done sent r = (r, _, refl)
  write_early-IsValue (pending arrived ∷ more) (b ∷ wire) done sent r =
      after_available-IsValue done sent (write_early write_all flush more (b ∷ wire))
        (data_available arrived r) (write_early-IsValue more (b ∷ wire))

  failure_early-IsValue :
      (e : SvnError) (w : Writer) (r : Reader)
      → IsValue (write_cmd_failure_early write_all flush e w r)
  unfolding write_cmd_failure_early
  failure_early-IsValue e w r =
      let (r', out, run) =
        write_early-IsValue w.attempts (encode_item (failure_item e) [] ++ (10 ∷ [])) false w.sent
          r in
      (
        r',
        (record w { sent = out.0 }, out.1),
        ap (λ s. after_step s (λ out. return (record w { sent = out.0 }, out.1))) run,
      )

  -- The end of the drive, with the handler in the state `h`.
  abbrev pub IsEnd :
      H
      → SvnError
      → Step ((Option H × Writer) ⊎ ((Option H × Writer) × Result EditorDriveStatus))
      → Type 0
  IsEnd h e t =
      (r : Reader) × (w : Writer) × (result : Result EditorDriveStatus) × (t
        ≡ (r, ok (inr ((some h, w), result))))
      × IsAbort e result

  after_drain-IsEnd :
      (h : H) (w : Writer) (e : SvnError) (t : Step (Unit {0}))
      → IsEnd h e (after_drain on_event write_all flush from_utf8_lossy (some h, w) e t)
  after_drain-IsEnd h w e (r, ok u) = (r, w, ok (aborted e), refl, inl refl)
  after_drain-IsEnd h w e (r, err e') = (r, w, err e', refl, inr (e', refl))

  after_failure-IsEnd :
      (h : H) (e : SvnError) (drain : Bool) (r : Reader) (w : Writer) (answer : Result Bool)
      → IsEnd h e (
          after_failure on_event write_all flush from_utf8_lossy
            (some h)
            e
            drain
            (r, ok (w, answer)))
  after_failure-IsEnd h e drain r w (err e') = (r, w, err e', refl, inr (e', refl))
  after_failure-IsEnd h e true r w (ok false) =
      after_drain-IsEnd h w e (drain_until_abort_or_success r)
  after_failure-IsEnd h e true r w (ok true) = (r, w, ok (aborted e), refl, inl refl)
  after_failure-IsEnd h e false r w (ok done) = (r, w, ok (aborted e), refl, inl refl)

  pub consumer_error-IsEnd :
      (h : H) (w : Writer) (e : SvnError) (drain : Bool) (r : Reader)
      → IsEnd h e (
          handle_editor_consumer_error on_event write_all flush from_utf8_lossy
            (some h, w)
            e
            drain
            r)
  unfolding handle_editor_consumer_error
  consumer_error-IsEnd h w e drain r =
      let (r', (w', answer), run) = failure_early-IsValue e w r in
      subst
        (λ t. IsEnd h e (after_failure on_event write_all flush from_utf8_lossy (some h) e drain t))
        (sym run) (after_failure-IsEnd h e drain r' w' answer)

  refused_round :
      (for_replay : Bool) (h h₁ : H) (w : Writer) (e : SvnError) (cmd : EditorCommand)
      (r r' : Reader)
      → IsEdit cmd
      → on_event h (event_of cmd) ≡ (h₁, err e)
      → read_item r ≡ (r', ok (command_item cmd))
      → drive_body on_event write_all flush from_utf8_lossy for_replay (some h, w) r
        ≡ handle_editor_consumer_error on_event write_all flush from_utf8_lossy
            (some h₁, w)
            e
            true
            r'
  unfolding drive_body notify
  refused_round for_replay h h₁ w e cmd r r' is refuses run =
      ap (after_read on_event write_all flush from_utf8_lossy for_replay (some h, w)) run
      ∙ ap (λ c. on_item on_event write_all flush from_utf8_lossy for_replay (some h, w) c r')
          (parse_command_item-command_item cmd)
      ∙ ap (λ m. m r')
          (on_command-event_of on_event write_all flush from_utf8_lossy for_replay (some h) w cmd
            is)
      ∙ ap
          (λ a.
            after_event on_event write_all flush from_utf8_lossy
              (notified on_event write_all flush from_utf8_lossy a) w r')
          refuses

  -- When the handler refuses the event of an encoded command with an error, the drive ends, whatever
  -- the stream holds behind the command and however the report of the error goes: the handler gets
  -- no further event, so that its state is the one it had when it refused, and the drive is aborted
  -- with the handler's error or fails with another, but is never complete.
  pub drive_editor-IsAbort :
      (for_replay : Bool) (h h₁ : H) (w : Writer) (e : SvnError) (cmd : EditorCommand)
      (rest : Bytes) (r : Reader)
      → IsEdit cmd
      → IsReadable 0 (command_item cmd)
      → on_event h (event_of cmd) ≡ (h₁, err e)
      → upcoming r ≡ encode_item (command_item cmd) [] ++ rest
      → (r' : Reader) × (w' : Writer) × (result : Result EditorDriveStatus) × (drive_editor on_event
            write_all flush from_utf8_lossy for_replay
            (some h, w)
            r
          ≡ (r', ok ((some h₁, w'), result)))
        × IsAbort e result
  drive_editor-IsAbort for_replay h h₁ w e cmd rest r is readable refuses up =
      let (r₁, run, left) = run_Gets (encoded_item (command_item cmd) rest readable) r up in
      let (r', w', result, ends, how) = consumer_error-IsEnd h₁ w e true r₁ in
      (
        r',
        w',
        result,
        drive_editor_unroll on_event write_all flush from_utf8_lossy for_replay (some h, w) r
            ∙ ap (after_round (drive_editor on_event write_all flush from_utf8_lossy for_replay))
                (refused_round for_replay h h₁ w e cmd r r₁ is refuses run ∙ ends),
        how,
      )
