-- ===== src/Tests/Conns.antt =====
-- Items and edits read from a stream in pieces.
use svn.Base.{
  ℕ, suc, ◌⊎◌, inl, ap, ◌≤◌, ◌<◌, ◌^◌, length, ◌≡◌, refl, arith, List, [], ◌∷◌, ◌++◌, Bytes, text,
  bytes_eq, true, false, some, Result, ok, err, SvnError, protocol, map,
}
use svn.Base.Utf8.{is_utf8}
use svn.Editor.{EditorEvent, EditorCommand}
use svn.Rasvn.Wire as Wire
use svn.Rasvn.Wire.{encode_decimal_u64, encode_decimal_usize, decimal_loop}
use svn.Rasvn.Item.{SvnItem, word, string, list, bool, items, encode_item, encode_items}
use svn.Rasvn.Edit.Command.{encode_editor_command, encode_body}
use svn.Rasvn.Edit.Sendable.{IsEdit, event_of, command_item}
use svn.Rasvn.Conn.Read.{Reader, Read, Step, bytes, weight}
use svn.Rasvn.Conn.Io.{
  read_list_body, read_item, peek_body, skip_ws_body, parse_digits_body, parse_word_body,
  read_exact_body,
}
use svn.Rasvn.Conn.Items.{read_loops-HasRun}
use svn.Rasvn.Conn.Runs.{Runs, returns, fails, goes_on, HasRun}
use svn.Rasvn.Conn.Stream.{upcoming}
use svn.Rasvn.Conn.Tokens.{IsToken}
use svn.Rasvn.Conn.RoundTrip.{IsReadable, AreReadable, read_item-encode_item}
use svn.Rasvn.Conn.Write.{
  Writer, write_cmd_success, write_item, write_wire_bytes, success_item, failure_item,
}
use svn.Rasvn.Parse.Failure.{display}
use svn.Rasvn.Conn.Response.{
  CommandResponse, read_command_response, is_failure, failure_message,
  read_command_response-failure_item,
}
use svn.Rasvn.Edit.Drive.{
  EditorDriveStatus, completed, drive_editor, drive_body, drain_body, drain_until_abort_or_success,
}
use svn.Rasvn.Edit.Drive.Rounds.{drive_editor-HasRun}
use svn.Rasvn.Edit.Drive.Refusal.{IsAbort, drive_editor-IsAbort}
use svn.Rasvn.Edit.Drive.Deliver.{AreEdits, Accepts, encode_all, drive_editor-encode_all}

abbrev nested : SvnItem
nested = list (items (word (text "a") ∷ list (items (string (text "b)") ∷ [])) ∷ bool true ∷ []))

-- Its bytes, cut inside the string's length and inside the string.
abbrev in_pieces : Reader
in_pieces = record {
  buf = text "x( a ";
  pos = 1;
  input = bytes (text "( 2") ∷ bytes (text ":b") ∷ bytes (text ") ) true ) ( ") ∷ [];
}

nested-IsReadable : IsReadable 0 nested
unfolding IsReadable AreReadable text is_utf8 bytes_eq
nested-IsReadable =
    let token : IsToken (text "a") = (refl, refl, tt) in
    (
      omega arith,
      (
        ((97, [], refl, refl, token, refl), refl, refl),
        ((omega arith, (omega arith, tt)), (tt, tt)),
      ),
    )

in_pieces-upcoming : upcoming in_pieces ≡ encode_item nested [] ++ text "( "
unfolding text encode_item encode_items Wire.word Wire.bool Wire.string_bytes Wire.list_start
    Wire.list_end encode_decimal_usize encode_decimal_u64 decimal_loop
in_pieces-upcoming = refl

read_item-encode_item_example :
    (r' : Reader) × (read_item in_pieces ≡ (r', ok nested)) × (upcoming r' ≡ text "( ")
read_item-encode_item_example =
    read_item-encode_item nested (text "( ") in_pieces nested-IsReadable in_pieces-upcoming

read_loops-HasRun_example :
    HasRun peek_body tt in_pieces
    × HasRun skip_ws_body tt in_pieces
    × HasRun parse_digits_body 4 in_pieces
    × HasRun parse_word_body (text "a") in_pieces
    × HasRun (read_exact_body 4) (text "a") in_pieces
    × HasRun read_list_body ([] ∷ []) in_pieces
read_loops-HasRun_example = read_loops-HasRun 4 (text "a") ([] ∷ []) in_pieces

-- A loop that neither reads nor ends has no run.
abbrev endless : Unit {0} → Read (Unit {0} ⊎ Unit {0})
endless u r = (r, ok (inl u))

no_endless_run : {n : ℕ} {u : Unit {0}} {r : Reader} {t : Step (Unit {0})} → ¬ Runs endless n u r t
no_endless_run (returns e) = cc (ap (λ s. s.1) e)
no_endless_run (fails e) = cc (ap (λ s. s.1) e)
no_endless_run (goes_on e run) = no_endless_run run

-- A handler that keeps the events, and a stream that takes everything.
abbrev keep : List EditorEvent → EditorEvent → List EditorEvent × Result (Unit {0})
keep events event = (events ++ (event ∷ []), ok tt)

abbrev take_all : Bytes → Bytes → Result (Unit {0})
take_all sent more = ok tt

abbrev flush : Bytes → Result (Unit {0})
flush sent = ok tt

abbrev lossless : Bytes → Bytes
lossless bs = bs

abbrev unsent : Writer
unsent = record { sent = []; attempts = [] }

abbrev answered : Writer
answered = record { sent = text "( success ( ) ) " ++ (10 ∷ []); attempts = [] }

abbrev edits : List EditorCommand
edits = EditorCommand.open_root (some 3) (text "d") ∷ EditorCommand.close_dir (text "d") ∷ []

abbrev wire : Bytes
wire =
    text "( open-root ( ( 3 ) 1:d ) ) "
    ++ (10 ∷ text "( close-dir ( 1:d ) ) " ++ (10 ∷ text "( close-edit ( ) ) " ++ (10 ∷ [])))

abbrev connection : Reader
connection = record { buf = []; pos = 0; input = bytes wire ∷ [] }

edits-AreEdits : AreEdits edits
unfolding IsReadable AreReadable text is_utf8 bytes_eq
edits-AreEdits =
    let open_root : IsToken (text "open-root") = (
      refl,
      refl,
      (
        refl,
        refl,
        (
          refl,
          refl,
          (refl, refl, (refl, refl, (refl, refl, (refl, refl, (refl, refl, (refl, refl, tt)))))),
        ),
      ),
    ) in
    let close_dir : IsToken (text "close-dir") = (
      refl,
      refl,
      (
        refl,
        refl,
        (
          refl,
          refl,
          (refl, refl, (refl, refl, (refl, refl, (refl, refl, (refl, refl, (refl, refl, tt)))))),
        ),
      ),
    ) in
    (
      refl,
      (
        omega arith,
        (
          ((111, text "pen-root", refl, refl, open_root, refl), refl, refl),
          ((omega arith, ((omega arith, (omega arith, tt)), (omega arith, tt))), tt),
        ),
      ),
      (
        refl,
        (
          omega arith,
          (
            ((99, text "lose-dir", refl, refl, close_dir, refl), refl, refl),
            ((omega arith, (omega arith, tt)), tt),
          ),
        ),
        tt,
      ),
    )

edits-Accepts :
    Accepts keep take_all flush lossless []
      (map event_of edits ++ (EditorEvent.close_edit ∷ []))
      (map event_of edits ++ (EditorEvent.close_edit ∷ []))
edits-Accepts = (_, refl, (_, refl, (_, refl, refl)))

success_written : write_cmd_success take_all flush unsent ≡ (answered, ok tt)
unfolding write_cmd_success write_item write_wire_bytes success_item encode_item encode_items
    Wire.word Wire.list_start Wire.list_end text
success_written = refl

edits_encoded : encode_all edits [] ≡ ok wire
unfolding encode_editor_command encode_body Wire.word Wire.number Wire.string_str Wire.string_bytes
    Wire.list_start Wire.list_end Wire.newline encode_decimal_usize encode_decimal_u64 decimal_loop
    text
edits_encoded = refl

connection-upcoming : upcoming connection ≡ wire ++ []
unfolding text
connection-upcoming = refl

drive_editor-encode_all_example :
    (r' : Reader) × (drive_editor keep take_all flush lossless false (some [], unsent) connection
      ≡ (
        r',
        ok ((some (map event_of edits ++ (EditorEvent.close_edit ∷ [])), answered), ok completed),
      ))
    × (upcoming r' ≡ 10 ∷ [])
drive_editor-encode_all_example =
    drive_editor-encode_all keep take_all flush lossless false edits []
      (map event_of edits ++ (EditorEvent.close_edit ∷ [])) unsent answered wire [] connection
      edits-AreEdits edits-Accepts success_written edits_encoded connection-upcoming

drive_editor-HasRun_example :
    ((n : ℕ) × (n ≤ suc (weight connection))
      × Runs
          (drive_body keep take_all flush lossless false)
          n
          (some [], unsent)
          connection
          (drive_editor keep take_all flush lossless false (some [], unsent) connection))
    × ((n : ℕ) × (n ≤ suc (weight connection))
        × Runs drain_body n tt connection (drain_until_abort_or_success connection))
drive_editor-HasRun_example =
    drive_editor-HasRun keep take_all flush lossless false (some [], unsent) connection

abbrev bad_path : SvnError
bad_path = protocol (text "no path")

bad_path_short : length (display bad_path) < 2 ^ 63
unfolding display text
bad_path_short = omega arith

abbrev reporting : Reader
reporting = record {
  buf = [];
  pos = 0;
  input =
      bytes (text "( failure ( ( 1 23:protocol err") ∷ bytes (text "or: no path 0: 0 ) ) ) ") ∷ [];
}

reporting-upcoming : upcoming reporting ≡ encode_item (failure_item bad_path) [] ++ []
unfolding text failure_item display encode_item encode_items Wire.word Wire.number Wire.string_bytes
    Wire.list_start Wire.list_end encode_decimal_usize encode_decimal_u64 decimal_loop
reporting-upcoming = refl

read_command_response-failure_item_example :
    (r' : Reader) × (c : CommandResponse) × (read_command_response reporting ≡ (r', ok c))
    × (is_failure c ≡ true)
    × (failure_message lossless c ≡ display bad_path)
    × (upcoming r' ≡ [])
read_command_response-failure_item_example =
    read_command_response-failure_item lossless bad_path [] reporting bad_path_short refl
      reporting-upcoming

-- A handler that takes nothing.
abbrev refuse_all : List EditorEvent → EditorEvent → List EditorEvent × Result (Unit {0})
refuse_all events event = (events, err bad_path)

abbrev closing : EditorCommand
closing = EditorCommand.close_dir (text "d")

abbrev refused_connection : Reader
refused_connection = record {
  buf = [];
  pos = 0;
  input = bytes (text "( close-dir ( 1:d ) ) ( abort") ∷ [];
}

refused_connection-upcoming :
    upcoming refused_connection ≡ encode_item (command_item closing) [] ++ text "( abort"
unfolding text encode_item encode_items Wire.word Wire.string_bytes Wire.list_start Wire.list_end
    encode_decimal_usize encode_decimal_u64 decimal_loop
refused_connection-upcoming = refl

closing_text : IsEdit closing
unfolding is_utf8 text
closing_text = refl

closing-IsReadable : IsReadable 0 (command_item closing)
closing-IsReadable = edits-AreEdits.2.1

drive_editor-IsAbort_example :
    (r' : Reader) × (w' : Writer) × (result : Result EditorDriveStatus) × (drive_editor refuse_all
        take_all flush lossless false
        (some [], unsent)
        refused_connection
      ≡ (r', ok ((some [], w'), result)))
    × IsAbort bad_path result
drive_editor-IsAbort_example =
    drive_editor-IsAbort refuse_all take_all flush lossless false [] [] unsent bad_path closing
      (text "( abort") refused_connection closing_text closing-IsReadable refl
      refused_connection-upcoming
