-- ===== src/Tests/Records.antt =====
-- An editor drive recorded.
use svn.Base.{◌≡◌, refl, [], ◌∷◌, ◌++◌, List, Bytes, none, some, ok, text, bytes_eq}
use svn.Base.Maps.{find}
use svn.Editor.{EditorEvent}
use svn.Textdelta.Record.{TextDeltaRecorder, new, take_completed, on_events}
use svn.Textdelta.Record.Index.{IsWellIndexed, empty-IsIndexed, on_events-IsWellIndexed}
use svn.Textdelta.Record.Trace.{delta_events, delta_record, on_events-delta_events}

abbrev path : Bytes
path = text "a.txt"

abbrev token : Bytes
token = text "c1"

-- A recorder with another file's textdelta pending, and one recorded and indexed.
abbrev busy : TextDeltaRecorder
busy = record {
  file_paths = (7 ∷ [], 8 ∷ []) ∷ [];
  pending = (7 ∷ [], record { path = none; base_checksum = none; chunks = [] }) ∷ [];
  last_completed = (5 ∷ [], 0) ∷ [];
  completed =
      record {
        path = none;
        file_token = 5 ∷ [];
        base_checksum = none;
        chunks = [];
        text_checksum = none;
      }
      ∷ [];
}

token_quiet : find token busy.pending ≡ none
unfolding find text bytes_eq
token_quiet = refl

on_events-delta_events_example :
    (r' : TextDeltaRecorder) × (on_events
        (EditorEvent.open_file path [] token 3
          ∷ delta_events token none ((1 ∷ []) ∷ (2 ∷ []) ∷ []) (some (9 ∷ [])))
        busy
      ≡ (r', ok tt))
    × (r'.completed
        ≡ busy.completed
          ++ delta_record path token none ((1 ∷ []) ∷ (2 ∷ []) ∷ []) (some (9 ∷ [])) ∷ [])
    × (find token r'.pending ≡ none)
    × (find token r'.file_paths ≡ none)
on_events-delta_events_example =
    on_events-delta_events path [] token 3 none (some (9 ∷ [])) ((1 ∷ []) ∷ (2 ∷ []) ∷ []) busy
      token_quiet

abbrev events : List EditorEvent
events =
    EditorEvent.open_file path [] token 3 ∷ delta_events token none ((1 ∷ []) ∷ []) (some (9 ∷ []))

new-IsWellIndexed : IsWellIndexed new
unfolding new
new-IsWellIndexed = empty-IsIndexed []

on_events-IsWellIndexed_example :
    IsWellIndexed ((on_events events new).0)
    × IsWellIndexed ((take_completed ((on_events events new).0)).0)
on_events-IsWellIndexed_example = on_events-IsWellIndexed events new new-IsWellIndexed
