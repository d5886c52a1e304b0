-- ===== src/Textdelta/Record.antt =====
-- `TextDeltaRecorder` (src/textdelta/record.rs): the textdeltas of an editor drive, recorded.
pub mod Index
pub mod Trace
use svn.Base.{
  ℕ, zero, suc, ◌-◌, List, [], ◌∷◌, ◌++◌, Bytes, text, length, Option, none, some, Bool, true,
  false, if◌then◌else◌, Result, ok, err, protocol, get_elem?,
}
use svn.Base.Maps.{Map, find, remove, insert, is_empty}
use svn.Editor.{EditorEvent}

pub record RecordedTextDelta : Type 0 where
  pub path : Option Bytes
  pub file_token : Bytes
  pub base_checksum : Option Bytes
  pub chunks : List Bytes
  pub text_checksum : Option Bytes

pub record PendingTextDelta : Type 0 where
  pub path : Option Bytes
  pub base_checksum : Option Bytes
  pub chunks : List Bytes

pub record TextDeltaRecorder : Type 0 where
  pub file_paths : Map Bytes
  pub pending : Map PendingTextDelta
  pub last_completed : Map ℕ
  pub completed : List RecordedTextDelta

unfoldable pub new : TextDeltaRecorder
new = record { file_paths = []; pending = []; last_completed = []; completed = [] }

unfoldable pub take_completed : TextDeltaRecorder → TextDeltaRecorder × List RecordedTextDelta
take_completed r = (record r { last_completed = []; completed = [] }, r.completed)

abbrev pub Step : Type 0
Step = TextDeltaRecorder × Result (Unit {0})

-- An error about a token: what comes before it, and after.
abbrev pub refuse : Bytes → Bytes → Bytes → TextDeltaRecorder → Step
refuse before token after r = (r, err (protocol (before ++ (token ++ after))))

-- The path is known by its token from here on.
unfoldable pub open_file : Bytes → Bytes → TextDeltaRecorder → Step
open_file path token r = elim (find token r.pending) [
  | some _ ↦ refuse (text "file token '") token (text "' reused with pending textdelta") r
  | none ↦ (
    record r {
      last_completed = remove token r.last_completed;
      file_paths = insert token path r.file_paths;
    },
    ok tt,
  )
]

unfoldable pub apply_text_delta : Bytes → Option Bytes → TextDeltaRecorder → Step
apply_text_delta token base_checksum r = elim (find token r.pending) [
  | some _ ↦ refuse (text "duplicate apply-textdelta for file token '") token (text "'") r
  | none ↦
      let started : PendingTextDelta = record {
        path = find token r.file_paths;
        base_checksum = base_checksum;
        chunks = [];
      } in
      (record r { pending = insert token started r.pending }, ok tt)
]

-- `pending.chunks.push(chunk)` on the entry in the map.
unfoldable pub text_delta_chunk : Bytes → Bytes → TextDeltaRecorder → Step
text_delta_chunk token chunk r = elim (find token r.pending) [
  | none ↦ refuse (text "textdelta-chunk for unknown file token '") token (text "'") r
  | some p ↦
      let longer : PendingTextDelta = record p { chunks = p.chunks ++ (chunk ∷ []) } in
      (record r { pending = insert token longer r.pending }, ok tt)
]

abbrev pub recorded : Bytes → PendingTextDelta → RecordedTextDelta
recorded token p = record {
  path = p.path;
  file_token = token;
  base_checksum = p.base_checksum;
  chunks = p.chunks;
  text_checksum = none;
}

unfoldable pub text_delta_end : Bytes → TextDeltaRecorder → Step
text_delta_end token r = elim (find token r.pending) [
  | none ↦ refuse (text "textdelta-end for unknown file token '") token (text "'") r
  | some p ↦
      let completed' = r.completed ++ (recorded token p ∷ []) in
      (
        record r {
          pending = remove token r.pending;
          completed = completed';
          last_completed = insert token (length completed' - 1) r.last_completed;
        },
        ok tt,
      )
]

-- `completed.get_mut(idx)` and the assignment, where there is such a record.
unfoldable pub set_checksum : Bytes → ℕ → List RecordedTextDelta → List RecordedTextDelta
set_checksum sum idx [] = []
set_checksum sum zero (d ∷ ds) = record d { text_checksum = some sum } ∷ ds
set_checksum sum (suc idx) (d ∷ ds) = d ∷ set_checksum sum idx ds

unfoldable pub announce : Option Bytes → Option ℕ → List RecordedTextDelta → List RecordedTextDelta
unfolding set_checksum
announce none _ ds = ds
announce (some sum) none ds = ds
announce (some sum) (some idx) ds = set_checksum sum idx ds

unfoldable pub close_file : Bytes → Option Bytes → TextDeltaRecorder → Step
close_file token text_checksum r = elim (find token r.file_paths) [
  | none ↦ refuse (text "close-file for unknown file token '") token (text "'") r
  | some _ ↦ (
    record r {
      file_paths = remove token r.file_paths;
      completed = announce text_checksum (find token r.last_completed) r.completed;
      last_completed = remove token r.last_completed;
    },
    ok tt,
  )
]

-- `close-edit` and `finish-replay`
unfoldable pub finish : TextDeltaRecorder → Step
finish r =
    if is_empty r.pending
    then (if is_empty r.file_paths
        then (record r { last_completed = [] }, ok tt)
        else (r, err (protocol (text "editor drive ended with an unclosed file"))))
    else (r, err (protocol (text "editor drive ended with an unfinished textdelta")))

unfoldable pub on_event : EditorEvent → TextDeltaRecorder → Step
unfolding open_file apply_text_delta text_delta_chunk text_delta_end close_file finish new
on_event (EditorEvent.add_file path _ token _) r = open_file path token r
on_event (EditorEvent.open_file path _ token _) r = open_file path token r
on_event (EditorEvent.apply_text_delta token base) r = apply_text_delta token base r
on_event (EditorEvent.text_delta_chunk token chunk) r = text_delta_chunk token chunk r
on_event (EditorEvent.text_delta_end token) r = text_delta_end token r
on_event (EditorEvent.close_file token sum) r = close_file token sum r
on_event EditorEvent.abort_edit r = (new, ok tt)
on_event EditorEvent.close_edit r = finish r
on_event EditorEvent.finish_replay r = finish r
on_event _ r = (r, ok tt)

-- The events of a drive, up to the first that is refused.
abbrev pub after_event : (TextDeltaRecorder → Step) → Step → Step
after_event next (r, err e) = (r, err e)
after_event next (r, ok u) = next r

unfoldable pub on_events : List EditorEvent → TextDeltaRecorder → Step
on_events [] r = (r, ok tt)
on_events (event ∷ events) r = after_event (on_events events) (on_event event r)
