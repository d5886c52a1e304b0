-- ===== src/Textdelta/Record/Trace.antt =====
-- The events of one file, from its opening to its close.
use svn.Base.{
  ℕ, ◌-◌, ◌≡◌, refl, ap, ◌∙◌, List, [], ◌∷◌, ◌++◌, append_assoc, append-nil, Bytes, length,
  length-append, Option, none, some, ok, arith,
}
use svn.Base.Maps.{Map, find, insert, remove, find-insert, find-remove}
use svn.Editor.{EditorEvent}
use svn.Textdelta.Record.{
  RecordedTextDelta, PendingTextDelta, TextDeltaRecorder, open_file, apply_text_delta,
  text_delta_chunk, recorded, text_delta_end, set_checksum, announce, close_file, on_event,
  on_events, after_event,
}

abbrev pub chunk_events : Bytes → List Bytes → List EditorEvent
chunk_events token [] = []
chunk_events token (c ∷ cs) = EditorEvent.text_delta_chunk token c ∷ chunk_events token cs

-- The events of a file's textdelta behind its opening.
abbrev pub delta_events : Bytes → Option Bytes → List Bytes → Option Bytes → List EditorEvent
delta_events token base chunks sum =
    EditorEvent.apply_text_delta token base
    ∷ (chunk_events token chunks
        ++ (EditorEvent.text_delta_end token ∷ EditorEvent.close_file token sum ∷ []))

-- What is recorded of them.
abbrev pub delta_record :
    Bytes → Bytes → Option Bytes → List Bytes → Option Bytes → RecordedTextDelta
delta_record path token base chunks sum = record {
  path = some path;
  file_token = token;
  base_checksum = base;
  chunks = chunks;
  text_checksum = sum;
}

abbrev with_chunks : PendingTextDelta → List Bytes → PendingTextDelta
with_chunks p cs = record p { chunks = p.chunks ++ cs }

set_checksum-last :
    (sum : Bytes) (ds : List RecordedTextDelta) (d : RecordedTextDelta)
    → set_checksum sum (length ds) (ds ++ (d ∷ []))
      ≡ ds ++ (record d { text_checksum = some sum } ∷ [])
unfolding set_checksum
set_checksum-last sum [] d = refl
set_checksum-last sum (x ∷ ds) d = ap (λ t. x ∷ t) (set_checksum-last sum ds d)

announce-last :
    (sum : Option Bytes) (token : Bytes) (p : PendingTextDelta) (ds : List RecordedTextDelta)
    → announce sum
        (some (length (ds ++ (recorded token p ∷ [])) - 1))
        (ds ++ (recorded token p ∷ []))
      ≡ ds ++ (record (recorded token p) { text_checksum = sum } ∷ [])
unfolding announce
announce-last none token p ds = refl
announce-last (some sum) token p ds =
    let e : length (ds ++ (recorded token p ∷ [])) - 1 ≡ length ds =
      omega (arith, length-append ds (recorded token p ∷ [])) in
    rw e (set_checksum-last sum ds (recorded token p))

text_delta_chunk-some :
    (token chunk : Bytes) (r : TextDeltaRecorder) (p : PendingTextDelta)
    → find token r.pending ≡ some p
    → text_delta_chunk token chunk r
      ≡ (record r { pending = insert token (with_chunks p (chunk ∷ [])) r.pending }, ok tt)
unfolding text_delta_chunk
text_delta_chunk-some token chunk r p e = rw (e, text_delta_chunk) refl

-- The chunks are collected in the pending delta.
on_events-chunks :
    (token : Bytes) (chunks : List Bytes) (rest : List EditorEvent) (r : TextDeltaRecorder)
    (p : PendingTextDelta)
    → find token r.pending ≡ some p
    → (m : Map PendingTextDelta) × (find token m ≡ some (with_chunks p chunks))
      × (on_events (chunk_events token chunks ++ rest) r
          ≡ on_events rest (record r { pending = m }))
unfolding on_events on_event
on_events-chunks token [] rest r p e = (r.pending, rw (append-nil p.chunks) e, refl)
on_events-chunks token (c ∷ cs) rest r p e =
    let p' = with_chunks p (c ∷ []) in
    let (m, at, run) =
      on_events-chunks token cs rest (record r { pending = insert token p' r.pending }) p'
        (find-insert token p' r.pending) in
    (
      m,
      at ∙ ap (λ t. some (record p { chunks = t })) (append_assoc p.chunks (c ∷ []) cs),
      ap (after_event (on_events (chunk_events token cs ++ rest)))
            (text_delta_chunk-some token c r p e)
          ∙ run,
    )

text_delta_end-some :
    (token : Bytes) (r : TextDeltaRecorder) (p : PendingTextDelta)
    → find token r.pending ≡ some p
    → text_delta_end token r ≡ (
      record r {
        pending = remove token r.pending;
        completed = r.completed ++ (recorded token p ∷ []);
        last_completed =
            insert token (length (r.completed ++ (recorded token p ∷ [])) - 1) r.last_completed;
      },
      ok tt,
    )
unfolding text_delta_end
text_delta_end-some token r p e = rw (e, text_delta_end) refl

close_file-some :
    (token : Bytes) (sum : Option Bytes) (r : TextDeltaRecorder) (path : Bytes)
    → find token r.file_paths ≡ some path
    → close_file token sum r ≡ (
      record r {
        file_paths = remove token r.file_paths;
        completed = announce sum (find token r.last_completed) r.completed;
        last_completed = remove token r.last_completed;
      },
      ok tt,
    )
unfolding close_file
close_file-some token sum r path e = rw (e, close_file) refl

open_file-none :
    (path token : Bytes) (r : TextDeltaRecorder)
    → find token r.pending ≡ none
    → open_file path token r ≡ (
      record r {
        last_completed = remove token r.last_completed;
        file_paths = insert token path r.file_paths;
      },
      ok tt,
    )
unfolding open_file
open_file-none path token r e = rw (e, open_file) refl

abbrev started : Bytes → Option Bytes → PendingTextDelta
started path base = record { path = some path; base_checksum = base; chunks = [] }

apply_text_delta-none :
    (path token : Bytes) (base : Option Bytes) (r : TextDeltaRecorder)
    → find token r.pending ≡ none
    → find token r.file_paths ≡ some path
    → apply_text_delta token base r
      ≡ (record r { pending = insert token (started path base) r.pending }, ok tt)
unfolding apply_text_delta
apply_text_delta-none path token base r e f = rw (e, f, apply_text_delta) refl

-- The end of the delta and the close of the file.
closes :
    (path token : Bytes) (base sum : Option Bytes) (chunks : List Bytes) (r : TextDeltaRecorder)
    → find token r.pending ≡ some (with_chunks (started path base) chunks)
    → find token r.file_paths ≡ some path
    → (r' : TextDeltaRecorder) × (on_events
          (EditorEvent.text_delta_end token ∷ EditorEvent.close_file token sum ∷ [])
          r
        ≡ (r', ok tt))
      × (r'.completed ≡ r.completed ++ (delta_record path token base chunks sum ∷ []))
      × (find token r'.pending ≡ none)
      × (find token r'.file_paths ≡ none)
unfolding on_events on_event
closes path token base sum chunks r at open_path =
    let p = with_chunks (started path base) chunks in
    let ds = r.completed ++ (recorded token p ∷ []) in
    let r₁ : TextDeltaRecorder = record r {
      pending = remove token r.pending;
      completed = ds;
      last_completed = insert token (length ds - 1) r.last_completed;
    } in
    (
      record r₁ {
        file_paths = remove token r.file_paths;
        completed = announce sum (find token r₁.last_completed) ds;
        last_completed = remove token r₁.last_completed;
      },
      ap (after_event (on_events (EditorEvent.close_file token sum ∷ [])))
            (text_delta_end-some token r p at)
          ∙ ap (after_event (on_events [])) (close_file-some token sum r₁ path open_path),
      ap (λ o. announce sum o ds) (find-insert token (length ds - 1) r.last_completed)
          ∙ announce-last sum token p r.completed,
      find-remove token r.pending,
      find-remove token r.file_paths,
    )

-- A file whose token has no pending delta is opened, sent in any number of chunks, ended and
-- closed: every event is accepted, and what is added to the completed records is one record with
-- the file's path and token, the checksums announced and the chunks in their order. The token is
-- then neither pending nor open.
pub on_events-delta_events :
    (path dir_token token : Bytes) (rev : ℕ) (base sum : Option Bytes) (chunks : List Bytes)
    (r : TextDeltaRecorder)
    → find token r.pending ≡ none
    → (r' : TextDeltaRecorder) × (on_events
          (EditorEvent.open_file path dir_token token rev ∷ delta_events token base chunks sum)
          r
        ≡ (r', ok tt))
      × (r'.completed ≡ r.completed ++ (delta_record path token base chunks sum ∷ []))
      × (find token r'.pending ≡ none)
      × (find token r'.file_paths ≡ none)
on_events-delta_events path dir_token token rev base sum chunks r quiet =
    let ending = EditorEvent.text_delta_end token ∷ EditorEvent.close_file token sum ∷ [] in
    let r₁ : TextDeltaRecorder = record r {
      last_completed = remove token r.last_completed;
      file_paths = insert token path r.file_paths;
    } in
    let known = find-insert token path r.file_paths in
    let r₂ : TextDeltaRecorder = record r₁ {
      pending = insert token (started path base) r.pending;
    } in
    let (m, at, run) =
      on_events-chunks token chunks ending r₂ (started path base)
        (find-insert token (started path base) r.pending) in
    let r₃ : TextDeltaRecorder = record r₂ { pending = m } in
    let (r', last, one, ended, closed) = closes path token base sum chunks r₃ at known in
    (
      r',
      unfold on_events on_event in
          (ap (after_event (on_events (delta_events token base chunks sum)))
              (open_file-none path token r quiet)
            ∙ ap (after_event (on_events (chunk_events token chunks ++ ending)))
                (apply_text_delta-none path token base r₁ quiet known)
            ∙ run
            ∙ last),
      one,
      ended,
      closed,
    )
