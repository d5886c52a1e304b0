-- ===== src/Textdelta/Record/Index.antt =====
-- The index of the last completed textdelta of each file.
use svn.Base.{
  ℕ, zero, suc, ◌-◌, ◌≡◌, refl, sym, ◌∙◌, List, [], ◌∷◌, ◌++◌, Bytes, bytes_eq, bytes_eq→eq, length,
  length-append, get_elem?, Option, none, some, Bool-cases, Option-cases, inl, inr, Result, ok, err,
  arith,
}
use svn.Base.Maps.{
  Map, find, remove, insert, is_empty, find-remove, find-remove-other, find-insert,
  find-insert-other,
}
use svn.Editor.{EditorEvent}
use svn.Textdelta.Record.{
  RecordedTextDelta, TextDeltaRecorder, new, take_completed, open_file, apply_text_delta,
  text_delta_chunk, recorded, text_delta_end, set_checksum, announce, close_file, finish, on_event,
  on_events, after_event,
}

-- The record at an index has that token.
abbrev pub HasToken : List RecordedTextDelta → Bytes → ℕ → Type 0
HasToken ds token idx =
    (d : RecordedTextDelta) × (get_elem? ds idx ≡ some d) × (d.file_token ≡ token)

-- Each token is mapped to the index of a completed record with that token.
abbrev pub IsIndexed : Map ℕ → List RecordedTextDelta → Type 0
IsIndexed m ds = (token : Bytes) (idx : ℕ) → find token m ≡ some idx → HasToken ds token idx

abbrev pub IsWellIndexed : TextDeltaRecorder → Type 0
IsWellIndexed r = IsIndexed r.last_completed r.completed

remove-IsIndexed :
    (k : Bytes) (m : Map ℕ) (ds : List RecordedTextDelta)
    → IsIndexed m ds
    → IsIndexed (remove k m) ds
remove-IsIndexed k m ds h token idx e = elim (Bool-cases (bytes_eq token k)) [
  | inl same ↦
      let gone : find token (remove k m) ≡ none = rw (bytes_eq→eq token k same) (find-remove k m) in
      absurd (none-ne-some (sym gone ∙ e))
  | inr other ↦ h token idx (sym (find-remove-other token k m other) ∙ e)
]
  where
    none-ne-some : ◌≡◌ {A = Option ℕ} none (some idx) → ⊥
    none-ne-some p = cc

get_elem?-last :
    (ds : List RecordedTextDelta) (d : RecordedTextDelta)
    → get_elem? (ds ++ (d ∷ [])) (length ds) ≡ some d
get_elem?-last [] d = refl
get_elem?-last (x ∷ ds) d = get_elem?-last ds d

get_elem?-append :
    (ds more : List RecordedTextDelta) (idx : ℕ) (d : RecordedTextDelta)
    → get_elem? ds idx ≡ some d
    → get_elem? (ds ++ more) idx ≡ some d
get_elem?-append [] more idx d h = cc
get_elem?-append (x ∷ ds) more zero d h = h
get_elem?-append (x ∷ ds) more (suc idx) d h = get_elem?-append ds more idx d h

completed-IsIndexed :
    (k : Bytes) (m : Map ℕ) (ds : List RecordedTextDelta) (d : RecordedTextDelta)
    → d.file_token ≡ k
    → IsIndexed m ds
    → IsIndexed (insert k (length (ds ++ (d ∷ [])) - 1) m) (ds ++ (d ∷ []))
completed-IsIndexed k m ds d tok h token idx e = elim (Bool-cases (bytes_eq token k)) [
  | inl same ↦
      let n : ℕ = length (ds ++ (d ∷ [])) - 1 in
      let here : find token (insert k n m) ≡ some n =
        rw (bytes_eq→eq token k same) (find-insert k n m) in
      (
        d,
        rw (sym (some-inj (sym here ∙ e)), last) (get_elem?-last ds d),
        tok ∙ sym (bytes_eq→eq token k same),
      )
  | inr other ↦
      let (d', at, t) = h token idx (sym (find-insert-other token k _ m other) ∙ e) in
      (d', get_elem?-append ds (d ∷ []) idx d' at, t)
]
  where
    last : length (ds ++ (d ∷ [])) - 1 ≡ length ds
    last = omega (arith, length-append ds (d ∷ []))

    some-inj : {a b : ℕ} → ◌≡◌ {A = Option ℕ} (some a) (some b) → a ≡ b
    some-inj h = cc

set_checksum-HasToken :
    (sum : Bytes) (i : ℕ) (ds : List RecordedTextDelta) (token : Bytes) (idx : ℕ)
    → HasToken ds token idx
    → HasToken (set_checksum sum i ds) token idx
unfolding set_checksum
set_checksum-HasToken sum i [] token idx h = h
set_checksum-HasToken sum zero (x ∷ ds) token zero (d, at, t) =
    (record x { text_checksum = some sum }, refl, cc)
set_checksum-HasToken sum zero (x ∷ ds) token (suc idx) h = h
set_checksum-HasToken sum (suc i) (x ∷ ds) token zero h = h
set_checksum-HasToken sum (suc i) (x ∷ ds) token (suc idx) h =
    set_checksum-HasToken sum i ds token idx h

announce-HasToken :
    (sum : Option Bytes) (i : Option ℕ) (ds : List RecordedTextDelta) (token : Bytes) (idx : ℕ)
    → HasToken ds token idx
    → HasToken (announce sum i ds) token idx
unfolding announce
announce-HasToken none i ds token idx h = h
announce-HasToken (some sum) none ds token idx h = h
announce-HasToken (some sum) (some i) ds token idx h = set_checksum-HasToken sum i ds token idx h

pub empty-IsIndexed : (ds : List RecordedTextDelta) → IsIndexed [] ds
unfolding find
empty-IsIndexed ds token idx e = cc

open_file-IsWellIndexed :
    (path token : Bytes) (r : TextDeltaRecorder)
    → IsWellIndexed r
    → IsWellIndexed ((open_file path token r).0)
unfolding open_file
open_file-IsWellIndexed path token r h = elim (Option-cases (find token r.pending)) [
  | inr (p, e) ↦ rw (e, open_file) h
  | inl e ↦ rw (e, open_file) (remove-IsIndexed token r.last_completed r.completed h)
]

apply_text_delta-IsWellIndexed :
    (token : Bytes) (base : Option Bytes) (r : TextDeltaRecorder)
    → IsWellIndexed r
    → IsWellIndexed ((apply_text_delta token base r).0)
unfolding apply_text_delta
apply_text_delta-IsWellIndexed token base r h = elim (Option-cases (find token r.pending)) [
  | inr (p, e) ↦ rw (e, apply_text_delta) h
  | inl e ↦ rw (e, apply_text_delta) h
]

text_delta_chunk-IsWellIndexed :
    (token chunk : Bytes) (r : TextDeltaRecorder)
    → IsWellIndexed r
    → IsWellIndexed ((text_delta_chunk token chunk r).0)
unfolding text_delta_chunk
text_delta_chunk-IsWellIndexed token chunk r h = elim (Option-cases (find token r.pending)) [
  | inr (p, e) ↦ rw (e, text_delta_chunk) h
  | inl e ↦ rw (e, text_delta_chunk) h
]

text_delta_end-IsWellIndexed :
    (token : Bytes) (r : TextDeltaRecorder)
    → IsWellIndexed r
    → IsWellIndexed ((text_delta_end token r).0)
unfolding text_delta_end
text_delta_end-IsWellIndexed token r h = elim (Option-cases (find token r.pending)) [
  | inr (p, e) ↦
      rw (e, text_delta_end)
        (completed-IsIndexed token r.last_completed r.completed (recorded token p) refl h)
  | inl e ↦ rw (e, text_delta_end) h
]

close_file-IsWellIndexed :
    (token : Bytes) (sum : Option Bytes) (r : TextDeltaRecorder)
    → IsWellIndexed r
    → IsWellIndexed ((close_file token sum r).0)
unfolding close_file
close_file-IsWellIndexed token sum r h = elim (Option-cases (find token r.file_paths)) [
  | inr (p, e) ↦
      rw (e, close_file)
        (λ other idx f.
          announce-HasToken sum (find token r.last_completed) r.completed other idx
            (remove-IsIndexed token r.last_completed r.completed h other idx f))
  | inl e ↦ rw (e, close_file) h
]

finish-IsWellIndexed : (r : TextDeltaRecorder) → IsWellIndexed r → IsWellIndexed ((finish r).0)
unfolding finish
finish-IsWellIndexed r h = elim (Bool-cases (is_empty r.pending)) [
  | inr e ↦ rw e h
  | inl e ↦ elim (Bool-cases (is_empty r.file_paths)) [
    | inr e' ↦ rw (e, e') h
    | inl e' ↦ rw (e, e') (empty-IsIndexed r.completed)
  ]
]

on_event-step :
    (event : EditorEvent) (r : TextDeltaRecorder)
    → IsWellIndexed r
    → IsWellIndexed ((on_event event r).0)
unfolding on_event new
on_event-step (EditorEvent.add_file path _ token _) r h = open_file-IsWellIndexed path token r h
on_event-step (EditorEvent.open_file path _ token _) r h = open_file-IsWellIndexed path token r h
on_event-step (EditorEvent.apply_text_delta token base) r h =
    apply_text_delta-IsWellIndexed token base r h
on_event-step (EditorEvent.text_delta_chunk token chunk) r h =
    text_delta_chunk-IsWellIndexed token chunk r h
on_event-step (EditorEvent.text_delta_end token) r h = text_delta_end-IsWellIndexed token r h
on_event-step (EditorEvent.close_file token sum) r h = close_file-IsWellIndexed token sum r h
on_event-step EditorEvent.abort_edit r h = empty-IsIndexed []
on_event-step EditorEvent.close_edit r h = finish-IsWellIndexed r h
on_event-step EditorEvent.finish_replay r h = finish-IsWellIndexed r h
on_event-step (EditorEvent.target_rev _) r h = h
on_event-step (EditorEvent.open_root _ _) r h = h
on_event-step (EditorEvent.delete_entry _ _ _) r h = h
on_event-step (EditorEvent.add_dir _ _ _ _) r h = h
on_event-step (EditorEvent.open_dir _ _ _ _) r h = h
on_event-step (EditorEvent.change_dir_prop _ _ _) r h = h
on_event-step (EditorEvent.close_dir _) r h = h
on_event-step (EditorEvent.absent_dir _ _) r h = h
on_event-step (EditorEvent.change_file_prop _ _ _) r h = h
on_event-step (EditorEvent.absent_file _ _) r h = h
on_event-step (EditorEvent.rev_props _) r h = h

after_event-step :
    (next : TextDeltaRecorder → TextDeltaRecorder × Result (Unit {0}))
    (s : TextDeltaRecorder × Result (Unit {0}))
    → ((r : TextDeltaRecorder) → IsWellIndexed r → IsWellIndexed ((next r).0))
    → IsWellIndexed (s.0)
    → IsWellIndexed ((after_event next s).0)
after_event-step next (r, ok u) step h = step r h
after_event-step next (r, err e) step h = h

on_events-step :
    (events : List EditorEvent) (r : TextDeltaRecorder)
    → IsWellIndexed r
    → IsWellIndexed ((on_events events r).0)
unfolding on_events
on_events-step [] r h = h
on_events-step (event ∷ events) r h =
    after_event-step (on_events events) (on_event event r) (on_events-step events)
      (on_event-step event r h)

-- From a recorder with a sound index, in which a token is mapped to a completed record with that
-- token, every sequence of events, refused or not, keeps it sound. So does taking the completed
-- records.
pub on_events-IsWellIndexed :
    (events : List EditorEvent) (r : TextDeltaRecorder)
    → IsWellIndexed r
    → IsWellIndexed ((on_events events r).0)
      × IsWellIndexed ((take_completed ((on_events events r).0)).0)
unfolding take_completed
on_events-IsWellIndexed events r h = (on_events-step events r h, empty-IsIndexed [])
