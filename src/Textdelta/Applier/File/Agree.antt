-- ===== src/Textdelta/Applier/File/Agree.antt =====
-- The appliers over a file against those over a base in memory (src/textdelta/applier.rs).
use svn.Base.{
  ℕ, zero, suc, ◌+◌, ◌≤◌, ◌<◌, ◌^◌, ◌≡◌, refl, sym, ap, ◌∙◌, arith, [], ◌∷◌, ◌++◌, List, Bytes,
  length, take, drop, ltb, ◌==◌, Bool-cases, true, false, inl, inr, Option, none, some, Result, ok,
  err, protocol, text, >>=-eq-ok, ok_or, refuse_if, ◌>>=◌, ◌>>◌, Bool, SvnError, Result-cases,
  append-nil, le→ltb, lt→ltb,
}
use svn.Base.Words.{checked_add, usize_try_from}
use svn.Codec.{Codec}
use svn.Textdelta.Apply.{apply_window, apply_window_source}
use svn.Textdelta.Applier as Applier
use svn.Textdelta.Applier.{window_data, vec_write, Pushed, drain, after_next, after_write}
use svn.Textdelta.Applier.File.{
  FileSystem, FileApplier, read_base, read_source_view, read_nonempty_view, file_window_data,
  base_size, copy_base, finish, with_stream, after_chunk, push_all, after_new, apply_textdelta_file,
}
use svn.Textdelta.Stream
use svn.Textdelta.Stream.{SvndiffStream, ParsedWindow}
use svn.Textdelta.Window.{
  WindowHeader, decode_section, delta_window_max, max_instruction_section_len,
}

-- A file that holds the bytes of `base`: its length, its reads within it, and the copy of it.
pub record Holds {F : Type 0} (files : FileSystem F Bytes) (file : F) (base : Bytes) : Type 0 where
  pub len : files.file_len file ≡ ok (length base)
  pub reads :
      (offset n : ℕ)
      → offset + n ≤ length base
      → files.read_at file offset n ≡ ok (take n (drop offset base))
  pub copies : (out : Bytes) → files.copy file out ≡ (out ++ base, ok tt)

-- No file stands for the empty base.
abbrev pub IsBaseOf : {F : Type 0} → FileSystem F Bytes → Option F → Bytes → Type 0
IsBaseOf files none base = base ≡ []
IsBaseOf files (some file) base = Holds files file base

-- A window that succeeds in memory has its view inside the base.
record Inside (base : Bytes) (w : WindowHeader) (instructions new_data written : Bytes)
    : Type 0 where
  small : w.sview_offset + w.sview_len < 2 ^ 64
  within : w.sview_offset + w.sview_len ≤ length base
  runs :
      apply_window_source
        (take w.sview_len (drop w.sview_offset base))
        w.tview_len
        instructions
        new_data
      ≡ ok written

usize-eq-ok : (v : ℕ) (e : SvnError) {n : ℕ} → ok_or e (usize_try_from v) ≡ ok n → n ≡ v
usize-eq-ok v e h = elim (Bool-cases (ltb v (2 ^ 64))) [
  | inr large ↦ cc (rw large at h)
  | inl fits ↦ cc (rw fits at h)
]

add-eq-ok :
    (a b : ℕ) (e : SvnError) {n : ℕ}
    → ok_or e (checked_add a b) ≡ ok n
    → (a + b < 2 ^ 64) × (n ≡ a + b)
add-eq-ok a b e h = elim (Bool-cases (ltb (a + b) (2 ^ 64))) [
  | inr large ↦ cc (rw large at h)
  | inl fits ↦ (ground (arith, fits), cc (rw fits at h))
]

passes :
    (t : Bool) (e : SvnError) (rest : Result Bytes) {written : Bytes}
    → (refuse_if t e >> rest) ≡ ok written
    → (t ≡ false) × (rest ≡ ok written)
passes true e rest h = cc
passes false e rest h = (refl, h)

apply_window-Inside :
    (base : Bytes) (w : WindowHeader) (instructions new_data written : Bytes)
    → apply_window base w instructions new_data ≡ ok written
    → Inside base w instructions new_data written
unfolding apply_window
apply_window-Inside base w instructions new_data written h =
    let (offset, is_offset, h1) = >>=-eq-ok _ _ h in
    let (end, is_end, h2) = >>=-eq-ok _ _ h1 in
    let (in_base, h3) =
      passes (ltb (length base) end) (protocol (text "svndiff source view out of bounds for base"))
        _ h2 in
    let at' = usize-eq-ok w.sview_offset _ is_offset in
    let (fits, sum) = add-eq-ok offset w.sview_len _ is_end in
    record {
      small = rw (← at') fits;
      within = ground (arith, in_base, sum, at');
      runs = rw (← at') h3;
    }

module _ {F : Type 0} (files : FileSystem F Bytes) where
  read_base-Holds :
      (file : Option F) (base : Bytes) (offset n : ℕ)
      → IsBaseOf files file base
      → 0 < n
      → offset + n ≤ length base
      → read_base files file offset n ≡ ok (take n (drop offset base))
  unfolding read_base
  read_base-Holds none base offset n empty pos h = absurd (omega (arith, ap length empty))
  read_base-Holds (some file) base offset n holds pos h = holds.reads offset n h

  -- A view inside the base is read as the slice that it is in memory.
  read_source_view-take :
      (file : Option F) (base : Bytes) (w : WindowHeader)
      → IsBaseOf files file base
      → w.sview_offset + w.sview_len < 2 ^ 64
      → w.sview_offset + w.sview_len ≤ length base
      → read_source_view files file (length base) w
        ≡ ok (take w.sview_len (drop w.sview_offset base))
  unfolding read_source_view read_nonempty_view
  read_source_view-take file base w holds small within = elim (Bool-cases (w.sview_len == 0)) [
    | inl zero_len ↦
        rw zero_len
          (ap (λ (n : ℕ). ok (take n (drop w.sview_offset base))) (sym (none_of zero_len)))
    | inr some_len ↦ rw some_len (
        rw (lt→ltb (w.sview_offset + w.sview_len) (2 ^ 64) small) (
          rw (le→ltb (length base) (w.sview_offset + w.sview_len) within) (
            read_base-Holds file base w.sview_offset w.sview_len holds (ground (arith, some_len))
              within)))
  ]
    where
      none_of : (w.sview_len == 0) ≡ true → w.sview_len ≡ 0
      none_of h = ground (arith, h)

  file_window_data-window_data :
      (c : Codec) (file : Option F) (base : Bytes) (p : ParsedWindow) (written : Bytes)
      → IsBaseOf files file base
      → window_data c base p ≡ ok written
      → file_window_data files c file (length base) p ≡ ok written
  unfolding window_data file_window_data
  file_window_data-window_data c file base p written holds h =
      let (instructions, is_ins, h1) =
        >>=-eq-ok (decode_section c p.version p.ins_wire max_instruction_section_len) _ h in
      let (new_data, is_new, h2) =
        >>=-eq-ok (decode_section c p.version p.new_wire delta_window_max) _ h1 in
      let i = apply_window-Inside base p.window instructions new_data written h2 in
      rw is_ins
        (rw is_new (rw (read_source_view-take file base p.window holds i.small i.within) i.runs))

-- A loop that succeeds with one way to get what a window writes, with another that agrees on the
-- windows that succeed.
module _ (data_of data_of' : ParsedWindow → Result Bytes)
    (agrees : (p : ParsedWindow) (written : Bytes)
      → data_of p ≡ ok written
      → data_of' p ≡ ok written) where
  abbrev Loop : Type 0
  Loop = SvndiffStream → Bytes → (SvndiffStream × Bytes) × Result (Unit {0})

  -- A round behind what its window writes.
  abbrev round : Loop → SvndiffStream → Bytes → Result Bytes → Pushed vec_write
  round again s out (err e) = ((s, out), err e)
  round again s out (ok written) = after_write vec_write again s (vec_write out written)

  refused :
      {s s' : SvndiffStream} {out out' : Bytes} {e : SvnError}
      → Path (Pushed vec_write) ((s, out), err e) ((s', out'), ok tt)
      → ⊥
  refused h = cc h

  after_next_agrees :
      (again again' : Loop) (out : Bytes) (r : SvndiffStream × Result (Option ParsedWindow))
      {s' : SvndiffStream} {out' : Bytes}
      → ((s : SvndiffStream) (o : Bytes)
          → again s o ≡ ((s', out'), ok tt)
          → again' s o ≡ ((s', out'), ok tt))
      → after_next vec_write data_of again out r ≡ ((s', out'), ok tt)
      → after_next vec_write data_of' again' out r ≡ ((s', out'), ok tt)
  unfolding after_next after_write
  after_next_agrees again again' out (s, err e) same h = h
  after_next_agrees again again' out (s, ok none) same h = h
  after_next_agrees again again' out (s, ok (some p)) same h = elim (Result-cases (data_of p)) [
    | inl (written, w) ↦
        ap (round again' s out) (agrees p written w)
        ∙ same s (out ++ written) (sym (ap (round again s out) w) ∙ h)
    | inr (e, w) ↦ absurd (refused (sym (ap (round again s out) w) ∙ h))
  ]

  drain_agrees :
      (fuel : ℕ) (s : SvndiffStream) (out : Bytes) {s' : SvndiffStream} {out' : Bytes}
      → drain vec_write data_of fuel s out ≡ ((s', out'), ok tt)
      → drain vec_write data_of' fuel s out ≡ ((s', out'), ok tt)
  unfolding drain
  drain_agrees zero s out h = h
  drain_agrees (suc fuel) s out h =
      after_next_agrees (drain vec_write data_of fuel) (drain vec_write data_of' fuel) out
        (Stream.next_window s) (λ s1 o h1. drain_agrees fuel s1 o h1) h

  after_push_agrees :
      (out : Bytes) (r : SvndiffStream × Result (Unit {0})) {s' : SvndiffStream} {out' : Bytes}
      → Applier.after_push vec_write data_of out r ≡ ((s', out'), ok tt)
      → Applier.after_push vec_write data_of' out r ≡ ((s', out'), ok tt)
  unfolding Applier.after_push
  after_push_agrees out (s, err e) h = h
  after_push_agrees out (s, ok u) h = drain_agrees (suc (length (Stream.available s))) s out h

  push_agrees :
      (s : SvndiffStream) (chunk out : Bytes) {s' : SvndiffStream} {out' : Bytes}
      → Applier.push vec_write data_of s chunk out ≡ ((s', out'), ok tt)
      → Applier.push vec_write data_of' s chunk out ≡ ((s', out'), ok tt)
  unfolding Applier.push
  push_agrees s chunk out h = after_push_agrees out (Stream.push s chunk) h

-- The outcome of a chunk and of those behind it, when all succeed.
after_chunk-inv :
    (again : SvndiffStream → Bytes → Bytes × Result (Unit {0})) (r : Pushed vec_write)
    {out' : Bytes}
    → Applier.after_chunk vec_write again r ≡ (out', ok tt)
    → (s : SvndiffStream) × (out : Bytes) × (r ≡ ((s, out), ok tt)) × (again s out ≡ (out', ok tt))
unfolding Applier.after_chunk
after_chunk-inv again ((s, out), err e) h = absurd (cc h)
after_chunk-inv again ((s, out), ok u) h = (s, out, refl, h)

module _ {F : Type 0} (files : FileSystem F Bytes) (c : Codec) (file : Option F) (base : Bytes)
    (holds : IsBaseOf files file base) where
  abbrev applier : SvndiffStream → FileApplier F
  applier s = record { base = file; base_len = length base; stream = s }

  base_size-length : (f : Option F) → IsBaseOf files f base → base_size files f ≡ ok (length base)
  unfolding base_size
  base_size-length none e = ap (λ (b : Bytes). ok (length b)) (sym e)
  base_size-length (some f) h = h.len

  copy_base-append :
      (f : Option F) (out : Bytes)
      → IsBaseOf files f base
      → copy_base files f out ≡ (out ++ base, ok tt)
  unfolding copy_base
  copy_base-append none out e =
      ap (λ (b : Bytes). (b, ok tt)) (sym (append-nil out) ∙ ap (λ (b : Bytes). out ++ b) (sym e))
  copy_base-append (some f) out h = h.copies out

  finish-same :
      (s : SvndiffStream) (out : Bytes)
      → finish files (applier s) out ≡ Applier.finish vec_write base s out
  unfolding finish Applier.finish
  finish-same s out = rw (copy_base-append file out holds) refl

  push_all_agrees :
      (chunks : List Bytes) (s : SvndiffStream) (out : Bytes) {out' : Bytes}
      → Applier.push_all vec_write (window_data c base) base chunks s out ≡ (out', ok tt)
      → push_all files vec_write c chunks (applier s) out ≡ (out', ok tt)
  unfolding push_all Applier.push_all
  push_all_agrees [] s out h = finish-same s out ∙ h
  push_all_agrees (chunk ∷ chunks) s out h =
      let (s', mid, pushed, rest) =
        after_chunk-inv (Applier.push_all vec_write (window_data c base) base chunks)
          (Applier.push vec_write (window_data c base) s chunk out) h in
      let pushed' =
        push_agrees (window_data c base) (file_window_data files c file (length base))
          (λ p written. file_window_data-window_data files c file base p written holds) s chunk out
          pushed in
      ap
        (λ r.
          after_chunk files vec_write c (push_all files vec_write c chunks)
            (with_stream files vec_write c (applier s) r))
        pushed'
      ∙ unfold with_stream after_chunk in push_all_agrees chunks s' mid rest

  -- What applies to a base in memory applies to a file that holds the same bytes (to no file for
  -- an empty base), with the same bytes written: if the length of the file, its reads and its copy
  -- are those of the base.
  pub apply_textdelta_file-apply_textdelta :
      (chunks : List Bytes) (out out' : Bytes)
      → Applier.apply_textdelta vec_write c base chunks out ≡ (out', ok tt)
      → apply_textdelta_file files vec_write c file chunks out ≡ (out', ok tt)
  unfolding Applier.apply_textdelta apply_textdelta_file
  apply_textdelta_file-apply_textdelta chunks out out' h =
      ap (λ r. after_new files vec_write c chunks out (r >>= opened)) (base_size-length file holds)
      ∙ push_all_agrees chunks Stream.empty out h
    where
      opened : ℕ → Result (FileApplier F)
      opened n = ok (record { base = file; base_len = n; stream = Stream.empty })
