-- ===== src/Textdelta/Applier/Fuel.antt =====
-- The loop over windows (`push` in src/textdelta/applier.rs) ends by itself: each window that is
-- taken shortens what is available, so the fuel is never what stops it.
use svn.Base.{
  ℕ, zero, suc, ◌+◌, ◌≤◌, ◌<◌, ◌≡◌, refl, sym, ap, arith, Bytes, length, length-drop, ltb,
  Bool-cases, true, false, subst, take, drop, SvnError, protocol, text, Option-cases, Result-cases,
  Option, none, some, Result, ok, err, inl, inr,
}
use svn.Base.Words.{u64_max}
use svn.Textdelta.CursorBuf as CursorBuf
use svn.Textdelta.CursorBuf.View.{consume_lem}
use svn.Textdelta.Stream.{
  SvndiffStream, ParsedWindow, window_size, check_sview, take_window, parse_pending, next_window,
  available,
}
use svn.Textdelta.Window.{WindowHeader, try_parse_window_header}
use svn.Textdelta.Window.Header.{try_parse_window_header-IsBounded}
use svn.Textdelta.Applier.{drain, after_next, after_write}
use svn.Svndiff.Encode.{SvndiffVersion}

-- What the stream keeps between calls: the read position is inside a buffer that memory can hold,
-- and a pending header is not empty.
pub record IsHeld (s : SvndiffStream) : Type 0 where
  pub start_in : s.buf.start ≤ length s.buf.buf
  pub fits : length s.buf.buf ≤ u64_max
  pub pending_pos : (w : WindowHeader) → s.pending_window ≡ some w → 0 < w.header_len

-- After a step: the invariant, and if a window came out, less is available.
abbrev Shrinks : SvndiffStream → SvndiffStream × Result (Option ParsedWindow) → Type 0
Shrinks s (s', ok (some p)) = IsHeld s' × (length (available s') < length (available s))
Shrinks s (s', ok none) = IsHeld s'
Shrinks s (s', err e) = IsHeld s'

window_size_bound : (w : WindowHeader) (n : ℕ) → window_size w ≡ some n → w.header_len ≤ n
unfolding window_size
window_size_bound w n h = ground arith

abbrev taken : SvndiffStream → ℕ → SvndiffStream
taken s needed = record s { buf = CursorBuf.consume s.buf needed; pending_window = none }

taken-IsHeld :
    (s : SvndiffStream) (needed : ℕ)
    → IsHeld s
    → 0 < needed
    → needed ≤ length (available s)
    → IsHeld (taken s needed) × (length (available (taken s needed)) < length (available s))
unfolding CursorBuf.available
taken-IsHeld s needed held pos le =
    let room = length-drop s.buf.start s.buf.buf in
    let inside = held.start_in in
    let small = held.fits in
    let (left, start_in, smaller) = consume_lem s.buf needed (omega arith) in
    (
      record { start_in = start_in; fits = omega arith; pending_pos = (λ w e. cc) },
      omega (arith, ap length left, length-drop needed (available s)),
    )

module _ (v : SvndiffVersion) (w : WindowHeader) (s : SvndiffStream) (needed : ℕ) where
  module _ (size : window_size w ≡ some needed) where
    take_window_short : ltb (length (available s)) needed ≡ true → take_window v w s ≡ (s, ok none)
    unfolding take_window
    take_window_short short = rw (size, short, take_window) refl

    take_window_refused :
        (e : SvnError)
        → ltb (length (available s)) needed ≡ false
        → check_sview w s.last_sview_offset s.last_sview_len ≡ err e
        → take_window v w s ≡ (taken s needed, err e)
    unfolding take_window
    take_window_refused e enough q = rw (size, enough, q, take_window) refl

    take_window_done :
        (u : Unit {0})
        → ltb (length (available s)) needed ≡ false
        → check_sview w s.last_sview_offset s.last_sview_len ≡ ok u
        → (p : ParsedWindow) × (take_window v w s ≡ (
          record (taken s needed) {
            last_sview_offset = w.sview_offset;
            last_sview_len = w.sview_len;
          },
          ok (some p),
        ))
    unfolding take_window
    take_window_done u enough q = (
      record {
        version = v;
        window = w;
        ins_wire = take w.ins_len (drop w.header_len (available s));
        new_wire = take w.new_len (drop (w.header_len + w.ins_len) (available s));
      },
      rw (size, enough, q, take_window) refl,
    )

take_window-none :
    (v : SvndiffVersion) (w : WindowHeader) (s : SvndiffStream)
    → window_size w ≡ none
    → take_window v w s ≡ (s, err (protocol (text "svndiff window size overflow")))
unfolding take_window
take_window-none v w s e = rw (e, take_window) refl

with_views-IsHeld :
    (s : SvndiffStream) (a b : ℕ)
    → IsHeld s
    → IsHeld (record s { last_sview_offset = a; last_sview_len = b })
with_views-IsHeld s a b h = record {
  start_in = h.start_in;
  fits = h.fits;
  pending_pos = h.pending_pos;
}

take_window-Shrinks :
    (v : SvndiffVersion) (w : WindowHeader) (s : SvndiffStream)
    → IsHeld s
    → 0 < w.header_len
    → Shrinks s (take_window v w s)
take_window-Shrinks v w s held pos = elim (Option-cases (window_size w)) [
  | inl e ↦ subst (Shrinks s) (sym (take_window-none v w s e)) held
  | inr (needed, e) ↦ elim (Bool-cases (ltb (length (available s)) needed)) [
    | inl short ↦ subst (Shrinks s) (sym (take_window_short v w s needed e short)) held
    | inr enough ↦
        let size = window_size_bound w needed e in
        let (still, less) = taken-IsHeld s needed held (omega arith) (ground arith) in
        elim (Result-cases (check_sview w s.last_sview_offset s.last_sview_len)) [
          | inl (u, q) ↦
              let (p, whole) = take_window_done v w s needed e u enough q in
              subst (Shrinks s) (sym whole)
                (with_views-IsHeld (taken s needed) w.sview_offset w.sview_len still, less)
          | inr (x, q) ↦
              subst (Shrinks s) (sym (take_window_refused v w s needed e x enough q)) still
        ]
  ]
]

waiting-IsHeld :
    (s : SvndiffStream) (w : WindowHeader)
    → IsHeld s
    → 0 < w.header_len
    → IsHeld (record s { pending_window = some w })
waiting-IsHeld s w held pos = record {
  start_in = held.start_in;
  fits = held.fits;
  pending_pos = (λ w' e. grind arith);
}

parse_pending-Shrinks :
    (v : SvndiffVersion) (s : SvndiffStream) → IsHeld s → Shrinks s (parse_pending v s)
unfolding parse_pending
parse_pending-Shrinks v s held = go (try_parse_window_header (available s)) refl
  where
    go :
        (r : Result (Option WindowHeader))
        → try_parse_window_header (available s) ≡ r
        → Shrinks s (parse_pending v s)
    go (err x) e = subst (Shrinks s) (sym failed) held
      where
        failed : parse_pending v s ≡ (s, err x)
        failed = rw (e, parse_pending) refl
    go (ok none) e = elim (Bool-cases (ltb 50 (length (available s)))) [
      | inl long ↦ subst (Shrinks s) (sym (too_long e long)) held
      | inr short ↦ subst (Shrinks s) (sym (waits e short)) held
    ]
      where
        too_long :
            try_parse_window_header (available s) ≡ ok none
            → ltb 50 (length (available s)) ≡ true
            → parse_pending v s
              ≡ (s, err (protocol (text "svndiff contains a too-large window header")))
        too_long e long = rw (e, parse_pending) (rw long)

        waits :
            try_parse_window_header (available s) ≡ ok none
            → ltb 50 (length (available s)) ≡ false
            → parse_pending v s ≡ (s, ok none)
        waits e short = rw (e, parse_pending) (rw short)
    go (ok (some w)) e =
        let (bounded, inside) = try_parse_window_header-IsBounded (available s) w e in
        let five = bounded.header_min in
        subst (Shrinks s) (sym found) (
          take_window-Shrinks v w (record s { pending_window = some w })
            (waiting-IsHeld s w held (omega arith)) (omega arith))
      where
        found : parse_pending v s ≡ take_window v w (record s { pending_window = some w })
        found = rw (e, parse_pending) refl

next_window-Shrinks : (s : SvndiffStream) → IsHeld s → Shrinks s (next_window s)
unfolding next_window
next_window-Shrinks s held = go s.version refl s.pending_window refl
  where
    unversioned : s.version ≡ none → next_window s ≡ (s, ok none)
    unversioned e = simp (e, next_window)

    parses :
        (v : SvndiffVersion)
        → s.version ≡ some v
        → s.pending_window ≡ none
        → next_window s ≡ parse_pending v s
    parses v e n = simp (e, n, next_window)

    takes :
        (v : SvndiffVersion) (w : WindowHeader)
        → s.version ≡ some v
        → s.pending_window ≡ some w
        → next_window s ≡ take_window v w s
    takes v w e n = simp (e, n, next_window)

    go :
        (version : Option SvndiffVersion)
        → s.version ≡ version
        → (pending : Option WindowHeader) → s.pending_window ≡ pending
        → Shrinks s (next_window s)
    go none e pending n = subst (Shrinks s) (sym (unversioned e)) held
    go (some v) e none n = subst (Shrinks s) (sym (parses v e n)) (parse_pending-Shrinks v s held)
    go (some v) e (some w) n =
        subst (Shrinks s) (sym (takes v w e n))
          (take_window-Shrinks v w s held (held.pending_pos w n))

module _ {W : Type 0} (write_all : W → Bytes → W × Result (Unit {0}))
    (data_of : ParsedWindow → Result Bytes) where
  abbrev Loop : Type 0
  Loop = SvndiffStream → W → (SvndiffStream × W) × Result (Unit {0})

  -- Two ways to go on that agree on streams with less available give the same round.
  after_next_same :
      (again again' : Loop) (s : SvndiffStream) (out : W)
      (r : SvndiffStream × Result (Option ParsedWindow))
      → Shrinks s r
      → ((s' : SvndiffStream) (out' : W)
          → IsHeld s'
          → length (available s') < length (available s)
          → again s' out' ≡ again' s' out')
      → after_next write_all data_of again out r ≡ after_next write_all data_of again' out r
  unfolding after_next after_write
  after_next_same again again' s out (s', err e) h same = refl
  after_next_same again again' s out (s', ok none) h same = refl
  after_next_same again again' s out (s', ok (some p)) (held, less) same = go (data_of p)
    where
      written :
          (r : W × Result (Unit {0}))
          → after_write write_all again s' r ≡ after_write write_all again' s' r
      written (out', err e) = refl
      written (out', ok u) = same s' out' held less

      go :
          (r : Result Bytes)
          → elim r [
            | err e ↦ ((s', out), err e)
            | ok bytes ↦ after_write write_all again s' (write_all out bytes)
          ]
            ≡ (elim r [
              | err e ↦ ((s', out), err e)
              | ok bytes ↦ after_write write_all again' s' (write_all out bytes)
            ])
      go (err e) = refl
      go (ok bytes) = written (write_all out bytes)

  -- On a stream whose read position is inside a buffer of less than 2^64 bytes, and whose pending
  -- header is not empty, fuel above the number of bytes available is enough: any two such amounts
  -- give the same writes, the same stream and the same result, whatever the windows and the writer
  -- do.
  pub drain_fuel :
      (fuel fuel' : ℕ) (s : SvndiffStream) (out : W)
      → IsHeld s
      → length (available s) < fuel
      → length (available s) < fuel'
      → drain write_all data_of fuel s out ≡ drain write_all data_of fuel' s out
  unfolding drain
  drain_fuel zero fuel' s out held lt lt' = absurd (omega arith)
  drain_fuel (suc fuel) zero s out held lt lt' = absurd (omega arith)
  drain_fuel (suc fuel) (suc fuel') s out held lt lt' =
      after_next_same (drain write_all data_of fuel) (drain write_all data_of fuel') s out
        (next_window s) (next_window-Shrinks s held)
        (λ s' out' held' less. drain_fuel fuel fuel' s' out' held' (omega arith) (omega arith))
