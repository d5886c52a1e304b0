-- ===== src/Textdelta/Stream/Step.antt =====
-- One `next_window` on a stream whose input is well-formed windows without a source view, however
-- the bytes are cut into chunks.
use svn.Base.{
  ℕ, ◌+◌, ◌-◌, ◌^◌, ◌≤◌, ◌<◌, ◌≡◌, inl, inr, refl, sym, ap, ◌∙◌, subst, arith, ◌++◌, append_assoc,
  Bytes, length, take, drop, length-append, length-drop, Option-cases, Result-cases,
  take-append_length, drop-append_length, append_split, Option, none, some, true, false, ok, ltb,
  le→ltb, lt→ltb,
}
use native.Mathlib.Decide.{dec_lt}
use svn.Svndiff.Encode.{SvndiffVersion}
use svn.Textdelta.CursorBuf
use svn.Textdelta.CursorBuf.View.{consume_lem}
use svn.Textdelta.Stream.{
  SvndiffStream, ParsedWindow, available, window_size, check_sview, take_window, parse_pending,
  next_window,
}
use svn.Textdelta.Window.{WindowHeader, try_parse_window_header}
use svn.Textdelta.Window.Header.{try_parse_window_header-Extends}

-- The bytes of one window: a header of at most 50 bytes, which parses whatever follows it, and
-- two sections of the lengths that it gives.
pub record Framed (bs : Bytes) : Type 0 where
  pub w : WindowHeader
  pub head : Bytes
  pub ins : Bytes
  pub new : Bytes
  pub parses : (more : Bytes) → try_parse_window_header (head ++ more) ≡ ok (some w)
  pub shape : bs ≡ head ++ (ins ++ new)
  pub head_len : w.header_len ≡ length head
  pub ins_len : w.ins_len ≡ length ins
  pub new_len : w.new_len ≡ length new
  pub short : length head ≤ 50
  pub nonempty : 0 < length head
  pub no_offset : w.sview_offset ≡ 0
  pub no_sview : w.sview_len ≡ 0
  pub fits : length bs < 2 ^ 64

abbrev pub Pending : Option WindowHeader → Bytes → Type 0
Pending none avail = Unit {0}
Pending (some w) avail = try_parse_window_header avail ≡ ok (some w)

-- The header is in, the views have not moved, and the `room` bytes still to come fit the buffer.
pub record IsReady (v : SvndiffVersion) (room : ℕ) (s : SvndiffStream) : Type 0 where
  pub version_eq : s.version ≡ some v
  pub header_full : s.header_bytes ≡ 4
  pub fed : s.any_input ≡ true
  pub start_in : s.buf.start ≤ length s.buf.buf
  pub fits : length s.buf.buf + room < 2 ^ 64
  pub last_offset : s.last_sview_offset ≡ 0
  pub last_len : s.last_sview_len ≡ 0
  pub pending : Pending s.pending_window (available s)

-- Once a part of the input parses, all of it parses to the same header.
parse_more :
    (p more : Bytes) (w : WindowHeader)
    → try_parse_window_header p ≡ ok (some w)
    → try_parse_window_header (p ++ more) ≡ ok (some w)
parse_more p more w e = elim (try_parse_window_header-Extends p more) [
  | inl n ↦ absurd (cc (n, e))
  | inr same ↦ sym same ∙ e
]

-- A pending header stays the header of the buffer as it grows.
pub Pending-more :
    (o : Option WindowHeader) (avail more : Bytes) → Pending o avail → Pending o (avail ++ more)
Pending-more none avail more p = tt
Pending-more (some w) avail more p = parse_more avail more w p

-- The stream after window `w` of `n` bytes has left it.
abbrev pub popped : SvndiffStream → WindowHeader → ℕ → SvndiffStream
popped s w n = record s {
  buf = CursorBuf.consume s.buf n;
  pending_window = none;
  last_sview_offset = w.sview_offset;
  last_sview_len = w.sview_len;
}

module _ {bs : Bytes} (f : Framed bs) where
  open f use {w, head, ins, new}

  abbrev pub parsed : SvndiffVersion → ParsedWindow
  parsed v = record { version = v; window = w; ins_wire = ins; new_wire = new }

  window_size-Framed : window_size w ≡ some (length bs)
  unfolding window_size
  window_size-Framed = ground (
    arith,
    f.head_len,
    f.ins_len,
    f.new_len,
    f.fits,
    ap length f.shape,
    length-append head (ins ++ new),
    length-append ins new,
  )

  check_sview-Framed : (offset len : ℕ) → check_sview w offset len ≡ ok tt
  unfolding check_sview
  check_sview-Framed offset len = rw f.no_sview

  -- What the sections of the window are, in a buffer that starts with it.
  take_ins : (more : Bytes) → take w.ins_len (drop w.header_len (bs ++ more)) ≡ ins
  take_ins more =
      rw (f.shape, f.head_len, f.ins_len)
        (rw (append_assoc head (ins ++ new) more, drop-append_length head)
          (rw append_assoc (take-append_length ins _)))

  take_new : (more : Bytes) → take w.new_len (drop (w.header_len + w.ins_len) (bs ++ more)) ≡ new
  take_new more =
      let assoc : bs ++ more ≡ (head ++ ins) ++ (new ++ more) = rw f.shape (simp append_assoc) in
      let len : w.header_len + w.ins_len ≡ length (head ++ ins) =
        rw (f.head_len, f.ins_len) (sym (length-append head ins)) in
      rw (assoc, len, f.new_len) (rw drop-append_length (take-append_length new more))

  take_window-whole :
      (v : SvndiffVersion) (s : SvndiffStream) (more : Bytes)
      → available s ≡ bs ++ more
      → take_window v w s ≡ (popped s w (length bs), ok (some (parsed v)))
  unfolding take_window
  take_window-whole v s more e =
      let enough : ltb (length (bs ++ more)) (length bs) ≡ false =
        le→ltb _ _ (omega (arith, length-append bs more)) in
      let ti : take w.ins_len (drop w.header_len (available s)) ≡ ins = rw e (take_ins more) in
      let tn : take w.new_len (drop (w.header_len + w.ins_len) (available s)) ≡ new =
        rw e (take_new more) in
      let enough' : ltb (length (available s)) (length bs) ≡ false = rw e enough in
      rw (window_size-Framed, take_window)
        (rw (enough', check_sview-Framed s.last_sview_offset s.last_sview_len) (rw (ti, tn)))

  take_window-part :
      (v : SvndiffVersion) (s : SvndiffStream)
      → length (available s) < length bs
      → take_window v w s ≡ (s, ok none)
  unfolding take_window
  take_window-part v s lt = rw (window_size-Framed, take_window) (rw (lt→ltb _ _ lt))

  -- What a ready stream holds is a part of the window and what follows, or has the window in it.
  module _ (s : SvndiffStream) (rest tail : Bytes) (e : available s ++ rest ≡ bs ++ tail) where
    whole-parses : try_parse_window_header (available s ++ rest) ≡ ok (some w)
    whole-parses =
        rw e (rw f.shape (rw append_assoc (rw append_assoc (f.parses (ins ++ (new ++ tail))))))

    pending-eq : (w' : WindowHeader) → try_parse_window_header (available s) ≡ ok (some w') → w' ≡ w
    pending-eq w' p = cc (parse_more (available s) rest w' p, whole-parses)

    -- A part with no whole header in it is shorter than one.
    part-short : try_parse_window_header (available s) ≡ ok none → length (available s) ≤ 50
    part-short p = elim (dec_lt (length (available s)) (length head)) [
      | yes lt ↦ omega (arith, f.short)
      | no ge ↦
          let e' : available s ++ rest ≡ head ++ ((ins ++ new) ++ tail) =
            e ∙ rw f.shape (append_assoc head (ins ++ new) tail) in
          let (m, q, r) = append_split (available s) rest head _ e' (omega arith) in
          absurd (cc (p, ap try_parse_window_header q, f.parses m))
    ]

length-available : (s : SvndiffStream) → length (available s) ≡ length s.buf.buf - s.buf.start
unfolding CursorBuf.available
length-available s = length-drop s.buf.start s.buf.buf

-- `next_window` by the pending header and by what the buffer parses to.
pub next_window-parses :
    (v : SvndiffVersion) (s : SvndiffStream)
    → s.version ≡ some v
    → s.pending_window ≡ none
    → next_window s ≡ parse_pending v s
unfolding next_window
next_window-parses v s e n = simp (e, n, next_window)

next_window-pending :
    (v : SvndiffVersion) (s : SvndiffStream) (w : WindowHeader)
    → s.version ≡ some v
    → s.pending_window ≡ some w
    → next_window s ≡ take_window v w s
unfolding next_window
next_window-pending v s w e n = simp (e, n, next_window)

parse_pending-some :
    (v : SvndiffVersion) (s : SvndiffStream) (w : WindowHeader)
    → try_parse_window_header (available s) ≡ ok (some w)
    → parse_pending v s ≡ take_window v w (record s { pending_window = some w })
unfolding parse_pending
parse_pending-some v s w e = rw (e, parse_pending)

pub parse_pending-none :
    (v : SvndiffVersion) (s : SvndiffStream)
    → try_parse_window_header (available s) ≡ ok none
    → length (available s) ≤ 50
    → parse_pending v s ≡ (s, ok none)
unfolding parse_pending
parse_pending-none v s e le = rw (e, parse_pending) (rw (le→ltb 50 (length (available s)) le))

pub Pending-some :
    (avail : Bytes) {o : Option WindowHeader} {w : WindowHeader}
    → o ≡ some w
    → Pending o avail
    → try_parse_window_header avail ≡ ok (some w)
Pending-some avail e p = subst (λ t. Pending t avail) e p

-- The outcomes of `next_window` that the loop over a well-formed input meets: a window, or none
-- yet; either way the stream is ready for the `room` bytes to come.
pub record Took {bs : Bytes} (f : Framed bs) (v : SvndiffVersion) (room : ℕ) (s : SvndiffStream)
    (tail rest : Bytes) : Type 0 where
  pub next : SvndiffStream
  pub took : next_window s ≡ (next, ok (some (parsed f v)))
  pub ready : IsReady v room next
  pub left : available next ++ rest ≡ tail
  pub shrinks : length (available next) < length (available s)

pub record Waits (v : SvndiffVersion) (room : ℕ) (s : SvndiffStream) : Type 0 where
  pub next : SvndiffStream
  pub waits : next_window s ≡ (next, ok none)
  pub ready : IsReady v room next
  pub same : available next ≡ available s

module _ {bs : Bytes} (f : Framed bs) where
  open f use {w, head}

  -- The stream with the window pending, which is how it waits or takes it.
  abbrev waiting : SvndiffStream → SvndiffStream
  waiting s = record s { pending_window = some w }

  popped-IsReady :
      (v : SvndiffVersion) (room : ℕ) (s : SvndiffStream) (more : Bytes)
      → IsReady v room s
      → available s ≡ bs ++ more
      → IsReady v room (popped s w (length bs)) × (available (popped s w (length bs)) ≡ more)
  popped-IsReady v room s more r e =
      let inside : s.buf.start + length bs ≤ length s.buf.buf = omega (
        arith,
        r.start_in,
        f.nonempty,
        ap length e,
        ap length f.shape,
        length-append bs more,
        length-append head (f.ins ++ f.new),
        length-available s,
      ) in
      let (a, b, d) = consume_lem s.buf (length bs) (omega (arith, r.fits)) in
      (
        record {
          version_eq = r.version_eq;
          header_full = r.header_full;
          fed = r.fed;
          start_in = b;
          fits = omega (arith, r.fits);
          last_offset = f.no_offset;
          last_len = f.no_sview;
          pending = tt;
        },
        a ∙ rw e (drop-append_length bs more),
      )

  pub next_window-whole :
      (v : SvndiffVersion) (room : ℕ) (s : SvndiffStream) (rest tail : Bytes)
      → IsReady v room s
      → available s ++ rest ≡ bs ++ tail
      → length bs ≤ length (available s)
      → Took f v room s tail rest
  next_window-whole v room s rest tail r e le =
      let (more, split, tail-eq) = append_split (available s) rest bs tail e le in
      let (ready, left) = popped-IsReady v room s more r split in
      record {
        next = popped s w (length bs);
        took = elim (Option-cases s.pending_window) [
          | inl n ↦
              next_window-parses v s r.version_eq n
              ∙ parse_pending-some v s w (rw split (rw f.shape (rw append_assoc (f.parses _))))
              ∙ take_window-whole f v (waiting s) more split
          | inr (w', p) ↦
              next_window-pending v s w' r.version_eq p
              ∙ ap (λ u. take_window v u s) (pending-eq f s rest tail e w' (pending-parses w' p))
              ∙ take_window-whole f v s more split
        ];
        ready = ready;
        left = ap (λ (t : Bytes). t ++ rest) left ∙ sym tail-eq;
        shrinks = omega (
          arith,
          f.nonempty,
          ap length left,
          ap length split,
          ap length f.shape,
          length-append bs more,
          length-append head (f.ins ++ f.new),
        );
      }
    where
      pending-parses :
          (w' : WindowHeader)
          → s.pending_window ≡ some w'
          → try_parse_window_header (available s) ≡ ok (some w')
      pending-parses w' p = Pending-some (available s) p r.pending

  pub next_window-part :
      (v : SvndiffVersion) (room : ℕ) (s : SvndiffStream) (rest tail : Bytes)
      → IsReady v room s
      → available s ++ rest ≡ bs ++ tail
      → length (available s) < length bs
      → Waits v room s
  next_window-part v room s rest tail r e lt = elim (Option-cases s.pending_window) [
    | inr (w', p) ↦
        let same = pending-eq f s rest tail e w' (Pending-some (available s) p r.pending) in
        record {
          next = s;
          waits =
              next_window-pending v s w' r.version_eq p
              ∙ ap (λ u. take_window v u s) same
              ∙ take_window-part f v s lt;
          ready = r;
          same = refl;
        }
    | inl n ↦ elim (Result-cases (try_parse_window_header (available s))) [
      | inl (none, p) ↦ record {
        next = s;
        waits =
            next_window-parses v s r.version_eq n
            ∙ parse_pending-none v s p (part-short f s rest tail e p);
        ready = r;
        same = refl;
      }
      | inl (some w', p) ↦
          let p' : try_parse_window_header (available s) ≡ ok (some w) =
            p ∙ ap (λ u. ok (some u)) (pending-eq f s rest tail e w' p) in
          record {
            next = waiting s;
            waits =
                next_window-parses v s r.version_eq n
                ∙ parse_pending-some v s w p'
                ∙ take_window-part f v (waiting s) lt;
            ready = record {
              version_eq = r.version_eq;
              header_full = r.header_full;
              fed = r.fed;
              start_in = r.start_in;
              fits = r.fits;
              last_offset = r.last_offset;
              last_len = r.last_len;
              pending = p';
            };
            same = refl;
          }
      | inr (x, p) ↦ elim (try_parse_window_header-Extends (available s) rest) [
        | inl q ↦ absurd (cc (p, q))
        | inr q ↦ absurd (cc (p, q, whole-parses f s rest tail e))
      ]
    ]
  ]
