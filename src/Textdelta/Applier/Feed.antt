-- ===== src/Textdelta/Applier/Feed.antt =====
-- Chunks pushed into a stream: while the header is incomplete, and afterwards.
use svn.Base.{
  ℕ, suc, ◌+◌, ◌-◌, ◌^◌, ◌≤◌, ◌<◌, ◌≡◌, ◌≢◌, inl, inr, refl, sym, ap, ◌∙◌, arith, [], ◌∷◌, ◌++◌,
  append_assoc, append-nil, Bytes, length, take, drop, length-append, length-take, length-drop,
  drop-drop, take-append_length, drop-append_length, take_all, drop_all, Option, none, some, subst,
  true, false, Result, ok, ltb, ◌==◌, lt→ltb, le→ltb, eq→==, ne→==, take-append-drop, append_split,
  if◌then◌else◌,
}
use svn.Svndiff.Encode.{SvndiffVersion, v0, v1, v2, header}
use svn.Textdelta.CursorBuf
use svn.Textdelta.CursorBuf.View.{available-push, push_bounds}
use svn.Textdelta.Stream
use svn.Textdelta.Stream.{SvndiffStream, push, push_rest, push_header, header_filled, copy_header}
use svn.Textdelta.Stream.Step.{IsReady, Pending, Pending-more}
use svn.Textdelta.Window.{WindowHeader, from_header}
use Prim.Native.Nat.{min}
use mathlib.Core.Path.{ap₂}

-- A stream that is ready for `room` bytes takes a chunk of them.
pub record Fed (v : SvndiffVersion) (room : ℕ) (s : SvndiffStream) (chunk : Bytes) : Type 0 where
  pub next : SvndiffStream
  pub pushed : push s chunk ≡ (next, ok tt)
  pub ready : IsReady v room next
  pub joined : Stream.available next ≡ Stream.available s ++ chunk

push-full :
    (s : SvndiffStream) (b : ℕ) (bs : Bytes)
    → s.header_bytes ≡ 4
    → push s (b ∷ bs) ≡ (push_rest (record s { any_input = true }) (b ∷ bs), ok tt)
unfolding push
push-full s b bs e = let full : ltb s.header_bytes 4 ≡ false = le→ltb _ 4 (omega arith) in rw full

pub push-Fed :
    (v : SvndiffVersion) (room : ℕ) (s : SvndiffStream) (chunk : Bytes)
    → IsReady v (length chunk + room) s
    → Fed v room s chunk
unfolding push_rest
push-Fed v room s [] r = record {
  next = s;
  pushed = unfold push in refl;
  ready = record {
    version_eq = r.version_eq;
    header_full = r.header_full;
    fed = r.fed;
    start_in = r.start_in;
    fits = omega (arith, r.fits);
    last_offset = r.last_offset;
    last_len = r.last_len;
    pending = r.pending;
  };
  joined = sym (append-nil _);
}
push-Fed v room s (b ∷ bs) r =
    let joined = available-push s.buf (b ∷ bs) r.start_in in
    let (inside, grown) = push_bounds s.buf (b ∷ bs) r.start_in in
    record {
      next = push_rest (record s { any_input = true }) (b ∷ bs);
      pushed = push-full s b bs r.header_full;
      ready = record {
        version_eq = r.version_eq;
        header_full = r.header_full;
        fed = refl;
        start_in = inside;
        fits = omega (arith, r.fits);
        last_offset = r.last_offset;
        last_len = r.last_len;
        pending = rw joined (Pending-more s.pending_window (Stream.available s) (b ∷ bs) r.pending);
      };
      joined = joined;
    }

-- A stream with only `got` of a header of four bytes, and `pad` in the rest of the array.
pub record IsPartial (got : Bytes) (s : SvndiffStream) : Type 0 where
  pub pad : Bytes
  pub array : s.header ≡ got ++ pad
  pub four : length got + length pad ≡ 4
  pub count : s.header_bytes ≡ length got
  pub incomplete : length got < 4
  pub no_version : s.version ≡ none
  pub unbuffered : s.buf ≡ record { buf = []; start = 0 }
  pub no_pending : s.pending_window ≡ none
  pub last_offset : s.last_sview_offset ≡ 0
  pub last_len : s.last_sview_len ≡ 0
  -- The stream is the identity as long as it has taken no byte.
  pub identity : got ≢ [] → s.any_input ≡ true

pub empty-IsPartial : IsPartial [] Stream.empty
empty-IsPartial = record {
  pad = 0 ∷ 0 ∷ 0 ∷ 0 ∷ [];
  array = refl;
  four = refl;
  count = refl;
  incomplete = omega arith;
  no_version = refl;
  unbuffered = refl;
  no_pending = refl;
  last_offset = refl;
  last_len = refl;
  identity = λ ne. absurd (ne refl);
}

from_header-header : (v : SvndiffVersion) → from_header (header v) ≡ some v
unfolding from_header header
from_header-header v0 = unfold svn.Base.bytes_eq in refl
from_header-header v1 = unfold svn.Base.bytes_eq in refl
from_header-header v2 = unfold svn.Base.bytes_eq in refl

pub length-header : (v : SvndiffVersion) → length (header v) ≡ 4
unfolding header
length-header v0 = refl
length-header v1 = refl
length-header v2 = refl

-- The array after `count` bytes of `input` behind `got`.
filled_array :
    (got pad input : Bytes) (count : ℕ)
    → take (length got) (got ++ pad) ++ (take count input ++ drop (length got + count) (got ++ pad))
      ≡ got ++ (take count input ++ drop count pad)
filled_array got pad input count =
    rw (take-append_length got pad)
      (rw (← drop-drop (length got) count (got ++ pad)) (rw (drop-append_length got pad)))

module _ (got : Bytes) (s : SvndiffStream) (p : IsPartial got s) (b : ℕ) (bs : Bytes) where
  abbrev pub chunk : Bytes
  chunk = b ∷ bs

  abbrev pub fed : SvndiffStream
  fed = record s { any_input = true }

  push-header : push s chunk ≡ push_header fed chunk
  unfolding push
  push-header =
      let part : ltb s.header_bytes 4 ≡ true = lt→ltb _ 4 (omega (arith, p.count, p.incomplete)) in
      rw part

  -- The array with `count` bytes of the chunk in it.
  abbrev pub copied : ℕ → SvndiffStream
  copied count = record fed {
    header = got ++ (take count chunk ++ drop count p.pad);
    header_bytes = length got + count;
  }

  copy_header-copied : (count : ℕ) → copy_header fed chunk count ≡ copied count
  copy_header-copied count =
      let bytes : s.header_bytes + count ≡ length got + count = ap (λ (n : ℕ). n + count) p.count in
      ap₂ (λ (h : Bytes) (n : ℕ). record fed { header = h; header_bytes = n }) array bytes
    where
      array :
          take s.header_bytes s.header
            ++ (take count chunk ++ drop (s.header_bytes + count) s.header)
          ≡ got ++ (take count chunk ++ drop count p.pad)
      array =
          ap₂ (λ (h : Bytes) (n : ℕ). take n h ++ (take count chunk ++ drop (n + count) h)) p.array
            p.count
          ∙ filled_array got p.pad chunk count

  push-copied :
      (count : ℕ)
      → min (4 - s.header_bytes) (length chunk) ≡ count
      → push s chunk ≡ header_filled (copied count) (drop count chunk)
  push-copied count e =
      push-header
      ∙ unfold push_header in
        ap (λ (n : ℕ). header_filled (copy_header fed chunk n) (drop n chunk)) e
        ∙ ap (λ u. header_filled u (drop count chunk)) (copy_header-copied count)

  -- The header stays incomplete.
  pub push-IsPartial :
      length got + length chunk < 4
      → (push s chunk ≡ (copied (length chunk), ok tt))
        × IsPartial (got ++ chunk) (copied (length chunk))
  push-IsPartial lt =
      let incomplete : (length got + length chunk == 4) ≡ false = ne→== _ 4 (omega arith) in
      let none_left : drop (length chunk) chunk ≡ [] =
        drop_all (length chunk) chunk (omega arith) in
      let all_taken : take (length chunk) chunk ≡ chunk =
        take_all (length chunk) chunk (omega arith) in
      (
        push-copied (length chunk) (omega (arith, p.count))
            ∙ unfold header_filled push_rest CursorBuf.push in rw incomplete (rw none_left),
        record {
          pad = drop (length chunk) p.pad;
          array =
              ap (λ (t : Bytes). got ++ (t ++ drop (length chunk) p.pad)) all_taken
              ∙ sym (append_assoc got chunk _);
          four = omega (arith, length-append got chunk, length-drop (length chunk) p.pad, p.four);
          count = sym (length-append got chunk);
          incomplete = omega (arith, length-append got chunk);
          no_version = p.no_version;
          unbuffered = p.unbuffered;
          no_pending = p.no_pending;
          last_offset = p.last_offset;
          last_len = p.last_len;
          identity = λ ne. refl;
        },
      )

  -- The header is complete after the chunk's first bytes `front`, and `back` goes to the buffer.
  module _ (v : SvndiffVersion) (front back : Bytes) where
    abbrev pub completed : SvndiffStream
    completed = record (copied (length front)) {
      version = some v;
      buf = CursorBuf.push (record { buf = []; start = 0 }) back;
    }

    pub completed-IsReady :
        (room : ℕ)
        → length back + room < 2 ^ 64
        → length got + length front ≡ 4
        → IsReady v room completed
    completed-IsReady room fits four =
        let (inside, grown) = push_bounds (record { buf = []; start = 0 }) back (omega arith) in
        record {
          version_eq = refl;
          header_full = four;
          fed = refl;
          start_in = inside;
          fits = omega arith;
          last_offset = p.last_offset;
          last_len = p.last_len;
          pending = Pending-none p.no_pending;
        }
      where
        Pending-none : {o : Option WindowHeader} → o ≡ none → Pending o (Stream.available completed)
        Pending-none e = subst (λ t. Pending t (Stream.available completed)) (sym e) tt

    pub push-completed :
        chunk ≡ front ++ back → got ++ front ≡ header v → push s chunk ≡ (completed, ok tt)
    push-completed e h =
        push-copied (length front)
          (omega (arith, p.count, four, ap length e, length-append front back))
        ∙ ap (header_filled (copied (length front))) back_left
        ∙ unfold header_filled push_rest in
          rw (eq→== _ 4 four)
            (rw (ap from_header array ∙ from_header-header v) (ap buffered p.unbuffered))
      where
        four : length got + length front ≡ 4
        four = omega (arith, length-append got front, ap length h, length-header v)

        back_left : drop (length front) chunk ≡ back
        back_left = rw e (drop-append_length front back)

        array : got ++ (take (length front) chunk ++ drop (length front) p.pad) ≡ header v
        array = rw e (
            rw (take-append_length front back)
              (rw (drop_all (length front) p.pad (omega (arith, p.four, four))) (rw append-nil h)))

        buffered : CursorBuf.CursorBuf → SvndiffStream × Result (Unit {0})
        buffered c = (record completed { buf = CursorBuf.push c back }, ok tt)
