-- ===== src/Textdelta/Stream.antt =====
-- `SvndiffStream` (src/textdelta/decode.rs): raw chunks in, whole windows out. A method returns
-- the state that it leaves, on an error too.
pub mod Step
use svn.Base.{
  ℕ, suc, ◌+◌, ◌-◌, ◌*◌, [], ◌∷◌, ◌++◌, Bytes, text, length, take, drop, ltb, ◌==◌, ◌||◌,
  if◌then◌else◌, Option, none, some, Bool, true, false, Result, ok, err, protocol, ◌>>=◌, ◌>>◌,
  ok_or, refuse_if, not,
}
use svn.Base.Words.{checked_add}
use svn.Svndiff.Encode.{SvndiffVersion}
use svn.Textdelta.CursorBuf
use svn.Textdelta.CursorBuf.{CursorBuf}
use svn.Textdelta.Window.{
  WindowHeader, from_header, try_parse_window_header, svndiff_header_len, max_encoded_uint_len,
}
use Prim.Native.Nat.{min}

pub record ParsedWindow : Type 0 where
  pub version : SvndiffVersion
  pub window : WindowHeader
  pub ins_wire : Bytes
  pub new_wire : Bytes

-- `header` is the array of four bytes, of which `header_bytes` are filled.
pub record SvndiffStream : Type 0 where
  pub any_input : Bool
  pub header : Bytes
  pub header_bytes : ℕ
  pub version : Option SvndiffVersion
  pub buf : CursorBuf
  pub pending_window : Option WindowHeader
  pub last_sview_offset : ℕ
  pub last_sview_len : ℕ

-- `SvndiffStream::default()`
abbrev pub empty : SvndiffStream
empty = record {
  any_input = false;
  header = 0 ∷ 0 ∷ 0 ∷ 0 ∷ [];
  header_bytes = 0;
  version = none;
  buf = record { buf = []; start = 0 };
  pending_window = none;
  last_sview_offset = 0;
  last_sview_len = 0;
}

abbrev pub available : SvndiffStream → Bytes
available s = CursorBuf.available s.buf

unfoldable pub push_rest : SvndiffStream → Bytes → SvndiffStream
push_rest s input = record s { buf = CursorBuf.push s.buf input }

-- Behind the copy into the array: a complete header gives the version, and the rest of the chunk
-- goes to the buffer.
unfoldable pub header_filled : SvndiffStream → Bytes → SvndiffStream × Result (Unit {0})
unfolding push_rest
header_filled s rest =
    if s.header_bytes == svndiff_header_len
    then (elim (from_header s.header) [
      | none ↦ (record s { version = none }, err (protocol (text "svndiff has invalid header")))
      | some v ↦ (push_rest (record s { version = some v }) rest, ok tt)
    ])
    else (push_rest s rest, ok tt)

-- `count` bytes of the chunk copied to the array, behind those that it has.
abbrev pub copy_header : SvndiffStream → Bytes → ℕ → SvndiffStream
copy_header s input count = record s {
  header =
      take s.header_bytes s.header ++ (take count input ++ drop (s.header_bytes + count) s.header);
  header_bytes = s.header_bytes + count;
}

-- The chunk's first bytes complete the header, as far as they go.
unfoldable pub push_header : SvndiffStream → Bytes → SvndiffStream × Result (Unit {0})
unfolding header_filled
push_header s input =
    let count = min (svndiff_header_len - s.header_bytes) (length input) in
    header_filled (copy_header s input count) (drop count input)

unfoldable pub push : SvndiffStream → Bytes → SvndiffStream × Result (Unit {0})
unfolding push_header push_rest
push s [] = (s, ok tt)
push s (b ∷ bs) =
    let s' = record s { any_input = true } in
    if ltb s.header_bytes svndiff_header_len
    then push_header s' (b ∷ bs)
    else (push_rest s' (b ∷ bs), ok tt)

unfoldable pub is_identity : SvndiffStream → Bool
is_identity s = not s.any_input

-- The check that source views do not slide backwards, against the window before.
unfoldable pub check_sview : WindowHeader → ℕ → ℕ → Result (Unit {0})
check_sview w last_offset last_len =
    if ltb 0 w.sview_len
    then (do
      end ←
          ok_or (protocol (text "svndiff source view overflow"))
            (checked_add w.sview_offset w.sview_len)
      last_end ←
          ok_or (protocol (text "svndiff last source view overflow"))
            (checked_add last_offset last_len)
      refuse_if (ltb w.sview_offset last_offset || ltb end last_end)
          (protocol (text "svndiff has backwards-sliding source views")))
    else ok tt

-- The sizes of a window's three parts together.
unfoldable pub window_size : WindowHeader → Option ℕ
window_size w = elim (checked_add w.header_len w.ins_len) [
  | none ↦ none
  | some n ↦ checked_add n w.new_len
]

-- The pending window `w` leaves the buffer once all its bytes are there.
unfoldable pub take_window :
    SvndiffVersion → WindowHeader → SvndiffStream → SvndiffStream × Result (Option ParsedWindow)
take_window version w s = elim (window_size w) [
  | none ↦ (s, err (protocol (text "svndiff window size overflow")))
  | some needed ↦
      let avail = available s in
      let s' = record s { buf = CursorBuf.consume s.buf needed; pending_window = none } in
      let parsed : ParsedWindow = record {
        version = version;
        window = w;
        ins_wire = take w.ins_len (drop w.header_len avail);
        new_wire = take w.new_len (drop (w.header_len + w.ins_len) avail);
      } in
      if ltb (length avail) needed
      then (s, ok none)
      else (elim (check_sview w s.last_sview_offset s.last_sview_len) [
        | err e ↦ (s', err e)
        | ok _ ↦ (
          record s' { last_sview_offset = w.sview_offset; last_sview_len = w.sview_len },
          ok (some parsed),
        )
      ])
]

-- A header is parsed once, and kept until its window is complete.
unfoldable pub parse_pending :
    SvndiffVersion → SvndiffStream → SvndiffStream × Result (Option ParsedWindow)
parse_pending version s = elim (try_parse_window_header (available s)) [
  | err e ↦ (s, err e)
  | ok none ↦
      if ltb (5 * max_encoded_uint_len) (length (available s))
      then (s, err (protocol (text "svndiff contains a too-large window header")))
      else (s, ok none)
  | ok (some w) ↦ take_window version w (record s { pending_window = some w })
]

unfoldable pub next_window : SvndiffStream → SvndiffStream × Result (Option ParsedWindow)
next_window s = elim s.version [
  | none ↦ (s, ok none)
  | some version ↦ elim s.pending_window [
    | none ↦ parse_pending version s
    | some w ↦ take_window version w s
  ]
]

abbrev has_window : Option WindowHeader → Bool
has_window none = false
has_window (some w) = true

abbrev is_empty : Bytes → Bool
is_empty [] = true
is_empty (b ∷ bs) = false

unfoldable pub finish : SvndiffStream → Result (Unit {0})
unfolding is_identity
finish s = if is_identity s then ok tt else (do
  refuse_if (ltb s.header_bytes svndiff_header_len)
      (protocol (text "unexpected end of svndiff input (missing header)"))
  refuse_if (has_window s.pending_window || not (is_empty (available s)))
      (protocol (text "unexpected end of svndiff input (truncated window)")))
