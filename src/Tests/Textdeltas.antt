-- ===== src/Tests/Textdeltas.antt =====
-- svndiff documents encoded, parsed and applied.
use svn.Base.{
  none, true, ◌≡◌, ◌≢◌, ◌≤◌, ◌^◌, ◌%◌, refl, arith, List, [], ◌∷◌, ◌++◌, Bytes, length, drop, text,
  ok, err, some, protocol,
}
use svn.Tests.Codecs.{stored, stored-IsLossless}
use svn.Svndiff.Uint.{encode_uint}
use svn.Svndiff.Encode.{
  encode_windows, chunks, encode_insertion_window, compress_zlib, encode_new_instruction, header,
  v0, v1, encode_fulltext_with_options, sections, insertion,
}
use svn.Textdelta.Uint.{
  try_decode_uint, try_decode_uint-IsComplete, try_decode_uint-ne-err, value_from,
}
use svn.Textdelta.Uint.RoundTrip.{try_decode_uint-encode_uint}
use svn.Textdelta.Window.{WindowHeader, try_parse_window_header}
use svn.Textdelta.Window.Header.{
  IsBounded, Extends, try_parse_window_header-IsBounded, try_parse_window_header-Extends,
}
use svn.Textdelta.Window.Sections.{Restores, decode_section-sections}
use svn.Textdelta.CursorBuf.{CursorBuf, available, consume}
use svn.Textdelta.CursorBuf.View.{consume_lem}
use svn.Textdelta.Stream.{SvndiffStream}
use svn.Textdelta.Applier.Fuel.{IsHeld, drain_fuel}
use svn.Textdelta.Applier.{drain, window_data, apply_textdelta, vec_write}
use svn.Textdelta.Applier.Fulltext.{apply_textdelta-encode_fulltext}

-- The text "abc" in two windows of svndiff version 1, cut inside the header and inside a window.
abbrev abc_chunks : List Bytes
abc_chunks =
    (0x53 ∷ 0x56 ∷ [])
    ∷ (0x4e ∷ 1 ∷ 0 ∷ 0 ∷ 2 ∷ 2 ∷ 3 ∷ 1 ∷ [])
    ∷ (0x82 ∷ 2 ∷ 0x61 ∷ 0x62 ∷ 0 ∷ 0 ∷ 1 ∷ 2 ∷ 2 ∷ 1 ∷ 0x81 ∷ 1 ∷ 0x63 ∷ [])
    ∷ []

abc_encoded :
    encode_fulltext_with_options stored v1 (0x61 ∷ 0x62 ∷ 0x63 ∷ []) 5 2
    ≡ ok (
        0x53 ∷ 0x56 ∷ 0x4e ∷ 1 ∷ 0 ∷ 0 ∷ 2 ∷ 2 ∷ 3 ∷ 1 ∷ 0x82 ∷ 2 ∷ 0x61 ∷ 0x62 ∷ 0 ∷ 0 ∷ 1 ∷ 2 ∷ 2
        ∷ 1 ∷ 0x81 ∷ 1 ∷ 0x63 ∷ [])
unfolding encode_fulltext_with_options encode_windows chunks encode_insertion_window sections
    compress_zlib insertion encode_new_instruction encode_uint header
abc_encoded = refl

apply_textdelta-encode_fulltext_example :
    apply_textdelta vec_write stored (7 ∷ []) abc_chunks (9 ∷ [])
    ≡ (9 ∷ 0x61 ∷ 0x62 ∷ 0x63 ∷ [], ok tt)
apply_textdelta-encode_fulltext_example =
    apply_textdelta-encode_fulltext stored stored-IsLossless v1 (0x61 ∷ 0x62 ∷ 0x63 ∷ []) 5 2
      (omega arith) abc_chunks (omega arith) abc_encoded (7 ∷ []) (9 ∷ [])

try_decode_uint-encode_uint_example :
    (try_decode_uint (encode_uint 300 [] ++ 7 ∷ []) ≡ ok (some (300, length (encode_uint 300 []))))
    × (length (encode_uint 300 []) ≤ 10)
try_decode_uint-encode_uint_example = try_decode_uint-encode_uint 300 (7 ∷ []) (omega arith)

-- 2^64 + 1 in ten bytes: the decoder takes it for 1.
abbrev too_large : Bytes
too_large = 0x82 ∷ 0x80 ∷ 0x80 ∷ 0x80 ∷ 0x80 ∷ 0x80 ∷ 0x80 ∷ 0x80 ∷ 0x80 ∷ 0x01 ∷ []

try_decode_uint-IsComplete_example :
    try_decode_uint (too_large ++ 7 ∷ [])
    ≡ ok (some (value_from 0 too_large % 2 ^ 64, length too_large))
try_decode_uint-IsComplete_example =
    try_decode_uint-IsComplete too_large (7 ∷ [])
      (refl, (refl, (refl, (refl, (refl, (refl, (refl, (refl, (refl, refl)))))))))

try_decode_uint_wraps : try_decode_uint too_large ≡ ok (some (1, 10))
unfolding try_decode_uint
try_decode_uint_wraps = refl

try_decode_uint-ne-err_example :
    try_decode_uint too_large ≢ err (protocol (text "svndiff integer overflow"))
try_decode_uint-ne-err_example =
    try_decode_uint-ne-err too_large (protocol (text "svndiff integer overflow"))

abbrev small_header : WindowHeader
small_header = record {
  sview_offset = 0;
  sview_len = 0;
  tview_len = 3;
  ins_len = 1;
  new_len = 3;
  header_len = 5;
}

small_header_parsed :
    try_parse_window_header (0 ∷ 0 ∷ 3 ∷ 1 ∷ 3 ∷ 0x83 ∷ []) ≡ ok (some small_header)
unfolding try_parse_window_header try_decode_uint
small_header_parsed = refl

try_parse_window_header-IsBounded_example : IsBounded small_header × (small_header.header_len ≤ 6)
try_parse_window_header-IsBounded_example =
    try_parse_window_header-IsBounded (0 ∷ 0 ∷ 3 ∷ 1 ∷ 3 ∷ 0x83 ∷ []) small_header
      small_header_parsed

try_parse_window_header-Extends_example :
    Extends
      (try_parse_window_header (0 ∷ 0 ∷ 0x83 ∷ []))
      (try_parse_window_header (0 ∷ 0 ∷ 0x83 ∷ 1 ∷ 1 ∷ 3 ∷ []))
try_parse_window_header-Extends_example =
    try_parse_window_header-Extends (0 ∷ 0 ∷ 0x83 ∷ []) (1 ∷ 1 ∷ 3 ∷ [])

abbrev cursor : CursorBuf
cursor = record { buf = 1 ∷ 2 ∷ 3 ∷ 4 ∷ []; start = 1 }

consume_lem_example :
    (available (consume cursor 2) ≡ drop 2 (available cursor))
    × ((consume cursor 2).start ≤ length (consume cursor 2).buf)
    × (length (consume cursor 2).buf ≤ 4)
consume_lem_example = consume_lem cursor 2 (omega arith)

sections_example : sections stored v1 (0x81 ∷ []) (5 ∷ []) 5 ≡ ok (1 ∷ 0x81 ∷ [], 1 ∷ 5 ∷ [])
unfolding sections compress_zlib encode_uint
sections_example = refl

decode_section-sections_example :
    Restores stored v1 (0x81 ∷ []) (1 ∷ 0x81 ∷ []) × Restores stored v1 (5 ∷ []) (1 ∷ 5 ∷ [])
decode_section-sections_example =
    decode_section-sections stored stored-IsLossless v1 (0x81 ∷ []) (5 ∷ []) (1 ∷ 0x81 ∷ [])
      (1 ∷ 5 ∷ []) 5 (omega arith) (omega arith) sections_example

-- A stream of version 0 with a window of one byte, and one more byte.
abbrev one_window : SvndiffStream
one_window = record {
  any_input = true;
  header = 0x53 ∷ 0x56 ∷ 0x4e ∷ 0 ∷ [];
  header_bytes = 4;
  version = some v0;
  buf = record { buf = 0 ∷ 0 ∷ 1 ∷ 1 ∷ 1 ∷ 0x81 ∷ 7 ∷ 0 ∷ []; start = 0 };
  pending_window = none;
  last_sview_offset = 0;
  last_sview_len = 0;
}

one_window-IsHeld : IsHeld one_window
one_window-IsHeld = record {
  start_in = omega arith;
  fits = omega arith;
  pending_pos = (λ w e. absurd (cc e));
}

drain_fuel_example :
    drain vec_write (window_data stored []) 9 one_window []
    ≡ drain vec_write (window_data stored []) 100 one_window []
unfolding available
drain_fuel_example =
    drain_fuel vec_write (window_data stored []) 9 100 one_window [] one_window-IsHeld (omega arith)
      (omega arith)
