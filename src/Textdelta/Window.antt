-- ===== src/Textdelta/Window.antt =====
-- The header and the sections of a window (src/textdelta/decode.rs).
pub mod Sections
pub mod Header
use svn.Base.{
  ℕ, ◌+◌, ◌*◌, [], ◌∷◌, Bytes, text, length, drop, ltb, ◌==◌, ◌||◌, if◌then◌else◌, Option, none,
  some, Result, ok, err, protocol, ◌>>=◌, ◌>>◌, ok_or, refuse_if, bytes_eq, ◌++◌, not, Bool, true,
  false,
}
use svn.Base.Words.{checked_add, usize_try_from}
use svn.Codec.{Codec, done, failed}
use svn.Textdelta.Uint.{try_decode_uint}
use svn.Svndiff.Encode.{SvndiffVersion, v0, v1, v2}

abbrev pub svndiff_header_len : ℕ
svndiff_header_len = 4

abbrev pub max_encoded_uint_len : ℕ
max_encoded_uint_len = 10

abbrev pub delta_window_max : ℕ
delta_window_max = 64 * 1024

abbrev pub max_instruction_len : ℕ
max_instruction_len = 2 * max_encoded_uint_len + 1

abbrev pub max_instruction_section_len : ℕ
max_instruction_section_len = delta_window_max * max_instruction_len

abbrev pub is_none {ℓ} : {A : Type ℓ} → Option A → Bool
is_none none = true
is_none (some a) = false

-- The decoder's own enumeration of versions has the encoder's three values.
unfoldable pub from_header : Bytes → Option SvndiffVersion
from_header header =
    if bytes_eq header (0x53 ∷ 0x56 ∷ 0x4e ∷ 0 ∷ [])
    then some v0
    else if bytes_eq header (0x53 ∷ 0x56 ∷ 0x4e ∷ 1 ∷ [])
    then some v1
    else if bytes_eq header (0x53 ∷ 0x56 ∷ 0x4e ∷ 2 ∷ [])
    then some v2
    else none

pub record WindowHeader : Type 0 where
  pub sview_offset : ℕ
  pub sview_len : ℕ
  pub tview_len : ℕ
  pub ins_len : ℕ
  pub new_len : ℕ
  pub header_len : ℕ

-- `let Some((v, used)) = try_decode_uint(cursor)? else { return Ok(None) };`, and the cursor behind.
abbrev pub with_uint {ℓ} :
    {A : Type ℓ} → Bytes → (ℕ → ℕ → Bytes → Result (Option A)) → Result (Option A)
with_uint cursor k = do
  o ← try_decode_uint cursor
  elim o [ none ↦ ok none | some (v, used) ↦ k v used (drop used cursor) ]

-- The checks on the five lengths of a header.
unfoldable pub check_window_header : ℕ → ℕ → ℕ → ℕ → ℕ → ℕ → Result (Option WindowHeader)
check_window_header sview_offset sview_len_u64 tview_len_u64 ins_len_u64 new_len_u64 header_len = do
  sview_len ←
      ok_or (protocol (text "svndiff sview_len overflows usize")) (usize_try_from sview_len_u64)
  tview_len ←
      ok_or (protocol (text "svndiff tview_len overflows usize")) (usize_try_from tview_len_u64)
  ins_len ← ok_or (protocol (text "svndiff ins_len overflows usize")) (usize_try_from ins_len_u64)
  new_len ← ok_or (protocol (text "svndiff new_len overflows usize")) (usize_try_from new_len_u64)
  refuse_if
      (ltb delta_window_max tview_len
        || (ltb delta_window_max sview_len
            || (ltb (delta_window_max + max_encoded_uint_len) new_len
                || ltb max_instruction_section_len ins_len)))
      (protocol (text "svndiff contains a too-large window"))
  refuse_if (is_none (checked_add ins_len new_len))
      (protocol (text "svndiff contains corrupt window header"))
  refuse_if (is_none (checked_add sview_offset sview_len))
      (protocol (text "svndiff contains corrupt window header"))
  refuse_if (is_none (checked_add sview_len tview_len))
      (protocol (text "svndiff contains corrupt window header"))
  ok (
      some (record {
        sview_offset = sview_offset;
        sview_len = sview_len;
        tview_len = tview_len;
        ins_len = ins_len;
        new_len = new_len;
        header_len = header_len;
      }))

-- The header from one of its integers on, given the integers before and the bytes that they took.
unfoldable pub parse_new_len : ℕ → ℕ → ℕ → ℕ → ℕ → ℕ → Bytes → Result (Option WindowHeader)
parse_new_len v₁ v₂ v₃ h ins_len e cursor =
    with_uint cursor λ new_len f rest. check_window_header v₁ v₂ v₃ ins_len new_len ((h + e) + f)

unfoldable pub parse_ins_len : ℕ → ℕ → ℕ → ℕ → ℕ → Bytes → Result (Option WindowHeader)
parse_ins_len v₁ v₂ h tview_len d cursor = with_uint cursor (parse_new_len v₁ v₂ tview_len (h + d))

unfoldable pub parse_tview_len : ℕ → ℕ → ℕ → ℕ → Bytes → Result (Option WindowHeader)
parse_tview_len v₁ h sview_len b cursor = with_uint cursor (parse_ins_len v₁ sview_len (h + b))

unfoldable pub parse_sview_len : ℕ → ℕ → ℕ → Bytes → Result (Option WindowHeader)
parse_sview_len h sview_offset a cursor = with_uint cursor (parse_tview_len sview_offset (h + a))

-- Five integers in a row; nothing if the input ends inside them.
unfoldable pub try_parse_window_header : Bytes → Result (Option WindowHeader)
unfolding parse_sview_len parse_tview_len parse_ins_len parse_new_len check_window_header
try_parse_window_header input = with_uint input (parse_sview_len 0)

-- What follows the length of a compressed section: plain data of that length, or else the
-- decoder's output, which has to use all the input and to have that length.
module _ (c : Codec) where
  unfoldable pub zlib_payload : Bytes → ℕ → Result Bytes
  zlib_payload plain orig_len =
      if length plain == orig_len then ok plain else elim (c.zlib_decode plain) [
        | failed e ↦ err (protocol (text "svndiff zlib decode failed: " ++ e))
        | done (out, total_in) ↦ do
          refuse_if (not (total_in == length plain))
              (protocol (text "svndiff zlib section has trailing data"))
          refuse_if (not (length out == orig_len))
              (protocol (text "svndiff zlib decoded length mismatch"))
          ok out
      ]

  unfoldable pub decode_zlib_section : Bytes → ℕ → Result Bytes
  decode_zlib_section wire limit = do
    o ← try_decode_uint wire
    (orig_len_u64, used) ← ok_or (protocol (text "svndiff zlib section missing size")) o
    orig_len ←
        ok_or (protocol (text "svndiff zlib size overflows usize")) (usize_try_from orig_len_u64)
    refuse_if (ltb limit orig_len) (protocol (text "svndiff zlib section size too large"))
    zlib_payload (drop used wire) orig_len

  unfoldable pub lz4_payload : Bytes → ℕ → Result Bytes
  lz4_payload plain orig_len =
      if length plain == orig_len then ok plain else elim (c.lz4_decompress plain orig_len) [
        | failed e ↦ err (protocol (text "svndiff lz4 decode failed: " ++ e))
        | done out ↦ do
          refuse_if (not (length out == orig_len))
              (protocol (text "svndiff lz4 decoded length mismatch"))
          ok out
      ]

  unfoldable pub decode_lz4_section : Bytes → ℕ → Result Bytes
  decode_lz4_section wire limit = do
    o ← try_decode_uint wire
    (orig_len_u64, used) ← ok_or (protocol (text "svndiff lz4 section missing size")) o
    orig_len ←
        ok_or (protocol (text "svndiff lz4 size overflows usize")) (usize_try_from orig_len_u64)
    refuse_if (ltb limit orig_len) (protocol (text "svndiff lz4 section size too large"))
    lz4_payload (drop used wire) orig_len

  unfoldable pub decode_section : SvndiffVersion → Bytes → ℕ → Result Bytes
  decode_section v0 wire limit = ok wire
  decode_section v1 wire limit = decode_zlib_section wire limit
  decode_section v2 wire limit = decode_lz4_section wire limit
