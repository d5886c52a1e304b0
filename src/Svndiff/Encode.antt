-- ===== src/Svndiff/Encode.antt =====
-- The full-text encoder of src/svndiff.rs: a header, and a window of new data for each chunk.
use svn.Base.{
  ℕ, zero, suc, ◌/◌, ◌%◌, [], ◌∷◌, ◌++◌, List, Bytes, text, length, take, drop, bit_or, ltb, leb,
  ◌==◌, ◌||◌, if◌then◌else◌, Result, ok, err, protocol, ◌>>=◌,
}
use svn.Codec.{Codec, encoded, write_failed, finish_failed}
use svn.Svndiff.Uint.{encode_uint}
use Prim.Native.Nat.{max}

pub data SvndiffVersion : Type 0 where
  v0 v1 v2 : SvndiffVersion

unfoldable pub header : SvndiffVersion → Bytes
header v0 = 0x53 ∷ 0x56 ∷ 0x4e ∷ 0 ∷ []
header v1 = 0x53 ∷ 0x56 ∷ 0x4e ∷ 1 ∷ []
header v2 = 0x53 ∷ 0x56 ∷ 0x4e ∷ 2 ∷ []

abbrev pub zlib_min_compress_size : ℕ
zlib_min_compress_size = 512

-- An instruction that copies `len` bytes of new data. `len as u8` keeps the low eight bits.
unfoldable pub encode_new_instruction : ℕ → Bytes → Bytes
encode_new_instruction len out =
    if len / 64 == 0
    then out ++ bit_or 0x80 (len % 256) ∷ []
    else encode_uint len (out ++ 0x80 ∷ [])

-- The one instruction of a window, and none for a window of no data.
unfoldable pub insertion : Bytes → Bytes
insertion [] = []
insertion (x ∷ xs) = encode_new_instruction (length (x ∷ xs)) []

-- `slice.chunks(n)`: each round takes a byte at least, so `length` rounds are enough.
unfoldable pub chunks_loop : ℕ → ℕ → Bytes → List Bytes
chunks_loop zero n xs = []
chunks_loop (suc fuel) n [] = []
chunks_loop (suc fuel) n (x ∷ xs) = take n (x ∷ xs) ∷ chunks_loop fuel n (drop n (x ∷ xs))

unfoldable pub chunks : ℕ → Bytes → List Bytes
unfolding chunks_loop
chunks n xs = chunks_loop (length xs) n xs

-- The smaller of the compressed and the plain data, behind the length.
abbrev pub smaller_of : Bytes → Bytes → Bytes → Bytes
smaller_of out compressed plain =
    if leb (length plain) (length compressed) then out ++ plain else out ++ compressed

module _ (c : Codec) where
  unfoldable pub compress_zlib : Bytes → ℕ → Result Bytes
  compress_zlib plain zlib_level =
      let out = encode_uint (length plain) [] in
      if ltb (length plain) zlib_min_compress_size || zlib_level == 0
      then ok (out ++ plain)
      else elim (c.zlib_encode zlib_level plain) [
        | write_failed e ↦ err (protocol (text "zlib encode failed: " ++ e))
        | finish_failed e ↦ err (protocol (text "zlib finish failed: " ++ e))
        | encoded compressed ↦ ok (smaller_of out compressed plain)
      ]

  unfoldable pub compress_lz4 : Bytes → Result Bytes
  compress_lz4 plain = ok (smaller_of (encode_uint (length plain) []) (c.lz4_compress plain) plain)

  -- The instruction and the new-data section as they go over the wire.
  unfoldable pub sections : SvndiffVersion → Bytes → Bytes → ℕ → Result (Bytes × Bytes)
  sections v0 instructions new_data zlib_level = ok (instructions, new_data)
  sections v1 instructions new_data zlib_level = do
    a ← compress_zlib instructions zlib_level
    b ← compress_zlib new_data zlib_level
    ok (a, b)
  sections v2 instructions new_data zlib_level = do
    a ← compress_lz4 instructions
    b ← compress_lz4 new_data
    ok (a, b)

  unfoldable pub encode_insertion_window : SvndiffVersion → Bytes → ℕ → Bytes → Result Bytes
  encode_insertion_window version new_data zlib_level out = do
    (ins, new) ← sections version (insertion new_data) new_data zlib_level
    let out₁ = encode_uint 0 (encode_uint 0 out)
    let out₂ = encode_uint (length new_data) out₁
    let out₃ = encode_uint (length new) (encode_uint (length ins) out₂)
    ok ((out₃ ++ ins) ++ new)

  unfoldable pub encode_windows : SvndiffVersion → List Bytes → ℕ → Bytes → Result Bytes
  encode_windows version [] zlib_level out = ok out
  encode_windows version (chunk ∷ rest) zlib_level out = do
    out' ← encode_insertion_window version chunk zlib_level out
    encode_windows version rest zlib_level out'

  -- A file of no bytes still gets one window.
  unfoldable pub encode_fulltext_with_options : SvndiffVersion → Bytes → ℕ → ℕ → Result Bytes
  encode_fulltext_with_options version contents zlib_level window_size = do
    out ← encode_windows version (chunks (max window_size 1) contents) zlib_level (header version)
    elim contents [ [] ↦ encode_insertion_window version [] zlib_level out | _ ∷ _ ↦ ok out ]
