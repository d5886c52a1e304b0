-- ===== src/Codec.antt =====
-- The compression libraries that svndiff versions 1 and 2 call (flate2 and lz4_flex), as the
-- parameter of every definition that uses them.
use svn.Base.{ℕ, ◌≡◌, Bytes, length}

-- A library's result: its output, or the text of its error.
pub data Outcome {ℓ} (A : Type ℓ) : Type ℓ where
  done : A → Outcome A
  failed : Bytes → Outcome A

-- Compression in two steps, either of which may fail.
pub data Encoded : Type 0 where
  encoded : Bytes → Encoded
  write_failed finish_failed : Bytes → Encoded

pub record Codec : Type 0 where
  -- `ZlibEncoder` at a level: `write_all` of the data, then `finish`.
  pub zlib_encode : ℕ → Bytes → Encoded
  -- `ZlibDecoder`: the bytes of `read_to_end`, and `total_in`.
  pub zlib_decode : Bytes → Outcome (Bytes × ℕ)
  -- `lz4_flex::compress`, and `lz4_flex::decompress` with the length expected.
  pub lz4_compress : Bytes → Bytes
  pub lz4_decompress : Bytes → ℕ → Outcome Bytes

-- What both libraries document: decompression undoes compression, and the zlib decoder stops at
-- the end of the stream.
pub record IsLossless (c : Codec) : Type 0 where
  pub zlib_lossless :
      (level : ℕ) (data' wire : Bytes)
      → c.zlib_encode level data' ≡ encoded wire
      → c.zlib_decode wire ≡ done (data', length wire)
  pub lz4_lossless :
      (data' : Bytes) → c.lz4_decompress (c.lz4_compress data') (length data') ≡ done data'
