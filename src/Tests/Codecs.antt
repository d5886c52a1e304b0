-- ===== src/Tests/Codecs.antt =====
-- A concrete pair of compression libraries: they store the data as it is.
use svn.Base.{◌≡◌, refl, Bytes, length}
use svn.Codec.{Codec, IsLossless, Encoded, encoded, done}

abbrev pub stored : Codec
stored = record {
  zlib_encode = (λ level data'. encoded data');
  zlib_decode = (λ wire. done (wire, length wire));
  lz4_compress = (λ data'. data');
  lz4_decompress = (λ wire len. done wire);
}

encoded-inj : (a b : Bytes) → ◌≡◌ {A = Encoded} (encoded a) (encoded b) → a ≡ b
encoded-inj a b e = cc

pub stored-IsLossless : IsLossless stored
stored-IsLossless = record {
  zlib_lossless = (λ level data' wire e. rw (encoded-inj data' wire e) refl);
  lz4_lossless = (λ data'. refl);
}
