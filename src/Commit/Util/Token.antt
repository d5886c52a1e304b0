-- ===== src/Commit/Util/Token.antt =====
-- The tokens of a commit's directories and files (`TokenGen` in src/commit/util.rs).
pub mod Distinct
use svn.Base.{ℕ, ◌+◌, ◌%◌, ◌^◌, [], ◌∷◌, Bytes}
use svn.Rasvn.Wire.{encode_decimal_u64}

pub record TokenGen : Type 0 where
  pub next_dir : ℕ
  pub next_file : ℕ

-- `TokenGen::default()`
abbrev pub fresh : TokenGen
fresh = record { next_dir = 0; next_file = 0 }

-- The counters have 64 bits and wrap, as in a release build. `format!` writes the number in
-- decimal.
unfoldable pub dir : TokenGen → TokenGen × Bytes
dir g =
    let next = (g.next_dir + 1) % 2 ^ 64 in
    (record g { next_dir = next }, 100 ∷ encode_decimal_u64 next [])

unfoldable pub file : TokenGen → TokenGen × Bytes
file g =
    let next = (g.next_file + 1) % 2 ^ 64 in
    (record g { next_file = next }, 102 ∷ encode_decimal_u64 next [])
