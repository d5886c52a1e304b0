-- ===== src/Textdelta/Uint/RoundTrip.antt =====
-- The decoder reads back what the encoder of src/svndiff.rs writes.
use svn.Base.{
  ℕ, zero, suc, ◌+◌, ◌*◌, ◌/◌, ◌%◌, ◌^◌, ◌≤◌, ◌≡◌, refl, sym, ap, ◌∙◌, arith, some, [], ◌++◌, Bytes,
  length, ok,
}
use svn.Base.Words.{IsU64}
use svn.Svndiff.Uint.{groups, shift_step, encode_uint, encode_uint-Appends}
use svn.Textdelta.Uint.{IsComplete, value_from, try_decode_uint, try_decode_uint-IsComplete}
use native.Mathlib.Nat.{mod-eq_of_lt}

groups-IsComplete : (k val : ℕ) → IsComplete (groups k val)
unfolding groups
groups-IsComplete zero val = omega arith
groups-IsComplete (suc zero) val = (omega arith, groups-IsComplete zero val)
groups-IsComplete (suc (suc k)) val = (omega arith, groups-IsComplete (suc k) val)

value_from-groups : (k val : ℕ) → value_from (val / 2 ^ (suc k * 7)) (groups k val) ≡ val
unfolding groups value_from
value_from-groups zero val = omega arith
value_from-groups (suc k) val =
    ap (λ (t : ℕ). value_from t (groups k val)) regroup ∙ value_from-groups k val
  where
    regroup :
        val / 2 ^ (suc (suc k) * 7) * 128 + (val / 2 ^ (suc k * 7) % 128 + 128) % 128
        ≡ val / 2 ^ (suc k * 7)
    regroup = omega (arith, shift_step val (suc k))

length-groups : (k val : ℕ) → length (groups k val) ≡ suc k
unfolding groups
length-groups zero val = refl
length-groups (suc k) val = ap suc (length-groups k val)

-- The decoder reads a 64-bit integer back from its encoding, leaves what follows, and takes at
-- most ten bytes.
pub try_decode_uint-encode_uint :
    (val : ℕ) (rest : Bytes)
    → IsU64 val
    → (try_decode_uint (encode_uint val [] ++ rest) ≡ ok (some (val, length (encode_uint val []))))
      × (length (encode_uint val []) ≤ 10)
try_decode_uint-encode_uint val rest h =
    let (k, lt, z, e) = encode_uint-Appends val [] h in
    let v : value_from 0 (groups k val) ≡ val =
      ap (λ (t : ℕ). value_from t (groups k val)) (sym z) ∙ value_from-groups k val in
    rw e (
      try_decode_uint-IsComplete (groups k val) rest (groups-IsComplete k val)
          ∙ rw v (rw (mod-eq_of_lt h)),
      omega (arith, length-groups k val),
    )
