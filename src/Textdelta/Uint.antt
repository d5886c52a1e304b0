-- ===== src/Textdelta/Uint.antt =====
-- `try_decode_uint` (src/textdelta/decode.rs).
pub mod RoundTrip
use svn.Base.{
  ℕ, zero, suc, ◌+◌, ◌*◌, ◌/◌, ◌%◌, ◌^◌, ◌≤◌, ◌<◌, ◌≡◌, ◌≢◌, refl, sym, ap, ◌∙◌, arith, Bool, true,
  false, Option, none, some, List, [], ◌∷◌, ◌++◌, Bytes, text, length, bit_and, ◌==◌, if◌then◌else◌,
  Result, ok, err, protocol, SvnError,
}
use svn.Base.Bits.{low_seven, bit_seven}
use svn.Base.Words.{IsU64, checked_shl, checked_add}
use mathlib.Core.Option

-- One byte into the value: `val.checked_shl(7).and_then(|v| v.checked_add(u64::from(b & 0x7f)))`.
unfoldable pub push_seven : ℕ → ℕ → Option ℕ
push_seven val b = elim (checked_shl val 7) [
  | none ↦ none
  | some v ↦ checked_add v (bit_and b 0x7f)
]

unfoldable pub decode_uint_loop : Bytes → ℕ → ℕ → Result (Option (ℕ × ℕ))
unfolding push_seven
decode_uint_loop [] val idx = ok none
decode_uint_loop (b ∷ bs) val idx = elim (push_seven val b) [
  | none ↦ err (protocol (text "svndiff integer overflow"))
  | some v ↦
      let more = decode_uint_loop bs v (idx + 1) in
      if bit_and b 0x80 == 0 then ok (some (v, idx + 1)) else more
]

-- The value and the number of bytes read; nothing if the input ends inside the integer.
unfoldable pub try_decode_uint : Bytes → Result (Option (ℕ × ℕ))
unfolding decode_uint_loop
try_decode_uint input = decode_uint_loop input 0 0

-- The integer that a run of bytes stands for, with no bound on its size.
unfoldable pub value_from : ℕ → Bytes → ℕ
value_from acc [] = acc
value_from acc (b ∷ bs) = value_from (acc * 128 + b % 128) bs

-- Every byte has its top bit set.
abbrev pub IsContinued : Bytes → Type 0
IsContinued [] = Unit {0}
IsContinued (b ∷ bs) = (b / 128 % 2 ≡ 1) × IsContinued bs

-- One complete integer: the last byte alone has its top bit clear.
abbrev pub IsComplete : Bytes → Type 0
IsComplete [] = ⊥
IsComplete (b ∷ []) = b / 128 % 2 ≡ 0
IsComplete (b ∷ c ∷ bs) = (b / 128 % 2 ≡ 1) × IsComplete (c ∷ bs)

pub push_seven_lem : (val b : ℕ) → push_seven val b ≡ some (val * 128 % 2 ^ 64 + b % 128)
unfolding push_seven
push_seven_lem val b = ground (arith, low_seven b)

value_from-mod :
    (a c : ℕ) (bs : Bytes)
    → a % 2 ^ 64 ≡ c % 2 ^ 64
    → value_from a bs % 2 ^ 64 ≡ value_from c bs % 2 ^ 64
unfolding value_from
value_from-mod a c [] e = e
value_from-mod a c (b ∷ bs) e =
    value_from-mod (a * 128 + b % 128) (c * 128 + b % 128) bs (omega arith)

-- A complete integer is read whatever follows it. Only its lowest 64 bits are kept: no byte makes
-- the loop fail.
decode_uint_loop_complete :
    (enc rest : Bytes) (val idx : ℕ)
    → IsComplete enc
    → val < 2 ^ 64
    → decode_uint_loop (enc ++ rest) val idx
      ≡ ok (some (value_from val enc % 2 ^ 64, idx + length enc))
unfolding decode_uint_loop value_from
decode_uint_loop_complete [] rest val idx c h = absurd c
decode_uint_loop_complete (b ∷ []) rest val idx c h =
    ground (arith, push_seven_lem val b, bit_seven b)
decode_uint_loop_complete (b ∷ c ∷ bs) rest val idx (top, comp) h = ground (
  arith,
  push_seven_lem val b,
  bit_seven b,
  value_from-mod (val * 128 % 2 ^ 64 + b % 128) (val * 128 + b % 128) (c ∷ bs) (omega arith),
  decode_uint_loop_complete (c ∷ bs) rest (val * 128 % 2 ^ 64 + b % 128) (idx + 1) comp
      (omega arith),
)

decode_uint_loop-continued :
    (bs : Bytes) (val idx : ℕ) → IsContinued bs → decode_uint_loop bs val idx ≡ ok none
unfolding decode_uint_loop
decode_uint_loop-continued [] val idx h = refl
decode_uint_loop-continued (b ∷ bs) val idx (top, h) = ground (
  arith,
  push_seven_lem val b,
  bit_seven b,
  decode_uint_loop-continued bs (val * 128 % 2 ^ 64 + b % 128) (idx + 1) h,
)

-- A complete integer of any length is read as its value modulo 2 ^ 64, and what follows is left.
pub try_decode_uint-IsComplete :
    (enc rest : Bytes)
    → IsComplete enc
    → try_decode_uint (enc ++ rest) ≡ ok (some (value_from 0 enc % 2 ^ 64, length enc))
unfolding try_decode_uint
try_decode_uint-IsComplete enc rest c = ground (arith, decode_uint_loop_complete enc rest 0 0 c)

-- Without a byte that ends the integer the decoder asks for more input.
pub try_decode_uint-IsContinued : (bs : Bytes) → IsContinued bs → try_decode_uint bs ≡ ok none
unfolding try_decode_uint
try_decode_uint-IsContinued bs h = decode_uint_loop-continued bs 0 0 h

decode_uint_loop-ne-err :
    (bs : Bytes) (val idx : ℕ) (e : SvnError) → decode_uint_loop bs val idx ≢ err e
unfolding decode_uint_loop
decode_uint_loop-ne-err [] val idx e = λ p. cc
decode_uint_loop-ne-err (b ∷ bs) val idx e = ground (
  arith,
  push_seven_lem val b,
  decode_uint_loop-ne-err bs (val * 128 % 2 ^ 64 + b % 128) (idx + 1) e,
)

-- The decoder of integers returns no error, whatever the input: the overflow error is unreachable.
pub try_decode_uint-ne-err : (bs : Bytes) (e : SvnError) → try_decode_uint bs ≢ err e
unfolding try_decode_uint
try_decode_uint-ne-err bs e = decode_uint_loop-ne-err bs 0 0 e

decode_uint_loop_bounds :
    (bs : Bytes) (val idx v used : ℕ)
    → val < 2 ^ 64
    → decode_uint_loop bs val idx ≡ ok (some (v, used))
    → (v < 2 ^ 64) × (idx < used) × (used ≤ idx + length bs)
unfolding decode_uint_loop
decode_uint_loop_bounds [] val idx v used hv h = cc
decode_uint_loop_bounds (b ∷ bs) val idx v used hv h = ground (
  arith,
  push_seven_lem val b,
  decode_uint_loop_bounds bs (val * 128 % 2 ^ 64 + b % 128) (idx + 1) v used,
)

-- What is read is a 64-bit number, and takes at least one byte and at most all of them.
pub try_decode_uint_bounds :
    (bs : Bytes) (v used : ℕ)
    → try_decode_uint bs ≡ ok (some (v, used))
    → (v < 2 ^ 64) × (0 < used) × (used ≤ length bs)
unfolding try_decode_uint
try_decode_uint_bounds bs v used h = ground (arith, decode_uint_loop_bounds bs 0 0 v used)

decode_uint_loop-append :
    (bs more : Bytes) (val idx v used : ℕ)
    → decode_uint_loop bs val idx ≡ ok (some (v, used))
    → decode_uint_loop (bs ++ more) val idx ≡ ok (some (v, used))
unfolding decode_uint_loop
decode_uint_loop-append [] more val idx v used h = cc
decode_uint_loop-append (b ∷ bs) more val idx v used h = ground (
  arith,
  push_seven_lem val b,
  decode_uint_loop-append bs more (val * 128 % 2 ^ 64 + b % 128) (idx + 1) v used,
)

-- Bytes that arrive behind a complete integer do not change how it is read.
pub try_decode_uint-append :
    (bs more : Bytes) (v used : ℕ)
    → try_decode_uint bs ≡ ok (some (v, used))
    → try_decode_uint (bs ++ more) ≡ ok (some (v, used))
unfolding try_decode_uint
try_decode_uint-append bs more v used h = decode_uint_loop-append bs more 0 0 v used h
