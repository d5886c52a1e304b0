-- ===== src/Base/Bits.antt =====
-- The masks that the wire formats use, as arithmetic. The native operations have no laws but
-- their digit recursion, so each law here takes one step of it for each bit of the mask.
use Prim.Native.Nat.{
  ℕ, zero, suc, ◌+◌, ◌*◌, ◌/◌, ◌%◌, ◌≤◌, ◌<◌, min, max, bit_and, bit_or, digits, bit_and-bitwise,
  bit_or-bitwise,
}
use mathlib.Core.Path.{◌≡◌, refl, sym, ap, ◌∙◌}
use mathlib.Core.Bool.{Bool, true, ◌&&◌}
use native.Mathlib.Omega.{arith}
use svn.Base.Tests.{◌==◌}

-- `digits rest bit fuel x y` is `rest y` once `x` is used up, whatever fuel is left.
module _ (rest : ℕ → ℕ) (bit : ℕ → ℕ → ℕ) where
  used_up : (fuel y : ℕ) → digits rest bit fuel 0 y ≡ rest y
  used_up zero y = refl
  used_up (suc fuel) y = refl

  enough :
      (x y fuel fuel' : ℕ)
      → x ≤ fuel
      → x ≤ fuel'
      → digits rest bit fuel x y ≡ digits rest bit fuel' x y
  enough zero y fuel fuel' h h' = used_up fuel y ∙ sym (used_up fuel' y)
  enough (suc x) y zero fuel' h h' = absurd (omega (arith, h))
  enough (suc x) y (suc fuel) zero h h' = absurd (omega (arith, h'))
  enough (suc x) y (suc fuel) (suc fuel') h h' =
      let halves = enough (suc x / 2) (y / 2) fuel fuel' (omega arith) (omega arith) in
      ap (λ t. t * 2 + bit (suc x % 2) (y % 2)) halves

  -- One round: the halves, and the lowest bits.
  one_round :
      (x y : ℕ)
      → digits rest bit (suc x) (suc x) y
        ≡ digits rest bit (suc x / 2) (suc x / 2) (y / 2) * 2 + bit (suc x % 2) (y % 2)
  one_round x y =
      ap (λ t. t * 2 + bit (suc x % 2) (y % 2))
        (enough (suc x / 2) (y / 2) x (suc x / 2) (omega arith) (omega arith))

and_halves : (x y : ℕ) → bit_and x y ≡ min (x % 2) (y % 2) + 2 * bit_and (x / 2) (y / 2)
and_halves zero y =
    let halves = bit_and-bitwise 0 (y / 2) in
    let here = bit_and-bitwise 0 y in omega (arith, here, halves)
and_halves (suc x) y =
    let halves = bit_and-bitwise (suc x / 2) (y / 2) in
    let here = bit_and-bitwise (suc x) y ∙ one_round (λ t. 0) min x y in omega (arith, here, halves)

or_halves : (x y : ℕ) → bit_or x y ≡ max (x % 2) (y % 2) + 2 * bit_or (x / 2) (y / 2)
or_halves zero y =
    let halves = bit_or-bitwise 0 (y / 2) in
    let here = bit_or-bitwise 0 y in omega (arith, here, halves)
or_halves (suc x) y =
    let halves = bit_or-bitwise (suc x / 2) (y / 2) in
    let here = bit_or-bitwise (suc x) y ∙ one_round (λ t. t) max x y in omega (arith, here, halves)

-- No bits in the second number: `fuel` bounds the first.
no_bits : (fuel x : ℕ) → x < fuel → bit_and x 0 ≡ 0
no_bits zero x h = absurd (omega (arith, h))
no_bits (suc fuel) zero h = refl
no_bits (suc fuel) (suc x) h =
    let halves = no_bits fuel (suc x / 2) (omega (arith, h)) in
    omega (arith, halves, and_halves (suc x) 0)

lowest_bit : (x : ℕ) → bit_and x 1 ≡ x % 2
lowest_bit x = omega (arith, no_bits (suc (x / 2)) (x / 2) (omega arith), and_halves x 1)

low_three : (x : ℕ) → bit_and x 7 ≡ x % 8
low_three x = omega (arith, lowest_bit (x / 2 / 2), and_halves (x / 2) 3, and_halves x 7)

pub low_six : (x : ℕ) → bit_and x 0x3f ≡ x % 64
low_six x = omega (
  arith,
  low_three (x / 2 / 2 / 2),
  and_halves (x / 2 / 2) 0xf,
  and_halves (x / 2) 0x1f,
  and_halves x 0x3f,
)

-- `a & 0x7f`
pub low_seven : (a : ℕ) → bit_and a 0x7f ≡ a % 128
low_seven a = omega (arith, and_halves a 0x7f, low_six (a / 2))

-- `a & 0xff`
pub low_eight : (a : ℕ) → bit_and a 0xff ≡ a % 256
low_eight a = omega (arith, and_halves a 0xff, low_seven (a / 2))

-- `a & 3`
pub low_two : (a : ℕ) → bit_and a 0x3 ≡ a % 4
low_two a = omega (arith, and_halves a 0x3, lowest_bit (a / 2))

bit_and-0x10 : (a : ℕ) → bit_and a 0x10 ≡ a / 16 % 2 * 16
bit_and-0x10 a = omega (
  arith,
  and_halves a 0x10,
  and_halves (a / 2) 8,
  and_halves (a / 2 / 2) 4,
  and_halves (a / 2 / 2 / 2) 2,
  lowest_bit (a / 2 / 2 / 2 / 2),
)

-- `a & 0x80`
pub bit_seven : (a : ℕ) → bit_and a 0x80 ≡ a / 128 % 2 * 128
bit_seven a = omega (
  arith,
  and_halves a 0x80,
  and_halves (a / 2) 0x40,
  and_halves (a / 2 / 2) 0x20,
  bit_and-0x10 (a / 2 / 2 / 2),
)

bit_or-one : (a : ℕ) → bit_or a 1 % 2 ≡ 1
bit_or-one a = omega (arith, or_halves a 1)

bit_or-8 : (a : ℕ) → bit_or a 8 % 16 ≡ a % 8 + 8
bit_or-8 a =
    omega (
      arith,
      or_halves a 8,
      or_halves (a / 2) 4,
      or_halves (a / 2 / 2) 2,
      bit_or-one (a / 2 / 2 / 2),
    )

-- `(a | 0x80) & 0xff`, a byte with the top bit set over the low seven bits of `a`.
pub continued_byte : (a : ℕ) → bit_and (bit_or a 0x80) 0xff ≡ a % 128 + 128
continued_byte a =
    low_eight (bit_or a 0x80)
    ∙ omega (
      arith,
      or_halves a 0x80,
      or_halves (a / 2) 0x40,
      or_halves (a / 2 / 2) 0x20,
      or_halves (a / 2 / 2 / 2) 0x10,
      bit_or-8 (a / 2 / 2 / 2 / 2),
    )

-- `0x80 | a` of a number below 64, checked at each of them.
selectors_below : ℕ → Bool
selectors_below zero = true
selectors_below (suc n) = bit_or 0x80 n == n + 128 && selectors_below n

selectors_below_sound : (n a : ℕ) → selectors_below n ≡ true → a < n → bit_or 0x80 a ≡ a + 128
unfolding selectors_below
selectors_below_sound zero a h lt = absurd (omega arith)
selectors_below_sound (suc n) a h lt = ground (arith, selectors_below_sound n a)

pub new_selector : (a : ℕ) → a < 64 → bit_or 0x80 a ≡ a + 128
unfolding selectors_below
new_selector a h = selectors_below_sound 64 a refl h
