-- ===== src/Rasvn/Wire/Decimal.antt =====
-- Numbers in decimal (`encode_decimal_u64` in src/rasvn/wire.rs).
use svn.Base.{
  ℕ, zero, suc, ◌+◌, ◌-◌, ◌*◌, ◌/◌, ◌%◌, ◌^◌, ◌≤◌, ◌<◌, ◌≡◌, refl, sym, ap, ◌∙◌, arith, [], ◌∷◌,
  Bytes, length, ◌==◌, Bool-cases, inl, inr,
}
use svn.Base.Words.{IsU64}
use svn.Rasvn.Wire.{decimal_loop, encode_decimal_u64}
use native.Mathlib.Nat.{pow-suc}

-- The number that decimal digits stand for, behind the digits of `acc`.
unfoldable pub read_decimal : ℕ → Bytes → ℕ
read_decimal acc [] = acc
read_decimal acc (b ∷ bs) = read_decimal (acc * 10 + (b - 48)) bs

abbrev pub AllDigits : Bytes → Type 0
AllDigits [] = Unit
AllDigits (b ∷ bs) = (48 ≤ b) × (b ≤ 57) × AllDigits bs

ten_step : (i : ℕ) → 10 ^ suc i ≡ 10 ^ i * 10
ten_step i = omega (arith, pow-suc 10 i)

-- What the loop has written when `n` is used up.
decimal_loop_value :
    (i n : ℕ) (buf : Bytes)
    → n < 10 ^ i
    → AllDigits buf
    → (read_decimal 0 (decimal_loop i n buf) ≡ read_decimal n buf)
      × AllDigits (decimal_loop i n buf)
      × (length (decimal_loop i n buf) ≤ i + length buf)
unfolding decimal_loop
decimal_loop_value zero n buf h d = let e : n ≡ 0 = omega (arith, h) in rw e (refl, d, omega arith)
decimal_loop_value (suc i) n buf h d =
    let rec =
      decimal_loop_value i (n / 10) ((48 + n % 10) ∷ buf) (omega (arith, h, ten_step i))
        (omega arith, omega arith, d) in
    let (value, digits, len) = rec in
    elim (Bool-cases (n == 0)) [
      | inl e ↦
          let z : n ≡ 0 = ground arith in
          rw e (ap (λ t. read_decimal t buf) (sym z), d, omega arith)
      | inr e ↦
          let back : n / 10 * 10 + (48 + n % 10 - 48) ≡ n = omega arith in
          rw e (
            value ∙ unfold read_decimal in ap (λ t. read_decimal t buf) back,
            digits,
            omega (arith, len),
          )
    ]

-- A 64-bit number is written in decimal digits, at most twenty, that read back as the number.
pub encode_decimal_u64_value :
    (n : ℕ)
    → IsU64 n
    → (read_decimal 0 (encode_decimal_u64 n []) ≡ n)
      × AllDigits (encode_decimal_u64 n [])
      × (length (encode_decimal_u64 n []) ≤ 20)
unfolding encode_decimal_u64 read_decimal
encode_decimal_u64_value n h =
    let (value, digits, len) = decimal_loop_value 20 n [] (omega (arith, h)) tt in
    elim (Bool-cases (n == 0)) [
      | inl e ↦
          let z : n ≡ 0 = ground arith in rw e (sym z, (omega arith, omega arith, tt), omega arith)
      | inr e ↦ rw e (value, digits, len)
    ]
