-- ===== src/Svndiff/Uint.antt =====
-- `encode_uint` (src/svndiff.rs): an integer in groups of seven bits, highest first, with the top
-- bit set on every byte but the last.
use svn.Base.{
  ℕ, zero, suc, ◌+◌, ◌*◌, ◌/◌, ◌%◌, ◌^◌, ◌≤◌, ◌<◌, ◌≡◌, refl, sym, ap, ◌∙◌, arith, [], ◌∷◌, ◌++◌,
  append_assoc, append-nil, Bytes, bit_and, bit_or,
}
use svn.Base.Bits.{continued_byte, low_seven}
use svn.Base.Words.{IsU64, lt_wf}
use mathlib.Core.Logic.{dite, dif_pos, dif_neg}
use mathlib.Core.WellFounded.{Acc}
use native.Mathlib.Decide.{dec_lt}
use native.Mathlib.Nat.{div-div-eq-div-mul, pow-suc}
use native.Mathlib.Bridge.{le_prop}
use native.Mathlib.Numerals.{towards_suc, add-one}

pub shrinks : (v : ℕ) → 0 < v → v / 128 < v
shrinks v h = omega arith

-- `while v > 0 { v >>= 7; n += 1; }`
unfoldable pub count_groups : (v n : ℕ) → Acc ◌<◌ v → ℕ
count_groups v n (Acc.intro _ smaller) =
    dite (dec_lt 0 v) (λ h. count_groups (v / 128) (n + 1) (smaller (v / 128) (shrinks v h)))
      (λ _. n)

-- `while n > 1 { n -= 1; out.push((((val >> (n * 7)) | 0x80) & 0xff) as u8); }`
unfoldable pub push_leading : ℕ → ℕ → Bytes → Bytes
push_leading zero val out = out
push_leading (suc zero) val out = out
push_leading (suc (suc k)) val out =
    push_leading (suc k) val (out ++ bit_and (bit_or (val / 2 ^ (suc k * 7)) 0x80) 0xff ∷ [])

unfoldable pub encode_uint : ℕ → Bytes → Bytes
unfolding count_groups push_leading lt_wf dec_lt
encode_uint val out =
    push_leading (count_groups (val / 128) 1 (lt_wf.apply (val / 128))) val out
    ++ bit_and val 0x7f ∷ []

-- The encoding in plain arithmetic: `k` groups before the last.
unfoldable pub groups : ℕ → ℕ → Bytes
groups zero val = (val % 128) ∷ []
groups (suc k) val = (val / 2 ^ (suc k * 7) % 128 + 128) ∷ groups k val

pub shift_seven : (s : ℕ) → 2 ^ (s + 7) ≡ 2 ^ s * 128
shift_seven s = simp towards_suc (omega arith)

pub shift_step : (val n : ℕ) → val / 2 ^ (n * 7) / 128 ≡ val / 2 ^ (suc n * 7)
shift_step val n =
    div-div-eq-div-mul val (2 ^ (n * 7)) 128
    ∙ ap (λ (t : ℕ). val / t) (sym (shift_seven (n * 7)))
    ∙ ap (λ (t : ℕ). val / 2 ^ t) next
  where
    next : n * 7 + 7 ≡ suc n * 7
    next = omega arith

-- The count stops where nothing of `val` is left, after at most one round per group of `v`.
count_groups_lem :
    (j val v n : ℕ) (w : Acc ◌<◌ v)
    → v ≡ val / 2 ^ (n * 7)
    → v < 128 ^ j
    → (val / 2 ^ (count_groups v n w * 7) ≡ 0)
      × (n ≤ count_groups v n w)
      × (count_groups v n w ≤ n + j)
unfolding count_groups
count_groups_lem zero val v n (Acc.intro _ smaller) e h = elim (dec_lt 0 v) [
  | yes p ↦ absurd (omega arith)
  | no q ↦ let z : v ≡ 0 = omega arith in rw (dif_neg _ q) (sym e ∙ z, omega arith, omega arith)
]
count_groups_lem (suc j) val v n (Acc.intro _ smaller) e h = elim (dec_lt 0 v) [
  | yes p ↦
      let step : v / 128 ≡ val / 2 ^ ((n + 1) * 7) =
        ap (λ (t : ℕ). t / 128) e ∙ shift_step val n ∙ rw add-one in
      let (a, b, c) =
        count_groups_lem j val (v / 128) (n + 1) (smaller (v / 128) (shrinks v p)) step
          (omega (arith, pow-suc 128 (suc j))) in
      rw (dif_pos _ le_prop p) (a, omega arith, omega arith)
  | no q ↦ let z : v ≡ 0 = omega arith in rw (dif_neg _ q) (sym e ∙ z, omega arith, omega arith)
]

push_leading-append :
    (n val : ℕ) (out : Bytes) → push_leading n val out ≡ out ++ push_leading n val []
unfolding push_leading
push_leading-append zero val out = sym (append-nil out)
push_leading-append (suc zero) val out = sym (append-nil out)
push_leading-append (suc (suc k)) val out =
    let byte = bit_and (bit_or (val / 2 ^ (suc k * 7)) 0x80) 0xff in
    push_leading-append (suc k) val (out ++ byte ∷ [])
    ∙ append_assoc out (byte ∷ []) _
    ∙ ap (λ (t : Bytes). out ++ t) (sym (push_leading-append (suc k) val (byte ∷ [])))

-- The encoder only appends.
pub encode_uint-append : (val : ℕ) (out : Bytes) → encode_uint val out ≡ out ++ encode_uint val []
unfolding encode_uint
encode_uint-append val out = rw (push_leading-append _ val out) (append_assoc out _ _)

-- The bytes that the second loop appends are the leading groups.
push_leading-groups :
    (k val : ℕ) (out : Bytes)
    → push_leading (suc k) val out ++ bit_and val 0x7f ∷ [] ≡ out ++ groups k val
unfolding push_leading groups
push_leading-groups zero val out = rw low_seven
push_leading-groups (suc k) val out =
    push_leading-groups k val (out ++ bit_and (bit_or (val / 2 ^ (suc k * 7)) 0x80) 0xff ∷ [])
    ∙ append_assoc out _ _
    ∙ rw continued_byte

-- The two loops from a count `m`, which is all that `encode_uint` appends.
abbrev pub Appends : ℕ → Bytes → Bytes → Type 0
Appends val out result =
    (k : ℕ) × (k < 10) × (val / 2 ^ (suc k * 7) ≡ 0) × (result ≡ out ++ groups k val)

encoded-Appends :
    (m val : ℕ) (out : Bytes)
    → 1 ≤ m
    → m ≤ 10
    → val / 2 ^ (m * 7) ≡ 0
    → Appends val out (push_leading m val out ++ bit_and val 0x7f ∷ [])
encoded-Appends zero val out lo hi z = absurd (omega arith)
encoded-Appends (suc k) val out lo hi z = (k, omega arith, z, push_leading-groups k val out)

-- On every 64-bit integer the encoder appends the groups of some count below ten, and nothing of
-- the integer lies above them.
pub encode_uint-Appends :
    (val : ℕ) (out : Bytes) → IsU64 val → Appends val out (encode_uint val out)
unfolding encode_uint
encode_uint-Appends val out h =
    let (z, lo, hi) =
      count_groups_lem 9 val (val / 128) 1 (lt_wf.apply (val / 128)) refl (omega arith) in
    encoded-Appends _ val out lo hi z
