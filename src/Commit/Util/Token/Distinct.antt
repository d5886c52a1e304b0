-- ===== src/Commit/Util/Token/Distinct.antt =====
-- A commit's tokens name one directory or file each (`TokenGen` in src/commit/util.rs).
use svn.Base.{
  ℕ, ◌+◌, ◌%◌, ◌^◌, ◌<◌, ◌≡◌, ◌≢◌, ◌⊎◌, inl, inr, refl, sym, ap, ◌∙◌, arith, [], ◌∷◌, List, Bytes,
  Bool, true, false, length, subst,
}
use svn.Base.Words.{IsU64}
use svn.Commit.Util.Token.{TokenGen, fresh, dir, file}
use svn.Rasvn.Wire.{encode_decimal_u64}
use svn.Rasvn.Wire.Decimal.{read_decimal, encode_decimal_u64_value}

-- The tokens of a sequence of directories (`true`) and files.
abbrev pub draw : List Bool → TokenGen → List Bytes
draw [] g = []
draw (true ∷ kinds) g = (dir g).1 ∷ draw kinds (dir g).0
draw (false ∷ kinds) g = (file g).1 ∷ draw kinds (file g).0

abbrev pub IsNotIn : Bytes → List Bytes → Type 0
IsNotIn t [] = Unit {0}
IsNotIn t (u ∷ us) = (t ≢ u) × IsNotIn t us

abbrev pub AreDistinct : List Bytes → Type 0
AreDistinct [] = Unit {0}
AreDistinct (t ∷ ts) = IsNotIn t ts × AreDistinct ts

-- A token beyond a directory number and a file number.
abbrev IsBeyond : ℕ → ℕ → Bytes → Type 0
IsBeyond d f t =
    (n : ℕ) × IsU64 n
    × (((d < n) × (t ≡ 100 ∷ encode_decimal_u64 n []))
        ⊎ ((f < n) × (t ≡ 102 ∷ encode_decimal_u64 n [])))

abbrev AreBeyond : ℕ → ℕ → List Bytes → Type 0
AreBeyond d f [] = Unit {0}
AreBeyond d f (t ∷ ts) = IsBeyond d f t × AreBeyond d f ts

head : Bytes → ℕ
head [] = 0
head (b ∷ bs) = b

digits : Bytes → ℕ
digits [] = 0
digits (b ∷ bs) = read_decimal 0 bs

digits_of : (b n : ℕ) → IsU64 n → digits (b ∷ encode_decimal_u64 n []) ≡ n
unfolding digits
digits_of b n h = (encode_decimal_u64_value n h).0

dir-IsNotIn :
    (d f : ℕ) (ts : List Bytes)
    → IsU64 d
    → AreBeyond d f ts
    → IsNotIn (100 ∷ encode_decimal_u64 d []) ts
unfolding head
dir-IsNotIn d f [] h b = tt
dir-IsNotIn d f (t ∷ ts) h ((n, small, inl (lt, e)), bs) = (
  λ same.
      absurd
        (omega (arith, lt, sym (digits_of 100 d h) ∙ ap digits (same ∙ e) ∙ digits_of 100 n small)),
  dir-IsNotIn d f ts h bs,
)
dir-IsNotIn d f (t ∷ ts) h ((n, small, inr (lt, e)), bs) =
    (λ same. absurd (omega (arith, ap head (same ∙ e))), dir-IsNotIn d f ts h bs)

file-IsNotIn :
    (d f : ℕ) (ts : List Bytes)
    → IsU64 f
    → AreBeyond d f ts
    → IsNotIn (102 ∷ encode_decimal_u64 f []) ts
unfolding head
file-IsNotIn d f [] h b = tt
file-IsNotIn d f (t ∷ ts) h ((n, small, inr (lt, e)), bs) = (
  λ same.
      absurd
        (omega (arith, lt, sym (digits_of 102 f h) ∙ ap digits (same ∙ e) ∙ digits_of 102 n small)),
  file-IsNotIn d f ts h bs,
)
file-IsNotIn d f (t ∷ ts) h ((n, small, inl (lt, e)), bs) =
    (λ same. absurd (omega (arith, ap head (same ∙ e))), file-IsNotIn d f ts h bs)

weaken_dir : (d f : ℕ) (ts : List Bytes) → AreBeyond (d + 1) f ts → AreBeyond d f ts
weaken_dir d f [] b = tt
weaken_dir d f (t ∷ ts) ((n, small, inl (lt, e)), bs) =
    ((n, small, inl (omega arith, e)), weaken_dir d f ts bs)
weaken_dir d f (t ∷ ts) ((n, small, inr (lt, e)), bs) =
    ((n, small, inr (lt, e)), weaken_dir d f ts bs)

weaken_file : (d f : ℕ) (ts : List Bytes) → AreBeyond d (f + 1) ts → AreBeyond d f ts
weaken_file d f [] b = tt
weaken_file d f (t ∷ ts) ((n, small, inl (lt, e)), bs) =
    ((n, small, inl (lt, e)), weaken_file d f ts bs)
weaken_file d f (t ∷ ts) ((n, small, inr (lt, e)), bs) =
    ((n, small, inr (omega arith, e)), weaken_file d f ts bs)

fits_lem : (n : ℕ) → n + 1 < 2 ^ 64 → (n + 1) % 2 ^ 64 ≡ n + 1
fits_lem n h = omega arith

abbrev gen : ℕ → ℕ → TokenGen
gen d f = record { next_dir = d; next_file = f }

dir-next :
    (d f : ℕ)
    → d + 1 < 2 ^ 64
    → dir (gen d f) ≡ (gen (d + 1) f, 100 ∷ encode_decimal_u64 (d + 1) [])
unfolding dir
dir-next d f h = ap (λ (n : ℕ). (gen n f, 100 ∷ encode_decimal_u64 n [])) (fits_lem d h)

file-next :
    (d f : ℕ)
    → f + 1 < 2 ^ 64
    → file (gen d f) ≡ (gen d (f + 1), 102 ∷ encode_decimal_u64 (f + 1) [])
unfolding file
file-next d f h = ap (λ (n : ℕ). (gen d n, 102 ∷ encode_decimal_u64 n [])) (fits_lem f h)

-- Both of what is needed of the tokens drawn.
abbrev IsDrawn : ℕ → ℕ → List Bytes → Type 0
IsDrawn d f ts = AreBeyond d f ts × AreDistinct ts

draw-IsDrawn :
    (kinds : List Bool) (d f : ℕ)
    → d + length kinds < 2 ^ 64
    → f + length kinds < 2 ^ 64
    → IsDrawn d f (draw kinds (gen d f))
draw-IsDrawn [] d f hd hf = (tt, tt)
draw-IsDrawn (true ∷ kinds) d f hd hf =
    let (beyond, distinct) = draw-IsDrawn kinds (d + 1) f (omega arith) (omega arith) in
    subst (λ (r : TokenGen × Bytes). IsDrawn d f (r.1 ∷ draw kinds r.0))
      (sym (dir-next d f (omega arith)))
      (
        ((d + 1, omega arith, inl (omega arith, refl)), weaken_dir d f _ beyond),
        (dir-IsNotIn (d + 1) f _ (omega arith) beyond, distinct),
      )
draw-IsDrawn (false ∷ kinds) d f hd hf =
    let (beyond, distinct) = draw-IsDrawn kinds d (f + 1) (omega arith) (omega arith) in
    subst (λ (r : TokenGen × Bytes). IsDrawn d f (r.1 ∷ draw kinds r.0))
      (sym (file-next d f (omega arith)))
      (
        ((f + 1, omega arith, inr (omega arith, refl)), weaken_file d f _ beyond),
        (file-IsNotIn d (f + 1) _ (omega arith) beyond, distinct),
      )

-- The tokens that a commit draws, fewer than 2^64 of them and in whatever order of directories and
-- files, are all different.
pub draw-AreDistinct : (kinds : List Bool) → length kinds < 2 ^ 64 → AreDistinct (draw kinds fresh)
draw-AreDistinct kinds h = (draw-IsDrawn kinds 0 0 (omega arith) (omega arith)).1
