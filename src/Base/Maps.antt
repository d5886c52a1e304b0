-- ===== src/Base/Maps.antt =====
-- A `HashMap<String, V>` as an association list in which a key occurs once; nothing depends on
-- the order.
use mathlib.Core.Path.{◌≡◌, refl, sym}
use mathlib.Core.Logic.{inl, inr}
use mathlib.Core.Bool.{Bool, true, false}
use mathlib.Core.Option.{Option, none, some}
use mathlib.Core.List.{List, [], ◌∷◌}
use svn.Base.Tests.{if◌then◌else◌, Bool-cases}
use svn.Base.Text.{Bytes, bytes_eq, bytes_eq→eq, bytes_eq_self}

abbrev pub Map {ℓ} : Type ℓ → Type ℓ
Map V = List (Bytes × V)

-- `get`
unfoldable pub find {ℓ} : {V : Type ℓ} → Bytes → Map V → Option V
find k [] = none
find k ((k', v) ∷ rest) = let later = find k rest in if bytes_eq k k' then some v else later

unfoldable pub remove {ℓ} : {V : Type ℓ} → Bytes → Map V → Map V
remove k [] = []
remove k ((k', v) ∷ rest) =
    let later = remove k rest in if bytes_eq k k' then later else (k', v) ∷ later

unfoldable pub insert {ℓ} : {V : Type ℓ} → Bytes → V → Map V → Map V
unfolding remove
insert k v m = (k, v) ∷ remove k m

unfoldable pub is_empty {ℓ} : {V : Type ℓ} → Map V → Bool
is_empty [] = true
is_empty (_ ∷ _) = false

bytes_eq_ne : (a b c : Bytes) → bytes_eq a b ≡ true → bytes_eq c a ≡ false → bytes_eq c b ≡ false
bytes_eq_ne a b c h n = rw (sym (bytes_eq→eq a b h)) n

pub find-remove {ℓ} : {V : Type ℓ} (k : Bytes) (m : Map V) → find k (remove k m) ≡ none
unfolding find remove
find-remove k [] = refl
find-remove k ((k', v) ∷ rest) = elim (Bool-cases (bytes_eq k k')) [
  | inl same ↦ rw same (find-remove k rest)
  | inr other ↦ rw (other, other) (find-remove k rest)
]

pub find-remove-other {ℓ} :
    {V : Type ℓ} (j k : Bytes) (m : Map V) → bytes_eq j k ≡ false → find j (remove k m) ≡ find j m
unfolding find remove
find-remove-other j k [] ne = refl
find-remove-other j k ((k', v) ∷ rest) ne = elim (Bool-cases (bytes_eq k k')) [
  | inl same ↦ rw (same, bytes_eq_ne k k' j same ne) (find-remove-other j k rest ne)
  | inr other ↦ rw (other, find-remove-other j k rest ne) refl
]

pub find-insert {ℓ} : {V : Type ℓ} (k : Bytes) (v : V) (m : Map V) → find k (insert k v m) ≡ some v
unfolding find insert
find-insert k v m = rw (bytes_eq_self k) refl

pub find-insert-other {ℓ} :
    {V : Type ℓ} (j k : Bytes) (v : V) (m : Map V)
    → bytes_eq j k ≡ false
    → find j (insert k v m) ≡ find j m
unfolding find insert
find-insert-other j k v m ne = rw ne (find-remove-other j k m ne)
