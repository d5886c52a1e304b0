-- ===== src/Base/Errors.antt =====
-- Errors (src/error.rs) and results that carry them.
use Prim.Native.Nat.{ℕ}
use mathlib.Core.Path.{◌≡◌, refl}
use mathlib.Core.Logic.{◌⊎◌, inl, inr}
use mathlib.Core.Bool.{Bool, true, false}
use mathlib.Core.Option.{Option, none, some}
use mathlib.Core.List.{List}
use svn.Base.Text.{Bytes}

pub record ServerErrorItem : Type 0 where
  pub code : ℕ
  pub message : Option Bytes
  pub file : Option Bytes
  pub line : Option ℕ

pub record ServerError : Type 0 where
  pub context : Option Bytes
  pub chain : List ServerErrorItem

-- `io` carries the text of the standard library's error.
pub data SvnError : Type 0 where
  invalid_url invalid_path io protocol : Bytes → SvnError
  auth_unavailable : SvnError
  auth_failed : Bytes → SvnError
  server : ServerError → SvnError

pub data Result {ℓ} (A : Type ℓ) : Type ℓ where
  ok : A → Result A
  err : SvnError → Result A

-- `ok_or_else` on an option.
abbrev pub ok_or {ℓ} : {X : Type ℓ} → SvnError → Option X → Result X
ok_or e none = err e
ok_or e (some x) = ok x

-- The `?` operator.
abbrev pub ◌>>=◌ {ℓ κ} : {X : Type ℓ} {Y : Type κ} → Result X → (X → Result Y) → Result Y
err e >>= then' = err e
ok x >>= then' = then' x

abbrev pub ◌>>◌ {ℓ} : {Y : Type ℓ} → Result (Unit {0}) → Result Y → Result Y
err e >> rest = err e
ok u >> rest = rest

infixl 5 ◌>>=◌ ◌>>◌
-- An early return: the error if the test holds.
abbrev pub refuse_if : Bool → SvnError → Result (Unit {0})
refuse_if true e = err e
refuse_if false e = ok tt

pub Result-cases {ℓ} :
    {A : Type ℓ} (r : Result A) → ((a : A) × (r ≡ ok a)) ⊎ ((e : SvnError) × (r ≡ err e))
Result-cases (ok a) = inl (a, refl)
Result-cases (err e) = inr (e, refl)

-- A bind that succeeds: both its parts do.
pub >>=-eq-ok {ℓ κ} :
    {A : Type ℓ} {B : Type κ} (r : Result A) (k : A → Result B) {b : B}
    → (r >>= k) ≡ ok b
    → (a : A) × (r ≡ ok a) × (k a ≡ ok b)
>>=-eq-ok (ok a) k h = (a, refl, h)
>>=-eq-ok (err e) k h = cc
