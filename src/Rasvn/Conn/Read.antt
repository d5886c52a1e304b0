-- ===== src/Rasvn/Conn/Read.antt =====
-- The reading side of `RaSvnConnection` (src/rasvn/conn): the buffer, and what the reads of the
-- stream return, one after another.
use svn.Base.{
  ℕ, zero, suc, ◌+◌, ◌-◌, List, [], ◌∷◌, Bytes, length, Result, ok, err, protocol, ◌⊎◌, inl, inr,
}

-- One `read`: bytes, or an error of the stream. No bytes, and nothing at all, is its end.
pub data Arrival : Type 0 where
  bytes : Bytes → Arrival
  failure : Bytes → Arrival

pub record Reader : Type 0 where
  pub buf : Bytes
  pub pos : ℕ
  pub input : List Arrival

abbrev pub Step {ℓ} : Type ℓ → Type ℓ
Step A = Reader × Result A

abbrev pub Read {ℓ} : Type ℓ → Type ℓ
Read A = Reader → Step A

abbrev pub after_step {ℓ κ} : {A : Type ℓ} {B : Type κ} → Step A → (A → Read B) → Step B
after_step (r, ok a) f = f a r
after_step (r, err e) f = (r, err e)

infixl 5 ◌>>=◌ ◌>>◌
abbrev pub ◌>>=◌ {ℓ κ} : {A : Type ℓ} {B : Type κ} → Read A → (A → Read B) → Read B
◌>>=◌ m f r = after_step (m r) f

abbrev pub ◌>>◌ {ℓ} : {B : Type ℓ} → Read (Unit {0}) → Read B → Read B
◌>>◌ m k r = after_step (m r) (λ _. k)

abbrev pub return {ℓ} : {A : Type ℓ} → A → Read A
return a r = (r, ok a)

abbrev pub fail {ℓ} : {A : Type ℓ} → Bytes → Read A
fail message r = (r, err (protocol message))

-- What is still to come: a byte counts one, and a read one more than its bytes.
abbrev pub weight_of : List Arrival → ℕ
weight_of [] = 0
weight_of (bytes bs ∷ rest) = suc (length bs) + weight_of rest
weight_of (failure e ∷ rest) = suc (weight_of rest)

unfoldable pub weight : Reader → ℕ
weight r = (length r.buf - r.pos) + weight_of r.input

-- A loop, whose body goes on with a new state or ends with a result.
module _ {ℓ κ} {S : Type ℓ} {A : Type κ} where
  abbrev pub after_round : (S → Read A) → Step (S ⊎ A) → Step A
  after_round again (r, ok (inl s)) = again s r
  after_round again (r, ok (inr a)) = (r, ok a)
  after_round again (r, err e) = (r, err e)

  -- The rounds are counted, and the count is never what stops it where rounds that go on read.
  unfoldable pub rounds : ℕ → (S → Read (S ⊎ A)) → S → Read A
  rounds zero body s r = (r, err (protocol []))
  rounds (suc fuel) body s r = after_round (rounds fuel body) (body s r)

  unfoldable pub loop : (S → Read (S ⊎ A)) → S → Read A
  unfolding rounds weight
  loop body s r = rounds (suc (weight r)) body s r
