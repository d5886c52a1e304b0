-- ===== src/Rasvn/Conn/Progress.antt =====
-- Every round of the reader's loops that goes on has read something, so the loops end.
use svn.Base.{
  ℕ, zero, suc, ◌≤◌, ◌<◌, ◌≡◌, refl, arith, Bytes, Bool, true, false, if◌then◌else◌, ok, err, ◌⊎◌,
  inl, inr,
}
use svn.Rasvn.Conn.Read.{
  Reader, Step, Read, ◌>>=◌, after_step, return, fail, weight, after_round, rounds, loop,
}

-- At most, and where a value is returned less than, a weight.
abbrev pub AtMost {ℓ} : {A : Type ℓ} → ℕ → Step A → Type 0
AtMost w (r, x) = weight r ≤ w

abbrev pub Less {ℓ} : {A : Type ℓ} → ℕ → Step A → Type 0
Less w (r, ok a) = weight r < w
Less w (r, err e) = weight r ≤ w

-- For a round: less where the loop goes on.
abbrev pub Goes {ℓ κ} : {S : Type ℓ} {A : Type κ} → ℕ → Step (S ⊎ A) → Type 0
Goes w (r, ok (inl s)) = weight r < w
Goes w (r, ok (inr a)) = weight r ≤ w
Goes w (r, err e) = weight r ≤ w

abbrev pub Tame {ℓ} : {A : Type ℓ} → Read A → Type 0
Tame m = (r : Reader) → AtMost (weight r) (m r)

abbrev pub Eats {ℓ} : {A : Type ℓ} → Read A → Type 0
Eats m = (r : Reader) → Less (weight r) (m r)

abbrev pub IsRound {ℓ κ} : {S : Type ℓ} {A : Type κ} → Read (S ⊎ A) → Type 0
IsRound m = (r : Reader) → Goes (weight r) (m r)

module _ {ℓ κ} {A : Type ℓ} {B : Type κ} where
  AtMost-after :
      (w : ℕ) (s : Step A) (f : A → Read B)
      → AtMost w s
      → ((a : A) → Tame (f a))
      → AtMost w (after_step s f)
  AtMost-after w (r, ok a) f h k = le_trans' (k a r) h
    where
      le_trans' : {a b c : ℕ} → a ≤ b → b ≤ c → a ≤ c
      le_trans' p q = omega arith
  AtMost-after w (r, err e) f h k = h

  pub Tame-bind : (m : Read A) (f : A → Read B) → Tame m → ((a : A) → Tame (f a)) → Tame (m >>= f)
  Tame-bind m f h k r = AtMost-after (weight r) (m r) f (h r) k

  Less-after-first :
      (w : ℕ) (s : Step A) (f : A → Read B)
      → Less w s
      → ((a : A) → Tame (f a))
      → Less w (after_step s f)
  Less-after-first w (r, ok a) f h k = less_of w (f a r) (weight r) (k a r) h
    where
      less_of : {C : Type κ} (v : ℕ) (t : Step C) (u : ℕ) → AtMost u t → u < v → Less v t
      less_of v (r', ok c) u p q = omega arith
      less_of v (r', err e) u p q = omega arith
  Less-after-first w (r, err e) f h k = h

  -- Reading something and then anything, or anything and then something, reads something.
  pub Eats-first : (m : Read A) (f : A → Read B) → Eats m → ((a : A) → Tame (f a)) → Eats (m >>= f)
  Eats-first m f h k r = Less-after-first (weight r) (m r) f (h r) k

  Less-after-last :
      (w : ℕ) (s : Step A) (f : A → Read B)
      → AtMost w s
      → ((a : A) → Eats (f a))
      → Less w (after_step s f)
  Less-after-last w (r, ok a) f h k = less_of (f a r) (k a r) h
    where
      less_of : {C : Type κ} (t : Step C) → Less (weight r) t → weight r ≤ w → Less w t
      less_of (r', ok c) p q = omega arith
      less_of (r', err e) p q = omega arith
  Less-after-last w (r, err e) f h k = h

  pub Eats-last : (m : Read A) (f : A → Read B) → Tame m → ((a : A) → Eats (f a)) → Eats (m >>= f)
  Eats-last m f h k r = Less-after-last (weight r) (m r) f (h r) k

pub fail-Eats {ℓ} : (A : Type ℓ) (message : Bytes) → Eats {A = A} (fail message)
fail-Eats A message r = omega arith

pub done-IsRound {ℓ κ} : (S : Type ℓ) {A : Type κ} (a : A) → IsRound {S = S} (return (inr a))
done-IsRound S a r = omega arith

module _ {ℓ} {A : Type ℓ} where
  Less-AtMost : (w : ℕ) (s : Step A) → Less w s → AtMost w s
  Less-AtMost w (r, ok a) h = omega arith
  Less-AtMost w (r, err e) h = h

  pub Eats-Tame : (m : Read A) → Eats m → Tame m
  Eats-Tame m h r = Less-AtMost (weight r) (m r) (h r)

  pub return-Tame : (a : A) → Tame (return a)
  return-Tame a r = omega arith

  pub if-Tame : (b : Bool) (m n : Read A) → Tame m → Tame n → Tame (if b then m else n)
  if-Tame true m n h k = h
  if-Tame false m n h k = k

  pub if-Eats : (b : Bool) (m n : Read A) → Eats m → Eats n → Eats (if b then m else n)
  if-Eats true m n h k = h
  if-Eats false m n h k = k

module _ {ℓ κ} {S : Type ℓ} {A : Type κ} where
  Less-Goes : (w : ℕ) (s : Step (S ⊎ A)) → Less w s → Goes w s
  Less-Goes w (r, ok (inl s)) h = h
  Less-Goes w (r, ok (inr a)) h = omega arith
  Less-Goes w (r, err e) h = h

  Goes-AtMost : (w : ℕ) (s : Step (S ⊎ A)) → Goes w s → AtMost w s
  Goes-AtMost w (r, ok (inl s)) h = omega arith
  Goes-AtMost w (r, ok (inr a)) h = h
  Goes-AtMost w (r, err e) h = h

  pub Eats-IsRound : (m : Read (S ⊎ A)) → Eats m → IsRound m
  Eats-IsRound m h r = Less-Goes (weight r) (m r) (h r)

  pub IsRound-Tame : (m : Read (S ⊎ A)) → IsRound m → Tame m
  IsRound-Tame m h r = Goes-AtMost (weight r) (m r) (h r)

  pub if-IsRound :
      (b : Bool) (m n : Read (S ⊎ A)) → IsRound m → IsRound n → IsRound (if b then m else n)
  if-IsRound true m n h k = h
  if-IsRound false m n h k = k

  -- Anything, and then a round.
  pub IsRound-last {ι} :
      {C : Type ι} (m : Read C) (f : C → Read (S ⊎ A))
      → Tame m
      → ((c : C) → IsRound (f c))
      → IsRound (m >>= f)
  IsRound-last {C = C} m f h k r = go (m r) (h r)
    where
      widen : (t : Step (S ⊎ A)) (v : ℕ) → Goes v t → v ≤ weight r → Goes (weight r) t
      widen (r', ok (inl s)) v p q = omega arith
      widen (r', ok (inr a)) v p q = omega arith
      widen (r', err e) v p q = omega arith

      go : (s : Step C) → AtMost (weight r) s → Goes (weight r) (after_step s f)
      go (r', ok c) p = widen (f c r') (weight r') (k c r') p
      go (r', err e) p = p

  module _ (body : S → Read (S ⊎ A)) (round : (s : S) → IsRound (body s)) where
    rounds_fuel :
        (fuel fuel' : ℕ) (s : S) (r : Reader)
        → weight r < fuel
        → weight r < fuel'
        → rounds fuel body s r ≡ rounds fuel' body s r
    unfolding rounds
    rounds_fuel zero fuel' s r h h' = absurd (omega arith)
    rounds_fuel (suc fuel) zero s r h h' = absurd (omega arith)
    rounds_fuel (suc fuel) (suc fuel') s r h h' =
        again (body s r) (round s r)
          (λ s' r' p. rounds_fuel fuel fuel' s' r' (omega arith) (omega arith))
      where
        again :
            (t : Step (S ⊎ A))
            → Goes (weight r) t
            → ((s' : S) (r' : Reader)
                → weight r' < weight r
                → rounds fuel body s' r' ≡ rounds fuel' body s' r')
            → after_round (rounds fuel body) t ≡ after_round (rounds fuel' body) t
        again (r', ok (inl s')) p same = same s' r' p
        again (r', ok (inr a)) p same = refl
        again (r', err e) p same = refl

    -- A loop whose rounds read is its first round and the loop from there: no count is left in
    -- this equation, so no count ends it.
    pub loop_unroll : (s : S) (r : Reader) → loop body s r ≡ after_round (loop body) (body s r)
    unfolding loop rounds
    loop_unroll s r = go (body s r) (round s r)
      where
        go :
            (t : Step (S ⊎ A))
            → Goes (weight r) t
            → after_round (rounds (weight r) body) t ≡ after_round (loop body) t
        go (r', ok (inl s')) p = rounds_fuel (weight r) (suc (weight r')) s' r' p (omega arith)
        go (r', ok (inr a)) p = refl
        go (r', err e) p = refl

    rounds-Tame : (fuel : ℕ) (s : S) → Tame (rounds fuel body s)
    unfolding rounds
    rounds-Tame zero s r = omega arith
    rounds-Tame (suc fuel) s r = again (body s r) (round s r) (rounds-Tame fuel)
      where
        again :
            (t : Step (S ⊎ A))
            → Goes (weight r) t
            → ((s' : S) → Tame (rounds fuel body s'))
            → AtMost (weight r) (after_round (rounds fuel body) t)
        again (r', ok (inl s')) p rest = le_of (rounds fuel body s' r') (rest s' r') p
          where
            le_of : (t : Step A) → AtMost (weight r') t → weight r' < weight r → AtMost (weight r) t
            le_of (r'', x) q p = omega arith
        again (r', ok (inr a)) p rest = p
        again (r', err e) p rest = p

    pub loop-Tame : (s : S) → Tame (loop body s)
    unfolding loop
    loop-Tame s r = rounds-Tame (suc (weight r)) s r

-- What holds of a result and of the state that it leaves.
abbrev pub Gives {ℓ κ} : {A : Type ℓ} → (A → Reader → Type κ) → Step A → Type κ
Gives P (r, ok a) = P a r
Gives P (r, err e) = Unit

abbrev pub Ends {ℓ κ ι} : {S : Type ℓ} {A : Type κ} → (A → Reader → Type ι) → Step (S ⊎ A) → Type ι
Ends P (r, ok (inl s)) = Unit
Ends P (r, ok (inr a)) = P a r
Ends P (r, err e) = Unit

module _ {ℓ κ ι} {S : Type ℓ} {A : Type κ} (body : S → Read (S ⊎ A)) (P : A → Reader → Type ι)
    (ends : (s : S) (r : Reader) → Ends P (body s r)) where
  rounds-Gives : (fuel : ℕ) (s : S) (r : Reader) → Gives P (rounds fuel body s r)
  unfolding rounds
  rounds-Gives zero s r = tt
  rounds-Gives (suc fuel) s r = again (body s r) (ends s r) (rounds-Gives fuel)
    where
      again :
          (t : Step (S ⊎ A))
          → Ends P t
          → ((s' : S) (r' : Reader) → Gives P (rounds fuel body s' r'))
          → Gives P (after_round (rounds fuel body) t)
      again (r', ok (inl s')) p rest = rest s' r'
      again (r', ok (inr a)) p rest = p
      again (r', err e) p rest = tt

  pub loop-Gives : (s : S) (r : Reader) → Gives P (loop body s r)
  unfolding loop
  loop-Gives s r = rounds-Gives (suc (weight r)) s r
