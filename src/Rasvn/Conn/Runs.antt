-- ===== src/Rasvn/Conn/Runs.antt =====
-- Runs of the loops of src/rasvn/conn, round by round: no count and no fuel is part of them.
use svn.Base.{ℕ, zero, suc, ◌≤◌, ◌<◌, ◌≡◌, refl, arith, ok, err, SvnError, ◌⊎◌, inl, inr}
use svn.Rasvn.Conn.Read.{Reader, Step, Read, weight, rounds, loop, after_round}
use svn.Rasvn.Conn.Progress.{Goes, IsRound}

-- `Runs body n s r t`: from the state `s` and the reader `r` the loop ends in its `n`-th round,
-- with the outcome `t`. An endless loop has no run.
pub data Runs {S A : Type 0} (body : S → Read (S ⊎ A)) : ℕ → S → Reader → Step A → Type 0 where
  returns :
      {s : S} {r r' : Reader} {a : A} → body s r ≡ (r', ok (inr a)) → Runs body 1 s r (r', ok a)
  fails :
      {s : S} {r r' : Reader} {e : SvnError} → body s r ≡ (r', err e) → Runs body 1 s r (r', err e)
  goes_on :
      {n : ℕ} {s s' : S} {r r' : Reader} {t : Step A}
      → body s r ≡ (r', ok (inl s'))
      → Runs body n s' r' t
      → Runs body (suc n) s r t

-- The loop ends, with the outcome that it has in the model, after at most one round more than the
-- bytes and reads that are to come.
abbrev pub HasRun : {S A : Type 0} → (S → Read (S ⊎ A)) → S → Reader → Type 0
HasRun body s r = (n : ℕ) × (n ≤ suc (weight r)) × Runs body n s r (loop body s r)

module _ {S A : Type 0} (body : S → Read (S ⊎ A)) (round : (s : S) → IsRound (body s)) where
  -- A run of at most `w` rounds.
  abbrev RunsWithin : ℕ → S → Reader → Step A → Type 0
  RunsWithin w s r t = (n : ℕ) × (n ≤ w) × Runs body n s r t

  rounds-Runs :
      (fuel : ℕ) (s : S) (r : Reader)
      → weight r < fuel
      → RunsWithin (suc (weight r)) s r (rounds fuel body s r)
  unfolding rounds
  rounds-Runs zero s r h = absurd (omega arith)
  rounds-Runs (suc fuel) s r h =
      by_round (body s r) refl (round s r) (λ s' r' p. rounds-Runs fuel s' r' (omega arith))
    where
      by_round :
          (t : Step (S ⊎ A))
          → body s r ≡ t
          → Goes (weight r) t
          → ((s' : S) (r' : Reader)
              → weight r' < weight r
              → RunsWithin (suc (weight r')) s' r' (rounds fuel body s' r'))
          → RunsWithin (suc (weight r)) s r (after_round (rounds fuel body) t)
      by_round (r', ok (inl s')) e p rest =
          let (n, few, run) = rest s' r' p in (suc n, omega arith, goes_on e run)
      by_round (r', ok (inr a)) e p rest = (1, omega arith, returns e)
      by_round (r', err x) e p rest = (1, omega arith, fails e)

  pub loop-HasRun : (s : S) (r : Reader) → HasRun body s r
  unfolding loop
  loop-HasRun s r = rounds-Runs (suc (weight r)) s r (omega arith)
