-- ===== src/Random.antt =====
-- The part of Python's `random.Random` that the engine calls (rng.py, setup.py, rules/cards.py), as a
-- parameter: a generator is a state, and a call returns the new one.
use mathlib.Core.List.{Perm}
use monopoly_be.Prelude.{ℕ, ◌≤◌, List}

pub record Random : Type 1 where
  pub State : Type 0
  pub randint : ℕ → ℕ → State → ℕ × State
  pub shuffle : {A : Type 0} → List A → State → List A × State

-- What the documentation of the library promises: `randint(a, b)` lies in [a, b], and `shuffle` permutes.
pub record IsRandom (R : Random) : Type 1 where
  pub randint_bounds :
      (a b : ℕ) (s : R.State) → a ≤ b → (a ≤ (R.randint a b s).0) × ((R.randint a b s).0 ≤ b)
  pub shuffle_perm : (A : Type 0) (xs : List A) (s : R.State) → Perm (R.shuffle xs s).0 xs
