-- ===== src/Prelude/Outcomes.antt =====
-- How a C function with assertions ends.
-- `aborted` is a failed `assert`, `out_of_fuel` a recursion that the given fuel does not cover.
pub data Outcome {ℓ} (A : Type ℓ) : Type ℓ where
  done : A → Outcome A
  aborted : Outcome A
  out_of_fuel : Outcome A
