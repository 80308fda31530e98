-- ===== src/Outcome.antt =====
-- How a call of the C++ code ends: with a result, by an exception, by an `assert` that fails, or in
-- undefined behaviour.
-- `out_of_fuel` is the model's own: a loop was given too few rounds.
pub data Exception : Type 0 where
  runtime_error length_error : Exception

pub data Outcome {ℓ} (A : Type ℓ) : Type ℓ where
  done : A → Outcome A
  throws : Exception → Outcome A
  aborts : Outcome A
  undefined : Outcome A
  out_of_fuel : Outcome A

infixl 5 ◌>>=◌
abbrev pub ◌>>=◌ {ℓ κ} : {A : Type ℓ} {B : Type κ} → Outcome A → (A → Outcome B) → Outcome B
done a >>= f = f a
throws e >>= f = throws e
aborts >>= f = aborts
undefined >>= f = undefined
out_of_fuel >>= f = out_of_fuel
