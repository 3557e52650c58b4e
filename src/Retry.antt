-- ===== src/Retry.antt =====
-- `run_serializable` of src/recallops/db_retry.py. A transaction is a function of the database, which
-- comes back beside an error too; delays are counted in units of the base delay of ten milliseconds.
pub mod Tests
pub mod Attempts
use recallops.Common.{
  ℕ, Bool, List, if◌then◌else◌, true, [], false, ltb, not, suc, ◌+◌, zero, ◌==◌, ◌^◌, ◌∷◌, nat_eq,
}
use recallops.Result.{Error, Result, err, ok, assertion_error, serialization_failure, value_error}

abbrev pub max_serialization_attempts : ℕ
max_serialization_attempts = 6

-- `except SerializationFailure`
abbrev pub is_serialization_failure : Error → Bool
is_serialization_failure serialization_failure = true
is_serialization_failure _ = false

module _ {A S : Type 0} (operation : S → Result A × S) (max_attempts : ℕ) where
  -- What follows one attempt: the result, the database, and the delays from here on.
  pub after_attempt : ℕ → Result A × S → (S → Result A × S × List ℕ) → Result A × S × List ℕ
  after_attempt attempt (ok a, s) again = (ok a, s, [])
  after_attempt attempt (err e, s) again =
      let rest = again s in
      if not (is_serialization_failure e)
      then (err e, s, [])
      else if attempt + 1 == max_attempts
      then (err e, s, [])
      else (rest.0, rest.1, 2 ^ attempt ∷ rest.2)

  -- `for attempt in range(max_attempts)`, by the rounds that are left.
  pub attempts : ℕ → ℕ → S → Result A × S × List ℕ
  attempts zero attempt s =
      (err (assertion_error "retry loop exhausted without returning or raising"), s, [])
  attempts (suc rounds) attempt s =
      after_attempt attempt (operation s) (attempts rounds (attempt + 1))

  pub run_serializable : S → Result A × S × List ℕ
  unfolding attempts
  run_serializable s =
      if ltb max_attempts 1
      then (err (value_error "max_attempts must be at least one"), s, [])
      else attempts max_attempts 0 s
