-- ===== src/Retry/Tests.antt =====
-- Runs of the retry loop.
use recallops.Retry.Attempts.{Decides, run_serializable-Decides}
use recallops.Common.{ℕ, arith, ◌≡◌, ◌+◌, ◌∷◌, [], refl, suc, zero}
use recallops.Retry.{run_serializable, after_attempt}
use recallops.Result.{Result, err, ok, serialization_failure}

-- A transaction that meets so many conflicts and then counts its runs.
abbrev conflicting : ℕ × ℕ → Result ℕ × (ℕ × ℕ)
conflicting (zero, runs) = (ok runs, (zero, runs + 1))
conflicting (suc conflicts, runs) = (err serialization_failure, (conflicts, runs + 1))

two_conflicts : run_serializable conflicting 6 (2, 0) ≡ (ok 2, (0, 3), 1 ∷ 2 ∷ [])
unfolding run_serializable after_attempt
two_conflicts = refl

too_many : (run_serializable conflicting 2 (2, 0)).0 ≡ err serialization_failure
unfolding run_serializable after_attempt
too_many = refl

run_serializable-Decides_example :
    Decides conflicting 6 0 (2, 0) (run_serializable conflicting 6 (2, 0))
run_serializable-Decides_example = run_serializable-Decides conflicting 6 (2, 0) (omega arith)
