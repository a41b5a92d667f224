-- ===== src/Retry/Examples.antt =====
-- The theorem of internal/retry at a concrete input: a function that fails twice.
use debswarm.Prelude.{ℕ, zero, suc, ◌<◌, ◌≡◌, ◌↔◌, none, Bool, false}
use debswarm.Retry.{
  Attempt, succeeds, fails, returned, stopped, at_least_one, backoff_or_default, do_attempts,
}
use debswarm.Retry.Attempts.{Returns, do_attempts_iff}

abbrev fails_twice : ℕ → Attempt ℕ ℕ
fails_twice zero = fails 500
fails_twice (suc zero) = fails 503
fails_twice (suc (suc n)) = succeeds 200

abbrev never : ℕ → Bool
never attempt = false

do_attempts_iff_example : (do_attempts 3 none fails_twice never ≡ returned 200) ↔ (
    (i : ℕ) × (i < at_least_one 3)
    × Returns fails_twice
        (stopped (at_least_one 3) (backoff_or_default none) fails_twice never)
        0
        i
        200)
do_attempts_iff_example = do_attempts_iff 3 none fails_twice never 200
