-- ===== src/Retry.antt =====
-- internal/retry/retry.go: `Do`. The function that is tried is the outcome of each of its calls; a
-- context that is done while `Do` waits before an attempt is a test of that attempt.
-- Durations are nanoseconds below 2 ^ 63; one that is not above 0 is 0.
pub mod Attempts
mod Examples
use debswarm.Prelude.{
  ℕ, zero, suc, ◌+◌, ◌*◌, ◌==◌, Option, none, some, Bool, true, false, ◌&&◌, ltb, if◌then◌else◌,
}

-- An error that is wrapped as not retryable is told from the others.
pub data Attempt {ℓ κ} (A : Type ℓ) (E : Type κ) : Type (ℓ ⊔ κ) where
  succeeds : A → Attempt A E
  fails : E → Attempt A E
  fails_for_good : E → Attempt A E

-- What `Do` gives: a result, the error of its context, an error that is not retried, or the last
-- error with the number of attempts.
pub data Ending {ℓ κ} (A : Type ℓ) (E : Type κ) : Type (ℓ ⊔ κ) where
  returned : A → Ending A E
  canceled : Ending A E
  gave_up : E → Ending A E
  exhausted : ℕ → Option E → Ending A E

unfoldable pub exponential : ℕ → ℕ → ℕ
exponential base attempt = attempt * attempt * base

unfoldable pub linear : ℕ → ℕ → ℕ
linear base attempt = attempt * base

unfoldable pub constant : ℕ → ℕ → ℕ
constant d attempt = if attempt == 0 then 0 else d

-- `time.Second`
abbrev pub second : ℕ
second = 1000000000

module _ {ℓ κ} {A : Type ℓ} {E : Type κ} (max_attempts : ℕ) (backoff : ℕ → ℕ) (fn : ℕ → Attempt A E)
    (is_done : ℕ → Bool) where
  abbrev pub stopped : ℕ → Bool
  stopped attempt = (ltb 0 attempt && ltb 0 (backoff attempt)) && is_done attempt

  -- The attempts from one on, n of which are left.
  unfoldable pub attempts_from : ℕ → ℕ → Option E → Ending A E
  attempts_from zero attempt last = exhausted max_attempts last
  attempts_from (suc n) attempt last = elim (stopped attempt) [
    | true ↦ canceled
    | false ↦ elim (fn attempt) [
      | succeeds result ↦ returned result
      | fails_for_good err ↦ gave_up err
      | fails err ↦ attempts_from n (attempt + 1) (some err)
    ]
  ]

-- Below 1, `MaxAttempts` is 1; no backoff is an exponential one.
abbrev pub at_least_one : ℕ → ℕ
at_least_one n = if ltb n 1 then 1 else n

abbrev pub backoff_or_default : Option (ℕ → ℕ) → ℕ → ℕ
backoff_or_default none = exponential second
backoff_or_default (some backoff) = backoff

unfoldable pub do_attempts {ℓ κ} :
    {A : Type ℓ} {E : Type κ} → ℕ → Option (ℕ → ℕ) → (ℕ → Attempt A E) → (ℕ → Bool) → Ending A E
unfolding attempts_from
do_attempts max_attempts backoff fn is_done =
    let n = at_least_one max_attempts in
    attempts_from n (backoff_or_default backoff) fn is_done n 0 none
