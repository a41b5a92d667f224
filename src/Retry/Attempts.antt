-- ===== src/Retry/Attempts.antt =====
-- internal/retry/retry.go: which attempt gives the result of `Do`.
use debswarm.Prelude.{
  ℕ, zero, suc, ◌+◌, ◌≤◌, ◌<◌, ◌≡◌, ◌↔◌, ◌⊎◌, refl, sym, Option, none, some, Bool, true, false, ltb,
  arith, inl, inr, Bool-cases,
}
use debswarm.Retry.{
  Attempt, succeeds, fails, fails_for_good, returned, stopped, attempts_from, at_least_one,
  backoff_or_default, do_attempts,
}

-- The attempt i is made and gives the result: the ones before it have failed, and no wait up to it
-- was cut short.
abbrev pub Returns {ℓ κ} :
    {A : Type ℓ} {E : Type κ} → (ℕ → Attempt A E) → (ℕ → Bool) → ℕ → ℕ → A → Type (ℓ ⊔ κ)
Returns {E = E} fn is_stopped first i a =
    (fn i ≡ succeeds a)
    × ((j : ℕ) → first ≤ j → j < i → (e : E) × (fn j ≡ fails e))
    × ((j : ℕ) → first ≤ j → j ≤ i → is_stopped j ≡ false)

module _ {A E : Type 0} (m : ℕ) (backoff : ℕ → ℕ) (fn : ℕ → Attempt A E) (is_done : ℕ → Bool)
    (a : A) where
  attempts_from-Returns :
      (n k : ℕ) (last : Option E)
      → attempts_from m backoff fn is_done n k last ≡ returned a
      → (i : ℕ) × (k ≤ i) × (i < k + n) × Returns fn (stopped m backoff fn is_done) k i a
  unfolding attempts_from
  attempts_from-Returns zero k last e = absurd (ground arith)
  attempts_from-Returns (suc n) k last e =
      go (Bool-cases (stopped m backoff fn is_done k)) (fn k) refl
        (λ err. attempts_from-Returns n (k + 1) (some err))
    where
      go :
          ((stopped m backoff fn is_done k ≡ true) ⊎ (stopped m backoff fn is_done k ≡ false))
          → (o : Attempt A E) → fn k ≡ o
          → ((err : E)
              → attempts_from m backoff fn is_done n (k + 1) (some err) ≡ returned a
              → (i : ℕ) × (k + 1 ≤ i)
                × (i < k + 1 + n)
                × Returns fn (stopped m backoff fn is_done) (k + 1) i a)
          → (i : ℕ) × (k ≤ i) × (i < k + suc n) × Returns fn (stopped m backoff fn is_done) k i a
      go (inl f) o g ih = absurd (ground arith)
      go (inr f) (fails_for_good err) g ih = absurd (ground arith)
      go (inr f) (succeeds b) g ih = (
        k,
        omega arith,
        omega arith,
        (ground arith, λ j p q. absurd (omega arith), λ j p q. ground arith),
      )
      go (inr f) (fails err) g ih =
          let (i, p, q, (r, s, t)) = ih err (ground arith) in
          (
            i,
            omega arith,
            omega arith,
            (
              r,
              λ j u v. elim (Bool-cases (ltb k j)) [
                | inl w ↦ s j (ground arith) v
                | inr w ↦ (err, ground arith)
              ],
              λ j u v. elim (Bool-cases (ltb k j)) [
                | inl w ↦ t j (ground arith) v
                | inr w ↦ ground arith
              ],
            ),
          )

  attempts_from-reaches :
      (n k i : ℕ) (last : Option E)
      → k ≤ i
      → i < k + n
      → Returns fn (stopped m backoff fn is_done) k i a
      → attempts_from m backoff fn is_done n k last ≡ returned a
  unfolding attempts_from
  attempts_from-reaches zero k i last p q r = absurd (omega arith)
  attempts_from-reaches (suc n) k i last p q (r, s, t) = elim (Bool-cases (ltb k i)) [
    | inl w ↦
        let (err, f) = s k (omega arith) (ground arith) in
        let rest =
          attempts_from-reaches n (k + 1) i (some err) (ground arith) (omega arith)
            (r, λ j u v. s j (omega arith) v, λ j u v. t j (omega arith) v) in
        ground (arith, t k (omega arith) p)
    | inr w ↦
        let same : i ≡ k = ground arith in
        let here : fn k ≡ succeeds a = rw (sym same) r in ground (arith, t k (omega arith) p)
  ]

-- `Do` returns a result exactly if an attempt below the bound, which is 1 at least, gives it, the
-- attempts before have failed in a way that is retried, and the context was not done in a wait.
pub do_attempts_iff :
    {A E : Type 0} (m : ℕ) (backoff : Option (ℕ → ℕ)) (fn : ℕ → Attempt A E) (is_done : ℕ → Bool)
    (a : A)
    → (do_attempts m backoff fn is_done ≡ returned a) ↔ (
        (i : ℕ) × (i < at_least_one m)
        × Returns fn (stopped (at_least_one m) (backoff_or_default backoff) fn is_done) 0 i a)
unfolding do_attempts
do_attempts_iff m backoff fn is_done a =
    let n = at_least_one m in
    (
      λ e.
          let (i, p, q, r) =
            attempts_from-Returns n (backoff_or_default backoff) fn is_done a n 0 none e in
          (i, omega arith, r),
      λ (i, q, r).
          attempts_from-reaches n (backoff_or_default backoff) fn is_done a n 0 i none (omega arith)
            (omega arith) r,
    )
