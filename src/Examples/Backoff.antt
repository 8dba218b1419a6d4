-- ===== src/Examples/Backoff.antt =====
-- Examples for src/core/backoff.py.
use githubprojectforissueide.Prelude.{
  ℕ, zero, suc, ◌≡◌, ◌<◌, refl, Bool, true, false, [], ◌∷◌, arith, ◌==◌,
}
use githubprojectforissueide.Backoff.{Attempt, succeeds, fails, value, exhausted, call_with_backoff}
use githubprojectforissueide.Backoff.Attempts.{
  pauses, Retryable, call_with_backoff-value, call_with_backoff-exhausted,
}

-- Exceptions are numbers, and only the exception 7 is not worth a retry.
abbrev worth : ℕ → Bool
worth e = elim (e == 7) [ true ↦ false | false ↦ true ]

abbrev limited : ℕ → ℕ
limited i = 429

abbrev third_time : ℕ → Attempt ℕ ℕ
third_time zero = fails 429
third_time (suc zero) = fails 429
third_time (suc (suc i)) = succeeds 5

abbrev bad_key : ℕ → Attempt ℕ ℕ
bad_key i = fails 7

abbrev always_limited : ℕ → Attempt ℕ ℕ
always_limited i = fails 429

runs : call_with_backoff third_time worth 3 1 ≡ (value 5, 1 ∷ 2 ∷ [])
unfolding call_with_backoff
runs = refl

twice_limited : (k : ℕ) → k < 2 → Retryable third_time worth 3 1 limited k
twice_limited zero h = record { raises = refl; worth_it = refl }
twice_limited (suc zero) h = record { raises = refl; worth_it = refl }
twice_limited (suc (suc k)) h = absurd (omega arith)

call_with_backoff-value_example : call_with_backoff third_time worth 3 1 ≡ (value 5, pauses 1 0 2)
call_with_backoff-value_example =
    call_with_backoff-value third_time worth 3 1 limited 2 5 (omega arith) twice_limited refl

none_before : (k : ℕ) → k < 0 → Retryable bad_key worth 3 1 limited k
none_before k h = absurd (omega arith)

limited_always : (k : ℕ) → k < 3 → Retryable always_limited worth 3 1 limited k
limited_always k h = record { raises = refl; worth_it = refl }

call_with_backoff-exhausted_example :
    call_with_backoff always_limited worth 3 1 ≡ (exhausted 3 429, pauses 1 0 2)
call_with_backoff-exhausted_example =
    call_with_backoff-exhausted always_limited worth 3 1 limited (omega arith) limited_always
