-- ===== src/Backoff.antt =====
-- src/core/backoff.py: calls that are tried again, with growing pauses.
pub mod Attempts
use githubprojectforissueide.Prelude.{
  ℕ, zero, suc, ◌*◌, ◌^◌, Bool, true, false, not, List, [], ◌∷◌, ◌++◌, Option, none, some, ltb,
  if◌then◌else◌,
}

-- What one call comes to.
pub data Attempt (A E : Type 0) : Type 0 where
  succeeds : A → Attempt A E
  fails : E → Attempt A E

-- What the function comes to: a value, the exception of a call, RetriesExhausted with the number of
-- attempts and the last exception, or the AssertionError of no attempt at all.
pub data BackoffResult (A E : Type 0) : Type 0 where
  value : A → BackoffResult A E
  reraised : E → BackoffResult A E
  exhausted : ℕ → E → BackoffResult A E
  no_attempt : BackoffResult A E

module _ {A E : Type 0} where
  abbrev pub gave_up : ℕ → Option E → BackoffResult A E
  gave_up max_attempts none = no_attempt
  gave_up max_attempts (some e) = exhausted max_attempts e

  -- A result behind some pauses.
  abbrev pub after_sleeps : List ℕ → BackoffResult A E × List ℕ → BackoffResult A E × List ℕ
  after_sleeps sleeps (r, more) = (r, sleeps ++ more)

  -- The parameters: `fn i` is what call `i` comes to; delays are whole numbers of some unit of time.
  module _ (fn : ℕ → Attempt A E) (should_retry : E → Bool) (max_attempts base_delay : ℕ) where
    -- One round, by what its call comes to; `rest` is the result of the rounds that are left, if any.
    unfoldable pub on_attempt :
        ℕ → ℕ → (Option E → BackoffResult A E × List ℕ) → Attempt A E → BackoffResult A E × List ℕ
    on_attempt attempt left rest (succeeds a) = (value a, [])
    on_attempt attempt left rest (fails e) =
        if not (should_retry e)
        then (reraised e, [])
        else after_sleeps (if ltb 0 left then base_delay * 2 ^ attempt ∷ [] else []) (rest (some e))

    -- The loop, with the rounds that are left; with the pauses that it makes.
    unfoldable pub backoff_loop : ℕ → ℕ → Option E → BackoffResult A E × List ℕ
    unfolding on_attempt
    backoff_loop attempt zero last_error = (gave_up max_attempts last_error, [])
    backoff_loop attempt (suc left) last_error =
        on_attempt attempt left (backoff_loop (suc attempt) left) (fn attempt)

    unfoldable pub call_with_backoff : BackoffResult A E × List ℕ
    unfolding backoff_loop
    call_with_backoff = backoff_loop 0 max_attempts none
