-- ===== src/Backoff/Attempts.antt =====
-- What `call_with_backoff` comes to, and the pauses that it makes.
use githubprojectforissueide.Prelude.{
  ℕ, zero, suc, ◌+◌, ◌-◌, ◌*◌, ◌^◌, ◌≡◌, ◌≤◌, ◌<◌, refl, ap, ◌∙◌, subst, Bool, true, false, List,
  [], ◌∷◌, Option, none, some, ltb, arith, if◌then◌else◌,
}
use githubprojectforissueide.Backoff.{
  Attempt, succeeds, fails, BackoffResult, value, reraised, exhausted, after_sleeps, on_attempt,
  backoff_loop, call_with_backoff,
}

-- The pauses behind `n` failed calls from call `i` on: each is twice the one before.
pub pauses : ℕ → ℕ → ℕ → List ℕ
pauses base i zero = []
pauses base i (suc n) = base * 2 ^ i ∷ pauses base (suc i) n

module _ {A E : Type 0} (fn : ℕ → Attempt A E) (should_retry : E → Bool) (max_attempts base : ℕ)
    (error : ℕ → E) where
  -- Call `i` fails in a way that is worth a retry.
  pub record Retryable (i : ℕ) : Type 0 where
    pub raises : fn i ≡ fails (error i)
    pub worth_it : should_retry (error i) ≡ true

  -- A round of a call that is tried again, where a round is left.
  round_retried :
      (i left : ℕ) (last : Option E)
      → Retryable i
      → backoff_loop fn should_retry max_attempts base i (suc left) last
        ≡ after_sleeps
            (if ltb 0 left then base * 2 ^ i ∷ [] else [])
            (backoff_loop fn should_retry max_attempts base (suc i) left (some (error i)))
  unfolding backoff_loop on_attempt
  round_retried i left last r =
      ap
        (on_attempt fn should_retry max_attempts base i left
          (backoff_loop fn should_retry max_attempts base (suc i) left))
        r.raises
      ∙ rw r.worth_it refl

  loop_ends :
      (i n left : ℕ) (last : Option E) (r : BackoffResult A E)
      → n < left
      → ((k : ℕ) → i ≤ k → k < i + n → Retryable k)
      → ((l : ℕ) (o : Option E)
          → backoff_loop fn should_retry max_attempts base (i + n) (suc l) o ≡ (r, []))
      → backoff_loop fn should_retry max_attempts base i left last ≡ (r, pauses base i n)
  unfolding pauses
  loop_ends i n zero last r enough before ends = absurd (omega arith)
  loop_ends i zero (suc left) last r enough before ends =
      let e : i + 0 ≡ i = omega arith in
      subst (λ j. backoff_loop fn should_retry max_attempts base j (suc left) last ≡ (r, [])) e
        (ends left last)
  loop_ends i (suc n) (suc left) last r enough before ends =
      let room : ltb 0 left ≡ true = ground arith in
      let e : i + suc n ≡ suc i + n = omega arith in
      let rest =
        loop_ends (suc i) n left (some (error i)) r (omega arith)
          (λ k from below. before k (omega arith) (omega arith))
          (λ l o.
            subst (λ j. backoff_loop fn should_retry max_attempts base j (suc l) o ≡ (r, [])) e
              (ends l o)) in
      round_retried i left last (before i (omega arith) (omega arith)) ∙ rw (room, rest) refl

  loop_exhausts :
      (i left : ℕ) (last : Option E)
      → ((k : ℕ) → i ≤ k → k < i + suc left → Retryable k)
      → backoff_loop fn should_retry max_attempts base i (suc left) last
        ≡ (exhausted max_attempts (error (i + left)), pauses base i left)
  unfolding pauses backoff_loop
  loop_exhausts i zero last all =
      let e : i + 0 ≡ i = omega arith in
      round_retried i 0 last (all i (omega arith) (omega arith)) ∙ rw e refl
  loop_exhausts i (suc left) last all =
      let room : ltb 0 (suc left) ≡ true = ground arith in
      let e : suc i + left ≡ i + suc left = omega arith in
      let rest =
        loop_exhausts (suc i) left (some (error i))
          (λ k from below. all k (omega arith) (omega arith)) in
      round_retried i (suc left) last (all i (omega arith) (omega arith)) ∙ rw (room, rest, e) refl

  -- Where the first `n` calls fail in ways that are worth a retry and the next call, of those allowed,
  -- succeeds, its value is returned, after `n` pauses that double.
  pub call_with_backoff-value :
      (n : ℕ) (a : A)
      → n < max_attempts
      → ((k : ℕ) → k < n → Retryable k)
      → fn n ≡ succeeds a
      → call_with_backoff fn should_retry max_attempts base ≡ (value a, pauses base 0 n)
  unfolding call_with_backoff backoff_loop on_attempt
  call_with_backoff-value n a enough before ends =
      loop_ends 0 n max_attempts none (value a) enough (λ k from below. before k (omega arith))
        (λ l o. let e : 0 + n ≡ n = omega arith in rw (e, ends) refl)

  -- Where the first `n` calls fail in ways that are worth a retry and the next call, of those allowed,
  -- fails in one that is not, its exception is raised at once, after `n` pauses that double.
  pub call_with_backoff-reraised :
      (n : ℕ) (e : E)
      → n < max_attempts
      → ((k : ℕ) → k < n → Retryable k)
      → fn n ≡ fails e
      → should_retry e ≡ false
      → call_with_backoff fn should_retry max_attempts base ≡ (reraised e, pauses base 0 n)
  unfolding call_with_backoff backoff_loop on_attempt
  call_with_backoff-reraised n e enough before ends hopeless =
      loop_ends 0 n max_attempts none (reraised e) enough (λ k from below. before k (omega arith))
        (λ l o. let z : 0 + n ≡ n = omega arith in rw (z, ends, hopeless) refl)

  -- Where all the calls that are allowed, at least one, fail in ways that are worth a retry, they are
  -- all made and the last exception is wrapped, after one pause less than there are calls.
  pub call_with_backoff-exhausted :
      0 < max_attempts
      → ((k : ℕ) → k < max_attempts → Retryable k)
      → call_with_backoff fn should_retry max_attempts base
        ≡ (exhausted max_attempts (error (max_attempts - 1)), pauses base 0 (max_attempts - 1))
  unfolding call_with_backoff
  call_with_backoff-exhausted some_allowed all =
      let e : suc (max_attempts - 1) ≡ max_attempts = omega arith in
      let z : 0 + (max_attempts - 1) ≡ max_attempts - 1 = omega arith in
      subst
        (λ m.
          backoff_loop fn should_retry max_attempts base 0 m none
          ≡ (exhausted max_attempts (error (max_attempts - 1)), pauses base 0 (max_attempts - 1)))
        e
        (subst
          (λ m.
            backoff_loop fn should_retry max_attempts base 0 (suc (max_attempts - 1)) none
            ≡ (exhausted max_attempts (error m), pauses base 0 (max_attempts - 1)))
          z (loop_exhausts 0 (max_attempts - 1) none (λ k from below. all k (omega arith))))
