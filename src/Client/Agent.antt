-- ===== src/Client/Agent.antt =====
-- `run_finding_agent` of src/agents/_llm_finding_agent.py.
use githubprojectforissueide.Prelude.{
  ℕ, ◌≡◌, ◌<◌, refl, ap, ◌∙◌, Bool, true, false, List, [], Option, some, if◌then◌else◌, ◌>>=◌,
}
use githubprojectforissueide.Text.{Text, is_blank}
use githubprojectforissueide.Models.{Finding}
use githubprojectforissueide.Breaker.{Settings, record_success, record_failure}
use githubprojectforissueide.Breaker.Runs.{after_failure, record_failure_lem}
use githubprojectforissueide.Backoff.{Attempt}
use githubprojectforissueide.Client.{
  LlmSettings, LlmRequest, LlmState, CallResult, answered, circuit_open, call_failed, call_llm,
}
use githubprojectforissueide.Client.Calls.{call_llm-again}

module _ (parse : Text → List Finding × Bool) (settings : Settings) where
  -- The parsed answer, at the time `later`; `none` is a ZeroDivisionError of the breaker.
  unfoldable pub on_parsed :
      ℕ → LlmState → List Finding × Bool → Option ((List Finding × Bool) × LlmState)
  unfolding record_success record_failure
  on_parsed later s (findings, true) =
      some ((findings, true), record s { breaker = record_success settings s.breaker })
  on_parsed later s (findings, false) = do
    b ← record_failure settings later s.breaker
    some ((findings, false), record s { breaker = b })

  -- What follows the call of the model.
  unfoldable pub on_call : ℕ → CallResult × LlmState → Option ((List Finding × Bool) × LlmState)
  unfolding on_parsed
  on_call later (circuit_open, s) = some (([], false), s)
  on_call later (call_failed error, s) = some (([], false), s)
  on_call later (answered raw, s) = on_parsed later s (parse raw)

  module _ (sha256 : Text → Text) (digest : Text → ℕ) where
    -- The request is made of the prompts and the code; `parse` is what the answer holds: the findings,
    -- and whether it is of the expected form. The times are those of the clock's three readings.
    unfoldable pub run_finding_agent :
        LlmSettings
        → LlmRequest
        → Text
        → ℕ
        → ℕ
        → ℕ
        → Attempt Text Text
        → LlmState
        → Option ((List Finding × Bool) × LlmState)
    unfolding is_blank call_llm on_call
    run_finding_agent c q code now later last answer s =
        if is_blank code
        then some (([], true), s)
        else call_llm sha256 digest settings c q now later answer s >>= on_call last

    -- Once a model has answered a deterministic request in a form that cannot be parsed, the agent
    -- fails on that request as long as the cache is kept, whatever the model would answer now.
    pub unparsable_answer_stays :
        (c : LlmSettings) (q : LlmRequest) (code t : Text) (now later now' later' last' : ℕ)
        (answer answer' : Attempt Text Text) (s s1 s2 : LlmState)
        → 0 < settings.window_size
        → is_blank code ≡ false
        → q.is_deterministic ≡ true
        → call_llm sha256 digest settings c q now later answer s ≡ some (answered t, s1)
        → (parse t).1 ≡ false
        → s2.cache ≡ s1.cache
        → (s3 : LlmState) × (run_finding_agent c q code now' later' last' answer' s2
            ≡ some (((parse t).0, false), s3))
          × (s3.cache ≡ s2.cache)
    unfolding run_finding_agent on_call on_parsed
    unparsable_answer_stays c q code t now later now' later' last' answer answer' s s1 s2 room
          code_there d first bad same =
        let again =
          call_llm-again sha256 digest settings c q now later now' later' answer answer' s s1 s2 t d
            first same in
        let opened = record_failure_lem settings last' s2.breaker room in
        let whole : run_finding_agent c q code now' later' last' answer' s2
            ≡ some (
              ((parse t).0, false),
              record s2 { breaker = after_failure settings last' s2.breaker },
            ) =
          ap
            (λ b.
              if b
              then some (([], true), s2)
              else (call_llm sha256 digest settings c q now' later' answer' s2 >>= on_call last'))
            code_there
          ∙ ap (λ r. r >>= on_call last') again
          ∙ ap (λ b. on_parsed last' s2 ((parse t).0, b)) bad
          ∙ ap (λ r. r >>= λ b. some (((parse t).0, false), record s2 { breaker = b })) opened in
        (record s2 { breaker = after_failure settings last' s2.breaker }, whole, refl)
