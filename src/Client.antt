-- ===== src/Client.antt =====
-- src/agents/llm_client.py with src/cache/llm_cache.py: the one place from which a model is called.
pub mod Canary
pub mod Calls
pub mod Agent
use githubprojectforissueide.Prelude.{
  ℕ, Bool, true, false, not, List, [], ◌∷◌, ◌++◌, Option, none, some, min, ◌==◌, if◌then◌else◌,
  ◌>>=◌,
}
use githubprojectforissueide.Text.{Text, codes, text_eq, is_empty, show}
use githubprojectforissueide.Breaker.{
  Settings, Breaker, allow_request, record_success, record_failure,
}
use githubprojectforissueide.Backoff.{Attempt, succeeds, fails}
use Canary.{Variant, stable, canary, variant_for}

-- The fields of the configuration that the client reads; the provider in lower case.
pub record LlmSettings : Type 0 where
  pub provider : Text
  pub max_review_tokens : ℕ
  pub canary_rollout_percent : ℕ
  pub review_model : Text
  pub openai_model : Text
  pub anthropic_model : Text
  pub canary_review_model : Text
  pub canary_openai_model : Text
  pub canary_anthropic_model : Text

-- The arguments of `call_llm`; whether the temperature is 0. A `max_tokens` of 0 and an empty
-- `canary_key` stand for None too, since the source only tests their truth.
pub record LlmRequest : Type 0 where
  pub system : Text
  pub user : Text
  pub is_deterministic : Bool
  pub max_tokens : ℕ
  pub canary_key : Text

-- What the client keeps: the breaker, and the cache on the disk, the newest entry first.
pub record LlmState : Type 0 where
  pub breaker : Breaker
  pub cache : List (Text × Text)

-- An answer, CircuitOpenError, or the exception of the provider.
pub data CallResult : Type 0 where
  answered : Text → CallResult
  circuit_open : CallResult
  call_failed : Text → CallResult

abbrev pub or_text : Text → Text → Text
or_text a b = if is_empty a then b else a

-- `m if is_canary else ""`
abbrev pub canary_only : Variant → Text → Text
canary_only stable m = []
canary_only canary m = m

-- `_model_for`
unfoldable pub model_for : LlmSettings → Variant → Text
unfolding text_eq is_empty
model_for c v =
    if text_eq c.provider (codes "openai")
    then or_text (canary_only v c.canary_openai_model) c.openai_model
    else if text_eq c.provider (codes "anthropic")
    then or_text (canary_only v c.canary_anthropic_model) c.anthropic_model
    else or_text (canary_only v c.canary_review_model) c.review_model

unfoldable pub budget : LlmSettings → LlmRequest → ℕ
budget c q = if q.max_tokens == 0 then c.max_review_tokens else min q.max_tokens c.max_review_tokens

-- `llm_cache.get`
unfoldable pub cached : Text → List (Text × Text) → Option Text
unfolding text_eq
cached key [] = none
cached key ((k, value) ∷ entries) =
    let older = cached key entries in if text_eq key k then some value else older

module _ (sha256 : Text → Text) (digest : Text → ℕ) (breaker_settings : Settings) where
  -- `llm_cache.make_key`, of the five parts
  unfoldable pub make_key : Text → Text → Text → Text → Text → Text
  make_key a b c d e = sha256 (a ++ 0x1f ∷ (b ++ 0x1f ∷ (c ++ 0x1f ∷ (d ++ 0x1f ∷ e))))

  -- The variant of a request.
  unfoldable pub variant_of : LlmSettings → LlmRequest → Variant
  unfolding variant_for is_empty
  variant_of c q =
      if is_empty q.canary_key
      then stable
      else variant_for digest q.canary_key c.canary_rollout_percent

  unfoldable pub cache_key : LlmSettings → LlmRequest → Text
  unfolding make_key model_for variant_of budget show
  cache_key c q =
      make_key c.provider (model_for c (variant_of c q)) q.system q.user (show (budget c q))

  -- What follows the provider's answer, at the time `later`.
  unfoldable pub on_answer :
      LlmSettings → LlmRequest → ℕ → LlmState → Attempt Text Text → Option (CallResult × LlmState)
  on_answer c q later s (fails error) = do
    b ← record_failure breaker_settings later s.breaker
    some (call_failed error, record s { breaker = b })
  on_answer c q later s (succeeds text) = some (
    answered text,
    record {
      breaker = record_success breaker_settings s.breaker;
      cache = if q.is_deterministic then (cache_key c q, text) ∷ s.cache else s.cache;
    },
  )

  -- The breaker's permission at the time `now`, and what follows it.
  unfoldable pub on_permission :
      LlmSettings
      → LlmRequest
      → ℕ
      → LlmState
      → Attempt Text Text
      → Bool × Breaker
      → Option (CallResult × LlmState)
  unfolding on_answer
  on_permission c q later s answer (false, b) = some (circuit_open, record s { breaker = b })
  on_permission c q later s answer (true, b) = on_answer c q later (record s { breaker = b }) answer

  -- The cache's entry, and what follows it.
  unfoldable pub on_cached :
      LlmSettings
      → LlmRequest
      → ℕ
      → ℕ
      → LlmState
      → Attempt Text Text
      → Option Text
      → Option (CallResult × LlmState)
  unfolding on_permission allow_request
  on_cached c q now later s answer (some text) = some (answered text, s)
  on_cached c q now later s answer none =
      on_permission c q later s answer (allow_request breaker_settings now s.breaker)

  -- `call_llm`; `answer` is what the provider's call comes to, behind its retries, and `none` is a
  -- ZeroDivisionError of the breaker.
  unfoldable pub call_llm :
      LlmSettings
      → LlmRequest
      → ℕ
      → ℕ
      → Attempt Text Text
      → LlmState
      → Option (CallResult × LlmState)
  unfolding on_cached
  call_llm c q now later answer s =
      on_cached c q now later s answer
        (if q.is_deterministic then cached (cache_key c q) s.cache else none)
