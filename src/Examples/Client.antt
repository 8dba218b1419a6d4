-- ===== src/Examples/Client.antt =====
-- Examples for src/agents/llm_client.py and src/core/canary.py.
use githubprojectforissueide.Prelude.{
  ℕ, ◌≡◌, refl, Bool, true, false, List, [], ◌∷◌, none, some, arith,
}
use githubprojectforissueide.Text.{Text, codes, is_blank}
use githubprojectforissueide.Models.{Finding}
use githubprojectforissueide.Client.Agent.{run_finding_agent, unparsable_answer_stays}
use githubprojectforissueide.Breaker.{
  Breaker, default_settings, new_breaker, open_circuit, allow_request, record_success, push,
}
use githubprojectforissueide.Backoff.{succeeds, fails}
use githubprojectforissueide.Client.{
  LlmSettings, LlmRequest, LlmState, answered, cached, cache_key, call_llm, model_for, budget,
}
use githubprojectforissueide.Client.Canary.{canary, variant_for}
use githubprojectforissueide.Client.Calls.{call_llm-again}

abbrev same : Text → Text
same s = s

abbrev config : LlmSettings
config = record {
  provider = codes "groq";
  max_review_tokens = 800;
  canary_rollout_percent = 30;
  review_model = codes "llama";
  openai_model = codes "gpt";
  anthropic_model = codes "claude";
  canary_review_model = codes "llama-next";
  canary_openai_model = [];
  canary_anthropic_model = [];
}

abbrev ask : LlmRequest
ask = record {
  system = codes "review";
  user = codes "x = 1";
  is_deterministic = true;
  max_tokens = 2000;
  canary_key = codes "acme/widgets:abc";
}

abbrev start : LlmState
start = record { breaker = new_breaker; cache = [] }

abbrev digest : Text → ℕ
digest s = 129

-- The cap on tokens, and the candidate's model for a key in its share.
capped : budget config ask ≡ 800
unfolding budget
capped = refl

candidate :
    model_for config (variant_for digest ask.canary_key config.canary_rollout_percent)
    ≡ codes "llama-next"
unfolding model_for variant_for
candidate = refl

in_share : variant_for digest ask.canary_key 30 ≡ canary
unfolding variant_for
in_share = refl

abbrev after : LlmState
after = record {
  breaker = record new_breaker { window = true ∷ [] };
  cache = (cache_key same digest default_settings config ask, codes "[]") ∷ [];
}

first_call :
    call_llm same digest default_settings config ask 5 6 (succeeds (codes "[]")) start
    ≡ some (answered (codes "[]"), after)
unfolding call_llm allow_request record_success cached push
first_call = refl

abbrev tripped : Breaker
tripped = record { state = open_circuit; window = []; opened_at = 10; opened_total = 1 }

call_llm-again_example :
    call_llm same digest default_settings config ask 15 16
      (fails (codes "down"))
      (record after { breaker = tripped })
    ≡ some (answered (codes "[]"), record after { breaker = tripped })
call_llm-again_example =
    call_llm-again same digest default_settings config ask 5 6 15 16 (succeeds (codes "[]"))
      (fails (codes "down")) start after (record after { breaker = tripped }) (codes "[]") refl
      first_call refl

nothing_cached : cached (cache_key same digest default_settings config ask) [] ≡ none
unfolding cached
nothing_cached = refl

-- No answer can be parsed.
abbrev no_json : Text → List Finding × Bool
no_json t = ([], false)

not_blank : is_blank (codes "x = 1") ≡ false
unfolding is_blank
not_blank = refl

unparsable_answer_stays_example :
    (s3 : LlmState) × (run_finding_agent no_json default_settings same digest config ask
        (codes "x = 1")
        15
        16
        17
        (succeeds (codes "{}"))
        after
      ≡ some (([], false), s3))
    × (s3.cache ≡ after.cache)
unparsable_answer_stays_example =
    unparsable_answer_stays no_json default_settings same digest config ask (codes "x = 1")
      (codes "[]") 5 6 15 16 17 (succeeds (codes "[]")) (succeeds (codes "{}")) start after after
      (omega arith) not_blank refl first_call refl refl
