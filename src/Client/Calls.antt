-- ===== src/Client/Calls.antt =====
-- What the cache and the breaker mean for a call of a model.
use githubprojectforissueide.Prelude.{
  ℕ, ◌+◌, ◌≡◌, ◌<◌, refl, ap, ◌∙◌, subst, Bool, true, false, List, ◌∷◌, Option, none, some, arith,
  if◌then◌else◌, >>=-eq-some,
}
use githubprojectforissueide.Text.{Text, text_eq_refl}
use githubprojectforissueide.Breaker.{
  Settings, Breaker, open_circuit, allow_request, record_failure,
}
use githubprojectforissueide.Backoff.{Attempt, succeeds, fails}
use githubprojectforissueide.Client.{
  LlmSettings, LlmRequest, LlmState, CallResult, answered, circuit_open, call_failed, cached,
  cache_key, on_answer, on_permission, on_cached, call_llm,
}

allow_request-refused :
    (settings : Settings) (now : ℕ) (b : Breaker)
    → b.state ≡ open_circuit
    → now < b.opened_at + settings.cooldown
    → allow_request settings now b ≡ (false, b)
unfolding allow_request
allow_request-refused settings now b is_open cooling = ground arith

cached_first :
    (key text : Text) (entries : List (Text × Text))
    → cached key ((key, text) ∷ entries) ≡ some text
unfolding cached
cached_first key text entries = rw (text_eq_refl key)

if_none : (b : Bool) (o : Option Text) → o ≡ none → (if b then o else none) ≡ none
if_none true o h = h
if_none false o h = refl

failed_ne :
    {error t : Text} {s s' : LlmState}
    → ◌≡◌ {A = Option (CallResult × LlmState)} (some (call_failed error, s)) (some (answered t, s'))
    → ⊥
failed_ne h = cc

answered_inj :
    {t u : Text} {s s' : LlmState}
    → ◌≡◌ {A = Option (CallResult × LlmState)} (some (answered t, s)) (some (answered u, s'))
    → (t ≡ u) × (s ≡ s')
answered_inj h = (cc, cc)

module _ (sha256 : Text → Text) (digest : Text → ℕ) (settings : Settings) (c : LlmSettings)
    (q : LlmRequest) where
  -- The cache holds the answer of the request.
  abbrev Holds : Text → LlmState → Type 0
  Holds t s = cached (cache_key sha256 digest settings c q) s.cache ≡ some t

  on_answer-Holds :
      (later : ℕ) (s s' : LlmState) (answer : Attempt Text Text) (t : Text)
      → q.is_deterministic ≡ true
      → on_answer sha256 digest settings c q later s answer ≡ some (answered t, s')
      → Holds t s'
  unfolding on_answer
  on_answer-Holds later s s' (fails error) t d h =
      let (b, recorded, rest) =
        >>=-eq-some (record_failure settings later s.breaker)
          (λ b. some (call_failed error, record s { breaker = b })) h in
      absurd (failed_ne rest)
  on_answer-Holds later s s' (succeeds text) t d h =
      let (same, states) = answered_inj h in
      subst (λ z. cached (cache_key sha256 digest settings c q) z.cache ≡ some t) states
        (ap
            (λ b.
              cached (cache_key sha256 digest settings c q)
                (if b then (cache_key sha256 digest settings c q, text) ∷ s.cache else s.cache))
            d
          ∙ cached_first (cache_key sha256 digest settings c q) text s.cache
          ∙ ap some same)

  on_permission-Holds :
      (later : ℕ) (s s' : LlmState) (answer : Attempt Text Text) (t : Text) (p : Bool × Breaker)
      → q.is_deterministic ≡ true
      → on_permission sha256 digest settings c q later s answer p ≡ some (answered t, s')
      → Holds t s'
  unfolding on_permission
  on_permission-Holds later s s' answer t (false, b) d h = cc
  on_permission-Holds later s s' answer t (true, b) d h =
      on_answer-Holds later (record s { breaker = b }) s' answer t d h

  on_cached-Holds :
      (now later : ℕ) (s s' : LlmState) (answer : Attempt Text Text) (t : Text) (o : Option Text)
      → q.is_deterministic ≡ true
      → cached (cache_key sha256 digest settings c q) s.cache ≡ o
      → on_cached sha256 digest settings c q now later s answer o ≡ some (answered t, s')
      → Holds t s'
  unfolding on_cached
  on_cached-Holds now later s s' answer t (some text) d found h =
      let (same, states) = answered_inj h in
      subst (λ z. cached (cache_key sha256 digest settings c q) z.cache ≡ some t) states
        (found ∙ ap some same)
  on_cached-Holds now later s s' answer t none d found h =
      on_permission-Holds later s s' answer t (allow_request settings now s.breaker) d h

  -- The answer of a deterministic request is served from the cache from then on, without a change,
  -- whatever the breaker's state, the times and the provider are, as long as the cache is kept.
  pub call_llm-again :
      (now later now' later' : ℕ) (answer answer' : Attempt Text Text) (s s' s2 : LlmState)
      (t : Text)
      → q.is_deterministic ≡ true
      → call_llm sha256 digest settings c q now later answer s ≡ some (answered t, s')
      → s2.cache ≡ s'.cache
      → call_llm sha256 digest settings c q now' later' answer' s2 ≡ some (answered t, s2)
  unfolding call_llm on_cached
  call_llm-again now later now' later' answer answer' s s' s2 t d h same =
      let start : on_cached sha256 digest settings c q now later s answer
            (cached (cache_key sha256 digest settings c q) s.cache)
          ≡ some (answered t, s') =
        subst
          (λ b.
            on_cached sha256 digest settings c q now later s answer
              (if b then cached (cache_key sha256 digest settings c q) s.cache else none)
            ≡ some (answered t, s'))
          d h in
      let holds = on_cached-Holds now later s s' answer t _ d refl start in
      let hit : (if q.is_deterministic
            then cached (cache_key sha256 digest settings c q) s2.cache
            else none)
          ≡ some t =
        ap (λ b. if b then cached (cache_key sha256 digest settings c q) s2.cache else none) d
        ∙ ap (cached (cache_key sha256 digest settings c q)) same
        ∙ holds in
      ap (on_cached sha256 digest settings c q now' later' s2 answer') hit

  -- While the breaker is open and cools down, a request whose answer is not in the cache is refused,
  -- whatever the provider would answer, and nothing changes.
  pub call_llm-circuit_open :
      (now later : ℕ) (answer : Attempt Text Text) (s : LlmState)
      → s.breaker.state ≡ open_circuit
      → now < s.breaker.opened_at + settings.cooldown
      → cached (cache_key sha256 digest settings c q) s.cache ≡ none
      → call_llm sha256 digest settings c q now later answer s ≡ some (circuit_open, s)
  unfolding call_llm on_cached on_permission
  call_llm-circuit_open now later answer s is_open cooling missed =
      let miss : (if q.is_deterministic
            then cached (cache_key sha256 digest settings c q) s.cache
            else none)
          ≡ none =
        if_none q.is_deterministic (cached (cache_key sha256 digest settings c q) s.cache) missed in
      ap (on_cached sha256 digest settings c q now later s answer) miss
      ∙ ap (on_permission sha256 digest settings c q later s answer)
          (allow_request-refused settings now s.breaker is_open cooling)
