-- ===== src/Breaker/Guarantees.antt =====
-- What an open breaker and one on trial promise, over sequences of calls.
use githubprojectforissueide.Prelude.{
  ℕ, ◌+◌, ◌≤◌, ◌<◌, ◌≡◌, refl, Bool, true, false, List, [], ◌∷◌, ◌++◌, some, All, arith,
}
use githubprojectforissueide.Breaker.{
  Settings, Breaker, closed, open_circuit, half_open, allow_request, record_success, open_at,
}
use githubprojectforissueide.Breaker.Runs.{
  Event, ask, succeed, fail, clear, run, step, after, answers_of, step_lem, record_failure_lem,
}

-- The calls that are made before `t + cooldown`: requests, and failures at `t` or later.
abbrev pub WithinCooldown : Settings → ℕ → Event → Type 0
WithinCooldown s t (ask now) = now < t + s.cooldown
WithinCooldown s t succeed = Unit
WithinCooldown s t (fail now) = t ≤ now
WithinCooldown s t clear = ⊥

pub record OpenSince (t : ℕ) (b : Breaker) : Type 0 where
  pub is_open : b.state ≡ open_circuit
  pub since : t ≤ b.opened_at

after-OpenSince :
    (s : Settings) (t : ℕ) (e : Event) (b : Breaker)
    → WithinCooldown s t e
    → OpenSince t b
    → OpenSince t (after s e b) × All (λ a. a ≡ false) (answers_of s e b)
unfolding after answers_of allow_request record_success open_at
after-OpenSince s t (ask now) b w o = (ground arith, ground arith)
after-OpenSince s t succeed b w o = (ground arith, tt)
after-OpenSince s t (fail now) b w o = (ground arith, tt)
after-OpenSince s t clear b w o = elim w [ ]

All-append {ℓ κ} :
    {A : Type ℓ} (P : A → Type κ) (xs ys : List A) → All P xs → All P ys → All P (xs ++ ys)
All-append P [] ys h k = k
All-append P (x ∷ xs) ys h k = (h.0, All-append P xs ys h.1 k)

-- While a breaker that opened at `t` cools down, every request is refused and the breaker stays
-- open, whatever successes and failures of earlier calls are still recorded, as long as nobody
-- resets it. A failure recorded meanwhile can only make the cooldown start anew.
pub run_cooling_down :
    (s : Settings) (t : ℕ) (events : List Event) (b : Breaker)
    → 0 < s.window_size
    → OpenSince t b
    → All (WithinCooldown s t) events
    → (answers : List Bool) × (b' : Breaker) × (run s events b ≡ some (answers, b'))
      × All (λ a. a ≡ false) answers
      × OpenSince t b'
unfolding run
run_cooling_down s t [] b h o w = ([], b, refl, tt, o)
run_cooling_down s t (e ∷ events) b h o w =
    let (still, refused) = after-OpenSince s t e b w.0 o in
    let (more, b', returned, refused', open') =
      run_cooling_down s t events (after s e b) h still w.1 in
    (
      answers_of s e b ++ more,
      b',
      rw (step_lem s e b h, returned),
      All-append (λ a. a ≡ false) (answers_of s e b) more refused refused',
      open',
    )

-- Once the cooldown is over, the next request of an open breaker is granted, as a trial. If the
-- trial succeeds, the breaker is closed with an empty window; if it fails, the breaker is open from
-- that moment, with an empty window, and the metric counts one more opening.
pub trial_outcomes :
    (s : Settings) (now later : ℕ) (b : Breaker)
    → 0 < s.window_size
    → b.state ≡ open_circuit
    → b.opened_at + s.cooldown ≤ now
    → let trial = record b { state = half_open } in
      (run s (ask now ∷ []) b ≡ some (true ∷ [], trial))
      × (run s (ask now ∷ succeed ∷ []) b
          ≡ some (true ∷ [], record b { state = closed; window = [] }))
      × (run s (ask now ∷ fail later ∷ []) b
          ≡ some (
            true ∷ [],
            record {
              state = open_circuit;
              window = [];
              opened_at = later;
              opened_total = b.opened_total + 1;
            },
          ))
unfolding run step allow_request record_success open_at
trial_outcomes s now later b h o c = (
  ground arith,
  ground arith,
  ground (arith, record_failure_lem s later (record b { state = half_open }) h),
)
