-- ===== src/Examples/Breaker.antt =====
-- Examples for src/core/circuit_breaker.py.
use githubprojectforissueide.Prelude.{
  ◌+◌, ◌≡◌, ◌<◌, ◌≤◌, refl, Bool, true, false, List, [], ◌∷◌, some, All, arith,
}
use githubprojectforissueide.Breaker.{
  Settings, Breaker, closed, open_circuit, half_open, default_settings, new_breaker, last_n,
  record_failure, allow_request, push, too_many_failures, record_success, open_at,
}
use githubprojectforissueide.Breaker.Runs.{
  Event, ask, succeed, fail, run, step, IsValid, run-IsValid,
}
use githubprojectforissueide.Breaker.Guarantees.{
  OpenSince, WithinCooldown, run_cooling_down, trial_outcomes,
}
use githubprojectforissueide.Breaker.History.{History, Represents, spec_run, run-refines}

abbrev settings : Settings
settings = record default_settings { window_size = 3; min_calls = 2 }

abbrev calls : List Event
calls = ask 1 ∷ fail 2 ∷ fail 3 ∷ ask 4 ∷ succeed ∷ ask 63 ∷ fail 64 ∷ []

-- The second failure opens the breaker; it answers again after the cooldown, and a failed trial
-- opens it anew.
opens :
    run settings calls new_breaker
    ≡ some (
      true ∷ false ∷ true ∷ [],
      record { state = open_circuit; window = []; opened_at = 64; opened_total = 2 },
    )
unfolding run step record_failure allow_request push too_many_failures record_success open_at
opens = refl

has_room : 0 < settings.window_size
has_room = omega arith

new-IsValid : IsValid settings new_breaker
new-IsValid = record { bounded = omega arith }

run-IsValid_example :
    (answers : List Bool) × (b' : Breaker) × (run settings calls new_breaker ≡ some (answers, b'))
    × IsValid settings b'
run-IsValid_example = run-IsValid settings calls new_breaker has_room new-IsValid

abbrev opened : Breaker
opened = record { state = open_circuit; window = []; opened_at = 10; opened_total = 1 }

abbrev cooling : List Event
cooling = ask 11 ∷ fail 12 ∷ succeed ∷ ask 69 ∷ []

opened-OpenSince : OpenSince 10 opened
opened-OpenSince = record { is_open = refl; since = omega arith }

cooling-WithinCooldown : All (WithinCooldown settings 10) cooling
cooling-WithinCooldown = (omega arith, (omega arith, (tt, (omega arith, tt))))

run_cooling_down_example :
    (answers : List Bool) × (b' : Breaker) × (run settings cooling opened ≡ some (answers, b'))
    × All (λ a. a ≡ false) answers
    × OpenSince 10 b'
run_cooling_down_example =
    run_cooling_down settings 10 cooling opened has_room opened-OpenSince cooling-WithinCooldown

cooled : 10 + settings.cooldown ≤ 70
cooled = omega arith

trial_outcomes_example :
    let trial = record opened { state = half_open } in
    (run settings (ask 70 ∷ []) opened ≡ some (true ∷ [], trial))
    × (run settings (ask 70 ∷ succeed ∷ []) opened
        ≡ some (true ∷ [], record opened { state = closed; window = [] }))
    × (run settings (ask 70 ∷ fail 75 ∷ []) opened
        ≡ some (
          true ∷ [],
          record { state = open_circuit; window = []; opened_at = 75; opened_total = 2 },
        ))
trial_outcomes_example = trial_outcomes settings 70 75 opened has_room refl cooled

abbrev new_history : History
new_history = record { state = closed; log = []; opened_at = 0; opened_total = 0 }

new-Represents : Represents settings new_breaker new_history
unfolding last_n
new-Represents = record { state = refl; window = refl; opened_at = refl; opened_total = refl }

run-refines_example :
    (b' : Breaker) × (run settings calls new_breaker
      ≡ some ((spec_run settings calls new_history).0, b'))
    × Represents settings b' (spec_run settings calls new_history).1
run-refines_example = run-refines settings calls new_breaker new_history has_room new-Represents
