-- ===== src/Breaker.antt =====
-- src/core/circuit_breaker.py: the breaker that stops calls of a failing model.
pub mod Runs
pub mod Guarantees
pub mod History
use githubprojectforissueide.Prelude.{
  ℕ, suc, ◌+◌, ◌-◌, ◌*◌, Bool, true, false, not, List, [], ◌∷◌, ◌++◌, Option, none, some, drop,
  length, count, ltb, leb, if◌then◌else◌,
}

pub data CircuitState : Type 0 where
  closed open_circuit half_open : CircuitState

-- What the constructor fixes. The failure threshold, a float, is the fraction
-- `threshold_num / threshold_den`; times are whole numbers of some unit of the clock.
pub record Settings : Type 0 where
  pub window_size : ℕ
  pub min_calls : ℕ
  pub threshold_num : ℕ
  pub threshold_den : ℕ
  pub cooldown : ℕ

-- The module's defaults, in seconds.
abbrev pub default_settings : Settings
default_settings = record {
  window_size = 10;
  min_calls = 5;
  threshold_num = 1;
  threshold_den = 2;
  cooldown = 60;
}

-- The breaker, and the metric `circuit_breaker_opened_total` that it counts up.
pub record Breaker : Type 0 where
  pub state : CircuitState
  pub window : List Bool
  pub opened_at : ℕ
  pub opened_total : ℕ

abbrev pub new_breaker : Breaker
new_breaker = record { state = closed; window = []; opened_at = 0; opened_total = 0 }

-- The last `n` entries.
unfoldable pub last_n {ℓ} : {A : Type ℓ} → ℕ → List A → List A
last_n n xs = drop (length xs - n) xs

-- `deque(maxlen=n).append(x)`: the oldest entries fall out.
unfoldable pub push : ℕ → List Bool → Bool → List Bool
unfolding last_n
push n window x = last_n n (window ++ x ∷ [])

-- `self._window.count(False)`
unfoldable pub failures : List Bool → ℕ
unfolding count
failures window = count not window

-- `_open`, at the time that the clock shows
unfoldable pub open_at : ℕ → Breaker → Breaker
open_at now b = record b {
  state = open_circuit;
  opened_at = now;
  window = [];
  opened_total = b.opened_total + 1;
}

abbrev pub is_open : CircuitState → Bool
is_open open_circuit = true
is_open _ = false

abbrev pub is_half_open : CircuitState → Bool
is_half_open half_open = true
is_half_open _ = false

-- `allow_request`, with the new state of the breaker
unfoldable pub allow_request : Settings → ℕ → Breaker → Bool × Breaker
allow_request s now b =
    if not (is_open b.state)
    then (true, b)
    else if leb (b.opened_at + s.cooldown) now
    then (true, record b { state = half_open })
    else (false, b)

unfoldable pub record_success : Settings → Breaker → Breaker
record_success s b =
    let appended = record b { window = push s.window_size b.window true } in
    if is_half_open b.state then record appended { state = closed; window = [] } else appended

-- `count(False) / len(window) >= threshold`; `none` is the division by zero of an empty window.
unfoldable pub too_many_failures : Settings → List Bool → Option Bool
unfolding failures
too_many_failures s [] = none
too_many_failures s (x ∷ window) =
    some (leb (s.threshold_num * length (x ∷ window)) (failures (x ∷ window) * s.threshold_den))

-- `none` is a ZeroDivisionError, which leaves the method.
unfoldable pub record_failure : Settings → ℕ → Breaker → Option Breaker
record_failure s now b =
    let appended = record b { window = push s.window_size b.window false } in
    if is_half_open b.state
    then some (open_at now appended)
    else if leb s.min_calls (length appended.window)
    then elim (too_many_failures s appended.window) [
      | none ↦ none
      | some true ↦ some (open_at now appended)
      | some false ↦ some appended
    ]
    else some appended

-- `reset`
unfoldable pub reset : Breaker → Breaker
reset b = record b { window = []; state = closed; opened_at = 0 }
