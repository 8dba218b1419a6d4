-- ===== src/Breaker/Runs.antt =====
-- Sequences of calls of one breaker, and what holds after any of them.
use githubprojectforissueide.Prelude.{
  ℕ, ◌-◌, ◌≤◌, ◌<◌, ◌≡◌, refl, Bool, true, false, ◌&&◌, ◌||◌, ◌>>=◌, ◌*◌, List, [], ◌∷◌, ◌++◌,
  Option, some, length, length-append, length-drop, arith, leb, if◌then◌else◌,
}
use githubprojectforissueide.Breaker.{
  Settings, Breaker, failures, last_n, push, too_many_failures, allow_request, record_success,
  record_failure, reset, open_at, is_half_open,
}

-- One call of a method, with what the clock shows.
pub data Event : Type 0 where
  ask : ℕ → Event
  succeed : Event
  fail : ℕ → Event
  clear : Event

-- The new breaker, behind the answer of `allow_request`, if it was called.
unfoldable pub step : Settings → Event → Breaker → Option (List Bool × Breaker)
step s (ask now) b = let (answer, b') = allow_request s now b in some (answer ∷ [], b')
step s succeed b = some ([], record_success s b)
step s (fail now) b = do b' ← record_failure s now b; some ([], b')
step s clear b = some ([], reset b)

unfoldable pub run : Settings → List Event → Breaker → Option (List Bool × Breaker)
run s [] b = some ([], b)
run s (e ∷ events) b = do
  (answers, b') ← step s e b
  (more, b'') ← run s events b'
  some (answers ++ more, b'')

-- The window never outgrows its size.
pub record IsValid (s : Settings) (b : Breaker) : Type 0 where
  pub bounded : length b.window ≤ s.window_size

length-last_n-le {ℓ} : {A : Type ℓ} (n : ℕ) (xs : List A) → length (last_n n xs) ≤ n
unfolding last_n
length-last_n-le n xs = omega (arith, length-drop (length xs - n) xs)

length-push-le : (n : ℕ) (w : List Bool) (x : Bool) → length (push n w x) ≤ n
unfolding push
length-push-le n w x = length-last_n-le n (w ++ x ∷ [])

-- Where the window has room for one entry it is not empty after a push.
push-pos : (n : ℕ) (w : List Bool) (x : Bool) → 0 < n → 0 < length (push n w x)
unfolding push last_n
push-pos n w x h =
    omega (arith, length-append w (x ∷ []), length-drop (length (w ++ x ∷ []) - n) (w ++ x ∷ []))

-- The failure rate has reached the threshold.
abbrev pub at_threshold : Settings → List Bool → Bool
at_threshold s w = leb (s.threshold_num * length w) (failures w * s.threshold_den)

-- A failure opens the breaker: on trial, or with enough calls and failures in the window.
abbrev pub trips : Settings → Breaker → Bool
trips s b =
    is_half_open b.state
    || (leb s.min_calls (length (push s.window_size b.window false))
        && at_threshold s (push s.window_size b.window false))

too_many_failures_lem :
    (s : Settings) (w : List Bool) → 0 < length w → too_many_failures s w ≡ some (at_threshold s w)
unfolding too_many_failures
too_many_failures_lem s [] h = absurd (omega arith)
too_many_failures_lem s (x ∷ w) h = refl

abbrev pub after_failure : Settings → ℕ → Breaker → Breaker
after_failure s now b =
    if trips s b then open_at now b else record b { window = push s.window_size b.window false }

-- With a window of some size no division by zero happens.
pub record_failure_lem :
    (s : Settings) (now : ℕ) (b : Breaker)
    → 0 < s.window_size
    → record_failure s now b ≡ some (after_failure s now b)
unfolding record_failure open_at
record_failure_lem s now b h = ground (
  arith,
  too_many_failures_lem s (push s.window_size b.window false),
  push-pos s.window_size b.window false,
)

-- The breaker after a call, for a window of some size.
unfoldable pub after : Settings → Event → Breaker → Breaker
after s (ask now) b = (allow_request s now b).1
after s succeed b = record_success s b
after s (fail now) b = after_failure s now b
after s clear b = reset b

-- What `allow_request` answers.
unfoldable pub answers_of : Settings → Event → Breaker → List Bool
answers_of s (ask now) b = (allow_request s now b).0 ∷ []
answers_of s _ b = []

pub step_lem :
    (s : Settings) (e : Event) (b : Breaker)
    → 0 < s.window_size
    → step s e b ≡ some (answers_of s e b, after s e b)
unfolding step after answers_of
step_lem s (ask now) b h = refl
step_lem s succeed b h = refl
step_lem s (fail now) b h = rw (record_failure_lem s now b h)
step_lem s clear b h = refl

after-IsValid : (s : Settings) (e : Event) (b : Breaker) → IsValid s b → IsValid s (after s e b)
unfolding after allow_request record_success reset open_at
after-IsValid s (ask now) b v = ground arith
after-IsValid s succeed b v = ground (arith, length-push-le s.window_size b.window true)
after-IsValid s (fail now) b v = ground (arith, length-push-le s.window_size b.window false)
after-IsValid s clear b v = ground arith

-- From a breaker whose window is within its size, with room for one entry at least, any sequence
-- of calls returns: no failure divides by zero, and the window stays within its size.
pub run-IsValid :
    (s : Settings) (events : List Event) (b : Breaker)
    → 0 < s.window_size
    → IsValid s b
    → (answers : List Bool) × (b' : Breaker) × (run s events b ≡ some (answers, b')) × IsValid s b'
unfolding run
run-IsValid s [] b h v = ([], b, refl, v)
run-IsValid s (e ∷ events) b h v =
    let (more, b', returned, valid) =
      run-IsValid s events (after s e b) h (after-IsValid s e b v) in
    (answers_of s e b ++ more, b', rw (step_lem s e b h, returned), valid)
