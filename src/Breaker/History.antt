-- ===== src/Breaker/History.antt =====
-- A breaker that remembers every outcome since it last opened or closed, beside the one of
-- src/core/circuit_breaker.py.
use githubprojectforissueide.Prelude.{
  ℕ, suc, ◌+◌, ◌-◌, ◌≤◌, ◌<◌, ◌≡◌, refl, sym, ap, ◌∙◌, Bool, true, false, not, ◌&&◌, ◌||◌, List, [],
  ◌∷◌, ◌++◌, some, arith, length, length-append, leb, ltb, Bool-cases, inl, inr, if◌then◌else◌,
}
use githubprojectforissueide.Breaker.{
  Settings, Breaker, CircuitState, closed, open_circuit, half_open, is_open, is_half_open, last_n,
  push, allow_request, record_success, reset, open_at,
}
use githubprojectforissueide.Breaker.Runs.{
  Event, ask, succeed, fail, clear, run, after, answers_of, at_threshold, step_lem,
}

pub record History : Type 0 where
  pub state : CircuitState
  pub log : List Bool
  pub opened_at : ℕ
  pub opened_total : ℕ

abbrev trip : ℕ → History → History
trip now h = record {
  state = open_circuit;
  log = [];
  opened_at = now;
  opened_total = h.opened_total + 1;
}

-- A failure opens it on trial, or if there are enough outcomes among the last `window_size` and
-- enough of them are failures.
pub spec : Settings → Event → History → History
spec s (ask now) h =
    if is_open h.state && leb (h.opened_at + s.cooldown) now
    then record h { state = half_open }
    else h
spec s succeed h =
    if is_half_open h.state
    then record h { state = closed; log = [] }
    else record h { log = h.log ++ true ∷ [] }
spec s (fail now) h =
    let recent = last_n s.window_size (h.log ++ false ∷ []) in
    if is_half_open h.state || (leb s.min_calls (length recent) && at_threshold s recent)
    then trip now h
    else record h { log = h.log ++ false ∷ [] }
spec s clear h = record h { state = closed; log = []; opened_at = 0 }

-- A request is granted unless the breaker is open and cools down.
pub spec_answers : Settings → Event → History → List Bool
spec_answers s (ask now) h = (not (is_open h.state) || leb (h.opened_at + s.cooldown) now) ∷ []
spec_answers s _ h = []

pub spec_run : Settings → List Event → History → List Bool × History
spec_run s [] h = ([], h)
spec_run s (e ∷ events) h =
    let (more, h') = spec_run s events (spec s e h) in (spec_answers s e h ++ more, h')

-- The window holds the last outcomes of the log.
pub record Represents (s : Settings) (b : Breaker) (h : History) : Type 0 where
  pub state : b.state ≡ h.state
  pub window : b.window ≡ last_n s.window_size h.log
  pub opened_at : b.opened_at ≡ h.opened_at
  pub opened_total : b.opened_total ≡ h.opened_total

last_n_short {ℓ} : {A : Type ℓ} (n : ℕ) (xs : List A) → length xs ≤ n → last_n n xs ≡ xs
unfolding last_n
last_n_short n xs h = let e : length xs - n ≡ 0 = omega arith in rw e

last_n_long {ℓ} :
    {A : Type ℓ} (n : ℕ) (x : A) (xs : List A) → n ≤ length xs → last_n n (x ∷ xs) ≡ last_n n xs
unfolding last_n
last_n_long n x xs h = let e : suc (length xs) - n ≡ suc (length xs - n) = omega arith in rw e

-- To drop old entries before or after one more is written is the same.
last_n-append {ℓ} :
    {A : Type ℓ} (n : ℕ) (xs : List A) (y : A)
    → last_n n (last_n n xs ++ y ∷ []) ≡ last_n n (xs ++ y ∷ [])
last_n-append n [] y = ap (λ l. last_n n (l ++ y ∷ [])) (last_n_short n [] (omega arith))
last_n-append n (x ∷ xs) y = elim (Bool-cases (ltb (length xs) n)) [
  | inl short ↦ ap (λ l. last_n n (l ++ y ∷ [])) (last_n_short n (x ∷ xs) (ground arith))
  | inr long ↦
      ap (λ l. last_n n (l ++ y ∷ [])) (last_n_long n x xs (ground arith))
      ∙ (last_n-append n xs y
          ∙ sym (last_n_long n x (xs ++ y ∷ []) (ground (arith, length-append xs (y ∷ [])))))
]

last_n-nil {ℓ} : {A : Type ℓ} (n : ℕ) → last_n {A = A} n [] ≡ []
last_n-nil n = last_n_short n [] (omega arith)

push-last_n :
    (s : Settings) (b : Breaker) (h : History) (x : Bool)
    → Represents s b h
    → push s.window_size b.window x ≡ last_n s.window_size (h.log ++ x ∷ [])
unfolding push
push-last_n s b h x r = rw (r.window, last_n-append) refl

answers-spec :
    (s : Settings) (e : Event) (b : Breaker) (h : History)
    → Represents s b h
    → answers_of s e b ≡ spec_answers s e h
unfolding answers_of allow_request spec_answers
answers-spec s (ask now) b h r = ground arith
answers-spec s succeed b h r = refl
answers-spec s (fail now) b h r = refl
answers-spec s clear b h r = refl

after-Represents :
    (s : Settings) (e : Event) (b : Breaker) (h : History)
    → Represents s b h
    → Represents s (after s e b) (spec s e h)
unfolding after allow_request record_success reset open_at spec
after-Represents s (ask now) b h r = ground arith
after-Represents s succeed b h r =
    ground (arith, push-last_n s b h true r, last_n-nil {A = Bool} s.window_size)
after-Represents s (fail now) b h r =
    ground (arith, push-last_n s b h false r, last_n-nil {A = Bool} s.window_size)
after-Represents s clear b h r = ground (arith, last_n-nil {A = Bool} s.window_size)

-- Over any sequence of calls the breaker, with its bounded window, answers as the one that remembers
-- every outcome does, and ends in a state that holds the last of those outcomes.
pub run-refines :
    (s : Settings) (events : List Event) (b : Breaker) (h : History)
    → 0 < s.window_size
    → Represents s b h
    → (b' : Breaker) × (run s events b ≡ some ((spec_run s events h).0, b'))
      × Represents s b' (spec_run s events h).1
unfolding run spec_run
run-refines s [] b h w r = (b, refl, r)
run-refines s (e ∷ events) b h w r =
    let (b', returned, r') =
      run-refines s events (after s e b) (spec s e h) w (after-Represents s e b h r) in
    (b', rw (step_lem s e b w, returned, answers-spec s e b h r) refl, r')
