-- ===== src/Review/Trust.antt =====
-- What the trust layer of src/core/grounding.py promises of findings that pass it.
use githubprojectforissueide.Prelude.{
  ℕ, zero, suc, ◌+◌, ◌-◌, ◌≤◌, ◌<◌, ◌≡◌, ◌↔◌, refl, sym, ap, subst, ◌∙◌, Bool, true, false, List,
  [], ◌∷◌, some, any, length, take, drop, min, ltb, get_elem?, arith, Bool-cases, ◌⊎◌, inl, inr,
  if◌then◌else◌,
}
use githubprojectforissueide.Text.{Text, splitlines, contains, is_empty}
use githubprojectforissueide.Text.Words.{normalized}
use githubprojectforissueide.Models.{Finding}
use githubprojectforissueide.Syntax.{line_at, slice}
use githubprojectforissueide.Review.Grounding.{is_grounded}

some_inj : {x y : Text} → some x ≡ some y → x ≡ y
some_inj h = cc

-- An element at a place from `a` on and below `b` that passes a test.
abbrev Found : (Text → Bool) → ℕ → ℕ → List Text → Type 0
Found p a b xs = (i : ℕ) × (x : Text) × (a ≤ i) × (i < b) × (get_elem? xs i ≡ some x) × (p x ≡ true)

any-take_to : (p : Text → Bool) (m : ℕ) (xs : List Text) → any p (take m xs) ≡ true → Found p 0 m xs
unfolding any
any-take_to p zero xs h = cc
any-take_to p (suc m) [] h = cc
any-take_to p (suc m) (x ∷ xs) h = elim (Bool-cases (p x)) [
  | inl passes ↦ (0, x, omega arith, omega arith, refl, passes)
  | inr fails ↦
      let (i, y, from, below, at, passes) = any-take_to p m xs (rw fails at h) in
      (suc i, y, omega arith, omega arith, at, passes)
]

any-take_of :
    (p : Text → Bool) (m : ℕ) (xs : List Text) (i : ℕ) {x : Text}
    → i < m
    → get_elem? xs i ≡ some x
    → p x ≡ true
    → any p (take m xs) ≡ true
unfolding any
any-take_of p zero xs i below at passes = absurd (omega arith)
any-take_of p (suc m) [] i below at passes = cc
any-take_of p (suc m) (x ∷ xs) zero below at passes =
    let passes' : p x ≡ true = subst (λ y. p y ≡ true) (sym (some_inj at)) passes in ground arith
any-take_of p (suc m) (x ∷ xs) (suc i) below at passes =
    let later = any-take_of p m xs i (omega arith) at passes in ground arith

suc_add : (a i : ℕ) → suc (a + i) ≡ suc a + i
suc_add a i = omega arith

get_elem?-drop : (a : ℕ) (xs : List Text) (i : ℕ) → get_elem? (drop a xs) i ≡ get_elem? xs (a + i)
get_elem?-drop zero xs i = ap (get_elem? xs) (omega arith)
get_elem?-drop (suc a) [] i = refl
get_elem?-drop (suc a) (x ∷ xs) i = get_elem?-drop a xs i ∙ ap (get_elem? (x ∷ xs)) (suc_add a i)

any-slice_to :
    (p : Text → Bool) (a b : ℕ) (xs : List Text) → any p (slice a b xs) ≡ true → Found p a b xs
any-slice_to p a b xs h =
    let (i, x, from, below, at, passes) = any-take_to p (b - a) (drop a xs) h in
    (a + i, x, omega arith, omega arith, sym (get_elem?-drop a xs i) ∙ at, passes)

any-slice_of :
    (p : Text → Bool) (a b : ℕ) (xs : List Text) → Found p a b xs → any p (slice a b xs) ≡ true
any-slice_of p a b xs (i, x, from, below, at, passes) =
    let there : a + (i - a) ≡ i = omega arith in
    any-take_of p (b - a) (drop a xs) (i - a) (omega arith)
      (get_elem?-drop a xs (i - a) ∙ ap (get_elem? xs) there ∙ at) passes

-- A line at most two away from line `n` that contains a text, white space normalized.
abbrev Nearby : Text → List Text → ℕ → Type 0
Nearby target lines n =
    (k : ℕ) × (line : Text) × (line_at lines k ≡ some line)
    × (k ≤ n + 2)
    × (n ≤ k + 2)
    × (contains target (normalized line) ≡ true)

get_elem?_bound : (xs : List Text) (i : ℕ) {x : Text} → get_elem? xs i ≡ some x → i < length xs
get_elem?_bound [] i h = cc
get_elem?_bound (x ∷ xs) zero h = omega arith
get_elem?_bound (x ∷ xs) (suc i) h = omega (arith, get_elem?_bound xs i h)

Found→Nearby :
    (target : Text) (lines : List Text) (n : ℕ)
    → Found
        (λ l. contains target (normalized l))
        (n - 1 - 2)
        (min (length lines) (n - 1 + 2 + 1))
        lines
    → 0 < n
    → Nearby target lines n
unfolding line_at
Found→Nearby target lines n (i, x, from, below, at, passes) pos =
    (suc i, x, at, omega arith, omega arith, passes)

Nearby→Found :
    (target : Text) (lines : List Text) (n : ℕ)
    → 0 < n
    → Nearby target lines n
    → Found
        (λ l. contains target (normalized l))
        (n - 1 - 2)
        (min (length lines) (n - 1 + 2 + 1))
        lines
unfolding line_at
Nearby→Found target lines n pos (zero, x, at, below, from, passes) = cc
Nearby→Found target lines n pos (suc i, x, at, below, from, passes) =
    let inside = get_elem?_bound lines i at in (i, x, omega arith, omega arith, at, passes)

claims : {c n : ℕ} {t : Text} {P : Type 0} → ((c ∷ t) ≡ []) ⊎ ((0 < n) × P) → P
claims (inl h) = cc
claims (inr h) = h.1

grounded_law :
    (target : Text) (lines : List Text) (n : ℕ)
    → ((if is_empty target
          then true
          else if ltb n 1
          then false
          else any
              (λ candidate. contains target (normalized candidate))
              (slice (n - 1 - 2) (min (length lines) (n - 1 + 2 + 1)) lines))
        ≡ true)
      ↔ ((target ≡ []) ⊎ ((0 < n) × Nearby target lines n))
unfolding is_empty
grounded_law [] lines n = (λ h. inl refl, λ h. refl)
grounded_law (c ∷ t) lines n = elim (Bool-cases (ltb n 1)) [
  | inl outside ↦ (λ h. cc, λ h. ground arith)
  | inr inside ↦
      let pos : 0 < n = ground arith in
      (
        λ h.
            inr (pos, Found→Nearby (c ∷ t) lines n (any-slice_to _ _ _ lines (rw inside at h)) pos),
        λ h. rw inside (any-slice_of _ _ _ lines (Nearby→Found (c ∷ t) lines n pos (claims h))),
      )
]

-- A finding is grounded exactly if it claims no code, or is at a line from 1 on and some line of the
-- file at most two away from there contains the code that it claims, white space normalized.
pub is_grounded_iff :
    (f : Finding) (source_text : Text)
    → (is_grounded f source_text ≡ true) ↔ (
        (normalized f.bad_code ≡ [])
        ⊎ ((0 < f.line)
            × ((k : ℕ) × (line : Text) × (line_at (splitlines source_text) k ≡ some line)
                × (k ≤ f.line + 2)
                × (f.line ≤ k + 2)
                × (contains (normalized f.bad_code) (normalized line) ≡ true))))
unfolding is_grounded
is_grounded_iff f source_text = grounded_law (normalized f.bad_code) (splitlines source_text) f.line
