-- ===== src/Analyzers/Members.antt =====
-- The members of lists that a test of each element makes.
use githubprojectforissueide.Text.{Text}
use githubprojectforissueide.Syntax.{line_at}
use githubprojectforissueide.Prelude.{
  ℕ, zero, suc, ◌<◌, ◌≤◌, length, arith, ◌≡◌, ◌↔◌, inl, inr, refl, sym, ap, subst, List, [], ◌∷◌,
  Option, none, some, map, Option-cases, ◌∙◌,
}
use githubprojectforissueide.Analyzers.Shapes.{filter_map}
use githubprojectforissueide.Analyzers.Paths.{In, Distinct}
use githubprojectforissueide.Analyzers.Once.{by_side, lines_of, once-lines, once-Distinct}
use githubprojectforissueide.Analyzers.Reports.{once}
use githubprojectforissueide.Models.{Finding}

filter_map-none :
    {A B : Type 0} (g : A → Option B) (a : A) (xs : List A)
    → g a ≡ none
    → filter_map g (a ∷ xs) ≡ filter_map g xs
unfolding filter_map
filter_map-none g a xs e = rw (filter_map, e) refl

filter_map-some :
    {A B : Type 0} (g : A → Option B) (a : A) (xs : List A) {b : B}
    → g a ≡ some b
    → filter_map g (a ∷ xs) ≡ b ∷ filter_map g xs
unfolding filter_map
filter_map-some g a xs e = rw (filter_map, e) refl

-- An element of which the test makes `b`.
abbrev pub Made : {A B : Type 0} → (A → Option B) → List A → B → Type 0
Made {A} g xs b = (a : A) × In a xs × (g a ≡ some b)

Made-later :
    {A B : Type 0} (g : A → Option B) (a : A) (xs : List A) (b : B)
    → Made g xs b
    → Made g (a ∷ xs) b
Made-later g a xs b (c, m, e) = (c, inr m, e)

filter_map_from :
    {A B : Type 0} (g : A → Option B) (xs : List A) (b : B) → In b (filter_map g xs) → Made g xs b
unfolding filter_map
filter_map_from g [] b m = absurd m
filter_map_from g (a ∷ xs) b m = elim (Option-cases (g a)) [
  | inl e ↦ Made-later g a xs b (filter_map_from g xs b (subst (In b) (filter_map-none g a xs e) m))
  | inr (c, e) ↦
      by_side (λ p. (a, inl refl, e ∙ ap some (sym p)))
        (λ n. Made-later g a xs b (filter_map_from g xs b n))
        (subst (In b) (filter_map-some g a xs e) m)
]

pub filter_map_of :
    {A B : Type 0} (g : A → Option B) (xs : List A) (b : B) (a : A)
    → In a xs
    → g a ≡ some b
    → In b (filter_map g xs)
filter_map_of g [] b a m e = absurd m
filter_map_of g (x ∷ xs) b a (inl p) e =
    subst (In b) (sym (filter_map-some g x xs (ap g (sym p) ∙ e))) (inl refl)
filter_map_of g (x ∷ xs) b a (inr m) e =
    let later = filter_map_of g xs b a m e in
    elim (Option-cases (g x)) [
      | inl q ↦ subst (In b) (sym (filter_map-none g x xs q)) later
      | inr (c, q) ↦ subst (In b) (sym (filter_map-some g x xs q)) (inr later)
    ]

-- The members are what the test makes of some element.
pub filter_map_iff :
    {A B : Type 0} (g : A → Option B) (xs : List A) (b : B) → In b (filter_map g xs) ↔ Made g xs b
filter_map_iff g xs b = (filter_map_from g xs b, λ (a, m, e). filter_map_of g xs b a m e)

pub In-map_from :
    {A B : Type 0} (h : A → B) (xs : List A) (b : B)
    → In b (map h xs)
    → (a : A) × In a xs × (h a ≡ b)
In-map_from h [] b m = absurd m
In-map_from h (x ∷ xs) b (inl e) = (x, inl refl, sym e)
In-map_from h (x ∷ xs) b (inr m) = let (a, n, e) = In-map_from h xs b m in (a, inr n, e)

pub In-map_of : {A B : Type 0} (h : A → B) (xs : List A) (a : A) → In a xs → In (h a) (map h xs)
In-map_of h [] a m = absurd m
In-map_of h (x ∷ xs) a (inl e) = inl (ap h e)
In-map_of h (x ∷ xs) a (inr m) = inr (In-map_of h xs a m)

-- The lines of a file are numbered from 1 on.
pub line_at_lt :
    (lines : List Text) (k : ℕ) {line : Text}
    → line_at lines k ≡ some line
    → (0 < k) × (k ≤ length lines)
unfolding line_at
line_at_lt lines zero e = cc
line_at_lt [] (suc k) e = cc
line_at_lt (l ∷ lines) (suc zero) e = omega arith
line_at_lt (l ∷ lines) (suc (suc k)) e = omega (arith, line_at_lt lines (suc k) e)

line_at-some :
    (lines : List Text) (k : ℕ)
    → 0 < k
    → k ≤ length lines
    → (line : Text) × (line_at lines k ≡ some line)
unfolding line_at
line_at-some lines zero p q = absurd (omega arith)
line_at-some [] (suc k) p q = absurd (omega arith)
line_at-some (l ∷ lines) (suc zero) p q = (l, refl)
line_at-some (l ∷ lines) (suc (suc k)) p q = line_at-some lines (suc k) (omega arith) (omega arith)

-- A line of the file.
abbrev pub IsLine : List Text → ℕ → Type 0
IsLine lines k = (0 < k) × (k ≤ length lines)

pub IsLine-iff :
    (lines : List Text) (k : ℕ) → ((line : Text) × (line_at lines k ≡ some line)) ↔ IsLine lines k
IsLine-iff lines k = (λ (line, e). line_at_lt lines k e, λ (p, q). line_at-some lines k p q)

-- A search that makes at most one finding at each line, where `Spec k a` says that `a` has one at line `k`.
pub once_filter_map_lines :
    {A : Type 0} (Spec : ℕ → A → Type 0) (g : A → Option Finding) (xs : List A)
    → ((a : A) (f : Finding) → g a ≡ some f → Spec f.line a)
    → ((a : A) (k : ℕ) → Spec k a → (f : Finding) × (g a ≡ some f) × (f.line ≡ k))
    → Distinct (lines_of (once [] (filter_map g xs)))
      × ((k : ℕ) → In k (lines_of (once [] (filter_map g xs))) ↔ ((a : A) × In a xs × Spec k a))
once_filter_map_lines Spec g xs from of =
    let made = filter_map g xs in
    (
      once-Distinct made,
      λ k. (
        λ m.
            let (f, there, at) =
              In-map_from (λ (f : Finding). f.line) made k ((once-lines made k).0 m) in
            let (a, inside, e) = (filter_map_iff g xs f).0 there in
            (a, inside, subst (λ j. Spec j a) at (from a f e)),
        λ (a, inside, spec).
            let (f, e, at) = of a k spec in
            (once-lines made k).1 (
              subst (λ j. In j (lines_of made)) at
                (In-map_of (λ (f : Finding). f.line) made f
                  ((filter_map_iff g xs f).1 (a, inside, e)))),
      ),
    )

pub some-ne-none {ℓ} : {A : Type ℓ} {a : A} → some a ≡ none → ⊥
some-ne-none h = cc

line_or_zero : Option Finding → ℕ
line_or_zero none = 0
line_or_zero (some f) = f.line

-- Equal findings are at equal lines.
pub line_of_some : {g f : Finding} → some g ≡ some f → g.line ≡ f.line
unfolding line_or_zero
line_of_some e = ap line_or_zero e
