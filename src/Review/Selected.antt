-- ===== src/Review/Selected.antt =====
-- Findings that are selected because they are trusted.
use githubprojectforissueide.Prelude.{
  ◌≡◌, refl, ap, ◌∙◌, sym, subst, Bool, true, List, [], ◌∷◌, ◌++◌, All, select, Bool-cases, inl,
  inr, arith, if◌then◌else◌,
}
use githubprojectforissueide.Text.{Text}
use githubprojectforissueide.Models.{Finding}
use githubprojectforissueide.Syntax.{Python}
use githubprojectforissueide.Review.Grounding.{is_trustworthy}
use githubprojectforissueide.Review.Agents.{Checker, run_checkers}

pub select-All : {A : Type 0} (p : A → Bool) (xs : List A) → All (λ x. p x ≡ true) (select p xs)
unfolding select
select-All p [] = tt
select-All p (x ∷ xs) = elim (Bool-cases (p x)) [
  | inl kept ↦
      subst (λ b. All (λ y. p y ≡ true) (if b then x ∷ select p xs else select p xs)) (sym kept)
        (kept, select-All p xs)
  | inr left ↦
      subst (λ b. All (λ y. p y ≡ true) (if b then x ∷ select p xs else select p xs)) (sym left)
        (select-All p xs)
]

pub All-append :
    {A : Type 0} (P : A → Type 0) (xs ys : List A) → All P xs → All P ys → All P (xs ++ ys)
All-append P [] ys h k = k
All-append P (x ∷ xs) ys h k = (h.0, All-append P xs ys h.1 k)

-- All are trusted as findings of the code.
abbrev pub Trusted : Python → Text → List Finding → Type 0
Trusted py code = All (λ f. is_trustworthy py f code ≡ true)

-- All that some checkers find.
abbrev pub found_by : Text → Text → List Checker → List Finding
found_by code filename [] = []
found_by code filename (checker ∷ checkers) =
    checker code filename ++ found_by code filename checkers

pub select-append :
    (p : Finding → Bool) (xs ys : List Finding) → select p (xs ++ ys) ≡ select p xs ++ select p ys
unfolding select
select-append p [] ys = refl
select-append p (x ∷ xs) ys = ground (arith, select-append p xs ys)

-- The loop over the checkers selects from all that they find.
pub run_checkers-found_by :
    (py : Python) (code filename : Text) (checkers : List Checker)
    → run_checkers py code filename checkers
      ≡ select (λ f. is_trustworthy py f code) (found_by code filename checkers)
unfolding run_checkers select
run_checkers-found_by py code filename [] = refl
run_checkers-found_by py code filename (checker ∷ checkers) =
    ap (◌++◌ (select (λ f. is_trustworthy py f code) (checker code filename)))
      (run_checkers-found_by py code filename checkers)
    ∙ sym (
        select-append (λ f. is_trustworthy py f code) (checker code filename)
          (found_by code filename checkers))
