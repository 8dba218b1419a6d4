-- ===== src/Remediation/Coverage.antt =====
-- Looking up the guide of src/core/remediation_guide.py.
use githubprojectforissueide.Prelude.{
  ◌≡◌, ◌≢◌, refl, ap, ◌∙◌, Bool, true, false, List, [], ◌∷◌, Option, none, some, All, all, arith,
  Bool-cases, inl, inr,
}
use githubprojectforissueide.Text.{Text, codes, text_eq, text_eq→eq, contains}
use githubprojectforissueide.Remediation.{
  remediation_guide, source_categories, lower, guidance_in, get_remediation,
  get_remediation_for_finding,
}

all→All : {A : Type 0} (p : A → Bool) (xs : List A) → all p xs ≡ true → All (λ x. p x ≡ true) xs
unfolding all
all→All p [] h = tt
all→All p (x ∷ xs) h = (ground arith, all→All p xs (ground arith))

All-imp :
    {A : Type 0} (P Q : A → Type 0) (xs : List A) → ((x : A) → P x → Q x) → All P xs → All Q xs
All-imp P Q [] f h = tt
All-imp P Q (x ∷ xs) f h = (f x h.0, All-imp P Q xs f h.1)

is_guidance : Text → Option Text → Bool
is_guidance guidance none = false
is_guidance guidance (some g) = text_eq g guidance

is_guidance-some :
    (guidance : Text) (o : Option Text) → is_guidance guidance o ≡ true → o ≡ some guidance
unfolding is_guidance
is_guidance-some guidance none h = cc
is_guidance-some guidance (some g) h = ap some (text_eq→eq g guidance h)

has_guidance : Option Text → Bool
has_guidance none = false
has_guidance (some g) = true

has_guidance_lem : (o : Option Text) → has_guidance o ≡ true → o ≢ none
unfolding has_guidance
has_guidance_lem none h n = cc
has_guidance_lem (some g) h n = cc

guidance_in-lower :
    (wide : Text → Text) (a b : Text) (entries : List (Text × Text))
    → lower wide a ≡ lower wide b
    → guidance_in wide a entries ≡ guidance_in wide b entries
unfolding guidance_in
guidance_in-lower wide a b [] h = refl
guidance_in-lower wide a b ((key, guidance) ∷ entries) h =
    rw (h, guidance_in-lower wide a b entries h)

entries_found :
    (wide : Text → Text)
    → all (λ e. is_guidance e.1 (get_remediation wide e.0)) remediation_guide ≡ true
unfolding all is_guidance get_remediation
entries_found wide = refl

-- Each entry of the guide is what a lookup of its name finds, in whatever case the name is written:
-- no entry is hidden by an earlier one.
pub get_remediation-entry :
    (wide : Text → Text)
    → All
        (λ e.
          (name : Text) → lower wide name ≡ lower wide e.0 → get_remediation wide name ≡ some e.1)
        remediation_guide
unfolding get_remediation
get_remediation-entry wide =
    All-imp (λ e. is_guidance e.1 (get_remediation wide e.0) ≡ true)
      (λ e. (name : Text) → lower wide name ≡ lower wide e.0 → get_remediation wide name ≡ some e.1)
      remediation_guide
      (λ e found name same.
        guidance_in-lower wide name e.0 remediation_guide same
        ∙ is_guidance-some e.1 (get_remediation wide e.0) found)
      (all→All (λ e. is_guidance e.1 (get_remediation wide e.0)) remediation_guide
        (entries_found wide))

sources_found :
    (wide : Text → Text) (message : Text)
    → all (λ e. has_guidance (get_remediation_for_finding wide e.0 message)) source_categories
      ≡ true
unfolding all has_guidance get_remediation_for_finding
sources_found wide message = refl

undefined_found :
    (wide : Text → Text) (message : Text)
    → has_guidance (get_remediation_for_finding wide (codes "undefined_name_checker") message)
      ≡ true
unfolding has_guidance get_remediation_for_finding
undefined_found wide message = elim (Bool-cases (contains (codes "UnboundLocalError") message)) [
  | inl local ↦ rw local
  | inr global ↦ rw global
]

-- A finding of a checker that has a category, or of the checker for undefined names, whatever its
-- message says, has guidance: no category is missing from the guide.
pub sources_have_guidance :
    (wide : Text → Text) (message : Text)
    → All (λ e. get_remediation_for_finding wide e.0 message ≢ none) source_categories
      × (get_remediation_for_finding wide (codes "undefined_name_checker") message ≢ none)
sources_have_guidance wide message = (
  All-imp (λ e. has_guidance (get_remediation_for_finding wide e.0 message) ≡ true)
      (λ e. get_remediation_for_finding wide e.0 message ≢ none) source_categories
      (λ e found. has_guidance_lem (get_remediation_for_finding wide e.0 message) found)
      (all→All (λ e. has_guidance (get_remediation_for_finding wide e.0 message)) source_categories
        (sources_found wide message)),
  has_guidance_lem (get_remediation_for_finding wide (codes "undefined_name_checker") message)
      (undefined_found wide message),
)
