-- ===== src/Confidence/Reasons.antt =====
-- Reasons and counts of src/core/confidence.py.
use githubprojectforissueide.Prelude.{
  ◌+◌, ◌≡◌, ◌≢◌, ◌↔◌, Bool, true, false, not, List, [], ◌∷◌, arith, select, length, length-map, All,
  Bool-cases, inl, inr, map,
}
use githubprojectforissueide.Models.{Finding}
use githubprojectforissueide.Confidence.{
  is_safe_to_auto_apply, manual_review_reason, review_reason, detail, summarize_auto_fix_status,
}

-- A finding needs no reason for a human to look at it exactly if its fix may be applied on its own.
pub manual_review_reason-nil_iff :
    (f : Finding) → (manual_review_reason f ≡ []) ↔ (is_safe_to_auto_apply f ≡ true)
unfolding manual_review_reason
manual_review_reason-nil_iff f = ground arith

-- Every finding has some reason for still being there, applied or not.
pub review_reason-ne-nil : (f : Finding) (auto_apply : Bool) → review_reason f auto_apply ≢ []
unfolding review_reason
review_reason-ne-nil f auto_apply = ground arith

module _ {ℓ} {A : Type ℓ} (p : A → Bool) where
  pub length-select-add :
      (xs : List A) → length (select p xs) + length (select (λ x. not (p x)) xs) ≡ length xs
  unfolding select
  length-select-add [] = omega arith
  length-select-add (x ∷ xs) = ground (arith, length-select-add xs)

unsafe_has_reason : (f : Finding) → is_safe_to_auto_apply f ≡ false → (detail f).reason ≢ []
unfolding detail
unsafe_has_reason f unsafe h = ground (arith, manual_review_reason-nil_iff f)

details_have_reasons :
    (fs : List Finding)
    → All (λ d. d.reason ≢ []) (map detail (select (λ f. not (is_safe_to_auto_apply f)) fs))
unfolding select
details_have_reasons [] = tt
details_have_reasons (f ∷ fs) = elim (Bool-cases (is_safe_to_auto_apply f)) [
  | inl safe ↦ rw safe (details_have_reasons fs)
  | inr unsafe ↦ rw unsafe (unsafe_has_reason f unsafe, details_have_reasons fs)
]

-- Every finding is counted once, as fixed or as left to a human, and each of those left has an
-- entry of its own, with a reason that is not empty.
pub summarize_counts :
    (fs : List Finding)
    → let s = summarize_auto_fix_status fs in
      (s.auto_fixed_count + s.manual_review_count ≡ length fs)
      × (length s.manual_review_details ≡ s.manual_review_count)
      × All (λ d. d.reason ≢ []) s.manual_review_details
unfolding summarize_auto_fix_status
summarize_counts fs =
    (length-select-add is_safe_to_auto_apply fs, length-map _ _, details_have_reasons fs)
