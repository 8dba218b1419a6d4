-- ===== src/Review/Duplicates.antt =====
-- What `_dedupe` of src/agents/coordinator.py keeps.
use githubprojectforissueide.Prelude.{
  ℕ, ◌≡◌, ◌↔◌, refl, sym, ap, subst, ◌∙◌, Bool, true, false, ◌||◌, List, [], ◌∷◌, All, All-map, any,
  select, arith, Bool-cases, inl, inr, if◌then◌else◌,
}
use githubprojectforissueide.Text.{Text, text_eq_refl, text_eq→eq}
use githubprojectforissueide.Models.{Finding}
use githubprojectforissueide.Review.Agents.{
  Services, key, same_key, dedupe_loop, dedupe, merge_results, run_all_agents,
}
use githubprojectforissueide.Syntax.{Python}
use githubprojectforissueide.Review.Grounding.{is_trustworthy}
use githubprojectforissueide.Review.Selected.{select-All, All-append, Trusted}

-- The findings whose key no finding before them has, of those kept or not.
pub firsts : List Finding → List Finding → List Finding
firsts before [] = []
firsts before (f ∷ fs) =
    let rest = firsts (f ∷ before) fs in
    if any (λ g. same_key (key f) (key g)) before then rest else f ∷ rest

pair_eq : {m n : ℕ} {s t : Text} → m ≡ n → s ≡ t → ◌≡◌ {A = ℕ × Text} (m, s) (n, t)
pair_eq p q = cc

same_key→eq : (j k : ℕ × Text) → same_key j k ≡ true → j ≡ k
unfolding same_key
same_key→eq (m, s) (n, t) h = pair_eq (ground arith) (text_eq→eq s t (ground arith))

same_key_refl : (k : ℕ × Text) → same_key k k ≡ true
unfolding same_key
same_key_refl (n, t) = ground (arith, text_eq_refl t)

-- The keys that were seen are those of the findings before, as far as the test can tell.
abbrev SameKeys : List (ℕ × Text) → List Finding → Type 0
SameKeys seen before = (k : ℕ × Text) → any (same_key k) seen ≡ any (λ g. same_key k (key g)) before

known-SameKeys :
    (seen : List (ℕ × Text)) (before : List Finding) (f : Finding)
    → SameKeys seen before
    → any (same_key (key f)) seen ≡ true
    → SameKeys seen (f ∷ before)
unfolding any
known-SameKeys seen before f same found k = elim (Bool-cases (same_key k (key f))) [
  | inl equal ↦
      let there : any (same_key k) seen ≡ true =
        subst (λ j. any (same_key j) seen ≡ true) (sym (same_key→eq k (key f) equal)) found in
      there ∙ sym (rw equal)
  | inr other ↦ same k ∙ sym (rw other)
]

new-SameKeys :
    (seen : List (ℕ × Text)) (before : List Finding) (f : Finding)
    → SameKeys seen before
    → SameKeys (key f ∷ seen) (f ∷ before)
unfolding any
new-SameKeys seen before f same k = ap (◌||◌ (same_key k (key f))) (same k)

dedupe_loop-firsts :
    (seen : List (ℕ × Text)) (before fs : List Finding)
    → SameKeys seen before
    → dedupe_loop seen fs ≡ firsts before fs
unfolding dedupe_loop firsts
dedupe_loop-firsts seen before [] same = refl
dedupe_loop-firsts seen before (f ∷ fs) same = elim (Bool-cases (any (same_key (key f)) seen)) [
  | inl found ↦
      let found' = sym (same (key f)) ∙ found in
      rw (found, found')
        (dedupe_loop-firsts seen (f ∷ before) fs (known-SameKeys seen before f same found))
  | inr fresh ↦
      let fresh' = sym (same (key f)) ∙ fresh in
      rw (fresh, fresh')
        (ap (◌∷◌ f)
          (dedupe_loop-firsts (key f ∷ seen) (f ∷ before) fs (new-SameKeys seen before f same)))
]

-- No key twice.
abbrev pub NoRepeat : List Finding → Type 0
NoRepeat [] = Unit
NoRepeat (f ∷ fs) = All (λ g. same_key (key g) (key f) ≡ false) fs × NoRepeat fs

Fresh : List (ℕ × Text) → List Finding → Type 0
Fresh seen fs = NoRepeat fs × All (λ g. any (same_key (key g)) seen ≡ false) fs

Fresh-cons :
    (seen : List (ℕ × Text)) (f : Finding) (fs : List Finding)
    → any (same_key (key f)) seen ≡ false
    → Fresh (key f ∷ seen) fs
    → Fresh seen (f ∷ fs)
unfolding Fresh any
Fresh-cons seen f fs fresh (distinct, apart) = (
  (All-map _ _ fs (λ g h. ground arith) apart, distinct),
  (fresh, All-map _ _ fs (λ g h. ground arith) apart),
)

dedupe_loop-Fresh : (seen : List (ℕ × Text)) (fs : List Finding) → Fresh seen (dedupe_loop seen fs)
unfolding dedupe_loop
dedupe_loop-Fresh seen [] = unfold Fresh in (tt, tt)
dedupe_loop-Fresh seen (f ∷ fs) = elim (Bool-cases (any (same_key (key f)) seen)) [
  | inl found ↦ rw found (dedupe_loop-Fresh seen fs)
  | inr fresh ↦ rw fresh (Fresh-cons seen f _ fresh (dedupe_loop-Fresh (key f ∷ seen) fs))
]

-- Deduplication keeps, in order, the findings with a line and category that no finding before them
-- has, kept or not; no two of the kept ones have the same line and category.
pub dedupe-firsts : (fs : List Finding) → (dedupe fs ≡ firsts [] fs) × NoRepeat (dedupe fs)
unfolding dedupe Fresh any
dedupe-firsts fs = (dedupe_loop-firsts [] [] fs (λ k. refl), (dedupe_loop-Fresh [] fs).0)

All-dedupe_loop :
    (P : Finding → Type 0) (seen : List (ℕ × Text)) (fs : List Finding)
    → All P fs
    → All P (dedupe_loop seen fs)
unfolding dedupe_loop
All-dedupe_loop P seen [] h = tt
All-dedupe_loop P seen (f ∷ fs) (p, h) = elim (Bool-cases (any (same_key (key f)) seen)) [
  | inl found ↦ rw found (All-dedupe_loop P seen fs h)
  | inr fresh ↦ rw fresh (p, All-dedupe_loop P (key f ∷ seen) fs h)
]

merge_results-succeeded :
    (py : Python) (code : Text) (results : List (List Finding × Bool))
    → ((merge_results py code results).1 ≡ true) ↔ All (λ r. r.1 ≡ true) results
unfolding merge_results
merge_results-succeeded py code [] = (λ h. tt, λ h. refl)
merge_results-succeeded py code ((fs, succeeded) ∷ results) =
    let (to, from) = merge_results-succeeded py code results in
    (λ h. (ground arith, to (ground arith)), λ h. let rest = from h.1 in ground arith)

merge_results-Trusted :
    (py : Python) (code : Text) (results : List (List Finding × Bool))
    → Trusted py code (merge_results py code results).0
unfolding merge_results
merge_results-Trusted py code [] = tt
merge_results-Trusted py code ((fs, succeeded) ∷ results) =
    All-append _ (select (λ f. is_trustworthy py f code) fs) _ (select-All _ fs)
      (merge_results-Trusted py code results)

-- The agents together succeed exactly if each of the four does; whether or not they do, the findings
-- that they yield are trusted, and no two of them have the same line and category.
pub run_all_agents_outcome :
    (services : Services) (code filename canary_key : Text)
    → let r = run_all_agents services code filename canary_key in
      ((r.1 ≡ true) ↔ (
        ((services.llm_supplement code filename canary_key).1 ≡ true)
        × ((services.security code filename canary_key).1 ≡ true)
        × ((services.style code filename canary_key).1 ≡ true)
        × ((services.test_coverage code filename canary_key).1 ≡ true)))
      × All (λ f. is_trustworthy services.python f code ≡ true) r.0
      × NoRepeat r.0
unfolding run_all_agents dedupe Fresh
run_all_agents_outcome services code filename canary_key =
    let results =
      (services.llm_supplement code filename canary_key)
      ∷ (services.security code filename canary_key)
      ∷ (services.style code filename canary_key)
      ∷ (services.test_coverage code filename canary_key)
      ∷ [] in
    let (to, from) = merge_results-succeeded services.python code results in
    let found = (merge_results services.python code results).0 in
    (
      (
        λ h. let all = to h in (all.0, all.1.0, all.1.1.0, all.1.1.1.0),
        λ h. from (h.0, (h.1, (h.2, (h.3, tt)))),
      ),
      All-dedupe_loop _ [] found (merge_results-Trusted services.python code results),
      (dedupe_loop-Fresh [] found).0,
    )
