-- ===== src/Analyzers/Once.antt =====
-- Findings of which each line has one at most.
use githubprojectforissueide.Prelude.{
  ℕ, ◌==◌, ◌≡◌, ◌≢◌, ◌↔◌, ◌⊎◌, inl, inr, refl, sym, subst, true, false, List, [], ◌∷◌, any, All,
  map, arith, Bool-cases,
}
use githubprojectforissueide.Models.{Finding}
use githubprojectforissueide.Analyzers.Reports.{once}
use githubprojectforissueide.Analyzers.Paths.{In, Distinct}

-- The lines that findings are at.
abbrev pub lines_of : List Finding → List ℕ
lines_of = map (λ f. f.line)

any_to : (k : ℕ) (ks : List ℕ) → any (◌==◌ k) ks ≡ true → In k ks
unfolding any
any_to k [] h = cc
any_to k (j ∷ ks) h = elim (Bool-cases (k == j)) [
  | inl same ↦ inl (ground arith)
  | inr other ↦ inr (any_to k ks (rw other at h))
]

any_of : (k : ℕ) (ks : List ℕ) → In k ks → any (◌==◌ k) ks ≡ true
unfolding any
any_of k [] m = absurd m
any_of k (j ∷ ks) (inl e) = ground arith
any_of k (j ∷ ks) (inr m) = ground (arith, any_of k ks m)

pub by_side {ℓ} : {A B : Type 0} {C : Type ℓ} → (A → C) → (B → C) → A ⊎ B → C
by_side f g (inl a) = f a
by_side f g (inr b) = g b

once_old :
    (seen : List ℕ) (f : Finding) (fs : List Finding)
    → any (◌==◌ f.line) seen ≡ true
    → once seen (f ∷ fs) ≡ once seen fs
unfolding once
once_old seen f fs h = rw h refl

once_new :
    (seen : List ℕ) (f : Finding) (fs : List Finding)
    → any (◌==◌ f.line) seen ≡ false
    → once seen (f ∷ fs) ≡ f ∷ once (f.line ∷ seen) fs
unfolding once
once_new seen f fs h = rw h refl

-- A line that is left stood there before.
once_from :
    (k : ℕ) (seen : List ℕ) (fs : List Finding)
    → In k (lines_of (once seen fs))
    → In k (lines_of fs)
unfolding once
once_from k seen [] m = m
once_from k seen (f ∷ fs) m = elim (Bool-cases (any (◌==◌ f.line) seen)) [
  | inl old ↦ inr (once_from k seen fs (subst (λ l. In k (lines_of l)) (once_old seen f fs old) m))
  | inr new ↦
      by_side inl (λ n. inr (once_from k (f.line ∷ seen) fs n))
        (subst (λ l. In k (lines_of l)) (once_new seen f fs new) m)
]

-- A line that was not seen is left.
once_of :
    (k : ℕ) (seen : List ℕ) (fs : List Finding)
    → In k (lines_of fs)
    → In k seen ⊎ In k (lines_of (once seen fs))
once_of k seen [] m = absurd m
once_of k seen (f ∷ fs) m = elim (Bool-cases (any (◌==◌ f.line) seen)) [
  | inl old ↦
      by_side (λ e. inl (subst (λ j. In j seen) (sym e) (any_to f.line seen old)))
        (λ n.
          subst (λ l. In k seen ⊎ In k (lines_of l)) (sym (once_old seen f fs old))
            (once_of k seen fs n))
        m
  | inr new ↦
      subst (λ l. In k seen ⊎ In k (lines_of l)) (sym (once_new seen f fs new))
        (by_side (λ e. inr (inl e))
          (λ n.
            by_side (by_side (λ e. inr (inl e)) inl) (λ r. inr (inr r))
              (once_of k (f.line ∷ seen) fs n))
          m)
]

once_unseen :
    (k : ℕ) (seen : List ℕ) (fs : List Finding)
    → In k seen
    → All (λ j. j ≢ k) (lines_of (once seen fs))
unfolding once
once_unseen k seen [] m = tt
once_unseen k seen (f ∷ fs) m = elim (Bool-cases (any (◌==◌ f.line) seen)) [
  | inl old ↦
      subst (λ l. All (λ j. j ≢ k) (lines_of l)) (sym (once_old seen f fs old))
        (once_unseen k seen fs m)
  | inr new ↦
      subst (λ l. All (λ j. j ≢ k) (lines_of l)) (sym (once_new seen f fs new))
        (
          λ e. ground (arith, any_of f.line seen (subst (λ j. In j seen) (sym e) m)),
          once_unseen k (f.line ∷ seen) fs (inr m),
        )
]

once-Distinct-seen : (seen : List ℕ) (fs : List Finding) → Distinct (lines_of (once seen fs))
unfolding once
once-Distinct-seen seen [] = tt
once-Distinct-seen seen (f ∷ fs) = elim (Bool-cases (any (◌==◌ f.line) seen)) [
  | inl old ↦
      subst (λ l. Distinct (lines_of l)) (sym (once_old seen f fs old)) (once-Distinct-seen seen fs)
  | inr new ↦
      subst (λ l. Distinct (lines_of l)) (sym (once_new seen f fs new))
        (once_unseen f.line (f.line ∷ seen) fs (inl refl), once-Distinct-seen (f.line ∷ seen) fs)
]

-- Of some findings `once` leaves one at each line.
pub once-lines : (fs : List Finding) (k : ℕ) → In k (lines_of (once [] fs)) ↔ In k (lines_of fs)
once-lines fs k = (once_from k [] fs, λ m. by_side (λ n. absurd n) (λ n. n) (once_of k [] fs m))

pub once-Distinct : (fs : List Finding) → Distinct (lines_of (once [] fs))
once-Distinct fs = once-Distinct-seen [] fs
