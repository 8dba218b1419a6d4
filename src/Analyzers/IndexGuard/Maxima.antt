-- ===== src/Analyzers/IndexGuard/Maxima.antt =====
-- The largest index for each name, by src/analyzers/index_guard_checker.py.
use githubprojectforissueide.Prelude.{
  ℕ, ◌≤◌, ◌≡◌, ◌⊎◌, inl, inr, refl, sym, ap, ap₂, ◌∙◌, subst, true, false, List, [], ◌∷◌, arith,
  Bool-cases, ltb, if◌then◌else◌,
}
use githubprojectforissueide.Text.{Text, text_eq, text_eq→eq}
use githubprojectforissueide.Analyzers.Paths.{In}
use githubprojectforissueide.Analyzers.Once.{by_side}
use githubprojectforissueide.Analyzers.IndexGuard.{raise_max, max_indices}
use githubprojectforissueide.Analyzers.Names.{Unrepeated, names_of, with_name, with_name-Unrepeated}

-- A name with an index, and how the index prints.
abbrev pub Access : Type 0
Access = Text × (ℕ × Text)

-- An entry for a name with an index at least as large.
abbrev Covers : Text → ℕ → List Access → Type 0
Covers t k es = (i : ℕ × Text) × In (t, i) es × (k ≤ i.0)

Covers-later :
    (t : Text) (k : ℕ) (e : Access) (es : List Access) → Covers t k es → Covers t k (e ∷ es)
Covers-later t k e es (i, m, le) = (i, inr m, le)

raise_max_there :
    (t u : Text) (i old : ℕ × Text) (es : List Access)
    → text_eq u t ≡ true
    → raise_max t i ((u, old) ∷ es) ≡ (u, if ltb old.0 i.0 then i else old) ∷ es
unfolding raise_max
raise_max_there t u i old es h = rw (raise_max, h) refl

raise_max_on :
    (t u : Text) (i old : ℕ × Text) (es : List Access)
    → text_eq u t ≡ false
    → raise_max t i ((u, old) ∷ es) ≡ (u, old) ∷ raise_max t i es
unfolding raise_max
raise_max_on t u i old es h = rw (raise_max, h) refl

-- The larger of two indices, the old one where they are equal.
abbrev larger : ℕ × Text → ℕ × Text → ℕ × Text
larger i old = if ltb old.0 i.0 then i else old

larger_bounds : (i old : ℕ × Text) → (i.0 ≤ (larger i old).0) × (old.0 ≤ (larger i old).0)
larger_bounds i old = elim (Bool-cases (ltb old.0 i.0)) [
  | inl h ↦ rw h ground arith
  | inr h ↦ rw h ground arith
]

larger-cases : (i old : ℕ × Text) → (larger i old ≡ i) ⊎ (larger i old ≡ old)
larger-cases i old = elim (Bool-cases (ltb old.0 i.0)) [
  | inl h ↦ inl (rw h refl)
  | inr h ↦ inr (rw h refl)
]

raise_max-Covers_new :
    (t : Text) (i : ℕ × Text) (es : List Access) → Covers t i.0 (raise_max t i es)
unfolding raise_max
raise_max-Covers_new t i [] = (i, inl refl, omega arith)
raise_max-Covers_new t i ((u, old) ∷ es) = elim (Bool-cases (text_eq u t)) [
  | inl h ↦ subst (Covers t i.0) (sym (raise_max_there t u i old es h)) (
    larger i old,
    inl (ap (λ (s : Text). (s, larger i old)) (sym (text_eq→eq u t h))),
    (larger_bounds i old).0,
  )
  | inr h ↦
      subst (Covers t i.0) (sym (raise_max_on t u i old es h))
        (Covers-later t i.0 (u, old) (raise_max t i es) (raise_max-Covers_new t i es))
]

raise_max-Covers :
    (s t : Text) (k : ℕ) (i : ℕ × Text) (es : List Access)
    → Covers s k es
    → Covers s k (raise_max t i es)
raise_max-Covers s t k i [] (j, m, le) = absurd m
raise_max-Covers s t k i ((u, old) ∷ es) (j, m, le) = elim (Bool-cases (text_eq u t)) [
  | inl h ↦ subst (Covers s k) (sym (raise_max_there t u i old es h)) (
      by_side
        (λ (e : (s, j) ≡ (u, old)).
          let grows = (larger_bounds i old).1 in
          let same : j ≡ old = ap (λ (x : Access). x.1) e in
          (
            larger i old,
            inl (ap (λ (x : Access). (x.0, larger i old)) e),
            let bound : k ≤ old.0 = subst (λ (x : ℕ × Text). k ≤ x.0) same le in omega arith,
          ))
        (λ n. (j, inr n, le)) m)
  | inr h ↦ subst (Covers s k) (sym (raise_max_on t u i old es h)) (
      by_side (λ e. (j, inl e, le))
        (λ n. Covers-later s k (u, old) (raise_max t i es) (raise_max-Covers s t k i es (j, n, le)))
        m)
]

-- An entry was there, or is the new one.
raise_max_from :
    (t : Text) (i : ℕ × Text) (es : List Access) (e : Access)
    → In e (raise_max t i es)
    → (e ≡ (t, i)) ⊎ In e es
unfolding raise_max
raise_max_from t i [] e m = by_side inl (λ n. absurd n) m
raise_max_from t i ((u, old) ∷ es) e m = elim (Bool-cases (text_eq u t)) [
  | inl h ↦
      by_side
        (λ (p : e ≡ (u, larger i old)).
          by_side (λ q. inl (p ∙ ap₂ (λ (s : Text) (x : ℕ × Text). (s, x)) (text_eq→eq u t h) q))
            (λ q. inr (inl (p ∙ ap (λ (x : ℕ × Text). (u, x)) q))) (larger-cases i old))
        (λ n. inr (inr n)) (subst (In e) (raise_max_there t u i old es h) m)
  | inr h ↦
      by_side (λ p. inr (inl p)) (λ n. by_side inl (λ k. inr (inr k)) (raise_max_from t i es e n))
        (subst (In e) (raise_max_on t u i old es h) m)
]

max_indices_keep :
    (t : Text) (k : ℕ) (es xs : List Access) → Covers t k es → Covers t k (max_indices es xs)
unfolding max_indices
max_indices_keep t k es [] c = c
max_indices_keep t k es ((u, i) ∷ xs) c =
    max_indices_keep t k (raise_max u i es) xs (raise_max-Covers t u k i es c)

pub max_indices-Covers :
    (t : Text) (i : ℕ × Text) (es xs : List Access)
    → In (t, i) xs
    → Covers t i.0 (max_indices es xs)
unfolding max_indices
max_indices-Covers t i es [] m = absurd m
max_indices-Covers t i es ((u, j) ∷ xs) (inl e) =
    max_indices_keep t i.0 (raise_max u j es) xs
      (subst (λ (x : Access). Covers t i.0 (raise_max x.0 x.1 es)) e (raise_max-Covers_new t i es))
max_indices-Covers t i es ((u, j) ∷ xs) (inr m) = max_indices-Covers t i (raise_max u j es) xs m

pub max_indices_from :
    (e : Access) (es xs : List Access) → In e (max_indices es xs) → In e es ⊎ In e xs
unfolding max_indices
max_indices_from e es [] m = inl m
max_indices_from e es ((u, i) ∷ xs) m =
    by_side (λ n. by_side (λ p. inr (inl p)) inl (raise_max_from u i es e n)) (λ n. inr (inr n))
      (max_indices_from e (raise_max u i es) xs m)

raise_max-names :
    (t : Text) (i : ℕ × Text) (es : List Access)
    → names_of (raise_max t i es) ≡ with_name t (names_of es)
unfolding raise_max with_name
raise_max-names t i [] = refl
raise_max-names t i ((u, old) ∷ es) = elim (Bool-cases (text_eq u t)) [
  | inl same ↦ rw same refl
  | inr other ↦ rw other (ap (◌∷◌ u) (raise_max-names t i es))
]

pub max_indices-Unrepeated :
    (es xs : List Access) → Unrepeated (names_of es) → Unrepeated (names_of (max_indices es xs))
unfolding max_indices
max_indices-Unrepeated es [] h = h
max_indices-Unrepeated es ((t, i) ∷ xs) h =
    max_indices-Unrepeated (raise_max t i es) xs
      (subst Unrepeated (sym (raise_max-names t i es)) (with_name-Unrepeated t (names_of es) h))
