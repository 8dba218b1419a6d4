-- ===== src/Fixes/Sorting.antt =====
-- Sorting and selecting keep the elements, counted by any test.
use githubprojectforissueide.Prelude.{
  ◌+◌, ◌≤◌, ◌≡◌, refl, Bool, true, false, not, ◌&&◌, List, [], ◌∷◌, ◌++◌, arith, count, select, All,
  Bool-cases, inl, inr,
}
use githubprojectforissueide.Fixes.Spans.{insert_by, sort_by}

-- The same elements, each as often, in some order.
abbrev pub SameItems {ℓ} : {A : Type ℓ} → List A → List A → Type ℓ
SameItems {A} xs ys = (q : A → Bool) → count q xs ≡ count q ys

module _ {ℓ} {A : Type ℓ} (q : A → Bool) where
  pub count-append : (xs ys : List A) → count q (xs ++ ys) ≡ count q xs + count q ys
  unfolding count
  count-append [] ys = omega arith
  count-append (x ∷ xs) ys = omega (arith, count-append xs ys)

  pub count-select :
      (p : A → Bool) (xs : List A) → count q (select p xs) ≡ count (λ x. p x && q x) xs
  unfolding count select
  count-select p [] = refl
  count-select p (x ∷ xs) = ground (arith, count-select p xs)

  pub count-select-add :
      (p : A → Bool) (xs : List A)
      → count q (select p xs) + count q (select (λ x. not (p x)) xs) ≡ count q xs
  unfolding count select
  count-select-add p [] = omega arith
  count-select-add p (x ∷ xs) = ground (arith, count-select-add p xs)

  module _ (le : A → A → Bool) where
    count-insert_by : (x : A) (xs : List A) → count q (insert_by le x xs) ≡ count q (x ∷ xs)
    unfolding count insert_by
    count-insert_by x [] = refl
    count-insert_by x (y ∷ ys) = ground (arith, count-insert_by x ys)

    pub count-sort_by : (xs : List A) → count q (sort_by le xs) ≡ count q xs
    unfolding sort_by count
    count-sort_by [] = refl
    count-sort_by (x ∷ xs) = ground (arith, count-insert_by x (sort_by le xs), count-sort_by xs)

module _ {ℓ} {A : Type ℓ} where
  -- A test that implies another holds no more often.
  pub count_mono :
      (p q : A → Bool) (xs : List A)
      → All (λ x. p x ≡ true → q x ≡ true) xs
      → count p xs ≤ count q xs
  unfolding count
  count_mono p q [] h = omega arith
  count_mono p q (x ∷ xs) h = ground (arith, h.0, count_mono p q xs h.1)

  pub count-zero : (p : A → Bool) (xs : List A) → All (λ x. p x ≡ false) xs → count p xs ≡ 0
  unfolding count
  count-zero p [] h = refl
  count-zero p (x ∷ xs) h = ground (arith, count-zero p xs h.1)

  pub count_congr :
      (p q : A → Bool) (xs : List A) → All (λ x. p x ≡ q x) xs → count p xs ≡ count q xs
  unfolding count
  count_congr p q [] h = refl
  count_congr p q (x ∷ xs) h = ground (arith, count_congr p q xs h.1)

  pub select_congr :
      (p q : A → Bool) (xs : List A) → All (λ x. p x ≡ q x) xs → select p xs ≡ select q xs
  unfolding select
  select_congr p q [] h = refl
  select_congr p q (x ∷ xs) h = ground (arith, select_congr p q xs h.1)

-- A predicate that holds of all elements holds of all that are kept.
module _ {ℓ κ} {A : Type ℓ} (P : A → Type κ) where
  pub All-insert_by :
      (le : A → A → Bool) (x : A) (xs : List A) → P x → All P xs → All P (insert_by le x xs)
  unfolding insert_by
  All-insert_by le x [] p h = (p, tt)
  All-insert_by le x (y ∷ ys) p h = elim (Bool-cases (le x y)) [
    | inl before ↦ rw before (p, h)
    | inr behind ↦ rw behind (h.0, All-insert_by le x ys p h.1)
  ]

  pub All-sort_by : (le : A → A → Bool) (xs : List A) → All P xs → All P (sort_by le xs)
  unfolding sort_by
  All-sort_by le [] h = tt
  All-sort_by le (x ∷ xs) h = All-insert_by le x (sort_by le xs) h.0 (All-sort_by le xs h.1)

  pub All-select : (p : A → Bool) (xs : List A) → All P xs → All P (select p xs)
  unfolding select
  All-select p [] h = tt
  All-select p (x ∷ xs) h = elim (Bool-cases (p x)) [
    | inl kept ↦ rw kept (h.0, All-select p xs h.1)
    | inr dropped ↦ rw dropped (All-select p xs h.1)
  ]
