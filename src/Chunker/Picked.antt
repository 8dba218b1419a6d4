-- ===== src/Chunker/Picked.antt =====
-- Elements of a list that a test, a sort, or a range of lines picks, for src/ingestion/chunker.py.
use githubprojectforissueide.Prelude.{
  ℕ, zero, suc, ◌+◌, ◌<◌, ◌≤◌, ◌≡◌, refl, Bool, true, List, [], ◌∷◌, some, any, count, length, take,
  drop, arith, Bool-cases, inl, inr,
}
use githubprojectforissueide.Text.{Text}
use githubprojectforissueide.Fixes.{insert_by, sort_by}
use githubprojectforissueide.Syntax.{line_at}
use githubprojectforissueide.Analyzers.Paths.{In}

module _ {A : Type 0} where
  pub any_from : (p : A → Bool) (xs : List A) → any p xs ≡ true → (x : A) × In x xs × (p x ≡ true)
  unfolding any
  any_from p [] h = cc
  any_from p (x ∷ xs) h = elim (Bool-cases (p x)) [
    | inl found ↦ (x, inl refl, found)
    | inr other ↦ let (y, m, e) = any_from p xs (rw other at h) in (y, inr m, e)
  ]

  pub count_from : (p : A → Bool) (xs : List A) → 0 < count p xs → (x : A) × In x xs × (p x ≡ true)
  unfolding count
  count_from p [] h = absurd (omega arith)
  count_from p (x ∷ xs) h = elim (Bool-cases (p x)) [
    | inl found ↦ (x, inl refl, found)
    | inr other ↦
        let more = rw other at h in let (y, m, e) = count_from p xs (omega arith) in (y, inr m, e)
  ]

  In-insert_by :
      (le : A → A → Bool) (x a : A) (xs : List A) → In a (x ∷ xs) → In a (insert_by le x xs)
  unfolding insert_by
  In-insert_by le x a [] m = m
  In-insert_by le x a (y ∷ ys) m = elim (Bool-cases (le x y)) [
    | inl before ↦ rw before m
    | inr behind ↦ rw behind (elim m [
      | inl e ↦ inr (In-insert_by le x a ys (inl e))
      | inr (inl e) ↦ inl e
      | inr (inr n) ↦ inr (In-insert_by le x a ys (inr n))
    ])
  ]

  pub In-sort_by : (le : A → A → Bool) (a : A) (xs : List A) → In a xs → In a (sort_by le xs)
  unfolding sort_by
  In-sort_by le a [] m = m
  In-sort_by le a (x ∷ xs) (inl e) = In-insert_by le x a (sort_by le xs) (inl e)
  In-sort_by le a (x ∷ xs) (inr m) =
      In-insert_by le x a (sort_by le xs) (inr (In-sort_by le a xs m))

-- A line of some that are cut out.
pub batched_line :
    (lines : List Text) (i len k : ℕ) (line : Text)
    → line_at lines k ≡ some line
    → i < k
    → k ≤ i + len
    → In line (take len (drop i lines)) × (k ≤ i + length (take len (drop i lines)))
unfolding line_at
batched_line lines i len zero line e p q = absurd (omega arith)
batched_line [] i len (suc k) line e p q = cc
batched_line (l ∷ ls) zero zero (suc k) line e p q = absurd (omega arith)
batched_line (l ∷ ls) zero (suc len) (suc zero) line e p q = (inl (cc), omega arith)
batched_line (l ∷ ls) zero (suc len) (suc (suc k)) line e p q =
    let (m, le) = batched_line ls zero len (suc k) line e (omega arith) (omega arith) in
    (inr m, omega arith)
batched_line (l ∷ ls) (suc i) len (suc zero) line e p q = absurd (omega arith)
batched_line (l ∷ ls) (suc i) len (suc (suc k)) line e p q =
    let (m, le) = batched_line ls i len (suc k) line e (omega arith) (omega arith) in
    (m, omega arith)

pub line_at-In :
    (lines : List Text) (k : ℕ) (line : Text) → line_at lines k ≡ some line → In line lines
unfolding line_at
line_at-In lines zero line e = cc
line_at-In [] (suc k) line e = cc
line_at-In (l ∷ ls) (suc zero) line e = inl (cc)
line_at-In (l ∷ ls) (suc (suc k)) line e = inr (line_at-In ls (suc k) line e)
