-- ===== src/Fixes/Spans.antt =====
-- `_span` of src/cli/review_pr.py, and Python's stable `sorted`.
use githubprojectforissueide.Prelude.{
  ℕ, Bool, ◌&&◌, ◌||◌, ◌≤◌, arith, List, [], ◌∷◌, ltb, leb, ◌==◌, if◌then◌else◌,
}
use githubprojectforissueide.Models.{Finding}

-- The two parts of `_span(f)`.
unfoldable pub start_line : Finding → ℕ
start_line f = f.line

unfoldable pub last_line : Finding → ℕ
last_line f = if leb f.line f.end_line then f.end_line else f.line

-- `_span(f) <= _span(g)`, on pairs
abbrev pub span_le : Finding → Finding → Bool
span_le f g =
    ltb (start_line f) (start_line g)
    || (start_line f == start_line g && leb (last_line f) (last_line g))

pub start-le-last : (f : Finding) → start_line f ≤ last_line f
unfolding start_line last_line
start-le-last f = ground arith

-- A stable sort: an element goes before the first that it is not behind.
module _ {ℓ} {A : Type ℓ} (le : A → A → Bool) where
  unfoldable pub insert_by : A → List A → List A
  insert_by x [] = x ∷ []
  insert_by x (y ∷ ys) = let rest = insert_by x ys in if le x y then x ∷ y ∷ ys else y ∷ rest

  unfoldable pub sort_by : List A → List A
  unfolding insert_by
  sort_by [] = []
  sort_by (x ∷ xs) = insert_by x (sort_by xs)
