-- ===== src/Text/Lines.antt =====
-- `str.splitlines` and `"\n".join`.
use githubprojectforissueide.Prelude.{
  ℕ, Bool, false, ◌&&◌, ◌||◌, List, [], ◌∷◌, ◌++◌, leb, ◌==◌, if◌then◌else◌,
}

-- The line boundaries of `splitlines`.
unfoldable pub is_break : ℕ → Bool
is_break c =
    (leb 10 c && leb c 13) || (leb 28 c && leb c 30) || c == 0x85 || c == 0x2028 || c == 0x2029

unfoldable pub cons_head : ℕ → List (List ℕ) → List (List ℕ)
cons_head c [] = (c ∷ []) ∷ []
cons_head c (l ∷ ls) = (c ∷ l) ∷ ls

-- `after_cr` says that the last character was a carriage return: "\r\n" is one boundary.
unfoldable pub lines_from : Bool → List ℕ → List (List ℕ)
unfolding is_break cons_head
lines_from after_cr [] = []
lines_from after_cr (c ∷ s) =
    let rest = lines_from (c == 13) s in
    if after_cr && c == 10 then rest else if is_break c then [] ∷ rest else cons_head c rest

unfoldable pub splitlines : List ℕ → List (List ℕ)
unfolding lines_from
splitlines = lines_from false

-- `"\n".join(lines)`
unfoldable pub join_lines : List (List ℕ) → List ℕ
join_lines [] = []
join_lines (l ∷ []) = l
join_lines (l ∷ m ∷ ls) = l ++ 10 ∷ join_lines (m ∷ ls)
