-- ===== src/Text/Words.antt =====
-- `str.split()` and `" ".join`.
use githubprojectforissueide.Prelude.{ℕ, Bool, false, not, List, [], ◌∷◌, ◌++◌, if◌then◌else◌}
use githubprojectforissueide.Text.{Text, is_space}

-- Whether a text starts inside a word.
unfoldable pub starts_word : Text → Bool
unfolding is_space
starts_word [] = false
starts_word (c ∷ s) = not (is_space c)

-- A character before words of which the first goes on with it.
unfoldable pub onto_word : ℕ → List Text → List Text
onto_word c [] = (c ∷ []) ∷ []
onto_word c (w ∷ ws) = (c ∷ w) ∷ ws

-- `s.split()`
unfoldable pub words : Text → List Text
unfolding is_space starts_word onto_word
words [] = []
words (c ∷ s) =
    let rest = words s in
    if is_space c then rest else if starts_word s then onto_word c rest else (c ∷ []) ∷ rest

-- `" ".join(ws)`
unfoldable pub join_words : List Text → Text
join_words [] = []
join_words (w ∷ []) = w
join_words (w ∷ v ∷ ws) = w ++ b' ' ∷ join_words (v ∷ ws)

-- `" ".join(s.split())`
unfoldable pub normalized : Text → Text
unfolding words join_words
normalized s = join_words (words s)
