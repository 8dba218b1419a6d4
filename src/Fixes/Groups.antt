-- ===== src/Fixes/Groups.antt =====
-- The groups of `apply_fixes_to_file`, as one sweep over the findings in order.
use githubprojectforissueide.Prelude.{
  ℕ, ◌≡◌, refl, ap, ◌∙◌, true, false, List, [], ◌∷◌, ◌++◌, Option, none, some, append_assoc, leb,
  max, Bool-cases, inl, inr,
}
use githubprojectforissueide.Models.{Finding}
use githubprojectforissueide.Fixes.Spans.{start_line, last_line}
use githubprojectforissueide.Fixes.{append_last, is_nonempty, group_loop, split_groups}

-- The only finding of a group of one.
abbrev pub pending : List Finding → Option Finding
pending (f ∷ []) = some f
pending _ = none

abbrev pub emit : Option Finding → List Finding
emit none = []
emit (some f) = f ∷ []

-- The findings that end up alone: `p` is the open group, if it has one member, and `m` its end.
unfoldable pub sweep : Option Finding → ℕ → List Finding → List Finding
sweep p m [] = emit p
sweep p m (f ∷ rest) = elim (leb (start_line f) m) [
  | true ↦ sweep none (max m (last_line f)) rest
  | false ↦ emit p ++ sweep (some f) (last_line f) rest
]

pub sweep_joins :
    (p : Option Finding) (m : ℕ) (f : Finding) (rest : List Finding)
    → leb (start_line f) m ≡ true
    → sweep p m (f ∷ rest) ≡ sweep none (max m (last_line f)) rest
unfolding sweep
sweep_joins p m f rest h = rw (h, sweep)

pub sweep_opens :
    (p : Option Finding) (m : ℕ) (f : Finding) (rest : List Finding)
    → leb (start_line f) m ≡ false
    → sweep p m (f ∷ rest) ≡ emit p ++ sweep (some f) (last_line f) rest
unfolding sweep
sweep_opens p m f rest h = rw (h, sweep)

append_last_lem :
    (gs : List (List Finding)) (g : List Finding) (f : Finding)
    → append_last (gs ++ g ∷ []) f ≡ gs ++ (g ++ f ∷ []) ∷ []
unfolding append_last
append_last_lem [] g f = refl
append_last_lem (h ∷ []) g f = refl
append_last_lem (h ∷ k ∷ gs) g f = ap (◌∷◌ h) (append_last_lem (k ∷ gs) g f)

is_nonempty_snoc : (gs : List (List Finding)) (g : List Finding) → is_nonempty (gs ++ g ∷ []) ≡ true
is_nonempty_snoc [] g = refl
is_nonempty_snoc (h ∷ gs) g = refl

split-snoc :
    (gs : List (List Finding)) (g : List Finding)
    → (split_groups (gs ++ g ∷ [])).0 ≡ (split_groups gs).0 ++ emit (pending g)
unfolding split_groups
split-snoc [] [] = refl
split-snoc [] (f ∷ []) = refl
split-snoc [] (f ∷ h ∷ g) = refl
split-snoc ([] ∷ gs) g = split-snoc gs g
split-snoc ((f ∷ []) ∷ gs) g = ap (◌∷◌ f) (split-snoc gs g)
split-snoc ((f ∷ h ∷ t) ∷ gs) g = split-snoc gs g

pending_grown : (h : Finding) (t : List Finding) (f : Finding) → pending ((h ∷ t) ++ f ∷ []) ≡ none
pending_grown h [] f = refl
pending_grown h (k ∷ t) f = refl

-- With a group open, the rest of the loop leaves alone what the sweep does.
pub group_loop-sweep :
    (xs : List Finding) (gs : List (List Finding)) (h : Finding) (t : List Finding) (m : ℕ)
    → (split_groups (group_loop (gs ++ (h ∷ t) ∷ []) m xs)).0
      ≡ (split_groups gs).0 ++ sweep (pending (h ∷ t)) m xs
unfolding group_loop
group_loop-sweep [] gs h t m = unfold sweep in split-snoc gs (h ∷ t)
group_loop-sweep (x ∷ rest) gs h t m = elim (Bool-cases (leb (start_line x) m)) [
  | inl joins ↦
      rw (is_nonempty_snoc, joins, append_last_lem, sweep_joins (pending (h ∷ t)) m x rest joins)
        (group_loop-sweep rest gs h (t ++ x ∷ []) (max m (last_line x))
          ∙ ap (λ p. (split_groups gs).0 ++ sweep p (max m (last_line x)) rest)
              (pending_grown h t x))
  | inr opens ↦
      rw (is_nonempty_snoc, opens, sweep_opens (pending (h ∷ t)) m x rest opens)
        (group_loop-sweep rest (gs ++ (h ∷ t) ∷ []) x [] (last_line x)
          ∙ ap (λ l. l ++ sweep (some x) (last_line x) rest) (split-snoc gs (h ∷ t))
          ∙ append_assoc (split_groups gs).0 (emit (pending (h ∷ t)))
              (sweep (some x) (last_line x) rest))
]
