-- ===== src/Analyzers/UndefinedNames/Innermost.antt =====
-- The function around a line, in src/analyzers/undefined_name_checker.py.
use githubprojectforissueide.Prelude.{
  ℕ, ◌≤◌, ◌<◌, ◌≡◌, ◌≢◌, ◌⊎◌, inl, inr, sym, subst, true, ◌&&◌, List, [], ◌∷◌, Option, none, some,
  ltb, arith, Bool-cases, if◌then◌else◌,
}
use githubprojectforissueide.Analyzers.Tree.{Node, walk}
use githubprojectforissueide.Analyzers.Utils.{line_of}
use githubprojectforissueide.Analyzers.Paths.{In}
use githubprojectforissueide.Analyzers.Once.{by_side}
use githubprojectforissueide.Analyzers.UndefinedNames.{spans, innermost, enclosing_function_at}

-- What one node changes.
abbrev updated : ℕ → Option Node → Node → Option Node
updated lineno best n =
    if spans lineno n && elim best [ none ↦ true | some b ↦ ltb (line_of b) (line_of n) ]
    then some n
    else best

-- There is a best function so far, it starts no earlier than `n`.
abbrev AtLeast : Option Node → Node → Type 0
AtLeast none n = ⊥
AtLeast (some b) n = line_of n ≤ line_of b

updated-AtLeast_new :
    (lineno : ℕ) (best : Option Node) (n : Node)
    → spans lineno n ≡ true
    → AtLeast (updated lineno best n) n
updated-AtLeast_new lineno none n h = rw h (omega arith)
updated-AtLeast_new lineno (some b) n h = elim (Bool-cases (ltb (line_of b) (line_of n))) [
  | inl later ↦ rw (h, later) (omega arith)
  | inr earlier ↦ rw (h, earlier) ground arith
]

updated-AtLeast :
    (lineno : ℕ) (best : Option Node) (n m : Node)
    → AtLeast best m
    → AtLeast (updated lineno best n) m
updated-AtLeast lineno none n m h = absurd h
updated-AtLeast lineno (some b) n m h = elim (Bool-cases (spans lineno n)) [
  | inr off ↦ rw off h
  | inl on ↦ elim (Bool-cases (ltb (line_of b) (line_of n))) [
    | inl later ↦ rw (on, later) (let lt : line_of b < line_of n = ground arith in omega arith)
    | inr earlier ↦ rw (on, earlier) h
  ]
]

innermost_keep :
    (lineno : ℕ) (best : Option Node) (ns : List Node) (m : Node)
    → AtLeast best m
    → AtLeast (innermost lineno best ns) m
unfolding innermost
innermost_keep lineno best [] m h = h
innermost_keep lineno best (n ∷ ns) m h =
    innermost_keep lineno (updated lineno best n) ns m (updated-AtLeast lineno best n m h)

innermost-AtLeast :
    (lineno : ℕ) (best : Option Node) (ns : List Node) (m : Node)
    → In m ns
    → spans lineno m ≡ true
    → AtLeast (innermost lineno best ns) m
unfolding innermost
innermost-AtLeast lineno best [] m there h = absurd there
innermost-AtLeast lineno best (n ∷ ns) m (inl e) h =
    innermost_keep lineno (updated lineno best n) ns m (
      subst (AtLeast (updated lineno best n)) (sym e)
        (updated-AtLeast_new lineno best n (subst (λ k. spans lineno k ≡ true) e h)))
innermost-AtLeast lineno best (n ∷ ns) m (inr there) h =
    innermost-AtLeast lineno (updated lineno best n) ns m there h

updated_from :
    (lineno : ℕ) (best : Option Node) (n b : Node)
    → updated lineno best n ≡ some b
    → (best ≡ some b) ⊎ ((n ≡ b) × (spans lineno n ≡ true))
updated_from lineno none n b e = elim (Bool-cases (spans lineno n)) [
  | inl on ↦ let e' = rw on at e in inr (cc, on)
  | inr off ↦ inl (rw off at e)
]
updated_from lineno (some c) n b e = elim (Bool-cases (spans lineno n)) [
  | inr off ↦ inl (rw off at e)
  | inl on ↦ elim (Bool-cases (ltb (line_of c) (line_of n))) [
    | inl later ↦ let e' = rw (on, later) at e in inr (cc, on)
    | inr earlier ↦ inl (rw (on, earlier) at e)
  ]
]

-- The result is the best function so far, or one of the nodes that spans the line.
innermost_from :
    (lineno : ℕ) (best : Option Node) (ns : List Node) (b : Node)
    → innermost lineno best ns ≡ some b
    → (best ≡ some b) ⊎ (In b ns × (spans lineno b ≡ true))
unfolding innermost
innermost_from lineno best [] b e = inl e
innermost_from lineno best (n ∷ ns) b e =
    by_side
      (λ (p : updated lineno best n ≡ some b).
        by_side inl
          (λ (new : (n ≡ b) × (spans lineno n ≡ true)).
            inr (inl (sym new.0), subst (λ k. spans lineno k ≡ true) new.0 new.1))
          (updated_from lineno best n b p))
      (λ (in_rest : In b ns × (spans lineno b ≡ true)). inr (inr in_rest.0, in_rest.1))
      (innermost_from lineno (updated lineno best n) ns b e)

none-ne-some : {b : Node} → none ≡ some b → ⊥
none-ne-some h = cc

-- The function that a name is looked up in spans the line of the name, and no function of the file that
-- spans it starts further down; there is one if any function spans the line.
pub enclosing_function_at_innermost :
    (tree : Node) (lineno : ℕ)
    → ((f : Node)
        → enclosing_function_at tree lineno ≡ some f
        → In f (walk tree)
          × (spans lineno f ≡ true)
          × ((g : Node) → In g (walk tree) → spans lineno g ≡ true → line_of g ≤ line_of f))
      × ((g : Node)
          → In g (walk tree)
          → spans lineno g ≡ true
          → enclosing_function_at tree lineno ≢ none)
unfolding enclosing_function_at
enclosing_function_at_innermost tree lineno = (
  λ f e.
      let (there, spanning) =
        by_side (λ p. absurd (none-ne-some p))
          (λ (r : In f (walk tree) × (spans lineno f ≡ true)). r)
          (innermost_from lineno none (walk tree) f e) in
      (
        there,
        spanning,
        λ g inside h.
            subst (λ o. AtLeast o g) e (innermost-AtLeast lineno none (walk tree) g inside h),
      ),
  λ g inside h e. subst (λ o. AtLeast o g) e (innermost-AtLeast lineno none (walk tree) g inside h),
)
