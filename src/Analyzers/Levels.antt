-- ===== src/Analyzers/Levels.antt =====
-- The levels of a syntax tree, and the order of a breadth-first walk.
use githubprojectforissueide.Prelude.{
  ◌≡◌, refl, sym, ap, ◌∙◌, List, [], ◌∷◌, ◌++◌, append_assoc, append-nil,
}
use githubprojectforissueide.Analyzers.Tree.{
  Node, Children, node, end, child, absent, child_nodes, nodes_in, join_levels, levels_below,
  levels_of, concat, walk,
}

-- The children of some nodes, in order.
unfoldable pub children_all : List Node → List Node
children_all [] = []
children_all (n ∷ ns) = child_nodes n ++ children_all ns

pub children_all-append :
    (ns ms : List Node) → children_all (ns ++ ms) ≡ children_all ns ++ children_all ms
unfolding children_all
children_all-append [] ms = refl
children_all-append (n ∷ ns) ms =
    ap (◌++◌ (child_nodes n)) (children_all-append ns ms)
    ∙ sym (append_assoc (child_nodes n) (children_all ns) (children_all ms))

-- Each level of some is the children of the one before, from `l` on, and the last one has none.
abbrev pub Chain : List Node → List (List Node) → Type 0
Chain l [] = children_all l ≡ []
Chain l (m ∷ ms) = (children_all l ≡ m) × Chain m ms

Chain-join :
    (l m : List Node) (ls ms : List (List Node))
    → Chain l ls
    → Chain m ms
    → Chain (l ++ m) (join_levels ls ms)
unfolding join_levels
Chain-join l m [] [] p q = rw (children_all-append l m, p) q
Chain-join l m [] (k ∷ ms) p q = (rw (children_all-append l m, p) q.0, q.1)
Chain-join l m (k ∷ ls) [] p q = (rw (children_all-append l m, p.0, q) (append-nil k), p.1)
Chain-join l m (k ∷ ls) (j ∷ ms) p q =
    (rw (children_all-append l m, p.0, q.0) refl, Chain-join k j ls ms p.1 q.1)

-- The same of levels that start with `l`.
abbrev Starts : List Node → List (List Node) → Type 0
Starts l [] = l ≡ []
Starts l (m ∷ ms) = (l ≡ m) × Chain m ms

Starts-join :
    (l m : List Node) (ls ms : List (List Node))
    → Starts l ls
    → Starts m ms
    → Starts (l ++ m) (join_levels ls ms)
unfolding join_levels
Starts-join l m [] [] p q = rw p q
Starts-join l m [] (k ∷ ms) p q = (rw p q.0, q.1)
Starts-join l m (k ∷ ls) [] p q = (rw (p.0, q) (append-nil k), p.1)
Starts-join l m (k ∷ ls) (j ∷ ms) p q = (rw (p.0, q.0) refl, Chain-join k j ls ms p.1 q.1)

Chain-of : (n : Node) (ls : List (List Node)) → Starts (child_nodes n) ls → Chain (n ∷ []) ls
unfolding children_all
Chain-of n [] s = append-nil (child_nodes n) ∙ s
Chain-of n (m ∷ ms) s = (append-nil (child_nodes n) ∙ s.0, s.1)

mutual
  unfolding levels_below child_nodes nodes_in

  Starts-below : (n : Node) → Starts (child_nodes n) (levels_below n)
  Starts-below (node p k cs) = Starts-levels cs

  Starts-levels : (cs : Children) → Starts (nodes_in cs) (levels_of cs)
  Starts-levels end = refl
  Starts-levels (child f n cs) =
      Starts-join (n ∷ []) (nodes_in cs) ((n ∷ []) ∷ levels_below n) (levels_of cs)
        (refl, Chain-of n (levels_below n) (Starts-below n)) (Starts-levels cs)
  Starts-levels (absent f cs) = Starts-levels cs

pub Chain-levels : (n : Node) → Chain (n ∷ []) (levels_below n)
Chain-levels n = Chain-of n (levels_below n) (Starts-below n)

Chain-concat :
    (l : List Node) (ls : List (List Node)) → Chain l ls → children_all (l ++ concat ls) ≡ concat ls
unfolding concat
Chain-concat l [] c = rw (append-nil l) c
Chain-concat l (m ∷ ms) c =
    rw (children_all-append l (m ++ concat ms), c.0, Chain-concat m ms c.1) refl

-- The children of the nodes of a walk, in order, are the walk without its root.
pub children_all-walk : (n : Node) → n ∷ children_all (walk n) ≡ walk n
unfolding walk
children_all-walk n = ap (◌∷◌ n) (Chain-concat (n ∷ []) (levels_below n) (Chain-levels n))
