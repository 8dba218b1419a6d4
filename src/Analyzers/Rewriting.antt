-- ===== src/Analyzers/Rewriting.antt =====
-- _enclosing_statement and _build_fix_line, of which src/analyzers/http_timeout_checker.py,
-- unsafe_yaml_checker.py, weak_crypto_checker.py and insecure_http_checker.py have a copy each. `ast.unparse` and
-- `ast.dump` are parameters. The search for the copy of a node cannot fail, since the node itself is a match.
use githubprojectforissueide.Prelude.{
  ℕ, ◌==◌, Bool, ◌&&◌, [], ◌++◌, Option, none, some, if◌then◌else◌, ◌>>=◌, select,
}
use githubprojectforissueide.Text.{Text, text_eq}
use githubprojectforissueide.Analyzers.Tree.{
  Place, same_field, Node, place, field, walk, first_of, attribute, func, keywords, Children, node,
  end, child, absent,
}
use githubprojectforissueide.Analyzers.Shapes.{is_call, is_keyword}
use githubprojectforissueide.Analyzers.Utils.{
  identity, ParentMap, line_indent, statement_loop, line_of,
}

pub record Printer : Type 0 where
  pub unparse : Node → Text
  pub dump : Node → Text

unfoldable pub enclosing_statement : ParentMap → Node → Node
unfolding statement_loop
enclosing_statement pm n = statement_loop pm.depth pm n

-- The node of an identity, changed.
unfoldable mutual
  unfolding place

  pub replace : ℕ → (Node → Node) → Node → Node
  replace i f (node p k cs) =
      if p.identity == i then f (node p k cs) else node p k (replace_in i f cs)

  pub replace_in : ℕ → (Node → Node) → Children → Children
  replace_in i f end = end
  replace_in i f (child g n cs) = child g (replace i f n) (replace_in i f cs)
  replace_in i f (absent g cs) = absent g (replace_in i f cs)

-- The statement with the first match changed, on one line.
unfoldable pub build_fix_line : Printer → (Node → Bool) → (Node → Node) → Node → Text → Option Text
unfolding select walk first_of replace line_indent place
build_fix_line printer matches change statement line = do
  found ← first_of (select matches (walk statement))
  some (line_indent line ++ printer.unparse (replace (identity found) change statement))

-- `node.lineno == target.lineno and node.col_offset == target.col_offset`
unfoldable pub same_place : Node → Node → Bool
unfolding line_of place
same_place sought n =
    line_of n == line_of sought && (place n).col_offset == (place sought).col_offset

-- What is called, printed.
unfoldable pub dump_of_callee : Printer → Node → Text
unfolding field
dump_of_callee printer n = elim (field func n) [ none ↦ [] | some f ↦ printer.dump f ]

unfoldable pub is_same_call : Printer → Node → Node → Bool
unfolding is_call same_place text_eq dump_of_callee
is_same_call printer sought n =
    is_call n
    && same_place sought n
    && text_eq (dump_of_callee printer n) (dump_of_callee printer sought)

abbrev with_attr : Text → Node → Node
with_attr t (node p (attribute a) cs) = node p (attribute t) cs
with_attr t n = n

unfoldable pub set_callee_attr_in : Text → Children → Children
unfolding same_field
set_callee_attr_in t end = end
set_callee_attr_in t (child f n cs) =
    child f (if same_field f func then with_attr t n else n) (set_callee_attr_in t cs)
set_callee_attr_in t (absent f cs) = absent f (set_callee_attr_in t cs)

-- `node.func.attr = t`
unfoldable pub set_callee_attr : Text → Node → Node
unfolding set_callee_attr_in
set_callee_attr t (node p k cs) = node p k (set_callee_attr_in t cs)

unfoldable pub drop_keyword_in : Text → Children → Children
unfolding is_keyword same_field
drop_keyword_in t end = end
drop_keyword_in t (child f n cs) =
    let rest = drop_keyword_in t cs in
    if same_field f keywords && is_keyword t n then rest else child f n rest
drop_keyword_in t (absent f cs) = absent f (drop_keyword_in t cs)

-- `node.keywords = [kw for kw in node.keywords if kw.arg != t]`
unfoldable pub drop_keyword : Text → Node → Node
unfolding drop_keyword_in
drop_keyword t (node p k cs) = node p k (drop_keyword_in t cs)

unfoldable pub add_keyword_in : Node → Children → Children
add_keyword_in kw end = child keywords kw end
add_keyword_in kw (child f n cs) = child f n (add_keyword_in kw cs)
add_keyword_in kw (absent f cs) = absent f (add_keyword_in kw cs)

-- `node.keywords.append(kw)`
unfoldable pub add_keyword : Node → Node → Node
unfolding add_keyword_in
add_keyword kw (node p k cs) = node p k (add_keyword_in kw cs)

-- A node that is made without a place.
abbrev pub nowhere : Place
nowhere = record { identity = 0; lineno = none; end_lineno = none; col_offset = 0 }
