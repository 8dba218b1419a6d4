-- ===== src/Analyzers/HardcodedSecret.antt =====
-- src/analyzers/hardcoded_secret_checker.py
use githubprojectforissueide.Prelude.{
  ◌==◌, Bool, not, ◌&&◌, List, [], ◌∷◌, ◌++◌, Option, some, any, if◌then◌else◌, ◌>>=◌, ◌>>◌, guard,
  select,
}
use githubprojectforissueide.Text.{Text, codes, splitlines, contains, is_empty}
use githubprojectforissueide.Models.{Finding, critical}
use githubprojectforissueide.Syntax.{line_at}
use githubprojectforissueide.Analyzers.Tree.{Node, field, nodes, walk, targets, value}
use githubprojectforissueide.Analyzers.Shapes.{
  holds, filter_map, name_of, string_of, is_assign, has_import,
}
use githubprojectforissueide.Analyzers.Utils.{line_indent, line_of}
use githubprojectforissueide.Analyzers.Reports.{report, checked, concat_map}

abbrev secret_name_markers : List Text
secret_name_markers =
    codes "password"
    ∷ codes "passwd"
    ∷ codes "pwd"
    ∷ codes "secret"
    ∷ codes "apikey"
    ∷ codes "accesskey"
    ∷ codes "privatekey"
    ∷ codes "authtoken"
    ∷ codes "token"
    ∷ codes "credential"
    ∷ []

-- `lower_text` is `str.lower`.
unfoldable pub looks_like_secret_name : (Text → Text) → Text → Bool
unfolding select any contains
looks_like_secret_name lower_text t =
    let squeezed = select (λ c. not (c == b'_')) (lower_text t) in
    any (λ marker. contains marker squeezed) secret_name_markers

unfoldable pub secret_finding :
    (Text → Text) → Bool → Text → List Text → Node → Node → Option Finding
unfolding name_of looks_like_secret_name line_at line_of line_indent report
secret_finding lower_text os_imported filename lines statement target_node = do
  t ← name_of target_node
  guard (looks_like_secret_name lower_text t)
  line ← line_at lines (line_of statement)
  some (
      report (codes "hardcoded_secret_checker") filename (line_of statement) 0 (codes "security")
        critical
        (codes "'"
          ++ t
          ++ codes
              "' looks like a credential but is hardcoded as a string literal — read it from an "
          ++ codes "environment variable instead"
          ++ (if os_imported
              then codes "."
              else codes " (no fix generated: the file doesn't `import os` yet)."))
        line
        (if os_imported
          then line_indent line ++ t ++ codes " = os.environ[\"" ++ t ++ codes "\"]"
          else []))

-- An assignment of a text that is not empty.
unfoldable pub assigns_text : Node → Bool
unfolding is_assign field string_of is_empty
assigns_text n =
    is_assign n && holds (λ v. holds (λ s. not (is_empty s)) (string_of v)) (field value n)

unfoldable pub secret_findings : (Text → Text) → Bool → Text → List Text → Node → List Finding
unfolding assigns_text filter_map secret_finding nodes
secret_findings lower_text os_imported filename lines n =
    if assigns_text n
    then filter_map (secret_finding lower_text os_imported filename lines n) (nodes targets n)
    else []

unfoldable pub detect_hardcoded_secrets :
    (Text → Option Node) → (Text → Text) → Text → Text → List Finding
unfolding checked has_import concat_map secret_findings walk splitlines
detect_hardcoded_secrets parse lower_text code filename = checked parse code (λ tree.
    concat_map
      (secret_findings lower_text (has_import (codes "os") (walk tree)) filename (splitlines code))
      (walk tree))
