-- ===== src/Analyzers/InsecureHttp.antt =====
-- src/analyzers/insecure_http_checker.py. `lower_text` is `str.lower`.
use githubprojectforissueide.Prelude.{
  Bool, true, not, ◌&&◌, List, [], ◌∷◌, ◌++◌, Option, some, any, ◌>>=◌, ◌>>◌, guard, drop,
}
use githubprojectforissueide.Text.{Text, codes, splitlines, starts_with}
use githubprojectforissueide.Models.{Finding, warning}
use githubprojectforissueide.Syntax.{line_at}
use githubprojectforissueide.Analyzers.Tree.{Node, walk, constant, string, node}
use githubprojectforissueide.Analyzers.Shapes.{holds, filter_map, constant_of, string_of}
use githubprojectforissueide.Analyzers.Utils.{ParentMap, build_parent_map, line_of}
use githubprojectforissueide.Analyzers.Reports.{report, checked}
use githubprojectforissueide.Analyzers.Rewriting.{
  Printer, build_fix_line, same_place, enclosing_statement,
}

abbrev loopback_hosts : List Text
loopback_hosts = codes "http://localhost" ∷ codes "http://127.0.0.1" ∷ codes "http://0.0.0.0" ∷ []

unfoldable pub is_insecure_url : (Text → Text) → Text → Bool
unfolding starts_with any
is_insecure_url lower_text url =
    starts_with (codes "http://") (lower_text url)
    && not (any (λ host. starts_with host (lower_text url)) loopback_hosts)

-- `"https://" + target.value[len("http://"):]`
unfoldable pub with_https : Node → Node
with_https (node p (constant (string s)) cs) =
    node p (constant (string (codes "https://" ++ drop 7 s))) cs
with_https n = n

unfoldable pub is_same_constant : Node → Node → Bool
unfolding constant_of same_place
is_same_constant sought n = holds (λ c. true) (constant_of n) && same_place sought n

unfoldable pub http_finding :
    (Text → Text) → Printer → ParentMap → Text → List Text → Node → Option Finding
unfolding string_of is_insecure_url line_at line_of build_fix_line is_same_constant with_https
    enclosing_statement report
http_finding lower_text printer pm filename lines n = do
  url ← string_of n
  guard (is_insecure_url lower_text url)
  line ← line_at lines (line_of n)
  fix ← build_fix_line printer (is_same_constant n) with_https (enclosing_statement pm n) line
  some (
      report (codes "insecure_http_checker") filename (line_of n) 0 (codes "security") warning
        (codes "'"
          ++ url
          ++ codes
              "' uses unencrypted HTTP — traffic to it (and anything sent over it) can be read or "
          ++ codes "tampered with in transit. Use HTTPS instead.")
        line fix)

unfoldable pub detect_insecure_http_urls :
    (Text → Option Node) → (Text → Text) → Printer → Text → Text → List Finding
unfolding checked filter_map walk splitlines build_parent_map http_finding
detect_insecure_http_urls parse lower_text printer code filename = checked parse code (λ tree.
    filter_map (http_finding lower_text printer (build_parent_map tree) filename (splitlines code))
      (walk tree))
