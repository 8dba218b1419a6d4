-- ===== src/Analyzers/ZipSlip.antt =====
-- src/analyzers/zip_slip_checker.py
use githubprojectforissueide.Prelude.{
  Bool, not, ◌||◌, List, [], ◌∷◌, ◌++◌, Option, some, any, ◌>>=◌, ◌>>◌, guard,
}
use githubprojectforissueide.Text.{Text, codes, splitlines}
use githubprojectforissueide.Models.{Finding, critical}
use githubprojectforissueide.Syntax.{line_at}
use githubprojectforissueide.Analyzers.Tree.{Node, field, walk, func}
use githubprojectforissueide.Analyzers.Shapes.{
  holds, one_of, filter_map, attr_of, is_call, tests_membership,
}
use githubprojectforissueide.Analyzers.Utils.{ParentMap, build_parent_map, line_of}
use githubprojectforissueide.Analyzers.Reports.{report, checked, scope_of}

abbrev extract_methods : List Text
extract_methods = codes "extractall" ∷ codes "extract" ∷ []

abbrev listing_methods : List Text
listing_methods = codes "namelist" ∷ codes "infolist" ∷ []

unfoldable pub lists_members : Node → Bool
unfolding any walk attr_of one_of tests_membership
lists_members scope =
    any (λ n. holds (one_of listing_methods) (attr_of n) || tests_membership (codes "..") n)
      (walk scope)

unfoldable pub zip_slip_finding : ParentMap → Node → Text → List Text → Node → Option Finding
unfolding is_call field attr_of one_of scope_of lists_members line_of line_at report
zip_slip_finding pm tree filename lines n = do
  guard (is_call n)
  callee ← field func n
  attr ← attr_of callee
  guard (one_of extract_methods attr)
  guard (not (lists_members (scope_of pm tree n)))
  line ← line_at lines (line_of n)
  some (
      report (codes "zip_slip_checker") filename (line_of n) 0 (codes "security") critical
        (codes "."
          ++ attr
          ++ codes
              "(...) extracts every member's path verbatim, with no check for '..' segments — a "
          ++ codes
              "crafted archive entry can write outside the target directory ('Zip Slip'). Validate each "
          ++ codes "member's resolved path stays inside the target directory before extracting it.")
        line [])

unfoldable pub detect_zip_slip : (Text → Option Node) → Text → Text → List Finding
unfolding checked filter_map walk splitlines build_parent_map zip_slip_finding
detect_zip_slip parse code filename = checked parse code (λ tree.
    filter_map (zip_slip_finding (build_parent_map tree) tree filename (splitlines code))
      (walk tree))
