-- ===== src/Analyzers/WeakCrypto.antt =====
-- src/analyzers/weak_crypto_checker.py
use githubprojectforissueide.Prelude.{
  List, [], ◌∷◌, ◌++◌, Option, some, if◌then◌else◌, ◌>>=◌, ◌>>◌, guard,
}
use githubprojectforissueide.Text.{Text, codes, splitlines}
use githubprojectforissueide.Models.{Finding, warning}
use githubprojectforissueide.Syntax.{line_at}
use githubprojectforissueide.Analyzers.Tree.{Node, field, walk, func}
use githubprojectforissueide.Analyzers.Shapes.{
  one_of, filter_map, attr_of, is_attribute_on, is_call, has_import,
}
use githubprojectforissueide.Analyzers.Utils.{ParentMap, build_parent_map, line_of}
use githubprojectforissueide.Analyzers.Reports.{report, checked}
use githubprojectforissueide.Analyzers.Rewriting.{
  Printer, build_fix_line, is_same_call, set_callee_attr, enclosing_statement,
}

abbrev weak_algorithms : List Text
weak_algorithms = codes "md5" ∷ codes "sha1" ∷ []

unfoldable pub crypto_finding : Printer → ParentMap → Text → List Text → Node → Option Finding
unfolding is_call field is_attribute_on one_of attr_of line_at line_of build_fix_line is_same_call
    set_callee_attr enclosing_statement report
crypto_finding printer pm filename lines n = do
  guard (is_call n)
  callee ← field func n
  guard (is_attribute_on (one_of weak_algorithms) (codes "hashlib") callee)
  attr ← attr_of callee
  line ← line_at lines (line_of n)
  fix ←
      build_fix_line printer (is_same_call printer n) (set_callee_attr (codes "sha256"))
        (enclosing_statement pm n) line
  some (
      report (codes "weak_crypto_checker") filename (line_of n) 0 (codes "security") warning
        (codes "hashlib."
          ++ attr
          ++ codes
              "(...) is a cryptographically broken hash algorithm — unsafe for signatures or any "
          ++ codes "integrity check against a hostile party. hashlib.sha256(...) is a safe drop-in "
          ++ codes
              "replacement for general hashing; if this is hashing a PASSWORD specifically, use a "
          ++ codes
              "dedicated password hash (bcrypt/scrypt/argon2) instead of any general-purpose digest, "
          ++ codes "sha256 included.")
        line fix)

unfoldable pub detect_weak_crypto : (Text → Option Node) → Printer → Text → Text → List Finding
unfolding checked has_import filter_map walk splitlines build_parent_map crypto_finding
detect_weak_crypto parse printer code filename = checked parse code (λ tree.
    if has_import (codes "hashlib") (walk tree)
    then filter_map (crypto_finding printer (build_parent_map tree) filename (splitlines code))
        (walk tree)
    else [])
