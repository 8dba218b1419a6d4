-- ===== src/Analyzers/GuardClaims.antt =====
-- What the findings of the checkers for unguarded accesses, for secrets and for imports claim of the file.
use githubprojectforissueide.Prelude.{length, none, ℕ, List, [], Option, All, Bool, some, refl}
use githubprojectforissueide.Text.{Text, splitlines, codes}
use githubprojectforissueide.Syntax.{line_at}
use githubprojectforissueide.Analyzers.Tree.{Node, walk, nodes, body, targets}
use githubprojectforissueide.Analyzers.Shapes.{filter_map, is_function, has_import}
use githubprojectforissueide.Analyzers.Reports.{report}
use githubprojectforissueide.Analyzers.Utils.{ParentMap, build_parent_map}
use githubprojectforissueide.Analyzers.Located.{
  Yields-known, IsLocated, Yields, found, located, filter_map-All, concat_map-All, once-All,
  checked-All, if-All, All-append,
}
use githubprojectforissueide.Analyzers.NoneAttribute.{
  none_finding, none_findings, detect_unguarded_none_attribute_access,
}
use githubprojectforissueide.Analyzers.HardcodedSecret.{
  secret_finding, secret_findings, detect_hardcoded_secrets, assigns_text,
}
use githubprojectforissueide.Analyzers.Division.{
  zero_finding, literal_zero_division_findings, division_finding, detect_unguarded_division,
}
use githubprojectforissueide.Analyzers.IndexGuard.{
  bounds_finding, literal_out_of_bounds_findings, index_finding, index_findings, max_indices,
  unguarded_index, detect_unguarded_index_access,
}
use githubprojectforissueide.Analyzers.DictKeys.{
  missing_key_finding, missing_key_findings, key_finding, key_findings,
  detect_unguarded_dict_access, json_returning_function_names, json_derived_locals, keys_by_name,
  unguarded_key,
}
use githubprojectforissueide.Analyzers.UnusedImports.{
  Diagnostic, Sorted, deletion_finding, unused_finding, import_findings, detect_unused_imports,
  sort_diagnostics,
}

none_finding-IsLocated :
    (tree : Node) (filename : Text) (lines : List Text) (scope n : Node)
    → Yields (IsLocated lines) (none_finding tree filename lines scope n)
unfolding none_finding
none_finding-IsLocated tree filename lines scope n = search located depth 12

none_findings-IsLocated :
    (tree : Node) (filename : Text) (lines : List Text) (scope : Node)
    → All (IsLocated lines) (none_findings tree filename lines scope)
unfolding none_findings
none_findings-IsLocated tree filename lines scope =
    if-All (IsLocated lines) (is_function scope)
      (filter_map (none_finding tree filename lines scope) (nodes body scope))
      (filter_map-All _ _ (nodes body scope) (none_finding-IsLocated tree filename lines scope))

pub detect_unguarded_none_attribute_access-IsLocated :
    (parse : Text → Option Node) (code filename : Text)
    → All (IsLocated (splitlines code)) (detect_unguarded_none_attribute_access parse code filename)
unfolding detect_unguarded_none_attribute_access
detect_unguarded_none_attribute_access-IsLocated parse code filename =
    checked-All _ parse code _ (λ tree.
      concat_map-All (IsLocated (splitlines code)) _ (walk tree)
        (none_findings-IsLocated tree filename (splitlines code)))

secret_finding-IsLocated :
    (lower_text : Text → Text) (os_imported : Bool) (filename : Text) (lines : List Text)
    (statement n : Node)
    → Yields (IsLocated lines) (secret_finding lower_text os_imported filename lines statement n)
unfolding secret_finding
secret_finding-IsLocated lower_text os_imported filename lines statement n = search located depth 12

secret_findings-IsLocated :
    (lower_text : Text → Text) (os_imported : Bool) (filename : Text) (lines : List Text) (n : Node)
    → All (IsLocated lines) (secret_findings lower_text os_imported filename lines n)
unfolding secret_findings
secret_findings-IsLocated lower_text os_imported filename lines n =
    if-All (IsLocated lines) (assigns_text n)
      (filter_map (secret_finding lower_text os_imported filename lines n) (nodes targets n))
      (filter_map-All _ _ (nodes targets n)
        (secret_finding-IsLocated lower_text os_imported filename lines n))

pub detect_hardcoded_secrets-IsLocated :
    (parse : Text → Option Node) (lower_text : Text → Text) (code filename : Text)
    → All (IsLocated (splitlines code)) (detect_hardcoded_secrets parse lower_text code filename)
unfolding detect_hardcoded_secrets
detect_hardcoded_secrets-IsLocated parse lower_text code filename =
    checked-All _ parse code _ (λ tree. concat_map-All (IsLocated (splitlines code)) _ (walk tree) (
      secret_findings-IsLocated lower_text (has_import (codes "os") (walk tree)) filename
        (splitlines code)))

zero_finding-IsLocated :
    (pm : ParentMap) (tree : Node) (filename : Text) (lines : List Text) (n : Node)
    → Yields (IsLocated lines) (zero_finding pm tree filename lines n)
unfolding zero_finding
zero_finding-IsLocated pm tree filename lines n = search located depth 12

division_finding-IsLocated :
    (pm : ParentMap) (filename : Text) (lines : List Text) (n : Node)
    → Yields (IsLocated lines) (division_finding pm filename lines n)
unfolding division_finding
division_finding-IsLocated pm filename lines n = search located depth 12

pub detect_unguarded_division-IsLocated :
    (parse : Text → Option Node) (code filename : Text)
    → All (IsLocated (splitlines code)) (detect_unguarded_division parse code filename)
unfolding detect_unguarded_division literal_zero_division_findings
detect_unguarded_division-IsLocated parse code filename = checked-All _ parse code _ (λ tree.
    let pm = build_parent_map tree in
    let lines = splitlines code in
    All-append (IsLocated lines) _ _
      (once-All _ [] _
        (filter_map-All _ _ (walk tree) (zero_finding-IsLocated pm tree filename lines)))
      (once-All _ [] _
        (filter_map-All _ _ (walk tree) (division_finding-IsLocated pm filename lines))))

bounds_finding-IsLocated :
    (pm : ParentMap) (tree : Node) (filename : Text) (lines : List Text) (n : Node)
    → Yields (IsLocated lines) (bounds_finding pm tree filename lines n)
unfolding bounds_finding
bounds_finding-IsLocated pm tree filename lines n = search located depth 12

index_finding-IsLocated :
    (filename : Text) (lines : List Text) (scope : Node) (e : Text × (ℕ × Text))
    → Yields (IsLocated lines) (index_finding filename lines scope e)
unfolding index_finding
index_finding-IsLocated filename lines scope (t, index) = search located depth 12

index_findings-IsLocated :
    (pm : ParentMap) (filename : Text) (lines : List Text) (scope : Node)
    → All (IsLocated lines) (index_findings pm filename lines scope)
unfolding index_findings
index_findings-IsLocated pm filename lines scope =
    if-All (IsLocated lines) (is_function scope)
      (filter_map (index_finding filename lines scope)
        (max_indices [] (filter_map (unguarded_index pm scope) (walk scope))))
      (filter_map-All _ _ _ (index_finding-IsLocated filename lines scope))

pub detect_unguarded_index_access-IsLocated :
    (parse : Text → Option Node) (code filename : Text)
    → All (IsLocated (splitlines code)) (detect_unguarded_index_access parse code filename)
unfolding detect_unguarded_index_access literal_out_of_bounds_findings
detect_unguarded_index_access-IsLocated parse code filename = checked-All _ parse code _ (λ tree.
    let pm = build_parent_map tree in
    let lines = splitlines code in
    All-append (IsLocated lines) _ _
      (once-All _ [] _
        (filter_map-All _ _ (walk tree) (bounds_finding-IsLocated pm tree filename lines)))
      (concat_map-All (IsLocated lines) _ (walk tree) (index_findings-IsLocated pm filename lines)))

missing_key_finding-IsLocated :
    (repr : Text → Text) (pm : ParentMap) (tree : Node) (filename : Text) (lines : List Text)
    (n : Node)
    → Yields (IsLocated lines) (missing_key_finding repr pm tree filename lines n)
unfolding missing_key_finding
missing_key_finding-IsLocated repr pm tree filename lines n = search located depth 12

key_finding-IsLocated :
    (repr : Text → Text) (filename : Text) (lines : List Text) (scope : Node)
    (locals : List (Text × (ℕ × ℕ))) (e : Text × List Text)
    → Yields (IsLocated lines) (key_finding repr filename lines scope locals e)
unfolding key_finding
key_finding-IsLocated repr filename lines scope locals (t, ks) = search located depth 12

key_findings-IsLocated :
    (repr : Text → Text) (pm : ParentMap) (wrappers : List Text) (filename : Text)
    (lines : List Text) (scope : Node)
    → All (IsLocated lines) (key_findings repr pm wrappers filename lines scope)
unfolding key_findings
key_findings-IsLocated repr pm wrappers filename lines scope =
    let locals = json_derived_locals scope wrappers in
    if-All (IsLocated lines) (is_function scope)
      (filter_map (key_finding repr filename lines scope locals)
        (keys_by_name [] (filter_map (unguarded_key pm scope locals) (walk scope))))
      (filter_map-All _ _ _ (key_finding-IsLocated repr filename lines scope locals))

pub detect_unguarded_dict_access-IsLocated :
    (parse : Text → Option Node) (repr : Text → Text) (code filename : Text)
    → All (IsLocated (splitlines code)) (detect_unguarded_dict_access parse repr code filename)
unfolding detect_unguarded_dict_access missing_key_findings
detect_unguarded_dict_access-IsLocated parse repr code filename =
    checked-All _ parse code _ (λ tree.
      let pm = build_parent_map tree in
      let lines = splitlines code in
      All-append (IsLocated lines) _ _
        (once-All _ [] _ (
          filter_map-All _ _ (walk tree)
            (missing_key_finding-IsLocated repr pm tree filename lines)))
        (concat_map-All (IsLocated lines) _ (walk tree)
          (key_findings-IsLocated repr pm (json_returning_function_names tree) filename lines)))

deletion_finding-IsLocated :
    (filename : Text) (lines : List Text) (e : (ℕ × ℕ) × List Text)
    → Yields (IsLocated lines) (deletion_finding filename lines e)
unfolding deletion_finding report
deletion_finding-IsLocated filename lines (span, ts) =
    Yields-known (line_at lines span.0) _
      (λ line e. found (record { claimed = line; there = e; claims = refl }))

unused_finding-IsLocated :
    (filename : Text) (lines : List Text) (e : ℕ × Text)
    → Yields (IsLocated lines) (unused_finding filename lines e)
unfolding unused_finding
unused_finding-IsLocated filename lines (row, t) = search located depth 12

import_findings-IsLocated :
    (filename : Text) (lines : List Text) (sorted : Sorted)
    → All (IsLocated lines) (import_findings filename lines sorted)
unfolding import_findings
import_findings-IsLocated filename lines (groups, no_fix) =
    All-append _ _ _ (filter_map-All _ _ groups (deletion_finding-IsLocated filename lines))
      (filter_map-All _ _ no_fix (unused_finding-IsLocated filename lines))

pub detect_unused_imports-IsLocated :
    (run_ruff : Text → Text → Option (List Diagnostic)) (code filename : Text)
    → All (IsLocated (splitlines code)) (detect_unused_imports run_ruff code filename)
unfolding detect_unused_imports
detect_unused_imports-IsLocated run_ruff code filename = go (run_ruff code filename)
  where
    go :
        (o : Option (List Diagnostic))
        → All (IsLocated (splitlines code)) (elim o [
          | none ↦ []
          | some diagnostics ↦
              import_findings filename
                (splitlines code)
                (sort_diagnostics (length (splitlines code)) ([], []) diagnostics)
        ])
    go none = tt
    go (some ds) =
        import_findings-IsLocated filename (splitlines code)
          (sort_diagnostics (length (splitlines code)) ([], []) ds)
