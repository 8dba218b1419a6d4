-- ===== src/Analyzers/RuntimeClaims.antt =====
-- What the findings of the checkers that look for errors at run time, other than those for unguarded
-- accesses, claim of the file.
use githubprojectforissueide.Prelude.{List, [], Option, All, Bool}
use githubprojectforissueide.Text.{Text, splitlines}
use githubprojectforissueide.Analyzers.Tree.{Node, walk}
use githubprojectforissueide.Analyzers.Utils.{ParentMap, build_parent_map}
use githubprojectforissueide.Analyzers.Located.{
  IsLocated, Yields, located, filter_map-All, once-All, checked-All,
}
use githubprojectforissueide.Analyzers.Assertion.{
  assertion_finding, detect_guaranteed_assertion_failures,
}
use githubprojectforissueide.Analyzers.ResourceLeak.{leak_finding, detect_unclosed_file_handles}
use githubprojectforissueide.Analyzers.InfiniteRecursion.{
  recursion_finding, detect_unconditional_self_recursion,
}
use githubprojectforissueide.Analyzers.TypeMismatch.{
  mismatch_finding, detect_type_mismatched_addition,
}
use githubprojectforissueide.Analyzers.InvalidMethod.{method_finding, detect_invalid_method_calls}
use githubprojectforissueide.Analyzers.ValueErrors.{value_finding, detect_guaranteed_value_errors}
use githubprojectforissueide.Analyzers.UnstoredParams.{
  unstored_finding, detect_unstored_constructor_params,
}
use githubprojectforissueide.Analyzers.FileExists.{open_finding, detect_unguarded_file_open}

assertion_finding-IsLocated :
    (filename : Text) (lines : List Text) (n : Node)
    → Yields (IsLocated lines) (assertion_finding filename lines n)
unfolding assertion_finding
assertion_finding-IsLocated filename lines n = search located depth 12

pub detect_guaranteed_assertion_failures-IsLocated :
    (parse : Text → Option Node) (code filename : Text)
    → All (IsLocated (splitlines code)) (detect_guaranteed_assertion_failures parse code filename)
unfolding detect_guaranteed_assertion_failures
detect_guaranteed_assertion_failures-IsLocated parse code filename =
    checked-All _ parse code _ (λ tree.
      filter_map-All _ _ (walk tree) (assertion_finding-IsLocated filename (splitlines code)))

leak_finding-IsLocated :
    (pm : ParentMap) (tree : Node) (filename : Text) (lines : List Text) (n : Node)
    → Yields (IsLocated lines) (leak_finding pm tree filename lines n)
unfolding leak_finding
leak_finding-IsLocated pm tree filename lines n = search located depth 12

pub detect_unclosed_file_handles-IsLocated :
    (parse : Text → Option Node) (code filename : Text)
    → All (IsLocated (splitlines code)) (detect_unclosed_file_handles parse code filename)
unfolding detect_unclosed_file_handles
detect_unclosed_file_handles-IsLocated parse code filename = checked-All _ parse code _ (λ tree.
    filter_map-All _ _ (walk tree)
      (leak_finding-IsLocated (build_parent_map tree) tree filename (splitlines code)))

recursion_finding-IsLocated :
    (filename : Text) (lines : List Text) (n : Node)
    → Yields (IsLocated lines) (recursion_finding filename lines n)
unfolding recursion_finding
recursion_finding-IsLocated filename lines n = search located depth 12

pub detect_unconditional_self_recursion-IsLocated :
    (parse : Text → Option Node) (code filename : Text)
    → All (IsLocated (splitlines code)) (detect_unconditional_self_recursion parse code filename)
unfolding detect_unconditional_self_recursion
detect_unconditional_self_recursion-IsLocated parse code filename =
    checked-All _ parse code _ (λ tree.
      filter_map-All _ _ (walk tree) (recursion_finding-IsLocated filename (splitlines code)))

mismatch_finding-IsLocated :
    (tree : Node) (filename : Text) (lines : List Text) (n : Node)
    → Yields (IsLocated lines) (mismatch_finding tree filename lines n)
unfolding mismatch_finding
mismatch_finding-IsLocated tree filename lines n = search located depth 12

pub detect_type_mismatched_addition-IsLocated :
    (parse : Text → Option Node) (code filename : Text)
    → All (IsLocated (splitlines code)) (detect_type_mismatched_addition parse code filename)
unfolding detect_type_mismatched_addition
detect_type_mismatched_addition-IsLocated parse code filename = checked-All _ parse code _ (λ tree.
    filter_map-All _ _ (walk tree) (mismatch_finding-IsLocated tree filename (splitlines code)))

method_finding-IsLocated :
    (has_attribute : Text → Text → Bool) (tree : Node) (filename : Text) (lines : List Text)
    (n : Node)
    → Yields (IsLocated lines) (method_finding has_attribute tree filename lines n)
unfolding method_finding
method_finding-IsLocated has_attribute tree filename lines n = search located depth 12

pub detect_invalid_method_calls-IsLocated :
    (parse : Text → Option Node) (has_attribute : Text → Text → Bool) (code filename : Text)
    → All
        (IsLocated (splitlines code))
        (detect_invalid_method_calls parse has_attribute code filename)
unfolding detect_invalid_method_calls
detect_invalid_method_calls-IsLocated parse has_attribute code filename =
    checked-All _ parse code _ (λ tree.
      filter_map-All _ _ (walk tree)
        (method_finding-IsLocated has_attribute tree filename (splitlines code)))

value_finding-IsLocated :
    (converts : Text → Text → Bool) (pm : ParentMap) (tree : Node) (filename : Text)
    (lines : List Text) (n : Node)
    → Yields (IsLocated lines) (value_finding converts pm tree filename lines n)
unfolding value_finding
value_finding-IsLocated converts pm tree filename lines n = search located depth 12

pub detect_guaranteed_value_errors-IsLocated :
    (parse : Text → Option Node) (converts : Text → Text → Bool) (code filename : Text)
    → All
        (IsLocated (splitlines code))
        (detect_guaranteed_value_errors parse converts code filename)
unfolding detect_guaranteed_value_errors
detect_guaranteed_value_errors-IsLocated parse converts code filename =
    checked-All _ parse code _ (λ tree. once-All _ [] _ (
      filter_map-All _ _ (walk tree)
        (value_finding-IsLocated converts (build_parent_map tree) tree filename (splitlines code))))

unstored_finding-IsLocated :
    (filename : Text) (lines : List Text) (n : Node)
    → Yields (IsLocated lines) (unstored_finding filename lines n)
unfolding unstored_finding
unstored_finding-IsLocated filename lines n = search located depth 12

pub detect_unstored_constructor_params-IsLocated :
    (parse : Text → Option Node) (code filename : Text)
    → All (IsLocated (splitlines code)) (detect_unstored_constructor_params parse code filename)
unfolding detect_unstored_constructor_params
detect_unstored_constructor_params-IsLocated parse code filename =
    checked-All _ parse code _ (λ tree.
      filter_map-All _ _ (walk tree) (unstored_finding-IsLocated filename (splitlines code)))

open_finding-IsLocated :
    (pm : ParentMap) (filename : Text) (lines : List Text) (n : Node)
    → Yields (IsLocated lines) (open_finding pm filename lines n)
unfolding open_finding
open_finding-IsLocated pm filename lines n = search located depth 12

pub detect_unguarded_file_open-IsLocated :
    (parse : Text → Option Node) (code filename : Text)
    → All (IsLocated (splitlines code)) (detect_unguarded_file_open parse code filename)
unfolding detect_unguarded_file_open
detect_unguarded_file_open-IsLocated parse code filename = checked-All _ parse code _ (λ tree.
    once-All _ [] _ (
      filter_map-All _ _ (walk tree)
        (open_finding-IsLocated (build_parent_map tree) filename (splitlines code))))
