-- ===== src/Analyzers/Registry.antt =====
-- The tuple `CHECKERS` and run_all_checkers of src/analyzers/registry.py.
use githubprojectforissueide.Prelude.{Bool, List, [], ◌∷◌, ◌++◌, Option, if◌then◌else◌, select}
use githubprojectforissueide.Text.{Text}
use githubprojectforissueide.Models.{Finding}
use githubprojectforissueide.Analyzers.Tree.{Node}
use githubprojectforissueide.Syntax.{Python}
use githubprojectforissueide.Review.Grounding.{is_trustworthy}
use githubprojectforissueide.Review.Agents.{Checker, run_checkers}
use githubprojectforissueide.Analyzers.Rewriting.{Printer}
use githubprojectforissueide.Analyzers.DictKeys.{detect_unguarded_dict_access}
use githubprojectforissueide.Analyzers.Division.{detect_unguarded_division}
use githubprojectforissueide.Analyzers.FileExists.{detect_unguarded_file_open}
use githubprojectforissueide.Analyzers.UnstoredParams.{detect_unstored_constructor_params}
use githubprojectforissueide.Analyzers.HttpTimeout.{detect_unguarded_http_calls}
use githubprojectforissueide.Analyzers.HardcodedSecret.{detect_hardcoded_secrets}
use githubprojectforissueide.Analyzers.SqlInjection.{detect_sql_injection}
use githubprojectforissueide.Analyzers.CommandInjection.{detect_command_injection}
use githubprojectforissueide.Analyzers.UnsafeYaml.{detect_unsafe_yaml_load}
use githubprojectforissueide.Analyzers.InsecureHttp.{detect_insecure_http_urls}
use githubprojectforissueide.Analyzers.ResourceLeak.{detect_unclosed_file_handles}
use githubprojectforissueide.Analyzers.IndexGuard.{detect_unguarded_index_access}
use githubprojectforissueide.Analyzers.NoneAttribute.{detect_unguarded_none_attribute_access}
use githubprojectforissueide.Analyzers.WeakCrypto.{detect_weak_crypto}
use githubprojectforissueide.Analyzers.Deserialization.{detect_insecure_deserialization}
use githubprojectforissueide.Analyzers.PathTraversal.{detect_path_traversal}
use githubprojectforissueide.Analyzers.ZipSlip.{detect_zip_slip}
use githubprojectforissueide.Analyzers.UndefinedNames.{UndefinedName, detect_undefined_names}
use githubprojectforissueide.Analyzers.UnusedImports.{Diagnostic, detect_unused_imports}
use githubprojectforissueide.Analyzers.TypeMismatch.{detect_type_mismatched_addition}
use githubprojectforissueide.Analyzers.InvalidMethod.{detect_invalid_method_calls}
use githubprojectforissueide.Analyzers.ValueErrors.{detect_guaranteed_value_errors}
use githubprojectforissueide.Analyzers.Assertion.{detect_guaranteed_assertion_failures}
use githubprojectforissueide.Analyzers.InfiniteRecursion.{detect_unconditional_self_recursion}

-- What the checkers ask of Python and of the programs that they call.
pub record Tools : Type 0 where
  pub parse : Text → Option Node
  pub printer : Printer
  pub repr : Text → Text
  pub lower_text : Text → Text
  pub has_attribute : Text → Text → Bool
  pub converts : Text → Text → Bool
  pub undefined_names : Node → Text → List UndefinedName
  pub run_ruff : Text → Text → Option (List Diagnostic)

unfoldable pub registered_checkers : Tools → List Checker
unfolding detect_unguarded_dict_access detect_unguarded_division detect_unguarded_file_open
    detect_unstored_constructor_params detect_unguarded_http_calls detect_hardcoded_secrets
    detect_sql_injection detect_command_injection detect_unsafe_yaml_load detect_insecure_http_urls
    detect_unclosed_file_handles detect_unguarded_index_access
    detect_unguarded_none_attribute_access detect_weak_crypto detect_insecure_deserialization
    detect_path_traversal detect_zip_slip detect_undefined_names detect_unused_imports
    detect_type_mismatched_addition detect_invalid_method_calls detect_guaranteed_value_errors
    detect_guaranteed_assertion_failures detect_unconditional_self_recursion
registered_checkers t =
    detect_unguarded_dict_access t.parse t.repr
    ∷ detect_unguarded_division t.parse
    ∷ detect_unguarded_file_open t.parse
    ∷ detect_unstored_constructor_params t.parse
    ∷ detect_unguarded_http_calls t.parse t.printer
    ∷ detect_hardcoded_secrets t.parse t.lower_text
    ∷ detect_sql_injection t.parse
    ∷ detect_command_injection t.parse
    ∷ detect_unsafe_yaml_load t.parse t.printer
    ∷ detect_insecure_http_urls t.parse t.lower_text t.printer
    ∷ detect_unclosed_file_handles t.parse
    ∷ detect_unguarded_index_access t.parse
    ∷ detect_unguarded_none_attribute_access t.parse
    ∷ detect_weak_crypto t.parse t.printer
    ∷ detect_insecure_deserialization t.parse
    ∷ detect_path_traversal t.parse
    ∷ detect_zip_slip t.parse
    ∷ detect_undefined_names t.parse t.undefined_names
    ∷ detect_unused_imports t.run_ruff
    ∷ detect_type_mismatched_addition t.parse
    ∷ detect_invalid_method_calls t.parse t.has_attribute
    ∷ detect_guaranteed_value_errors t.parse t.converts
    ∷ detect_guaranteed_assertion_failures t.parse
    ∷ detect_unconditional_self_recursion t.parse
    ∷ []

-- `llm_findings` is `get_llm_findings`.
unfoldable pub run_all_checkers :
    Python → List Checker → (Text → Text → List Finding) → Text → Text → Bool → List Finding
unfolding run_checkers select is_trustworthy
run_all_checkers py checkers llm_findings code filename include_llm =
    let findings = run_checkers py code filename checkers in
    if include_llm
    then findings ++ select (λ f. is_trustworthy py f code) (llm_findings code filename)
    else findings
