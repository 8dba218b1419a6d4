-- ===== src/Analyzers/SecurityClaims.antt =====
-- What the findings of the checkers that look at calls, for injections and for what makes them unsafe,
-- claim of the file.
use githubprojectforissueide.Prelude.{List, [], Option, All}
use githubprojectforissueide.Text.{Text, splitlines}
use githubprojectforissueide.Analyzers.Tree.{Node, walk}
use githubprojectforissueide.Analyzers.Utils.{ParentMap, build_parent_map}
use githubprojectforissueide.Analyzers.Located.{
  IsLocated, Yields, located, filter_map-All, once-All, checked-All, if-All,
}
use githubprojectforissueide.Analyzers.Rewriting.{Printer}
use githubprojectforissueide.Analyzers.CommandInjection.{command_finding, detect_command_injection}
use githubprojectforissueide.Analyzers.Deserialization.{
  deserialization_finding, detect_insecure_deserialization,
}
use githubprojectforissueide.Analyzers.ZipSlip.{zip_slip_finding, detect_zip_slip}
use githubprojectforissueide.Analyzers.SqlInjection.{sql_finding, detect_sql_injection}
use githubprojectforissueide.Analyzers.PathTraversal.{traversal_finding, detect_path_traversal}
use githubprojectforissueide.Analyzers.HttpTimeout.{timeout_finding, detect_unguarded_http_calls}
use githubprojectforissueide.Analyzers.UnsafeYaml.{yaml_finding, detect_unsafe_yaml_load}
use githubprojectforissueide.Analyzers.WeakCrypto.{crypto_finding, detect_weak_crypto}
use githubprojectforissueide.Analyzers.InsecureHttp.{http_finding, detect_insecure_http_urls}

command_finding-IsLocated :
    (filename : Text) (lines : List Text) (n : Node)
    → Yields (IsLocated lines) (command_finding filename lines n)
unfolding command_finding
command_finding-IsLocated filename lines n = search located depth 12

pub detect_command_injection-IsLocated :
    (parse : Text → Option Node) (code filename : Text)
    → All (IsLocated (splitlines code)) (detect_command_injection parse code filename)
unfolding detect_command_injection
detect_command_injection-IsLocated parse code filename = checked-All _ parse code _ (λ tree.
    if-All _ _ _
      (filter_map-All _ _ (walk tree) (command_finding-IsLocated filename (splitlines code))))

deserialization_finding-IsLocated :
    (filename : Text) (lines : List Text) (n : Node)
    → Yields (IsLocated lines) (deserialization_finding filename lines n)
unfolding deserialization_finding
deserialization_finding-IsLocated filename lines n = search located depth 12

pub detect_insecure_deserialization-IsLocated :
    (parse : Text → Option Node) (code filename : Text)
    → All (IsLocated (splitlines code)) (detect_insecure_deserialization parse code filename)
unfolding detect_insecure_deserialization
detect_insecure_deserialization-IsLocated parse code filename = checked-All _ parse code _ (λ tree.
    if-All _ _ _ (
      filter_map-All _ _ (walk tree)
        (deserialization_finding-IsLocated filename (splitlines code))))

zip_slip_finding-IsLocated :
    (pm : ParentMap) (tree : Node) (filename : Text) (lines : List Text) (n : Node)
    → Yields (IsLocated lines) (zip_slip_finding pm tree filename lines n)
unfolding zip_slip_finding
zip_slip_finding-IsLocated pm tree filename lines n = search located depth 12

pub detect_zip_slip-IsLocated :
    (parse : Text → Option Node) (code filename : Text)
    → All (IsLocated (splitlines code)) (detect_zip_slip parse code filename)
unfolding detect_zip_slip
detect_zip_slip-IsLocated parse code filename = checked-All _ parse code _ (λ tree.
    filter_map-All _ _ (walk tree)
      (zip_slip_finding-IsLocated (build_parent_map tree) tree filename (splitlines code)))

sql_finding-IsLocated :
    (pm : ParentMap) (tree : Node) (filename : Text) (lines : List Text) (n : Node)
    → Yields (IsLocated lines) (sql_finding pm tree filename lines n)
unfolding sql_finding
sql_finding-IsLocated pm tree filename lines n = search located depth 12

pub detect_sql_injection-IsLocated :
    (parse : Text → Option Node) (code filename : Text)
    → All (IsLocated (splitlines code)) (detect_sql_injection parse code filename)
unfolding detect_sql_injection
detect_sql_injection-IsLocated parse code filename = checked-All _ parse code _ (λ tree.
    filter_map-All _ _ (walk tree)
      (sql_finding-IsLocated (build_parent_map tree) tree filename (splitlines code)))

traversal_finding-IsLocated :
    (pm : ParentMap) (filename : Text) (lines : List Text) (n : Node)
    → Yields (IsLocated lines) (traversal_finding pm filename lines n)
unfolding traversal_finding
traversal_finding-IsLocated pm filename lines n = search located depth 12

pub detect_path_traversal-IsLocated :
    (parse : Text → Option Node) (code filename : Text)
    → All (IsLocated (splitlines code)) (detect_path_traversal parse code filename)
unfolding detect_path_traversal
detect_path_traversal-IsLocated parse code filename = checked-All _ parse code _ (λ tree.
    once-All _ [] _ (
      filter_map-All _ _ (walk tree)
        (traversal_finding-IsLocated (build_parent_map tree) filename (splitlines code))))

timeout_finding-IsLocated :
    (printer : Printer) (pm : ParentMap) (filename : Text) (lines : List Text) (n : Node)
    → Yields (IsLocated lines) (timeout_finding printer pm filename lines n)
unfolding timeout_finding
timeout_finding-IsLocated printer pm filename lines n = search located depth 12

pub detect_unguarded_http_calls-IsLocated :
    (parse : Text → Option Node) (printer : Printer) (code filename : Text)
    → All (IsLocated (splitlines code)) (detect_unguarded_http_calls parse printer code filename)
unfolding detect_unguarded_http_calls
detect_unguarded_http_calls-IsLocated parse printer code filename =
    checked-All _ parse code _ (λ tree. if-All _ _ _ (
      filter_map-All _ _ (walk tree)
        (timeout_finding-IsLocated printer (build_parent_map tree) filename (splitlines code))))

yaml_finding-IsLocated :
    (printer : Printer) (pm : ParentMap) (filename : Text) (lines : List Text) (n : Node)
    → Yields (IsLocated lines) (yaml_finding printer pm filename lines n)
unfolding yaml_finding
yaml_finding-IsLocated printer pm filename lines n = search located depth 12

pub detect_unsafe_yaml_load-IsLocated :
    (parse : Text → Option Node) (printer : Printer) (code filename : Text)
    → All (IsLocated (splitlines code)) (detect_unsafe_yaml_load parse printer code filename)
unfolding detect_unsafe_yaml_load
detect_unsafe_yaml_load-IsLocated parse printer code filename = checked-All _ parse code _ (λ tree.
    if-All _ _ _ (
      filter_map-All _ _ (walk tree)
        (yaml_finding-IsLocated printer (build_parent_map tree) filename (splitlines code))))

crypto_finding-IsLocated :
    (printer : Printer) (pm : ParentMap) (filename : Text) (lines : List Text) (n : Node)
    → Yields (IsLocated lines) (crypto_finding printer pm filename lines n)
unfolding crypto_finding
crypto_finding-IsLocated printer pm filename lines n = search located depth 12

pub detect_weak_crypto-IsLocated :
    (parse : Text → Option Node) (printer : Printer) (code filename : Text)
    → All (IsLocated (splitlines code)) (detect_weak_crypto parse printer code filename)
unfolding detect_weak_crypto
detect_weak_crypto-IsLocated parse printer code filename = checked-All _ parse code _ (λ tree.
    if-All _ _ _ (
      filter_map-All _ _ (walk tree)
        (crypto_finding-IsLocated printer (build_parent_map tree) filename (splitlines code))))

http_finding-IsLocated :
    (lower_text : Text → Text) (printer : Printer) (pm : ParentMap) (filename : Text)
    (lines : List Text) (n : Node)
    → Yields (IsLocated lines) (http_finding lower_text printer pm filename lines n)
unfolding http_finding
http_finding-IsLocated lower_text printer pm filename lines n = search located depth 12

pub detect_insecure_http_urls-IsLocated :
    (parse : Text → Option Node) (lower_text : Text → Text) (printer : Printer)
    (code filename : Text)
    → All
        (IsLocated (splitlines code))
        (detect_insecure_http_urls parse lower_text printer code filename)
unfolding detect_insecure_http_urls
detect_insecure_http_urls-IsLocated parse lower_text printer code filename =
    checked-All _ parse code _ (λ tree. filter_map-All _ _ (walk tree) (
      http_finding-IsLocated lower_text printer (build_parent_map tree) filename (splitlines code)))
