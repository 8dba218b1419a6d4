-- ===== src/Analyzers/Grounded.antt =====
-- The findings of the registered checkers, src/analyzers/registry.py, under the trust layer.
use githubprojectforissueide.Prelude.{
  ℕ, zero, suc, ◌<◌, ◌≡◌, refl, sym, ap, ap₂, ◌∙◌, subst, true, List, [], ◌∷◌, ◌++◌, map, Option,
  none, some, All, All-map, arith, inl, inr, Option-cases, select,
}
use githubprojectforissueide.Text.{Text, splitlines, strip, contains}
use githubprojectforissueide.Text.Words.{normalized}
use githubprojectforissueide.Text.Stripped.{normalized-strip, contains_self}
use githubprojectforissueide.Models.{Finding}
use githubprojectforissueide.Syntax.{Python, line_at}
use githubprojectforissueide.Review.Grounding.{is_grounded, is_valid_fix, is_trustworthy}
use githubprojectforissueide.Review.Agents.{Checker, run_checkers}
use githubprojectforissueide.Review.Trust.{is_grounded_iff}
use githubprojectforissueide.Review.Selected.{found_by, select-append}
use githubprojectforissueide.Analyzers.Tree.{Node}
use githubprojectforissueide.Analyzers.Reports.{report}
use githubprojectforissueide.Analyzers.Located.{IsLocated, checked-All}
use githubprojectforissueide.Analyzers.UndefinedNames.{
  UndefinedName, undefined_finding, reported_line, detect_undefined_names,
}
use githubprojectforissueide.Analyzers.Registry.{Tools, registered_checkers}
use githubprojectforissueide.Analyzers.SecurityClaims
use githubprojectforissueide.Analyzers.RuntimeClaims
use githubprojectforissueide.Analyzers.GuardClaims

abbrev IsGrounded : Text → Finding → Type 0
IsGrounded code f = is_grounded f code ≡ true

line_at_pos : (lines : List Text) (n : ℕ) {line : Text} → line_at lines n ≡ some line → 0 < n
unfolding line_at
line_at_pos lines zero h = cc
line_at_pos lines (suc n) h = omega arith

IsLocated-IsGrounded :
    (code : Text) (f : Finding) → IsLocated (splitlines code) f → IsGrounded code f
IsLocated-IsGrounded code f at = (is_grounded_iff f code).1 (
    inr (
      line_at_pos (splitlines code) f.line at.there,
      (
        f.line,
        at.claimed,
        at.there,
        omega arith,
        omega arith,
        subst (λ t. contains t (normalized at.claimed) ≡ true)
            (sym (ap normalized at.claims ∙ normalized-strip at.claimed))
            (contains_self (normalized at.claimed)),
      ),
    ))

All-IsGrounded :
    (code : Text) (fs : List Finding)
    → All (IsLocated (splitlines code)) fs
    → All (IsGrounded code) fs
All-IsGrounded code fs h = All-map _ _ fs (IsLocated-IsGrounded code) h

-- What claims nothing is grounded.
blank-IsGrounded : (code : Text) (f : Finding) → f.bad_code ≡ strip [] → IsGrounded code f
unfolding strip normalized
blank-IsGrounded code f e = (is_grounded_iff f code).1 (inl (rw e refl))

reported_line_missing :
    (lines : List Text) (n : ℕ) → line_at lines n ≡ none → reported_line lines n ≡ []
unfolding reported_line
reported_line_missing lines n e = rw (reported_line, e) refl

reported_line_there :
    (lines : List Text) (n : ℕ) {line : Text}
    → line_at lines n ≡ some line
    → reported_line lines n ≡ line
unfolding reported_line
reported_line_there lines n e = rw (reported_line, e) refl

-- A name that pyflakes reports outside the file claims nothing.
reported_line-IsGrounded :
    (code : Text) (f : Finding)
    → f.bad_code ≡ strip (reported_line (splitlines code) f.line)
    → IsGrounded code f
reported_line-IsGrounded code f e = elim (Option-cases (line_at (splitlines code) f.line)) [
  | inl gone ↦ blank-IsGrounded code f (e ∙ ap strip (reported_line_missing _ _ gone))
  | inr (line, there) ↦ IsLocated-IsGrounded code f (record {
    claimed = line;
    there = there;
    claims = e ∙ ap strip (reported_line_there _ _ there);
  })
]

undefined_finding-IsGrounded :
    (tree : Node) (code filename : Text) (m : UndefinedName)
    → IsGrounded code (undefined_finding tree filename (splitlines code) m)
unfolding undefined_finding report
undefined_finding-IsGrounded tree code filename m =
    reported_line-IsGrounded code (undefined_finding tree filename (splitlines code) m) refl

All-of_map :
    (P : Finding → Type 0) (f : UndefinedName → Finding) (ms : List UndefinedName)
    → ((m : UndefinedName) → P (f m))
    → All P (map f ms)
All-of_map P f [] h = tt
All-of_map P f (m ∷ ms) h = (h m, All-of_map P f ms h)

detect_undefined_names-IsGrounded :
    (parse : Text → Option Node) (messages : Node → Text → List UndefinedName)
    (code filename : Text)
    → All (IsGrounded code) (detect_undefined_names parse messages code filename)
unfolding detect_undefined_names
detect_undefined_names-IsGrounded parse messages code filename =
    checked-All (IsGrounded code) parse code _ (λ tree.
      All-of_map (IsGrounded code) _ (messages tree filename)
        (undefined_finding-IsGrounded tree code filename))

-- Whatever the checkers of some are, they claim what stands in the file.
abbrev GroundedBy : Text → Text → Checker → Type 0
GroundedBy code filename checker = All (IsGrounded code) (checker code filename)

infixr 60 ◌⨾◌
data AllGrounded (code filename : Text) : List Checker → Type 0 where
  no_checkers : AllGrounded code filename []
  ◌⨾◌ :
      {checker : Checker} {checkers : List Checker}
      → GroundedBy code filename checker
      → AllGrounded code filename checkers
      → AllGrounded code filename (checker ∷ checkers)

registered_checkers-AllGrounded :
    (t : Tools) (code filename : Text) → AllGrounded code filename (registered_checkers t)
unfolding registered_checkers
registered_checkers-AllGrounded t code filename =
    let by = All-IsGrounded code in
    by _ (GuardClaims.detect_unguarded_dict_access-IsLocated t.parse t.repr code filename)
    ⨾ by _ (GuardClaims.detect_unguarded_division-IsLocated t.parse code filename)
    ⨾ by _ (RuntimeClaims.detect_unguarded_file_open-IsLocated t.parse code filename)
    ⨾ by _ (RuntimeClaims.detect_unstored_constructor_params-IsLocated t.parse code filename)
    ⨾ by _ (SecurityClaims.detect_unguarded_http_calls-IsLocated t.parse t.printer code filename)
    ⨾ by _ (GuardClaims.detect_hardcoded_secrets-IsLocated t.parse t.lower_text code filename)
    ⨾ by _ (SecurityClaims.detect_sql_injection-IsLocated t.parse code filename)
    ⨾ by _ (SecurityClaims.detect_command_injection-IsLocated t.parse code filename)
    ⨾ by _ (SecurityClaims.detect_unsafe_yaml_load-IsLocated t.parse t.printer code filename)
    ⨾ by _ (
        SecurityClaims.detect_insecure_http_urls-IsLocated t.parse t.lower_text t.printer code
          filename)
    ⨾ by _ (RuntimeClaims.detect_unclosed_file_handles-IsLocated t.parse code filename)
    ⨾ by _ (GuardClaims.detect_unguarded_index_access-IsLocated t.parse code filename)
    ⨾ by _ (GuardClaims.detect_unguarded_none_attribute_access-IsLocated t.parse code filename)
    ⨾ by _ (SecurityClaims.detect_weak_crypto-IsLocated t.parse t.printer code filename)
    ⨾ by _ (SecurityClaims.detect_insecure_deserialization-IsLocated t.parse code filename)
    ⨾ by _ (SecurityClaims.detect_path_traversal-IsLocated t.parse code filename)
    ⨾ by _ (SecurityClaims.detect_zip_slip-IsLocated t.parse code filename)
    ⨾ detect_undefined_names-IsGrounded t.parse t.undefined_names code filename
    ⨾ by _ (GuardClaims.detect_unused_imports-IsLocated t.run_ruff code filename)
    ⨾ by _ (RuntimeClaims.detect_type_mismatched_addition-IsLocated t.parse code filename)
    ⨾ by _
        (RuntimeClaims.detect_invalid_method_calls-IsLocated t.parse t.has_attribute code filename)
    ⨾ by _ (RuntimeClaims.detect_guaranteed_value_errors-IsLocated t.parse t.converts code filename)
    ⨾ by _ (RuntimeClaims.detect_guaranteed_assertion_failures-IsLocated t.parse code filename)
    ⨾ by _ (RuntimeClaims.detect_unconditional_self_recursion-IsLocated t.parse code filename)
    ⨾ no_checkers

select_grounded :
    (py : Python) (code : Text) (fs : List Finding)
    → All (IsGrounded code) fs
    → select (λ f. is_trustworthy py f code) fs ≡ select (λ f. is_valid_fix py f.fix) fs
unfolding select is_trustworthy
select_grounded py code [] h = refl
select_grounded py code (f ∷ fs) h = rw (h.0, select_grounded py code fs h.1) refl

run_checkers_grounded :
    (py : Python) (code filename : Text) (checkers : List Checker)
    → AllGrounded code filename checkers
    → run_checkers py code filename checkers
      ≡ select (λ f. is_valid_fix py f.fix) (found_by code filename checkers)
unfolding run_checkers select
run_checkers_grounded py code filename [] no_checkers = refl
run_checkers_grounded py code filename (checker ∷ checkers) (h ⨾ hs) =
    ap₂ ◌++◌ (select_grounded py code (checker code filename) h)
      (run_checkers_grounded py code filename checkers hs)
    ∙ sym (
        select-append (λ f. is_valid_fix py f.fix) (checker code filename)
          (found_by code filename checkers))

-- The trust layer keeps, in order, exactly those findings of the 24 registered checkers whose fix can be
-- parsed: none of them claims code that is not at its line.
pub registered_checkers_trusted :
    (t : Tools) (py : Python) (code filename : Text)
    → run_checkers py code filename (registered_checkers t)
      ≡ select (λ f. is_valid_fix py f.fix) (found_by code filename (registered_checkers t))
registered_checkers_trusted t py code filename =
    run_checkers_grounded py code filename (registered_checkers t)
      (registered_checkers-AllGrounded t code filename)
