-- ===== src/Analyzers/CommandInjection.antt =====
-- src/analyzers/command_injection_checker.py
use githubprojectforissueide.Prelude.{
  Bool, true, false, not, ◌&&◌, ◌||◌, List, [], ◌∷◌, ◌++◌, Option, some, any, all, if◌then◌else◌,
  ◌>>=◌, ◌>>◌, guard,
}
use githubprojectforissueide.Text.{Text, codes, splitlines}
use githubprojectforissueide.Models.{Finding, critical}
use githubprojectforissueide.Syntax.{line_at}
use githubprojectforissueide.Analyzers.Tree.{
  Node, Constant, field, nodes, walk, first_of, boolean, value, func, args, keywords, elts,
}
use githubprojectforissueide.Analyzers.Shapes.{
  holds, one_of, filter_map, attr_of, is_attribute_on, is_call, constant_of, string_of, is_list,
  is_tuple, is_keyword, has_import,
}
use githubprojectforissueide.Analyzers.Utils.{line_of}
use githubprojectforissueide.Analyzers.Reports.{report, checked}

abbrev subprocess_funcs : List Text
subprocess_funcs =
    codes "run" ∷ codes "call" ∷ codes "check_call" ∷ codes "check_output" ∷ codes "Popen" ∷ []

abbrev is_true : Constant → Bool
is_true (boolean b) = b
is_true _ = false

unfoldable pub has_shell_true : Node → Bool
unfolding any nodes is_keyword field constant_of
has_shell_true n =
    any
      (λ kw.
        is_keyword (codes "shell") kw
        && holds (λ v. holds is_true (constant_of v)) (field value kw))
      (nodes keywords n)

unfoldable pub is_literal_text : Node → Bool
unfolding string_of
is_literal_text n = holds (λ s. true) (string_of n)

unfoldable pub is_dynamic_command : Node → Bool
unfolding is_literal_text is_list is_tuple nodes all
is_dynamic_command n =
    if is_literal_text n
    then false
    else if is_list n || is_tuple n
    then not (all is_literal_text (nodes elts n))
    else true

unfoldable pub command_finding : Text → List Text → Node → Option Finding
unfolding is_call field is_attribute_on one_of attr_of has_shell_true nodes first_of
    is_dynamic_command line_of line_at report
command_finding filename lines n = do
  guard (is_call n)
  callee ← field func n
  guard (is_attribute_on (one_of subprocess_funcs) (codes "subprocess") callee)
  attr ← attr_of callee
  guard (has_shell_true n)
  command ← first_of (nodes args n)
  guard (is_dynamic_command command)
  line ← line_at lines (line_of n)
  some (
      report (codes "command_injection_checker") filename (line_of n) 0 (codes "security") critical
        (codes "subprocess."
          ++ attr
          ++ codes
              "(...) runs a dynamically-built command with shell=True — vulnerable to shell command "
          ++ codes
              "injection if any part of the command is influenced by external input. Drop shell=True and "
          ++ codes "pass the command as a list instead (e.g. subprocess.run([cmd, arg1, arg2])).")
        line [])

unfoldable pub detect_command_injection : (Text → Option Node) → Text → Text → List Finding
unfolding checked has_import filter_map walk splitlines command_finding
detect_command_injection parse code filename = checked parse code (λ tree.
    if has_import (codes "subprocess") (walk tree)
    then filter_map (command_finding filename (splitlines code)) (walk tree)
    else [])
