-- ===== src/Remediation.antt =====
-- src/core/remediation_guide.py: how to resolve a kind of error or weakness.
mod First
mod Middle
mod Last
pub mod Coverage
use githubprojectforissueide.Prelude.{
  ℕ, ◌+◌, Bool, true, false, ◌&&◌, List, [], ◌∷◌, ◌++◌, map, Option, none, some, all, leb, ltb,
  if◌then◌else◌, ◌>>=◌,
}
use githubprojectforissueide.Text.{Text, codes, text_eq, contains}
use First.{first_entries}
use Middle.{middle_entries}
use Last.{last_entries}

-- `REMEDIATION_GUIDE`
abbrev pub remediation_guide : List (Text × Text)
remediation_guide = first_entries ++ (middle_entries ++ last_entries)

-- `_CHECKER_SOURCE_TO_CATEGORY`
abbrev pub source_categories : List (Text × Text)
source_categories =
    (codes "dict_key_checker", codes "KeyError")
    ∷ (codes "division_guard_checker", codes "ZeroDivisionError")
    ∷ (codes "file_exists_checker", codes "FileNotFoundError")
    ∷ (codes "unstored_constructor_param_checker", codes "AttributeError")
    ∷ (codes "http_timeout_checker", codes "TimeoutError")
    ∷ (codes "hardcoded_secret_checker", codes "Hardcoded Credentials")
    ∷ (codes "sql_injection_checker", codes "SQL Injection")
    ∷ (codes "command_injection_checker", codes "Command Injection")
    ∷ (codes "unsafe_yaml_checker", codes "Insecure Deserialization")
    ∷ (codes "resource_leak_checker", codes "Resource Leak")
    ∷ (codes "index_guard_checker", codes "IndexError")
    ∷ (codes "none_attribute_checker", codes "AttributeError")
    ∷ (codes "weak_crypto_checker", codes "Weak Cryptography")
    ∷ (codes "insecure_deserialization_checker", codes "Insecure Deserialization")
    ∷ (codes "path_traversal_checker", codes "Path Traversal")
    ∷ (codes "zip_slip_checker", codes "Zip Slip")
    ∷ (codes "unused_import_checker", codes "Unused Import")
    ∷ (codes "type_mismatch_checker", codes "TypeError")
    ∷ (codes "invalid_method_checker", codes "AttributeError")
    ∷ (codes "value_error_checker", codes "ValueError")
    ∷ (codes "assertion_checker", codes "AssertionError")
    ∷ (codes "infinite_recursion_checker", codes "RecursionError")
    ∷ []

abbrev pub lower_char : ℕ → ℕ
lower_char c = if leb b'A' c && leb c b'Z' then c + 32 else c

-- `s.lower()`: letter by letter in ASCII, and a parameter beyond.
unfoldable pub lower : (Text → Text) → Text → Text
unfolding all
lower wide s = if all (λ c. ltb c 128) s then map lower_char s else wide s

unfoldable pub guidance_in : (Text → Text) → Text → List (Text × Text) → Option Text
unfolding lower text_eq
guidance_in wide name [] = none
guidance_in wide name ((key, guidance) ∷ entries) =
    let later = guidance_in wide name entries in
    if text_eq (lower wide key) (lower wide name) then some guidance else later

unfoldable pub get_remediation : (Text → Text) → Text → Option Text
unfolding guidance_in
get_remediation wide name = guidance_in wide name remediation_guide

-- `.get(source)`
unfoldable pub category_of : Text → List (Text × Text) → Option Text
unfolding text_eq
category_of source [] = none
category_of source ((s, category) ∷ entries) =
    let later = category_of source entries in if text_eq source s then some category else later

unfoldable pub get_remediation_for_finding : (Text → Text) → Text → Text → Option Text
unfolding text_eq contains get_remediation category_of
get_remediation_for_finding wide source message =
    if text_eq source (codes "undefined_name_checker")
    then get_remediation wide (
        if contains (codes "UnboundLocalError") message
        then codes "UnboundLocalError"
        else codes "NameError")
    else do category ← category_of source source_categories; get_remediation wide category
