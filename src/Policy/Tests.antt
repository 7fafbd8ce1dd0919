-- ===== src/Policy/Tests.antt =====
-- A policy delta of three states, and the theorem at it.
use windows_console_driver.Prelude.{
  String, ◌≡◌, ◌↔◌, refl, Option, true, if◌then◌else◌, none, some, List, [], ◌∷◌,
}
use windows_console_driver.Prelude.Dict.{lookup}
use windows_console_driver.Value.{str, list, no_items, item}
use windows_console_driver.Value.Compare.{py_eq}
use windows_console_driver.Categories.{declared_category, first_match, fact_category_rules}
use windows_console_driver.Categories.Glob.{glob}
use windows_console_driver.Envelope.{Facts}
use windows_console_driver.Envelope.Delta.{insert_key, insert_keys, sorted_union}
use windows_console_driver.Policy.{
  DeltaOutcome, satisfiable, cover, compute_changes, changes_of, is_covered,
}
use windows_console_driver.Policy.Scopes.{
  evaluate, sorted_difference, check_forbids, check_extension_lists, check_sysvol_containment,
  check_policies_container, texts_of, listed_guids, guid_token, escapers,
}
use windows_console_driver.Policy.Exact.{ChangesAllowed, evaluate_exact}
use windows_console_driver.Policy.Forbids.{ForbidsClear}

abbrev kept : String → String
kept s = s

abbrev kept_chars : String → String → String
kept_chars chars s = s

abbrev state : String → String → Facts
state stamp path =
    ("ad.gPCMachineExtensionNames", str "[{A}{B}]")
    ∷ ("ad.gPCUserExtensionNames", str "[{C}]")
    ∷ ("ad.whenChanged", str stamp)
    ∷ ("scope.policies.gpc_guids", list (item (str "{G}") no_items))
    ∷ ("scope.sysvol_relpaths", list (item (str path) no_items))
    ∷ []

abbrev before : Facts
before = state "1" "{G}/GPT.INI"

abbrev after : Facts
after = state "2" "{G}/GPT.INI"

abbrev allowed : List String
allowed = "timestamps" ∷ []

abbrev forbidden : List String
forbidden = "D" ∷ []

abbrev outcome_of : Option DeltaOutcome → List String
outcome_of none = "none" ∷ []
outcome_of (some o) = if satisfiable o then "satisfied" ∷ [] else "disproven" ∷ []

abbrev run : Facts → List String → List String
run post guids = outcome_of (evaluate kept kept_chars kept before post allowed guids (some "G"))

evaluate_satisfied : run after forbidden ≡ "satisfied" ∷ []
unfolding evaluate satisfiable cover compute_changes changes_of is_covered sorted_difference
    check_forbids check_extension_lists check_sysvol_containment check_policies_container texts_of
    listed_guids guid_token escapers lookup py_eq declared_category first_match fact_category_rules
    glob insert_key insert_keys sorted_union
evaluate_satisfied = refl

evaluate_listed : run after ("C" ∷ []) ≡ "disproven" ∷ []
unfolding evaluate satisfiable cover compute_changes changes_of is_covered sorted_difference
    check_forbids check_extension_lists check_sysvol_containment check_policies_container texts_of
    listed_guids guid_token escapers lookup py_eq declared_category first_match fact_category_rules
    glob insert_key insert_keys sorted_union
evaluate_listed = refl

evaluate_escaped : run (state "1" "{H}/GPT.INI") forbidden ≡ "disproven" ∷ []
unfolding evaluate satisfiable cover compute_changes changes_of is_covered sorted_difference
    check_forbids check_extension_lists check_sysvol_containment check_policies_container texts_of
    listed_guids guid_token escapers lookup py_eq declared_category first_match fact_category_rules
    glob insert_key insert_keys sorted_union
evaluate_escaped = refl

evaluate_exact_example :
    (o : DeltaOutcome) × (evaluate kept kept_chars kept before after allowed forbidden (some "G")
      ≡ some o)
    × ((satisfiable o ≡ true) ↔ (
        ChangesAllowed before after allowed
        × ForbidsClear kept kept_chars kept before after forbidden (some "G")))
evaluate_exact_example =
    evaluate_exact kept kept_chars kept before after allowed forbidden (some "G") refl
