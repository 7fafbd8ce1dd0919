-- ===== src/Policy/Scopes.antt =====
-- src/gpo_observers/delta.py: the checks of the forbid scopes, and the evaluation. `strip`, `strip_chars`
-- and `upper` are `str.strip`, without and with characters, and `str.upper`.
use Prim.Native.String.{◌++◌}
use Prim.Native.String
use text.Mathlib.Text.{find?}
use mathlib.Core.List.{◌++◌ as ◌++L◌}
use windows_console_driver.Prelude.{
  String, Bool, true, false, Option, none, some, List, [], ◌∷◌, ◌==◌, string_eq, any, length,
  if◌then◌else◌,
}
use windows_console_driver.Prelude.Dict.{lookup}
use windows_console_driver.Value.{Value, str, list, Items, no_items, item}
use windows_console_driver.Envelope.{Facts, member}
use windows_console_driver.Envelope.Delta.{insert_key}
use windows_console_driver.Policy.{
  ForbidViolation, list_absent, guid_listed, paths_absent, paths_outside, objects_absent,
  objects_malformed, objects_differ, DeltaOutcome, compute_changes, cover,
}

-- The texts of a list; other items are left out.
unfoldable pub texts_of : Items → List String
texts_of no_items = []
texts_of (item (str s) vs) = s ∷ texts_of vs
texts_of (item v vs) = texts_of vs

-- `sorted(a - b)`
unfoldable pub sorted_difference : List String → List String → List String
unfolding insert_key
sorted_difference [] b = []
sorted_difference (x ∷ a) b =
    let rest = sorted_difference a b in if member x b then rest else insert_key x rest

abbrev pub is_missing : Option Value → Bool
is_missing none = true
is_missing (some v) = false

abbrev pub objects_report : (gained lost : List String) → List ForbidViolation
objects_report [] [] = []
objects_report gained lost = objects_differ gained lost ∷ []

unfoldable pub check_policies_container : Option Value → Option Value → List ForbidViolation
unfolding texts_of sorted_difference
check_policies_container (some (list a)) (some (list b)) =
    objects_report (sorted_difference (texts_of b) (texts_of a))
      (sorted_difference (texts_of a) (texts_of b))
check_policies_container (some a) (some b) = objects_malformed ∷ []
check_policies_container pre post = objects_absent (is_missing pre) (is_missing post) ∷ []

abbrev pub machine_list : String
machine_list = "ad.gPCMachineExtensionNames"

abbrev pub user_list : String
user_list = "ad.gPCUserExtensionNames"

abbrev pub paths_key : String
paths_key = "scope.sysvol_relpaths"

abbrev pub objects_key : String
objects_key = "scope.policies.gpc_guids"

module _ (strip : String → String) (strip_chars : String → String → String)
    (upper : String → String) where
  unfoldable pub guid_token : String → String
  guid_token guid = upper (strip_chars "()" (strip_chars "{}" (strip guid)))

  -- What an extension list of the snapshot gives: a text to search, or a violation.
  abbrev pub list_text : Option Value → List String
  list_text (some (str s)) = upper s ∷ []
  list_text _ = []

  abbrev pub list_missing : String → Option Value → List ForbidViolation → List ForbidViolation
  list_missing key none rest = list_absent key ∷ rest
  list_missing key (some v) rest = rest

  -- `token in value`
  abbrev pub occurs : String → String → Bool
  occurs token value = elim (find? value token) [ none ↦ false | some i ↦ true ]

  abbrev pub braced : String → String
  braced guid = "{" ++ (guid_token guid ++ "}")

  unfoldable pub listed_guids : List String → List String → List ForbidViolation
  unfolding guid_token
  listed_guids [] values = []
  listed_guids (guid ∷ guids) values =
      let rest = listed_guids guids values in
      if any (occurs (braced guid)) values then guid_listed (braced guid) ∷ rest else rest

  unfoldable pub check_extension_lists : Facts → List String → List ForbidViolation
  unfolding lookup listed_guids
  check_extension_lists post [] = []
  check_extension_lists post (guid ∷ guids) = list_missing machine_list (lookup machine_list post) (
      list_missing user_list (lookup user_list post) (
        listed_guids (guid ∷ guids)
          (list_text (lookup machine_list post) ++L list_text (lookup user_list post))))

  -- `relpath.upper().startswith(prefix)`
  abbrev pub is_contained : String → Value → Bool
  is_contained prefix (str s) = String.slice (upper s) 0 (String.len prefix) == prefix
  is_contained prefix v = false

  unfoldable pub escapers : String → Items → List Value
  escapers prefix no_items = []
  escapers prefix (item v vs) =
      let rest = escapers prefix vs in if is_contained prefix v then rest else v ∷ rest

  abbrev pub escaper_report : List Value → List ForbidViolation
  escaper_report [] = []
  escaper_report (v ∷ vs) = paths_outside (length (v ∷ vs)) v ∷ []

  abbrev pub contain_paths : String → Option Value → List ForbidViolation
  contain_paths prefix (some (list vs)) = escaper_report (escapers prefix vs)
  contain_paths prefix _ = paths_absent ∷ []

  unfoldable pub check_sysvol_containment : Facts → Option String → List ForbidViolation
  unfolding lookup escapers guid_token
  check_sysvol_containment post none = []
  check_sysvol_containment post (some guid) =
      contain_paths (braced guid ++ "/") (lookup paths_key post)

  unfoldable pub check_forbids : Facts → Facts → List String → Option String → List ForbidViolation
  unfolding lookup check_extension_lists check_sysvol_containment check_policies_container
  check_forbids pre post forbidden_guids gpo_guid =
      check_extension_lists post forbidden_guids
      ++L (check_sysvol_containment post gpo_guid
          ++L check_policies_container (lookup objects_key pre) (lookup objects_key post))

  abbrev pub sorted_names : List String → List String
  sorted_names names = sorted_difference names []

  -- `none` is the DeltaError for an allowed `unclassified`.
  unfoldable pub evaluate :
      Facts → Facts → List String → List String → Option String → Option DeltaOutcome
  unfolding sorted_difference cover compute_changes check_forbids
  evaluate pre post allowed forbidden_guids gpo_guid =
      if member "unclassified" allowed
      then none
      else some (record {
        changes = cover allowed (compute_changes pre post);
        forbid_violations = check_forbids pre post forbidden_guids gpo_guid;
        allowed_categories = sorted_names allowed;
      })
