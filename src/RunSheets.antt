-- ===== src/RunSheets.antt =====
-- src/wcd/runsheets.py: Step, RunSheet and `load_run_sheet`, over the parsed JSON document.
pub mod Loading
pub mod Channels
pub mod Executor
mod Tests
use Prim.Native.String.{◌++◌}
use windows_console_driver.Prelude.{
  ℕ, String, Bool, true, false, ◌||◌, Option, none, some, List, [], ◌∷◌, ◌==◌, string_eq,
  if◌then◌else◌,
}
use windows_console_driver.Prelude.Results.{Result, ok, err, ◌>>=◌}
use windows_console_driver.Value.{
  Value, null, str, list, dict, Items, no_items, item, Fields, no_fields, field, find_field,
}
use windows_console_driver.Envelope.{member}
use windows_console_driver.Envelope.Parsing.{unknown_keys, closed, parse_entries}

-- The label of a step is a text of its action, its profile action and its parameters.
pub record Step : Type 0 where
  pub action : String
  pub profile_action : Option String
  pub params : Fields

pub record RunSheet : Type 0 where
  pub name : String
  pub surface : String
  pub steps : List Step

unfoldable pub gesture_actions : List String
gesture_actions =
    "guest"
    ∷ ("host"
        ∷ ("wait_foreground"
            ∷ ("wait_element"
                ∷ ("context"
                    ∷ ("dump"
                        ∷ ("click_element"
                            ∷ ("type_text"
                                ∷ ("key" ∷ ("commit" ∷ ("label" ∷ ("shot" ∷ ("keys" ∷ []))))))))))))

unfoldable pub phases : List String
phases = "setup" ∷ ("gesture" ∷ ("cleanup" ∷ []))

-- The errors of the loader; a step is named by its index.
pub data SheetFault : Type 0 where
  sheet_not_object needs_name needs_surface needs_steps : SheetFault
  unknown_sheet_keys : List String → SheetFault
  step_not_object unknown_action bad_profile_action bad_phase : ℕ → SheetFault

abbrev pub Loaded : Type 0 → Type 0
Loaded A = Result SheetFault A

unfoldable pub needed_text : SheetFault → Option Value → Loaded String
needed_text fault (some (str s)) = if s == "" then err fault else ok s
needed_text fault _ = err fault

unfoldable pub needed_steps : Option Value → Loaded Items
needed_steps (some (list (item v vs))) = ok (item v vs)
needed_steps _ = err needs_steps

unfoldable pub action_of : ℕ → Option Value → Loaded String
unfolding gesture_actions
action_of i (some (str s)) = if member s gesture_actions then ok s else err (unknown_action i)
action_of i _ = err (unknown_action i)

unfoldable pub profile_action_of : ℕ → Option Value → Loaded (Option String)
profile_action_of i none = ok none
profile_action_of i (some null) = ok none
profile_action_of i (some (str s)) = ok (some s)
profile_action_of i (some v) = err (bad_profile_action i)

-- `{k: v for k, v in raw.items() if k not in ("action", "profile_action")}`
unfoldable pub step_params : Fields → Fields
step_params no_fields = no_fields
step_params (field k v fs) =
    let rest = step_params fs in
    if k == "action" || k == "profile_action" then rest else field k v rest

-- The phase is a text of the vocabulary; the default is one.
unfoldable pub check_phase : ℕ → Option Value → Loaded (Unit {0})
unfolding phases
check_phase i none = ok tt
check_phase i (some (str s)) = if member s phases then ok tt else err (bad_phase i)
check_phase i (some v) = err (bad_phase i)

unfoldable pub load_step : ℕ → Value → Loaded Step
unfolding find_field action_of profile_action_of step_params check_phase
load_step i (dict fs) = action_of i (find_field "action" fs) >>= λ action.
    profile_action_of i (find_field "profile_action" fs) >>= λ profile_action.
    check_phase i (find_field "phase" (step_params fs)) >>= λ _.
    ok (record { action = action; profile_action = profile_action; params = step_params fs })
load_step i v = err (step_not_object i)

-- The name, the surface and the steps, once the keys are known.
unfoldable pub read_sheet : Fields → Loaded RunSheet
unfolding find_field needed_text needed_steps parse_entries load_step
read_sheet fs = needed_text needs_name (find_field "name" fs) >>= λ name.
    needed_text needs_surface (find_field "surface" fs) >>= λ surface.
    needed_steps (find_field "steps" fs) >>= λ raw_steps.
    parse_entries load_step 0 raw_steps >>= λ steps.
    ok (record { name = name; surface = surface; steps = steps })

abbrev pub sheet_keys : List String
sheet_keys = "name" ∷ ("surface" ∷ ("steps" ∷ []))

unfoldable pub load_run_sheet : Value → Loaded RunSheet
unfolding unknown_keys read_sheet
load_run_sheet (dict fs) = closed (unknown_keys sheet_keys fs) unknown_sheet_keys (read_sheet fs)
load_run_sheet v = err sheet_not_object

-- The steps of a phase, in order; a step without one is a gesture.
abbrev pub phase_is : String → Option Value → Bool
phase_is phase none = phase == "gesture"
phase_is phase (some (str s)) = s == phase
phase_is phase (some v) = false

unfoldable pub steps_of_phase : String → List Step → List Step
unfolding find_field
steps_of_phase phase [] = []
steps_of_phase phase (step ∷ steps) =
    let rest = steps_of_phase phase steps in
    if phase_is phase (find_field "phase" step.params) then step ∷ rest else rest

-- `_phase_sheet` of src/wcd/exec_transaction.py.
unfoldable pub phase_sheet : String → RunSheet → RunSheet
unfolding steps_of_phase
phase_sheet phase sheet = record sheet {
  name = sheet.name ++ (":" ++ phase);
  steps = steps_of_phase phase sheet.steps;
}
