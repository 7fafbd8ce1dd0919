-- ===== src/RunSheets/Channels.antt =====
-- src/wcd/runsheets.py: `validate_channel_contract`. A set of channels is a list; `gpmc_com` and the
-- other channels are their names. A phase that is no text is not reached for a sheet that was loaded.
pub mod Permits
use windows_console_driver.Prelude.{
  ℕ, suc, String, Bool, true, false, not, ◌&&◌, ◌||◌, Option, none, some, List, [], ◌∷◌, ◌==◌,
  string_eq, any, if◌then◌else◌,
}
use windows_console_driver.Prelude.Results.{Result, ok, err, ◌>>=◌}
use windows_console_driver.Prelude.Dict.{Dict, lookup}
use windows_console_driver.Value.{Value, str, list, dict, Items, no_items, item, Fields, find_field}
use windows_console_driver.Envelope.{member}
use windows_console_driver.Envelope.Delta.{insert_key}
use windows_console_driver.RunSheets.{Step, RunSheet, phase_is}

unfoldable pub orientation_channels_by_action : Dict (List String)
orientation_channels_by_action =
    ("wait_foreground", "hwnd" ∷ [])
    ∷ (("wait_element", "uia" ∷ ("hwnd" ∷ []))
        ∷ (("context", "hwnd" ∷ [])
            ∷ (("dump", "uia" ∷ ("hwnd" ∷ []))
                ∷ (("shot", "screenshot" ∷ ("hwnd" ∷ []))
                    ∷ (("click_element", "uia" ∷ ("hwnd" ∷ []))
                        ∷ (("type_text", "hwnd" ∷ [])
                            ∷ (("key", "hwnd" ∷ []) ∷ (("keys", "hwnd" ∷ []) ∷ []))))))))

unfoldable pub input_actions : List String
input_actions = "click_element" ∷ ("type_text" ∷ ("key" ∷ ("keys" ∷ [])))

unfoldable pub ui_operation_channels : List String
ui_operation_channels = "gpmc_ui" ∷ ("certtmpl_ui" ∷ ("certsrv_ui" ∷ []))

-- The errors of the contract; a step is named by its index.
pub data ChannelFault : Type 0 where
  no_contract oracle_forbidden requery_forbidden : ChannelFault
  bad_role : String → ChannelFault
  setup_not_programmatic setup_forbidden cleanup_not_programmatic cleanup_forbidden :
      ℕ → ChannelFault
  operation_forbidden input_forbidden ui_operation_forbidden : ℕ → ChannelFault
  orientation_missing : ℕ → List String → ChannelFault

abbrev pub Checked : Type 0 → Type 0
Checked A = Result ChannelFault A

-- The texts of a list that holds nothing else.
abbrev pub cons_text : String → Option (List String) → Option (List String)
cons_text s none = none
cons_text s (some ss) = some (s ∷ ss)

unfoldable pub all_texts : Items → Option (List String)
all_texts no_items = some []
all_texts (item (str s) vs) = cons_text s (all_texts vs)
all_texts (item v vs) = none

abbrev pub needed_channels : String → Option (List String) → Checked (List String)
needed_channels role none = err (bad_role role)
needed_channels role (some names) = ok names

unfoldable pub channels : String → Option Value → Checked (List String)
unfolding all_texts
channels role (some (list vs)) = needed_channels role (all_texts vs)
channels role _ = err (bad_role role)

pub record Roles : Type 0 where
  pub setup : List String
  pub operation : List String
  pub orientation : List String
  pub input_delivery : List String
  pub oracle : List String
  pub cleanup : List String

unfoldable pub roles_of : Fields → Checked Roles
unfolding channels find_field
roles_of fs = channels "setup" (find_field "setup" fs) >>= λ setup.
    channels "operation_under_test" (find_field "operation_under_test" fs) >>= λ operation.
    channels "orientation" (find_field "orientation" fs) >>= λ orientation.
    channels "input_delivery" (find_field "input_delivery" fs) >>= λ input_delivery.
    channels "oracle" (find_field "oracle" fs) >>= λ oracle.
    channels "cleanup" (find_field "cleanup" fs) >>= λ cleanup. ok (record {
      setup = setup;
      operation = operation;
      orientation = orientation;
      input_delivery = input_delivery;
      oracle = oracle;
      cleanup = cleanup;
    })

-- `isinstance(item, dict) and "click_element" in item`
abbrev pub is_present : Option Value → Bool
is_present none = false
is_present (some v) = true

unfoldable pub has_click : Items → Bool
unfolding find_field
has_click no_items = false
has_click (item (dict fs) vs) = is_present (find_field "click_element" fs) || has_click vs
has_click (item v vs) = has_click vs

abbrev pub nested_click : Option Value → Bool
nested_click (some (list vs)) = has_click vs
nested_click _ = false

abbrev pub channels_or_none : Option (List String) → List String
channels_or_none none = []
channels_or_none (some names) = names

unfoldable pub required_orientation : Step → List String
unfolding orientation_channels_by_action lookup has_click find_field
required_orientation step =
    let required = channels_or_none (lookup step.action orientation_channels_by_action) in
    if step.action == "keys" && nested_click (find_field "steps" step.params)
    then "uia" ∷ required
    else required

-- `sorted(required - declared)`
unfoldable pub missing_channels : List String → List String → List String
unfolding insert_key
missing_channels [] declared = []
missing_channels (c ∷ cs) declared =
    let rest = missing_channels cs declared in if member c declared then rest else insert_key c rest

abbrev pub is_programmatic : Step → Bool
is_programmatic step = step.action == "guest" || step.action == "host"

abbrev pub require : Bool → ChannelFault → Checked (Unit {0}) → Checked (Unit {0})
require true fault rest = rest
require false fault rest = err fault

abbrev pub declares_com : Option Value → List String → Bool
declares_com (some (str s)) operation = s == "gpmc_com" && member s operation
declares_com _ operation = false

abbrev pub none_missing : ℕ → List String → Checked (Unit {0}) → Checked (Unit {0})
none_missing i [] rest = rest
none_missing i (c ∷ cs) rest = err (orientation_missing i (c ∷ cs))

-- A gesture step that drives the console.
unfoldable pub check_console_step : Roles → ℕ → Step → Checked (Unit {0})
unfolding required_orientation missing_channels input_actions ui_operation_channels
check_console_step roles i step =
    none_missing i (missing_channels (required_orientation step) roles.orientation) (
      require (not (member step.action input_actions) || member "helper_input" roles.input_delivery)
        (input_forbidden i)
        (require
          (not (member step.action input_actions)
            || any (λ c. member c ui_operation_channels) roles.operation)
          (ui_operation_forbidden i) (ok tt)))

unfoldable pub check_step : Roles → ℕ → Step → Checked (Unit {0})
unfolding check_console_step find_field
check_step roles i step =
    let phase = find_field "phase" step.params in
    if phase_is "setup" phase
    then require (is_programmatic step) (setup_not_programmatic i)
        (require (member "powershell" roles.setup) (setup_forbidden i) (ok tt))
    else if phase_is "cleanup" phase
    then require (is_programmatic step) (cleanup_not_programmatic i)
        (require (member "powershell" roles.cleanup) (cleanup_forbidden i) (ok tt))
    else if is_programmatic step
    then require (declares_com (find_field "channel" step.params) roles.operation)
        (operation_forbidden i) (ok tt)
    else check_console_step roles i step

unfoldable pub check_steps : Roles → ℕ → List Step → Checked (Unit {0})
unfolding check_step
check_steps roles i [] = ok tt
check_steps roles i (step ∷ steps) =
    check_step roles i step >>= λ _. check_steps roles (suc i) steps

unfoldable pub validate_channel_contract : RunSheet → Option Value → Bool → Checked (Unit {0})
unfolding roles_of check_steps
validate_channel_contract sheet (some (dict fs)) require_programmatic_requery =
    roles_of fs >>= λ roles. require (member "gpo_observers" roles.oracle) oracle_forbidden (
      require (not require_programmatic_requery || member "programmatic_requery" roles.cleanup)
        requery_forbidden (check_steps roles 0 sheet.steps))
validate_channel_contract sheet contract require_programmatic_requery = err no_contract
