-- ===== src/RunSheets/Tests.antt =====
-- A run sheet that loads and that its contract permits, and executions of it over a counter.
use windows_console_driver.Prelude.{
  ℕ, ◌+◌, String, ◌≡◌, ◌↔◌, refl, Bool, true, Option, none, some, [], ◌∷◌,
}
use windows_console_driver.Prelude.Results.{ok}
use windows_console_driver.Prelude.Dict.{lookup}
use windows_console_driver.Value.{
  Value, str, list, dict, no_items, item, Fields, no_fields, field, find_field,
}
use windows_console_driver.Envelope.Delta.{insert_key}
use windows_console_driver.Envelope.Parsing.{unknown_keys, parse_entries}
use windows_console_driver.RunSheets.{
  Step, RunSheet, gesture_actions, phases, needed_text, needed_steps, action_of, profile_action_of,
  step_params, check_phase, load_step, read_sheet, load_run_sheet, steps_of_phase,
}
use windows_console_driver.RunSheets.Loading.{
  IsLoaded, load_run_sheet-IsLoaded, count, phases_partition,
}
use windows_console_driver.RunSheets.Channels.{validate_channel_contract}
use windows_console_driver.RunSheets.Channels.Permits.{Permits, validate_channel_contract_exact}
use windows_console_driver.RunSheets.Executor.{
  ActionClass, commit_point, done, Journal, Action, Callbacks, Primitives, dispatch_step,
  execute_step, cross_first, attempt_step, run_steps, execute,
}
use windows_console_driver.RunSheets.Executor.Journal.{Journaled, execute-Journaled}
use windows_console_driver.RunSheets.Executor.Crossings.{Passed, execute-Passed}

abbrev prepare_step : Step
prepare_step = record {
  action = "guest";
  profile_action = none;
  params = field "phase" (str "setup") (field "script" (str "new_gpo") no_fields);
}

abbrev apply_step : Step
apply_step = record {
  action = "click_element";
  profile_action = some "apply";
  params = field "name_regex" (str "Apply") no_fields;
}

abbrev sheet : RunSheet
sheet = record { name = "apply"; surface = "gpmc"; steps = prepare_step ∷ (apply_step ∷ []) }

abbrev raw : Value
raw = dict (
    field "name" (str "apply") (
      field "surface" (str "gpmc") (
        field "steps"
          (list (
            item
              (dict (
                field "action" (str "guest")
                  (field "phase" (str "setup") (field "script" (str "new_gpo") no_fields))))
              (item
                (dict (
                  field "action" (str "click_element") (
                    field "profile_action" (str "apply")
                      (field "name_regex" (str "Apply") no_fields))))
                no_items)))
          no_fields)))

loads : load_run_sheet raw ≡ ok sheet
unfolding load_run_sheet read_sheet unknown_keys insert_key find_field needed_text needed_steps
    parse_entries load_step action_of gesture_actions profile_action_of step_params check_phase
    phases
loads = refl

load_run_sheet-IsLoaded_example : IsLoaded sheet
load_run_sheet-IsLoaded_example = load_run_sheet-IsLoaded raw sheet loads

abbrev is_any : Step → Bool
is_any step = true

phases_partition_example :
    count is_any sheet.steps
    ≡ count is_any (steps_of_phase "setup" sheet.steps)
      + count is_any (steps_of_phase "gesture" sheet.steps)
      + count is_any (steps_of_phase "cleanup" sheet.steps)
phases_partition_example =
    phases_partition is_any sheet.steps load_run_sheet-IsLoaded_example.steps_loaded

abbrev contract : Fields
contract = field "setup" (list (item (str "powershell") no_items)) (
    field "operation_under_test" (list (item (str "gpmc_ui") no_items)) (
      field "orientation" (list (item (str "uia") (item (str "hwnd") no_items))) (
        field "input_delivery" (list (item (str "helper_input") no_items)) (
          field "oracle" (list (item (str "gpo_observers") no_items))
            (field "cleanup" (list (item (str "programmatic_requery") no_items)) no_fields)))))

validate_channel_contract_exact_example :
    (validate_channel_contract sheet (some (dict contract)) true ≡ ok tt)
    ↔ Permits (some (dict contract)) true sheet
validate_channel_contract_exact_example =
    validate_channel_contract_exact sheet true (some (dict contract))

-- The state counts the calls: a crossing adds ten, a primitive one.
abbrev primitives : Primitives ℕ String
primitives = record {
  interpolate = λ fs n. (ok fs, n);
  primitive = λ action fs n. (ok no_fields, n + 1);
}

abbrev on_commit : String → Action ℕ String (Unit {0})
on_commit boundary n = (ok tt, n + 10)

abbrev classify : String → Option ActionClass
classify action = lookup action (("apply", commit_point) ∷ [])

abbrev callbacks : Callbacks ℕ String
callbacks = record { on_commit = some on_commit; before_step = none; classify = some classify }

abbrev journal : Journal
journal =
    record { index = 0; step = prepare_step; result = done no_fields }
    ∷ (record { index = 1; step = apply_step; result = done no_fields } ∷ [])

runs : execute primitives callbacks sheet 0 ≡ (ok journal, 12)
unfolding execute run_steps attempt_step cross_first execute_step dispatch_step gesture_actions
    lookup
runs = refl

execute-Journaled_example :
    Journaled primitives callbacks 0 sheet.steps [] 0 (execute primitives callbacks sheet 0)
execute-Journaled_example = execute-Journaled primitives callbacks refl sheet 0

execute-Passed_example : Passed primitives callbacks on_commit sheet.steps 0 12
execute-Passed_example =
    execute-Passed primitives callbacks on_commit refl refl sheet journal 0 12 runs
