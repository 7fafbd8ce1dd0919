-- ===== src/Execution/Tests.antt =====
-- A whole execution over a counting host, and the theorems at it.
use windows_console_driver.Prelude.{
  ℕ, ◌+◌, String, ◌≡◌, ◌⊎◌, refl, Bool, true, false, none, some, List, [], ◌∷◌, ◌++◌, ◌==◌,
  string_eq, if◌then◌else◌,
}
use windows_console_driver.Prelude.Int.{pos}
use windows_console_driver.Prelude.Results.{Result, ok, err}
use windows_console_driver.Prelude.Dict.{lookup, insert, remove}
use windows_console_driver.Value.{
  int, str, list, dict, no_items, item, Fields, no_fields, field, find_field, to_fields, truth,
}
use windows_console_driver.Value.Compare.{type_error, py_eq, py_compare}
use windows_console_driver.Predicate.{
  Expr, gt_op, name, attribute, compare, no_comparisons, comparison, validate, checked, parsed,
  compile_predicate,
}
use windows_console_driver.Predicate.Paths.{dotted, referenced_paths}
use windows_console_driver.Predicate.Eval.{
  Runtime, eval, evaluate, constant_value, lookup_binding, compare_holds,
}
use windows_console_driver.Envelope.{
  post_side_keys, post_side_paths, require_keys, derive_keys, forbid_keys, predicted_keys,
  is_predicted, keep_new, normalized_keys,
}
use windows_console_driver.Envelope.Delta.{
  insert_key, insert_keys, sorted_union, category_of, add_entry, delta_of, compute_delta, entries,
}
use windows_console_driver.Envelope.Report.{
  satisfied_status, disproven_status, characterize, heading, covered_lines, find_entry,
  unclassified_lines, add_lines,
}
use windows_console_driver.Envelope.Assertion.{
  holds, record_outcome, add_bindings, build_bindings, assert_clauses, judge_forbid,
  unclassified_keys, status_of, conclude, assert_envelope,
}
use windows_console_driver.Envelope.Convergence.{
  converge, poll_loop, poll_on, after_polls, after_assertion, reproduce_loop, reproduced,
  finish as finish_convergence, normalize, same_state,
}
use windows_console_driver.Envelope.Convergence.Frozen.{Verified}
use windows_console_driver.Envelope.Convergence.Refuted.{Refuted}
use windows_console_driver.Envelope.Parsing.{
  unknown_keys, sequence, text_of, pair, parse_entries, positive, parse_convergence, predicate_of,
  parse_require, parse_allow, parse_forbid, parse_derive, parse_list, parse_envelope,
}
use windows_console_driver.Transaction.{
  verified, disproven, is_terminal_state, new, prepare, prepare_from, prepare_fresh, missing_flags,
  arm, arm_from, commit, commit_declared, resolve, resolve_from, resolve_verdict, transition,
  TransitionEvent,
}
use windows_console_driver.Transaction.Diagram.{Chain}
use windows_console_driver.Leases.Registry.{
  Lease, LeaseError, Registry, acquire, contend, grant, is_active, is_live, release,
}
use windows_console_driver.Leases.Registry
use windows_console_driver.Leases.Context.{
  assert_context, context_mismatches, compare_field, foreground_mismatches,
}
use windows_console_driver.Categories.{structural}
use windows_console_driver.RunSheets.{Step, gesture_actions, steps_of_phase, phase_sheet}
use windows_console_driver.RunSheets.Channels.{
  orientation_channels_by_action, input_actions, ui_operation_channels, all_texts, channels,
  roles_of, required_orientation, missing_channels, check_console_step, check_step, check_steps,
  validate_channel_contract,
}
use windows_console_driver.RunSheets.Executor.{
  commit_point, commit_step, dispatch_step, execute_step, cross_first, attempt_step, run_steps,
  execute,
}
use windows_console_driver.Execution.{
  ui_language, Raised, Session, Host, Plan, Record, record_state, last_abort, emit, record_event,
  release_lease, finish,
}
use windows_console_driver.Execution.Helper.{surface_of, context_of, helper_context}
use windows_console_driver.Execution.Crossing.{session_only, classification, cross, on_commit}
use windows_console_driver.Execution.Ending.{cleanup_steps, requery, clean_up}
use windows_console_driver.Execution.Gates.{
  check_console, checkpoint_exists, check_recovery, gate_context, check_baselines, check_surface,
}
use windows_console_driver.Execution.Binding.{
  set_field, bind_clause, bind_clauses, bind_args_into_envelope, envelope_dict,
}
use windows_console_driver.Execution.Phases.{
  environment, guid_or_zero, fact_values, fact_labels, settle, post_oracle, converge_envelope,
  gesture, prepare_and_arm, prepared, pre_oracle, run_setup, setup, leased, start,
  execute_transaction,
}
use windows_console_driver.Execution.Invariant.{Judged, Trail}
use windows_console_driver.Execution.Outcomes.{
  verified_record, disproven_record, record_refines, record_releases,
}

abbrev python : Runtime
python = record { is_same = λ l r a b. false; format = λ f v. err type_error }

-- `post.version > pre.version`
abbrev grown : Expr
grown =
    compare (attribute (name "post") "version")
      (comparison gt_op (attribute (name "pre") "version") no_comparisons)

abbrev context : Fields
context = field "session_id" (int (pos 1)) (field "user" (str "operator") no_fields)

-- The version after the gesture is `after`; each call of the host adds one to the count.
abbrev host : ℕ → Host ℕ
host after = record {
  lease_clock = λ n. n;
  wait_console_unlocked = λ w. (ok (record { state = "unlocked"; helper_responds = true }), w + 1);
  snapshots = λ vm checkpoint w. (ok "count=1", w + 1);
  domain_dns = λ w. (ok "lab.example", w + 1);
  gpos = λ guid w. (ok "remaining=0", w + 1);
  helper = λ request w. (ok (record { outcome = "ok"; payload = context; error = none }), w + 1);
  interpolate = λ fs w. (ok fs, w);
  primitive = λ action fs w. (ok no_fields, w + 1);
  output = λ key w. some "31b2f340-016d-11d2-945f-00c04fb984f9";
  collect_facts = λ guid domain w. (
    ok (
        (
          "version",
          record { value = int (pos 1); category = structural; volatile_subcategory = none },
        )
        ∷ []),
    w + 1,
  );
  observe = λ guid domain w. (("version", int (pos after)) ∷ [], w + 1);
  monotonic = λ w. (w, w);
  sleep = λ n w. w + n;
  say = λ m. "said";
  search_number = λ key text. if key == "count" then some 1 else some 0;
  substitute = λ s. ok s;
  text_of = λ v. "";
  python = python;
  parse = λ s. if s == "post.version > pre.version" then some grown else none;
  strip = λ s. s;
}

abbrev steps : List Step
steps =
    record {
      action = "guest";
      profile_action = none;
      params = field "phase" (str "setup") no_fields;
    }
    ∷ (record {
      action = "commit";
      profile_action = none;
      params = field "boundary" (str "apply") no_fields;
    }
        ∷ (record {
          action = "guest";
          profile_action = none;
          params = field "phase" (str "cleanup") no_fields;
        }
            ∷ []))

abbrev contract : Fields
contract = field "setup" (list (item (str "powershell") no_items)) (
    field "operation_under_test" (list (item (str "gpmc_ui") no_items)) (
      field "orientation" (list no_items) (
        field "input_delivery" (list no_items) (
          field "oracle" (list (item (str "gpo_observers") no_items)) (
            field "cleanup"
              (list (item (str "programmatic_requery") (item (str "powershell") no_items)))
              no_fields)))))

abbrev envelope : Fields
envelope =
    field "require"
      (list (
        item
          (dict (
            field "fact" (str "version")
              (field "predicate" (str "post.version > pre.version") no_fields)))
          no_items))
      no_fields

abbrev plan : Plan
plan = record {
  capability_id = "gpo.version";
  transaction_id = "t1";
  sheet = record { name = "apply"; surface = "gpmc"; steps = steps };
  channel_contract = some (dict contract);
  gpo_transaction = true;
  envelope = some (dict envelope);
  actions = ("apply", commit_point) ∷ [];
  banked_digest = none;
  baseline_values = [];
  lease_target = "wcd.console:host:vm";
  lease_holder = "wcd exec-transaction t1";
  vm_name = "vm";
  checkpoint_name = "qualified";
}

abbrev registry : Registry
registry = Registry.new

abbrev outcome : ℕ → Result Raised Record × Session ℕ
outcome after = execute_transaction (host after) plan registry 0

abbrev empty_record : Record
empty_record = emit plan none (start (host 2) plan registry 0)

abbrev record_in : Result Raised Record → Record
record_in (ok r) = r
record_in (err x) = empty_record

abbrev returned_record : ℕ → Record
returned_record after = record_in (outcome after).0

abbrev last_session : ℕ → Session ℕ
last_session after = (outcome after).1

abbrev is_ok : Result Raised Record → Bool
is_ok (ok r) = true
is_ok (err x) = false

ok-record_in :
    (x : Result Raised Record × Session ℕ) → is_ok x.0 ≡ true → x ≡ (ok (record_in x.0), x.1)
ok-record_in (ok r, s) e = refl
ok-record_in (err x, s) e = absurd (cc e)

-- The run with version 2 is verified; with version 1, which the envelope refuses, disproven.
is_returned :
    (is_ok (outcome 2).0 ≡ true)
    × ((returned_record 2).state ≡ verified)
    × (is_ok (outcome 1).0 ≡ true)
    × ((returned_record 1).state ≡ disproven)
unfolding execute_transaction validate_channel_contract roles_of channels all_texts check_steps
    check_step check_console_step required_orientation orientation_channels_by_action
    missing_channels input_actions ui_operation_channels insert_key acquire contend grant leased
    check_console check_recovery checkpoint_exists check_surface gate_context check_baselines setup
    run_setup phase_sheet steps_of_phase execute run_steps attempt_step cross_first execute_step
    dispatch_step commit_step gesture_actions find_field pre_oracle prepared helper_context
    context_of surface_of truth prepare_and_arm is_active is_live prepare prepare_from prepare_fresh
    missing_flags transition record_event arm arm_from gesture on_commit session_only assert_context
    context_mismatches compare_field foreground_mismatches cross classification lookup insert remove
    commit commit_declared converge_envelope envelope_dict bind_args_into_envelope bind_clauses
    bind_clause set_field parse_envelope parse_list sequence parse_entries parse_require parse_allow
    parse_forbid parse_derive pair unknown_keys predicate_of text_of compile_predicate parsed
    checked validate parse_convergence positive normalized_keys predicted_keys require_keys
    derive_keys forbid_keys post_side_keys post_side_paths referenced_paths dotted keep_new
    post_oracle fact_values fact_labels converge poll_loop poll_on after_polls after_assertion
    reproduce_loop reproduced finish_convergence normalize same_state assert_envelope holds
    record_outcome add_bindings build_bindings assert_clauses judge_forbid unclassified_keys
    status_of conclude compute_delta delta_of add_entry category_of sorted_union insert_keys entries
    characterize heading covered_lines find_entry unclassified_lines add_lines evaluate eval
    constant_value lookup_binding compare_holds is_predicted to_fields py_eq py_compare settle
    resolve resolve_from resolve_verdict clean_up cleanup_steps requery finish release_lease release
    emit record_state last_abort new
is_returned = (refl, refl, refl, refl)

returns : outcome 2 ≡ (ok (returned_record 2), last_session 2)
returns = ok-record_in (outcome 2) is_returned.0

verified_record_example :
    (j : Judged (host 2) plan (outcome 2) satisfied_status (returned_record 2).envelope_result)
    × Verified
        (environment (host 2) plan (guid_or_zero j.guid) j.domain)
        j.envelope
        python
        (fact_values j.facts)
        (fact_labels j.facts)
        j.stop.world
        j.result
verified_record_example =
    verified_record (host 2) plan registry 0 (returned_record 2) (last_session 2) returns
      is_returned.1

disproven_record_example :
    (j : Judged (host 1) plan (outcome 1) disproven_status (returned_record 1).envelope_result)
    × Refuted
        (environment (host 1) plan (guid_or_zero j.guid) j.domain)
        j.envelope
        python
        (fact_values j.facts)
        (fact_labels j.facts)
        j.stop.world
        j.result
disproven_record_example =
    disproven_record (host 1) plan registry 0 (returned_record 1) (last_session 1)
      (ok-record_in (outcome 1) is_returned.2) is_returned.3

record_refines_example :
    (missed : List TransitionEvent) × Trail missed
    × ((last_session 2).txn.events ≡ (returned_record 2).events ++ missed)
    × Chain none 0 (last_session 2).txn.events (last_session 2).txn.state
    × ((returned_record 2).state ≡ record_state (last_session 2).txn.state)
    × (is_terminal_state (returned_record 2).state ≡ true)
record_refines_example =
    record_refines (host 2) plan registry 0 (returned_record 2) (last_session 2) returns

record_releases_example :
    ((l : Lease) × (granted : Registry) × (acquire
          (λ n. n)
          plan.lease_target
          plan.lease_holder
          none
          registry
        ≡ (ok l, granted))
      × ((target : String)
          → lookup target (last_session 2).registry.leases
            ≡ (if plan.lease_target == target then none else lookup target registry.leases)))
    ⊎ ((e : LeaseError) × (refused : Registry) × (acquire
            (λ n. n)
            plan.lease_target
            plan.lease_holder
            none
            registry
          ≡ (err e, refused))
        × ((last_session 2).registry.leases ≡ registry.leases)
        × ((returned_record 2).events ≡ [])
        × ((last_session 2).txn.events ≡ []))
record_releases_example =
    record_releases (host 2) plan registry 0 (returned_record 2) (last_session 2) returns

abbrev held : Lease
held = record {
  ref = 0;
  target_id = plan.lease_target;
  holder = plan.lease_holder;
  acquired_at = 0;
  expires_at = none;
}

-- A profile that banks a language, which the helper of this host does not report.
abbrev banked_plan : Plan
banked_plan = record plan { baseline_values = ui_language "en-US" ∷ [] }

abbrev holding : Session ℕ
holding = record (start (host 2) banked_plan registry 0) {
  registry = record { leases = (plan.lease_target, held) ∷ []; readings = 0; allocated = 1 };
  lease = some held;
}
