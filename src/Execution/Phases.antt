-- ===== src/Execution/Phases.antt =====
-- src/wcd/exec_transaction.py: `execute_transaction`, from the lease to the record. Each phase is a
-- function of the phases before it and of what they left. The setup manifest is left out.
use windows_console_driver.Prelude.{
  String, Bool, true, false, Option, none, some, [], ◌∷◌, ◌++◌, ◌==◌, string_eq, if◌then◌else◌,
}
use windows_console_driver.Prelude.Results.{Result, ok, err}
use windows_console_driver.Prelude.Dict.{Dict}
use windows_console_driver.Transaction.{
  Transaction, guard_refused, undeclared_mutation, prepare, arm, resolve, mark_indeterminate,
}
use windows_console_driver.Leases.Registry.{
  LeaseError, lease_held, Lease, Registry, acquire, is_active,
}
use windows_console_driver.Leases.Context.{InteractiveContext}
use windows_console_driver.Envelope.{Facts, Envelope}
use windows_console_driver.Envelope.Report.{
  AssertionStatus, satisfied_status, disproven_status, indeterminate_status,
}
use windows_console_driver.Envelope.Convergence.{ConvergenceResult, Env, converge}
use windows_console_driver.Envelope.Parsing.{EnvelopeFault, parse_envelope}
use windows_console_driver.Predicate.Eval.{Fault}
use windows_console_driver.Categories.{
  FactCategory, structural, volatile, file_mtime, content, identity, unclassified,
  VolatileSubcategory, timestamps, replication_metadata,
}
use windows_console_driver.RunSheets.{phase_sheet}
use windows_console_driver.RunSheets.Channels.{ChannelFault, validate_channel_contract}
use windows_console_driver.RunSheets.Executor.{
  Action, Callbacks, sheet_error, foreign, then_do, execute,
}
use windows_console_driver.Execution.{
  contract_invalid, no_guid, Exception, exec_error, transaction_raised, lease_raised,
  envelope_raised, unforeseen, Raised, lease_unavailable, setup_failed, pre_oracle_failed,
  nothing_crossed, context_unavailable, prepared_over, invocation_begun, prepare_refused,
  sheet_aborted, observation_failed, converged_after, not_converged, characterized, lease_note,
  profile_invalid, Session, Fact, Host, Plan, Record, add_note, on_world, try_do, record_event,
  keep_outcome, abort_indeterminate,
}
use windows_console_driver.Execution.Helper.{helper_context}
use windows_console_driver.Execution.Crossing.{is_attempted, on_commit, classification}
use windows_console_driver.Execution.Ending.{
  no_callbacks, primitives, clean_up, end_aborted, end_cleaned,
}
use windows_console_driver.Execution.Gates.{check_console, check_recovery, check_surface}
use windows_console_driver.Execution.Binding.{envelope_dict}

abbrev pub setup_guid : String
setup_guid = "setup.gpo.guid"

abbrev pub guid_or_zero : Option String → String
guid_or_zero none = "00000000-0000-0000-0000-000000000000"
guid_or_zero (some guid) = if guid == "" then "00000000-0000-0000-0000-000000000000" else guid

-- The finest label that a fact declares.
abbrev pub category_label : FactCategory → Option VolatileSubcategory → String
category_label c (some timestamps) = "timestamps"
category_label c (some replication_metadata) = "replication_metadata"
category_label structural none = "structural"
category_label volatile none = "volatile"
category_label file_mtime none = "file_mtime"
category_label content none = "content"
category_label identity none = "identity"
category_label unclassified none = "unclassified"

unfoldable pub fact_values : Dict Fact → Facts
fact_values [] = []
fact_values ((k, f) ∷ fs) = (k, f.value) ∷ fact_values fs

unfoldable pub fact_labels : Dict Fact → Dict String
fact_labels [] = []
fact_labels ((k, f) ∷ fs) = (k, category_label f.category f.volatile_subcategory) ∷ fact_labels fs

module _ {W : Type 0} (h : Host W) (plan : Plan) where
  -- Section 6: how the transaction ends on a convergence.
  abbrev pub by_status :
      ConvergenceResult → AssertionStatus → Session W → Result Raised (Unit {0}) × Session W
  by_status r satisfied_status s =
      keep_outcome
        (resolve true true "" (h.say (converged_after r.polls r.reproduce_observed)) s.txn) s
  by_status r disproven_status s =
      keep_outcome (resolve false true (h.say (characterized r.assertion)) "" s.txn) s
  by_status r indeterminate_status s =
      keep_outcome
        (mark_indeterminate
          (h.say
            (elim r.reason [ none ↦ characterized r.assertion | some why ↦ not_converged why ]))
          s.txn)
        s

  unfoldable pub settle : ConvergenceResult → Action (Session W) Exception (Unit {0})
  unfolding resolve mark_indeterminate record_event
  settle r s =
      if is_attempted s.txn.state
      then by_status r r.status s
      else keep_outcome
          (mark_indeterminate
            (h.say (elim r.reason [ none ↦ nothing_crossed | some why ↦ not_converged why ])) s.txn)
          s

  abbrev pub after_convergence :
      Option String → Result Fault (Option ConvergenceResult) → Action (Session W) Exception Record
  after_convergence guid (err fault) s =
      end_cleaned h plan guid none (abort_indeterminate h plan (observation_failed fault) s)
  after_convergence guid (ok none) s = (err (foreign (unforeseen "out of fuel")), s)
  after_convergence guid (ok (some r)) s =
      then_do (settle r) (λ _. end_cleaned h plan guid (some r.assertion)) s

  abbrev pub environment : (guid domain : String) → Env W
  environment guid domain = record {
    observe = h.observe guid domain;
    clock = h.monotonic;
    sleep = h.sleep;
  }

  unfoldable pub post_oracle :
      Option String → String → Dict Fact → Envelope → Action (Session W) Exception Record
  unfolding converge settle clean_up fact_values fact_labels abort_indeterminate
  post_oracle guid domain facts envelope s =
      let (r, w) =
        converge (environment (guid_or_zero guid) domain) h.python envelope (fact_values facts)
          (fact_labels facts) s.world in
      after_convergence guid r (record s { world = w })

  -- The envelope is bound and parsed after the gesture; what this raises is not caught.
  abbrev pub with_envelope :
      Option String
      → String
      → Dict Fact
      → Result EnvelopeFault Envelope
      → Action (Session W) Exception Record
  with_envelope guid domain facts (ok envelope) = post_oracle guid domain facts envelope
  with_envelope guid domain facts (err fault) = λ s. (err (foreign (envelope_raised fault)), s)

  unfoldable pub converge_envelope :
      Option String → String → Dict Fact → Action (Session W) Exception Record
  unfolding envelope_dict parse_envelope post_oracle
  converge_envelope guid domain facts = elim (envelope_dict h.substitute h.text_of plan.envelope) [
    | ok fields ↦ with_envelope guid domain facts (parse_envelope h.parse h.strip fields)
    | err m ↦ λ s. (err (foreign (exec_error m)), s)
  ]

  abbrev pub callbacks : Callbacks (Session W) Exception
  callbacks = record {
    on_commit = some (on_commit h plan);
    before_step = none;
    classify = some (classification h plan);
  }

  -- A hard stop and an abort end with a record; another exception passes.
  abbrev pub gesture_failed : Option String → Raised → Action (Session W) Exception Record
  gesture_failed guid (sheet_error m journal) s =
      let s' = abort_indeterminate h plan (sheet_aborted m) s in
      end_cleaned h plan guid none (record s' { steps = s'.steps ++ journal ∷ [] })
  gesture_failed guid (foreign (transaction_raised (undeclared_mutation boundary reason))) s =
      end_cleaned h plan guid none (add_note (profile_invalid boundary reason) (record_event s))
  gesture_failed guid x s = (err x, s)

  unfoldable pub gesture : Option String → String → Dict Fact → Action (Session W) Exception Record
  unfolding execute on_commit phase_sheet converge_envelope clean_up record_event
      abort_indeterminate
  gesture guid domain facts =
      try_do (execute (primitives h plan) callbacks (phase_sheet "gesture" plan.sheet))
        (gesture_failed guid)
        (λ journal s.
          converge_envelope guid domain facts (record s { steps = s.steps ++ journal ∷ [] }))

  abbrev pub lease_active : Option Lease → Registry → Bool × Registry
  lease_active none r = (false, r)
  lease_active (some lease) r = is_active h.lease_clock lease r

  -- Section 5. `prepared_context` is assigned before, so its flag is set.
  unfoldable pub prepare_and_arm : Option String → Action (Session W) Exception (Unit {0})
  unfolding prepare arm record_event is_active
  prepare_and_arm guid s =
      let (active, r) = lease_active s.lease s.registry in
      let s' = record s { registry = r } in
      then_do
        (keep_outcome (
          prepare (record { pre_oracle = true; lease = active; context = true; recovery = true })
            (h.say (prepared_over guid)) s'.txn))
        (λ _ s''. keep_outcome (arm (h.say invocation_begun) s''.txn) s'') s'

  abbrev pub prepare_failed : Option String → Raised → Action (Session W) Exception Record
  prepare_failed guid (foreign (transaction_raised (guard_refused guard reason))) s =
      end_cleaned h plan guid none (abort_indeterminate h plan (prepare_refused reason) s)
  prepare_failed guid x s = (err x, s)

  abbrev pub no_context : Option String → Raised → Action (Session W) Exception Record
  no_context guid (foreign (exec_error m)) s =
      end_cleaned h plan guid none (abort_indeterminate h plan (context_unavailable m) s)
  no_context guid x s = (err x, s)

  unfoldable pub prepared : Option String → String → Dict Fact → Action (Session W) Exception Record
  unfolding helper_context prepare_and_arm gesture clean_up abort_indeterminate
  prepared guid domain facts =
      try_do (helper_context h) (no_context guid) (λ (context : InteractiveContext) s.
        try_do (prepare_and_arm guid) (prepare_failed guid) (λ _. gesture guid domain facts)
          (record s { prepared_context = some context }))

  unfoldable pub pre_oracle : Option String → String → Action (Session W) Exception Record
  unfolding prepared clean_up abort_indeterminate
  pre_oracle guid domain =
      try_do (on_world (h.collect_facts (guid_or_zero guid) domain))
        (λ x s. end_cleaned h plan guid none (abort_indeterminate h plan (pre_oracle_failed x) s))
        (λ facts. prepared guid domain facts)

  abbrev pub needed_guid : Option String → Action (Session W) Exception (Option String)
  needed_guid none s = (err (foreign (exec_error no_guid)), s)
  needed_guid (some guid) s = (ok (some guid), s)

  unfoldable pub run_setup : Action (Session W) Exception (Option String)
  unfolding execute phase_sheet
  run_setup =
      then_do (execute (primitives h plan) no_callbacks (phase_sheet "setup" plan.sheet)) (λ _ s.
        if plan.gpo_transaction then needed_guid (h.output setup_guid s.world) s else (ok none, s))

  abbrev pub setup_ended : Raised → Action (Session W) Exception Record
  setup_ended x s =
      let s' = abort_indeterminate h plan (setup_failed x) s in
      end_cleaned h plan (h.output setup_guid s'.world) none s'

  abbrev pub setup_raised : Raised → Action (Session W) Exception Record
  setup_raised (sheet_error m journal) = setup_ended (sheet_error m journal)
  setup_raised (foreign (exec_error m)) = setup_ended (foreign (exec_error m))
  setup_raised x = λ s. (err x, s)

  unfoldable pub setup : Action (Session W) Exception Record
  unfolding run_setup pre_oracle clean_up abort_indeterminate
  setup =
      then_do (on_world h.domain_dns)
        (λ (domain : String). try_do run_setup setup_raised (λ guid. pre_oracle guid domain))

  -- Sections 1b to 2c, with the lease held.
  unfoldable pub leased : Action (Session W) Exception Record
  unfolding check_console check_recovery check_surface setup
  leased = check_console h plan (check_recovery h plan (check_surface h plan setup))

  abbrev pub with_lease : Result LeaseError Lease × Registry → Action (Session W) Exception Record
  with_lease (ok lease, r) s =
      leased (add_note (lease_note lease.target_id) (record s { lease = some lease; registry = r }))
  with_lease (err (lease_held target holder), r) s =
      end_aborted h plan (lease_unavailable (lease_held target holder)) (record s { registry = r })
  with_lease (err e, r) s = (err (foreign (lease_raised e)), record s { registry = r })

  abbrev pub start : Registry → W → Session W
  start registry world = record {
    txn = windows_console_driver.Transaction.new (some plan.transaction_id);
    registry = registry;
    lease = none;
    prepared_context = none;
    events_out = [];
    notes = [];
    steps = [];
    cleanup = none;
    console = none;
    world = world;
  }

  abbrev pub with_contract : Result ChannelFault (Unit {0}) → Action (Session W) Exception Record
  with_contract (err fault) s = (err (foreign (exec_error (contract_invalid fault))), s)
  with_contract (ok tt) s =
      with_lease (acquire h.lease_clock plan.lease_target plan.lease_holder none s.registry) s

  unfoldable pub execute_transaction : Registry → W → Result Raised Record × Session W
  unfolding validate_channel_contract acquire leased
  execute_transaction registry world =
      with_contract
        (validate_channel_contract plan.sheet plan.channel_contract plan.gpo_transaction)
        (start registry world)
