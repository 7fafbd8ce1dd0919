-- ===== src/Execution/Invariant/Preparation.antt =====
-- The setup, the pre-oracle and the preparation end as an execution should end.
use mathlib.Core.Path.{subst}
use windows_console_driver.Prelude.{
  String, ◌≡◌, refl, sym, ap, ◌∙◌, Bool, true, Option, none, some, string_eq, option_eq, if-elim,
  if◌then◌else◌,
}
use windows_console_driver.Prelude.Results.{Result, ok, err}
use windows_console_driver.Prelude.Dict.{Dict, lookup}
use windows_console_driver.Transaction.{
  guard_refused, replay_forbidden, undeclared_mutation, prepare, arm,
}
use windows_console_driver.Leases.Registry.{Lease, Registry}
use windows_console_driver.Leases.Context.{InteractiveContext}
use windows_console_driver.RunSheets.{phase_sheet}
use windows_console_driver.RunSheets.Executor.{sheet_error, foreign, Action, then_do, execute}
use windows_console_driver.RunSheets.Executor.Keeps.{Leaves, then_do-Keeps}
use windows_console_driver.Execution.{
  Exception, exec_error, transaction_raised, lease_raised, envelope_raised, unforeseen,
  setup_failed, pre_oracle_failed, Raised, prepared_over, invocation_begun, Fact, Session, Host,
  Plan, Record, on_world, try_do, keep_outcome, abort_indeterminate,
}
use windows_console_driver.Execution.Helper.{helper_context}
use windows_console_driver.Execution.Ending.{no_callbacks, primitives, end_cleaned}
use windows_console_driver.Execution.Phases.{
  guid_or_zero, gesture, lease_active, prepare_and_arm, prepare_failed, no_context, prepared,
  pre_oracle, setup_guid, needed_guid, run_setup, setup_ended, setup_raised, setup,
}
use windows_console_driver.Execution.Invariant.{Running, Passing}
use windows_console_driver.Execution.Invariant.Calls.{prepare-Keeping, arm-Keeping}
use windows_console_driver.Execution.Invariant.Steps.{
  RunningKeeps, running_world, helper_context-Keeps, setup-Keeps,
}
use windows_console_driver.Execution.Invariant.Records.{active_lease, Ends}
use windows_console_driver.Execution.Invariant.Walk
use windows_console_driver.Execution.Invariant.Walk.{
  then_do-Runs, try_do-Ended, try_do-Runs, abort_cleaned, Plain, on_world-Plain, try_world-Runs,
}
use windows_console_driver.Execution.Invariant.Oracles.{gesture-Ended}
use windows_console_driver.Execution.Invariant.Arming.{armed-Ready}

module _ {W : Type 0} (h : Host W) (plan : Plan) (l : Lease) (ls : Dict Lease)
    (forever : l.expires_at ≡ none) (listed : lookup l.target_id ls ≡ some l)
    (whole : Result Raised Record × Session W) where
  abbrev P : Session W → Type 0
  P = Running h plan l ls

  abbrev F : Exception → Session W → Type 0
  F = Passing h plan l ls

  abbrev Ended : Result Raised Record × Session W → Type 0
  Ended = Ends h plan l ls whole forever listed

  abbrev Runs : Action (Session W) Exception Record → Type 0
  Runs = Walk.Runs h plan l ls forever listed whole

  lease_active-leases :
      (s : Session W)
      → P s
      → (o : Option Lease) → o ≡ some l
      → lease_active h plan o s.registry ≡ (true, s.registry)
  lease_active-leases s q o e =
      subst (λ o. lease_active h plan o s.registry ≡ (true, s.registry)) (sym e)
        (active_lease h.lease_clock l s.registry forever
          (ap (λ x. lookup l.target_id x) q.held ∙ listed))

  prepare_and_arm-Keeps :
      (guid : Option String) → RunningKeeps h plan l ls (prepare_and_arm h plan guid)
  unfolding prepare_and_arm
  prepare_and_arm-Keeps guid s q =
      subst
        (λ (x : Bool × Registry). Leaves P F (
          then_do
            (keep_outcome (
              prepare (record { pre_oracle = true; lease = x.0; context = true; recovery = true })
                (h.say (prepared_over guid)) s.txn))
            (λ _ s''. keep_outcome (arm (h.say invocation_begun) s''.txn) s'')
            (record s { registry = x.1 })))
        (sym (lease_active-leases s q s.lease q.leased))
        (by_result _ (prepare-Keeping h plan l ls _ (h.say (prepared_over guid)) s q))
    where
      by_result :
          (x : Result Raised (Unit {0}) × Session W)
          → Leaves P F x
          → Leaves P F (
              then_do
                (λ (_ : Session W). x)
                (λ _ s''. keep_outcome (arm (h.say invocation_begun) s''.txn) s'')
                s)
      by_result (ok tt, s') q' = arm-Keeping h plan l ls (h.say invocation_begun) s' q'
      by_result (err (sheet_error m j), s') q' = q'
      by_result (err (foreign x), s') q' = q'

  module _ (guid : Option String) (domain : String) where
    prepare_failed-Ended :
        (x : Raised) (s : Session W)
        → Leaves P F {A = Unit {0}} (err x, s)
        → Ended (prepare_failed h plan guid x s)
    prepare_failed-Ended (foreign (transaction_raised (guard_refused g r))) s q =
        abort_cleaned h plan l ls forever listed whole guid _ s q
    prepare_failed-Ended (foreign (transaction_raised (undeclared_mutation b r))) s q = tt
    prepare_failed-Ended (foreign (transaction_raised (replay_forbidden r))) s q = tt
    prepare_failed-Ended (foreign (exec_error m)) s q = tt
    prepare_failed-Ended (foreign (lease_raised e)) s q = tt
    prepare_failed-Ended (foreign (envelope_raised e)) s q = tt
    prepare_failed-Ended (foreign (unforeseen text)) s q = tt
    prepare_failed-Ended (sheet_error m j) s q = tt

    no_context-Ended :
        (x : Raised) (s : Session W)
        → Leaves P F {A = InteractiveContext} (err x, s)
        → Ended (no_context h plan guid x s)
    no_context-Ended (foreign (exec_error m)) s q =
        abort_cleaned h plan l ls forever listed whole guid _ s q
    no_context-Ended (foreign (transaction_raised e)) s q = tt
    no_context-Ended (foreign (lease_raised e)) s q = tt
    no_context-Ended (foreign (envelope_raised e)) s q = tt
    no_context-Ended (foreign (unforeseen text)) s q = tt
    no_context-Ended (sheet_error m j) s q = tt

    module _ (facts : Dict Fact) (at_oracle at_context : Session W)
        (continues : whole ≡ pre_oracle h plan guid domain at_oracle)
        (collected : on_world (h.collect_facts (guid_or_zero guid) domain) at_oracle
          ≡ (ok facts, at_context)) where
      armed-Ended :
          (context : InteractiveContext) (at_prepare : Session W)
          → helper_context h at_context ≡ (ok context, at_prepare)
          → (a : Unit {0}) (g : Session W)
          → prepare_and_arm h plan guid (record at_prepare { prepared_context = some context })
            ≡ (ok a, g)
          → P g
          → Ended (gesture h plan guid domain facts g)
      armed-Ended context at_prepare read a g armed =
          gesture-Ended h plan l ls forever listed whole guid domain facts context g
            (armed-Ready h plan context guid (record at_prepare { prepared_context = some context })
              g refl armed)
            (record {
              at_oracle = at_oracle;
              at_context = at_context;
              at_prepare = at_prepare;
              continues = continues;
              collected = collected;
              read = read;
              armed = armed;
            })

      prepared-Ended : P at_context → Ended (prepared h plan guid domain facts at_context)
      unfolding prepared
      prepared-Ended q =
          try_do-Ended h plan l ls forever listed whole (helper_context h) (no_context h plan guid)
            (λ (context : InteractiveContext) s.
              try_do (prepare_and_arm h plan guid) (prepare_failed h plan guid)
                (λ _. gesture h plan guid domain facts)
                (record s { prepared_context = some context }))
            at_context (helper_context-Keeps h plan l ls at_context q) no_context-Ended
            (λ context s read q'.
              try_do-Ended h plan l ls forever listed whole (prepare_and_arm h plan guid)
                (prepare_failed h plan guid) (λ _. gesture h plan guid domain facts)
                (record s { prepared_context = some context })
                (prepare_and_arm-Keeps guid (record s { prepared_context = some context }) q')
                prepare_failed-Ended (armed-Ended context s read))

  pre_oracle-Runs : (guid : Option String) (domain : String) → Runs (pre_oracle h plan guid domain)
  unfolding pre_oracle
  pre_oracle-Runs guid domain =
      try_world-Runs h plan l ls forever listed whole
        (on_world (h.collect_facts (guid_or_zero guid) domain))
        (λ x s. end_cleaned h plan guid none (abort_indeterminate h plan (pre_oracle_failed x) s))
        (λ facts. prepared h plan guid domain facts)
        (on_world-Plain h plan l ls forever listed whole
          (h.collect_facts (guid_or_zero guid) domain))
        (λ x s q. abort_cleaned h plan l ls forever listed whole guid (pre_oracle_failed x) s q)
        (λ facts s s' collected q continues _.
          prepared-Ended guid domain facts s s' continues collected q)

  needed_guid-Keeps : (o : Option String) → RunningKeeps h plan l ls (needed_guid h plan o)
  needed_guid-Keeps none s q = q
  needed_guid-Keeps (some guid) s q = q

  run_setup-Keeps : RunningKeeps h plan l ls (run_setup h plan)
  unfolding run_setup
  run_setup-Keeps =
      then_do-Keeps P F (execute (primitives h plan) no_callbacks (phase_sheet "setup" plan.sheet))
        (λ _ s.
          if plan.gpo_transaction
          then needed_guid h plan (h.output setup_guid s.world) s
          else (ok none, s))
        (setup-Keeps h plan l ls (phase_sheet "setup" plan.sheet))
        (λ _ s q.
          if-elim (Leaves P F {A = Option String}) plan.gpo_transaction
            (λ _. needed_guid-Keeps (h.output setup_guid s.world) s q) (λ _. q))

  setup_ended-Closes :
      (x : Raised) → Walk.Closes h plan l ls forever listed whole (setup_ended h plan x)
  setup_ended-Closes x s q = abort_cleaned h plan l ls forever listed whole _ (setup_failed x) s q

  setup_raised-Ended :
      (x : Raised) (s : Session W)
      → Leaves P F {A = Option String} (err x, s)
      → Ended (setup_raised h plan x s)
  setup_raised-Ended (sheet_error m j) s q = setup_ended-Closes (sheet_error m j) s q
  setup_raised-Ended (foreign (exec_error m)) s q = setup_ended-Closes (foreign (exec_error m)) s q
  setup_raised-Ended (foreign (transaction_raised e)) s q = tt
  setup_raised-Ended (foreign (lease_raised e)) s q = tt
  setup_raised-Ended (foreign (envelope_raised e)) s q = tt
  setup_raised-Ended (foreign (unforeseen text)) s q = tt

  pub setup-Runs : Runs (setup h plan)
  unfolding setup
  setup-Runs =
      then_do-Runs h plan l ls forever listed whole (on_world h.domain_dns)
        (λ (domain : String).
          try_do (run_setup h plan) (setup_raised h plan) (λ guid. pre_oracle h plan guid domain))
        (running_world h plan l ls h.domain_dns)
        (λ domain.
          try_do-Runs h plan l ls forever listed whole (run_setup h plan) (setup_raised h plan)
            (λ guid. pre_oracle h plan guid domain) run_setup-Keeps setup_raised-Ended
            (λ guid. pre_oracle-Runs guid domain))
