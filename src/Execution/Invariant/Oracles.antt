-- ===== src/Execution/Invariant/Oracles.antt =====
-- The gesture and the post-oracle end as an execution should end.
use windows_console_driver.Prelude.{
  String, ◌≡◌, refl, Option, none, some, [], ◌∷◌, ◌++◌, string_eq, option_eq,
}
use windows_console_driver.Prelude.Results.{Result, ok, err}
use windows_console_driver.Prelude.Dict.{Dict, lookup}
use windows_console_driver.Value.{Fields}
use windows_console_driver.Transaction.{guard_refused, replay_forbidden, undeclared_mutation}
use windows_console_driver.Leases.Registry.{Lease}
use windows_console_driver.Leases.Context.{InteractiveContext}
use windows_console_driver.Envelope.{Envelope}
use windows_console_driver.Envelope.Convergence.{ConvergenceResult, converge}
use windows_console_driver.Envelope.Parsing.{EnvelopeFault, parse_envelope}
use windows_console_driver.Predicate.Eval.{Fault}
use windows_console_driver.RunSheets.{phase_sheet}
use windows_console_driver.RunSheets.Executor.{
  Journal, sheet_error, foreign, Action, then_do, execute,
}
use windows_console_driver.RunSheets.Executor.Keeps.{Leaves}
use windows_console_driver.Execution.{
  ExecMessage, Exception, exec_error, transaction_raised, lease_raised, envelope_raised, unforeseen,
  Raised, sheet_aborted, profile_invalid, Fact, Session, Host, Plan, Record,
}
use windows_console_driver.Execution.Ending.{primitives, end_cleaned}
use windows_console_driver.Execution.Binding.{envelope_dict}
use windows_console_driver.Execution.Phases.{
  guid_or_zero, fact_values, fact_labels, settle, after_convergence, environment, post_oracle,
  with_envelope, converge_envelope, callbacks, gesture_failed, gesture,
}
use windows_console_driver.Execution.Invariant.{Running, Passing, Opening}
use windows_console_driver.Execution.Invariant.Arming.{Ready}
use windows_console_driver.Execution.Invariant.Crossings.{gesture-Crossing}
use windows_console_driver.Execution.Invariant.Endings.{
  abort-Ending, Stopped-Ending, Settles, settle-Settles,
}
use windows_console_driver.Execution.Invariant.Steps.{gesture-Keeps}
use windows_console_driver.Execution.Invariant.Records.{Ends}
use windows_console_driver.Execution.Invariant.Walk.{try_do-Ended, end_cleaned-Ended, abort_cleaned}

module _ {W : Type 0} (h : Host W) (plan : Plan) (l : Lease) (ls : Dict Lease)
    (forever : l.expires_at ≡ none) (listed : lookup l.target_id ls ≡ some l)
    (whole : Result Raised Record × Session W) where
  abbrev P : Session W → Type 0
  P = Running h plan l ls

  abbrev F : Exception → Session W → Type 0
  F = Passing h plan l ls

  abbrev Ended : Result Raised Record × Session W → Type 0
  Ended = Ends h plan l ls whole forever listed

  after_settle :
      (guid : Option String) (r : ConvergenceResult) (s : Session W)
      (x : Result Raised (Unit {0}) × Session W)
      → Settles h plan l ls whole (some r.assertion) x
      → Ended (then_do (λ (_ : Session W). x) (λ _. end_cleaned h plan guid (some r.assertion)) s)
  after_settle guid r s (ok tt, s') q =
      end_cleaned-Ended h plan l ls forever listed whole guid (some r.assertion) s' q
  after_settle guid r s (err x, s') q = tt

  module _ (guid : Option String) (domain : String) (facts : Dict Fact)
      (context : InteractiveContext) (start : Session W) (ready : Ready h plan context start)
      (opening : Opening h plan whole guid domain facts context start) where
    module _ (journal : Journal) (stop : Session W)
        (gestured : execute
            (primitives h plan)
            (callbacks h plan)
            (phase_sheet "gesture" plan.sheet)
            start
          ≡ (ok journal, stop))
        (q : P stop) where
      abbrev after : Session W
      after = record stop { steps = stop.steps ++ journal ∷ [] }

      post_oracle-Ended :
          (bound_fields : Fields) (envelope : Envelope)
          → envelope_dict h.substitute h.text_of plan.envelope ≡ ok bound_fields
          → parse_envelope h.parse h.strip bound_fields ≡ ok envelope
          → Ended (post_oracle h plan guid domain facts envelope after)
      unfolding post_oracle
      post_oracle-Ended bound_fields envelope bound parsed =
          by_result
            (converge (environment h plan (guid_or_zero guid) domain) h.python envelope
              (fact_values facts) (fact_labels facts) stop.world)
            refl
        where
          by_result :
              (x : Result Fault (Option ConvergenceResult) × W)
              → converge
                  (environment h plan (guid_or_zero guid) domain)
                  h.python
                  envelope
                  (fact_values facts)
                  (fact_labels facts)
                  stop.world
                ≡ x
              → Ended (after_convergence h plan guid x.0 (record after { world = x.1 }))
          by_result (err fault, w) e =
              abort_cleaned h plan l ls forever listed whole guid _ (record after { world = w }) q
          by_result (ok none, w) e = tt
          by_result (ok (some r), w) e =
              after_settle guid r (record after { world = w })
                (settle h plan r (record after { world = w }))
                (settle-Settles h plan l ls whole r (record after { world = w }) q
                  (λ status reached attempted. record {
                    guid = guid;
                    domain = domain;
                    facts = facts;
                    context = context;
                    start = start;
                    stop = stop;
                    journal = journal;
                    fields = bound_fields;
                    envelope = envelope;
                    result = r;
                    end = w;
                    opening = opening;
                    gestured = gestured;
                    crossing =
                        gesture-Crossing h plan context start (phase_sheet "gesture" plan.sheet)
                          journal stop gestured ready.0 ready.1 attempted;
                    bound = bound;
                    parsed = parsed;
                    converged = e;
                    status_is = reached;
                    kept = refl;
                  }))

      converge_envelope-Ended : Ended (converge_envelope h plan guid domain facts after)
      unfolding converge_envelope
      converge_envelope-Ended = by_fields (envelope_dict h.substitute h.text_of plan.envelope) refl
        where
          by_envelope :
              (bound_fields : Fields)
              → envelope_dict h.substitute h.text_of plan.envelope ≡ ok bound_fields
              → (r : Result EnvelopeFault Envelope)
              → parse_envelope h.parse h.strip bound_fields ≡ r
              → Ended (with_envelope h plan guid domain facts r after)
          by_envelope bound_fields bound (ok envelope) parsed =
              post_oracle-Ended bound_fields envelope bound parsed
          by_envelope bound_fields bound (err fault) parsed = tt

          by_fields :
              (r : Result ExecMessage Fields)
              → envelope_dict h.substitute h.text_of plan.envelope ≡ r
              → Ended (
                  (elim r as (λ _. Action (Session W) Exception Record) [
                    | ok bound_fields ↦
                        with_envelope h plan guid domain facts
                          (parse_envelope h.parse h.strip bound_fields)
                    | err m ↦ λ s. (err (foreign (exec_error m)), s)
                  ])
                    after)
          by_fields (ok bound_fields) bound =
              by_envelope bound_fields bound (parse_envelope h.parse h.strip bound_fields) refl
          by_fields (err m) bound = tt

    gesture_failed-Ended :
        (x : Raised) (s : Session W)
        → Leaves P F {A = Journal} (err x, s)
        → Ended (gesture_failed h plan guid x s)
    gesture_failed-Ended (sheet_error m journal) s q =
        end_cleaned-Ended h plan l ls forever listed whole guid none _
          (abort-Ending h plan l ls whole (sheet_aborted m) s q)
    gesture_failed-Ended (foreign (transaction_raised (undeclared_mutation b r))) s q =
        end_cleaned-Ended h plan l ls forever listed whole guid none _
          (Stopped-Ending h plan l ls whole (profile_invalid b r) s q)
    gesture_failed-Ended (foreign (transaction_raised (guard_refused g r))) s q = tt
    gesture_failed-Ended (foreign (transaction_raised (replay_forbidden r))) s q = tt
    gesture_failed-Ended (foreign (exec_error m)) s q = tt
    gesture_failed-Ended (foreign (lease_raised e)) s q = tt
    gesture_failed-Ended (foreign (envelope_raised e)) s q = tt
    gesture_failed-Ended (foreign (unforeseen text)) s q = tt

    pub gesture-Ended : P start → Ended (gesture h plan guid domain facts start)
    unfolding gesture
    gesture-Ended q =
        try_do-Ended h plan l ls forever listed whole
          (execute (primitives h plan) (callbacks h plan) (phase_sheet "gesture" plan.sheet))
          (gesture_failed h plan guid)
          (λ journal s.
            converge_envelope h plan guid domain facts
              (record s { steps = s.steps ++ journal ∷ [] }))
          start (gesture-Keeps h plan l ls (phase_sheet "gesture" plan.sheet) start q)
          gesture_failed-Ended
          (λ journal stop gestured q'. converge_envelope-Ended journal stop gestured q')
