-- ===== src/Execution/Invariant/Steps.antt =====
-- The helper, the crossing callback and the run-sheet executions keep the invariant.
use windows_console_driver.Prelude.{
  ℕ, suc, String, ◌≡◌, refl, Option, none, some, List, [], ◌∷◌, if-elim, ◌==◌, string_eq,
  if◌then◌else◌,
}
use windows_console_driver.Prelude.Results.{Result, ok, err}
use windows_console_driver.Prelude.Dict.{Dict}
use windows_console_driver.Leases.Registry.{Lease}
use windows_console_driver.Leases.Context.{InteractiveContext, ContextFieldMismatch, assert_context}
use windows_console_driver.Envelope.Assertion.{AssertionResult}
use windows_console_driver.RunSheets.{Step, RunSheet, steps_of_phase}
use windows_console_driver.RunSheets.Executor.{
  ActionClass, orientation_only, reversible_pre_commit, potentially_mutating, commit_point, Journal,
  sheet_error, foreign, Action, execute,
}
use windows_console_driver.RunSheets.Executor.Keeps.{Leaves, Keeps, then_do-Keeps, execute-Keeps}
use windows_console_driver.Execution.{
  ExecMessage, Exception, exec_error, unforeseen, Raised, HostError, sheet_failed, host_failed,
  host_result, helper_failed, HelperResult, context_request, Session, Host, Plan, Record, Requery,
  on_world, try_do, keep_outcome, transaction_raised, lease_raised, envelope_raised,
}
use windows_console_driver.Execution.Helper.{exec_result, helper_context, context_of}
use windows_console_driver.Execution.Crossing.{
  session_only, is_attempted, classification, commit_class, cross, on_match, context_refused,
  cross_from, on_commit,
}
use windows_console_driver.Execution.Ending.{
  no_callbacks, primitives, run_single, cleanup_steps, requery, clean_up,
}
use windows_console_driver.Execution.Phases.{callbacks}
use windows_console_driver.Execution.Invariant.{Running, Ending, Passing}
use windows_console_driver.Execution.Invariant.Calls.{
  commit_declared-Keeping, commit_undeclared-Keeping,
}

-- A property that no change of the world touches, and that a host failure keeps.
module _ {W : Type 0} (P : Session W → Type 0) (F : Exception → Session W → Type 0)
    (worldly : (s : Session W) (w : W) → P s → P (record s { world = w }))
    (passes : (text : String) (s : Session W) → P s → F (unforeseen text) s) where
  pub on_world-Keeps : {A : Type 0} (f : W → Result HostError A × W) → Keeps P F (on_world f)
  on_world-Keeps {A = A} f s q = by_result (f s.world)
    where
      by_result :
          (x : Result HostError A × W) → Leaves P F (host_result x.0, record s { world = x.1 })
      by_result (ok a, w) = worldly s w q
      by_result (err (sheet_failed m), w) = worldly s w q
      by_result (err (host_failed text), w) = passes text (record s { world = w }) (worldly s w q)

  pub executes-Keeps :
      (h : Host W) (plan : Plan) (sheet : RunSheet)
      → Keeps P F (execute (primitives h plan) no_callbacks sheet)
  executes-Keeps h plan sheet =
      execute-Keeps P F (primitives h plan) (λ fs. on_world-Keeps (h.interpolate fs))
        (λ action fs. on_world-Keeps (h.primitive action fs)) no_callbacks tt tt sheet

  module _ (h : Host W) (fails : (m : ExecMessage) (s : Session W) → P s → F (exec_error m) s) where
    exec_result-Keeps : {A : Type 0} (r : Result ExecMessage A) → Keeps P F (exec_result h r)
    exec_result-Keeps (ok a) s q = q
    exec_result-Keeps (err m) s q = fails m s q

    pub context-Keeps : Keeps P F (helper_context h)
    unfolding helper_context
    context-Keeps =
        then_do-Keeps P F (on_world (h.helper context_request))
          (λ (result : HelperResult).
            if result.outcome == "ok"
            then exec_result h (context_of result.payload)
            else exec_result h (err (helper_failed result.error)))
          (on_world-Keeps (h.helper context_request))
          (λ result.
            if-elim (Keeps P F {A = InteractiveContext}) (result.outcome == "ok")
              (λ _. exec_result-Keeps (context_of result.payload))
              (λ _. exec_result-Keeps {A = InteractiveContext} (err (helper_failed result.error))))

module _ {W : Type 0} (h : Host W) (plan : Plan) (l : Lease) (ls : Dict Lease) where
  abbrev P : Session W → Type 0
  P = Running h plan l ls

  abbrev F : Exception → Session W → Type 0
  F = Passing h plan l ls

  abbrev pub RunningKeeps : {A : Type 0} → Action (Session W) Exception A → Type 0
  RunningKeeps = Keeps P F

  abbrev pub running_world :
      {A : Type 0} (f : W → Result HostError A × W) → RunningKeeps (on_world f)
  running_world = on_world-Keeps P F (λ s w q. q) (λ text s q. q)

  pub helper_context-Keeps : RunningKeeps (helper_context h)
  helper_context-Keeps = context-Keeps P F (λ s w q. q) (λ text s q. q) h (λ m s q. q)

  commit_class-Keeps :
      (boundary : String) (s : Session W)
      → P s
      → (o : Option ActionClass) → classification h plan boundary ≡ o
      → Leaves P F (keep_outcome (commit_class h plan o boundary s) s)
  commit_class-Keeps boundary s q (some commit_point) e =
      commit_declared-Keeping h plan l ls boundary _ s q
  commit_class-Keeps boundary s q (some potentially_mutating) e =
      commit_declared-Keeping h plan l ls boundary _ s q
  commit_class-Keeps boundary s q none e = commit_undeclared-Keeping h plan l ls boundary "" s q
  commit_class-Keeps boundary s q (some orientation_only) e =
      commit_undeclared-Keeping h plan l ls boundary "" s q
  commit_class-Keeps boundary s q (some reversible_pre_commit) e =
      commit_undeclared-Keeping h plan l ls boundary "" s q

  cross-Keeps : (boundary : String) (s : Session W) → P s → Leaves P F (cross h plan boundary s)
  unfolding cross
  cross-Keeps boundary s q =
      if-elim (Leaves P F) (is_attempted s.txn.state) (λ _. q)
        (λ _. commit_class-Keeps boundary s q (classification h plan boundary) refl)

  pub on_commit-Keeps : (boundary : String) → RunningKeeps (on_commit h plan boundary)
  unfolding on_commit
  on_commit-Keeps boundary s q = by_context s.prepared_context refl
    where
      by_match :
          (prepared fresh : InteractiveContext) (s' : Session W)
          → s.prepared_context ≡ some prepared
          → helper_context h s ≡ (ok fresh, s')
          → P s'
          → (r : Result (List ContextFieldMismatch) (Unit {0}))
          → assert_context (session_only prepared) (session_only fresh) ≡ r
          → Leaves P F (on_match h plan boundary r s')
      by_match prepared fresh s' at_prepare read q' (ok tt) same = cross-Keeps boundary s' q'
      by_match prepared fresh s' at_prepare read q' (err ms) same = q'

      by_read :
          (prepared : InteractiveContext)
          → s.prepared_context ≡ some prepared
          → (x : Result Raised InteractiveContext × Session W) → helper_context h s ≡ x
          → Leaves P F x
          → Leaves P F (
              try_do
                (λ _. x)
                (context_refused h plan boundary)
                (λ fresh.
                  on_match h plan boundary
                    (assert_context (session_only prepared) (session_only fresh)))
                s)
      by_read prepared e (ok fresh, s') read q' = by_match prepared fresh s' e read q' _ refl
      by_read prepared e (err (sheet_error m j), s') read q' = q'
      by_read prepared e (err (foreign (exec_error m)), s') read q' = q'
      by_read prepared e (err (foreign (transaction_raised y)), s') read q' = q'
      by_read prepared e (err (foreign (lease_raised y)), s') read q' = q'
      by_read prepared e (err (foreign (envelope_raised y)), s') read q' = q'
      by_read prepared e (err (foreign (unforeseen y)), s') read q' = q'

      by_context :
          (o : Option InteractiveContext)
          → s.prepared_context ≡ o
          → Leaves P F (cross_from h plan o boundary s)
      by_context none e = q
      by_context (some prepared) e =
          by_read prepared e (helper_context h s) refl (helper_context-Keeps s q)

  pub gesture-Keeps :
      (sheet : RunSheet) → RunningKeeps (execute (primitives h plan) (callbacks h plan) sheet)
  gesture-Keeps sheet =
      execute-Keeps P F (primitives h plan) (λ fs. running_world (h.interpolate fs))
        (λ action fs. running_world (h.primitive action fs)) (callbacks h plan) on_commit-Keeps tt
        sheet

  pub setup-Keeps :
      (sheet : RunSheet) → RunningKeeps (execute (primitives h plan) no_callbacks sheet)
  setup-Keeps sheet = executes-Keeps P F (λ s w q. q) (λ text s q. q) h plan sheet

  -- A cleanup leaves all that the invariant of an end is about as it is.
  module _ (whole : Result Raised Record × Session W) (a : Option AssertionResult) where
    abbrev E : Session W → Type 0
    E = Ending h plan l ls whole a

    any_end : (x : Result Raised Journal × Session W) → Leaves E (λ _. E) x → E x.1
    any_end (ok j, s) q = q
    any_end (err (sheet_error m j), s) q = q
    any_end (err (foreign x), s) q = q

    cleanup_steps-Ending :
        (i : ℕ) (steps : List Step) (s : Session W) → E s → E (cleanup_steps h plan i steps s).1
    unfolding cleanup_steps
    cleanup_steps-Ending i [] s q = q
    cleanup_steps-Ending i (step ∷ steps) s q =
        cleanup_steps-Ending (suc i) steps (run_single h plan step s).1 (
          any_end (run_single h plan step s) (
            executes-Keeps E (λ _. E) (λ s w q. q) (λ text s q. q) h plan
              (record plan.sheet { steps = step ∷ [] }) s q))

    requery-Ending : (guid : Option String) (s : Session W) → E s → E (requery h plan guid s).1
    unfolding requery
    requery-Ending none s q = q
    requery-Ending (some guid) s q =
        if-elim (λ (x : Requery × Session W). E x.1) (guid == "") (λ _. q) (λ _. q)

    pub clean_up-Ending : (guid : Option String) (s : Session W) → E s → E (clean_up h plan guid s)
    unfolding clean_up
    clean_up-Ending guid s q =
        requery-Ending guid (cleanup_steps h plan 0 (steps_of_phase "cleanup" plan.sheet.steps) s).1
          (cleanup_steps-Ending 0 (steps_of_phase "cleanup" plan.sheet.steps) s q)
