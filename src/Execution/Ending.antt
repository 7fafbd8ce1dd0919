-- ===== src/Execution/Ending.antt =====
-- src/wcd/exec_transaction.py: `_cleanup`, and the ends that abort, clean up and finish.
use windows_console_driver.Prelude.{
  ℕ, suc, String, Bool, true, false, Option, none, some, List, [], ◌∷◌, ◌==◌, string_eq,
  if◌then◌else◌,
}
use windows_console_driver.Prelude.Results.{Result, ok, err}
use windows_console_driver.Envelope.Assertion.{AssertionResult}
use windows_console_driver.RunSheets.{Step, steps_of_phase}
use windows_console_driver.RunSheets.Executor.{Journal, Action, Callbacks, Primitives, execute}
use windows_console_driver.Execution.{
  Exception, Raised, Message, Requery, not_queried, remaining, requery_failed, CleanupEntry,
  Session, Host, Plan, Record, on_world, abort_indeterminate, finish,
}

abbrev pub no_callbacks : {W : Type 0} → Callbacks (Session W) Exception
no_callbacks = record { on_commit = none; before_step = none; classify = none }

module _ {W : Type 0} (h : Host W) (plan : Plan) where
  abbrev pub primitives : Primitives (Session W) Exception
  primitives = record {
    interpolate = λ fs. on_world (h.interpolate fs);
    primitive = λ action fs. on_world (h.primitive action fs);
  }

  abbrev pub run_single : Step → Session W → Result Raised Journal × Session W
  run_single step = execute primitives no_callbacks (record plan.sheet { steps = step ∷ [] })

  -- One step at a time, each whatever became of the others.
  unfoldable pub cleanup_steps : ℕ → List Step → Session W → List CleanupEntry × Session W
  unfolding execute
  cleanup_steps index [] s = ([], s)
  cleanup_steps index (step ∷ steps) s =
      let (r, s') = run_single step s in
      let (entries, s'') = cleanup_steps (suc index) steps s' in
      (record { index = index; step = step; result = r } ∷ entries, s'')

  abbrev pub counted : String → Result Raised String → Requery
  counted guid (ok stdout) = remaining guid (h.search_number "remaining" stdout)
  counted guid (err e) = requery_failed e

  -- `if gpo_guid:`
  unfoldable pub requery : Option String → Session W → Requery × Session W
  requery none s = (not_queried, s)
  requery (some guid) s =
      if guid == ""
      then (not_queried, s)
      else let (r, s') = on_world (h.gpos guid) s in (counted guid r, s')

  abbrev pub is_filled : List Step → Bool
  is_filled [] = false
  is_filled (step ∷ steps) = true

  -- Nothing that it runs can raise out of it.
  unfoldable pub clean_up : Option String → Session W → Session W
  unfolding cleanup_steps requery steps_of_phase
  clean_up guid s =
      let steps = steps_of_phase "cleanup" plan.sheet.steps in
      let (entries, s') = cleanup_steps 0 steps s in
      let (absence, s'') = requery guid s' in
      record s'' {
        cleanup = some (record { ran = is_filled steps; journal = entries; requery = absence });
      }

  abbrev pub end_aborted : Message → Action (Session W) Exception Record
  end_aborted reason s = finish h plan none (abort_indeterminate h plan reason s)

  abbrev pub end_cleaned :
      Option String → Option AssertionResult → Action (Session W) Exception Record
  end_cleaned guid assertion s = finish h plan assertion (clean_up guid s)
