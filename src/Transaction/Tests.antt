-- ===== src/Transaction/Tests.antt =====
-- Runs of the machine of src/wcd/transaction.py, and its theorems at concrete calls.
use windows_console_driver.Prelude.{
  ◌≡◌, ◌↔◌, ◌≢◌, refl, true, false, none, some, List, [], ◌∷◌, ◌++◌, ◌≤◌, length, All, arith,
}
use windows_console_driver.Transaction.{
  prepared, armed, commit_attempted, verified, indeterminate, is_terminal_state, Preconditions,
  Transaction, TransitionEvent, new, transition, refuse, refuse_replay, missing_flags,
}
use windows_console_driver.Transaction.Diagram.{◌⟶◌}
use windows_console_driver.Transaction.Calls.{
  Call, prepare_call, arm_call, commit_call, resolve_call, mark_call, call, run,
}
use windows_console_driver.Transaction.Effects.{Effect, call-Effect}
use windows_console_driver.Transaction.Invariant.{IsValid, run-IsValid}
use windows_console_driver.Transaction.Traces.{justifies, Justified, Adds, run-Adds}
use windows_console_driver.Transaction.Replay.{no_replay, states_of, verdict_history}
use windows_console_driver.Transaction.Exact.{ready, call_exact}

abbrev all_recorded : Preconditions
all_recorded = record { pre_oracle = true; lease = true; context = true; recovery = true }

abbrev no_lease : Preconditions
no_lease = record { pre_oracle = true; lease = false; context = true; recovery = true }

-- A refused prepare, a good life, and a late arm.
abbrev good_calls : List Call
good_calls =
    prepare_call no_lease ""
    ∷ prepare_call all_recorded ""
    ∷ arm_call "start"
    ∷ commit_call "ok_button" true ""
    ∷ resolve_call true true "" ""
    ∷ arm_call ""
    ∷ []

abbrev undeclared_calls : List Call
undeclared_calls =
    prepare_call all_recorded ""
    ∷ arm_call ""
    ∷ commit_call "apply" false ""
    ∷ resolve_call true true "" ""
    ∷ []

good_ends_verified : (run (new none) good_calls).state ≡ some verified
unfolding run call new transition refuse refuse_replay missing_flags
good_ends_verified = refl

undeclared_ends_indeterminate : (run (new none) undeclared_calls).state ≡ some indeterminate
unfolding run call new transition refuse refuse_replay missing_flags
undeclared_ends_indeterminate = refl

abbrev half_way : Transaction
half_way =
    run (new none) (prepare_call all_recorded "" ∷ arm_call "" ∷ commit_call "ok" true "" ∷ [])

call-Effect_example :
    Effect (new none) (call (arm_call "") (new none)).0 (call (arm_call "") (new none)).1
call-Effect_example = call-Effect (arm_call "") (new none)

run-IsValid_example : IsValid (run (new (some "tx-1")) undeclared_calls)
run-IsValid_example = run-IsValid (some "tx-1") undeclared_calls

run-Adds_example : Adds (new none) good_calls (run (new none) good_calls)
run-Adds_example = run-Adds (new none) good_calls

no_replay_example :
    (es : List TransitionEvent) × ((run half_way good_calls).events ≡ half_way.events ++ es)
    × (length es ≤ 1)
    × All (λ e. is_terminal_state e.to_state ≡ true) es
unfolding run call new transition refuse refuse_replay missing_flags
no_replay_example = no_replay half_way good_calls (omega arith)

verdict_history_example :
    (states_of (run (new none) good_calls).events
      ≡ prepared ∷ armed ∷ commit_attempted ∷ verified ∷ [])
    × Justified (prepared ∷ armed ∷ commit_attempted ∷ verified ∷ []) good_calls
verdict_history_example = verdict_history none good_calls verified refl good_ends_verified

call_exact_example :
    (((call (mark_call "x") half_way).1.state ≡ some indeterminate)
      × (half_way.state ≢ some indeterminate))
    ↔ ((half_way.state ⟶ indeterminate)
        × (justifies indeterminate (mark_call "x") ≡ true)
        × (ready (mark_call "x") half_way.state ≡ true))
call_exact_example = call_exact (mark_call "x") half_way indeterminate
