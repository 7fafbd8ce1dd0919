-- ===== src/Transaction/Effects.antt =====
-- What one call on a transaction of src/wcd/transaction.py can do.
use windows_console_driver.Prelude.{
  ◌+◌, String, ◌≡◌, refl, Bool, true, false, Option, none, some, List, [], ◌∷◌, ◌++◌, length, ◌||◌,
  Bool-cases, inl, inr,
}
use windows_console_driver.Transaction.{
  State, prepared, armed, commit_attempted, verified, disproven, indeterminate, is_terminal_state,
  Flag, Guard, prepare_guard, state_guard, terminal_guard, replay_guard, undeclared_guard, Reason,
  given, prepare_not_fresh, missing_preconditions, preconditions_recorded, invocation_started,
  arm_before_prepare, already_armed, cannot_rearm, boundary_before_prepare, terminal_no_crossings,
  boundary_not_declared, undeclared_hard_stop, crossed_commit_point, already_commit_attempted,
  commit_before_arm, commit_before_prepare, cannot_commit_terminal,
  resolve_requires_commit_attempted, envelope_and_reproduction_held, envelope_violated,
  reproduction_failed, nothing_prepared, terminal_no_transitions, TransitionEvent, GuardOutcome,
  TransactionError, guard_refused, replay_forbidden, undeclared_mutation, Outcome, returned, raised,
  Transaction, Preconditions, missing_flags, or_default, transition, refuse, refuse_replay,
  prepare_fresh, prepare_from, arm_from, hard_stop, commit_undeclared, commit_declared,
  go_indeterminate, resolve_from, mark_from,
}
use windows_console_driver.Transaction.Diagram.{
  ◌⟶◌, preparing, arming, committing, verifying, disproving, stopping,
}
use windows_console_driver.Transaction.Calls.{
  Call, call, prepare_call, arm_call, commit_call, resolve_call, mark_call,
}

abbrev pub has : {A : Type 0} → Option A → Bool
has none = false
has (some a) = true

abbrev pub is_indeterminate : State → Bool
is_indeterminate indeterminate = true
is_indeterminate _ = false

abbrev pub is_disproven : State → Bool
is_disproven disproven = true
is_disproven _ = false

-- The machine took one step along the diagram, with one new event.
pub record Moved (t : Transaction) (e : TransitionEvent) (u : Transaction) : Type 0 where
  pub numbered : e.sequence ≡ length t.events + 1
  pub from : e.from_state ≡ t.state
  pub step : t.state ⟶ e.to_state
  pub state : u.state ≡ some e.to_state
  pub events : u.events ≡ t.events ++ e ∷ []
  pub same_id : u.transaction_id ≡ t.transaction_id
  pub reasoned :
      has u.indeterminate_reason ≡ (is_indeterminate e.to_state || has t.indeterminate_reason)
  pub characterized : has u.characterization ≡ (is_disproven e.to_state || has t.characterization)

pub data Effect (t : Transaction) (r : Outcome) (u : Transaction) : Type 0 where
  moved :
      (e : TransitionEvent) → r ≡ returned e → Moved t e u → u.refusals ≡ t.refusals → Effect t r u
  refused :
      (g : GuardOutcome) (x : TransactionError)
      → r ≡ raised x
      → u ≡ record t { refusals = t.refusals ++ g ∷ [] }
      → Effect t r u
  stopped :
      (e : TransitionEvent) (boundary : String) (why : Reason)
      → r ≡ raised (undeclared_mutation boundary why)
      → e.to_state ≡ indeterminate
      → Moved t e u
      → u.refusals ≡ t.refusals ++ record { guard = undeclared_guard; reason = why } ∷ []
      → u.indeterminate_reason ≡ some why
      → Effect t r u

abbrev event_of : State → Reason → Transaction → TransitionEvent
event_of s why t = record {
  sequence = length t.events + 1;
  from_state = t.state;
  to_state = s;
  reason = why;
}

refuse-Effect :
    (g : Guard) (why : Reason) (t : Transaction) → Effect t (refuse g why t).0 (refuse g why t).1
unfolding refuse
refuse-Effect g why t = refused (record { guard = g; reason = why }) (guard_refused g why) refl refl

refuse_replay-Effect :
    (why : Reason) (t : Transaction) → Effect t (refuse_replay why t).0 (refuse_replay why t).1
unfolding refuse_replay
refuse_replay-Effect why t =
    refused (record { guard = replay_guard; reason = why }) (replay_forbidden why) refl refl

transition-Effect :
    (s : State) (why : Reason) (t : Transaction)
    → t.state ⟶ s
    → is_indeterminate s ≡ false
    → is_disproven s ≡ false
    → Effect t (transition s why t).0 (transition s why t).1
unfolding transition
transition-Effect s why t step live undisproven =
    moved (event_of s why t) refl
      (record {
        numbered = refl;
        from = refl;
        step = step;
        state = refl;
        events = refl;
        same_id = refl;
        reasoned = rw live;
        characterized = rw undisproven;
      })
      refl

go_indeterminate-Effect :
    (why : Reason) (t : Transaction)
    → t.state ⟶ indeterminate
    → Effect t (go_indeterminate why t).0 (go_indeterminate why t).1
unfolding go_indeterminate
go_indeterminate-Effect why t step =
    moved (event_of indeterminate why t) refl
      (record {
        numbered = refl;
        from = refl;
        step = step;
        state = refl;
        events = refl;
        same_id = refl;
        reasoned = refl;
        characterized = refl;
      })
      refl

hard_stop-Effect :
    (boundary : String) (why : Reason) (t : Transaction)
    → t.state ⟶ indeterminate
    → Effect t (hard_stop boundary why t).0 (hard_stop boundary why t).1
unfolding hard_stop
hard_stop-Effect boundary why t step =
    stopped (event_of indeterminate (undeclared_hard_stop boundary) t) boundary why refl refl
      (record {
        numbered = refl;
        from = refl;
        step = step;
        state = refl;
        events = refl;
        same_id = refl;
        reasoned = refl;
        characterized = refl;
      })
      refl refl

module _ (t : Transaction) where
  prepare_from-Effect :
      (s : Option State) (p : Preconditions) (reason : String)
      → t.state ≡ s
      → Effect t (prepare_from s p reason t).0 (prepare_from s p reason t).1
  unfolding prepare_from
  prepare_from-Effect none p reason h = fresh (missing_flags p)
    where
      fresh :
          (fs : List Flag) → Effect t (prepare_fresh fs reason t).0 (prepare_fresh fs reason t).1
      fresh [] =
          transition-Effect prepared (or_default reason preconditions_recorded) t (rw h preparing)
            refl refl
      fresh (f ∷ fs) = refuse-Effect prepare_guard (missing_preconditions (f ∷ fs)) t
  prepare_from-Effect (some s) p reason h = refuse-Effect state_guard (prepare_not_fresh s) t

  arm_from-Effect :
      (s : Option State) (reason : String)
      → t.state ≡ s
      → Effect t (arm_from s reason t).0 (arm_from s reason t).1
  unfolding arm_from
  arm_from-Effect none reason h = refuse-Effect state_guard arm_before_prepare t
  arm_from-Effect (some prepared) reason h =
      transition-Effect armed (or_default reason invocation_started) t (rw h arming) refl refl
  arm_from-Effect (some armed) reason h = refuse-Effect state_guard already_armed t
  arm_from-Effect (some s) reason h = refuse_replay-Effect (cannot_rearm s) t

  commit_declared-Effect :
      (s : Option State) (boundary reason : String)
      → t.state ≡ s
      → Effect t (commit_declared s boundary reason t).0 (commit_declared s boundary reason t).1
  unfolding commit_declared
  commit_declared-Effect none boundary reason h = refuse-Effect state_guard commit_before_prepare t
  commit_declared-Effect (some prepared) boundary reason h =
      refuse-Effect state_guard commit_before_arm t
  commit_declared-Effect (some armed) boundary reason h =
      transition-Effect commit_attempted (or_default reason (crossed_commit_point boundary)) t
        (rw h committing) refl refl
  commit_declared-Effect (some commit_attempted) boundary reason h =
      refuse-Effect state_guard already_commit_attempted t
  commit_declared-Effect (some s) boundary reason h =
      refuse_replay-Effect (cannot_commit_terminal s) t

  commit_undeclared-Effect :
      (s : Option State) (boundary reason : String)
      → t.state ≡ s
      → Effect t (commit_undeclared s boundary reason t).0 (commit_undeclared s boundary reason t).1
  unfolding commit_undeclared
  commit_undeclared-Effect none boundary reason h =
      refuse-Effect state_guard boundary_before_prepare t
  commit_undeclared-Effect (some s) boundary reason h = elim (Bool-cases (is_terminal_state s)) [
    | inl e ↦ rw e (refuse-Effect terminal_guard (terminal_no_crossings s) t)
    | inr e ↦ rw e (
        hard_stop-Effect boundary (or_default reason (boundary_not_declared boundary)) t
          (rw h (stopping s e)))
  ]

  resolve_from-Effect :
      (s : Option State) (satisfied reproduced : Bool) (characterization reason : String)
      → t.state ≡ s
      → Effect t
          (resolve_from s satisfied reproduced characterization reason t).0
          (resolve_from s satisfied reproduced characterization reason t).1
  unfolding resolve_from
  resolve_from-Effect none a b c reason h =
      refuse-Effect state_guard (resolve_requires_commit_attempted none) t
  resolve_from-Effect (some commit_attempted) true true c reason h =
      transition-Effect verified (or_default reason envelope_and_reproduction_held) t
        (rw h verifying) refl refl
  resolve_from-Effect (some commit_attempted) true false c reason h =
      go_indeterminate-Effect (or_default reason reproduction_failed) t
        (rw h (stopping commit_attempted refl))
  resolve_from-Effect (some commit_attempted) false b c reason h =
      unfold transition in
      moved (event_of disproven (or_default reason envelope_violated) t) refl
        (record {
          numbered = refl;
          from = refl;
          step = rw h disproving;
          state = refl;
          events = refl;
          same_id = refl;
          reasoned = refl;
          characterized = refl;
        })
        refl
  resolve_from-Effect (some s) a b c reason h =
      refuse-Effect state_guard (resolve_requires_commit_attempted (some s)) t

  mark_from-Effect :
      (s : Option State) (reason : String)
      → t.state ≡ s
      → Effect t (mark_from s reason t).0 (mark_from s reason t).1
  unfolding mark_from
  mark_from-Effect none reason h = refuse-Effect state_guard nothing_prepared t
  mark_from-Effect (some s) reason h = elim (Bool-cases (is_terminal_state s)) [
    | inl e ↦ rw e (refuse-Effect terminal_guard (terminal_no_transitions s) t)
    | inr e ↦ rw e (go_indeterminate-Effect (given reason) t (rw h (stopping s e)))
  ]

-- Every call does one of three things. It returns an event, and the machine takes the one step
-- of the diagram that the event records. Or it raises, and nothing changes but one more refusal.
-- Or it raises UndeclaredMutation, records the refusal and takes the step to indeterminate.
pub call-Effect : (c : Call) (t : Transaction) → Effect t (call c t).0 (call c t).1
unfolding call
call-Effect (prepare_call p reason) t = prepare_from-Effect t t.state p reason refl
call-Effect (arm_call reason) t = arm_from-Effect t t.state reason refl
call-Effect (commit_call boundary true reason) t =
    commit_declared-Effect t t.state boundary reason refl
call-Effect (commit_call boundary false reason) t =
    commit_undeclared-Effect t t.state boundary reason refl
call-Effect (resolve_call satisfied reproduced characterization reason) t =
    resolve_from-Effect t t.state satisfied reproduced characterization reason refl
call-Effect (mark_call reason) t = mark_from-Effect t t.state reason refl
