-- ===== src/Execution/Invariant/Calls.antt =====
-- The calls that an execution makes on its transaction keep the invariant.
use mathlib.Core.Path.{subst}
use windows_console_driver.Prelude.{
  String, ◌≡◌, refl, sym, ap, ◌∙◌, true, false, Option, none, some, List, [], ◌∷◌, ◌++◌, length,
  ◌+◌, arith,
}
use windows_console_driver.Prelude.Results.{Result}
use windows_console_driver.Prelude.Dict.{Dict}
use windows_console_driver.Transaction.{
  State, prepared, armed, commit_attempted, verified, disproven, indeterminate, is_terminal_state,
  TransitionEvent, GuardOutcome, Reason, Transaction, Flag, Preconditions, prepare, prepare_from,
  prepare_fresh, missing_flags, arm, arm_from, commit, commit_undeclared, commit_declared,
  hard_stop, transition, refuse, refuse_replay,
}
use windows_console_driver.Transaction.Diagram.{
  ◌⟶◌, preparing, arming, committing, stopping, Chain, Chain-snoc,
}
use windows_console_driver.Leases.Registry.{Lease}
use windows_console_driver.RunSheets.Executor.{Failure}
use windows_console_driver.RunSheets.Executor.Keeps.{Leaves}
use windows_console_driver.Execution.{
  Exception, Session, Host, Plan, last_event, record_event, keep_outcome,
}
use windows_console_driver.Execution.Invariant.{is_live_state, Running, Stopped, Passing}

pub last_event-append :
    (es : List TransitionEvent) (e : TransitionEvent) → last_event (es ++ e ∷ []) ≡ some e
last_event-append [] e = refl
last_event-append (d ∷ []) e = refl
last_event-append (d ∷ (f ∷ es)) e = last_event-append (f ∷ es) e

-- The event that a transition appends.
abbrev pub event_to : State → Reason → Transaction → TransitionEvent
event_to s reason t = record {
  sequence = length t.events + 1;
  from_state = t.state;
  to_state = s;
  reason = reason;
}

pub step-Chain :
    (t : Transaction) (s : State) (reason : Reason)
    → Chain none 0 t.events t.state
    → t.state ⟶ s
    → Chain none 0 (t.events ++ event_to s reason t ∷ []) (some s)
step-Chain t s reason c step =
    Chain-snoc none 0 t.events t.state (event_to s reason t) c (omega arith) refl step

module _ {W : Type 0} (h : Host W) (plan : Plan) (l : Lease) (ls : Dict Lease) where
  abbrev pub Keeping : {A : Type 0} → Result (Failure Exception) A × Session W → Type 0
  Keeping r = Leaves (Running h plan l ls) (Passing h plan l ls) r

  moved :
      (s : Session W) (to : State) (reason : Reason)
      → Running h plan l ls s
      → s.txn.state ⟶ to
      → is_live_state (some to) ≡ true
      → Keeping (keep_outcome (transition to reason s.txn) s)
  unfolding transition record_event
  moved s to reason q step live =
      rw (last_event-append s.txn.events (event_to to reason s.txn)) (record {
        leased = q.leased;
        held = q.held;
        logged = ap (λ (es : List TransitionEvent). es ++ event_to to reason s.txn ∷ []) q.logged;
        chained = step-Chain s.txn to reason q.chained step;
        live = live;
      })

  unmoved :
      (s : Session W) (refusals : List GuardOutcome)
      → Running h plan l ls s
      → Running h plan l ls (record s { txn = record s.txn { refusals = refusals } })
  unmoved s refusals q = record {
    leased = q.leased;
    held = q.held;
    logged = q.logged;
    chained = q.chained;
    live = q.live;
  }

  prepare_fresh-Keeping :
      (flags : List Flag) (reason : String) (s : Session W)
      → Running h plan l ls s
      → s.txn.state ≡ none
      → Keeping (keep_outcome (prepare_fresh flags reason s.txn) s)
  unfolding prepare_fresh refuse
  prepare_fresh-Keeping [] reason s q e =
      moved s prepared _ q (subst (λ x. x ⟶ prepared) (sym e) preparing) refl
  prepare_fresh-Keeping (f ∷ fs) reason s q e = unmoved s _ q

  pub prepare-Keeping :
      (p : Preconditions) (reason : String) (s : Session W)
      → Running h plan l ls s
      → Keeping (keep_outcome (prepare p reason s.txn) s)
  unfolding prepare prepare_from refuse
  prepare-Keeping p reason s q = by_state s.txn.state refl
    where
      by_state :
          (o : Option State)
          → s.txn.state ≡ o
          → Keeping (keep_outcome (prepare_from o p reason s.txn) s)
      by_state none e = prepare_fresh-Keeping (missing_flags p) reason s q e
      by_state (some x) e = unmoved s _ q

  pub arm-Keeping :
      (reason : String) (s : Session W)
      → Running h plan l ls s
      → Keeping (keep_outcome (arm reason s.txn) s)
  unfolding arm arm_from refuse refuse_replay
  arm-Keeping reason s q = by_state s.txn.state refl
    where
      by_state :
          (o : Option State) → s.txn.state ≡ o → Keeping (keep_outcome (arm_from o reason s.txn) s)
      by_state (some prepared) e = moved s armed _ q (subst (λ x. x ⟶ armed) (sym e) arming) refl
      by_state none e = unmoved s _ q
      by_state (some armed) e = unmoved s _ q
      by_state (some commit_attempted) e = unmoved s _ q
      by_state (some verified) e = unmoved s _ q
      by_state (some disproven) e = unmoved s _ q
      by_state (some indeterminate) e = unmoved s _ q

  pub commit_declared-Keeping :
      (boundary reason : String) (s : Session W)
      → Running h plan l ls s
      → Keeping (keep_outcome (commit boundary true reason s.txn) s)
  unfolding commit commit_declared refuse refuse_replay
  commit_declared-Keeping boundary reason s q = by_state s.txn.state refl
    where
      by_state :
          (o : Option State)
          → s.txn.state ≡ o
          → Keeping (keep_outcome (commit_declared o boundary reason s.txn) s)
      by_state (some armed) e =
          moved s commit_attempted _ q (subst (λ x. x ⟶ commit_attempted) (sym e) committing) refl
      by_state none e = unmoved s _ q
      by_state (some prepared) e = unmoved s _ q
      by_state (some commit_attempted) e = unmoved s _ q
      by_state (some verified) e = unmoved s _ q
      by_state (some disproven) e = unmoved s _ q
      by_state (some indeterminate) e = unmoved s _ q

  -- An undeclared crossing is a hard stop: the new event is not recorded yet.
  pub commit_undeclared-Keeping :
      (boundary reason : String) (s : Session W)
      → Running h plan l ls s
      → Keeping (keep_outcome (commit boundary false reason s.txn) s)
  unfolding commit commit_undeclared hard_stop transition refuse
  commit_undeclared-Keeping boundary reason s q = by_state s.txn.state refl
    where
      stops :
          (x : State) (why : Reason)
          → s.txn.state ≡ some x
          → is_terminal_state x ≡ false
          → (t : Transaction) → t.events ≡ s.txn.events ++ event_to indeterminate why s.txn ∷ []
          → t.state ≡ some indeterminate
          → Stopped h plan l ls (record s { txn = t })
      stops x why e live t grown stopped = record {
        leased = q.leased;
        held = q.held;
        event = event_to indeterminate why s.txn;
        trailing =
            grown
            ∙ ap (λ (es : List TransitionEvent). es ++ event_to indeterminate why s.txn ∷ [])
                (sym q.logged);
        chained =
            rw (grown, stopped)
              (step-Chain s.txn indeterminate why q.chained
                (subst (λ o. o ⟶ indeterminate) (sym e) (stopping x live)));
        stopped = stopped;
      }

      by_state :
          (o : Option State)
          → s.txn.state ≡ o
          → Keeping (keep_outcome (commit_undeclared o boundary reason s.txn) s)
      by_state none e = unmoved s _ q
      by_state (some prepared) e = stops prepared _ e refl _ refl refl
      by_state (some armed) e = stops armed _ e refl _ refl refl
      by_state (some commit_attempted) e = stops commit_attempted _ e refl _ refl refl
      by_state (some verified) e = unmoved s _ q
      by_state (some disproven) e = unmoved s _ q
      by_state (some indeterminate) e = unmoved s _ q
