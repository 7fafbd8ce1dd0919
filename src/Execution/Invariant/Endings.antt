-- ===== src/Execution/Invariant/Endings.antt =====
-- The calls that end the transaction: an abort, and what follows a convergence.
use mathlib.Core.Path.{subst}
use mathlib.Core.List.{append-nil}
use windows_console_driver.Prelude.{
  ◌≡◌, refl, sym, ap, ◌∙◌, true, false, Option, none, some, List, [], ◌∷◌, ◌++◌, if-elim, not, ◌&&◌,
  String, arith,
}
use windows_console_driver.Prelude.Results.{Result, ok, err}
use windows_console_driver.Prelude.Dict.{Dict}
use windows_console_driver.Transaction.{
  State, prepared, armed, commit_attempted, verified, disproven, indeterminate, is_terminal_state,
  TransitionEvent, Reason, given, Transaction, is_terminal, mark_indeterminate, mark_from,
  go_indeterminate, transition, resolve, resolve_from, resolve_verdict, refuse,
}
use windows_console_driver.Transaction.Diagram.{◌⟶◌, verifying, disproving, stopping, Chain}
use windows_console_driver.Leases.Registry.{Lease}
use windows_console_driver.Envelope.Report.{
  AssertionStatus, satisfied_status, disproven_status, indeterminate_status,
}
use windows_console_driver.Envelope.Assertion.{AssertionResult}
use windows_console_driver.Envelope.Convergence.{ConvergenceResult}
use windows_console_driver.Execution.{
  Raised, Message, Note, Session, Host, Plan, Record, last_event, record_event, keep_outcome,
  has_state, abort_indeterminate, add_note,
}
use windows_console_driver.Execution.Crossing.{is_attempted}
use windows_console_driver.Execution.Phases.{settle, by_status}
use windows_console_driver.Execution.Invariant.{
  is_live_state, Trail, complete, lacks_last, Judged, Running, EndingAt, Ending, Stopped,
}
use windows_console_driver.Execution.Invariant.Calls.{event_to, step-Chain, last_event-append}

module _ {W : Type 0} (h : Host W) (plan : Plan) (l : Lease) (ls : Dict Lease)
    (whole : Result Raised Record × Session W) where
  -- Not verified and not disproven, with all events but a last one to indeterminate recorded.
  stays :
      (a : Option AssertionResult) (s : Session W) (t : Transaction) (missed : List TransitionEvent)
      → Running h plan l ls s
      → t.events ≡ s.txn.events ++ missed
      → Trail missed
      → Chain none 0 t.events t.state
      → (t.state ≡ some verified → ⊥)
      → (t.state ≡ some disproven → ⊥)
      → EndingAt h plan l ls whole a s.lease s.registry.leases t s.events_out
  stays a s t missed q grown trail chained no_verdict no_disproof = record {
    leased = q.leased;
    held = q.held;
    missed = missed;
    trailing = grown ∙ ap (λ (es : List TransitionEvent). es ++ missed) (sym q.logged);
    trail = trail;
    chained = chained;
    verifies = λ e. absurd (no_verdict e);
    disproves = λ e. absurd (no_disproof e);
  }

  not_live :
      (o : Option State) (x : State)
      → o ≡ some x
      → is_terminal_state x ≡ true
      → is_live_state o ≡ true
      → ⊥
  not_live o x e terminal live = ground arith

  -- A session that runs can end as it is.
  pub Running-Ending :
      (a : Option AssertionResult) (s : Session W)
      → Running h plan l ls s
      → Ending h plan l ls whole a s
  Running-Ending a s q =
      stays a s s.txn [] q (sym (append-nil s.txn.events)) complete q.chained
        (λ e. not_live s.txn.state verified e refl q.live)
        (λ e. not_live s.txn.state disproven e refl q.live)

  -- A move to indeterminate of which the event is not recorded.
  stopped_Ending :
      (a : Option AssertionResult) (x : State) (why : Reason) (s : Session W) (t : Transaction)
      → Running h plan l ls s
      → s.txn.state ≡ some x
      → is_terminal_state x ≡ false
      → t.events ≡ s.txn.events ++ event_to indeterminate why s.txn ∷ []
      → t.state ≡ some indeterminate
      → EndingAt h plan l ls whole a s.lease s.registry.leases t s.events_out
  stopped_Ending a x why s t q e live grown stopped =
      stays a s t (event_to indeterminate why s.txn ∷ []) q grown (lacks_last refl)
        (rw (grown, stopped)
          (step-Chain s.txn indeterminate why q.chained
            (subst (λ o. o ⟶ indeterminate) (sym e) (stopping x live))))
        (λ k. cc (stopped, k)) (λ k. cc (stopped, k))

  pub abort-Ending :
      (reason : Message) (s : Session W)
      → Running h plan l ls s
      → Ending h plan l ls whole none (abort_indeterminate h plan reason s)
  unfolding abort_indeterminate mark_indeterminate mark_from go_indeterminate transition refuse
  abort-Ending reason s q =
      if-elim (Ending h plan l ls whole none) (has_state s.txn.state && not (is_terminal s.txn))
        (λ _. by_state s.txn.state refl) (λ _. Running-Ending none s q)
    where
      by_state :
          (o : Option State)
          → s.txn.state ≡ o
          → EndingAt h plan l ls whole none s.lease s.registry.leases
              (mark_from o (h.say reason) s.txn).1
              s.events_out
      by_state none e =
          stays none s _ [] q (sym (append-nil s.txn.events)) complete q.chained
            (λ k. not_live s.txn.state verified k refl q.live)
            (λ k. not_live s.txn.state disproven k refl q.live)
      by_state (some prepared) e = stopped_Ending none prepared _ s _ q e refl refl refl
      by_state (some armed) e = stopped_Ending none armed _ s _ q e refl refl refl
      by_state (some commit_attempted) e =
          stopped_Ending none commit_attempted _ s _ q e refl refl refl
      by_state (some verified) e = absurd (not_live s.txn.state verified e refl q.live)
      by_state (some disproven) e = absurd (not_live s.txn.state disproven e refl q.live)
      by_state (some indeterminate) e = absurd (not_live s.txn.state indeterminate e refl q.live)

  -- After a hard stop, its event is recorded late.
  pub Stopped-Ending :
      (note : Note) (s : Session W)
      → Stopped h plan l ls s
      → Ending h plan l ls whole none (add_note note (record_event s))
  unfolding record_event
  Stopped-Ending note s q =
      rw (ap last_event q.trailing ∙ last_event-append s.events_out q.event) (record {
        leased = q.leased;
        held = q.held;
        missed = [];
        trailing = q.trailing ∙ sym (append-nil _);
        trail = complete;
        chained = q.chained;
        verifies = λ e. absurd (cc (q.stopped, e));
        disproves = λ e. absurd (cc (q.stopped, e));
      })

  -- How a call that resolves the transaction ends: with a session that can end, or an exception.
  abbrev pub Settles : Option AssertionResult → Result Raised (Unit {0}) × Session W → Type 0
  Settles a (ok tt, s) = Ending h plan l ls whole a s
  Settles a (err x, s) = Unit

  -- A last transition of which the event is recorded.
  resolved :
      (a : Option AssertionResult) (to : State) (why : Reason) (s : Session W) (t : Transaction)
      → Running h plan l ls s
      → s.txn.state ⟶ to
      → t.events ≡ s.txn.events ++ event_to to why s.txn ∷ []
      → t.state ≡ some to
      → (to ≡ verified → Judged h plan whole satisfied_status a)
      → (to ≡ disproven → Judged h plan whole disproven_status a)
      → Ending h plan l ls whole a (record_event (record s { txn = t }))
  unfolding record_event
  resolved a to why s t q step grown state verifies disproves =
      rw (ap last_event grown ∙ last_event-append s.txn.events (event_to to why s.txn)) (record {
        leased = q.leased;
        held = q.held;
        missed = [];
        trailing =
            grown
            ∙ ap (λ (es : List TransitionEvent). es ++ event_to to why s.txn ∷ []) (sym q.logged)
            ∙ sym (append-nil _);
        trail = complete;
        chained = rw (grown, state) (step-Chain s.txn to why q.chained step);
        verifies = λ e. verifies (cc (state, e));
        disproves = λ e. disproves (cc (state, e));
      })

  module _ (a : Option AssertionResult) (s : Session W) (q : Running h plan l ls s) where
    mark-Settles : (reason : String) → Settles a (keep_outcome (mark_indeterminate reason s.txn) s)
    unfolding mark_indeterminate mark_from go_indeterminate transition refuse
    mark-Settles reason = by_state s.txn.state refl
      where
        stopping_from :
            (x : State)
            → s.txn.state ≡ some x
            → is_terminal_state x ≡ false
            → (t : Transaction)
            → t.events ≡ s.txn.events ++ event_to indeterminate (given reason) s.txn ∷ []
            → t.state ≡ some indeterminate
            → Ending h plan l ls whole a (record_event (record s { txn = t }))
        stopping_from x e live t grown state =
            resolved a indeterminate (given reason) s t q
              (subst (λ o. o ⟶ indeterminate) (sym e) (stopping x live)) grown state
              (λ k. absurd (cc k)) (λ k. absurd (cc k))

        by_state :
            (o : Option State)
            → s.txn.state ≡ o
            → Settles a (keep_outcome (mark_from o reason s.txn) s)
        by_state none e = tt
        by_state (some prepared) e = stopping_from prepared e refl _ refl refl
        by_state (some armed) e = stopping_from armed e refl _ refl refl
        by_state (some commit_attempted) e = stopping_from commit_attempted e refl _ refl refl
        by_state (some verified) e = tt
        by_state (some disproven) e = tt
        by_state (some indeterminate) e = tt

    verify-Settles :
        (reason : String)
        → Judged h plan whole satisfied_status a
        → Settles a (keep_outcome (resolve true true "" reason s.txn) s)
    unfolding resolve resolve_from resolve_verdict transition refuse
    verify-Settles reason judged = by_state s.txn.state refl
      where
        by_state :
            (o : Option State)
            → s.txn.state ≡ o
            → Settles a (keep_outcome (resolve_from o true true "" reason s.txn) s)
        by_state (some commit_attempted) e =
            resolved a verified _ s _ q (subst (λ o. o ⟶ verified) (sym e) verifying) refl refl
              (λ _. judged) (λ k. absurd (cc k))
        by_state none e = tt
        by_state (some prepared) e = tt
        by_state (some armed) e = tt
        by_state (some verified) e = tt
        by_state (some disproven) e = tt
        by_state (some indeterminate) e = tt

    disprove-Settles :
        (text : String)
        → Judged h plan whole disproven_status a
        → Settles a (keep_outcome (resolve false true text "" s.txn) s)
    unfolding resolve resolve_from resolve_verdict transition refuse
    disprove-Settles text judged = by_state s.txn.state refl
      where
        by_state :
            (o : Option State)
            → s.txn.state ≡ o
            → Settles a (keep_outcome (resolve_from o false true text "" s.txn) s)
        by_state (some commit_attempted) e =
            resolved a disproven _ s _ q (subst (λ o. o ⟶ disproven) (sym e) disproving) refl refl
              (λ k. absurd (cc k)) (λ _. judged)
        by_state none e = tt
        by_state (some prepared) e = tt
        by_state (some armed) e = tt
        by_state (some verified) e = tt
        by_state (some disproven) e = tt
        by_state (some indeterminate) e = tt

  pub settle-Settles :
      (r : ConvergenceResult) (s : Session W)
      → Running h plan l ls s
      → ((status : AssertionStatus)
          → r.status ≡ status
          → is_attempted s.txn.state ≡ true
          → Judged h plan whole status (some r.assertion))
      → Settles (some r.assertion) (settle h plan r s)
  unfolding settle
  settle-Settles r s q judged =
      if-elim (Settles (some r.assertion)) (is_attempted s.txn.state)
        (λ b. by_result r.status refl b) (λ b. mark-Settles (some r.assertion) s q _)
    where
      by_result :
          (status : AssertionStatus)
          → r.status ≡ status
          → is_attempted s.txn.state ≡ true
          → Settles (some r.assertion) (by_status h plan r status s)
      by_result satisfied_status e c =
          verify-Settles (some r.assertion) s q _ (judged satisfied_status e c)
      by_result disproven_status e c =
          disprove-Settles (some r.assertion) s q _ (judged disproven_status e c)
      by_result indeterminate_status e c = mark-Settles (some r.assertion) s q _
