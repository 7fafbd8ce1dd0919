-- ===== src/Execution/Invariant/Arming.antt =====
-- A transaction that is prepared over a context and armed is not attempted.
use mathlib.Core.Path.{subst}
use windows_console_driver.Prelude.{String, ◌≡◌, refl, ap, ◌∙◌, true, false, Option, none, some}
use windows_console_driver.Prelude.Results.{Result, ok, err}
use windows_console_driver.Transaction.{
  State, prepared, armed, commit_attempted, verified, disproven, indeterminate, TransitionEvent,
  Transaction, Outcome, returned, raised, arm, arm_from, transition, refuse, refuse_replay, prepare,
}
use windows_console_driver.Leases.Context.{InteractiveContext}
use windows_console_driver.RunSheets.Executor.{then_do}
use windows_console_driver.Execution.{
  Raised, Session, Host, Plan, add_event, last_event, record_event, keep_outcome, prepared_over,
  invocation_begun,
}
use windows_console_driver.Execution.Crossing.{is_attempted}
use windows_console_driver.Execution.Phases.{lease_active, prepare_and_arm}

module _ {W : Type 0} where
  prepared-add_event :
      (o : Option TransitionEvent) (s : Session W)
      → (add_event o s).prepared_context ≡ s.prepared_context
  prepared-add_event none s = refl
  prepared-add_event (some e) s = refl

  txn-add_event : (o : Option TransitionEvent) (s : Session W) → (add_event o s).txn ≡ s.txn
  txn-add_event none s = refl
  txn-add_event (some e) s = refl

  pub prepared-record_event :
      (s : Session W) → (record_event s).prepared_context ≡ s.prepared_context
  unfolding record_event
  prepared-record_event s = prepared-add_event (last_event s.txn.events) s

  txn-record_event : (s : Session W) → (record_event s).txn ≡ s.txn
  unfolding record_event
  txn-record_event s = txn-add_event (last_event s.txn.events) s

module _ {W : Type 0} (h : Host W) (plan : Plan) where
  -- A session that is prepared over a context and armed, not attempted.
  abbrev pub Ready : InteractiveContext → Session W → Type 0
  Ready context s = (s.prepared_context ≡ some context) × (is_attempted s.txn.state ≡ false)

  module _ (context : InteractiveContext) where
    abbrev IsReady : Result Raised (Unit {0}) × Session W → Type 0
    IsReady (ok tt, s) = Ready context s
    IsReady (err x, s) = Unit

    abbrev IsPrepared : Result Raised (Unit {0}) × Session W → Type 0
    IsPrepared (ok tt, s) = s.prepared_context ≡ some context
    IsPrepared (err x, s) = Unit

    outcome-IsPrepared :
        (x : Outcome × Transaction) (s : Session W)
        → s.prepared_context ≡ some context
        → IsPrepared (keep_outcome x s)
    outcome-IsPrepared (returned e, txn) s q = prepared-record_event (record s { txn = txn }) ∙ q
    outcome-IsPrepared (raised e, txn) s q = tt

    arm-IsReady :
        (reason : String) (s : Session W)
        → s.prepared_context ≡ some context
        → IsReady (keep_outcome (arm reason s.txn) s)
    unfolding arm arm_from transition refuse refuse_replay
    arm-IsReady reason s q = by_state s.txn.state
      where
        by_state : (o : Option State) → IsReady (keep_outcome (arm_from o reason s.txn) s)
        by_state (some prepared) = (
          prepared-record_event _ ∙ q,
          ap (λ (t : Transaction). is_attempted t.state) (txn-record_event _),
        )
        by_state none = tt
        by_state (some armed) = tt
        by_state (some commit_attempted) = tt
        by_state (some verified) = tt
        by_state (some disproven) = tt
        by_state (some indeterminate) = tt

    prepare_and_arm-IsReady :
        (guid : Option String) (s : Session W)
        → s.prepared_context ≡ some context
        → IsReady (prepare_and_arm h plan guid s)
    unfolding prepare_and_arm
    prepare_and_arm-IsReady guid s q =
        let (active, r) = lease_active h plan s.lease s.registry in
        by_result _ (
          outcome-IsPrepared
            (prepare (record { pre_oracle = true; lease = active; context = true; recovery = true })
              (h.say (prepared_over guid)) s.txn)
            (record s { registry = r }) q)
      where
        by_result :
            (x : Result Raised (Unit {0}) × Session W)
            → IsPrepared x
            → IsReady (
                then_do
                  (λ (_ : Session W). x)
                  (λ _ s'. keep_outcome (arm (h.say invocation_begun) s'.txn) s')
                  s)
        by_result (ok tt, s') q' = arm-IsReady (h.say invocation_begun) s' q'
        by_result (err x, s') q' = tt

    pub armed-Ready :
        (guid : Option String) (s g : Session W)
        → s.prepared_context ≡ some context
        → prepare_and_arm h plan guid s ≡ (ok tt, g)
        → Ready context g
    armed-Ready guid s g q e = subst IsReady e (prepare_and_arm-IsReady guid s q)
