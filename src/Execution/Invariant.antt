-- ===== src/Execution/Invariant.antt =====
-- What holds of a session while an execution runs, when it has decided how to end, and at the end; and
-- what of the run stands behind a verdict.
pub mod Calls
pub mod Endings
pub mod Steps
pub mod Arming
pub mod Crossings
pub mod Records
pub mod Walk
pub mod Oracles
pub mod Preparation
pub mod Gating
pub mod Leasing
use windows_console_driver.Prelude.{
  String, ◌≡◌, refl, sym, ap, ◌∙◌, Bool, true, false, Option, none, some, List, [], ◌∷◌, ◌++◌,
}
use windows_console_driver.Prelude.Results.{Result, ok, err}
use windows_console_driver.Prelude.Dict.{Dict, lookup, remove}
use windows_console_driver.Value.{Fields}
use windows_console_driver.Transaction.{
  State, verified, disproven, indeterminate, is_terminal_state, TransitionEvent, Transaction,
  TransactionError, undeclared_mutation,
}
use windows_console_driver.Transaction.Diagram.{Chain}
use windows_console_driver.Leases.Registry.{Lease}
use windows_console_driver.Leases.Context.{InteractiveContext, SameContext}
use windows_console_driver.Envelope.{Envelope}
use windows_console_driver.Envelope.Report.{AssertionStatus, satisfied_status, disproven_status}
use windows_console_driver.Envelope.Assertion.{AssertionResult}
use windows_console_driver.Envelope.Convergence.{ConvergenceResult, converge}
use windows_console_driver.Envelope.Parsing.{parse_envelope}
use windows_console_driver.RunSheets.{phase_sheet}
use windows_console_driver.RunSheets.Executor.{ActionClass, Journal, execute}
use windows_console_driver.RunSheets.Executor.Crossings.{crosses}
use windows_console_driver.Execution.{
  Exception, transaction_raised, Raised, Fact, Session, Host, Plan, Record, on_world,
}
use windows_console_driver.Execution.Helper.{helper_context}
use windows_console_driver.Execution.Crossing.{
  session_only, is_attempted, classification, on_commit,
}
use windows_console_driver.Execution.Ending.{primitives}
use windows_console_driver.Execution.Binding.{envelope_dict}
use windows_console_driver.Execution.Phases.{
  environment, guid_or_zero, fact_values, fact_labels, callbacks, prepare_and_arm, pre_oracle,
}

abbrev pub is_live_state : Option State → Bool
is_live_state none = true
is_live_state (some s) = elim (is_terminal_state s) [ true ↦ false | false ↦ true ]

-- The events that a record lacks: none, or a last one that leads to indeterminate.
pub data Trail : List TransitionEvent → Type 0 where
  complete : Trail []
  lacks_last : {e : TransitionEvent} → e.to_state ≡ indeterminate → Trail (e ∷ [])

module _ {W : Type 0} (h : Host W) (plan : Plan) where
  -- From one session of a gesture to a later one, by what a gesture calls.
  pub data Moves (s : Session W) : Session W → Type 0 where
    unmoved : Moves s s
    interpolated :
        {t : Session W} (fs : Fields) → Moves s t → Moves s (on_world (h.interpolate fs) t).1
    performed :
        {t : Session W} (action : String) (fs : Fields)
        → Moves s t
        → Moves s (on_world (h.primitive action fs) t).1
    called_back :
        {t : Session W} (boundary : String) → Moves s t → Moves s (on_commit h plan boundary t).1

  -- What lets a boundary be crossed from a session with a prepared context: a class that is declared
  -- mutating, and a fresh context, read there, that agrees in session, user and desktop.
  pub record Permitted (prepared : InteractiveContext) (boundary : String) (s : Session W)
      : Type 0 where
    pub class : ActionClass
    pub after : Session W
    pub fresh : InteractiveContext
    pub declared : classification h plan boundary ≡ some class
    pub mutates : crosses class ≡ true
    pub read : helper_context h s ≡ (ok fresh, after)
    pub same : SameContext (session_only prepared) (session_only fresh)

  -- Between two sessions of a gesture: the callback at which the transaction came to be attempted.
  pub record Crossing (prepared : InteractiveContext) (g s : Session W) : Type 0 where
    pub boundary : String
    pub before : Session W
    pub reached : Moves g before
    pub unattempted : is_attempted before.txn.state ≡ false
    pub permitted : Permitted prepared boundary before
    pub goes_on : Moves (on_commit h plan boundary before).1 s

  -- How the whole run came to its gesture: it went on as the pre-oracle from a session, in which the
  -- facts were collected; then the context was read, and with it the transaction prepared and armed.
  pub record Opening (whole : Result Raised Record × Session W) (guid : Option String)
      (domain : String) (facts : Dict Fact) (context : InteractiveContext) (g : Session W)
      : Type 0 where
    pub at_oracle : Session W
    pub at_context : Session W
    pub at_prepare : Session W
    pub continues : whole ≡ pre_oracle h plan guid domain at_oracle
    pub collected :
        on_world (h.collect_facts (guid_or_zero guid) domain) at_oracle ≡ (ok facts, at_context)
    pub read : helper_context h at_context ≡ (ok context, at_prepare)
    pub armed :
        prepare_and_arm h plan guid (record at_prepare { prepared_context = some context })
        ≡ (ok tt, g)

  -- What stands behind a verdict of the whole run: its opening, its gesture with the crossing, and the
  -- convergence of the capability's envelope from the end of the gesture, whose assertion it shows.
  pub record Judged (whole : Result Raised Record × Session W) (status : AssertionStatus)
      (assertion : Option AssertionResult) : Type 0 where
    pub guid : Option String
    pub domain : String
    pub facts : Dict Fact
    pub context : InteractiveContext
    pub start : Session W
    pub stop : Session W
    pub journal : Journal
    pub fields : Fields
    pub envelope : Envelope
    pub result : ConvergenceResult
    pub end : W
    pub opening : Opening whole guid domain facts context start
    pub gestured :
        execute (primitives h plan) (callbacks h plan) (phase_sheet "gesture" plan.sheet) start
        ≡ (ok journal, stop)
    pub crossing : Crossing context start stop
    pub bound : envelope_dict h.substitute h.text_of plan.envelope ≡ ok fields
    pub parsed : parse_envelope h.parse h.strip fields ≡ ok envelope
    pub converged :
        converge
          (environment h plan (guid_or_zero guid) domain)
          h.python
          envelope
          (fact_values facts)
          (fact_labels facts)
          stop.world
        ≡ (ok (some result), end)
    pub status_is : result.status ≡ status
    pub kept : assertion ≡ some result.assertion

  module _ (l : Lease) (ls : Dict Lease) where
    pub record RunningAt (lease : Option Lease) (leases : Dict Lease) (txn : Transaction)
        (out : List TransitionEvent) : Type 0 where
      pub leased : lease ≡ some l
      pub held : leases ≡ ls
      pub logged : out ≡ txn.events
      pub chained : Chain none 0 txn.events txn.state
      pub live : is_live_state txn.state ≡ true

    abbrev pub Running : Session W → Type 0
    Running s = RunningAt s.lease s.registry.leases s.txn s.events_out

    -- The hard stop has moved the machine, and its event is not recorded yet.
    pub record StoppedAt (lease : Option Lease) (leases : Dict Lease) (txn : Transaction)
        (out : List TransitionEvent) : Type 0 where
      pub leased : lease ≡ some l
      pub held : leases ≡ ls
      pub event : TransitionEvent
      pub trailing : txn.events ≡ out ++ event ∷ []
      pub chained : Chain none 0 txn.events txn.state
      pub stopped : txn.state ≡ some indeterminate

    abbrev pub Stopped : Session W → Type 0
    Stopped s = StoppedAt s.lease s.registry.leases s.txn s.events_out

    -- The session that an exception leaves that no step catches.
    abbrev pub Passing : Exception → Session W → Type 0
    Passing (transaction_raised (undeclared_mutation b r)) s = Stopped s
    Passing x s = Running s

    module _ (whole : Result Raised Record × Session W) where
      pub record EndingAt (assertion : Option AssertionResult) (lease : Option Lease)
          (leases : Dict Lease) (txn : Transaction) (out : List TransitionEvent) : Type 0 where
        pub leased : lease ≡ some l
        pub held : leases ≡ ls
        pub missed : List TransitionEvent
        pub trailing : txn.events ≡ out ++ missed
        pub trail : Trail missed
        pub chained : Chain none 0 txn.events txn.state
        pub verifies : txn.state ≡ some verified → Judged whole satisfied_status assertion
        pub disproves : txn.state ≡ some disproven → Judged whole disproven_status assertion

      abbrev pub Ending : Option AssertionResult → Session W → Type 0
      Ending assertion s = EndingAt assertion s.lease s.registry.leases s.txn s.events_out
