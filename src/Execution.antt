-- ===== src/Execution.antt =====
-- src/wcd/exec_transaction.py: what one execution reads, keeps and returns, and how it ends.
-- The transaction, the leases and the run sheet are the models of those modules. The sheet context, the
-- guest and the host are a world `W`. A text that the source formats is a message, which `say` renders;
-- texts are kept whole where the source cuts them.
pub mod Helper
pub mod Crossing
pub mod Ending
pub mod Gates
pub mod Binding
pub mod Phases
pub mod Invariant
mod Outcomes
mod Tests
use windows_console_driver.Prelude.{
  ℕ, String, Bool, true, false, not, ◌&&◌, Option, none, some, List, [], ◌∷◌, ◌++◌, ◌==◌, string_eq,
  if◌then◌else◌,
}
use windows_console_driver.Prelude.Results.{Result, ok, err}
use windows_console_driver.Prelude.Dict.{Dict}
use windows_console_driver.Value.{Value, Fields}
use windows_console_driver.Transaction
use windows_console_driver.Transaction.{
  State, indeterminate, verified, disproven, TransitionEvent, TransactionError, Reason, given,
  Transaction, Outcome, returned, raised, is_terminal, is_terminal_state, mark_indeterminate,
}
use windows_console_driver.Leases.Registry.{Clock, Lease, LeaseError, Registry, is_active, release}
use windows_console_driver.Leases.Context.{InteractiveContext, ContextFieldMismatch}
use windows_console_driver.Envelope.{Facts}
use windows_console_driver.Envelope.Assertion.{AssertionResult}
use windows_console_driver.Envelope.Convergence.{ConvergenceReason}
use windows_console_driver.Envelope.Parsing.{EnvelopeFault}
use windows_console_driver.Predicate.{Expr}
use windows_console_driver.Predicate.Eval.{Runtime, Fault}
use windows_console_driver.Categories.{FactCategory, VolatileSubcategory}
use windows_console_driver.RunSheets.{RunSheet, Step}
use windows_console_driver.RunSheets.Channels.{ChannelFault}
use windows_console_driver.RunSheets.Executor.{
  ActionClass, SheetMessage, Journal, Failure, sheet_error, foreign, Action,
}

-- What an ExecTransactionError says.
pub data ExecMessage : Type 0 where
  contract_invalid : ChannelFault → ExecMessage
  helper_failed : Option String → ExecMessage
  context_malformed foreground_malformed surface_malformed : ExecMessage
  gate_unreadable : (fingerprint : Bool) → ExecMessage → ExecMessage
  fingerprint_mismatch : (banked : String) → (observed : Option String) → ExecMessage
  language_mismatch : (banked : String) → (observed : Option String) → ExecMessage
  version_unreadable : (path : String) → (error : Option String) → ExecMessage
  version_mismatch : (path banked observed : String) → ExecMessage
  no_guid no_envelope : ExecMessage
  missing_arg : String → ExecMessage

-- The exceptions other than RunSheetError; the last is any that no handler names.
pub data Exception : Type 0 where
  exec_error : ExecMessage → Exception
  transaction_raised : TransactionError → Exception
  lease_raised : LeaseError → Exception
  envelope_raised : EnvelopeFault → Exception
  unforeseen : String → Exception

abbrev pub Raised : Type 0
Raised = Failure Exception

-- What an operation on the world raises: a RunSheetError, or an exception that no handler names.
pub data HostError : Type 0 where
  sheet_failed : SheetMessage → HostError
  host_failed : String → HostError

abbrev pub raised_by : HostError → Raised
raised_by (sheet_failed m) = sheet_error m []
raised_by (host_failed text) = foreign (unforeseen text)

-- The texts that the transaction is given, and the notes.
pub data Message : Type 0 where
  lease_unavailable : LeaseError → Message
  console_not_unlocked : String → Message
  probe_failed setup_failed pre_oracle_failed : Raised → Message
  no_recovery nothing_crossed convergence_indeterminate : Message
  context_unavailable : ExecMessage → Message
  prepared_over : Option String → Message
  invocation_begun : Message
  crosses_boundary : String → ActionClass → Message
  prepare_refused : Reason → Message
  sheet_aborted : SheetMessage → Message
  observation_failed : Fault → Message
  converged_after : (polls reproductions : ℕ) → Message
  not_converged : ConvergenceReason → Message
  characterized : AssertionResult → Message

pub data Note : Type 0 where
  pre_prepare_abort : Message → Note
  lease_note : String → Note
  recovery_note : Bool → Note
  fingerprint_note : (banked : String) → (observed : Option String) → Note
  language_note : (banked : String) → Note
  version_note : (path banked : String) → Note
  profile_invalid : (boundary : String) → Reason → Note

-- The strict-absence query at the end of a cleanup; `none` is a count that the output does not show.
pub data Requery : Type 0 where
  not_queried : Requery
  remaining : (guid : String) → Option ℕ → Requery
  requery_failed : Raised → Requery

pub record CleanupEntry : Type 0 where
  pub index : ℕ
  pub step : Step
  pub result : Result Raised Journal

pub record Cleanup : Type 0 where
  pub ran : Bool
  pub journal : List CleanupEntry
  pub requery : Requery

-- The local variables of `execute_transaction` that change, with the provenance.
pub record Session (W : Type 0) : Type 0 where
  pub txn : Transaction
  pub registry : Registry
  pub lease : Option Lease
  pub prepared_context : Option InteractiveContext
  pub events_out : List TransitionEvent
  pub notes : List Note
  pub steps : List Journal
  pub cleanup : Option Cleanup
  pub console : Option (String × Bool)
  pub world : W

pub record ConsoleState : Type 0 where
  pub state : String
  pub helper_responds : Bool

pub data HelperRequest : Type 0 where
  context_request : HelperRequest
  file_version_request : String → HelperRequest

pub record HelperResult : Type 0 where
  pub outcome : String
  pub payload : Fields
  pub error : Option String

pub record Fact : Type 0 where
  pub value : Value
  pub category : FactCategory
  pub volatile_subcategory : Option VolatileSubcategory

-- What the execution calls: operations on the world that may raise, the observer of the post-oracle
-- with its clock and sleep, and the functions of Python and its libraries.
pub record Host (W : Type 0) : Type 0 where
  pub lease_clock : Clock
  pub wait_console_unlocked : W → Result HostError ConsoleState × W
  pub snapshots : (vm_name checkpoint_name : String) → W → Result HostError String × W
  pub domain_dns : W → Result HostError String × W
  pub gpos : (guid : String) → W → Result HostError String × W
  pub helper : HelperRequest → W → Result HostError HelperResult × W
  pub interpolate : Fields → W → Result HostError Fields × W
  pub primitive : String → Fields → W → Result HostError Fields × W
  pub output : String → W → Option String
  pub collect_facts : (guid domain : String) → W → Result HostError (Dict Fact) × W
  pub observe : (guid domain : String) → W → Facts × W
  pub monotonic : W → ℕ × W
  pub sleep : ℕ → W → W
  pub say : Message → String
  pub search_number : (name text : String) → Option ℕ
  pub substitute : String → Result ExecMessage String
  pub text_of : Value → String
  pub python : Runtime
  pub parse : String → Option Expr
  pub strip : String → String

pub data Baseline : Type 0 where
  ui_language : (value : String) → Baseline
  binary_version : (path value : String) → Baseline

-- The capability, the profile and the estate, as far as the execution reads them.
pub record Plan : Type 0 where
  pub capability_id : String
  pub transaction_id : String
  pub sheet : RunSheet
  pub channel_contract : Option Value
  pub gpo_transaction : Bool
  pub envelope : Option Value
  pub actions : Dict ActionClass
  pub banked_digest : Option String
  pub baseline_values : List Baseline
  pub lease_target : String
  pub lease_holder : String
  pub vm_name : String
  pub checkpoint_name : String

-- The verdict of a record: the first of its sources that is not empty.
pub data Verdict : Type 0 where
  by_reason : Reason → Verdict
  by_characterization : String → Verdict
  by_abort : Message → Verdict
  by_state : State → Verdict

pub record Record : Type 0 where
  pub state : State
  pub verdict : Verdict
  pub envelope_result : Option AssertionResult
  pub events : List TransitionEvent
  pub capability : String
  pub run_sheet : String
  pub transaction_id : Option String
  pub console : Option (String × Bool)
  pub steps : List Journal
  pub cleanup : Option Cleanup
  pub notes : List Note

-- `txn.state or "indeterminate"`, and every other state that a record does not have.
unfoldable pub record_state : Option State → State
record_state none = indeterminate
record_state (some s) = if is_terminal_state s then s else indeterminate

-- The last note of a pre-prepare abort.
unfoldable pub last_abort : List Note → Option Message
last_abort [] = none
last_abort (pre_prepare_abort m ∷ notes) = elim (last_abort notes) [
  | none ↦ some m
  | some later ↦ some later
]
last_abort (_ ∷ notes) = last_abort notes

abbrev or_abort : Option Message → State → Verdict
or_abort (some m) state = by_abort m
or_abort none state = by_state state

abbrev or_characterization : Option String → Verdict → Verdict
or_characterization none rest = rest
or_characterization (some text) rest = if text == "" then rest else by_characterization text

abbrev or_reason : Option Reason → Verdict → Verdict
or_reason none rest = rest
or_reason (some (given text)) rest = if text == "" then rest else by_reason (given text)
or_reason (some reason) rest = by_reason reason

unfoldable pub emit : {W : Type 0} → Plan → Option AssertionResult → Session W → Record
unfolding record_state last_abort
emit plan envelope_result s =
    let state = record_state s.txn.state in
    record {
      state = state;
      verdict =
          or_reason s.txn.indeterminate_reason
            (or_characterization s.txn.characterization (or_abort (last_abort s.notes) state));
      envelope_result = envelope_result;
      events = s.events_out;
      capability = plan.capability_id;
      run_sheet = plan.sheet.name;
      transaction_id = s.txn.transaction_id;
      console = s.console;
      steps = s.steps;
      cleanup = s.cleanup;
      notes = s.notes;
    }

abbrev pub host_result : {A : Type 0} → Result HostError A → Result Raised A
host_result (ok a) = ok a
host_result (err e) = err (raised_by e)

abbrev pub last_event : List TransitionEvent → Option TransitionEvent
last_event [] = none
last_event (e ∷ []) = some e
last_event (e ∷ (f ∷ es)) = last_event (f ∷ es)

abbrev pub has_state : Option State → Bool
has_state none = false
has_state (some s) = true

module _ {W : Type 0} where
  abbrev pub add_note : Note → Session W → Session W
  add_note note s = record s { notes = s.notes ++ note ∷ [] }

  abbrev pub add_event : Option TransitionEvent → Session W → Session W
  add_event none s = s
  add_event (some e) s = record s { events_out = s.events_out ++ e ∷ [] }

  -- `record_event(txn.events[-1])`
  unfoldable pub record_event : Session W → Session W
  record_event s = add_event (last_event s.txn.events) s

  -- A method of the transaction, then `record_event` if it returns.
  abbrev pub keep_outcome : Outcome × Transaction → Action (Session W) Exception (Unit {0})
  keep_outcome (returned e, txn) s = (ok tt, record_event (record s { txn = txn }))
  keep_outcome (raised x, txn) s = (err (foreign (transaction_raised x)), record s { txn = txn })

  abbrev pub on_world : {A : Type 0} → (W → Result HostError A × W) → Action (Session W) Exception A
  on_world f s = let (r, w) = f s.world in (host_result r, record s { world = w })

  abbrev pub try_do :
      {A B : Type 0}
      → Action (Session W) Exception A
      → (Raised → Action (Session W) Exception B)
      → (A → Action (Session W) Exception B)
      → Action (Session W) Exception B
  try_do m handler f s = let (r, s') = m s in elim r [ ok a ↦ f a s' | err e ↦ handler e s' ]

  module _ (h : Host W) (plan : Plan) where
    unfoldable pub abort_indeterminate : Message → Session W → Session W
    unfolding is_terminal mark_indeterminate
    abort_indeterminate reason s =
        if has_state s.txn.state && not (is_terminal s.txn)
        then record s { txn = (mark_indeterminate (h.say reason) s.txn).1 }
        else add_note (pre_prepare_abort reason) s

    -- The lease is released if it is still active; an active lease can be released.
    abbrev pub release_from : Option Lease → Session W → Session W
    release_from none s = s
    release_from (some lease) s =
        let (active, r) = is_active h.lease_clock lease s.registry in
        if active then record s { registry = (release lease r).1 } else record s { registry = r }

    unfoldable pub release_lease : Session W → Session W
    unfolding is_active release
    release_lease s = release_from s.lease s

    unfoldable pub finish : Option AssertionResult → Action (Session W) Exception Record
    unfolding emit release_lease
    finish assertion s = let s' = release_lease s in (ok (emit plan assertion s'), s')
