-- ===== src/Transaction.antt =====
-- src/wcd/transaction.py: the transaction state machine.
-- A method returns what it returns or raises, beside the object as the call leaves it. A message
-- is a constructor that carries the values its text shows. The proofs are in the modules below.
pub mod Diagram
mod Calls
mod Effects
mod Invariant
mod Traces
mod Replay
mod Exact
mod Tests
use windows_console_driver.Prelude.{
  ℕ, ◌+◌, String, Bool, true, false, not, Option, none, some, List, [], ◌∷◌, ◌++◌, ◌==◌, string_eq,
  length, if◌then◌else◌,
}

pub data State : Type 0 where
  prepared armed commit_attempted verified disproven indeterminate : State

pub data Flag : Type 0 where
  pre_oracle_done lease_held context_asserted recovery_declared : Flag

pub data Guard : Type 0 where
  prepare_guard state_guard terminal_guard replay_guard undeclared_guard : Guard

pub data Reason : Type 0 where
  given : String → Reason
  prepare_not_fresh : State → Reason
  missing_preconditions : List Flag → Reason
  preconditions_recorded invocation_started : Reason
  arm_before_prepare already_armed : Reason
  cannot_rearm : State → Reason
  boundary_before_prepare : Reason
  terminal_no_crossings : State → Reason
  boundary_not_declared : String → Reason
  undeclared_hard_stop : String → Reason
  crossed_commit_point : String → Reason
  already_commit_attempted commit_before_arm commit_before_prepare : Reason
  cannot_commit_terminal : State → Reason
  resolve_requires_commit_attempted : Option State → Reason
  envelope_and_reproduction_held envelope_violated reproduction_failed : Reason
  nothing_prepared : Reason
  terminal_no_transitions : State → Reason

pub record TransitionEvent : Type 0 where
  pub sequence : ℕ
  pub from_state : Option State
  pub to_state : State
  pub reason : Reason

pub record GuardOutcome : Type 0 where
  pub guard : Guard
  pub reason : Reason

-- `GuardRefused`, `ReplayForbidden` and `UndeclaredMutation`, the errors that a method raises.
pub data TransactionError : Type 0 where
  guard_refused : Guard → Reason → TransactionError
  replay_forbidden : Reason → TransactionError
  undeclared_mutation : String → Reason → TransactionError

pub data Outcome : Type 0 where
  returned : TransitionEvent → Outcome
  raised : TransactionError → Outcome

pub record Transaction : Type 0 where
  pub transaction_id : Option String
  pub state : Option State
  pub events : List TransitionEvent
  pub refusals : List GuardOutcome
  pub characterization : Option String
  pub indeterminate_reason : Option Reason

unfoldable pub new : Option String → Transaction
new transaction_id = record {
  transaction_id = transaction_id;
  state = none;
  events = [];
  refusals = [];
  characterization = none;
  indeterminate_reason = none;
}

abbrev pub is_terminal_state : State → Bool
is_terminal_state verified = true
is_terminal_state disproven = true
is_terminal_state indeterminate = true
is_terminal_state _ = false

unfoldable pub is_terminal : Transaction → Bool
is_terminal t = elim t.state [ none ↦ false | some s ↦ is_terminal_state s ]

unfoldable pub reconcile_required : Transaction → Bool
reconcile_required t = elim t.state [ some indeterminate ↦ true | _ ↦ false ]

abbrev pub Method : Type 0
Method = Transaction → Outcome × Transaction

-- `reason or default`: the empty text is falsy.
abbrev pub or_default : String → Reason → Reason
or_default reason default = if reason == "" then default else given reason

unfoldable pub transition : State → Reason → Method
transition to_state reason t =
    let event : TransitionEvent = record {
      sequence = length t.events + 1;
      from_state = t.state;
      to_state = to_state;
      reason = reason;
    } in
    (returned event, record t { events = t.events ++ event ∷ []; state = some to_state })

unfoldable pub refuse : Guard → Reason → Method
refuse guard reason t = (
  raised (guard_refused guard reason),
  record t { refusals = t.refusals ++ record { guard = guard; reason = reason } ∷ [] },
)

unfoldable pub refuse_replay : Reason → Method
refuse_replay reason t = (
  raised (replay_forbidden reason),
  record t { refusals = t.refusals ++ record { guard = replay_guard; reason = reason } ∷ [] },
)

-- The flags of `prepare`, in the order of its dictionary.
pub record Preconditions : Type 0 where
  pub pre_oracle : Bool
  pub lease : Bool
  pub context : Bool
  pub recovery : Bool

abbrev pub unless : Bool → Flag → List Flag → List Flag
unless flag name rest = if flag then rest else name ∷ rest

unfoldable pub missing_flags : Preconditions → List Flag
missing_flags p = unless p.pre_oracle pre_oracle_done (
    unless p.lease lease_held
      (unless p.context context_asserted (unless p.recovery recovery_declared [])))

unfoldable pub prepare_fresh : List Flag → String → Method
prepare_fresh [] reason t = transition prepared (or_default reason preconditions_recorded) t
prepare_fresh (f ∷ fs) reason t = refuse prepare_guard (missing_preconditions (f ∷ fs)) t

unfoldable pub prepare_from : Option State → Preconditions → String → Method
unfolding prepare_fresh
prepare_from none p reason t = prepare_fresh (missing_flags p) reason t
prepare_from (some s) p reason t = refuse state_guard (prepare_not_fresh s) t

unfoldable pub prepare : Preconditions → String → Method
unfolding prepare_from
prepare p reason t = prepare_from t.state p reason t

unfoldable pub arm_from : Option State → String → Method
arm_from (some prepared) reason t = transition armed (or_default reason invocation_started) t
arm_from none reason t = refuse state_guard arm_before_prepare t
arm_from (some armed) reason t = refuse state_guard already_armed t
arm_from (some s) reason t = refuse_replay (cannot_rearm s) t

unfoldable pub arm : String → Method
unfolding arm_from
arm reason t = arm_from t.state reason t

-- The hard stop: the refusal is recorded, the machine moves to indeterminate, and the call raises.
unfoldable pub hard_stop : String → Reason → Method
unfolding transition
hard_stop boundary stop_reason t =
    let recorded : Transaction = record t {
      refusals = t.refusals ++ record { guard = undeclared_guard; reason = stop_reason } ∷ [];
    } in
    let stopped : Transaction =
      (transition indeterminate (undeclared_hard_stop boundary) recorded).1 in
    (
      raised (undeclared_mutation boundary stop_reason),
      record stopped { indeterminate_reason = some stop_reason },
    )

unfoldable pub commit_undeclared : Option State → String → String → Method
unfolding hard_stop
commit_undeclared none boundary reason t = refuse state_guard boundary_before_prepare t
commit_undeclared (some s) boundary reason t =
    if is_terminal_state s
    then refuse terminal_guard (terminal_no_crossings s) t
    else hard_stop boundary (or_default reason (boundary_not_declared boundary)) t

unfoldable pub commit_declared : Option State → String → String → Method
commit_declared (some armed) boundary reason t =
    transition commit_attempted (or_default reason (crossed_commit_point boundary)) t
commit_declared (some commit_attempted) boundary reason t =
    refuse state_guard already_commit_attempted t
commit_declared (some prepared) boundary reason t = refuse state_guard commit_before_arm t
commit_declared none boundary reason t = refuse state_guard commit_before_prepare t
commit_declared (some s) boundary reason t = refuse_replay (cannot_commit_terminal s) t

unfoldable pub commit : String → Bool → String → Method
unfolding commit_undeclared commit_declared
commit boundary declared reason t =
    if not declared
    then commit_undeclared t.state boundary reason t
    else commit_declared t.state boundary reason t

-- `_indeterminate_reason` is written after the transition.
unfoldable pub go_indeterminate : Reason → Method
unfolding transition
go_indeterminate reason t =
    let (event, moved) = transition indeterminate reason t in
    (event, record moved { indeterminate_reason = some reason })

-- The verdict of `resolve` from commit-attempted.
unfoldable pub resolve_verdict : Bool → Bool → String → String → Method
unfolding go_indeterminate
resolve_verdict true true characterization reason t =
    transition verified (or_default reason envelope_and_reproduction_held) t
resolve_verdict false reproduced characterization reason t =
    transition disproven (or_default reason envelope_violated)
      (record t { characterization = some characterization })
resolve_verdict true false characterization reason t =
    go_indeterminate (or_default reason reproduction_failed) t

unfoldable pub resolve_from : Option State → Bool → Bool → String → String → Method
unfolding resolve_verdict
resolve_from (some commit_attempted) satisfied reproduced characterization reason t =
    resolve_verdict satisfied reproduced characterization reason t
resolve_from s satisfied reproduced characterization reason t =
    refuse state_guard (resolve_requires_commit_attempted s) t

unfoldable pub resolve : Bool → Bool → String → String → Method
unfolding resolve_from
resolve envelope_satisfied reproduce_satisfied characterization reason t =
    resolve_from t.state envelope_satisfied reproduce_satisfied characterization reason t

unfoldable pub mark_from : Option State → String → Method
unfolding go_indeterminate
mark_from none reason t = refuse state_guard nothing_prepared t
mark_from (some s) reason t =
    if is_terminal_state s
    then refuse terminal_guard (terminal_no_transitions s) t
    else go_indeterminate (given reason) t

unfoldable pub mark_indeterminate : String → Method
unfolding mark_from
mark_indeterminate reason t = mark_from t.state reason t
