-- ===== src/Execution/Crossing.antt =====
-- src/wcd/exec_transaction.py: the callback `on_commit` of `execute_transaction`.
use windows_console_driver.Prelude.{
  String, Bool, true, false, Option, none, some, List, if◌then◌else◌,
}
use windows_console_driver.Prelude.Results.{Result, ok, err}
use windows_console_driver.Prelude.Dict.{lookup}
use windows_console_driver.Transaction.{State, commit_attempted, Transaction, Outcome, commit}
use windows_console_driver.Leases.Context.{InteractiveContext, ContextFieldMismatch, assert_context}
use windows_console_driver.RunSheets.Executor.{
  ActionClass, potentially_mutating, commit_point, context_unavailable, context_differs,
  no_prepared_context, foreign, Action, refuse_step,
}
use windows_console_driver.Execution.{
  crosses_boundary, Exception, exec_error, Raised, Session, Host, Plan, record_event, keep_outcome,
  try_do,
}
use windows_console_driver.Execution.Helper.{helper_context}

-- What of a context is compared at a crossing: the session, the user and the desktop.
unfoldable pub session_only : InteractiveContext → InteractiveContext
session_only c = record c { foreground = none; ui_language = none }

abbrev pub is_attempted : Option State → Bool
is_attempted (some commit_attempted) = true
is_attempted _ = false

module _ {W : Type 0} (h : Host W) (plan : Plan) where
  unfoldable pub classification : String → Option ActionClass
  unfolding lookup
  classification action = lookup action plan.actions

  -- An undeclared crossing passes no reason.
  abbrev pub commit_class : Option ActionClass → String → Session W → Outcome × Transaction
  commit_class (some commit_point) boundary s =
      commit boundary true (h.say (crosses_boundary boundary commit_point)) s.txn
  commit_class (some potentially_mutating) boundary s =
      commit boundary true (h.say (crosses_boundary boundary potentially_mutating)) s.txn
  commit_class _ boundary s = commit boundary false "" s.txn

  -- Later crossings are part of the same attempt.
  unfoldable pub cross : String → Action (Session W) Exception (Unit {0})
  unfolding classification record_event commit
  cross boundary s =
      if is_attempted s.txn.state
      then (ok tt, s)
      else keep_outcome (commit_class (classification boundary) boundary s) s

  abbrev pub on_match :
      String
      → Result (List ContextFieldMismatch) (Unit {0})
      → Action (Session W) Exception (Unit {0})
  on_match boundary (ok tt) = cross boundary
  on_match boundary (err ms) = refuse_step (context_differs boundary)

  -- A context that is malformed refuses the crossing; another exception of the helper passes.
  abbrev pub context_refused : String → Raised → Action (Session W) Exception (Unit {0})
  context_refused boundary (foreign (exec_error m)) = refuse_step (context_unavailable boundary)
  context_refused boundary x = λ s. (err x, s)

  abbrev pub cross_from :
      Option InteractiveContext → String → Action (Session W) Exception (Unit {0})
  cross_from none boundary = refuse_step (no_prepared_context boundary)
  cross_from (some prepared) boundary =
      try_do (helper_context h) (context_refused boundary)
        (λ fresh. on_match boundary (assert_context (session_only prepared) (session_only fresh)))

  unfoldable pub on_commit : String → Action (Session W) Exception (Unit {0})
  unfolding session_only cross helper_context assert_context
  on_commit boundary s = cross_from s.prepared_context boundary s
