-- ===== src/Transaction/Calls.antt =====
-- The calls that a client of src/wcd/transaction.py can make, and runs of them.
use windows_console_driver.Prelude.{String, Bool, List, [], ◌∷◌}
use windows_console_driver.Transaction.{
  Preconditions, Method, Transaction, prepare, arm, commit, resolve, mark_indeterminate,
}

pub data Call : Type 0 where
  prepare_call : Preconditions → String → Call
  arm_call : String → Call
  commit_call : String → Bool → String → Call
  resolve_call : Bool → Bool → String → String → Call
  mark_call : String → Call

unfoldable pub call : Call → Method
unfolding prepare arm commit resolve mark_indeterminate
call (prepare_call p reason) t = prepare p reason t
call (arm_call reason) t = arm reason t
call (commit_call boundary declared reason) t = commit boundary declared reason t
call (resolve_call satisfied reproduced characterization reason) t =
    resolve satisfied reproduced characterization reason t
call (mark_call reason) t = mark_indeterminate reason t

-- A client may catch what a call raises and go on with the object.
unfoldable pub run : Transaction → List Call → Transaction
run t [] = t
run t (c ∷ cs) = run (call c t).1 cs
