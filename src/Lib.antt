-- ===== src/Lib.antt =====
-- windows-console-driver: the parts that decide whether a change of a Windows console was made,
-- verified or must be reconciled.
--
-- - Transaction (src/wcd/transaction.py): the class Transaction as a function from a machine to an
--   outcome and a machine. `transition`, `refuse` and `refuse_replay` are the private methods of the
--   same names; `prepare`, `arm`, `commit`, `resolve` and `mark_indeterminate` are the public ones, each
--   with a `_from` helper on the state. Transaction.Diagram is the diagram of the states, Transaction.Calls
--   a call as data and a sequence of calls.
-- - Leases.Registry (src/wcd/leases.py): LeaseRegistry. The clock is a function of how often it was
--   read; a lease object has a number, since the code compares leases by `is`. Leases.Context:
--   context_mismatches and assert_context.
-- - Value: the Python values that facts hold, with `==`, `<`, `in` (Value.Compare) and the arithmetic
--   operators (Value.Arithmetic), exceptions as values.
-- - Predicate (src/wcd/envelope.py): compile_predicate and _validate; Predicate.Paths: _dotted and
--   _referenced_paths; Predicate.Eval: _eval and evaluate. `ast.parse`, `str.strip`, the identity test and
--   the `%` format are parameters.
-- - Envelope (src/wcd/envelope.py): the clauses and the keys that they predict and track;
--   Envelope.Delta: compute_delta; Envelope.Report: _characterize; Envelope.Assertion: assert_envelope, with
--   _holds, _record and _build_bindings; Envelope.Convergence: converge, whose observer, clock and sleep act
--   on a world; Envelope.Parsing: parse_envelope and its helpers.
-- - RunSheets (src/wcd/runsheets.py): load_run_sheet, and _phase_sheet of src/wcd/exec_transaction.py;
--   RunSheets.Channels: validate_channel_contract; RunSheets.Executor: GestureExecutor.execute, over a state
--   that its callbacks and primitives share. A step of the console or a script is a parameter.
-- - Execution (src/wcd/exec_transaction.py): execute_transaction. Execution is its local variables as a
--   record, with finish, abort_indeterminate, record_event and _emit; Execution.Helper: _helper_context and
--   _helper_file_version; Execution.Crossing: the callback on_commit; Execution.Ending: _cleanup;
--   Execution.Gates: sections 1b to 2c; Execution.Binding: _envelope_dict; Execution.Phases: the rest, section
--   by section. Execution.Invariant and its children carry one invariant through the phases, together with
--   the equations of the phases that the whole run went through.
-- - Policy (src/gpo_observers/delta.py): compute_changes and _is_covered;
--   Policy.Scopes: the checks of the forbid scopes and evaluate.
-- - Versions (src/gpo_observers/version_packing.py): pack and unpack.
-- - Categories (src/gpo_observers/facts.py): FACT_CATEGORY_RULES and declared_category; Categories.Glob:
--   fnmatch on the patterns of that table.
--
-- A transaction is resolved with the status of a convergence and its reproduction; a convergence asserts
-- the envelope on its frozen observation; an assertion evaluates the predicates of the clauses over the
-- bindings of the two states. Leases and contexts guard the same transaction. An execution joins them:
-- it holds a lease of the registry, runs the phases of a run sheet with a crossing callback that compares
-- contexts and commits, converges the parsed envelope, and resolves the transaction with the result. The
-- guest, the host, the helper and the sheet context act on one world, which may raise at each call.
--
-- The polling loop runs on fuel, the bound MAX_CONVERGE_POLLS of the code (10000), at which the code gives
-- up itself. All other functions are structural.
--
-- Not modelled: the texts of messages (kept by their parts), floats, the file leases, an observer that
-- raises while it converges, and what reads or writes files, sockets and processes:
-- src/wcd/transport.py, src/wcd/helper_client.py, src/wcd/cli.py, guest and tools. The primitives of
-- src/wcd/runsheets.py, the collectors of src/wcd/exec_transaction.py, src/wcd/profiles.py and the rest of
-- src/gpo_observers are not modelled either.
pub mod Prelude
pub mod Transaction
pub mod Leases
pub mod Value
pub mod Predicate
pub mod Envelope
pub mod Versions
pub mod Categories
pub mod RunSheets
pub mod Execution
pub mod Policy
