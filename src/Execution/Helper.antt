-- ===== src/Execution/Helper.antt =====
-- src/wcd/exec_transaction.py: `_helper_context` and `_helper_file_version`, over the helper's payload.
use windows_console_driver.Prelude.{
  String, Bool, true, false, Option, none, some, ◌==◌, string_eq, if◌then◌else◌,
}
use windows_console_driver.Prelude.Results.{Result, ok, err, ◌>>=◌}
use windows_console_driver.Prelude.Int.{ℤ}
use windows_console_driver.Value.{Value, null, int, str, dict, Fields, find_field, truth}
use windows_console_driver.Leases.Context.{InteractiveContext, ForegroundContext}
use windows_console_driver.RunSheets.Executor.{Action, foreign, then_do}
use windows_console_driver.Execution.{
  ExecMessage, helper_failed, context_malformed, foreground_malformed, surface_malformed, Exception,
  exec_error, Session, HelperResult, context_request, file_version_request, Host, on_world,
}

abbrev pub integer_or :
    {A : Type 0} → ExecMessage → (ℤ → Result ExecMessage A) → Option Value → Result ExecMessage A
integer_or fault next (some (int n)) = next n
integer_or fault next _ = err fault

abbrev pub text_or :
    {A : Type 0}
    → ExecMessage
    → (String → Result ExecMessage A)
    → Option Value
    → Result ExecMessage A
text_or fault next (some (str s)) = if s == "" then err fault else next s
text_or fault next _ = err fault

-- `first or second`, of two keys.
abbrev pub or_value : Option Value → Option Value → Option Value
or_value none second = second
or_value (some v) second = if truth v then some v else second

abbrev pub text_only : Option Value → Option String
text_only (some (str s)) = some s
text_only _ = none

unfoldable pub surface_of : Fields → Result ExecMessage ForegroundContext
unfolding find_field truth
surface_of fg =
    integer_or surface_malformed
      (λ hwnd.
        integer_or surface_malformed
          (λ pid.
            text_or surface_malformed
              (λ process.
                text_or surface_malformed
                  (λ fingerprint. ok (record {
                    hwnd = hwnd;
                    pid = pid;
                    process = process;
                    fingerprint = fingerprint;
                  }))
                  (or_value (find_field "uia_digest" fg) (find_field "fingerprint" fg)))
              (or_value (find_field "process_name" fg) (find_field "process" fg)))
          (find_field "pid" fg))
      (find_field "hwnd" fg)

abbrev pub window_of : Option Value → Result ExecMessage (Option ForegroundContext)
window_of none = ok none
window_of (some null) = ok none
window_of (some (dict fg)) = surface_of fg >>= λ window. ok (some window)
window_of (some v) = err foreground_malformed

abbrev pub desktop_of : Option Value → Result ExecMessage (Option String)
desktop_of none = ok none
desktop_of (some null) = ok none
desktop_of (some (str s)) = ok (some s)
desktop_of (some v) = err context_malformed

-- The language is read leniently.
unfoldable pub context_of : Fields → Result ExecMessage InteractiveContext
unfolding find_field surface_of
context_of payload =
    integer_or context_malformed
      (λ session_id.
        text_or context_malformed
          (λ user. desktop_of (find_field "desktop" payload) >>= λ desktop.
            window_of (find_field "foreground" payload) >>= λ foreground. ok (record {
              session_id = session_id;
              user = user;
              desktop = desktop;
              foreground = foreground;
              ui_language = text_only (find_field "ui_language" payload);
            }))
          (find_field "user" payload))
      (find_field "session_id" payload)

abbrev pub nonempty_text : Option String → Option String
nonempty_text none = none
nonempty_text (some s) = if s == "" then none else some s

module _ {W : Type 0} (h : Host W) where
  abbrev pub exec_result : {A : Type 0} → Result ExecMessage A → Action (Session W) Exception A
  exec_result (ok a) s = (ok a, s)
  exec_result (err m) s = (err (foreign (exec_error m)), s)

  unfoldable pub helper_context : Action (Session W) Exception InteractiveContext
  unfolding context_of
  helper_context = then_do (on_world (h.helper context_request)) (λ (result : HelperResult).
      if result.outcome == "ok"
      then exec_result (context_of result.payload)
      else exec_result (err (helper_failed result.error)))

  -- The version, or none with what the helper reports.
  abbrev pub version_result :
      (succeeded : Bool)
      → HelperResult
      → Action (Session W) Exception (Option String × Option String)
  version_result true result s = (
    ok (
      nonempty_text (text_only (find_field "file_version" result.payload)),
      text_only (find_field "error" result.payload),
    ),
    s,
  )
  version_result false result s = (ok (none, result.error), s)

  unfoldable pub helper_file_version :
      String → Action (Session W) Exception (Option String × Option String)
  unfolding find_field
  helper_file_version path =
      then_do (on_world (h.helper (file_version_request path)))
        (λ (result : HelperResult). version_result (result.outcome == "ok") result)
