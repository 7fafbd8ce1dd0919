-- ===== src/Leases/Tests.antt =====
-- The context assertions of src/wcd/leases.py at concrete inputs.
use windows_console_driver.Prelude.{ℕ, ◌≡◌, ◌↔◌, none, some, All, string_eq}
use windows_console_driver.Prelude.Int.{pos}
use windows_console_driver.Prelude.Results.{ok}
use windows_console_driver.Leases.Context.{
  InteractiveContext, ForegroundContext, SameContext, IsTrueReport, context_mismatches,
  assert_context, assert_context_exact, context_mismatches_sound,
}

abbrev window_at : ℕ → ForegroundContext
window_at pid = record { hwnd = pos 7; pid = pos pid; process = "mmc.exe"; fingerprint = "abc" }

abbrev context_at : ℕ → InteractiveContext
context_at pid = record {
  session_id = pos 1;
  user = "LAB\\op";
  desktop = some "Default";
  foreground = some (window_at pid);
  ui_language = none;
}

assert_context_exact_example :
    (assert_context (context_at 4) (record (context_at 4) { ui_language = some "en-US" }) ≡ ok tt)
    ↔ SameContext (context_at 4) (record (context_at 4) { ui_language = some "en-US" })
assert_context_exact_example =
    assert_context_exact (context_at 4) (record (context_at 4) { ui_language = some "en-US" })

context_mismatches_sound_example :
    All
      (IsTrueReport (context_at 4) (context_at 5))
      (context_mismatches (context_at 4) (context_at 5))
context_mismatches_sound_example = context_mismatches_sound (context_at 4) (context_at 5)
