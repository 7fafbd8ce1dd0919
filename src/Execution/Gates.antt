-- ===== src/Execution/Gates.antt =====
-- src/wcd/exec_transaction.py: what `execute_transaction` asks before its setup, sections 1b to 2c. A
-- gate goes on with the next, ends with a record, or raises once it has released the lease.
use windows_console_driver.Prelude.{
  ℕ, suc, String, Bool, true, false, ◌||◌, Option, none, some, List, [], ◌∷◌, ◌==◌, string_eq,
  option_eq, if◌then◌else◌,
}
use windows_console_driver.Prelude.Results.{ok, err}
use windows_console_driver.Leases.Context.{InteractiveContext}
use windows_console_driver.RunSheets.Executor.{Action, foreign, then_do}
use windows_console_driver.Execution.{
  ExecMessage, gate_unreadable, fingerprint_mismatch, language_mismatch, version_unreadable,
  version_mismatch, Exception, exec_error, Raised, console_not_unlocked, probe_failed, no_recovery,
  recovery_note, fingerprint_note, language_note, version_note, Session, ConsoleState, Baseline,
  ui_language, binary_version, Host, Plan, Record, add_note, on_world, try_do, release_lease,
}
use windows_console_driver.Execution.Helper.{helper_context, helper_file_version}
use windows_console_driver.Execution.Ending.{end_aborted}

abbrev pub is_language : List Baseline → Bool
is_language [] = false
is_language (ui_language v ∷ bs) = true
is_language (binary_version p v ∷ bs) = is_language bs

abbrev pub has_digest : Option String → Bool
has_digest none = false
has_digest (some d) = true

abbrev pub fingerprint_of : Option InteractiveContext → Option String
fingerprint_of none = none
fingerprint_of (some c) = elim c.foreground [ none ↦ none | some w ↦ some w.fingerprint ]

abbrev pub language_of : Option InteractiveContext → Option String
language_of none = none
language_of (some c) = c.ui_language

abbrev pub is_positive : Option ℕ → Bool
is_positive (some (suc n)) = true
is_positive _ = false

module _ {W : Type 0} (h : Host W) (plan : Plan) where
  abbrev pub Step : Type 0
  Step = Action (Session W) Exception Record

  -- A determinate refusal: nothing has changed, so it raises instead of writing a record.
  abbrev pub refuse_before_setup : {A : Type 0} → ExecMessage → Action (Session W) Exception A
  refuse_before_setup m s = (err (foreign (exec_error m)), release_lease h plan s)

  unfoldable pub check_console : Step → Step
  check_console next = then_do (on_world h.wait_console_unlocked) (λ (console : ConsoleState) s.
      let s' = record s { console = some (console.state, console.helper_responds) } in
      if console.state == "unlocked"
      then next s'
      else end_aborted h plan (console_not_unlocked console.state) s')

  -- An estate that names no checkpoint has none.
  unfoldable pub checkpoint_exists : Action (Session W) Exception Bool
  checkpoint_exists =
      if plan.checkpoint_name == ""
      then (λ s. (ok false, s))
      else then_do (on_world (h.snapshots plan.vm_name plan.checkpoint_name))
          (λ stdout s. (ok (is_positive (h.search_number "count" stdout)), s))

  abbrev pub with_recovery : Step → Bool → Step
  with_recovery next recovery_ok s =
      let s' = add_note (recovery_note recovery_ok) s in
      if recovery_ok then next s' else end_aborted h plan no_recovery s'

  unfoldable pub check_recovery : Step → Step
  unfolding checkpoint_exists
  check_recovery next =
      try_do checkpoint_exists (λ x. end_aborted h plan (probe_failed x)) (with_recovery next)

  -- The one context read of both gates, when one of them needs it.
  abbrev pub gate_refused : {A : Type 0} → Raised → Action (Session W) Exception A
  gate_refused (foreign (exec_error m)) =
      refuse_before_setup (gate_unreadable (has_digest plan.banked_digest) m)
  gate_refused x = λ s. (err x, s)

  unfoldable pub gate_context : Action (Session W) Exception (Option InteractiveContext)
  unfolding helper_context
  gate_context =
      if has_digest plan.banked_digest || is_language plan.baseline_values
      then try_do (helper_context h) gate_refused (λ c s. (ok (some c), s))
      else (λ s. (ok none, s))

  abbrev pub check_digest :
      Option String → Option InteractiveContext → Action (Session W) Exception (Unit {0})
  check_digest none context s = (ok tt, s)
  check_digest (some banked) context s =
      let observed = fingerprint_of context in
      let s' = add_note (fingerprint_note banked observed) s in
      if observed == some banked
      then (ok tt, s')
      else refuse_before_setup (fingerprint_mismatch banked observed) s'

  abbrev pub check_version :
      (path banked : String)
      → Option String × Option String
      → Action (Session W) Exception (Unit {0})
  check_version path banked (none, error) s = refuse_before_setup (version_unreadable path error) s
  check_version path banked (some observed, error) s =
      if observed == banked
      then (ok tt, add_note (version_note path banked) s)
      else refuse_before_setup (version_mismatch path banked observed) s

  abbrev pub check_baseline :
      Baseline → Option InteractiveContext → Action (Session W) Exception (Unit {0})
  check_baseline (ui_language banked) context s =
      if language_of context == some banked
      then (ok tt, add_note (language_note banked) s)
      else refuse_before_setup (language_mismatch banked (language_of context)) s
  check_baseline (binary_version path banked) context s =
      then_do (helper_file_version h path) (check_version path banked) s

  unfoldable pub check_baselines :
      List Baseline → Option InteractiveContext → Action (Session W) Exception (Unit {0})
  unfolding helper_file_version
  check_baselines [] context s = (ok tt, s)
  check_baselines (b ∷ bs) context s =
      then_do (check_baseline b context) (λ _ s'. check_baselines bs context s') s

  unfoldable pub check_surface : Step → Step
  unfolding gate_context check_baselines
  check_surface next = then_do gate_context (λ (context : Option InteractiveContext).
      then_do (check_digest plan.banked_digest context)
        (λ _. then_do (check_baselines plan.baseline_values context) (λ _. next)))
