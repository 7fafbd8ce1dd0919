-- ===== src/Execution/Invariant/Leasing.antt =====
-- The phases that hold the lease end as an execution should end, and what an acquisition does.
use windows_console_driver.Prelude.{
  String, ◌≡◌, refl, ap, Bool, Option, none, some, ◌==◌, string_eq, if-elim, if◌then◌else◌,
}
use windows_console_driver.Prelude.Results.{Result, ok, err}
use windows_console_driver.Prelude.Dict.{Dict, lookup, insert}
use windows_console_driver.Leases.Registry.{
  Clock, Lease, LeaseError, Registry, acquire, is_live, contend, grant,
}
use windows_console_driver.Leases.Registry.Exclusion.{leases-is_live}
use windows_console_driver.RunSheets.Executor.{Action}
use windows_console_driver.RunSheets.Executor.Keeps.{Keeps, then_do-Keeps}
use windows_console_driver.Execution.{
  Exception, Raised, recovery_note, no_recovery, probe_failed, console_not_unlocked, ConsoleState,
  Session, Host, Plan, Record, add_note, on_world,
}
use windows_console_driver.Execution.Ending.{end_aborted}
use windows_console_driver.Execution.Gates.{
  check_console, checkpoint_exists, with_recovery, check_recovery, check_surface, is_positive,
}
use windows_console_driver.Execution.Phases.{setup, leased}
use windows_console_driver.Execution.Invariant.{Running}
use windows_console_driver.Execution.Invariant.Steps.{running_world}
use windows_console_driver.Execution.Invariant.Records.{Ends}
use windows_console_driver.Execution.Invariant.Walk.{
  then_do-Runs, end_aborted-Closes, try_world-Runs, Plain, on_world-Plain,
}
use windows_console_driver.Execution.Invariant.Walk
use windows_console_driver.Execution.Invariant.Preparation.{setup-Runs}
use windows_console_driver.Execution.Invariant.Gating.{
  Gated, passed, refused, broke, check_surface-Gated,
}

module _ {W : Type 0} (h : Host W) (plan : Plan) (l : Lease) (ls : Dict Lease)
    (forever : l.expires_at ≡ none) (listed : lookup l.target_id ls ≡ some l)
    (whole : Result Raised Record × Session W) where
  abbrev P : Session W → Type 0
  P = Running h plan l ls

  abbrev Runs : Action (Session W) Exception Record → Type 0
  Runs = Walk.Runs h plan l ls forever listed whole

  check_surface-Runs : Runs (check_surface h plan (setup h plan))
  check_surface-Runs s q =
      by_gate (check_surface h plan (setup h plan) s)
        (check_surface-Gated h plan l ls forever listed (setup h plan) s q)
    where
      by_gate :
          (x : Result Raised Record × Session W)
          → Gated h plan l ls forever listed (setup h plan) s x
          → whole ≡ x
          → Ends h plan l ls whole forever listed x
      by_gate _ (passed s' q' found) e = setup-Runs h plan l ls forever listed whole s' q' e
      by_gate _ (refused m s' released) e = tt
      by_gate _ (broke x s' other) e = tt

  checkpoint_exists-Plain : Plain h plan l ls forever listed whole (checkpoint_exists h plan)
  unfolding checkpoint_exists
  checkpoint_exists-Plain =
      if-elim (Keeps P (λ _. P) {A = Bool}) (plan.checkpoint_name == "") (λ _ s q. q)
        (λ _.
          then_do-Keeps P (λ _. P) (on_world (h.snapshots plan.vm_name plan.checkpoint_name))
            (λ stdout s. (ok (is_positive (h.search_number "count" stdout)), s))
            (on_world-Plain h plan l ls forever listed whole
              (h.snapshots plan.vm_name plan.checkpoint_name))
            (λ stdout s q. q))

  check_recovery-Runs : Runs (check_recovery h plan (check_surface h plan (setup h plan)))
  unfolding check_recovery
  check_recovery-Runs =
      try_world-Runs h plan l ls forever listed whole (checkpoint_exists h plan)
        (λ x. end_aborted h plan (probe_failed x))
        (with_recovery h plan (check_surface h plan (setup h plan))) checkpoint_exists-Plain
        (λ x. end_aborted-Closes h plan l ls forever listed whole (probe_failed x))
        (λ found s₀ s came q _.
          if-elim (λ x. whole ≡ x → Ends h plan l ls whole forever listed x) found
            (λ _. check_surface-Runs (add_note (recovery_note found) s) q)
            (λ _ _.
              end_aborted-Closes h plan l ls forever listed whole no_recovery
                (add_note (recovery_note found) s) q))

  pub leased-Runs : Runs (leased h plan)
  unfolding leased check_console
  leased-Runs =
      then_do-Runs h plan l ls forever listed whole (on_world h.wait_console_unlocked)
        (λ (console : ConsoleState) s.
          let s' = record s { console = some (console.state, console.helper_responds) } in
          if console.state == "unlocked"
          then check_recovery h plan (check_surface h plan (setup h plan)) s'
          else end_aborted h plan (console_not_unlocked console.state) s')
        (running_world h plan l ls h.wait_console_unlocked)
        (λ console s q.
          if-elim (λ x. whole ≡ x → Ends h plan l ls whole forever listed x)
            (console.state == "unlocked")
            (λ _.
              check_recovery-Runs
                (record s { console = some (console.state, console.helper_responds) }) q)
            (λ _ _.
              end_aborted-Closes h plan l ls forever listed whole
                (console_not_unlocked console.state)
                (record s { console = some (console.state, console.helper_responds) }) q))

-- What an acquisition without a time limit does to the leases.
abbrev pub Acquires : String → Registry → Result LeaseError Lease × Registry → Type 0
Acquires target r (ok l, r') =
    (l.expires_at ≡ none) × (l.target_id ≡ target) × (r'.leases ≡ insert target l r.leases)
Acquires target r (err e, r') = r'.leases ≡ r.leases

grant-Acquires :
    (clock : Clock) (target holder : String) (r₀ r : Registry)
    → r.leases ≡ r₀.leases
    → Acquires target r₀ (grant clock target holder none r)
unfolding grant
grant-Acquires clock target holder r₀ r same = (
  refl,
  refl,
  ap
      (λ x.
        insert target
          (record {
            ref = r.allocated;
            target_id = target;
            holder = holder;
            acquired_at = clock r.readings;
            expires_at = none;
          })
          x)
      same,
)

contend-Acquires :
    (clock : Clock) (target holder : String) (r : Registry) (o : Option Lease)
    → Acquires target r (contend o clock target holder none r)
unfolding contend
contend-Acquires clock target holder r none = grant-Acquires clock target holder r r refl
contend-Acquires clock target holder r (some current) =
    if-elim (Acquires target r) (is_live clock current r).0 (λ _. leases-is_live clock current r)
      (λ _.
        grant-Acquires clock target holder r (is_live clock current r).1
          (leases-is_live clock current r))

pub acquire-Acquires :
    (clock : Clock) (target holder : String) (r : Registry)
    → Acquires target r (acquire clock target holder none r)
unfolding acquire
acquire-Acquires clock target holder r =
    if-elim (Acquires target r) (target == "") (λ _. refl)
      (λ _.
        if-elim (Acquires target r) (holder == "") (λ _. refl)
          (λ _. contend-Acquires clock target holder r (lookup target r.leases)))
