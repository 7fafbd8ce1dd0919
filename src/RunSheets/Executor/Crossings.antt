-- ===== src/RunSheets/Executor/Crossings.antt =====
-- Which steps of a sheet ask for the crossing callback of src/wcd/exec_transaction.py before they run.
use windows_console_driver.Prelude.{
  ℕ, suc, String, ◌≡◌, ◌≢◌, refl, ap, Bool, true, false, Option, none, some, List, [], ◌∷◌, ◌==◌,
  string_eq, ne-of-beq_false, Bool-cases, inl, inr, eq_iff,
}
use windows_console_driver.Prelude.Results.{Result, ok, err}
use windows_console_driver.Value.{Fields}
use windows_console_driver.RunSheets.{Step, RunSheet}
use windows_console_driver.RunSheets.Executor.{
  ActionClass, orientation_only, reversible_pre_commit, potentially_mutating, commit_point, Journal,
  Failure, sheet_error, foreign, Action, Callbacks, Primitives, then_do, class_of, cross_class,
  cross_first, execute_step, attempt_step, close_entry, run_steps, execute,
}

abbrev pub crosses : ActionClass → Bool
crosses potentially_mutating = true
crosses commit_point = true
crosses _ = false

module _ {S X : Type 0} (p : Primitives S X) (c : Callbacks S X)
    (on_commit : String → Action S X (Unit {0})) where
  -- From a state to the one in which the step may run: a step without a profile action changes
  -- nothing; another has a declared class, and the callback has returned if the class is mutating.
  abbrev pub Cleared : Option String → S → S → Type 0
  Cleared none s s' = s ≡ s'
  Cleared (some action) s s' =
      (action ≡ "" → s ≡ s')
      × (action ≢ ""
          → (k : ActionClass) × (class_of p c action ≡ some k)
            × (crosses k ≡ true → on_commit action s ≡ (ok tt, s'))
            × (crosses k ≡ false → s ≡ s'))

  -- The steps ran one after another, each from the state that the one before left, and each cleared.
  abbrev pub Passed : List Step → S → S → Type 0
  Passed [] s s' = s ≡ s'
  Passed (step ∷ steps) s s' =
      (a b : S) × Cleared step.profile_action s a
      × ((detail : Fields) × (execute_step p (some on_commit) step a ≡ (ok detail, b)))
      × Passed steps b s'

  cross_class-Cleared :
      (o : Option ActionClass) (action : String) (s a : S)
      → cross_class p c o on_commit action s ≡ (ok tt, a)
      → (k : ActionClass) × (o ≡ some k)
        × (crosses k ≡ true → on_commit action s ≡ (ok tt, a))
        × (crosses k ≡ false → s ≡ a)
  cross_class-Cleared none action s a h = absurd (cc h)
  cross_class-Cleared (some orientation_only) action s a h =
      (orientation_only, refl, λ e. cc e, λ e. ap (λ x. x.1) h)
  cross_class-Cleared (some reversible_pre_commit) action s a h =
      (reversible_pre_commit, refl, λ e. cc e, λ e. ap (λ x. x.1) h)
  cross_class-Cleared (some potentially_mutating) action s a h =
      (potentially_mutating, refl, λ e. h, λ e. cc e)
  cross_class-Cleared (some commit_point) action s a h = (commit_point, refl, λ e. h, λ e. cc e)

  cross_first-Cleared :
      (o : Option String) (s a : S)
      → cross_first p c (some on_commit) o s ≡ (ok tt, a)
      → Cleared o s a
  unfolding cross_first
  cross_first-Cleared none s a = λ h. ap (λ x. x.1) h
  cross_first-Cleared (some action) s a = elim (Bool-cases (action == "")) [
    | inl e ↦ rw e (λ h. (λ _. ap (λ x. x.1) h, λ n. absurd (n ((eq_iff action "").0 e))))
    | inr e ↦ rw e (λ h. (
      λ n. absurd (ne-of-beq_false action "" e n),
      λ _. cross_class-Cleared (class_of p c action) action s a h,
    ))
  ]

  attempt_step-Passed :
      (wired : c.on_commit ≡ some on_commit) (step : Step) (s b : S) (detail : Fields)
      → attempt_step p c step s ≡ (ok detail, b)
      → (a : S) × Cleared step.profile_action s a
        × (execute_step p (some on_commit) step a ≡ (ok detail, b))
  unfolding attempt_step
  attempt_step-Passed wired step s b detail =
      rw wired (by_first (cross_first p c (some on_commit) step.profile_action s) refl)
    where
      by_first :
          (x : Result (Failure X) (Unit {0}) × S)
          → cross_first p c (some on_commit) step.profile_action s ≡ x
          → then_do (λ _. x) (λ _. execute_step p (some on_commit) step) s ≡ (ok detail, b)
          → (a : S) × Cleared step.profile_action s a
            × (execute_step p (some on_commit) step a ≡ (ok detail, b))
      by_first (ok tt, a) e h = (a, cross_first-Cleared step.profile_action s a e, h)
      by_first (err f, a) e h = absurd (cc h)

  run_steps-Passed :
      c.on_commit ≡ some on_commit
      → c.before_step ≡ none
      → (i : ℕ) (steps : List Step) (before journal : Journal) (s s' : S)
      → run_steps p c i steps before s ≡ (ok journal, s')
      → Passed steps s s'
  unfolding run_steps
  run_steps-Passed wired quiet i [] before journal s s' = λ h. ap (λ x. x.1) h
  run_steps-Passed wired quiet i (step ∷ steps) before journal s s' = rw quiet (
      by_result (λ more b. run_steps-Passed wired quiet (suc i) steps more journal b s')
        (attempt_step p c step s) refl)
    where
      by_result :
          ((more : Journal) (b : S)
            → run_steps p c (suc i) steps more b ≡ (ok journal, s')
            → Passed steps b s')
          → (x : Result (Failure X) Fields × S) → attempt_step p c step s ≡ x
          → close_entry p c i step before (λ more b. run_steps p c (suc i) steps more b) x
            ≡ (ok journal, s')
          → Passed (step ∷ steps) s s'
      by_result rest (ok detail, b) e h =
          let (a, cleared, ran) = attempt_step-Passed wired step s b detail e in
          (a, b, cleared, (detail, ran), rest _ b h)
      by_result rest (err (sheet_error m j), b) e h = absurd (cc h)
      by_result rest (err (foreign x), b) e h = absurd (cc h)

  -- With a crossing callback and without a before_step callback: an execution that returns has run
  -- every step from the state that the step before left. Before each step that carries a profile
  -- action the class of the action was found declared, and where it is potentially mutating or a
  -- commit point, the callback returned for that action, and the step ran in the state it left.
  pub execute-Passed :
      c.on_commit ≡ some on_commit
      → c.before_step ≡ none
      → (sheet : RunSheet) (journal : Journal) (s s' : S) → execute p c sheet s ≡ (ok journal, s')
      → Passed sheet.steps s s'
  unfolding execute
  execute-Passed wired quiet sheet journal s s' h =
      run_steps-Passed wired quiet 0 sheet.steps [] journal s s' h
