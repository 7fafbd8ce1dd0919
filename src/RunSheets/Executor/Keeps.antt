-- ===== src/RunSheets/Executor/Keeps.antt =====
-- A property of the state that the callbacks and the primitives keep is kept by an execution. An
-- exception that no step catches may leave a property of its own.
use windows_console_driver.Prelude.{
  ℕ, suc, String, Option, none, some, List, [], ◌∷◌, ◌==◌, string_eq, if-elim,
}
use windows_console_driver.Prelude.Results.{Result, ok, err}
use windows_console_driver.Value.{
  Value, null, boolean, int, str, list, tuple, dict, Fields, field, no_fields, find_field,
}
use windows_console_driver.Envelope.{member}
use windows_console_driver.RunSheets.{Step, RunSheet, gesture_actions}
use windows_console_driver.RunSheets.Executor.{
  ActionClass, orientation_only, reversible_pre_commit, potentially_mutating, commit_point, Journal,
  Failure, sheet_error, foreign, Action, Callbacks, Primitives, then_do, class_of, cross_at,
  commit_step, cross_class, cross_first, dispatch_step, execute_step, announce, attempt_step,
  close_entry, run_steps, execute,
}

module _ {S X : Type 0} (P : S → Type 0) (F : X → S → Type 0) where
  -- How an action ends: with the property, or by an exception with that of the exception.
  abbrev pub Leaves : {A : Type 0} → Result (Failure X) A × S → Type 0
  Leaves (ok a, s) = P s
  Leaves (err (sheet_error m j), s) = P s
  Leaves (err (foreign x), s) = F x s

  abbrev pub Keeps : {A : Type 0} → Action S X A → Type 0
  Keeps m = (s : S) → P s → Leaves (m s)

  pub then_do-Keeps :
      {A B : Type 0} (m : Action S X A) (f : A → Action S X B)
      → Keeps m
      → ((a : A) → Keeps (f a))
      → Keeps (then_do m f)
  then_do-Keeps {A = A} {B = B} m f h k s start = by_result (m s) (h s start)
    where
      by_result : (x : Result (Failure X) A × S) → Leaves x → Leaves (then_do (λ (_ : S). x) f s)
      by_result (ok a, s') q = k a s' q
      by_result (err (sheet_error m j), s') q = q
      by_result (err (foreign x), s') q = q

  abbrev KeepsFields : Action S X Fields → Type 0
  KeepsFields = Keeps {A = Fields}

  abbrev KeepsUnit : Action S X (Unit {0}) → Type 0
  KeepsUnit = Keeps {A = Unit {0}}

  abbrev pub OptionKeeps : {A : Type 0} → Option (A → Action S X (Unit {0})) → Type 0
  OptionKeeps none = Unit
  OptionKeeps {A = A} (some f) = (a : A) → Keeps (f a)

  commit_step-Keeps :
      (v : Option Value) (o : Option (String → Action S X (Unit {0})))
      → OptionKeeps o
      → Keeps (commit_step v o)
  unfolding commit_step
  commit_step-Keeps (some (str boundary)) o h =
      if-elim KeepsFields (boundary == "") (λ _ s q. q) (λ _. by_callback o h)
    where
      by_callback :
          (o : Option (String → Action S X (Unit {0})))
          → OptionKeeps o
          → Keeps (cross_at boundary o)
      by_callback none h = λ s q. q
      by_callback (some f) h =
          then_do-Keeps (f boundary) (λ _ s. (ok (field "boundary" (str boundary) no_fields), s))
            (h boundary) (λ _ s q. q)
  commit_step-Keeps none o h = λ s q. q
  commit_step-Keeps (some null) o h = λ s q. q
  commit_step-Keeps (some (boolean b)) o h = λ s q. q
  commit_step-Keeps (some (int n)) o h = λ s q. q
  commit_step-Keeps (some (list vs)) o h = λ s q. q
  commit_step-Keeps (some (tuple vs)) o h = λ s q. q
  commit_step-Keeps (some (dict fs)) o h = λ s q. q

  module _ (p : Primitives S X) (interpolates : (fs : Fields) → Keeps (p.interpolate fs))
      (performs : (action : String) (fs : Fields) → Keeps (p.primitive action fs))
      (c : Callbacks S X) (commits : OptionKeeps c.on_commit)
      (announces : OptionKeeps c.before_step) where
    dispatch_step-Keeps :
        (step : Step) (params : Fields) → Keeps (dispatch_step p c.on_commit step params)
    unfolding dispatch_step
    dispatch_step-Keeps step params =
        if-elim KeepsFields (step.action == "label") (λ _ s q. q)
          (λ _.
            if-elim KeepsFields (step.action == "commit")
              (λ _. commit_step-Keeps (find_field "boundary" params) c.on_commit commits)
              (λ _.
                if-elim KeepsFields (member step.action gesture_actions)
                  (λ _. performs step.action params) (λ _ s q. q)))

    execute_step-Keeps : (step : Step) → Keeps (execute_step p c.on_commit step)
    unfolding execute_step
    execute_step-Keeps step =
        then_do-Keeps (p.interpolate step.params) (dispatch_step p c.on_commit step)
          (interpolates step.params) (dispatch_step-Keeps step)

    cross_class-Keeps :
        (o : Option ActionClass) (f : String → Action S X (Unit {0})) (action : String)
        → Keeps (f action)
        → Keeps (cross_class p c o f action)
    cross_class-Keeps none f action h = λ s q. q
    cross_class-Keeps (some orientation_only) f action h = λ s q. q
    cross_class-Keeps (some reversible_pre_commit) f action h = λ s q. q
    cross_class-Keeps (some potentially_mutating) f action h = h
    cross_class-Keeps (some commit_point) f action h = h

    cross_first-Keeps :
        (o : Option (String → Action S X (Unit {0}))) (a : Option String)
        → OptionKeeps o
        → Keeps (cross_first p c o a)
    unfolding cross_first
    cross_first-Keeps none a h = λ s q. q
    cross_first-Keeps (some f) none h = λ s q. q
    cross_first-Keeps (some f) (some action) h =
        if-elim KeepsUnit (action == "") (λ _ s q. q)
          (λ _. cross_class-Keeps (class_of p c action) f action (h action))

    attempt_step-Keeps : (step : Step) → Keeps (attempt_step p c step)
    unfolding attempt_step
    attempt_step-Keeps step =
        then_do-Keeps (cross_first p c c.on_commit step.profile_action)
          (λ _. execute_step p c.on_commit step)
          (cross_first-Keeps c.on_commit step.profile_action commits) (λ _. execute_step-Keeps step)

    announce-Keeps :
        (o : Option (Step → Action S X (Unit {0}))) (step : Step)
        → OptionKeeps o
        → Keeps (announce p c o step)
    announce-Keeps none step h = λ s q. q
    announce-Keeps (some f) step h = h step

    run_steps-Keeps :
        (i : ℕ) (steps : List Step) (journal : Journal) → Keeps (run_steps p c i steps journal)
    unfolding run_steps
    run_steps-Keeps i [] journal = λ s q. q
    run_steps-Keeps i (step ∷ steps) journal =
        then_do-Keeps (announce p c c.before_step step)
          (λ _ s'.
            close_entry p c i step journal (λ more b. run_steps p c (suc i) steps more b)
              (attempt_step p c step s'))
          (announce-Keeps c.before_step step announces)
          (λ _ s q.
            by_result (λ more. run_steps-Keeps (suc i) steps more) (attempt_step p c step s)
              (attempt_step-Keeps step s q))
      where
        by_result :
            ((more : Journal) → Keeps (run_steps p c (suc i) steps more))
            → (x : Result (Failure X) Fields × S) → Leaves x
            → Leaves
                (close_entry p c i step journal (λ more b. run_steps p c (suc i) steps more b) x)
        by_result rest (ok detail, b) q = rest _ b q
        by_result rest (err (sheet_error m j), b) q = q
        by_result rest (err (foreign x), b) q = q

    pub execute-Keeps : (sheet : RunSheet) → Keeps (execute p c sheet)
    unfolding execute
    execute-Keeps sheet = run_steps-Keeps 0 sheet.steps []
