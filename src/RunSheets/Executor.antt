-- ===== src/RunSheets/Executor.antt =====
-- src/wcd/runsheets.py: `GestureExecutor.execute` and the dispatch of a step. The state `S` is whatever
-- the callbacks and the primitives read and write; `interpolate` resolves references against the sheet
-- context, and `primitive` runs the guest, host and console actions. The journal keeps the whole step
-- where the source keeps its label, and whole texts where the source cuts them.
pub mod Journal
pub mod Crossings
pub mod Keeps
use windows_console_driver.Prelude.{
  ℕ, zero, suc, String, Bool, true, false, ◌||◌, Option, none, some, List, [], ◌∷◌, ◌++◌, ◌==◌,
  string_eq, if◌then◌else◌,
}
use windows_console_driver.Prelude.Results.{Result, ok, err}
use windows_console_driver.Value.{Value, str, Fields, no_fields, field, find_field}
use windows_console_driver.Envelope.{member}
use windows_console_driver.RunSheets.{Step, RunSheet, gesture_actions}

-- The classes of src/wcd/profiles.py.
pub data ActionClass : Type 0 where
  orientation_only reversible_pre_commit potentially_mutating commit_point : ActionClass

-- What a RunSheetError says.
pub data SheetMessage : Type 0 where
  undeclared_action unhandled_action no_prepared_context : String → SheetMessage
  context_unavailable context_differs : String → SheetMessage
  boundary_missing callback_missing : SheetMessage
  primitive_failed : String → SheetMessage
  step_failed : ℕ → SheetMessage → SheetMessage

pub data EntryResult : Type 0 where
  done : Fields → EntryResult
  failed : SheetMessage → EntryResult

pub record Entry : Type 0 where
  pub index : ℕ
  pub step : Step
  pub result : EntryResult

abbrev pub Journal : Type 0
Journal = List Entry

-- A RunSheetError, with its journal, or any other exception.
pub data Failure (X : Type 0) : Type 0 where
  sheet_error : SheetMessage → Journal → Failure X
  foreign : X → Failure X

abbrev pub Action : Type 0 → Type 0 → Type 0 → Type 0
Action S X A = S → Result (Failure X) A × S

-- The callbacks of one execution; the ones of the source that are None are `none`.
pub record Callbacks (S X : Type 0) : Type 0 where
  pub on_commit : Option (String → Action S X (Unit {0}))
  pub before_step : Option (Step → Action S X (Unit {0}))
  pub classify : Option (String → Option ActionClass)

pub record Primitives (S X : Type 0) : Type 0 where
  pub interpolate : Fields → Action S X Fields
  pub primitive : String → Fields → Action S X Fields

module _ {S X : Type 0} where
  abbrev pub then_do : {A B : Type 0} → Action S X A → (A → Action S X B) → Action S X B
  then_do m f s = let (r, s') = m s in elim r [ ok a ↦ f a s' | err e ↦ (err e, s') ]

  abbrev pub refuse_step : {A : Type 0} → SheetMessage → Action S X A
  refuse_step message s = (err (sheet_error message []), s)

  abbrev pub cross_at : String → Option (String → Action S X (Unit {0})) → Action S X Fields
  cross_at boundary none = refuse_step callback_missing
  cross_at boundary (some on_commit) =
      then_do (on_commit boundary) (λ _ s. (ok (field "boundary" (str boundary) no_fields), s))

  unfoldable pub commit_step :
      Option Value → Option (String → Action S X (Unit {0})) → Action S X Fields
  commit_step (some (str boundary)) on_commit =
      if boundary == "" then refuse_step boundary_missing else cross_at boundary on_commit
  commit_step v on_commit = refuse_step boundary_missing

  module _ (p : Primitives S X) where
    unfoldable pub dispatch_step :
        Option (String → Action S X (Unit {0})) → Step → Fields → Action S X Fields
    unfolding commit_step gesture_actions find_field
    dispatch_step on_commit step params =
        if step.action == "label"
        then (λ s. (ok no_fields, s))
        else if step.action == "commit"
        then commit_step (find_field "boundary" params) on_commit
        else if member step.action gesture_actions
        then p.primitive step.action params
        else refuse_step (unhandled_action step.action)

    unfoldable pub execute_step : Option (String → Action S X (Unit {0})) → Step → Action S X Fields
    unfolding dispatch_step
    execute_step on_commit step = then_do (p.interpolate step.params) (dispatch_step on_commit step)

    module _ (c : Callbacks S X) where
      abbrev pub class_of : String → Option ActionClass
      class_of action = elim c.classify [
        | none ↦ some commit_point
        | some classify ↦ classify action
      ]

      abbrev pub cross_class :
          Option ActionClass → (String → Action S X (Unit {0})) → String → Action S X (Unit {0})
      cross_class none on_commit action = refuse_step (undeclared_action action)
      cross_class (some potentially_mutating) on_commit action = on_commit action
      cross_class (some commit_point) on_commit action = on_commit action
      cross_class (some _) on_commit action = λ s. (ok tt, s)

      -- What comes before a step that carries a profile action, when a callback is wired.
      unfoldable pub cross_first :
          Option (String → Action S X (Unit {0})) → Option String → Action S X (Unit {0})
      cross_first (some on_commit) (some action) =
          if action == "" then (λ s. (ok tt, s)) else cross_class (class_of action) on_commit action
      cross_first _ _ = λ s. (ok tt, s)

      unfoldable pub attempt_step : Step → Action S X Fields
      unfolding cross_first execute_step
      attempt_step step =
          then_do (cross_first c.on_commit step.profile_action) (λ _. execute_step c.on_commit step)

      abbrev pub announce : Option (Step → Action S X (Unit {0})) → Step → Action S X (Unit {0})
      announce none step = λ s. (ok tt, s)
      announce (some before_step) step = before_step step

      -- A step that fails names itself in the error and ends the journal; another exception passes.
      abbrev pub close_entry :
          ℕ
          → Step
          → Journal
          → (Journal → Action S X Journal)
          → Result (Failure X) Fields × S
          → Result (Failure X) Journal × S
      close_entry index step journal rest (ok detail, s) =
          rest (journal ++ record { index = index; step = step; result = done detail } ∷ []) s
      close_entry index step journal rest (err (sheet_error message inner), s) = (
        err (
            sheet_error (step_failed index message)
              (journal ++ record { index = index; step = step; result = failed message } ∷ [])),
        s,
      )
      close_entry index step journal rest (err (foreign x), s) = (err (foreign x), s)

      unfoldable pub run_steps : ℕ → List Step → Journal → Action S X Journal
      unfolding attempt_step
      run_steps index [] journal s = (ok journal, s)
      run_steps index (step ∷ steps) journal s =
          then_do (announce c.before_step step)
            (λ _ s'.
              close_entry index step journal (λ more s''. run_steps (suc index) steps more s'')
                (attempt_step step s'))
            s

      unfoldable pub execute : RunSheet → Action S X Journal
      unfolding run_steps
      execute sheet s = run_steps 0 sheet.steps [] s
