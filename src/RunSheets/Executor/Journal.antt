-- ===== src/RunSheets/Executor/Journal.antt =====
-- The journal of an execution: which steps ran, how they ended, and in which order.
use mathlib.Core.List.{append_assoc, append-nil}
use windows_console_driver.Prelude.{
  ℕ, suc, ◌≡◌, refl, sym, ◌∙◌, none, List, [], ◌∷◌, ◌++◌, ◌⊎◌, inl, inr,
}
use windows_console_driver.Prelude.Results.{Result, ok, err}
use windows_console_driver.Value.{Fields}
use windows_console_driver.RunSheets.{Step, RunSheet}
use windows_console_driver.RunSheets.Executor.{
  SheetMessage, step_failed, done, failed, Journal, Failure, sheet_error, foreign, Callbacks,
  Primitives, attempt_step, close_entry, run_steps, execute,
}

module _ {S X : Type 0} (p : Primitives S X) (c : Callbacks S X) where
  -- An entry of each step, in order and numbered on from `i`, all of them done: from the state that the
  -- step before left, the step was attempted and returned the detail of its entry.
  abbrev pub AllDone : ℕ → List Step → Journal → S → S → Type 0
  AllDone i [] [] s s' = s ≡ s'
  AllDone i (step ∷ steps) (e ∷ es) s s' =
      (e.index ≡ i)
      × (e.step ≡ step)
      × (detail : Fields) × (b : S) × (e.result ≡ done detail)
      × (attempt_step p c step s ≡ (ok detail, b))
      × AllDone (suc i) steps es b s'
  AllDone i _ _ s s' = ⊥

  -- Entries of the first steps, all done but the last, whose attempt failed with the message.
  abbrev pub StopsAt : ℕ → List Step → Journal → SheetMessage → S → S → Type 0
  StopsAt i (step ∷ steps) (e ∷ es) message s s' =
      (e.index ≡ i)
      × (e.step ≡ step)
      × (((m : SheetMessage) × (inner : Journal) × (e.result ≡ failed m)
            × (attempt_step p c step s ≡ (err (sheet_error m inner), s'))
            × (message ≡ step_failed i m)
            × (es ≡ []))
          ⊎ ((detail : Fields) × (b : S) × (e.result ≡ done detail)
              × (attempt_step p c step s ≡ (ok detail, b))
              × StopsAt (suc i) steps es message b s'))
  StopsAt i _ _ message s s' = ⊥

  -- How an execution ends that adds to a journal.
  abbrev pub Journaled : ℕ → List Step → Journal → S → Result (Failure X) Journal × S → Type 0
  Journaled i steps before s (ok journal, s') =
      (es : Journal) × (journal ≡ before ++ es) × AllDone i steps es s s'
  Journaled i steps before s (err (sheet_error message journal), s') =
      (es : Journal) × (journal ≡ before ++ es) × StopsAt i steps es message s s'
  Journaled i steps before s (err (foreign x), s') = Unit

  add_done :
      (i : ℕ) (step : Step) (steps : List Step) (before : Journal) (detail : Fields) (s b : S)
      → attempt_step p c step s ≡ (ok detail, b)
      → (x : Result (Failure X) Journal × S)
      → Journaled
          (suc i)
          steps
          (before ++ record { index = i; step = step; result = done detail } ∷ [])
          b
          x
      → Journaled i (step ∷ steps) before s x
  add_done i step steps before detail s b ran (ok journal, s') (es, same, rest) =
      (_ ∷ es, same ∙ append_assoc before _ es, (refl, refl, detail, b, refl, ran, rest))
  add_done i step steps before detail s b ran (err (sheet_error message journal), s')
        (es, same, rest) =
      (_ ∷ es, same ∙ append_assoc before _ es, (refl, refl, inr (detail, b, refl, ran, rest)))
  add_done i step steps before detail s b ran (err (foreign x), s') h = tt

  module _ (quiet : c.before_step ≡ none) where
    run_steps-Journaled :
        (i : ℕ) (steps : List Step) (before : Journal) (s : S)
        → Journaled i steps before s (run_steps p c i steps before s)
    unfolding run_steps
    run_steps-Journaled i [] before s = ([], sym (append-nil before), refl)
    run_steps-Journaled i (step ∷ steps) before s = rw quiet (
        by_result (λ more s'. run_steps-Journaled (suc i) steps more s') (attempt_step p c step s)
          refl)
      where
        by_result :
            ((more : Journal) (s' : S)
              → Journaled (suc i) steps more s' (run_steps p c (suc i) steps more s'))
            → (x : Result (Failure X) Fields × S) → attempt_step p c step s ≡ x
            → Journaled i
                (step ∷ steps)
                before
                s
                (close_entry p c i step before (λ more s'. run_steps p c (suc i) steps more s') x)
        by_result rest (ok detail, s') ran =
            add_done i step steps before detail s s' ran
              (run_steps p c (suc i) steps
                (before ++ record { index = i; step = step; result = done detail } ∷ []) s')
              (rest (before ++ record { index = i; step = step; result = done detail } ∷ []) s')
        by_result rest (err (sheet_error message inner), s') ran =
            (_ ∷ [], refl, (refl, refl, inl (message, inner, refl, ran, refl, refl)))
        by_result rest (err (foreign x), s') ran = tt

    -- Without a before_step callback, as every caller has it: an execution that returns has attempted
    -- all steps in order, each from the state that the one before left, and its journal has one done
    -- entry for each, with the detail that the attempt returned. One that raises RunSheetError has
    -- attempted the steps up to one whose attempt failed; its journal has such a done entry for each
    -- before that and a failed entry for it as the last, and the error names that step.
    pub execute-Journaled :
        (sheet : RunSheet) (s : S) → Journaled 0 sheet.steps [] s (execute p c sheet s)
    unfolding execute
    execute-Journaled sheet s = run_steps-Journaled 0 sheet.steps [] s
