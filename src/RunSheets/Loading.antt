-- ===== src/RunSheets/Loading.antt =====
-- What a run sheet that src/wcd/runsheets.py has loaded is known to be, and how its phases split it.
use mathlib.Core.Path.{subst}
use windows_console_driver.Prelude.{
  ℕ, suc, ◌+◌, String, ◌≡◌, ◌≢◌, refl, Bool, true, false, Option, none, some, List, [], ◌∷◌, All,
  ◌==◌, string_eq, ne-of-beq_false, if-elim, if◌then◌else◌, arith, eq_iff, inl, inr, Bool-cases,
}
use windows_console_driver.Prelude.Results.{Result, ok, err, Ensures, bind-Ensures, after-Ensures}
use windows_console_driver.Value.{
  Value, null, boolean, int, str, list, tuple, dict, Items, no_items, item, Fields, find_field,
}
use windows_console_driver.Envelope.{member}
use windows_console_driver.Envelope.Parsing.{unknown_keys, parse_entries}
use windows_console_driver.Envelope.Parsing.Accepted.{closed-Ensures, parse_entries-Ensures}
use windows_console_driver.RunSheets.{
  Step, RunSheet, gesture_actions, phases, SheetFault, needs_name, needs_surface, needed_text,
  needed_steps, action_of, profile_action_of, step_params, check_phase, load_step, read_sheet,
  sheet_keys, unknown_sheet_keys, load_run_sheet, phase_is, steps_of_phase,
}

-- The phase of the parameters is absent, which is a gesture, or a text of the vocabulary.
abbrev pub HasPhase : Option Value → Type 0
HasPhase none = Unit
HasPhase (some (str s)) = member s phases ≡ true
HasPhase (some v) = ⊥

abbrev pub IsLoadedStep : Step → Type 0
IsLoadedStep step =
    (member step.action gesture_actions ≡ true) × HasPhase (find_field "phase" step.params)

pub record IsLoaded (sheet : RunSheet) : Type 0 where
  pub named : sheet.name ≢ ""
  pub surfaced : sheet.surface ≢ ""
  pub nonempty : sheet.steps ≢ []
  pub steps_loaded : All IsLoadedStep sheet.steps

needed_text-Ensures :
    (fault : SheetFault) (o : Option Value) → Ensures (λ s. s ≢ "") (needed_text fault o)
unfolding needed_text
needed_text-Ensures fault none = tt
needed_text-Ensures fault (some (str s)) =
    if-elim (Ensures (λ s. s ≢ "")) (s == "") (λ b. tt) (λ b. ne-of-beq_false s "" b)
needed_text-Ensures fault (some null) = tt
needed_text-Ensures fault (some (boolean b)) = tt
needed_text-Ensures fault (some (int n)) = tt
needed_text-Ensures fault (some (list vs)) = tt
needed_text-Ensures fault (some (tuple vs)) = tt
needed_text-Ensures fault (some (dict fs)) = tt

abbrev IsAction : String → Type 0
IsAction action = member action gesture_actions ≡ true

action_of-Ensures : (i : ℕ) (o : Option Value) → Ensures IsAction (action_of i o)
unfolding action_of
action_of-Ensures i none = tt
action_of-Ensures i (some (str s)) =
    if-elim (Ensures IsAction) (member s gesture_actions) (λ b. b) (λ b. tt)
action_of-Ensures i (some null) = tt
action_of-Ensures i (some (boolean b)) = tt
action_of-Ensures i (some (int n)) = tt
action_of-Ensures i (some (list vs)) = tt
action_of-Ensures i (some (tuple vs)) = tt
action_of-Ensures i (some (dict fs)) = tt

check_phase-Ensures : (i : ℕ) (o : Option Value) → Ensures (λ _. HasPhase o) (check_phase i o)
unfolding check_phase
check_phase-Ensures i none = tt
check_phase-Ensures i (some (str s)) =
    if-elim (Ensures (λ _. HasPhase (some (str s)))) (member s phases) (λ b. b) (λ b. tt)
check_phase-Ensures i (some null) = tt
check_phase-Ensures i (some (boolean b)) = tt
check_phase-Ensures i (some (int n)) = tt
check_phase-Ensures i (some (list vs)) = tt
check_phase-Ensures i (some (tuple vs)) = tt
check_phase-Ensures i (some (dict fs)) = tt

load_step-Ensures : (i : ℕ) (v : Value) → Ensures IsLoadedStep (load_step i v)
unfolding load_step
load_step-Ensures i (dict fs) =
    bind-Ensures IsAction IsLoadedStep (action_of i (find_field "action" fs)) _
      (action_of-Ensures i (find_field "action" fs))
      (λ action known.
        after-Ensures IsLoadedStep (profile_action_of i (find_field "profile_action" fs)) _ (λ p.
          bind-Ensures (λ _. HasPhase (find_field "phase" (step_params fs))) IsLoadedStep
            (check_phase i (find_field "phase" (step_params fs))) _
            (check_phase-Ensures i (find_field "phase" (step_params fs))) (λ _ h. (known, h))))
load_step-Ensures i null = tt
load_step-Ensures i (boolean b) = tt
load_step-Ensures i (int n) = tt
load_step-Ensures i (str s) = tt
load_step-Ensures i (list vs) = tt
load_step-Ensures i (tuple vs) = tt

abbrev IsFilled : Items → Type 0
IsFilled no_items = ⊥
IsFilled (item v vs) = Unit

needed_steps-Ensures : (o : Option Value) → Ensures IsFilled (needed_steps o)
unfolding needed_steps
needed_steps-Ensures none = tt
needed_steps-Ensures (some (list no_items)) = tt
needed_steps-Ensures (some (list (item v vs))) = tt
needed_steps-Ensures (some null) = tt
needed_steps-Ensures (some (boolean b)) = tt
needed_steps-Ensures (some (int n)) = tt
needed_steps-Ensures (some (str s)) = tt
needed_steps-Ensures (some (tuple vs)) = tt
needed_steps-Ensures (some (dict fs)) = tt

-- The steps of a list that is not empty are not empty.
entries_filled :
    (vs : Items) → IsFilled vs → Ensures (λ steps. steps ≢ []) (parse_entries load_step 0 vs)
unfolding parse_entries
entries_filled no_items h = absurd h
entries_filled (item v vs) h =
    after-Ensures _ (load_step 0 v) _
      (λ a. after-Ensures _ (parse_entries load_step 1 vs) _ (λ rest e. cc e))

both_Ensures :
    {E A : Type 0} (P Q : A → Type 0) (r : Result E A)
    → Ensures P r
    → Ensures Q r
    → Ensures (λ a. P a × Q a) r
both_Ensures P Q (ok a) h k = (h, k)
both_Ensures P Q (err e) h k = tt

loaded :
    {name surface : String}
    → name ≢ ""
    → surface ≢ ""
    → (steps : List Step) → All IsLoadedStep steps × (steps ≢ [])
    → IsLoaded (record { name = name; surface = surface; steps = steps })
loaded named surfaced steps (h, k) = record {
  named = named;
  surfaced = surfaced;
  nonempty = k;
  steps_loaded = h;
}

read_sheet-Ensures : (fs : Fields) → Ensures IsLoaded (read_sheet fs)
unfolding read_sheet
read_sheet-Ensures fs =
    bind-Ensures (λ s. s ≢ "") IsLoaded (needed_text needs_name (find_field "name" fs)) _
      (needed_text-Ensures needs_name (find_field "name" fs))
      (λ name named.
        bind-Ensures (λ s. s ≢ "") IsLoaded (needed_text needs_surface (find_field "surface" fs)) _
          (needed_text-Ensures needs_surface (find_field "surface" fs))
          (λ surface surfaced.
            bind-Ensures IsFilled IsLoaded (needed_steps (find_field "steps" fs)) _
              (needed_steps-Ensures (find_field "steps" fs))
              (λ raw filled.
                bind-Ensures (λ steps. All IsLoadedStep steps × (steps ≢ [])) IsLoaded
                  (parse_entries load_step 0 raw) _
                  (both_Ensures (All IsLoadedStep) (λ steps. steps ≢ [])
                    (parse_entries load_step 0 raw)
                    (parse_entries-Ensures IsLoadedStep load_step load_step-Ensures 0 raw)
                    (entries_filled raw filled))
                  (loaded named surfaced))))

load-Ensures : (v : Value) → Ensures IsLoaded (load_run_sheet v)
unfolding load_run_sheet
load-Ensures (dict fs) =
    closed-Ensures IsLoaded (unknown_keys sheet_keys fs) unknown_sheet_keys (read_sheet fs)
      (read_sheet-Ensures fs)
load-Ensures null = tt
load-Ensures (boolean b) = tt
load-Ensures (int n) = tt
load-Ensures (str s) = tt
load-Ensures (list vs) = tt
load-Ensures (tuple vs) = tt

-- A sheet that is loaded has a name and a surface that are not empty and at least one step, and each
-- of its steps has an action of the vocabulary and, where it names a phase, one of the three.
pub load_run_sheet-IsLoaded :
    (v : Value) (sheet : RunSheet) → load_run_sheet v ≡ ok sheet → IsLoaded sheet
load_run_sheet-IsLoaded v sheet h = subst (Ensures IsLoaded) h (load-Ensures v)

-- How often a test holds in a list of steps.
abbrev pub count : (Step → Bool) → List Step → ℕ
count p [] = 0
count p (step ∷ steps) = if p step then suc (count p steps) else count p steps

abbrev phase_of : Step → Option Value
phase_of step = find_field "phase" step.params

-- A phase that is allowed is exactly one of the three.
data OnePhase (o : Option Value) : Type 0 where
  in_setup :
      phase_is "setup" o ≡ true
      → phase_is "gesture" o ≡ false
      → phase_is "cleanup" o ≡ false
      → OnePhase o
  in_gesture :
      phase_is "setup" o ≡ false
      → phase_is "gesture" o ≡ true
      → phase_is "cleanup" o ≡ false
      → OnePhase o
  in_cleanup :
      phase_is "setup" o ≡ false
      → phase_is "gesture" o ≡ false
      → phase_is "cleanup" o ≡ true
      → OnePhase o

one_phase : (o : Option Value) → HasPhase o → OnePhase o
unfolding phases
one_phase none h = in_gesture refl refl refl
one_phase (some (str s)) h = elim (Bool-cases (s == "setup")) [
  | inl a ↦ let p : s ≡ "setup" = (eq_iff s "setup").0 a in in_setup a (rw p refl) (rw p refl)
  | inr a ↦ elim (Bool-cases (s == "gesture")) [
    | inl b ↦ let p : s ≡ "gesture" = (eq_iff s "gesture").0 b in in_gesture a b (rw p refl)
    | inr b ↦ in_cleanup a b (
        ground (
          arith,
          h,
          a,
          b,
          eq_iff "setup" s,
          eq_iff "gesture" s,
          eq_iff "cleanup" s,
          eq_iff s "setup",
          eq_iff s "gesture",
          eq_iff s "cleanup",
        ))
  ]
]
one_phase (some v) h = absurd h

-- The setup, gesture and cleanup sheets share out the steps of a sheet that is loaded: each step is in
-- exactly one of them, as often as in the sheet.
pub phases_partition :
    (p : Step → Bool) (steps : List Step)
    → All IsLoadedStep steps
    → count p steps
      ≡ count p (steps_of_phase "setup" steps)
        + count p (steps_of_phase "gesture" steps)
        + count p (steps_of_phase "cleanup" steps)
unfolding steps_of_phase
phases_partition p [] h = refl
phases_partition p (step ∷ steps) h = elim (one_phase (phase_of step) h.0.1) [
  | in_setup a b c ↦ rw (a, b, c) (ground (arith, phases_partition p steps h.1))
  | in_gesture a b c ↦ rw (a, b, c) (ground (arith, phases_partition p steps h.1))
  | in_cleanup a b c ↦ rw (a, b, c) (ground (arith, phases_partition p steps h.1))
]
