-- ===== src/Transaction/Invariant.antt =====
-- The invariant of a transaction of src/wcd/transaction.py, and what no call can undo.
use windows_console_driver.Prelude.{
  String, ◌≡◌, refl, Bool, false, Option, none, some, List, [], ◌∷◌, ◌++◌, length, arith,
}
use windows_console_driver.Transaction.{
  State, GuardOutcome, TransitionEvent, TransactionError, Outcome, raised, Transaction, new,
}
use windows_console_driver.Transaction.Diagram.{
  ◌⟶◌, preparing, arming, committing, verifying, disproving, stopping, Chain, Chain-snoc,
}
use windows_console_driver.Transaction.Calls.{Call, call, run}
use windows_console_driver.Transaction.Effects.{
  has, is_indeterminate, is_disproven, Moved, Effect, moved, refused, stopped, call-Effect,
}

abbrev pub at : (State → Bool) → Option State → Bool
at p none = false
at p (some s) = p s

pub record IsValid (t : Transaction) : Type 0 where
  pub chain : Chain none 0 t.events t.state
  pub reasoned : has t.indeterminate_reason ≡ at is_indeterminate t.state
  pub characterized : has t.characterization ≡ at is_disproven t.state

live_source :
    {s : Option State} {u : State}
    → s ⟶ u
    → (at is_indeterminate s ≡ false) × (at is_disproven s ≡ false)
live_source preparing = (refl, refl)
live_source arming = (refl, refl)
live_source committing = (refl, refl)
live_source verifying = (refl, refl)
live_source disproving = (refl, refl)
live_source (stopping s h) = (ground arith, ground arith)

new-IsValid : (id : Option String) → IsValid (new id)
unfolding new
new-IsValid id = record { chain = refl; reasoned = refl; characterized = refl }

Moved-IsValid :
    (t : Transaction) (e : TransitionEvent) (u : Transaction) → Moved t e u → IsValid t → IsValid u
Moved-IsValid t e u m v = record {
  chain =
      rw (m.events, m.state)
        (Chain-snoc none 0 t.events t.state e v.chain (omega (arith, m.numbered)) m.from m.step);
  reasoned = ground (arith, m.reasoned, m.state, v.reasoned, live_source m.step);
  characterized = ground (arith, m.characterized, m.state, v.characterized, live_source m.step);
}

Effect-IsValid :
    (t : Transaction) (r : Outcome) (u : Transaction) → Effect t r u → IsValid t → IsValid u
Effect-IsValid t r u (moved e _ m _) v = Moved-IsValid t e u m v
Effect-IsValid t r u (refused g x _ same) v =
    rw same (record { chain = v.chain; reasoned = v.reasoned; characterized = v.characterized })
Effect-IsValid t r u (stopped e boundary why _ _ m _ _) v = Moved-IsValid t e u m v

pub run_from-IsValid : (t : Transaction) (cs : List Call) → IsValid t → IsValid (run t cs)
unfolding run
run_from-IsValid t [] v = v
run_from-IsValid t (c ∷ cs) v =
    run_from-IsValid (call c t).1 cs
      (Effect-IsValid t (call c t).0 (call c t).1 (call-Effect c t) v)

-- After any calls at all on a new transaction, the events are numbered 1, 2, … and lead along the
-- diagram from no state to the current one; a reason for indeterminate is recorded exactly when the
-- state is indeterminate, and a characterization exactly when it is disproven.
pub run-IsValid : (id : Option String) (cs : List Call) → IsValid (run (new id) cs)
run-IsValid id cs = run_from-IsValid (new id) cs (new-IsValid id)

-- The call raises, and leaves the object as it was but for one more refusal.
abbrev pub RefusedBy : Transaction → Call → Type 0
RefusedBy t c =
    (x : TransactionError) × (g : GuardOutcome) × (call c t
      ≡ (raised x, record t { refusals = t.refusals ++ g ∷ [] }))

abbrev Absorbs : Transaction → List Call → Type 0
Absorbs t cs =
    (gs : List GuardOutcome) × (run t cs ≡ record t { refusals = t.refusals ++ gs })
    × (length gs ≡ length cs)
