-- ===== src/Transaction/Diagram.antt =====
-- The diagram of src/wcd/transaction.py and docs/contract.md section 2, as a relation: prepared, armed,
-- commit-attempted, then verified, disproven or indeterminate, and indeterminate from any live state.
use windows_console_driver.Prelude.{
  ℕ, ◌+◌, ◌≡◌, ◌≤◌, ◌<◌, refl, false, Option, none, some, List, [], ◌∷◌, ◌++◌, sym, ◌∙◌, length,
  arith,
}
use mathlib.Core.Path.{subst}
use windows_console_driver.Transaction.{
  State, prepared, armed, commit_attempted, verified, disproven, indeterminate, is_terminal_state,
  TransitionEvent,
}

infix 40 ◌⟶◌
pub data ◌⟶◌ : Option State → State → Type 0 where
  preparing : none ⟶ prepared
  arming : some prepared ⟶ armed
  committing : some armed ⟶ commit_attempted
  verifying : some commit_attempted ⟶ verified
  disproving : some commit_attempted ⟶ disproven
  stopping : (s : State) → is_terminal_state s ≡ false → some s ⟶ indeterminate

-- How far along the diagram a state lies.
abbrev pub rank : State → ℕ
rank prepared = 1
rank armed = 2
rank commit_attempted = 3
rank _ = 4

abbrev pub rank? : Option State → ℕ
rank? none = 0
rank? (some s) = rank s

pub rank-lt : {s : Option State} {u : State} → s ⟶ u → rank? s < rank u
rank-lt preparing = omega arith
rank-lt arming = omega arith
rank-lt committing = omega arith
rank-lt verifying = omega arith
rank-lt disproving = omega arith
rank-lt (stopping s h) = ground arith

-- The events lead from one state to another along the diagram, numbered on from a count.
abbrev pub Chain : Option State → ℕ → List TransitionEvent → Option State → Type 0
Chain s n [] u = s ≡ u
Chain s n (e ∷ es) u =
    (e.sequence ≡ n + 1)
    × (e.from_state ≡ s)
    × (s ⟶ e.to_state)
    × Chain (some e.to_state) (n + 1) es u

pub Chain-snoc :
    (s : Option State) (n : ℕ) (es : List TransitionEvent) (u : Option State) (e : TransitionEvent)
    → Chain s n es u
    → e.sequence ≡ n + length es + 1
    → e.from_state ≡ u
    → u ⟶ e.to_state
    → Chain s n (es ++ e ∷ []) (some e.to_state)
Chain-snoc s n [] u e c numbered from step =
    (omega arith, from ∙ sym c, subst (λ x. x ⟶ e.to_state) (sym c) step, refl)
Chain-snoc s n (d ∷ es) u e c numbered from step =
    (c.0, c.1, c.2, Chain-snoc (some d.to_state) (n + 1) es u e c.3 (omega arith) from step)

-- The events of a chain climb the diagram, so there are at most four.
pub length-le-rank :
    (s : Option State) (n : ℕ) (es : List TransitionEvent) (u : Option State)
    → Chain s n es u
    → rank? s + length es ≤ rank? u
length-le-rank s n [] u c = rw c (omega arith)
length-le-rank s n (e ∷ es) u c =
    omega (arith, rank-lt c.2, length-le-rank (some e.to_state) (n + 1) es u c.3)
