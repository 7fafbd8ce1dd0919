-- ===== src/Transaction/Exact.antt =====
-- The machine of src/wcd/transaction.py takes exactly the steps that its diagram and the call allow.
use mathlib.Core.Path.{subst}
use windows_console_driver.Prelude.{
  ◌≡◌, ◌↔◌, refl, sym, ap, ◌∙◌, ◌⊎◌, inl, inr, ◌≢◌, ◌<◌, Bool, true, false, Option, some, arith,
}
use windows_console_driver.Transaction.{
  State, commit_attempted, Transaction, TransitionEvent, missing_flags, transition, refuse,
}
use windows_console_driver.Transaction.Diagram.{
  ◌⟶◌, preparing, arming, committing, verifying, disproving, stopping, rank?, rank-lt,
}
use windows_console_driver.Transaction.Calls.{
  Call, prepare_call, arm_call, commit_call, resolve_call, mark_call, call,
}
use windows_console_driver.Transaction.Effects.{Moved, Effect, moved, refused, stopped, call-Effect}
use windows_console_driver.Transaction.Traces.{justifies, lt_self, Moved-justifies}

-- `resolve` asks for commit-attempted; the other calls ask for what the diagram asks for.
abbrev pub ready : Call → Option State → Bool
ready (resolve_call a b text reason) (some commit_attempted) = true
ready (resolve_call a b text reason) _ = false
ready _ s = true

complete :
    {s : Option State} {w : State}
    → s ⟶ w
    → (c : Call) (t : Transaction) → t.state ≡ s
    → justifies w c ≡ true
    → ready c s ≡ true
    → (call c t).1.state ≡ some w
unfolding call missing_flags transition
complete preparing (prepare_call p reason) t h j r = ground arith
complete preparing _ t h j r = cc
complete arming (arm_call reason) t h j r = ground arith
complete arming _ t h j r = cc
complete committing (commit_call b d reason) t h j r = ground arith
complete committing _ t h j r = cc
complete verifying (resolve_call a b text reason) t h j r = ground arith
complete verifying _ t h j r = cc
complete disproving (resolve_call a b text reason) t h j r = ground arith
complete disproving _ t h j r = cc
complete (stopping s live) (commit_call b d reason) t h j r = ground arith
complete (stopping commit_attempted live) (resolve_call a b text reason) t h j r = ground arith
complete (stopping s live) (mark_call reason) t h j r = ground arith
complete (stopping s live) _ t h j r = cc

ready-or-same :
    (c : Call) (t : Transaction) → ((call c t).1.state ≡ t.state) ⊎ (ready c t.state ≡ true)
unfolding call refuse
ready-or-same (resolve_call a b text reason) t = ground arith
ready-or-same _ t = inr refl

-- The state changes to a given state exactly when the diagram has that step, the call's arguments
-- justify it, and, for a resolve, the machine is commit-attempted. So the machine takes no step that
-- it should not, and refuses none that it should take.
pub call_exact :
    (c : Call) (t : Transaction) (w : State)
    → (((call c t).1.state ≡ some w) × (t.state ≢ some w))
      ↔ ((t.state ⟶ w) × (justifies w c ≡ true) × (ready c t.state ≡ true))
call_exact c t w = (forward (call-Effect c t), backward)
  where
    moved_to :
        (e : TransitionEvent)
        → Moved t e (call c t).1
        → (call c t).1.state ≡ some w
        → t.state ≢ some w
        → (t.state ⟶ w) × (justifies w c ≡ true) × (ready c t.state ≡ true)
    moved_to e m h ne =
        let p : e.to_state ≡ w = cc (m.state, h) in
        (
          subst (λ x. t.state ⟶ x) p m.step,
          subst (λ x. justifies x c ≡ true) p (Moved-justifies c t e m),
          elim (ready-or-same c t) [ inl same ↦ absurd (ne (sym same ∙ h)) | inr r ↦ r ],
        )

    forward :
        Effect t (call c t).0 (call c t).1
        → (((call c t).1.state ≡ some w) × (t.state ≢ some w))
        → (t.state ⟶ w) × (justifies w c ≡ true) × (ready c t.state ≡ true)
    forward (moved e _ m _) (h, ne) = moved_to e m h ne
    forward (refused g x _ same) (h, ne) =
        absurd (ne (sym (ap (λ (u : Transaction). u.state) same) ∙ h))
    forward (stopped e boundary why _ _ m _ _) (h, ne) = moved_to e m h ne

    backward :
        (t.state ⟶ w) × (justifies w c ≡ true) × (ready c t.state ≡ true)
        → ((call c t).1.state ≡ some w) × (t.state ≢ some w)
    backward (step, j, r) = (
      complete step c t refl j r,
      λ e. lt_self (rank? t.state) (subst (λ s. rank? t.state < rank? s) (sym e) (rank-lt step)),
    )
