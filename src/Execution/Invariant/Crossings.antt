-- ===== src/Execution/Invariant/Crossings.antt =====
-- The callback of a gesture: between a session in which the transaction is armed and one in which it is
-- attempted, a boundary was crossed.
use mathlib.Core.Path.{subst}
use windows_console_driver.Prelude.{
  String, ◌≡◌, refl, sym, ap, ◌∙◌, true, false, Option, none, some, List, if-elim, Bool-cases, inl,
  inr,
}
use windows_console_driver.Prelude.Results.{Result, ok, err}
use windows_console_driver.Value.{Fields}
use windows_console_driver.Transaction.{
  State, prepared, armed, commit_attempted, verified, disproven, indeterminate, Transaction,
  Outcome, returned, raised, commit, commit_undeclared, hard_stop, transition, refuse,
}
use windows_console_driver.Leases.Context.{
  InteractiveContext, ContextFieldMismatch, assert_context, assert_context_exact,
}
use windows_console_driver.RunSheets.{RunSheet}
use windows_console_driver.RunSheets.Executor.{
  ActionClass, orientation_only, reversible_pre_commit, potentially_mutating, commit_point, Journal,
  sheet_error, foreign, execute,
}
use windows_console_driver.RunSheets.Executor.Crossings.{crosses}
use windows_console_driver.RunSheets.Executor.Keeps.{Leaves, Keeps, execute-Keeps}
use windows_console_driver.Execution.{
  Exception, exec_error, transaction_raised, lease_raised, envelope_raised, unforeseen, Raised,
  Session, Host, Plan, keep_outcome, try_do, on_world,
}
use windows_console_driver.Execution.Helper.{helper_context}
use windows_console_driver.Execution.Crossing.{
  session_only, is_attempted, classification, commit_class, cross, on_match, context_refused,
  cross_from, on_commit,
}
use windows_console_driver.Execution.Ending.{primitives}
use windows_console_driver.Execution.Phases.{callbacks}
use windows_console_driver.Execution.Invariant.{
  Moves, unmoved, interpolated, performed, called_back, Permitted, Crossing,
}
use windows_console_driver.Execution.Invariant.Steps.{context-Keeps}
use windows_console_driver.Execution.Invariant.Arming.{prepared-record_event}

module _ {W : Type 0} where
  abbrev Anything : Exception → Session W → Type 0
  Anything x s = Unit

module _ {W : Type 0} (h : Host W) (plan : Plan) where
  -- What an answer of the callback leaves: the prepared context, and if the transaction came to be
  -- attempted, what permitted it.
  abbrev Answers : InteractiveContext → String → Session W → Session W → Type 0
  Answers context boundary s s' =
      (s'.prepared_context ≡ some context)
      × (is_attempted s'.txn.state ≡ true
          → is_attempted s.txn.state ≡ false
          → Permitted h plan context boundary s)

  abbrev Kept : Session W → Session W → Type 0
  Kept s s' = (s'.prepared_context ≡ s.prepared_context) × (s'.txn ≡ s.txn)

  module _ (context : InteractiveContext) (boundary : String) (s : Session W)
      (ready : s.prepared_context ≡ some context) where
    Kept-Answers : (s' : Session W) → Kept s s' → Answers context boundary s s'
    Kept-Answers s' k = (
      k.0 ∙ ready,
      λ a n. absurd (cc (sym a ∙ ap (λ (t : Transaction). is_attempted t.state) k.1 ∙ n)),
    )

    outcome-Answers :
        (x : Outcome × Transaction) (s' : Session W)
        → Kept s s'
        → Permitted h plan context boundary s
        → Leaves (Answers context boundary s) Anything (keep_outcome x s')
    outcome-Answers (returned e, txn) s' k permitted =
        (prepared-record_event (record s' { txn = txn }) ∙ k.0 ∙ ready, λ a n. permitted)
    outcome-Answers (raised e, txn) s' k permitted = tt

    undeclared-Answers :
        (s' : Session W)
        → Leaves
            (Answers context boundary s)
            Anything
            (keep_outcome (commit boundary false "" s'.txn) s')
    unfolding commit commit_undeclared hard_stop transition refuse
    undeclared-Answers s' = by_state s'.txn.state
      where
        by_state :
            (o : Option State)
            → Leaves
                (Answers context boundary s)
                Anything
                (keep_outcome (commit_undeclared o boundary "" s'.txn) s')
        by_state none = tt
        by_state (some prepared) = tt
        by_state (some armed) = tt
        by_state (some commit_attempted) = tt
        by_state (some verified) = tt
        by_state (some disproven) = tt
        by_state (some indeterminate) = tt

    class-Answers :
        (fresh : InteractiveContext) (s' : Session W)
        → Kept s s'
        → ((k : ActionClass)
            → classification h plan boundary ≡ some k
            → crosses k ≡ true
            → Permitted h plan context boundary s)
        → (o : Option ActionClass) → classification h plan boundary ≡ o
        → Leaves
            (Answers context boundary s)
            Anything
            (keep_outcome (commit_class h plan o boundary s') s')
    class-Answers fresh s' k permit (some commit_point) e =
        outcome-Answers _ s' k (permit commit_point e refl)
    class-Answers fresh s' k permit (some potentially_mutating) e =
        outcome-Answers _ s' k (permit potentially_mutating e refl)
    class-Answers fresh s' k permit none e = undeclared-Answers s'
    class-Answers fresh s' k permit (some orientation_only) e = undeclared-Answers s'
    class-Answers fresh s' k permit (some reversible_pre_commit) e = undeclared-Answers s'

    match-Answers :
        (fresh : InteractiveContext) (s' : Session W)
        → helper_context h s ≡ (ok fresh, s')
        → Kept s s'
        → (r : Result (List ContextFieldMismatch) (Unit {0}))
        → assert_context (session_only context) (session_only fresh) ≡ r
        → Leaves (Answers context boundary s) Anything (on_match h plan boundary r s')
    unfolding cross
    match-Answers fresh s' read k (ok tt) same =
        if-elim (Leaves (Answers context boundary s) Anything) (is_attempted s'.txn.state)
          (λ b. Kept-Answers s' k)
          (λ b.
            class-Answers fresh s' k
              (λ class declared mutates. record {
                class = class;
                after = s';
                fresh = fresh;
                declared = declared;
                mutates = mutates;
                read = read;
                same = (assert_context_exact (session_only context) (session_only fresh)).0 same;
              })
              (classification h plan boundary) refl)
    match-Answers fresh s' read k (err ms) same = Kept-Answers s' k

    on_commit-Answers : Leaves (Answers context boundary s) Anything (on_commit h plan boundary s)
    unfolding on_commit
    on_commit-Answers =
        subst (λ o. Leaves (Answers context boundary s) Anything (cross_from h plan o boundary s))
          (sym ready)
          (by_read (helper_context h s) refl (
            context-Keeps (Kept s) (λ _. Kept s) (λ s' w k. k) (λ text s' k. k) h (λ m s' k. k) s
              (refl, refl)))
      where
        by_read :
            (x : Result Raised InteractiveContext × Session W)
            → helper_context h s ≡ x
            → Leaves (Kept s) (λ _. Kept s) x
            → Leaves (Answers context boundary s) Anything (
                try_do
                  (λ _. x)
                  (context_refused h plan boundary)
                  (λ fresh.
                    on_match h plan boundary
                      (assert_context (session_only context) (session_only fresh)))
                  s)
        by_read (ok fresh, s') read k = match-Answers fresh s' read k _ refl
        by_read (err (sheet_error m j), s') read k = Kept-Answers s' k
        by_read (err (foreign (exec_error m)), s') read k = Kept-Answers s' k
        by_read (err (foreign (transaction_raised y)), s') read k = tt
        by_read (err (foreign (lease_raised y)), s') read k = tt
        by_read (err (foreign (envelope_raised y)), s') read k = tt
        by_read (err (foreign (unforeseen y)), s') read k = tt

  module _ (context : InteractiveContext) (g : Session W) where
    -- What holds of each session of a gesture from `g` on.
    abbrev Since : Session W → Type 0
    Since s =
        (s.prepared_context ≡ some context)
        × Moves h plan g s
        × (is_attempted s.txn.state ≡ true → Crossing h plan context g s)

    later :
        (s s' : Session W)
        → ((t : Session W) → Moves h plan t s → Moves h plan t s')
        → Crossing h plan context g s
        → Crossing h plan context g s'
    later s s' step c = record {
      boundary = c.boundary;
      before = c.before;
      reached = c.reached;
      unattempted = c.unattempted;
      permitted = c.permitted;
      goes_on = step _ c.goes_on;
    }

    result-Since :
        {A : Type 0} (r : Result Raised A) (s : Session W) → Since s → Leaves Since Anything (r, s)
    result-Since (ok a) s q = q
    result-Since (err (sheet_error m j)) s q = q
    result-Since (err (foreign x)) s q = tt

    interpolate-Since : (fs : Fields) → Keeps Since Anything (on_world (h.interpolate fs))
    interpolate-Since fs s q =
        result-Since _ _
          (q.0, interpolated fs q.1, λ a. later s _ (λ t m. interpolated fs m) (q.2 a))

    primitive-Since :
        (action : String) (fs : Fields) → Keeps Since Anything (on_world (h.primitive action fs))
    primitive-Since action fs s q =
        result-Since _ _
          (q.0, performed action fs q.1, λ a. later s _ (λ t m. performed action fs m) (q.2 a))

    on_commit-Since : (boundary : String) → Keeps Since Anything (on_commit h plan boundary)
    on_commit-Since boundary s q =
        by_result (on_commit h plan boundary s) refl (on_commit-Answers context boundary s q.0)
      where
        answered :
            (s' : Session W)
            → (on_commit h plan boundary s).1 ≡ s'
            → Answers context boundary s s'
            → Since s'
        answered s' e answer = (
          answer.0,
          subst (Moves h plan g) e (called_back boundary q.1),
          λ a. elim (Bool-cases (is_attempted s.txn.state)) [
            | inl before ↦
                later s s' (λ t m. subst (Moves h plan t) e (called_back boundary m)) (q.2 before)
            | inr fresh ↦ record {
              boundary = boundary;
              before = s;
              reached = q.1;
              unattempted = fresh;
              permitted = answer.1 a fresh;
              goes_on = subst (Moves h plan (on_commit h plan boundary s).1) e unmoved;
            }
          ],
        )

        by_result :
            (x : Result Raised (Unit {0}) × Session W)
            → on_commit h plan boundary s ≡ x
            → Leaves (Answers context boundary s) Anything x
            → Leaves Since Anything x
        by_result (ok tt, s') e answer = answered s' (ap (λ x. x.1) e) answer
        by_result (err (sheet_error m j), s') e answer = answered s' (ap (λ x. x.1) e) answer
        by_result (err (foreign x), s') e answer = tt

    -- A gesture that comes back attempted from a session that was not has crossed a boundary.
    pub gesture-Crossing :
        (sheet : RunSheet) (journal : Journal) (s : Session W)
        → execute (primitives h plan) (callbacks h plan) sheet g ≡ (ok journal, s)
        → g.prepared_context ≡ some context
        → is_attempted g.txn.state ≡ false
        → is_attempted s.txn.state ≡ true
        → Crossing h plan context g s
    gesture-Crossing sheet journal s e ready fresh =
        let since : Since s = subst (Leaves Since Anything) e (
          execute-Keeps Since Anything (primitives h plan) interpolate-Since primitive-Since
            (callbacks h plan) on_commit-Since tt sheet g
            (ready, unmoved, λ a. absurd (cc (a, fresh)))) in
        since.2
