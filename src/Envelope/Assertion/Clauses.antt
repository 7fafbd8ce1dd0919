-- ===== src/Envelope/Assertion/Clauses.antt =====
-- The loops of `assert_envelope` over clauses: what they raise, and what their lists hold.
use mathlib.Core.Path.{subst}
use windows_console_driver.Prelude.{
  ℕ, suc, ◌≡◌, refl, sym, ap, ◌∙◌, ◌↔◌, inl, inr, Bool, true, false, ◌&&◌, Option, none, some, List,
  [], ◌∷◌, ◌++◌, All, arith, Bool-cases,
}
use windows_console_driver.Prelude.Results.{Result, ok, err, >>=-eq-ok, >>=-eq-err}
use windows_console_driver.Prelude.Dict.{Dict, insert}
use windows_console_driver.Value.{Value, str, truth}
use windows_console_driver.Predicate.{Predicate}
use windows_console_driver.Predicate.Eval.{Runtime, Fault, Evaluated, evaluate}
use windows_console_driver.Envelope.{ForbidClause}
use windows_console_driver.Envelope.Report.{ClauseLabel, Reason, not_true, scope_absent}
use windows_console_driver.Envelope.Assertion.{
  ClauseOutcome, clause_satisfied, clause_violated, clause_unresolved, Judged, outcome_of, holds,
  Tally, record_outcome, assert_clauses, judge_forbid,
}

abbrev pub is_nil {ℓ} : {A : Type ℓ} → List A → Bool
is_nil [] = true
is_nil (x ∷ xs) = false

is_nil-append : {A : Type 0} (xs : List A) (x : A) → is_nil (xs ++ x ∷ []) ≡ false
is_nil-append [] x = refl
is_nil-append (y ∷ xs) x = refl

abbrev pub is_satisfied : ClauseOutcome → Bool
is_satisfied clause_satisfied = true
is_satisfied _ = false

abbrev pub is_resolved : ClauseOutcome → Bool
is_resolved clause_unresolved = false
is_resolved _ = true

-- Two tests of a tally, each of which one clause can only spoil.
abbrev pub is_resolved_tally : Tally → Bool
is_resolved_tally t = is_nil t.unresolved

abbrev pub is_clean : Tally → Bool
is_clean t = is_nil t.unresolved && is_nil t.violated

pub record_outcome-tests :
    (l : ClauseLabel) (o : ClauseOutcome) (r : Option Reason) (t : Tally)
    → (is_resolved_tally (record_outcome l (o, r) t) ≡ is_resolved_tally t && is_resolved o)
      × (is_clean (record_outcome l (o, r) t) ≡ is_clean t && is_satisfied o)
unfolding record_outcome
record_outcome-tests l clause_satisfied r t = (ground arith, ground arith)
record_outcome-tests l clause_violated r t =
    (ground arith, rw (is_nil-append t.violated (record { label = l; reason = r })) (ground arith))
record_outcome-tests l clause_unresolved r t =
    let e = is_nil-append t.unresolved (record { label = l; reason = r }) in
    (rw e (ground arith), rw e (ground arith))

-- A clause is judged, with an outcome that passes the test `q`.
abbrev pub JudgedAs : Result Fault Judged → (ClauseOutcome → Bool) → Type 0
JudgedAs m q = (o : Judged) × (m ≡ ok o) × (q o.0 ≡ true)

module _ {A : Type 0} (judge : A → Result Fault Judged) (label : ℕ → A → ClauseLabel) where
  pub assert_clauses-test :
      (m : Tally → Bool) (q : ClauseOutcome → Bool)
      → ((l : ClauseLabel) (o : Judged) (t : Tally) → m (record_outcome l o t) ≡ m t && q o.0)
      → (i : ℕ) (cs : List A) (t u : Tally) → assert_clauses judge label i cs t ≡ ok u
      → (m u ≡ true) ↔ ((m t ≡ true) × All (λ c. JudgedAs (judge c) q) cs)
  unfolding assert_clauses
  assert_clauses-test m q law i [] t u h =
      let e : t ≡ u = cc h in (λ p. (ap m e ∙ p, tt), λ p. sym (ap m e) ∙ p.0)
  assert_clauses-test m q law i (c ∷ cs) t u h =
      let (o, e, rest) = >>=-eq-ok (judge c) _ h in
      let (there, back) =
        assert_clauses-test m q law (suc i) cs (record_outcome (label i c) o t) u rest in
      let l = law (label i c) o t in
      (
        λ p.
            let (s, k) = there p in
            let both = sym l ∙ s in (ground (arith, both), ((o, e, ground (arith, both)), k)),
        λ p.
            let (n, all) = p in
            let ((o', e', w), k) = all in
            let same : o' ≡ o = cc (e, e') in
            back (l ∙ ground (arith, n, subst (λ x. q x.0 ≡ true) same w), k),
      )

  -- What a loop raises, one of its clauses raised.
  pub assert_clauses-err :
      (P : Fault → Type 0) (i : ℕ) (cs : List A) (t : Tally) (f : Fault)
      → All (λ c. (g : Fault) → judge c ≡ err g → P g) cs
      → assert_clauses judge label i cs t ≡ err f
      → P f
  unfolding assert_clauses
  assert_clauses-err P i [] t f raises h = cc h
  assert_clauses-err P i (c ∷ cs) t f (first, rest) h = elim (>>=-eq-err (judge c) _ h) [
    | inl e ↦ first f e
    | inr (o, e, later) ↦
        assert_clauses-err P (suc i) cs (record_outcome (label i c) o t) f rest later
  ]

module _ (python : Runtime) (p : Predicate) (bindings : Dict Value) where
  -- The predicate evaluates.
  abbrev pub Evaluates : Type 0
  Evaluates = (v : Value) × (evaluate python p bindings ≡ ok v)

  -- The predicate evaluates to a true value.
  abbrev pub Holds : Type 0
  Holds = (v : Value) × (evaluate python p bindings ≡ ok v) × (truth v ≡ true)

  pub holds-Holds : JudgedAs (holds python p bindings) is_satisfied ↔ Holds
  unfolding holds
  holds-Holds = by_value (evaluate python p bindings)
    where
      by_value :
          (m : Evaluated)
          → JudgedAs (outcome_of p.source m) is_satisfied
            ↔ ((v : Value) × (m ≡ ok v) × (truth v ≡ true))
      by_value (ok v) = (
        λ (j, e, w). (v, refl, ground arith),
        λ (w, e, t). ((clause_satisfied, none), ground arith, refl),
      )
      by_value (err f) = (λ (j, e, w). ground arith, λ (w, e, t). cc e)

  pub holds-Evaluates : JudgedAs (holds python p bindings) is_resolved ↔ Evaluates
  unfolding holds
  holds-Evaluates = by_value (evaluate python p bindings)
    where
      by_value :
          (m : Evaluated)
          → JudgedAs (outcome_of p.source m) is_resolved ↔ ((v : Value) × (m ≡ ok v))
      by_value (ok v) = (
        λ j. (v, refl),
        λ x. elim (Bool-cases (truth v)) [
          | inl t ↦ ((clause_satisfied, none), rw t refl, refl)
          | inr t ↦ ((clause_violated, some (not_true p.source)), rw t refl, refl)
        ],
      )
      by_value (err f) = (λ (j, e, w). ground arith, λ (w, e). cc e)

module _ (python : Runtime) (bindings : Dict Value) (c : ForbidClause) where
  -- What the predicate of a forbid clause sees when its scope fact has the value `v`.
  abbrev pub scope_bindings : Value → Dict Value
  scope_bindings v = insert "scope_key" (str c.scope_key) (insert "scope" v bindings)

  -- The scope fact is there and the predicate holds.
  abbrev pub Guards : Option Value → Type 0
  Guards none = ⊥
  Guards (some v) = Holds python c.predicate (scope_bindings v)

  -- The scope fact is absent, or the predicate evaluates.
  abbrev pub Decides : Option Value → Type 0
  Decides none = Unit
  Decides (some v) = Evaluates python c.predicate (scope_bindings v)

  pub judge_forbid-Guards :
      (o : Option Value) → JudgedAs (judge_forbid python bindings c o) is_satisfied ↔ Guards o
  unfolding judge_forbid
  judge_forbid-Guards none = (λ (j, e, w). ground arith, λ b. ground arith)
  judge_forbid-Guards (some v) = holds-Holds python c.predicate (scope_bindings v)

  pub judge_forbid-Decides :
      (o : Option Value) → JudgedAs (judge_forbid python bindings c o) is_resolved ↔ Decides o
  unfolding judge_forbid
  judge_forbid-Decides none =
      (λ j. tt, λ u. ((clause_violated, some (scope_absent c.scope_key)), refl, refl))
  judge_forbid-Decides (some v) = holds-Evaluates python c.predicate (scope_bindings v)
