-- ===== src/Envelope/Assertion/Escapes.antt =====
-- The exceptions that leave `assert_envelope`.
use windows_console_driver.Prelude.{
  All, All-of, String, ◌≡◌, refl, ◌⊎◌, inl, inr, false, Option, none, some, arith,
}
use windows_console_driver.Prelude.Results.{Result, ok, err, ◌>>=◌, >>=-eq-err}
use windows_console_driver.Prelude.Dict.{Dict, lookup}
use windows_console_driver.Value.{Value}
use windows_console_driver.Value.Compare.{Raised}
use windows_console_driver.Predicate.{Predicate}
use windows_console_driver.Predicate.Eval.{
  Runtime, Fault, operator_raised, assertion_failed, Evaluated, evaluate, is_caught,
}
use windows_console_driver.Predicate.Safety.{evaluate-uncaught}
use windows_console_driver.Envelope.{Facts, Envelope, ForbidClause}
use windows_console_driver.Envelope.Assertion.{
  build_bindings, Tally, outcome_of, holds, judge_forbid, assert_envelope,
}
use windows_console_driver.Envelope.Assertion.Clauses.{assert_clauses-err}
use windows_console_driver.Envelope.Assertion.Verdict.{
  judge_require, judge_derive, judge_scope, loop_requires, loop_derives, loop_forbids, finish,
}

-- A failed assertion, or an exception of an operator that `evaluate` does not catch.
abbrev pub Escapes : Fault → Type 0
Escapes f =
    (f ≡ assertion_failed) ⊎ ((x : Raised) × (f ≡ operator_raised x) × (is_caught x ≡ false))

pub holds-Escapes :
    (python : Runtime) (p : Predicate) (bindings : Dict Value) (f : Fault)
    → holds python p bindings ≡ err f
    → Escapes f
unfolding holds
holds-Escapes python p bindings f =
    by_value (evaluate python p bindings) (λ x. evaluate-uncaught python p bindings x)
  where
    by_value :
        (m : Evaluated)
        → ((x : Raised) → m ≡ err (operator_raised x) → is_caught x ≡ false)
        → outcome_of p.source m ≡ err f
        → Escapes f
    by_value (ok v) caught h = ground arith
    by_value (err (operator_raised x)) caught h = inr (x, cc h, caught x refl)
    by_value (err assertion_failed) caught h = inl (cc h)
    by_value (err g) caught h = cc h

judge_forbid-Escapes :
    (python : Runtime) (bindings : Dict Value) (c : ForbidClause) (o : Option Value) (f : Fault)
    → judge_forbid python bindings c o ≡ err f
    → Escapes f
unfolding judge_forbid
judge_forbid-Escapes python bindings c none f h = cc h
judge_forbid-Escapes python bindings c (some v) f h = holds-Escapes python c.predicate _ f h

module _ (python : Runtime) (e : Envelope) (pre post : Facts) (categories : Dict String) where
  abbrev first : Result Fault Tally
  first = loop_requires python e pre post categories

  abbrev second : Tally → Result Fault Tally
  second = loop_derives python e pre post categories

  abbrev third : Tally → Result Fault Tally
  third = loop_forbids python e pre post categories

  -- What leaves an assertion, the judging of a clause raised.
  pub assert_envelope-raises :
      (P : Fault → Type 0) (f : Fault)
      → All
          (λ c. (g : Fault) → holds python c.predicate (build_bindings pre post) ≡ err g → P g)
          e.requires
      → All
          (λ c. (g : Fault) → holds python c.relation (build_bindings pre post) ≡ err g → P g)
          e.derives
      → All
          (λ c.
            (g : Fault)
            → judge_forbid python (build_bindings pre post) c (lookup c.scope_key post) ≡ err g
            → P g)
          e.forbids
      → assert_envelope python e pre post categories ≡ err f
      → P f
  unfolding assert_envelope
  assert_envelope-raises P f requires derives forbids h =
      elim (>>=-eq-err (first >>= second >>= third) (finish python e pre post categories) h) [
        | inl h3 ↦ elim (>>=-eq-err (first >>= second) third h3) [
          | inl h2 ↦ elim (>>=-eq-err first second h2) [
            | inl h1 ↦
                assert_clauses-err (judge_require python e pre post categories) _ P 0 e.requires _ f
                  requires h1
            | inr (t, k, l) ↦
                assert_clauses-err (judge_derive python e pre post categories) _ P 0 e.derives t f
                  derives l
          ]
          | inr (t, k, l) ↦
              assert_clauses-err (judge_scope python e pre post categories) _ P 0 e.forbids t f
                forbids l
        ]
        | inr (t, k, l) ↦ cc l
      ]

  -- What leaves an assertion is a failed `assert`, or an exception of an operator that `evaluate` does not
  -- catch; a reference that does not resolve and a type error never do.
  pub assert_envelope-Escapes :
      (f : Fault) → assert_envelope python e pre post categories ≡ err f → Escapes f
  assert_envelope-Escapes f =
      assert_envelope-raises Escapes f
        (All-of _ (λ c. holds-Escapes python c.predicate (build_bindings pre post)) e.requires)
        (All-of _ (λ c. holds-Escapes python c.relation (build_bindings pre post)) e.derives)
        (All-of _
          (λ c. judge_forbid-Escapes python (build_bindings pre post) c (lookup c.scope_key post))
          e.forbids)
