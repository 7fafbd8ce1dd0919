-- ===== src/Envelope/Parsing/Raises.antt =====
-- The exceptions that leave the assertion of a parsed envelope.
use windows_console_driver.Prelude.{
  String, ◌≡◌, ◌∙◌, ap, inl, inr, false, Option, none, some, All-map, arith,
}
use windows_console_driver.Prelude.Results.{ok, err}
use windows_console_driver.Prelude.Dict.{Dict, lookup}
use windows_console_driver.Value.{Value, Fields}
use windows_console_driver.Value.Compare.{Raised}
use windows_console_driver.Predicate.{Expr, Predicate}
use windows_console_driver.Predicate.Eval.{
  Runtime, Fault, operator_raised, assertion_failed, Evaluated, evaluate, is_caught,
}
use windows_console_driver.Predicate.Safety.{evaluate_safe}
use windows_console_driver.Envelope.{Facts, Envelope, ForbidClause}
use windows_console_driver.Envelope.Assertion.{
  outcome_of, holds, build_bindings, judge_forbid, assert_envelope,
}
use windows_console_driver.Envelope.Assertion.Escapes.{assert_envelope-raises, holds-Escapes}
use windows_console_driver.Envelope.Parsing.{parse_envelope}
use windows_console_driver.Envelope.Parsing.Accepted.{IsAccepted, parse_envelope-IsWellFormed}

-- An exception of an operator that `evaluate` does not catch.
abbrev pub IsUncaught : Fault → Type 0
IsUncaught f = (x : Raised) × (f ≡ operator_raised x) × (is_caught x ≡ false)

holds-assertion :
    (python : Runtime) (p : Predicate) (bindings : Dict Value)
    → holds python p bindings ≡ err assertion_failed
    → evaluate python p bindings ≡ err assertion_failed
unfolding holds
holds-assertion python p bindings = by_value (evaluate python p bindings)
  where
    by_value :
        (m : Evaluated) → outcome_of p.source m ≡ err assertion_failed → m ≡ err assertion_failed
    by_value (ok v) h = ground arith
    by_value (err g) h = ground arith

holds-IsUncaught :
    (python : Runtime) (p : Predicate) (bindings : Dict Value)
    → IsAccepted p
    → (f : Fault) → holds python p bindings ≡ err f
    → IsUncaught f
holds-IsUncaught python p bindings (n, accepted, small) f h =
    elim (holds-Escapes python p bindings f h) [
      | inl e ↦
          let raised = holds-assertion python p bindings (h ∙ ap err e) in
          let safe = (evaluate_safe python p bindings n assertion_failed accepted raised).0 in
          cc safe
      | inr u ↦ u
    ]

judge_forbid-IsUncaught :
    (python : Runtime) (bindings : Dict Value) (c : ForbidClause) (o : Option Value)
    → IsAccepted c.predicate
    → (f : Fault) → judge_forbid python bindings c o ≡ err f
    → IsUncaught f
unfolding judge_forbid
judge_forbid-IsUncaught python bindings c none a f h = cc h
judge_forbid-IsUncaught python bindings c (some v) a f h =
    holds-IsUncaught python c.predicate _ a f h

-- The assertion of an envelope that the parser returned raises, if anything, an exception of an operator
-- that `evaluate` does not catch: no other fault of the evaluation leaves it.
pub parsed_envelope-IsUncaught :
    (parse : String → Option Expr) (strip : String → String) (raw : Fields) (e : Envelope)
    (python : Runtime) (pre post : Facts) (categories : Dict String) (f : Fault)
    → parse_envelope parse strip raw ≡ ok e
    → assert_envelope python e pre post categories ≡ err f
    → IsUncaught f
parsed_envelope-IsUncaught parse strip raw e python pre post categories f h =
    let w = parse_envelope-IsWellFormed parse strip raw e h in
    assert_envelope-raises python e pre post categories IsUncaught f
      (All-map _ _ (λ c a. holds-IsUncaught python c.predicate (build_bindings pre post) a)
        e.requires w.requires_accepted)
      (All-map _ _ (λ c a. holds-IsUncaught python c.relation (build_bindings pre post) a) e.derives
        w.derives_accepted)
      (All-map _ _
        (λ c a.
          judge_forbid-IsUncaught python (build_bindings pre post) c (lookup c.scope_key post) a)
        e.forbids w.forbids_accepted)
