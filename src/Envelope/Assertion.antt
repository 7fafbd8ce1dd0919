-- ===== src/Envelope/Assertion.antt =====
-- src/wcd/envelope.py: `assert_envelope`, over the evaluator. An exception that the evaluator lets
-- through leaves it as `err`.
pub mod Changes
mod Clauses
pub mod Verdict
pub mod Escapes
mod Tests
use Prim.Native.String
use windows_console_driver.Prelude.{
  ℕ, suc, String, Bool, true, false, Option, none, some, List, [], ◌∷◌, ◌++◌, ◌||◌, any, ◌==◌,
  string_eq, if◌then◌else◌,
}
use windows_console_driver.Prelude.Results.{Result, ok, err, ◌>>=◌}
use windows_console_driver.Prelude.Dict.{Dict, lookup, insert}
use windows_console_driver.Value.{Value, str, dict, to_fields, truth}
use windows_console_driver.Predicate.{Predicate}
use windows_console_driver.Predicate.Eval.{
  Runtime, Fault, operator_raised, assertion_failed, Evaluated, evaluate,
}
use windows_console_driver.Envelope.{
  Facts, RequireClause, AllowClause, ForbidClause, DeriveClause, Envelope, predicted_keys,
  is_predicted,
}
use windows_console_driver.Envelope.Delta.{DeltaEntry, FactDelta, entries, compute_delta}
use windows_console_driver.Envelope.Report.{
  AssertionStatus, satisfied_status, disproven_status, indeterminate_status, ClauseLabel,
  require_label, derive_label, forbid_label, Reason, not_true, could_not_evaluate, scope_absent,
  Labelled, Line, characterize,
}

pub data ClauseOutcome : Type 0 where
  clause_satisfied clause_violated clause_unresolved : ClauseOutcome

abbrev pub Judged : Type 0
Judged = ClauseOutcome × Option Reason

-- The faults that are PredicateEvaluationErrors, which `_holds` catches.
abbrev pub is_evaluation_error : Fault → Bool
is_evaluation_error (operator_raised x) = false
is_evaluation_error assertion_failed = false
is_evaluation_error _ = true

abbrev pub outcome_of : String → Evaluated → Result Fault Judged
outcome_of source (ok v) =
    if truth v then ok (clause_satisfied, none) else ok (clause_violated, some (not_true source))
outcome_of source (err f) =
    if is_evaluation_error f then ok (clause_unresolved, some (could_not_evaluate f)) else err f

unfoldable pub holds : Runtime → Predicate → Dict Value → Result Fault Judged
holds python p bindings = outcome_of p.source (evaluate python p bindings)

-- `satisfied`, `violated` and `unresolved`, the lists that the three loops fill.
pub record Tally : Type 0 where
  pub satisfied : List Labelled
  pub violated : List Labelled
  pub unresolved : List Labelled

-- `_record`
unfoldable pub record_outcome : ClauseLabel → Judged → Tally → Tally
record_outcome l (clause_satisfied, r) t = record t {
  satisfied = t.satisfied ++ record { label = l; reason = r } ∷ [];
}
record_outcome l (clause_violated, r) t = record t {
  violated = t.violated ++ record { label = l; reason = r } ∷ [];
}
record_outcome l (clause_unresolved, r) t = record t {
  unresolved = t.unresolved ++ record { label = l; reason = r } ∷ [];
}

unfoldable pub add_bindings : String → Facts → Dict Value → Dict Value
unfolding insert
add_bindings prefix [] bindings = bindings
add_bindings prefix ((k, v) ∷ facts) bindings =
    add_bindings prefix facts (insert (String.◌++◌ prefix k) v bindings)

unfoldable pub build_bindings : Facts → Facts → Dict Value
unfolding to_fields add_bindings
build_bindings pre post = add_bindings "post." post (
    add_bindings "pre." pre (
      ("pre", dict (to_fields pre))
      ∷ (("post", dict (to_fields post)) ∷ (("facts", dict (to_fields post)) ∷ []))))

-- One of the loops over clauses, each judged and recorded under its label.
unfoldable pub assert_clauses :
    {A : Type 0} (judge : A → Result Fault Judged) (label : ℕ → A → ClauseLabel)
    → ℕ
    → List A
    → Tally
    → Result Fault Tally
unfolding record_outcome
assert_clauses judge label index [] t = ok t
assert_clauses judge label index (c ∷ cs) t =
    judge c >>= λ o. assert_clauses judge label (suc index) cs (record_outcome (label index c) o t)

-- A forbid clause: an absent scope fact is a violation.
unfoldable pub judge_forbid :
    Runtime → Dict Value → ForbidClause → Option Value → Result Fault Judged
unfolding insert holds
judge_forbid python bindings c none = ok (clause_violated, some (scope_absent c.scope_key))
judge_forbid python bindings c (some v) =
    holds python c.predicate (insert "scope_key" (str c.scope_key) (insert "scope" v bindings))

abbrev pub is_allowed : String → List AllowClause → Bool
is_allowed category allows = any (λ c. c.category == category) allows

unfoldable pub unclassified_keys : List AllowClause → List String → List DeltaEntry → List String
unfolding is_predicted
unclassified_keys allows predicted [] = []
unclassified_keys allows predicted (e ∷ es) =
    let rest = unclassified_keys allows predicted es in
    if is_allowed e.category allows || is_predicted e.key predicted then rest else e.key ∷ rest

-- Any unresolved clause caps the verdict.
unfoldable pub status_of :
    (unresolved violated : List Labelled) (unclassified : List String) → AssertionStatus
status_of [] [] [] = satisfied_status
status_of [] [] (k ∷ ks) = disproven_status
status_of [] (l ∷ ls) ks = disproven_status
status_of (u ∷ us) ls ks = indeterminate_status

pub record AssertionResult : Type 0 where
  pub status : AssertionStatus
  pub satisfied : List Labelled
  pub violated : List Labelled
  pub unresolved : List Labelled
  pub unclassified : List String
  pub characterization : Option (List Line)
  pub delta : FactDelta

unfoldable pub conclude : Tally → FactDelta → List String → AssertionResult
unfolding status_of characterize
conclude t delta unclassified =
    let status = status_of t.unresolved t.violated unclassified in
    record {
      status = status;
      satisfied = t.satisfied;
      violated = t.violated;
      unresolved = t.unresolved;
      unclassified = unclassified;
      characterization = characterize status t.satisfied t.violated t.unresolved delta unclassified;
      delta = delta;
    }

unfoldable pub assert_envelope :
    Runtime → Envelope → (pre post : Facts) → Dict String → Result Fault AssertionResult
assert_envelope python e pre post categories =
    let bindings = build_bindings pre post in
    let delta = compute_delta pre post categories in
    let empty : Tally = record { satisfied = []; violated = []; unresolved = [] } in
    assert_clauses (λ c. holds python c.predicate bindings) (λ i c. require_label i c.fact_key) 0
      e.requires empty
    >>= (λ t.
        assert_clauses (λ c. holds python c.relation bindings) (λ i c. derive_label i) 0 e.derives
          t)
    >>= (λ t.
        assert_clauses (λ c. judge_forbid python bindings c (lookup c.scope_key post))
          (λ i c. forbid_label i c.scope_key) 0 e.forbids t)
    >>= (λ t. ok (conclude t delta (unclassified_keys e.allows (predicted_keys e) (entries delta))))
