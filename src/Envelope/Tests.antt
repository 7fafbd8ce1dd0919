-- ===== src/Envelope/Tests.antt =====
-- An envelope with one clause of each kind, run on two states, and the theorems at these runs.
use windows_console_driver.Prelude.{
  ℕ, ◌+◌, ◌≤◌, ◌⊎◌, All, String, ◌≡◌, refl, ◌↔◌, false, not, ◌&&◌, none, some, [], ◌∷◌,
}
use windows_console_driver.Prelude.Int.{pos}
use windows_console_driver.Prelude.Results.{ok, err}
use windows_console_driver.Prelude.Dict.{Dict, lookup, insert}
use windows_console_driver.Value.{boolean, int, str, to_fields, truth}
use windows_console_driver.Value.Compare.{type_error, py_eq, py_compare}
use windows_console_driver.Predicate.{
  bool_constant, gt_op, eq_op, constant, name, attribute, compare, no_comparisons, comparison,
  Predicate,
}
use windows_console_driver.Predicate.Paths.{dotted, referenced_paths}
use windows_console_driver.Predicate.Eval.{
  Runtime, Fault, eval, evaluate, constant_value, lookup_binding, compare_holds,
}
use windows_console_driver.Envelope.{
  Facts, Envelope, member, post_side_keys, post_side_paths, require_keys, derive_keys, forbid_keys,
  predicted_keys, is_predicted, keep_new, normalized_keys,
}
use windows_console_driver.Envelope.Delta.{
  changed, DeltaEntry, entry, insert_key, insert_keys, sorted_union, category_of, add_entry,
  delta_of, compute_delta, entries,
}
use windows_console_driver.Envelope.Report.{
  satisfied_status, disproven_status, require_label, derive_label, forbid_label, satisfied_line,
  covered_line, characterize, heading, covered_lines, find_entry, unclassified_lines, add_lines,
}
use windows_console_driver.Envelope.Assertion.{
  holds, record_outcome, add_bindings, build_bindings, assert_clauses, judge_forbid,
  unclassified_keys, status_of, conclude, assert_envelope, AssertionResult,
}
use windows_console_driver.Envelope.Delta.Exact.{
  changed_at, added_at, removed_at, kind_at, has_key, delta_exact,
}
use windows_console_driver.Envelope.Assertion.Changes.{differs, is_covered}
use windows_console_driver.Envelope.Assertion.Verdict.{
  ClausesHold, ClausesDecided, ChangesCovered, satisfied_exact, disproven_exact, unclassified_exact,
}
use windows_console_driver.Envelope.Convergence.{
  max_converge_polls, ConvergenceResult, Env, converge, poll_loop, poll_on, after_polls,
  after_assertion, reproduce_loop, reproduced, finish, normalize, same_state,
}
use windows_console_driver.Envelope.Convergence.Frozen.{
  Verified, Stable, converge-Verified, converge-Returns,
}

abbrev python : Runtime
python = record { is_same = λ l r a b. false; format = λ f v. err type_error }

-- `post.version > pre.version`
abbrev grew : Predicate
grew = record {
  source = "post.version > pre.version";
  expression =
      compare (attribute (name "post") "version")
        (comparison gt_op (attribute (name "pre") "version") no_comparisons);
}

-- `scope == False`
abbrev nothing_found : Predicate
nothing_found = record {
  source = "scope == False";
  expression =
      compare (name "scope") (comparison eq_op (constant (bool_constant false)) no_comparisons);
}

abbrev sample : Envelope
sample = record {
  requires = record { fact_key = "version"; predicate = grew } ∷ [];
  allows = record { category = "metadata" } ∷ [];
  forbids = record { scope_key = "forbid.extensions"; predicate = nothing_found } ∷ [];
  derives = record { relation = grew } ∷ [];
  convergence = record { window_seconds = 90; poll_seconds = 5; reproduce = 2 };
}

abbrev before : Facts
before =
    ("version", int (pos 1)) ∷ (("stamp", str "a") ∷ (("forbid.extensions", boolean false) ∷ []))

abbrev after : Facts
after =
    ("version", int (pos 2)) ∷ (("stamp", str "b") ∷ (("forbid.extensions", boolean false) ∷ []))

abbrev stray : Facts
stray =
    ("version", int (pos 2)) ∷ (("owner", str "b") ∷ (("forbid.extensions", boolean false) ∷ []))

abbrev categories : Dict String
categories = ("stamp", "metadata") ∷ []

abbrev stamp_entry : DeltaEntry
stamp_entry = entry changed "metadata" "stamp" (some (str "a")) (some (str "b"))

abbrev version_entry : DeltaEntry
version_entry = entry changed "unclassified" "version" (some (int (pos 1))) (some (int (pos 2)))

abbrev accepted : AssertionResult
accepted = record {
  status = satisfied_status;
  satisfied =
      record { label = require_label 0 "version"; reason = none }
      ∷ (record { label = derive_label 0; reason = none }
          ∷ (record { label = forbid_label 0 "forbid.extensions"; reason = none } ∷ []));
  violated = [];
  unresolved = [];
  unclassified = [];
  characterization =
      some (satisfied_line 3 2 ∷ (covered_line stamp_entry ∷ (covered_line version_entry ∷ [])));
  delta = record {
    changed_entries = stamp_entry ∷ (version_entry ∷ []);
    added_entries = [];
    removed_entries = [];
  };
}

accepts : assert_envelope python sample before after categories ≡ ok accepted
unfolding assert_envelope holds record_outcome add_bindings build_bindings assert_clauses
    judge_forbid unclassified_keys status_of conclude compute_delta delta_of add_entry category_of
    sorted_union insert_keys insert_key entries characterize heading covered_lines find_entry
    unclassified_lines add_lines evaluate eval constant_value lookup_binding compare_holds dotted
    referenced_paths post_side_keys post_side_paths require_keys derive_keys predicted_keys
    is_predicted lookup insert to_fields truth py_eq py_compare
accepts = refl

-- A fact that comes is not covered; one that goes has an allowed category.
stray_unclassified :
    (r : AssertionResult) × (assert_envelope python sample before stray categories ≡ ok r)
    × (r.status ≡ disproven_status)
    × (r.unclassified ≡ "owner" ∷ [])
unfolding assert_envelope holds record_outcome add_bindings build_bindings assert_clauses
    judge_forbid unclassified_keys status_of conclude compute_delta delta_of add_entry category_of
    sorted_union insert_keys insert_key entries characterize heading covered_lines find_entry
    unclassified_lines add_lines evaluate eval constant_value lookup_binding compare_holds dotted
    referenced_paths post_side_keys post_side_paths require_keys derive_keys predicted_keys
    is_predicted lookup insert to_fields truth py_eq py_compare
stray_unclassified = (_, refl, refl, refl)

satisfied_exact_example : (accepted.status ≡ satisfied_status) ↔ (
    ClausesHold python sample before after categories
    × ChangesCovered python sample before after categories)
satisfied_exact_example = satisfied_exact python sample before after categories accepted accepts

disproven_exact_example : (accepted.status ≡ disproven_status) ↔ (
    ClausesDecided python sample before after categories
    × (ClausesHold python sample before after categories
          × ChangesCovered python sample before after categories
        → ⊥))
disproven_exact_example = disproven_exact python sample before after categories accepted accepts

unclassified_exact_example :
    member "stamp" accepted.unclassified
    ≡ differs before after "stamp" && not (is_covered sample categories "stamp")
unclassified_exact_example =
    unclassified_exact python sample before after categories accepted accepts "stamp"

delta_exact_example :
    ((has_key "stamp" (compute_delta before after categories).changed_entries
        ≡ changed_at (lookup "stamp" before) (lookup "stamp" after))
      × (has_key "stamp" (compute_delta before after categories).added_entries
          ≡ added_at (lookup "stamp" before) (lookup "stamp" after))
      × (has_key "stamp" (compute_delta before after categories).removed_entries
          ≡ removed_at (lookup "stamp" before) (lookup "stamp" after)))
    × All
        (λ e.
          (e.before ≡ lookup e.key before)
          × (e.after ≡ lookup e.key after)
          × (e.category ≡ category_of categories e.key)
          × (e.kind ≡ kind_at (lookup e.key before) (lookup e.key after)))
        (entries (compute_delta before after categories))
delta_exact_example = delta_exact before after categories "stamp"

-- A world that counts its seconds and always shows the state after the change.
abbrev steady : Env ℕ
steady = record { observe = λ w. (after, w); clock = λ w. (w, w); sleep = λ n w. w + n }

abbrev converged : ConvergenceResult
converged = record {
  status = satisfied_status;
  reason = none;
  assertion = accepted;
  polls = 2;
  elapsed_seconds = pos 15;
  reproduce_observed = 2;
  frozen =
      some (("version", some (int (pos 2))) ∷ (("forbid.extensions", some (boolean false)) ∷ []));
}

converges : converge steady python sample before categories 0 ≡ (ok (some converged), 15)
unfolding assert_envelope holds record_outcome add_bindings build_bindings assert_clauses
    judge_forbid unclassified_keys status_of conclude compute_delta delta_of add_entry category_of
    sorted_union insert_keys insert_key entries characterize heading covered_lines find_entry
    unclassified_lines add_lines evaluate eval constant_value lookup_binding compare_holds dotted
    referenced_paths post_side_keys post_side_paths require_keys derive_keys predicted_keys
    is_predicted lookup insert to_fields truth py_eq py_compare forbid_keys keep_new normalized_keys
    converge poll_loop poll_on after_polls after_assertion reproduce_loop reproduced finish
    normalize same_state
converges = refl

converge-Verified_example : Verified steady sample python before categories 0 converged
converge-Verified_example =
    converge-Verified steady sample python before categories 0 15 converged converges refl

converge-Returns_example :
    ((r : ConvergenceResult) × (v : ℕ) × (converge steady python sample before categories 0
        ≡ (ok (some r), v))
      × (r.polls ≤ max_converge_polls))
    ⊎ ((f : Fault) × (world polls : ℕ) × Stable steady sample 0 polls world
        × (assert_envelope python sample before (steady.observe world).0 categories ≡ err f)
        × (converge steady python sample before categories 0 ≡ (err f, (steady.observe world).1)))
converge-Returns_example = converge-Returns steady sample python before categories 0
