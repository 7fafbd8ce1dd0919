-- ===== src/Predicate/Tests.antt =====
-- Predicates that compile, are refused and are evaluated, and the theorems at concrete predicates.
use windows_console_driver.Prelude.{
  String, ◌≡◌, ◌≤◌, ◌↔◌, refl, Bool, true, false, Option, none, some, [], ◌∷◌, ◌==◌, string_eq,
  if◌then◌else◌,
}
use windows_console_driver.Prelude.Int.{pos, negsuc}
use windows_console_driver.Prelude.Results.{ok, err}
use windows_console_driver.Prelude.Dict.{Dict, lookup}
use windows_console_driver.Value.{Value, null, boolean, int, truth}
use windows_console_driver.Value.Compare.{Raised, type_error, py_compare, py_in}
use windows_console_driver.Value.Arithmetic.{py_floor_div}
use windows_console_driver.Predicate.{
  str_constant, int_constant, not_in_op, gt_op, and_op, floor_div_op, constant, name, attribute,
  subscript, bool_op, bin_op, compare, no_exprs, expr, no_comparisons, comparison, Expr, Predicate,
  validate, subscript_base, compile_predicate, max_depth,
}
use windows_console_driver.Predicate.Paths.{dotted, referenced_paths}
use windows_console_driver.Predicate.Subset.{in_subset, height, nodes, validate_exact}
use windows_console_driver.Predicate.Compile.{Compiles, compile_exact}
use windows_console_driver.Predicate.Eval.{
  Runtime, unresolved, operator_raised, eval, evaluate, constant_value, lookup_binding,
  apply_binary, compare_holds, contains, is_caught,
}
use windows_console_driver.Predicate.Safety.{is_internal, evaluate_safe}

abbrev python : Runtime
python = record { is_same = λ l r a b. false; format = λ f v. err type_error }

-- `post.count > 1 and "x" not in post.names`
abbrev both : Expr
both = bool_op and_op (
    expr
      (compare (attribute (name "post") "count")
        (comparison gt_op (constant (int_constant (pos 1))) no_comparisons))
      (expr
        (compare (constant (str_constant "x"))
          (comparison not_in_op (attribute (name "post") "names") no_comparisons))
        no_exprs))

abbrev bindings : Dict Value
bindings = ("post.count", int (pos 2)) ∷ (("post.names", null) ∷ [])

abbrev two_counts : Dict Value
two_counts = ("post.count", int (pos 1)) ∷ []

abbrev as_predicate : Expr → Predicate
as_predicate e = record { source = "both"; expression = e }

abbrev parse : String → Option Expr
parse s = if s == "both" then some both else none

abbrev is_blank : String → Bool
is_blank s = s == ""

-- The absent names contain nothing.
chain_accepts : evaluate python (as_predicate both) bindings ≡ ok (boolean true)
unfolding evaluate eval constant_value lookup_binding compare_holds contains dotted lookup truth
    py_compare py_in
chain_accepts = refl

-- The first comparison is false, so the unresolved second is not reached.
chain_stops : evaluate python (as_predicate both) two_counts ≡ ok (boolean false)
unfolding evaluate eval constant_value lookup_binding compare_holds dotted lookup truth py_compare
chain_stops = refl

unresolved_reference : evaluate python (as_predicate both) [] ≡ err (unresolved "post.count")
unfolding evaluate eval lookup_binding dotted lookup
unresolved_reference = refl

both_paths : referenced_paths both ≡ "post.count" ∷ ("post.names" ∷ [])
unfolding referenced_paths dotted
both_paths = refl

-- `1["a"]` has no reference below the subscript.
literal_base :
    validate (subscript (constant (int_constant (pos 1))) (constant (str_constant "a"))) 0
    ≡ err subscript_base
unfolding validate
literal_base = refl

-- Python's floor division rounds down.
floors :
    evaluate python
      (as_predicate (
        bin_op (constant (int_constant (negsuc 6))) floor_div_op (constant (int_constant (pos 2)))))
      []
    ≡ ok (int (negsuc 3))
unfolding evaluate eval constant_value apply_binary py_floor_div
floors = refl

validate_exact_example :
    (validate both 0 ≡ ok 9)
    ↔ ((in_subset both ≡ true) × (height both ≤ max_depth) × (9 ≡ nodes both))
validate_exact_example = validate_exact both 9

compile_exact_example :
    (compile_predicate parse is_blank "both" ≡ ok (as_predicate both))
    ↔ Compiles parse is_blank "both" both
compile_exact_example = compile_exact parse is_blank "both" both

validates : validate both 0 ≡ ok 9
unfolding validate
validates = refl

evaluate_safe_example :
    (is_internal (unresolved "post.count") ≡ false)
    × ((x : Raised) → unresolved "post.count" ≡ operator_raised x → is_caught x ≡ false)
evaluate_safe_example =
    evaluate_safe python (as_predicate both) [] 9 (unresolved "post.count") validates
      unresolved_reference
