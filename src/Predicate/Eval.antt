-- ===== src/Predicate/Eval.antt =====
-- src/wcd/envelope.py: `evaluate`, the bounded expression evaluator. What Python leaves to its
-- implementation is a parameter: the identity test `is`, of two operands and their values, and the
-- rendering of a `%` format.
use Prim.Native.Nat.{Ordering}
use windows_console_driver.Prelude.{
  String, Bool, true, false, not, Option, none, some, if◌then◌else◌,
}
use windows_console_driver.Prelude.Results.{Result, ok, err, ◌>>=◌}
use windows_console_driver.Prelude.Dict.{Dict, lookup}
use windows_console_driver.Value.{
  Value, null, boolean, int, str, list, tuple, dict, Items, no_items, item, find_field, truth,
}
use windows_console_driver.Value.Compare.{
  Raised, type_error, zero_division, value_error, index_error, py_eq, py_compare, py_in,
}
use windows_console_driver.Value.Arithmetic.{
  py_add, py_sub, py_mul, py_floor_div, py_mod, py_neg, py_pos,
}
use windows_console_driver.Predicate.{
  Constant, none_constant, bool_constant, int_constant, str_constant, foreign_constant, and_op,
  or_op, UnaryOp, not_op, usub_op, BinOp, add_op, sub_op, mult_op, floor_div_op, CompareOp, eq_op,
  not_eq_op, lt_op, lte_op, gt_op, gte_op, in_op, not_in_op, is_op, is_not_op, Expr, constant, name,
  attribute, subscript, bool_op, unary_op, bin_op, compare, list_literal, tuple_literal, other_node,
  Exprs, no_exprs, expr, Comparisons, no_comparisons, comparison, Predicate,
}
use windows_console_driver.Predicate.Paths.{dotted}

pub record Runtime : Type 0 where
  pub is_same : Expr → Expr → Value → Value → Bool
  pub format : String → Value → Result Raised Value

-- What `_eval` raises: the module's PredicateResolutionError and PredicateEvaluationError by their
-- causes, an exception of an operator, and a failed assertion.
pub data Fault : Type 0 where
  unresolved : String → Fault
  key_absent : String → Expr → Fault
  not_dotted : Fault
  not_a_mapping : Expr → Fault
  not_evaluable : Fault
  failed_to_evaluate : Raised → Fault
  operator_raised : Raised → Fault
  assertion_failed : Fault

abbrev pub Evaluated : Type 0
Evaluated = Result Fault Value

abbrev pub lift : {A : Type 0} → Result Raised A → (A → Result Fault Value) → Result Fault Value
lift (ok a) f = f a
lift (err x) f = err (operator_raised x)

abbrev pub lift_value : Result Raised Value → Evaluated
lift_value (ok v) = ok v
lift_value (err x) = err (operator_raised x)

-- A constant that validation refuses has no value here.
unfoldable pub constant_value : Constant → Evaluated
constant_value none_constant = ok null
constant_value (bool_constant b) = ok (boolean b)
constant_value (int_constant n) = ok (int n)
constant_value (str_constant s) = ok (str s)
constant_value (foreign_constant t) = err not_evaluable

-- `_lookup`
unfoldable pub lookup_binding : Dict Value → Option String → Evaluated
lookup_binding bindings none = err not_dotted
lookup_binding bindings (some key) = elim (lookup key bindings) [
  | none ↦ err (unresolved key)
  | some v ↦ ok v
]

-- `_contains`: a `None` on the right contains nothing.
unfoldable pub contains : Value → Value → Result Raised Bool
unfolding py_in
contains left null = ok false
contains left right = py_in left right

abbrev is_lt : Ordering → Bool
is_lt Ordering.lt = true
is_lt _ = false

abbrev is_gt : Ordering → Bool
is_gt Ordering.gt = true
is_gt _ = false

abbrev test : (Ordering → Bool) → Result Raised Ordering → Result Raised Bool
test p (ok o) = ok (p o)
test p (err x) = err x

abbrev negated : Result Raised Bool → Result Raised Bool
negated (ok b) = ok (not b)
negated (err x) = err x

module _ (python : Runtime) where
  unfoldable pub compare_holds : CompareOp → Expr → Expr → Value → Value → Result Raised Bool
  unfolding contains py_eq py_compare
  compare_holds eq_op l r a b = ok (py_eq a b)
  compare_holds not_eq_op l r a b = ok (not (py_eq a b))
  compare_holds lt_op l r a b = test is_lt (py_compare a b)
  compare_holds lte_op l r a b = test (λ o. not (is_gt o)) (py_compare a b)
  compare_holds gt_op l r a b = test is_gt (py_compare a b)
  compare_holds gte_op l r a b = test (λ o. not (is_lt o)) (py_compare a b)
  compare_holds in_op l r a b = contains a b
  compare_holds not_in_op l r a b = negated (contains a b)
  compare_holds is_op l r a b = ok (python.is_same l r a b)
  compare_holds is_not_op l r a b = ok (not (python.is_same l r a b))

  -- The operators in the order of the source; any other is its last `return`.
  unfoldable pub apply_unary : UnaryOp → Value → Evaluated
  unfolding truth py_neg py_pos
  apply_unary not_op v = ok (boolean (not (truth v)))
  apply_unary usub_op v = lift_value (py_neg v)
  apply_unary _ v = lift_value (py_pos v)

  unfoldable pub apply_binary : BinOp → Value → Value → Evaluated
  unfolding py_add py_sub py_mul py_floor_div py_mod
  apply_binary add_op a b = lift_value (py_add a b)
  apply_binary sub_op a b = lift_value (py_sub a b)
  apply_binary mult_op a b = lift_value (py_mul a b)
  apply_binary floor_div_op a b = lift_value (py_floor_div a b)
  apply_binary _ a b = lift_value (py_mod python.format a b)

  -- `base[key]`: a text key is looked up, another literal is absent, and a key that is no literal fails
  -- the assertion.
  unfoldable pub subscript_value : Expr → Expr → Value → Evaluated
  unfolding find_field
  subscript_value e (constant (str_constant key)) (dict fs) = elim (find_field key fs) [
    | none ↦ err (key_absent key e)
    | some v ↦ ok v
  ]
  subscript_value e (constant c) (dict fs) = err (key_absent "" e)
  subscript_value e (constant c) base = err (not_a_mapping e)
  subscript_value e key base = err assertion_failed

  module _ (bindings : Dict Value) where
    unfoldable mutual
      pub eval : Expr → Evaluated
      eval (constant c) = constant_value c
      eval (bool_op and_op es) = eval_all es
      eval (bool_op or_op es) = eval_any es
      eval (unary_op op e) = eval e >>= apply_unary op
      eval (bin_op l op r) = eval l >>= λ a. eval r >>= λ b. apply_binary op a b
      eval (compare e cs) = eval e >>= λ a. eval_chain e a cs
      eval (list_literal es) = eval_items es >>= λ vs. ok (list vs)
      eval (tuple_literal es) = eval_items es >>= λ vs. ok (tuple vs)
      eval (name n) = lookup_binding bindings (some n)
      eval (attribute e a) = lookup_binding bindings (dotted (attribute e a))
      eval (subscript e key) = eval e >>= subscript_value e key
      eval (other_node kind) = err not_evaluable

      -- `all(bool(_eval(value)) for value in values)`, which stops at the first falsy one.
      pub eval_all : Exprs → Evaluated
      eval_all no_exprs = ok (boolean true)
      eval_all (expr e es) =
          eval e >>= λ v. let rest = eval_all es in if truth v then rest else ok (boolean false)

      pub eval_any : Exprs → Evaluated
      eval_any no_exprs = ok (boolean false)
      eval_any (expr e es) =
          eval e >>= λ v. let rest = eval_any es in if truth v then ok (boolean true) else rest

      -- A chain stops at the first comparison that does not hold.
      pub eval_chain : Expr → Value → Comparisons → Evaluated
      eval_chain l a no_comparisons = ok (boolean true)
      eval_chain l a (comparison op r cs) = eval r >>= λ b.
          lift (compare_holds op l r a b)
            (λ h. let rest = eval_chain r b cs in if h then rest else ok (boolean false))

      pub eval_items : Exprs → Result Fault Items
      eval_items no_exprs = ok no_items
      eval_items (expr e es) = eval e >>= λ v. eval_items es >>= λ vs. ok (item v vs)

-- The exceptions of the `except` clause become PredicateEvaluationError; any other passes through.
abbrev pub is_caught : Raised → Bool
is_caught type_error = true
is_caught zero_division = true
is_caught value_error = true
is_caught index_error = true
is_caught _ = false

abbrev pub wrap : Fault → Fault
wrap (operator_raised x) = if is_caught x then failed_to_evaluate x else operator_raised x
wrap f = f

abbrev pub wrapped : Evaluated → Evaluated
wrapped (ok v) = ok v
wrapped (err f) = err (wrap f)

unfoldable pub evaluate : Runtime → Predicate → Dict Value → Evaluated
evaluate python p bindings = wrapped (eval python bindings p.expression)
