-- ===== src/Predicate/Safety.antt =====
-- What the evaluator can raise on a tree that the validator accepts.
use Prim.Native.String
use mathlib.Core.Path.{subst}
use windows_console_driver.Prelude.{
  ℕ, ◌≡◌, refl, sym, ap, ◌∙◌, inl, inr, Bool-cases, Bool, true, false, Option, none, some, String,
  arith, if-elim,
}
use windows_console_driver.Prelude.Results.{Result, ok, err, ◌>>=◌}
use windows_console_driver.Prelude.Dict.{Dict, lookup}
use windows_console_driver.Value.{
  Value, null, boolean, int, str, list, tuple, dict, truth, find_field,
}
use windows_console_driver.Value.Compare.{Raised}
use windows_console_driver.Predicate.{
  Predicate, validate, Constant, none_constant, bool_constant, int_constant, str_constant,
  foreign_constant, is_dotted, is_str_constant, is_foreign, UnaryOp, not_op, usub_op, uadd_op,
  invert_op, BinOp, add_op, sub_op, mult_op, floor_div_op, mod_op, other_op, and_op, or_op, Expr,
  constant, name, attribute, subscript, bool_op, unary_op, bin_op, compare, list_literal,
  tuple_literal, other_node, Exprs, no_exprs, expr, Comparisons, no_comparisons, comparison,
}
use windows_console_driver.Predicate.Paths.{dotted}
use windows_console_driver.Predicate.Subset.{
  validate_exact, in_subset, all_in_subset, comparisons_in_subset,
}
use windows_console_driver.Predicate.Eval.{
  Runtime, wrap, wrapped, is_caught, evaluate, not_a_mapping, failed_to_evaluate, Fault, unresolved,
  key_absent, not_dotted, not_evaluable, assertion_failed, operator_raised, Evaluated, lift,
  lift_value, constant_value, lookup_binding, apply_unary, apply_binary, subscript_value,
  compare_holds, eval, eval_all, eval_any, eval_chain, eval_items,
}

-- The faults that a validated tree should not reach: a broken chain of attributes, a node that is not
-- evaluable, and a failed assertion.
abbrev pub is_internal : Fault → Bool
is_internal not_dotted = true
is_internal not_evaluable = true
is_internal assertion_failed = true
is_internal _ = false

abbrev pub Safe : {A : Type 0} → Result Fault A → Type 0
Safe (ok a) = Unit
Safe (err f) = is_internal f ≡ false

bind-Safe :
    {A B : Type 0} (m : Result Fault A) (f : A → Result Fault B)
    → Safe m
    → ((a : A) → Safe (f a))
    → Safe (m >>= f)
bind-Safe (ok a) f h k = k a
bind-Safe (err x) f h k = h

lift-Safe :
    {A : Type 0} (m : Result Raised A) (f : A → Evaluated)
    → ((a : A) → Safe (f a))
    → Safe (lift m f)
lift-Safe (ok a) f k = k a
lift-Safe (err x) f k = refl

lift_value-Safe : (m : Result Raised Value) → Safe (lift_value m)
lift_value-Safe (ok v) = tt
lift_value-Safe (err x) = refl

dotted-some :
    (e : Expr) → in_subset e ≡ true → is_dotted e ≡ true → (d : String) × (dotted e ≡ some d)
unfolding in_subset dotted
dotted-some (name n) h k = (n, refl)
dotted-some (attribute e a) h k =
    let (d, p) = dotted-some e (ground (arith, h)) (ground (arith, h)) in
    (String.◌++◌ d (String.◌++◌ "." a), rw p refl)
dotted-some (constant c) h k = cc k
dotted-some (subscript e key) h k = cc k
dotted-some (bool_op op es) h k = cc k
dotted-some (unary_op op e) h k = cc k
dotted-some (bin_op l op r) h k = cc k
dotted-some (compare e cs) h k = cc k
dotted-some (list_literal es) h k = cc k
dotted-some (tuple_literal es) h k = cc k
dotted-some (other_node kind) h k = cc k

constant_value-Safe : (c : Constant) → is_foreign c ≡ false → Safe (constant_value c)
unfolding constant_value
constant_value-Safe none_constant h = tt
constant_value-Safe (bool_constant b) h = tt
constant_value-Safe (int_constant n) h = tt
constant_value-Safe (str_constant s) h = tt
constant_value-Safe (foreign_constant t) h = cc h

lookup_binding-Safe :
    (bindings : Dict Value) (key : String) → Safe (lookup_binding bindings (some key))
unfolding lookup_binding
lookup_binding-Safe bindings key = by_entry (lookup key bindings)
  where
    by_entry :
        (o : Option Value)
        → Safe (elim o as (λ _. Evaluated) [ none ↦ err (unresolved key) | some v ↦ ok v ])
    by_entry none = refl
    by_entry (some v) = tt

module _ (python : Runtime) where
  apply_unary-Safe : (op : UnaryOp) (v : Value) → Safe (apply_unary python op v)
  unfolding apply_unary
  apply_unary-Safe not_op v = tt
  apply_unary-Safe usub_op v = lift_value-Safe _
  apply_unary-Safe uadd_op v = lift_value-Safe _
  apply_unary-Safe invert_op v = lift_value-Safe _

  apply_binary-Safe : (op : BinOp) (a b : Value) → Safe (apply_binary python op a b)
  unfolding apply_binary
  apply_binary-Safe add_op a b = lift_value-Safe _
  apply_binary-Safe sub_op a b = lift_value-Safe _
  apply_binary-Safe mult_op a b = lift_value-Safe _
  apply_binary-Safe floor_div_op a b = lift_value-Safe _
  apply_binary-Safe mod_op a b = lift_value-Safe _
  apply_binary-Safe other_op a b = lift_value-Safe _

  subscript_value-Safe :
      (e key : Expr) (v : Value)
      → is_str_constant key ≡ true
      → Safe (subscript_value python e key v)
  unfolding subscript_value
  subscript_value-Safe e (constant (str_constant key)) (dict fs) h = by_entry (find_field key fs)
    where
      by_entry :
          (o : Option Value)
          → Safe (elim o as (λ _. Evaluated) [ none ↦ err (key_absent key e) | some v ↦ ok v ])
      by_entry none = refl
      by_entry (some v) = tt
  subscript_value-Safe e (constant (str_constant key)) null h = refl
  subscript_value-Safe e (constant (str_constant key)) (boolean b) h = refl
  subscript_value-Safe e (constant (str_constant key)) (int n) h = refl
  subscript_value-Safe e (constant (str_constant key)) (str s) h = refl
  subscript_value-Safe e (constant (str_constant key)) (list vs) h = refl
  subscript_value-Safe e (constant (str_constant key)) (tuple vs) h = refl
  subscript_value-Safe e key v h = cc h

  module _ (bindings : Dict Value) where
    mutual
      unfolding eval in_subset

      pub eval-Safe : (e : Expr) → in_subset e ≡ true → Safe (eval python bindings e)
      eval-Safe (constant c) h = constant_value-Safe c (ground arith)
      eval-Safe (name n) h = lookup_binding-Safe bindings n
      eval-Safe (attribute e a) h =
          let (d, p) = dotted-some (attribute e a) h refl in rw p (lookup_binding-Safe bindings d)
      eval-Safe (subscript e key) h =
          bind-Safe (eval python bindings e) _ (eval-Safe e (ground (arith, h)))
            (λ v. subscript_value-Safe e key v (ground (arith, h)))
      eval-Safe (bool_op and_op es) h = eval_all-Safe es h
      eval-Safe (bool_op or_op es) h = eval_any-Safe es h
      eval-Safe (unary_op op e) h =
          bind-Safe (eval python bindings e) _ (eval-Safe e (ground (arith, h)))
            (λ v. apply_unary-Safe op v)
      eval-Safe (bin_op l op r) h =
          bind-Safe (eval python bindings l) _ (eval-Safe l (ground (arith, h))) (λ a.
            bind-Safe (eval python bindings r) _ (eval-Safe r (ground (arith, h)))
              (λ b. apply_binary-Safe op a b))
      eval-Safe (compare e cs) h =
          bind-Safe (eval python bindings e) _ (eval-Safe e (ground (arith, h)))
            (λ a. eval_chain-Safe e a cs (ground (arith, h)))
      eval-Safe (list_literal es) h =
          bind-Safe (eval_items python bindings es) _ (eval_items-Safe es (ground (arith, h)))
            (λ vs. tt)
      eval-Safe (tuple_literal es) h =
          bind-Safe (eval_items python bindings es) _ (eval_items-Safe es (ground (arith, h)))
            (λ vs. tt)
      eval-Safe (other_node kind) h = cc h

      eval_all-Safe : (es : Exprs) → all_in_subset es ≡ true → Safe (eval_all python bindings es)
      eval_all-Safe no_exprs h = tt
      eval_all-Safe (expr e es) h =
          bind-Safe (eval python bindings e) _ (eval-Safe e (ground (arith, h)))
            (λ v. if-elim Safe (truth v) (λ t. eval_all-Safe es (ground (arith, h))) (λ t. tt))

      eval_any-Safe : (es : Exprs) → all_in_subset es ≡ true → Safe (eval_any python bindings es)
      eval_any-Safe no_exprs h = tt
      eval_any-Safe (expr e es) h =
          bind-Safe (eval python bindings e) _ (eval-Safe e (ground (arith, h)))
            (λ v. if-elim Safe (truth v) (λ t. tt) (λ t. eval_any-Safe es (ground (arith, h))))

      eval_chain-Safe :
          (l : Expr) (a : Value) (cs : Comparisons)
          → comparisons_in_subset cs ≡ true
          → Safe (eval_chain python bindings l a cs)
      eval_chain-Safe l a no_comparisons h = tt
      eval_chain-Safe l a (comparison op r cs) h =
          bind-Safe (eval python bindings r) _ (eval-Safe r (ground (arith, h))) (λ b.
            lift-Safe (compare_holds python op l r a b) _
              (λ t. if-elim Safe t (λ q. eval_chain-Safe r b cs (ground (arith, h))) (λ q. tt)))

      eval_items-Safe :
          (es : Exprs) → all_in_subset es ≡ true → Safe (eval_items python bindings es)
      eval_items-Safe no_exprs h = tt
      eval_items-Safe (expr e es) h =
          bind-Safe (eval python bindings e) _ (eval-Safe e (ground (arith, h))) (λ v.
            bind-Safe (eval_items python bindings es) _ (eval_items-Safe es (ground (arith, h)))
              (λ vs. tt))

wrap-not_internal :
    (f : Fault)
    → (is_internal (wrap f) ≡ is_internal f)
      × ((x : Raised) → wrap f ≡ operator_raised x → is_caught x ≡ false)
wrap-not_internal (operator_raised x) = elim (Bool-cases (is_caught x)) [
  | inl h ↦ rw h (refl, λ y p. cc p)
  | inr h ↦ rw h (refl, λ y p. let same : x ≡ y = cc p in subst (λ z. is_caught z ≡ false) same h)
]
wrap-not_internal (unresolved k) = (refl, λ x p. cc p)
wrap-not_internal (key_absent k e) = (refl, λ x p. cc p)
wrap-not_internal not_dotted = (refl, λ x p. cc p)
wrap-not_internal (not_a_mapping e) = (refl, λ x p. cc p)
wrap-not_internal not_evaluable = (refl, λ x p. cc p)
wrap-not_internal (failed_to_evaluate x) = (refl, λ y p. cc p)
wrap-not_internal assertion_failed = (refl, λ x p. cc p)

-- What `evaluate` raises is never an operator's exception of the kinds that it catches.
pub evaluate-uncaught :
    (python : Runtime) (p : Predicate) (bindings : Dict Value) (x : Raised)
    → evaluate python p bindings ≡ err (operator_raised x)
    → is_caught x ≡ false
unfolding evaluate
evaluate-uncaught python p bindings x = by_value (eval python bindings p.expression)
  where
    by_value : (m : Evaluated) → wrapped m ≡ err (operator_raised x) → is_caught x ≡ false
    by_value (ok v) h = cc h
    by_value (err f) h = (wrap-not_internal f).1 x (cc h)

-- A predicate that the validator accepts, whatever it is evaluated on, has no broken reference chain, no
-- node without an evaluation and no failed assertion; and no exception of the kinds that `evaluate` catches
-- leaves it.
pub evaluate_safe :
    (python : Runtime) (p : Predicate) (bindings : Dict Value) (n : ℕ) (f : Fault)
    → validate p.expression 0 ≡ ok n
    → evaluate python p bindings ≡ err f
    → (is_internal f ≡ false) × ((x : Raised) → f ≡ operator_raised x → is_caught x ≡ false)
unfolding evaluate
evaluate_safe python p bindings n f accepted =
    let safe =
      eval-Safe python bindings p.expression ((validate_exact p.expression n).0 accepted).0 in
    by_value (eval python bindings p.expression) safe
  where
    by_value :
        (m : Evaluated)
        → Safe m
        → wrapped m ≡ err f
        → (is_internal f ≡ false) × ((x : Raised) → f ≡ operator_raised x → is_caught x ≡ false)
    by_value (ok v) safe h = cc h
    by_value (err g) safe h =
        let same : wrap g ≡ f = cc h in
        let (kept, caught) = wrap-not_internal g in
        (sym (ap is_internal same) ∙ (kept ∙ safe), λ x e. caught x (same ∙ e))
