-- ===== src/Predicate.antt =====
-- src/wcd/envelope.py: the predicate language. A predicate is the tree that `ast.parse` makes of its text;
-- the parser itself, part of Python, is a parameter of `compile_predicate`. A node that the module never
-- names is `other_node` with its type's name. Float constants are left out.
pub mod Paths
pub mod Eval
pub mod Subset
pub mod Compile
pub mod Safety
mod Tests
use Prim.Native.String
use windows_console_driver.Prelude.{
  ℕ, suc, ◌+◌, String, Bool, true, false, Option, none, some, ◌==◌, string_eq, ltb, if◌then◌else◌,
}
use windows_console_driver.Prelude.Int.{ℤ}
use windows_console_driver.Prelude.Results.{Result, ok, err, ◌>>=◌}

abbrev pub max_predicate_length : ℕ
max_predicate_length = 1024

abbrev pub max_ast_nodes : ℕ
max_ast_nodes = 128

abbrev pub max_list_items : ℕ
max_list_items = 32

abbrev pub max_depth : ℕ
max_depth = 16

-- A constant of a type outside the subset (bytes, complex, Ellipsis) keeps its type's name.
pub data Constant : Type 0 where
  none_constant : Constant
  bool_constant : Bool → Constant
  int_constant : ℤ → Constant
  str_constant : String → Constant
  foreign_constant : String → Constant

pub data BoolOp : Type 0 where
  and_op or_op : BoolOp

pub data UnaryOp : Type 0 where
  not_op usub_op uadd_op invert_op : UnaryOp

-- `_ALLOWED_BIN_OPS`, and the others under one name.
pub data BinOp : Type 0 where
  add_op sub_op mult_op floor_div_op mod_op other_op : BinOp

pub data CompareOp : Type 0 where
  eq_op not_eq_op lt_op lte_op gt_op gte_op in_op not_in_op is_op is_not_op : CompareOp

mutual
  pub data Expr : Type 0 where
    constant : Constant → Expr
    name : String → Expr
    attribute : Expr → String → Expr
    subscript : Expr → Expr → Expr
    bool_op : BoolOp → Exprs → Expr
    unary_op : UnaryOp → Expr → Expr
    bin_op : Expr → BinOp → Expr → Expr
    compare : Expr → Comparisons → Expr
    list_literal : Exprs → Expr
    tuple_literal : Exprs → Expr
    other_node : String → Expr

  pub data Exprs : Type 0 where
    no_exprs : Exprs
    expr : Expr → Exprs → Exprs

  pub data Comparisons : Type 0 where
    no_comparisons : Comparisons
    comparison : CompareOp → Expr → Comparisons → Comparisons

-- The refusals of `_validate`.
pub data Refusal : Type 0 where
  nesting_bound constant_type attribute_base subscript_base subscript_key : Refusal
  unary_operator binary_operator list_bound node_kind : Refusal

abbrev pub exprs_length : Exprs → ℕ
exprs_length no_exprs = 0
exprs_length (expr e es) = suc (exprs_length es)

abbrev pub is_dotted : Expr → Bool
is_dotted (name n) = true
is_dotted (attribute e a) = true
is_dotted _ = false

abbrev pub is_reference : Expr → Bool
is_reference (name n) = true
is_reference (attribute e a) = true
is_reference (subscript e k) = true
is_reference _ = false

abbrev pub is_str_constant : Expr → Bool
is_str_constant (constant (str_constant s)) = true
is_str_constant _ = false

abbrev pub is_foreign : Constant → Bool
is_foreign (foreign_constant t) = true
is_foreign _ = false

abbrev pub unary_allowed : UnaryOp → Bool
unary_allowed invert_op = false
unary_allowed _ = true

abbrev pub binary_allowed : BinOp → Bool
binary_allowed other_op = false
binary_allowed _ = true

-- The test of the depth, which comes first at every node.
abbrev pub within_depth : ℕ → Result Refusal ℕ → Result Refusal ℕ
within_depth depth rest = if ltb max_depth depth then err nesting_bound else rest

abbrev pub require : Bool → Refusal → Result Refusal ℕ → Result Refusal ℕ
require test refusal rest = if test then rest else err refusal

abbrev pub plus : ℕ → Result Refusal ℕ → Result Refusal ℕ
plus k (ok n) = ok (k + n)
plus k (err x) = err x

abbrev pub sum_of : Result Refusal ℕ → Result Refusal ℕ → Result Refusal ℕ
sum_of (ok m) r = plus m r
sum_of (err x) r = err x

unfoldable mutual
  pub validate : Expr → ℕ → Result Refusal ℕ
  validate (constant c) depth =
      within_depth depth (if is_foreign c then err constant_type else ok 1)
  validate (name n) depth = within_depth depth (ok 1)
  validate (attribute e a) depth =
      within_depth depth (require (is_dotted e) attribute_base (plus 1 (validate e (depth + 1))))
  validate (subscript e key) depth = within_depth depth (
      require (is_reference e) subscript_base
        (require (is_str_constant key) subscript_key (plus 2 (validate e (depth + 1)))))
  validate (bool_op op es) depth = within_depth depth (plus 1 (validate_all es (depth + 1)))
  validate (unary_op op e) depth =
      within_depth depth
        (require (unary_allowed op) unary_operator (plus 1 (validate e (depth + 1))))
  validate (bin_op l op r) depth = within_depth depth (
      require (binary_allowed op) binary_operator
        (plus 1 (sum_of (validate l (depth + 1)) (validate r (depth + 1)))))
  validate (compare e cs) depth =
      within_depth depth
        (plus 1 (sum_of (validate e (depth + 1)) (validate_comparisons cs (depth + 1))))
  validate (list_literal es) depth = within_depth depth (
      if ltb max_list_items (exprs_length es)
      then err list_bound
      else plus 1 (validate_all es (depth + 1)))
  validate (tuple_literal es) depth = within_depth depth (
      if ltb max_list_items (exprs_length es)
      then err list_bound
      else plus 1 (validate_all es (depth + 1)))
  validate (other_node kind) depth = within_depth depth (err node_kind)

  pub validate_all : Exprs → ℕ → Result Refusal ℕ
  validate_all no_exprs depth = ok 0
  validate_all (expr e es) depth = sum_of (validate e depth) (validate_all es depth)

  pub validate_comparisons : Comparisons → ℕ → Result Refusal ℕ
  validate_comparisons no_comparisons depth = ok 0
  validate_comparisons (comparison op e cs) depth =
      sum_of (validate e depth) (validate_comparisons cs depth)

pub record Predicate : Type 0 where
  pub source : String
  pub expression : Expr

pub data SyntaxFault : Type 0 where
  empty_source too_long does_not_parse too_many_nodes : SyntaxFault
  refused : Refusal → SyntaxFault

-- `parse` is `ast.parse(source, mode="eval")`, `none` where it raises; `is_blank` is `not source.strip()`.
module _ (parse : String → Option Expr) (is_blank : String → Bool) where
  unfoldable pub checked : String → Expr → Result Refusal ℕ → Result SyntaxFault Predicate
  checked source e (err x) = err (refused x)
  checked source e (ok nodes) =
      if ltb max_ast_nodes nodes
      then err too_many_nodes
      else ok (record { source = source; expression = e })

  unfoldable pub parsed : String → Option Expr → Result SyntaxFault Predicate
  parsed source none = err does_not_parse
  parsed source (some e) = checked source e (validate e 0)

  unfoldable pub compile_predicate : String → Result SyntaxFault Predicate
  compile_predicate source =
      if is_blank source
      then err empty_source
      else if ltb max_predicate_length (String.count source)
      then err too_long
      else parsed source (parse source)
