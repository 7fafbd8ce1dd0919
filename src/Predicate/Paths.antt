-- ===== src/Predicate/Paths.antt =====
-- src/wcd/envelope.py: `_dotted` and `_referenced_paths`, the dotted references of a predicate.
use Prim.Native.String
use windows_console_driver.Prelude.{String, Option, none, some, List, [], ◌∷◌, ◌++◌}
use windows_console_driver.Predicate.{
  str_constant, Expr, constant, name, attribute, subscript, bool_op, unary_op, bin_op, compare,
  list_literal, tuple_literal, other_node, Exprs, no_exprs, expr, Comparisons, no_comparisons,
  comparison,
}

abbrev pub join : String → String → String
join a b = String.◌++◌ a (String.◌++◌ "." b)

-- `none` is the PredicateResolutionError "not a dotted reference".
unfoldable pub dotted : Expr → Option String
dotted (name n) = some n
dotted (attribute e a) = elim (dotted e) [ none ↦ none | some d ↦ some (join d a) ]
dotted _ = none

abbrev pub one : Option String → List String
one none = []
one (some p) = p ∷ []

-- The literal text of a subscript; a validated predicate has no other.
abbrev pub key_of : Expr → Option String
key_of (constant (str_constant k)) = some k
key_of _ = none

abbrev pub joined : Option String → Option String → List String
joined (some base) (some key) = join base key ∷ []
joined _ _ = []

unfoldable mutual
  pub referenced_paths : Expr → List String
  referenced_paths (attribute e a) = one (dotted (attribute e a))
  referenced_paths (name n) = n ∷ []
  referenced_paths (subscript (name n) key) = joined (some n) (key_of key)
  referenced_paths (subscript (attribute e a) key) = joined (dotted (attribute e a)) (key_of key)
  referenced_paths (subscript e key) = referenced_paths e
  referenced_paths (constant c) = []
  referenced_paths (unary_op op e) = referenced_paths e
  referenced_paths (bin_op l op r) = referenced_paths l ++ referenced_paths r
  referenced_paths (compare e cs) = referenced_paths e ++ comparison_paths cs
  referenced_paths (bool_op op es) = all_paths es
  referenced_paths (list_literal es) = all_paths es
  referenced_paths (tuple_literal es) = all_paths es
  referenced_paths (other_node kind) = []

  pub all_paths : Exprs → List String
  all_paths no_exprs = []
  all_paths (expr e es) = referenced_paths e ++ all_paths es

  pub comparison_paths : Comparisons → List String
  comparison_paths no_comparisons = []
  comparison_paths (comparison op e cs) = referenced_paths e ++ comparison_paths cs
