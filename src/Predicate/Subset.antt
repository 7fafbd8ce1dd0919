-- ===== src/Predicate/Subset.antt =====
-- src/wcd/envelope.py: `_validate` against an independent description of the bounded subset.
use Prim.Native.Nat.{max}
use mathlib.Core.Path.{subst}
use windows_console_driver.Prelude.{
  ℕ, suc, ◌+◌, ◌≤◌, ◌<◌, ◌≡◌, ◌↔◌, ◌⊎◌, refl, inl, inr, Bool, true, false, not, ◌&&◌, leb, ltb,
  Bool-cases, if◌then◌else◌, arith,
}
use windows_console_driver.Prelude.Results.{Result, ok, err}
use windows_console_driver.Predicate.{
  max_depth, max_list_items, Expr, constant, name, attribute, subscript, bool_op, unary_op, bin_op,
  compare, list_literal, tuple_literal, other_node, Exprs, no_exprs, expr, Comparisons,
  no_comparisons, comparison, Refusal, exprs_length, is_dotted, is_reference, is_str_constant,
  is_foreign, unary_allowed, binary_allowed, validate, validate_all, within_depth, require, plus,
  sum_of, attribute_base, subscript_base, subscript_key, unary_operator, binary_operator,
  list_bound, node_kind, validate_comparisons,
}

-- The nodes of the subset: no depth, no count.
unfoldable mutual
  pub in_subset : Expr → Bool
  in_subset (constant c) = not (is_foreign c)
  in_subset (name n) = true
  in_subset (attribute e a) = is_dotted e && in_subset e
  in_subset (subscript e key) = is_reference e && (is_str_constant key && in_subset e)
  in_subset (bool_op op es) = all_in_subset es
  in_subset (unary_op op e) = unary_allowed op && in_subset e
  in_subset (bin_op l op r) = binary_allowed op && (in_subset l && in_subset r)
  in_subset (compare e cs) = in_subset e && comparisons_in_subset cs
  in_subset (list_literal es) = leb (exprs_length es) max_list_items && all_in_subset es
  in_subset (tuple_literal es) = leb (exprs_length es) max_list_items && all_in_subset es
  in_subset (other_node kind) = false

  pub all_in_subset : Exprs → Bool
  all_in_subset no_exprs = true
  all_in_subset (expr e es) = in_subset e && all_in_subset es

  pub comparisons_in_subset : Comparisons → Bool
  comparisons_in_subset no_comparisons = true
  comparisons_in_subset (comparison op e cs) = in_subset e && comparisons_in_subset cs

-- The greatest distance from the node to one below it.
unfoldable mutual
  pub height : Expr → ℕ
  height (attribute e a) = suc (height e)
  height (subscript e key) = suc (height e)
  height (bool_op op es) = height_all es
  height (unary_op op e) = suc (height e)
  height (bin_op l op r) = suc (max (height l) (height r))
  height (compare e cs) = max (suc (height e)) (height_comparisons cs)
  height (list_literal es) = height_all es
  height (tuple_literal es) = height_all es
  height _ = 0

  pub height_all : Exprs → ℕ
  height_all no_exprs = 0
  height_all (expr e es) = max (suc (height e)) (height_all es)

  pub height_comparisons : Comparisons → ℕ
  height_comparisons no_comparisons = 0
  height_comparisons (comparison op e cs) = max (suc (height e)) (height_comparisons cs)

-- How many nodes the tree has; the key of a subscript is one.
unfoldable mutual
  pub nodes : Expr → ℕ
  nodes (attribute e a) = 1 + nodes e
  nodes (subscript e key) = 2 + nodes e
  nodes (bool_op op es) = 1 + nodes_all es
  nodes (unary_op op e) = 1 + nodes e
  nodes (bin_op l op r) = 1 + (nodes l + nodes r)
  nodes (compare e cs) = 1 + (nodes e + nodes_comparisons cs)
  nodes (list_literal es) = 1 + nodes_all es
  nodes (tuple_literal es) = 1 + nodes_all es
  nodes _ = 1

  pub nodes_all : Exprs → ℕ
  nodes_all no_exprs = 0
  nodes_all (expr e es) = nodes e + nodes_all es

  pub nodes_comparisons : Comparisons → ℕ
  nodes_comparisons no_comparisons = 0
  nodes_comparisons (comparison op e cs) = nodes e + nodes_comparisons cs

abbrev is_ok : Result Refusal ℕ → Bool
is_ok (ok n) = true
is_ok (err x) = false

-- Accepted with a count, for a tree in the subset and within a depth; or refused, for any other.
abbrev pub Judges : Result Refusal ℕ → Bool → ℕ → ℕ → Type 0
Judges r good deepest count =
    ((r ≡ ok count) × (good ≡ true) × (deepest ≤ max_depth))
    ⊎ ((is_ok r ≡ false) × ((good ≡ false) ⊎ (max_depth < deepest)))

judge-require :
    (b : Bool) (x : Refusal) (r : Result Refusal ℕ) (g : Bool) (m k : ℕ)
    → Judges r g m k
    → Judges (require b x r) (b && g) m k
judge-require true x r g m k h = h
judge-require false x r g m k h = inr (refl, inl refl)

judge-plus :
    (c : ℕ) (r : Result Refusal ℕ) (g : Bool) (m k : ℕ)
    → Judges r g m k
    → Judges (plus c r) g m (c + k)
judge-plus c (ok n) g m k h = ground arith
judge-plus c (err x) g m k h = ground arith

judge-sum :
    (r s : Result Refusal ℕ) (g g' : Bool) (m m' k k' : ℕ)
    → Judges r g m k
    → Judges s g' m' k'
    → Judges (sum_of r s) (g && g') (max m m') (k + k')
judge-sum (ok n) (ok n') g g' m m' k k' h h' = ground arith
judge-sum (ok n) (err x) g g' m m' k k' h h' = ground arith
judge-sum (err x) s g g' m m' k k' h h' = ground arith

-- A subtree that starts too deep is not looked at.
judge-within :
    (d : ℕ) (r : Result Refusal ℕ) (g : Bool) (m k : ℕ)
    → d ≤ m
    → (d ≤ max_depth → Judges r g m k)
    → Judges (within_depth d r) g m k
judge-within d r g m k low h = elim (Bool-cases (ltb max_depth d)) [
  | inl deep ↦ rw deep (inr (refl, inr (ground arith)))
  | inr fine ↦ rw fine (h (ground arith))
]

pub regrade :
    (r : Result Refusal ℕ) (g : Bool) (m m' k : ℕ) → m ≡ m' → Judges r g m k → Judges r g m' k
regrade r g m m' k p h = subst (λ x. Judges r g x k) p h

judge-limit :
    (long : Bool) (r : Result Refusal ℕ) (g : Bool) (m k : ℕ)
    → Judges r g m k
    → Judges (if long then err list_bound else r) (not long && g) m k
judge-limit true r g m k h = inr (refl, inl refl)
judge-limit false r g m k h = h

not-ltb : (a b : ℕ) → leb b a ≡ not (ltb a b)
not-ltb a b = ground arith

next : (d m : ℕ) → d + 1 + m ≡ d + suc m
next d m = omega arith

mutual
  unfolding validate in_subset height nodes

  pub validate-Judges :
      (e : Expr) (d : ℕ) → Judges (validate e d) (in_subset e) (d + height e) (nodes e)
  validate-Judges (constant c) d =
      judge-within d _ (not (is_foreign c)) (d + 0) 1 (omega arith) (λ h. ground arith)
  validate-Judges (name n) d =
      judge-within d (ok 1) true (d + 0) 1 (omega arith) (λ h. ground arith)
  validate-Judges (attribute e a) d = judge-within d _ _ (d + suc (height e)) _ (omega arith) (λ h.
      judge-require (is_dotted e) attribute_base _ (in_subset e) _ _ (
        judge-plus 1 (validate e (d + 1)) (in_subset e) _ _
          (regrade _ (in_subset e) _ _ _ (next d (height e)) (validate-Judges e (d + 1)))))
  validate-Judges (subscript e key) d =
      judge-within d _ _ (d + suc (height e)) _ (omega arith) (λ h.
        judge-require (is_reference e) subscript_base _ (is_str_constant key && in_subset e) _ _ (
          judge-require (is_str_constant key) subscript_key _ (in_subset e) _ _ (
            judge-plus 2 (validate e (d + 1)) (in_subset e) _ _
              (regrade _ (in_subset e) _ _ _ (next d (height e)) (validate-Judges e (d + 1))))))
  validate-Judges (bool_op op es) d =
      judge-within d _ (all_in_subset es) (d + height_all es) _ (omega arith)
        (λ h. judge-plus 1 (validate_all es (d + 1)) (all_in_subset es) _ _ (all-Judges es d h))
  validate-Judges (unary_op op e) d = judge-within d _ _ (d + suc (height e)) _ (omega arith) (λ h.
      judge-require (unary_allowed op) unary_operator _ (in_subset e) _ _ (
        judge-plus 1 (validate e (d + 1)) (in_subset e) _ _
          (regrade _ (in_subset e) _ _ _ (next d (height e)) (validate-Judges e (d + 1)))))
  validate-Judges (bin_op l op r) d =
      judge-within d _ _ (d + suc (max (height l) (height r))) _ (omega arith) (λ h.
        judge-require (binary_allowed op) binary_operator _ (in_subset l && in_subset r) _ _ (
          judge-plus 1 _ (in_subset l && in_subset r) _ _ (
            regrade _ (in_subset l && in_subset r) (max (d + suc (height l)) (d + suc (height r))) _
              (nodes l + nodes r) (omega arith)
              (judge-sum (validate l (d + 1)) (validate r (d + 1)) (in_subset l) (in_subset r) _ _ _
                _ (regrade _ (in_subset l) _ _ _ (next d (height l)) (validate-Judges l (d + 1)))
                (regrade _ (in_subset r) _ _ _ (next d (height r)) (validate-Judges r (d + 1)))))))
  validate-Judges (compare e cs) d =
      judge-within d _ _ (d + max (suc (height e)) (height_comparisons cs)) _ (omega arith) (λ h.
        judge-plus 1 _ (in_subset e && comparisons_in_subset cs) _ _ (
          regrade _ (in_subset e && comparisons_in_subset cs)
            (max (d + suc (height e)) (d + height_comparisons cs)) _
            (nodes e + nodes_comparisons cs) (omega arith)
            (judge-sum (validate e (d + 1)) (validate_comparisons cs (d + 1)) (in_subset e)
              (comparisons_in_subset cs) _ _ _ _
              (regrade _ (in_subset e) _ _ _ (next d (height e)) (validate-Judges e (d + 1)))
              (comparisons-Judges cs d h))))
  validate-Judges (list_literal es) d = judge-within d _ _ (d + height_all es) _ (omega arith) (λ h.
      rw (not-ltb max_list_items (exprs_length es)) (
        judge-limit (ltb max_list_items (exprs_length es)) _ (all_in_subset es) _ _
          (judge-plus 1 (validate_all es (d + 1)) (all_in_subset es) _ _ (all-Judges es d h))))
  validate-Judges (tuple_literal es) d =
      judge-within d _ _ (d + height_all es) _ (omega arith) (λ h.
        rw (not-ltb max_list_items (exprs_length es)) (
          judge-limit (ltb max_list_items (exprs_length es)) _ (all_in_subset es) _ _
            (judge-plus 1 (validate_all es (d + 1)) (all_in_subset es) _ _ (all-Judges es d h))))
  validate-Judges (other_node kind) d =
      judge-within d (err node_kind) false (d + 0) 1 (omega arith) (λ h. ground arith)

  all-Judges :
      (es : Exprs) (d : ℕ)
      → d ≤ max_depth
      → Judges (validate_all es (d + 1)) (all_in_subset es) (d + height_all es) (nodes_all es)
  all-Judges no_exprs d h = ground arith
  all-Judges (expr e es) d h =
      regrade _ (in_subset e && all_in_subset es) (max (d + suc (height e)) (d + height_all es)) _ _
        (omega arith)
        (judge-sum (validate e (d + 1)) (validate_all es (d + 1)) (in_subset e) (all_in_subset es) _
          _ _ _ (regrade _ (in_subset e) _ _ _ (next d (height e)) (validate-Judges e (d + 1)))
          (all-Judges es d h))

  comparisons-Judges :
      (cs : Comparisons) (d : ℕ)
      → d ≤ max_depth
      → Judges
          (validate_comparisons cs (d + 1))
          (comparisons_in_subset cs)
          (d + height_comparisons cs)
          (nodes_comparisons cs)
  comparisons-Judges no_comparisons d h = ground arith
  comparisons-Judges (comparison op e cs) d h =
      regrade _ (in_subset e && comparisons_in_subset cs)
        (max (d + suc (height e)) (d + height_comparisons cs)) _ _ (omega arith)
        (judge-sum (validate e (d + 1)) (validate_comparisons cs (d + 1)) (in_subset e)
          (comparisons_in_subset cs) _ _ _ _
          (regrade _ (in_subset e) _ _ _ (next d (height e)) (validate-Judges e (d + 1)))
          (comparisons-Judges cs d h))

Judges-exact :
    (r : Result Refusal ℕ) (g : Bool) (m k n : ℕ)
    → Judges r g m k
    → (r ≡ ok n) ↔ ((g ≡ true) × (m ≤ max_depth) × (n ≡ k))
Judges-exact r g m k n h = (λ p. ground arith, λ p. ground arith)

-- The validator accepts a tree, from the top, exactly when every node is in the subset and none lies
-- more than 16 below the top; the number that it returns is the number of nodes.
pub validate_exact :
    (e : Expr) (n : ℕ)
    → (validate e 0 ≡ ok n) ↔ ((in_subset e ≡ true) × (height e ≤ max_depth) × (n ≡ nodes e))
validate_exact e n = Judges-exact (validate e 0) (in_subset e) (height e) (nodes e) n (
    regrade (validate e 0) (in_subset e) (0 + height e) (height e) (nodes e) (omega arith)
      (validate-Judges e 0))
