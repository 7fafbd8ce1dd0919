-- ===== src/Predicate/Compile.antt =====
-- `compile_predicate` against what it asks of a text and of its tree.
use Prim.Native.String
use mathlib.Core.Path.{subst}
use windows_console_driver.Prelude.{
  ℕ, ◌+◌, ◌≤◌, String, ◌≡◌, ◌↔◌, sym, ap, Bool, true, false, Option, none, some, arith,
}
use windows_console_driver.Prelude.Results.{Result, ok, err}
use windows_console_driver.Predicate.{
  max_depth, max_ast_nodes, max_predicate_length, Expr, Refusal, validate, compile_predicate,
  checked, parsed,
}
use windows_console_driver.Predicate.Subset.{
  in_subset, height, nodes, Judges, regrade, validate-Judges,
}

-- The tree is in the subset and within the bounds.
abbrev Fits : Expr → Type 0
Fits e = (in_subset e ≡ true) × (height e ≤ max_depth) × (nodes e ≤ max_ast_nodes)

-- What `compile_predicate` asks of a text and of the tree that it parses to.
pub record Compiles (parse : String → Option Expr) (is_blank : String → Bool) (source : String)
    (e : Expr) : Type 0 where
  pub not_blank : is_blank source ≡ false
  pub short : String.count source ≤ max_predicate_length
  pub parses : parse source ≡ some e
  pub subset : in_subset e ≡ true
  pub shallow : height e ≤ max_depth
  pub small : nodes e ≤ max_ast_nodes

module _ (parse : String → Option Expr) (is_blank : String → Bool) where
  checked-Judges :
      (source : String) (e f : Expr) (r : Result Refusal ℕ)
      → Judges r (in_subset e) (height e) (nodes e)
      → (checked parse is_blank source e r ≡ ok (record { source = source; expression = f }))
        ↔ ((e ≡ f) × Fits e)
  unfolding checked
  checked-Judges source e f (ok n) h = (λ p. ground arith, λ p. ground arith)
  checked-Judges source e f (err x) h = (λ p. ground arith, λ p. ground arith)

  from_top : (e : Expr) → Judges (validate e 0) (in_subset e) (height e) (nodes e)
  from_top e =
      regrade (validate e 0) (in_subset e) (0 + height e) (height e) (nodes e) (omega arith)
        (validate-Judges e 0)

  parsed-exact :
      (source : String) (e : Expr) (o : Option Expr)
      → (parsed parse is_blank source o ≡ ok (record { source = source; expression = e }))
        ↔ ((o ≡ some e) × Fits e)
  unfolding parsed
  parsed-exact source e none = (λ p. cc, λ p. cc p.0)
  parsed-exact source e (some f) =
      let (there, back) = checked-Judges source f e (validate f 0) (from_top f) in
      (
        λ p. let q = there p in (ap some q.0, subst Fits q.0 q.1),
        λ p. let same : f ≡ e = cc p.0 in back (same, subst Fits (sym same) p.1),
      )

  -- A text compiles exactly when it is not blank, has at most 1024 characters and parses to a tree of the
  -- subset with at most 128 nodes, none more than 16 below the top; the result is that text and tree.
  pub compile_exact :
      (source : String) (e : Expr)
      → (compile_predicate parse is_blank source ≡ ok (record { source = source; expression = e }))
        ↔ Compiles parse is_blank source e
  unfolding compile_predicate
  compile_exact source e = (forward, backward)
    where
      forward :
          compile_predicate parse is_blank source ≡ ok (record { source = source; expression = e })
          → Compiles parse is_blank source e
      forward h = ground (arith, (parsed-exact source e (parse source)).0)

      backward :
          Compiles parse is_blank source e
          → compile_predicate parse is_blank source
            ≡ ok (record { source = source; expression = e })
      backward c = ground (
        arith,
        (parsed-exact source e (parse source)).1 (c.parses, (c.subset, c.shallow, c.small)),
      )
