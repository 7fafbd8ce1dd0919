-- ===== src/Envelope.antt =====
-- src/wcd/envelope.py: the clauses of an envelope, and the fact keys that they predict and track.
-- Seconds are natural numbers of some unit.
pub mod Delta
pub mod Report
pub mod Assertion
pub mod Convergence
pub mod Parsing
mod Tests
use Prim.Native.String
use text.Mathlib.Text.{starts_with}
use windows_console_driver.Prelude.{
  ℕ, String, Bool, true, false, List, [], ◌∷◌, ◌++◌, ◌==◌, string_eq, ◌||◌, any, if◌then◌else◌,
}
use windows_console_driver.Prelude.Dict.{Dict}
use windows_console_driver.Value.{Value}
use windows_console_driver.Predicate.{Predicate}
use windows_console_driver.Predicate.Paths.{referenced_paths}

-- A state of observed facts, by key.
abbrev pub Facts : Type 0
Facts = Dict Value

pub record RequireClause : Type 0 where
  pub fact_key : String
  pub predicate : Predicate

pub record AllowClause : Type 0 where
  pub category : String

pub record ForbidClause : Type 0 where
  pub scope_key : String
  pub predicate : Predicate

pub record DeriveClause : Type 0 where
  pub relation : Predicate

pub record ConvergencePolicy : Type 0 where
  pub window_seconds : ℕ
  pub poll_seconds : ℕ
  pub reproduce : ℕ

pub record Envelope : Type 0 where
  pub requires : List RequireClause
  pub allows : List AllowClause
  pub forbids : List ForbidClause
  pub derives : List DeriveClause
  pub convergence : ConvergencePolicy

-- `text.removeprefix(prefix)`, for a text that starts with it.
abbrev pub without_prefix : String → String → String
without_prefix prefix s = String.slice s (String.len prefix) (String.len s)

-- `_post_side_keys`
unfoldable pub post_side_paths : List String → List String
post_side_paths [] = []
post_side_paths (path ∷ paths) =
    let rest = post_side_paths paths in
    if starts_with path "post."
    then without_prefix "post." path ∷ rest
    else if starts_with path "facts."
    then without_prefix "facts." path ∷ rest
    else rest

unfoldable pub post_side_keys : Predicate → List String
unfolding post_side_paths referenced_paths
post_side_keys p = post_side_paths (referenced_paths p.expression)

unfoldable pub require_keys : List RequireClause → List String
require_keys [] = []
require_keys (c ∷ cs) = c.fact_key ∷ (post_side_keys c.predicate ++ require_keys cs)

unfoldable pub derive_keys : List DeriveClause → List String
derive_keys [] = []
derive_keys (c ∷ cs) = post_side_keys c.relation ++ derive_keys cs

unfoldable pub forbid_keys : List ForbidClause → List String
forbid_keys [] = []
forbid_keys (c ∷ cs) = c.scope_key ∷ (post_side_keys c.predicate ++ forbid_keys cs)

unfoldable pub predicted_keys : Envelope → List String
predicted_keys e = require_keys e.requires ++ derive_keys e.derives

-- A key is predicted by itself or by a dotted ancestor.
unfoldable pub is_predicted : String → List String → Bool
is_predicted key predicted = any (λ p. key == p || starts_with key (String.◌++◌ p ".")) predicted

abbrev pub member : String → List String → Bool
member k ks = any (λ j. j == k) ks

-- `dict.fromkeys`: the first of each key stays.
unfoldable pub keep_new : List String → List String → List String
keep_new seen [] = []
keep_new seen (k ∷ ks) = elim (member k seen) [
  | true ↦ keep_new seen ks
  | false ↦ k ∷ keep_new (k ∷ seen) ks
]

unfoldable pub normalized_keys : Envelope → List String
unfolding keep_new
normalized_keys e = keep_new [] (predicted_keys e ++ forbid_keys e.forbids)
