-- ===== src/Envelope/Convergence.antt =====
-- src/wcd/envelope.py: `converge`. The observer, the clock and the sleep are operations on a world that
-- each may change; an exception of the observer is not modelled. Fuel stands for the unbounded loop.
pub mod Frozen
pub mod Refuted
use windows_console_driver.Prelude.{
  ℕ, zero, suc, ◌+◌, ◌-◌, String, Bool, true, false, not, ◌&&◌, ◌||◌, Option, none, some, List, [],
  ◌∷◌, length, ltb, leb, ◌==◌, nat_eq, all, if◌then◌else◌,
}
use windows_console_driver.Prelude.Int.{ℤ, sub_ℕ}
use windows_console_driver.Prelude.Results.{Result, ok, err}
use windows_console_driver.Prelude.Dict.{Dict, lookup}
use windows_console_driver.Value.{Value}
use windows_console_driver.Value.Compare.{py_eq}
use windows_console_driver.Predicate.Eval.{Runtime, Fault}
use windows_console_driver.Envelope.{Facts, Envelope, normalized_keys}
use windows_console_driver.Envelope.Delta.{FactDelta, sorted_union}
use windows_console_driver.Envelope.Report.{
  AssertionStatus, satisfied_status, disproven_status, indeterminate_status, never_stabilized_line,
}
use windows_console_driver.Envelope.Assertion.{AssertionResult, assert_envelope}

abbrev pub max_converge_polls : ℕ
max_converge_polls = 10000

-- The normalized state: each tracked key with its value, `none` where it is MISSING.
abbrev pub Normalized : Type 0
Normalized = Dict (Option Value)

unfoldable pub normalize : List String → Facts → Normalized
normalize [] observation = []
normalize (key ∷ keys) observation = (key, lookup key observation) ∷ normalize keys observation

abbrev pub same_observed : Option Value → Option Value → Bool
same_observed none none = true
same_observed (some a) (some b) = py_eq a b
same_observed _ _ = false

abbrev pub observed : Option (Option Value) → Option Value
observed none = none
observed (some o) = o

abbrev pub found_same : Option Value → Option (Option Value) → Bool
found_same o none = false
found_same o (some p) = same_observed o p

-- `==` of two dictionaries.
unfoldable pub same_state : Normalized → Normalized → Bool
same_state a b = length a == length b && all (λ kv. found_same kv.1 (lookup kv.0 b)) a

unfoldable pub keep_differing : List String → Normalized → Normalized → List String
keep_differing [] a b = []
keep_differing (k ∷ ks) a b =
    let rest = keep_differing ks a b in
    if same_observed (observed (lookup k a)) (observed (lookup k b)) then rest else k ∷ rest

unfoldable pub differing_keys : Normalized → Normalized → List String
unfolding keep_differing sorted_union
differing_keys a b = keep_differing (sorted_union a b) a b

pub data ConvergenceReason : Type 0 where
  poll_bound_exceeded : ℕ → ConvergenceReason
  window_expired : (window polls : ℕ) → ConvergenceReason
  assertion_disproven : ConvergenceReason
  clauses_unresolved : ℕ → ConvergenceReason
  not_reproduced : (observation of : ℕ) → List String → ConvergenceReason

pub record ConvergenceResult : Type 0 where
  pub status : AssertionStatus
  pub reason : Option ConvergenceReason
  pub assertion : AssertionResult
  pub polls : ℕ
  pub elapsed_seconds : ℤ
  pub reproduce_observed : ℕ
  pub frozen : Option Normalized

-- How the loop ends: at a frozen observation, without one, or out of fuel.
pub data Polled : Type 0 where
  froze : Facts → Normalized → (polls : ℕ) → Polled
  never_stabilized : ConvergenceResult → Polled
  out_of_fuel : Polled

pub record Env (W : Type 0) : Type 0 where
  pub observe : W → Facts × W
  pub clock : W → ℕ × W
  pub sleep : ℕ → W → W

abbrev pub is_stable : Option Normalized → Normalized → Bool
is_stable none now = false
is_stable (some previous) now = same_state now previous

-- The assertion of a result that never froze.
abbrev pub never_asserted : AssertionResult
never_asserted = record {
  status = indeterminate_status;
  satisfied = [];
  violated = [];
  unresolved = [];
  unclassified = [];
  characterization = some (never_stabilized_line ∷ []);
  delta = record { changed_entries = []; added_entries = []; removed_entries = [] };
}

module _ {W : Type 0} (env : Env W) where
  unfoldable pub give_up : (start polls : ℕ) → ConvergenceReason → W → Polled × W
  give_up start polls reason w =
      let (now, w') = env.clock w in
      (
        never_stabilized (record {
          status = indeterminate_status;
          reason = some reason;
          assertion = never_asserted;
          polls = polls;
          elapsed_seconds = sub_ℕ now start;
          reproduce_observed = 0;
          frozen = none;
        }),
        w',
      )

  module _ (e : Envelope) (start : ℕ) where
    -- After an observation that is not stable: give up, or sleep and poll on.
    unfoldable pub poll_on : (polls : ℕ) → (W → Polled × W) → W → Polled × W
    poll_on polls continue w =
        if leb max_converge_polls polls
        then give_up start polls (poll_bound_exceeded polls) w
        else let (now, w') = env.clock w in
          if ltb (start + e.convergence.window_seconds) (now + e.convergence.poll_seconds)
          then give_up start polls (window_expired e.convergence.window_seconds polls) w'
          else continue (env.sleep e.convergence.poll_seconds w')

    unfoldable pub poll_loop :
        (fuel : ℕ) (previous : Option Normalized) (polls : ℕ) → W → Polled × W
    poll_loop zero previous polls w = (out_of_fuel, w)
    poll_loop (suc fuel) previous polls w =
        let (observation, w') = env.observe w in
        let normalized = normalize (normalized_keys e) observation in
        if is_stable previous normalized
        then (froze observation normalized (suc polls), w')
        else poll_on (suc polls) (λ v. poll_loop fuel (some normalized) (suc polls) v) w'

    -- The reproductions that are left, after `done` of them.
    unfoldable pub reproduce_loop :
        (left done : ℕ) (frozen : Normalized) → W → Option (ℕ × List String) × W
    reproduce_loop zero done frozen w = (none, w)
    reproduce_loop (suc left) done frozen w =
        let (reproduction, w') = env.observe (env.sleep e.convergence.poll_seconds w) in
        let normalized = normalize (normalized_keys e) reproduction in
        let rest = reproduce_loop left (suc done) frozen w' in
        if same_state normalized frozen
        then rest
        else (some (suc done, differing_keys normalized frozen), w')

    -- A result for a frozen state; the clock is read last.
    unfoldable pub finish :
        AssertionStatus
        → Option ConvergenceReason
        → AssertionResult
        → (polls observed : ℕ) → Normalized
        → W
        → ConvergenceResult × W
    finish status reason assertion polls observed frozen w =
        let (now, w') = env.clock w in
        (
          record {
            status = status;
            reason = reason;
            assertion = assertion;
            polls = polls;
            elapsed_seconds = sub_ℕ now start;
            reproduce_observed = observed;
            frozen = some frozen;
          },
          w',
        )

    unfoldable pub reproduced :
        AssertionResult
        → (polls : ℕ) → Normalized
        → Option (ℕ × List String) × W
        → ConvergenceResult × W
    reproduced assertion polls frozen (none, w) =
        finish satisfied_status none assertion polls e.convergence.reproduce frozen w
    reproduced assertion polls frozen (some (n, keys), w) =
        finish indeterminate_status (some (not_reproduced n e.convergence.reproduce keys)) assertion
          polls n frozen w

    unfoldable pub after_assertion :
        AssertionStatus → AssertionResult → (polls : ℕ) → Normalized → W → ConvergenceResult × W
    after_assertion disproven_status assertion polls frozen w =
        finish disproven_status (some assertion_disproven) assertion polls 0 frozen w
    after_assertion indeterminate_status assertion polls frozen w =
        finish indeterminate_status (some (clauses_unresolved (length assertion.unresolved)))
          assertion polls 0 frozen w
    after_assertion satisfied_status assertion polls frozen w =
        reproduced assertion polls frozen (reproduce_loop e.convergence.reproduce 0 frozen w)

    -- What follows the loop; `none` is a loop that ran out of fuel. What an assertion raises leaves the
    -- world as the observation left it.
    abbrev pub judged :
        (polls : ℕ)
        → Normalized
        → W
        → Result Fault AssertionResult
        → Result Fault (Option ConvergenceResult) × W
    judged polls frozen w (ok assertion) =
        let (r, w') = after_assertion assertion.status assertion polls frozen w in (ok (some r), w')
    judged polls frozen w (err fault) = (err fault, w)

    unfoldable pub after_polls :
        Runtime
        → (pre : Facts) → Dict String
        → Polled × W
        → Result Fault (Option ConvergenceResult) × W
    after_polls python pre categories (out_of_fuel, w) = (ok none, w)
    after_polls python pre categories (never_stabilized r, w) = (ok (some r), w)
    after_polls python pre categories (froze observation frozen polls, w) =
        judged polls frozen w (assert_envelope python e pre observation categories)

  unfoldable pub converge :
      Runtime
      → Envelope
      → (pre : Facts) → Dict String
      → W
      → Result Fault (Option ConvergenceResult) × W
  converge python e pre categories w =
      let (start, w') = env.clock w in
      after_polls e start python pre categories (poll_loop e start max_converge_polls none 0 w')
