-- ===== src/Envelope/Convergence/Refuted.antt =====
-- The observations behind a disproven convergence.
use mathlib.Core.Path.{subst}
use windows_console_driver.Prelude.{ℕ, String, ◌≡◌, refl, sym, ap, ◌∙◌, none, some, arith}
use windows_console_driver.Prelude.Results.{Result, ok, err}
use windows_console_driver.Prelude.Dict.{Dict}
use windows_console_driver.Predicate.Eval.{Runtime, Fault}
use windows_console_driver.Envelope.{Facts, Envelope}
use windows_console_driver.Envelope.Report.{disproven_status}
use windows_console_driver.Envelope.Assertion.{AssertionResult, assert_envelope}
use windows_console_driver.Envelope.Convergence.{
  max_converge_polls, ConvergenceResult, Polled, froze, never_stabilized, out_of_fuel, Env,
  after_assertion, judged, after_polls, converge,
}
use windows_console_driver.Envelope.Convergence.Frozen.{
  Stable, shown, Ends, KeepsFrozen, started, poll_loop-Ends, after_assertion-KeepsFrozen,
}

module _ {W : Type 0} (env : Env W) (e : Envelope) where
  -- What stands behind a disproven result.
  pub record Refuted (python : Runtime) (pre : Facts) (categories : Dict String) (w0 : W)
      (r : ConvergenceResult) : Type 0 where
    pub world : W
    pub stable : Stable env e w0 r.polls world
    pub asserted : assert_envelope python e pre (env.observe world).0 categories ≡ ok r.assertion
    pub disproves : r.assertion.status ≡ disproven_status
    pub kept : r.frozen ≡ some (shown env e world)

  module _ (python : Runtime) (pre : Facts) (categories : Dict String) where
    after_polls-Refuted :
        (w0 : W) (start : ℕ) (x : Polled × W) (r : ConvergenceResult) (v : W)
        → Ends env e w0 x
        → after_polls env e start python pre categories x ≡ (ok (some r), v)
        → r.status ≡ disproven_status
        → Refuted python pre categories w0 r
    unfolding after_polls
    after_polls-Refuted w0 start (out_of_fuel, w) r v ends h s = ground arith
    after_polls-Refuted w0 start (never_stabilized q, w) r v ends h s =
        let same : q ≡ r = cc h in cc (ap (λ x. x.status) same, ends.0, s)
    after_polls-Refuted w0 start (froze observation frozen polls, w) r v ends h s =
        by_assertion (assert_envelope python e pre observation categories) refl h
      where
        refutes :
            (a : AssertionResult)
            → assert_envelope python e pre observation categories ≡ ok a
            → (after_assertion env e start a.status a polls frozen w).0 ≡ r
            → Refuted python pre categories w0 r
        refutes a asserts same =
            let (counts, asserted, kept, verdict, refuted) =
              subst (KeepsFrozen env e a.status a polls frozen w) same
                (after_assertion-KeepsFrozen env e start a.status a polls frozen w) in
            let (world, seen, state, stable) = ends in
            record {
              world = world;
              stable = subst (λ n. Stable env e w0 n world) (sym counts) stable;
              asserted =
                  ap (λ o. assert_envelope python e pre o.0 categories) seen
                  ∙ asserts
                  ∙ ap ok (sym asserted);
              disproves = ap (λ x. x.status) asserted ∙ refuted s;
              kept = kept ∙ ap some state;
            }

        by_assertion :
            (m : Result Fault AssertionResult)
            → assert_envelope python e pre observation categories ≡ m
            → judged env e start polls frozen w m ≡ (ok (some r), v)
            → Refuted python pre categories w0 r
        by_assertion (ok a) asserts k = refutes a asserts (cc k)
        by_assertion (err f) asserts k = absurd (cc k)

    -- A convergence that is disproven observed one normalized state in two polls in a row, of at most
    -- 10000; the assertion of that observation, which it keeps, is disproven.
    pub converge-Refuted :
        (w v : W) (r : ConvergenceResult)
        → converge env python e pre categories w ≡ (ok (some r), v)
        → r.status ≡ disproven_status
        → Refuted python pre categories (env.clock w).1 r
    unfolding converge
    converge-Refuted w v r h s =
        after_polls-Refuted (env.clock w).1 (env.clock w).0 _ r v
          (poll_loop-Ends env e (env.clock w).1 (env.clock w).0 max_converge_polls none 0
            (env.clock w).1 started (omega arith) refl)
          h s
