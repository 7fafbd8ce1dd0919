-- ===== src/Envelope/Convergence/Frozen.antt =====
-- The polling loop as a relation on worlds, and the observations behind a satisfied convergence.
use mathlib.Core.Path.{subst}
use windows_console_driver.Prelude.{
  ℕ, zero, suc, ◌+◌, ◌≤◌, ◌<◌, if-elim, String, ◌≡◌, refl, sym, ap, ◌∙◌, inl, inr, ◌⊎◌, true, false,
  Option, none, some, List, ltb, leb, arith,
}
use windows_console_driver.Prelude.Results.{Result, ok, err}
use windows_console_driver.Prelude.Dict.{Dict}
use windows_console_driver.Predicate.Eval.{Runtime, Fault}
use windows_console_driver.Envelope.{Facts, Envelope, normalized_keys}
use windows_console_driver.Envelope.Report.{
  AssertionStatus, satisfied_status, disproven_status, indeterminate_status,
}
use windows_console_driver.Envelope.Assertion.{AssertionResult, assert_envelope}
use windows_console_driver.Envelope.Convergence.{
  max_converge_polls, Normalized, normalize, same_state, ConvergenceResult, ConvergenceReason,
  poll_bound_exceeded, window_expired, Polled, froze, never_stabilized, out_of_fuel, Env, is_stable,
  give_up, poll_on, poll_loop, reproduce_loop, finish, reproduced, after_assertion, judged,
  after_polls, converge,
}

module _ {W : Type 0} (env : Env W) (e : Envelope) where
  -- The normalized state that the observer shows in a world.
  abbrev pub shown : W → Normalized
  shown w = normalize (normalized_keys e) (env.observe w).0

  -- The worlds in which the loop observes: the state before, and how often it has polled.
  pub data Polling (w0 : W) : Option Normalized → ℕ → W → Type 0 where
    started : Polling w0 none 0 w0
    polled_on :
        {previous : Option Normalized} {polls : ℕ} {w : W}
        → Polling w0 previous polls w
        → is_stable previous (shown w) ≡ false
        → Polling w0
            (some (shown w))
            (suc polls)
            (env.sleep e.convergence.poll_seconds (env.clock (env.observe w).1).1)

  -- From a world on, that many observations, each after a sleep, show the frozen state.
  pub data Reproduces (frozen : Normalized) : ℕ → W → Type 0 where
    reproduced_all : {w : W} → Reproduces frozen 0 w
    reproduced_next :
        {left : ℕ} {w : W}
        → same_state (shown (env.sleep e.convergence.poll_seconds w)) frozen ≡ true
        → Reproduces frozen left (env.observe (env.sleep e.convergence.poll_seconds w)).1
        → Reproduces frozen (suc left) w

  -- A world in which the observation repeats the state of the poll before, the last of `polls`.
  pub record Stable (w0 : W) (polls : ℕ) (w : W) : Type 0 where
    pub previous : Normalized
    pub earlier : ℕ
    pub polling : Polling w0 (some previous) earlier w
    pub repeats : same_state (shown w) previous ≡ true
    pub counted : polls ≡ suc earlier
    pub bounded : polls ≤ max_converge_polls

  abbrev pub Ends : W → Polled × W → Type 0
  Ends w0 (froze observation frozen polls, v) =
      (w : W) × (env.observe w ≡ (observation, v)) × (frozen ≡ shown w) × Stable w0 polls w
  Ends w0 (never_stabilized r, v) =
      (r.status ≡ indeterminate_status) × (r.polls ≤ max_converge_polls)
  Ends w0 (out_of_fuel, v) = ⊥

  give_up-Ends :
      (w0 : W) (start polls : ℕ) (reason : ConvergenceReason) (w : W)
      → polls ≤ max_converge_polls
      → Ends w0 (give_up env start polls reason w)
  unfolding give_up
  give_up-Ends w0 start polls reason w h = (refl, h)

  poll_on-Ends :
      (w0 : W) (start polls : ℕ) (continue : W → Polled × W) (w : W)
      → polls ≤ max_converge_polls
      → (polls < max_converge_polls
          → Ends w0 (continue (env.sleep e.convergence.poll_seconds (env.clock w).1)))
      → Ends w0 (poll_on env e start polls continue w)
  unfolding poll_on
  poll_on-Ends w0 start polls continue w h k =
      if-elim (Ends w0) (leb max_converge_polls polls)
        (λ b. give_up-Ends w0 start polls (poll_bound_exceeded polls) w h)
        (λ b.
          if-elim (Ends w0)
            (ltb (start + e.convergence.window_seconds)
              ((env.clock w).0 + e.convergence.poll_seconds))
            (λ c.
              give_up-Ends w0 start polls (window_expired e.convergence.window_seconds polls)
                (env.clock w).1 h)
            (λ c. k (ground (arith, b))))

  pub poll_loop-Ends :
      (w0 : W) (start fuel : ℕ) (previous : Option Normalized) (polls : ℕ) (w : W)
      → Polling w0 previous polls w
      → polls < max_converge_polls
      → polls + fuel ≡ max_converge_polls
      → Ends w0 (poll_loop env e start fuel previous polls w)
  unfolding poll_loop
  poll_loop-Ends w0 start zero previous polls w p h k = omega arith
  poll_loop-Ends w0 start (suc fuel) previous polls w p h k =
      if-elim (Ends w0) _ (λ b. by_previous previous p b)
        (λ b. poll_on-Ends w0 start (suc polls) _ (env.observe w).1 (omega (arith, h)) (λ l.
          poll_loop-Ends w0 start fuel (some (shown w)) (suc polls) _ (polled_on p b) l
            (omega (arith, k))))
    where
      by_previous :
          (o : Option Normalized)
          → Polling w0 o polls w
          → is_stable o (shown w) ≡ true
          → Ends w0 (froze (env.observe w).0 (shown w) (suc polls), (env.observe w).1)
      by_previous none q b = cc b
      by_previous (some previous) q b = (
        w,
        refl,
        refl,
        record {
          previous = previous;
          earlier = polls;
          polling = q;
          repeats = b;
          counted = refl;
          bounded = omega (arith, h);
        },
      )

  reproduce_loop-Reproduces :
      (start left done : ℕ) (frozen : Normalized) (w v : W)
      → reproduce_loop env e start left done frozen w ≡ (none, v)
      → Reproduces frozen left w
  unfolding reproduce_loop
  reproduce_loop-Reproduces start zero done frozen w v = λ h. reproduced_all
  reproduce_loop-Reproduces start (suc left) done frozen w v =
      if-elim (λ x. x ≡ (none, v) → Reproduces frozen (suc left) w)
        (same_state (shown (env.sleep e.convergence.poll_seconds w)) frozen)
        (λ b h. reproduced_next b (reproduce_loop-Reproduces start left (suc done) frozen _ v h))
        (λ b h. cc (ap (λ x. x.0) h))

  -- What stands behind a satisfied result.
  pub record Verified (python : Runtime) (pre : Facts) (categories : Dict String) (w0 : W)
      (r : ConvergenceResult) : Type 0 where
    pub world : W
    pub stable : Stable w0 r.polls world
    pub asserted : assert_envelope python e pre (env.observe world).0 categories ≡ ok r.assertion
    pub satisfied : r.assertion.status ≡ satisfied_status
    pub kept : r.frozen ≡ some (shown world)
    pub reproduced : Reproduces (shown world) e.convergence.reproduce (env.observe world).1

  -- What a result for a frozen state keeps; its status is satisfied after all reproductions only.
  abbrev pub KeepsFrozen :
      AssertionStatus → AssertionResult → ℕ → Normalized → W → ConvergenceResult → Type 0
  KeepsFrozen s a polls frozen w r =
      (r.polls ≡ polls)
      × (r.assertion ≡ a)
      × (r.frozen ≡ some frozen)
      × (r.status ≡ satisfied_status
          → (s ≡ satisfied_status) × Reproduces frozen e.convergence.reproduce w)
      × (r.status ≡ disproven_status → s ≡ disproven_status)

  pub after_assertion-KeepsFrozen :
      (start : ℕ) (s : AssertionStatus) (a : AssertionResult) (polls : ℕ) (frozen : Normalized)
      (w : W)
      → KeepsFrozen s a polls frozen w (after_assertion env e start s a polls frozen w).0
  unfolding after_assertion finish reproduced
  after_assertion-KeepsFrozen start disproven_status a polls frozen w =
      (refl, refl, refl, λ h. cc h, λ h. refl)
  after_assertion-KeepsFrozen start indeterminate_status a polls frozen w =
      (refl, refl, refl, λ h. cc h, λ h. cc h)
  after_assertion-KeepsFrozen start satisfied_status a polls frozen w =
      by_loop (reproduce_loop env e start e.convergence.reproduce 0 frozen w) refl
    where
      by_loop :
          (x : Option (ℕ × List String) × W)
          → reproduce_loop env e start e.convergence.reproduce 0 frozen w ≡ x
          → KeepsFrozen satisfied_status a polls frozen w
              (reproduced env e start a polls frozen x).0
      by_loop (none, v) h = (
        refl,
        refl,
        refl,
        λ p. (refl, reproduce_loop-Reproduces start e.convergence.reproduce 0 frozen w v h),
        λ p. cc p,
      )
      by_loop (some (n, keys), v) h = (refl, refl, refl, λ p. cc p, λ p. cc p)

  module _ (python : Runtime) (pre : Facts) (categories : Dict String) where
    after_polls-Verified :
        (w0 : W) (start : ℕ) (x : Polled × W) (r : ConvergenceResult) (v : W)
        → Ends w0 x
        → after_polls env e start python pre categories x ≡ (ok (some r), v)
        → r.status ≡ satisfied_status
        → Verified python pre categories w0 r
    unfolding after_polls
    after_polls-Verified w0 start (out_of_fuel, w) r v ends h s = ground arith
    after_polls-Verified w0 start (never_stabilized q, w) r v ends h s =
        let same : q ≡ r = cc h in cc (ap (λ x. x.status) same, ends.0, s)
    after_polls-Verified w0 start (froze observation frozen polls, w) r v ends h s =
        by_assertion (assert_envelope python e pre observation categories) refl h
      where
        verified :
            (a : AssertionResult)
            → assert_envelope python e pre observation categories ≡ ok a
            → (after_assertion env e start a.status a polls frozen w).0 ≡ r
            → Verified python pre categories w0 r
        verified a asserts same =
            let (counts, asserted, kept, verdict, refuted) =
              subst (KeepsFrozen a.status a polls frozen w) same
                (after_assertion-KeepsFrozen start a.status a polls frozen w) in
            let (world, seen, state, stable) = ends in
            let (satisfied, all) = verdict s in
            record {
              world = world;
              stable = subst (λ n. Stable w0 n world) (sym counts) stable;
              asserted =
                  ap (λ o. assert_envelope python e pre o.0 categories) seen
                  ∙ asserts
                  ∙ ap ok (sym asserted);
              satisfied = ap (λ x. x.status) asserted ∙ satisfied;
              kept = kept ∙ ap some state;
              reproduced =
                  subst (λ x. Reproduces x e.convergence.reproduce (env.observe world).1) state
                    (subst (λ x. Reproduces frozen e.convergence.reproduce x)
                      (sym (ap (λ o. o.1) seen)) all);
            }

        by_assertion :
            (m : Result Fault AssertionResult)
            → assert_envelope python e pre observation categories ≡ m
            → judged env e start polls frozen w m ≡ (ok (some r), v)
            → Verified python pre categories w0 r
        by_assertion (ok a) asserts k = verified a asserts (cc k)
        by_assertion (err f) asserts k = absurd (cc k)

    -- A convergence that is satisfied observed one normalized state in two polls in a row, of at most 10000;
    -- that observation satisfies the envelope, its state is the one kept, and each of the declared number
    -- of observations afterwards showed it again.
    pub converge-Verified :
        (w v : W) (r : ConvergenceResult)
        → converge env python e pre categories w ≡ (ok (some r), v)
        → r.status ≡ satisfied_status
        → Verified python pre categories (env.clock w).1 r
    unfolding converge
    converge-Verified w v r h s =
        after_polls-Verified (env.clock w).1 (env.clock w).0 _ r v
          (poll_loop-Ends (env.clock w).1 (env.clock w).0 max_converge_polls none 0 (env.clock w).1
            started (omega arith) refl)
          h s

    -- What comes back: a result, or what an assertion raised.
    abbrev Returns : W → Result Fault (Option ConvergenceResult) × W → Type 0
    Returns w0 m =
        ((r : ConvergenceResult) × (v : W) × (m ≡ (ok (some r), v))
          × (r.polls ≤ max_converge_polls))
        ⊎ ((f : Fault) × (world : W) × (polls : ℕ) × Stable w0 polls world
            × (assert_envelope python e pre (env.observe world).0 categories ≡ err f)
            × (m ≡ (err f, (env.observe world).1)))

    after_polls-Returns :
        (w0 : W) (start : ℕ) (x : Polled × W)
        → Ends w0 x
        → Returns w0 (after_polls env e start python pre categories x)
    unfolding after_polls
    after_polls-Returns w0 start (out_of_fuel, w) ends = ground arith
    after_polls-Returns w0 start (never_stabilized q, w) ends = inl (q, w, refl, ends.1)
    after_polls-Returns w0 start (froze observation frozen polls, w) ends =
        by_assertion (assert_envelope python e pre observation categories) refl
      where
        kept_polls : (n : ℕ) → n ≡ polls → n ≤ max_converge_polls
        kept_polls n same =
            let (world, seen, state, stable) = ends in omega (arith, same, stable.bounded)

        by_assertion :
            (m : Result Fault AssertionResult)
            → assert_envelope python e pre observation categories ≡ m
            → Returns w0 (judged env e start polls frozen w m)
        by_assertion (ok a) asserts = inl (
          _,
          _,
          refl,
          kept_polls _ (after_assertion-KeepsFrozen start a.status a polls frozen w).0,
        )
        by_assertion (err f) asserts =
            let (world, seen, state, stable) = ends in
            inr (
              f,
              world,
              polls,
              stable,
              ap (λ o. assert_envelope python e pre o.0 categories) seen ∙ asserts,
              ap (λ o. (err f, o.1)) (sym seen),
            )

    -- A convergence returns a result after at most 10000 polls; or, at a poll that repeats the state of
    -- the poll before, of at most 10000, it raises what the assertion on that observation raised.
    pub converge-Returns :
        (w : W) → Returns (env.clock w).1 (converge env python e pre categories w)
    unfolding converge
    converge-Returns w = after_polls-Returns (env.clock w).1 (env.clock w).0 _ (
        poll_loop-Ends (env.clock w).1 (env.clock w).0 max_converge_polls none 0 (env.clock w).1
          started (omega arith) refl)
