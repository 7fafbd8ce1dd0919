-- ===== src/Envelope/Assertion/Verdict.antt =====
-- The verdict of `assert_envelope`, against what an envelope asks of a transition.
use windows_console_driver.Prelude.{
  String, ◌≡◌, refl, sym, ap, ◌∙◌, ◌↔◌, Bool, true, false, not, ◌&&◌, List, [], ◌∷◌, All, All-map,
  arith, string_eq, eq_iff,
}
use windows_console_driver.Prelude.Results.{Result, ok, ◌>>=◌, >>=-eq-ok}
use windows_console_driver.Prelude.Dict.{Dict, lookup}
use windows_console_driver.Value.{Value}
use windows_console_driver.Predicate.Eval.{Runtime, Fault}
use windows_console_driver.Envelope.{
  Facts, RequireClause, ForbidClause, DeriveClause, Envelope, member, predicted_keys,
}
use windows_console_driver.Envelope.Delta.{FactDelta, entries, compute_delta}
use windows_console_driver.Envelope.Report.{
  satisfied_status, disproven_status, require_label, derive_label, forbid_label, Labelled,
}
use windows_console_driver.Envelope.Assertion.{
  ClauseOutcome, Judged, holds, Tally, ClauseLabel, record_outcome, build_bindings, assert_clauses,
  judge_forbid, unclassified_keys, status_of, AssertionResult, conclude, assert_envelope,
}
use windows_console_driver.Envelope.Assertion.Changes.{differs, is_covered, unclassified_lem}
use windows_console_driver.Envelope.Assertion.Clauses.{
  is_nil, is_satisfied, is_resolved, is_resolved_tally, is_clean, record_outcome-tests, JudgedAs,
  Holds, Evaluates, Guards, Decides, assert_clauses-test, holds-Holds, holds-Evaluates,
  judge_forbid-Guards, judge_forbid-Decides,
}

status-cases :
    (us vs : List Labelled) (ks : List String)
    → ((status_of us vs ks ≡ satisfied_status) ↔ ((is_nil us && is_nil vs ≡ true) × (ks ≡ [])))
      × ((status_of us vs ks ≡ disproven_status)
          ↔ ((is_nil us ≡ true) × ((is_nil us && is_nil vs ≡ true) × (ks ≡ []) → ⊥)))
unfolding status_of
status-cases [] [] [] = ((λ h. (refl, refl), λ h. refl), (λ h. cc h, λ h. ground arith))
status-cases [] [] (k ∷ ks) = ((λ h. cc h, λ h. cc h.1), (λ h. (refl, λ p. cc p.1), λ h. refl))
status-cases [] (v ∷ vs) ks = ((λ h. cc h, λ h. cc h.0), (λ h. (refl, λ p. cc p.0), λ h. refl))
status-cases (u ∷ us) vs ks = ((λ h. cc h, λ h. cc h.0), (λ h. cc h, λ h. cc h.0))

no_member : (ks : List String) → ((k : String) → member k ks ≡ false) → ks ≡ []
no_member [] h = refl
no_member (k ∷ ks) h = let e = h k in let r = (eq_iff k k).1 refl in ground (arith, e, r)

module _ (python : Runtime) (e : Envelope) (pre post : Facts) (categories : Dict String) where
  abbrev pub bindings : Dict Value
  bindings = build_bindings pre post

  -- Every clause holds, the scope facts of the forbid clauses among the observed facts.
  pub record ClausesHold : Type 0 where
    pub requires_hold : All (λ c. Holds python c.predicate bindings) e.requires
    pub derives_hold : All (λ c. Holds python c.relation bindings) e.derives
    pub forbids_hold : All (λ c. Guards python bindings c (lookup c.scope_key post)) e.forbids

  -- Every clause evaluates, or is a forbid clause whose scope fact is absent.
  pub record ClausesDecided : Type 0 where
    pub requires_decided : All (λ c. Evaluates python c.predicate bindings) e.requires
    pub derives_decided : All (λ c. Evaluates python c.relation bindings) e.derives
    pub forbids_decided : All (λ c. Decides python bindings c (lookup c.scope_key post)) e.forbids

  -- Each key whose value differs is allowed or predicted.
  abbrev pub ChangesCovered : Type 0
  ChangesCovered = (k : String) → differs pre post k ≡ true → is_covered e categories k ≡ true

  abbrev pub judge_require : RequireClause → Result Fault Judged
  judge_require c = holds python c.predicate bindings

  abbrev pub judge_derive : DeriveClause → Result Fault Judged
  judge_derive c = holds python c.relation bindings

  abbrev pub judge_scope : ForbidClause → Result Fault Judged
  judge_scope c = judge_forbid python bindings c (lookup c.scope_key post)

  abbrev AllJudged : (ClauseOutcome → Bool) → Type 0
  AllJudged q =
      All (λ c. JudgedAs (judge_require c) q) e.requires
      × All (λ c. JudgedAs (judge_derive c) q) e.derives
      × All (λ c. JudgedAs (judge_scope c) q) e.forbids

  abbrev pub delta : FactDelta
  delta = compute_delta pre post categories

  abbrev pub unclassified : List String
  unclassified = unclassified_keys e.allows (predicted_keys e) (entries delta)

  abbrev pub empty : Tally
  empty = record { satisfied = []; violated = []; unresolved = [] }

  abbrev pub loop_requires : Result Fault Tally
  loop_requires =
      assert_clauses judge_require (λ i c. require_label i c.fact_key) 0 e.requires empty

  abbrev pub loop_derives : Tally → Result Fault Tally
  loop_derives t = assert_clauses judge_derive (λ i c. derive_label i) 0 e.derives t

  abbrev pub loop_forbids : Tally → Result Fault Tally
  loop_forbids t = assert_clauses judge_scope (λ i c. forbid_label i c.scope_key) 0 e.forbids t

  abbrev pub finish : Tally → Result Fault AssertionResult
  finish t = ok (conclude t delta unclassified)

  -- The tally of the three loops, and what a test of it says of the clauses.
  assert_envelope-tally :
      (r : AssertionResult)
      → assert_envelope python e pre post categories ≡ ok r
      → (u : Tally) × (conclude u delta unclassified ≡ r)
        × ((m : Tally → Bool) (q : ClauseOutcome → Bool)
            → ((l : ClauseLabel) (o : Judged) (t : Tally) → m (record_outcome l o t) ≡ m t && q o.0)
            → m empty ≡ true
            → (m u ≡ true) ↔ AllJudged q)
  unfolding assert_envelope
  assert_envelope-tally r h =
      let (u3, h3, last) = >>=-eq-ok (loop_requires >>= loop_derives >>= loop_forbids) finish h in
      let (u2, h2, loop3) = >>=-eq-ok (loop_requires >>= loop_derives) loop_forbids h3 in
      let (u1, loop1, loop2) = >>=-eq-ok loop_requires loop_derives h2 in
      (
        u3,
        cc last,
        λ m q law start.
            let (there1, back1) =
              assert_clauses-test judge_require (λ i c. require_label i c.fact_key) m q law 0
                e.requires empty u1 loop1 in
            let (there2, back2) =
              assert_clauses-test judge_derive (λ i c. derive_label i) m q law 0 e.derives u1 u2
                loop2 in
            let (there3, back3) =
              assert_clauses-test judge_scope (λ i c. forbid_label i c.scope_key) m q law 0
                e.forbids u2 u3 loop3 in
            (
              λ p. let (p2, k3) = there3 p in let (p1, k2) = there2 p2 in ((there1 p1).1, k2, k3),
              λ (k1, k2, k3). back3 (back2 (back1 (start, k1), k2), k3),
            ),
      )

  judged-hold : AllJudged is_satisfied ↔ ClausesHold
  judged-hold = (
    λ (a, b, d). record {
      requires_hold = All-map _ _ (λ x. (holds-Holds python x.predicate bindings).0) e.requires a;
      derives_hold = All-map _ _ (λ x. (holds-Holds python x.relation bindings).0) e.derives b;
      forbids_hold = All-map _ _ (λ x. (forbid-Guards x).0) e.forbids d;
    },
    λ k. (
      All-map _ _ (λ x. (holds-Holds python x.predicate bindings).1) e.requires k.requires_hold,
      All-map _ _ (λ x. (holds-Holds python x.relation bindings).1) e.derives k.derives_hold,
      All-map _ _ (λ x. (forbid-Guards x).1) e.forbids k.forbids_hold,
    ),
  )
    where
      forbid-Guards :
          (x : ForbidClause)
          → JudgedAs (judge_scope x) is_satisfied
            ↔ Guards python bindings x (lookup x.scope_key post)
      forbid-Guards x = judge_forbid-Guards python bindings x (lookup x.scope_key post)

  judged-decided : AllJudged is_resolved ↔ ClausesDecided
  judged-decided = (
    λ (a, b, d). record {
      requires_decided =
          All-map _ _ (λ x. (holds-Evaluates python x.predicate bindings).0) e.requires a;
      derives_decided =
          All-map _ _ (λ x. (holds-Evaluates python x.relation bindings).0) e.derives b;
      forbids_decided = All-map _ _ (λ x. (forbid-Decides x).0) e.forbids d;
    },
    λ k. (
      All-map _ _ (λ x. (holds-Evaluates python x.predicate bindings).1) e.requires
          k.requires_decided,
      All-map _ _ (λ x. (holds-Evaluates python x.relation bindings).1) e.derives k.derives_decided,
      All-map _ _ (λ x. (forbid-Decides x).1) e.forbids k.forbids_decided,
    ),
  )
    where
      forbid-Decides :
          (x : ForbidClause)
          → JudgedAs (judge_scope x) is_resolved
            ↔ Decides python bindings x (lookup x.scope_key post)
      forbid-Decides x = judge_forbid-Decides python bindings x (lookup x.scope_key post)

  covered-nil : (unclassified ≡ []) ↔ ChangesCovered
  covered-nil = (forward, backward)
    where
      forward : unclassified ≡ [] → ChangesCovered
      forward h k d =
          let m = unclassified_lem e categories pre post k in
          let n = sym (ap (member k) h) ∙ m in ground (arith, n)

      backward : ChangesCovered → unclassified ≡ []
      backward h = no_member _ (λ k.
          let m = unclassified_lem e categories pre post k in let c = h k in ground (arith, m, c))

  module _ (r : AssertionResult) (h : assert_envelope python e pre post categories ≡ ok r) where
    clauses-verdict :
        (u : Tally) × (conclude u delta unclassified ≡ r)
        × ((is_clean u ≡ true) ↔ ClausesHold)
        × ((is_resolved_tally u ≡ true) ↔ ClausesDecided)
    clauses-verdict =
        let (u, c, test) = assert_envelope-tally r h in
        let (clean, clean') =
          test is_clean is_satisfied (λ l o t. (record_outcome-tests l o.0 o.1 t).1) refl in
        let (res, res') =
          test is_resolved_tally is_resolved (λ l o t. (record_outcome-tests l o.0 o.1 t).0) refl in
        (
          u,
          c,
          (λ p. judged-hold.0 (clean p), λ k. clean' (judged-hold.1 k)),
          (λ p. judged-decided.0 (res p), λ k. res' (judged-decided.1 k)),
        )

    -- An assertion that returns is satisfied exactly when every clause holds and every change is covered.
    pub satisfied_exact : (r.status ≡ satisfied_status) ↔ (ClausesHold × ChangesCovered)
    unfolding conclude
    satisfied_exact =
        let (u, c, (clean, clean'), decided) = clauses-verdict in
        let ((there, back), other) = status-cases u.unresolved u.violated unclassified in
        let s = ap (λ x. x.status) c in
        (
          λ p. let (n, k) = there (s ∙ p) in (clean n, covered-nil.0 k),
          λ (n, k). sym s ∙ back (clean' n, covered-nil.1 k),
        )

    -- An assertion that returns is disproven exactly when every clause is decided and the transition does not
    -- fit: some clause does not hold or some change is not covered.
    pub disproven_exact :
        (r.status ≡ disproven_status) ↔ (ClausesDecided × (ClausesHold × ChangesCovered → ⊥))
    unfolding conclude
    disproven_exact =
        let (u, c, (clean, clean'), (decided, decided')) = clauses-verdict in
        let (other, (there, back)) = status-cases u.unresolved u.violated unclassified in
        let s = ap (λ x. x.status) c in
        (
          λ p. let (n, k) = there (s ∙ p) in (decided n, λ (a, b). k (clean' a, covered-nil.1 b)),
          λ (n, k). sym s ∙ back (decided' n, λ (a, b). k (clean a, covered-nil.0 b)),
        )

    -- The unclassified keys of the result are those whose value differs and that nothing covers.
    pub unclassified_exact :
        (k : String)
        → member k r.unclassified ≡ differs pre post k && not (is_covered e categories k)
    unfolding conclude
    unclassified_exact k =
        let (u, c, test) = assert_envelope-tally r h in
        sym (ap (λ x. member k x.unclassified) c) ∙ unclassified_lem e categories pre post k
