-- ===== src/Execution/Outcomes.antt =====
-- What a record of src/wcd/exec_transaction.py stands for.
use mathlib.Core.Path.{subst}
use windows_console_driver.Prelude.{
  String, ◌≡◌, refl, sym, ap, ◌∙◌, true, ◌⊎◌, inl, inr, none, some, List, [], ◌++◌, ◌==◌, string_eq,
  eq_iff, arith, if◌then◌else◌,
}
use windows_console_driver.Prelude.Results.{Result, ok, err}
use windows_console_driver.Prelude.Dict.{Dict, lookup, insert, remove, lookup-insert, lookup-remove}
use windows_console_driver.Transaction.{indeterminate, verified, disproven, is_terminal_state, new}
use windows_console_driver.Leases.Registry.{
  Lease, LeaseError, lease_held, empty_target, empty_holder, ttl_not_positive, lease_not_held,
  Registry, acquire,
}
use windows_console_driver.Transaction.{TransitionEvent}
use windows_console_driver.Transaction.Diagram.{Chain}
use windows_console_driver.Envelope.Report.{satisfied_status, disproven_status}
use windows_console_driver.RunSheets.Channels.{ChannelFault, validate_channel_contract}
use windows_console_driver.Execution.{
  Raised, lease_note, lease_unavailable, Session, Host, Plan, Record, add_note, finish,
  release_lease, emit, abort_indeterminate, record_state,
}
use windows_console_driver.Envelope.Convergence.Frozen.{Verified, converge-Verified}
use windows_console_driver.Envelope.Convergence.Refuted.{Refuted, converge-Refuted}
use windows_console_driver.Execution.Phases.{environment, guid_or_zero, fact_values, fact_labels}
use windows_console_driver.Execution.Ending.{end_aborted}
use windows_console_driver.Execution.Phases.{with_lease, start, with_contract, execute_transaction}
use windows_console_driver.Execution.Invariant.{RunningAt, Judged, Trail, complete}
use windows_console_driver.Execution.Invariant.Records.{Recorded, Ends}
use windows_console_driver.Execution.Invariant.Leasing.{leased-Runs, Acquires, acquire-Acquires}

module _ {W : Type 0} (h : Host W) (plan : Plan) (registry : Registry) (world : W) where
  abbrev acquired : Result LeaseError Lease × Registry
  acquired = acquire h.lease_clock plan.lease_target plan.lease_holder none registry

  abbrev whole : Result Raised Record × Session W
  whole = execute_transaction h plan registry world

  -- A record of a run that was refused the lease, or of one that held it.
  data Concluded (r : Record) (s : Session W) : Type 0 where
    never_leased :
        (e : LeaseError) (refused : Registry)
        → acquired ≡ (err e, refused)
        → s.registry.leases ≡ registry.leases
        → r.state ≡ indeterminate
        → r.events ≡ []
        → s.txn.state ≡ none
        → s.txn.events ≡ []
        → Concluded r s
    concluded :
        (l : Lease) (granted : Registry)
        → acquired ≡ (ok l, granted)
        → l.target_id ≡ plan.lease_target
        → granted.leases ≡ insert plan.lease_target l registry.leases
        → Recorded h plan l granted.leases whole r s
        → Concluded r s

  abbrev Concludes : Result Raised Record × Session W → Type 0
  Concludes (ok r, s) = Concluded r s
  Concludes (err x, s) = Unit

  refused_lease :
      (e : LeaseError) (r : Registry)
      → acquired ≡ (err e, r)
      → r.leases ≡ registry.leases
      → Concludes (
          end_aborted h plan
            (lease_unavailable e)
            (record (start h plan registry world) { registry = r }))
  unfolding abort_indeterminate finish release_lease emit record_state new
  refused_lease e r refuses same = never_leased e r refuses same refl refl refl refl

  held_lease :
      (l : Lease) (granted : Registry)
      → acquired ≡ (ok l, granted)
      → l.target_id ≡ plan.lease_target
      → granted.leases ≡ insert plan.lease_target l registry.leases
      → (forever : l.expires_at ≡ none) (listed : lookup l.target_id granted.leases ≡ some l)
      → (x : Result Raised Record × Session W) → Ends h plan l granted.leases whole forever listed x
      → Concludes x
  held_lease l granted grants target leases forever listed (ok r, s) q =
      concluded l granted grants target leases q
  held_lease l granted grants target leases forever listed (err x, s) q = tt

  listed_lease :
      (l : Lease) (ls : Dict Lease)
      → l.target_id ≡ plan.lease_target
      → ls ≡ insert plan.lease_target l registry.leases
      → lookup l.target_id ls ≡ some l
  listed_lease l ls target leases =
      ap (λ x. lookup l.target_id x) leases
      ∙ lookup-insert plan.lease_target l.target_id l registry.leases
      ∙ rw (target, (eq_iff plan.lease_target plan.lease_target).1 refl) refl

  started :
      (l : Lease) (ls : Dict Lease)
      → RunningAt h plan l ls (some l) ls (new (some plan.transaction_id)) []
  unfolding new
  started l ls = record { leased = refl; held = refl; logged = refl; chained = refl; live = refl }

  with_lease-Concludes :
      (x : Result LeaseError Lease × Registry)
      → acquired ≡ x
      → Acquires plan.lease_target registry x
      → whole ≡ with_lease h plan x (start h plan registry world)
      → Concludes (with_lease h plan x (start h plan registry world))
  with_lease-Concludes (ok l, r) grants (forever, target, leases) goes_on =
      let listed : lookup l.target_id r.leases ≡ some l = listed_lease l r.leases target leases in
      held_lease l r grants target leases forever listed _ (
        leased-Runs h plan l r.leases forever listed whole
          (add_note (lease_note l.target_id)
            (record (start h plan registry world) { lease = some l; registry = r }))
          (started l r.leases) goes_on)
  with_lease-Concludes (err (lease_held target holder), r) refuses same goes_on =
      refused_lease (lease_held target holder) r refuses same
  with_lease-Concludes (err empty_target, r) refuses same goes_on = tt
  with_lease-Concludes (err empty_holder, r) refuses same goes_on = tt
  with_lease-Concludes (err ttl_not_positive, r) refuses same goes_on = tt
  with_lease-Concludes (err (lease_not_held target), r) refuses same goes_on = tt

  execute-Concludes : Concludes whole
  unfolding execute_transaction
  execute-Concludes =
      by_contract (validate_channel_contract plan.sheet plan.channel_contract plan.gpo_transaction)
        refl
    where
      by_contract :
          (x : Result ChannelFault (Unit {0}))
          → whole ≡ with_contract h plan x (start h plan registry world)
          → Concludes (with_contract h plan x (start h plan registry world))
      by_contract (err fault) goes_on = tt
      by_contract (ok tt) goes_on =
          with_lease-Concludes acquired refl
            (acquire-Acquires h.lease_clock plan.lease_target plan.lease_holder registry) goes_on

  module _ (r : Record) (s : Session W)
      (returns : execute_transaction h plan registry world ≡ (ok r, s)) where
    conclusion : Concluded r s
    conclusion = subst Concludes returns execute-Concludes

    judged_verified :
        r.state ≡ verified
        → Judged h plan
            (execute_transaction h plan registry world)
            satisfied_status
            r.envelope_result
    judged_verified e = elim conclusion [
      | never_leased x refused refuses same state events fresh unmoved ↦ absurd (cc (e, state))
      | concluded l granted grants target leases q ↦ q.verifies e
    ]

    judged_disproven :
        r.state ≡ disproven
        → Judged h plan
            (execute_transaction h plan registry world)
            disproven_status
            r.envelope_result
    judged_disproven e = elim conclusion [
      | never_leased x refused refuses same state events fresh unmoved ↦ absurd (cc (e, state))
      | concluded l granted grants target leases q ↦ q.disproves e
    ]

    -- A record that is verified has these behind it. The run went on as the pre-oracle from a session,
    -- where it collected facts, read a context, and prepared and armed the transaction over it. From
    -- there the gesture ran to its end, and at one of its callbacks the transaction came to be
    -- attempted: the boundary is declared potentially mutating or a commit point, and a context read
    -- there agreed with the prepared one in session, user and desktop. From the end of the gesture, the
    -- capability's envelope, with the arguments bound, converged over those facts to satisfied, with the
    -- assertion that the record shows: two polls in a row showed one state, the observation of it
    -- satisfies the envelope, and the declared number of observations afterwards showed it again.
    pub verified_record :
        r.state ≡ verified
        → (j : Judged h plan
            (execute_transaction h plan registry world)
            satisfied_status
            r.envelope_result)
          × Verified
              (environment h plan (guid_or_zero j.guid) j.domain)
              j.envelope
              h.python
              (fact_values j.facts)
              (fact_labels j.facts)
              (h.monotonic j.stop.world).1
              j.result
    verified_record e =
        let j = judged_verified e in
        (
          j,
          converge-Verified (environment h plan (guid_or_zero j.guid) j.domain) j.envelope h.python
              (fact_values j.facts) (fact_labels j.facts) j.stop.world j.end j.result j.converged
              j.status_is,
        )

    -- A record that is disproven has these behind it. The run went on as the pre-oracle from a session,
    -- where it collected facts, read a context, and prepared and armed the transaction over it. From
    -- there the gesture ran to its end, and at one of its callbacks the transaction came to be
    -- attempted: the boundary is declared potentially mutating or a commit point, and a context read
    -- there agreed with the prepared one in session, user and desktop. From the end of the gesture, the
    -- capability's envelope, with the arguments bound, converged over those facts to disproven, with the
    -- assertion that the record shows: two polls in a row showed one state, and the assertion of the
    -- observation of it is disproven.
    pub disproven_record :
        r.state ≡ disproven
        → (j : Judged h plan
            (execute_transaction h plan registry world)
            disproven_status
            r.envelope_result)
          × Refuted
              (environment h plan (guid_or_zero j.guid) j.domain)
              j.envelope
              h.python
              (fact_values j.facts)
              (fact_labels j.facts)
              (h.monotonic j.stop.world).1
              j.result
    disproven_record e =
        let j = judged_disproven e in
        (
          j,
          converge-Refuted (environment h plan (guid_or_zero j.guid) j.domain) j.envelope h.python
              (fact_values j.facts) (fact_labels j.facts) j.stop.world j.end j.result j.converged
              j.status_is,
        )

    -- The events of a record are all the events of the transaction at the end, but for a last one to
    -- indeterminate that may be missing. The events of the transaction are the path that it took along
    -- the diagram of its states from its start, numbered from one. The state of the record is the one
    -- that the path leads to, or indeterminate where that is not terminal, so it is always verified,
    -- disproven or indeterminate.
    pub record_refines :
        (missed : List TransitionEvent) × Trail missed
        × (s.txn.events ≡ r.events ++ missed)
        × Chain none 0 s.txn.events s.txn.state
        × (r.state ≡ record_state s.txn.state)
        × (is_terminal_state r.state ≡ true)
    unfolding record_state
    record_refines = elim conclusion [
      | never_leased x refused refuses same state events fresh unmoved ↦ (
        [],
        complete,
        unmoved ∙ ap (λ (es : List TransitionEvent). es ++ []) (sym events),
        rw (unmoved, fresh) refl,
        by_fresh fresh state,
        rw state refl,
      )
      | concluded l granted grants target leases q ↦ (
        q.missed,
        q.trail,
        q.history,
        subst (λ es. Chain none 0 es s.txn.state) (sym q.history) q.chained,
        q.state_is,
        q.terminal,
      )
    ]
      where
        by_fresh : s.txn.state ≡ none → r.state ≡ indeterminate → r.state ≡ record_state s.txn.state
        by_fresh fresh state = rw fresh state

    -- When a record is returned, either the console's lease was acquired: then its target is free at
    -- the end and every other target is as it was before the run. Or the acquisition was refused: then
    -- the leases are all as they were, and the record and the transaction have no events.
    pub record_releases :
        ((l : Lease) × (granted : Registry) × (acquire h.lease_clock plan.lease_target
              plan.lease_holder none registry
            ≡ (ok l, granted))
          × ((target : String)
              → lookup target s.registry.leases
                ≡ (if plan.lease_target == target then none else lookup target registry.leases)))
        ⊎ ((e : LeaseError) × (refused : Registry) × (acquire h.lease_clock plan.lease_target
                plan.lease_holder none registry
              ≡ (err e, refused))
            × (s.registry.leases ≡ registry.leases)
            × (r.events ≡ [])
            × (s.txn.events ≡ []))
    record_releases = elim conclusion [
      | never_leased x refused refuses same state events fresh unmoved ↦
          inr (x, refused, refuses, same, events, unmoved)
      | concluded l granted grants target leases q ↦
          inl (l, granted, grants, λ t. freed l granted.leases t target leases q.released)
    ]
      where
        freed :
            (l : Lease) (ls : Dict Lease) (t : String)
            → l.target_id ≡ plan.lease_target
            → ls ≡ insert plan.lease_target l registry.leases
            → s.registry.leases ≡ remove l.target_id ls
            → lookup t s.registry.leases
              ≡ (if plan.lease_target == t then none else lookup t registry.leases)
        freed l ls t target leases released =
            ap (λ x. lookup t x) released
            ∙ lookup-remove l.target_id t ls
            ∙ rw (target, leases, lookup-insert plan.lease_target t l registry.leases)
                (ground arith)
