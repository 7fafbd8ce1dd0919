-- ===== src/Execution/Invariant/Records.antt =====
-- The end of an execution: the lease is released and the record is written.
use mathlib.Core.Path.{subst}
use windows_console_driver.Prelude.{
  ◌≡◌, refl, sym, ap, ◌∙◌, true, Option, none, some, List, ◌++◌, ◌≢◌, eqb_iff, if-elim,
}
use windows_console_driver.Prelude.Results.{Result, ok, err}
use windows_console_driver.Prelude.Dict.{Dict, lookup, remove}
use windows_console_driver.Transaction.{
  State, verified, disproven, indeterminate, is_terminal_state, TransitionEvent,
}
use windows_console_driver.Transaction.Diagram.{Chain}
use windows_console_driver.Leases.Registry.{
  Clock, Lease, Registry, is_active, is_live, is_same, release,
}
use windows_console_driver.Envelope.Report.{satisfied_status, disproven_status}
use windows_console_driver.Envelope.Assertion.{AssertionResult}
use windows_console_driver.Execution.{
  Raised, Session, Host, Plan, Record, record_state, emit, release_from, release_lease, finish,
}
use windows_console_driver.Execution.Invariant.{Trail, Judged, Ending}

is_same_self : (l : Lease) → is_same (some l) l ≡ true
is_same_self l = (eqb_iff l.ref l.ref).1 refl

pub active_lease :
    (clock : Clock) (l : Lease) (r : Registry)
    → l.expires_at ≡ none
    → lookup l.target_id r.leases ≡ some l
    → is_active clock l r ≡ (true, r)
unfolding is_active is_live
active_lease clock l r forever held = rw (held, is_same_self l, forever) refl

released_lease :
    (l : Lease) (r : Registry)
    → lookup l.target_id r.leases ≡ some l
    → release l r ≡ (ok tt, record r { leases = remove l.target_id r.leases })
unfolding release
released_lease l r held = rw (held, is_same_self l) refl

module _ {W : Type 0} (h : Host W) (plan : Plan) (l : Lease) (ls : Dict Lease)
    (forever : l.expires_at ≡ none) (listed : lookup l.target_id ls ≡ some l) where
  pub release_from-eq :
      (s : Session W)
      → s.registry.leases ≡ ls
      → (o : Option Lease) → o ≡ some l
      → release_from h plan o s ≡ record s {
        registry = record s.registry { leases = remove l.target_id s.registry.leases };
      }
  release_from-eq s held o e =
      let there : lookup l.target_id s.registry.leases ≡ some l =
        ap (λ x. lookup l.target_id x) held ∙ listed in
      subst
        (λ o. release_from h plan o s ≡ record s {
          registry = record s.registry { leases = remove l.target_id s.registry.leases };
        })
        (sym e)
        (rw
          (active_lease h.lease_clock l s.registry forever there, released_lease l s.registry there)
          refl)

module _ {W : Type 0} (h : Host W) (plan : Plan) (l : Lease) (ls : Dict Lease)
    (whole : Result Raised Record × Session W) where
  -- What a record shows: the state of the transaction, or indeterminate; its events, all but a last
  -- one to indeterminate at most; and what stands behind a verdict. The lease is no longer held.
  pub record Recorded (r : Record) (s : Session W) : Type 0 where
    pub released : s.registry.leases ≡ remove l.target_id ls
    pub missed : List TransitionEvent
    pub trail : Trail missed
    pub history : s.txn.events ≡ r.events ++ missed
    pub chained : Chain none 0 (r.events ++ missed) s.txn.state
    pub state_is : r.state ≡ record_state s.txn.state
    pub terminal : is_terminal_state r.state ≡ true
    pub verifies : r.state ≡ verified → Judged h plan whole satisfied_status r.envelope_result
    pub disproves : r.state ≡ disproven → Judged h plan whole disproven_status r.envelope_result

  record_state_terminal : (o : Option State) → is_terminal_state (record_state o) ≡ true
  unfolding record_state
  record_state_terminal none = refl
  record_state_terminal (some s) =
      if-elim (λ x. is_terminal_state x ≡ true) (is_terminal_state s) (λ e. e) (λ e. refl)

  record_state-of :
      (x : State) → x ≢ indeterminate → (o : Option State) → record_state o ≡ x → o ≡ some x
  unfolding record_state
  record_state-of x n none = λ e. absurd (n (sym e))
  record_state-of x n (some s) =
      if-elim (λ (y : State). y ≡ x → some s ≡ some x) (is_terminal_state s) (λ b e. ap some e)
        (λ b e. absurd (n (sym e)))

  module _ (forever : l.expires_at ≡ none) (listed : lookup l.target_id ls ≡ some l) where
    -- How an execution ends: with a record that is as it should be, or by an exception.
    abbrev pub Ends : Result Raised Record × Session W → Type 0
    Ends (ok r, s) = Recorded r s
    Ends (err x, s) = Unit

    pub finish-Ends :
        (a : Option AssertionResult) (s : Session W)
        → Ending h plan l ls whole a s
        → Ends (finish h plan a s)
    unfolding finish release_lease emit
    finish-Ends a s q =
        subst (λ s'. Recorded (emit plan a s') s')
          (sym (release_from-eq h plan l ls forever listed s q.held s.lease q.leased))
          (record {
            released = ap (λ x. remove l.target_id x) q.held;
            missed = q.missed;
            trail = q.trail;
            history = q.trailing;
            chained = subst (λ es. Chain none 0 es s.txn.state) q.trailing q.chained;
            state_is = refl;
            terminal = record_state_terminal s.txn.state;
            verifies = λ e. q.verifies (record_state-of verified (λ x. cc x) s.txn.state e);
            disproves = λ e. q.disproves (record_state-of disproven (λ x. cc x) s.txn.state e);
          })
