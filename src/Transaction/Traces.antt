-- ===== src/Transaction/Traces.antt =====
-- What the calls made on a transaction of src/wcd/transaction.py must have been.
use mathlib.Core.List.{append-nil, append_assoc}
use mathlib.Core.Path.{subst, subst₂}
use windows_console_driver.Prelude.{
  ℕ, ◌<◌, String, ◌≡◌, refl, sym, ap, ◌∙◌, Bool, true, false, not, ◌⊎◌, inl, inr, Option, none,
  some, List, [], ◌∷◌, ◌++◌, map, ◌&&◌, length, length-append, arith,
}
use windows_console_driver.Transaction.{
  State, prepared, armed, commit_attempted, verified, disproven, indeterminate, TransitionEvent,
  Transaction, Preconditions, Flag, missing_flags, prepare, prepare_fresh, prepare_from, transition,
  refuse, refuse_replay,
}
use windows_console_driver.Transaction.Diagram.{rank?, rank-lt, Chain}
use windows_console_driver.Transaction.Calls.{
  Call, prepare_call, arm_call, commit_call, resolve_call, mark_call, call, run,
}
use windows_console_driver.Transaction.Effects.{Moved, Effect, moved, refused, stopped, call-Effect}

-- The calls that may bring the machine into a state, by their arguments alone.
abbrev pub justifies : State → Call → Bool
justifies prepared (prepare_call p reason) = p.pre_oracle && (p.lease && (p.context && p.recovery))
justifies armed (arm_call reason) = true
justifies commit_attempted (commit_call boundary declared reason) = declared
justifies verified (resolve_call satisfied reproduced text reason) = satisfied && reproduced
justifies disproven (resolve_call satisfied reproduced text reason) = not satisfied
justifies indeterminate (commit_call boundary declared reason) = not declared
justifies indeterminate (resolve_call satisfied reproduced text reason) =
    satisfied && not reproduced
justifies indeterminate (mark_call reason) = true
justifies s c = false

abbrev justified_state : Call → Option State → Bool
justified_state c none = false
justified_state c (some s) = justifies s c

pub lt_self : (n : ℕ) → n < n → ⊥
lt_self n h = omega arith

-- The states in their order, each brought about by a call of its own, in the order of the calls.
pub data Justified : List State → List Call → Type 0 where
  done : {cs : List Call} → Justified [] cs
  by :
      {s : State} {ss : List State} {c : Call} {cs : List Call}
      → justifies s c ≡ true
      → Justified ss cs
      → Justified (s ∷ ss) (c ∷ cs)
  idle : {ss : List State} {c : Call} {cs : List Call} → Justified ss cs → Justified ss (c ∷ cs)

missing_flags-nil :
    (p : Preconditions)
    → missing_flags p ≡ []
    → (p.pre_oracle && (p.lease && (p.context && p.recovery))) ≡ true
unfolding missing_flags
missing_flags-nil p h = ground arith

prepare-justifies :
    (p : Preconditions) (reason : String) (t : Transaction)
    → ((prepare p reason t).1.state ≡ t.state)
      ⊎ (justified_state (prepare_call p reason) (prepare p reason t).1.state ≡ true)
unfolding prepare transition refuse
prepare-justifies p reason t = go t.state
  where
    fresh :
        (fs : List Flag)
        → missing_flags p ≡ fs
        → ((prepare_fresh fs reason t).1.state ≡ t.state)
          ⊎ (justified_state (prepare_call p reason) (prepare_fresh fs reason t).1.state ≡ true)
    fresh [] h = inr (missing_flags-nil p h)
    fresh (f ∷ fs) h = inl refl

    go :
        (s : Option State)
        → ((prepare_from s p reason t).1.state ≡ t.state)
          ⊎ (justified_state (prepare_call p reason) (prepare_from s p reason t).1.state ≡ true)
    go none = fresh (missing_flags p) refl
    go (some s) = inl refl

call-justifies :
    (c : Call) (t : Transaction)
    → ((call c t).1.state ≡ t.state) ⊎ (justified_state c (call c t).1.state ≡ true)
unfolding call transition refuse refuse_replay
call-justifies (prepare_call p reason) t = prepare-justifies p reason t
call-justifies (arm_call reason) t = ground arith
call-justifies (commit_call boundary declared reason) t = ground arith
call-justifies (resolve_call satisfied reproduced text reason) t = ground arith
call-justifies (mark_call reason) t = ground arith

-- A step of the diagram changes the state, so the call that took it is a justifying one.
pub Moved-justifies :
    (c : Call) (t : Transaction) (e : TransitionEvent)
    → Moved t e (call c t).1
    → justifies e.to_state c ≡ true
Moved-justifies c t e m = elim (call-justifies c t) [
  | inl same ↦ absurd (
      lt_self (rank? t.state)
        (subst (λ s. rank? t.state < rank? s) (sym m.state ∙ same) (rank-lt m.step)))
  | inr h ↦ subst (λ s. justified_state c s ≡ true) m.state h
]

-- What a list of calls adds to the history of a transaction.
pub record Added (t : Transaction) (cs : List Call) (u : Transaction) (es : List TransitionEvent)
    : Type 0 where
  pub history : u.events ≡ t.events ++ es
  pub chain : Chain t.state (length t.events) es u.state
  pub justified : Justified (map (λ e. e.to_state) es) cs

abbrev pub Adds : Transaction → List Call → Transaction → Type 0
Adds t cs u = (es : List TransitionEvent) × Added t cs u es

Adds-Moved :
    (t : Transaction) (c : Call) (cs : List Call) (e : TransitionEvent) (u : Transaction)
    → Moved t e (call c t).1
    → Adds (call c t).1 cs u
    → Adds t (c ∷ cs) u
Adds-Moved t c cs e u m (es, a) = (
  e ∷ es,
  record {
    history =
        a.history
        ∙ ap (λ (x : List TransitionEvent). x ++ es) m.events
        ∙ append_assoc t.events (e ∷ []) es;
    chain = (
      m.numbered,
      m.from,
      m.step,
      subst₂ (λ s n. Chain s n es u.state) m.state
          (ap length m.events ∙ length-append t.events (e ∷ [])) a.chain,
    );
    justified = by (Moved-justifies c t e m) a.justified;
  },
)

Adds-refused :
    (t : Transaction) (c : Call) (cs : List Call) (v u : Transaction)
    → v.state ≡ t.state
    → v.events ≡ t.events
    → Adds v cs u
    → Adds t (c ∷ cs) u
Adds-refused t c cs v u same_state same_events (es, a) = (
  es,
  record {
    history = a.history ∙ ap (λ (x : List TransitionEvent). x ++ es) same_events;
    chain = subst₂ (λ s n. Chain s n es u.state) same_state (ap length same_events) a.chain;
    justified = idle a.justified;
  },
)

add_call :
    (t : Transaction) (c : Call) (cs : List Call) (u : Transaction)
    → Effect t (call c t).0 (call c t).1
    → Adds (call c t).1 cs u
    → Adds t (c ∷ cs) u
add_call t c cs u (moved e _ m _) rest = Adds-Moved t c cs e u m rest
add_call t c cs u (refused g x r same) rest =
    Adds-refused t c cs (call c t).1 u (ap (λ (v : Transaction). v.state) same)
      (ap (λ (v : Transaction). v.events) same) rest
add_call t c cs u (stopped e boundary why _ _ m _ _) rest = Adds-Moved t c cs e u m rest

-- Whatever the calls, in whatever state: the history only grows, the new events lead along the
-- diagram from the old state to the new one, and each is the work of a call that its state calls for,
-- in the order of the calls. To be prepared takes a prepare with the four preconditions, to be
-- commit-attempted a declared commit, to be verified a resolve with the envelope and the reproduction
-- both satisfied, to be disproven a resolve with the envelope not satisfied.
pub run-Adds : (t : Transaction) (cs : List Call) → Adds t cs (run t cs)
unfolding run
run-Adds t [] = ([], record { history = sym (append-nil t.events); chain = refl; justified = done })
run-Adds t (c ∷ cs) =
    add_call t c cs (run (call c t).1 cs) (call-Effect c t) (run-Adds (call c t).1 cs)
