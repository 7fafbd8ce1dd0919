-- ===== src/Transaction/Replay.antt =====
-- Replay and verdicts of src/wcd/transaction.py: what commit-attempted rules out, and what a verdict takes.
use mathlib.Core.Path.{subst}
use windows_console_driver.Prelude.{
  ℕ, ◌+◌, ◌≤◌, ◌<◌, String, ◌≡◌, refl, ap, ◌∙◌, Bool, true, false, Option, none, some, List, [],
  ◌∷◌, ◌++◌, map, length, All, arith,
}
use windows_console_driver.Transaction.{
  State, prepared, armed, commit_attempted, verified, disproven, is_terminal_state, TransitionEvent,
  Transaction, new,
}
use windows_console_driver.Transaction.Diagram.{
  ◌⟶◌, preparing, arming, committing, verifying, disproving, stopping, rank, rank?, rank-lt, Chain,
  length-le-rank,
}
use windows_console_driver.Transaction.Calls.{Call, run}
use windows_console_driver.Transaction.Traces.{Justified, run-Adds}

is_terminal-of_rank : (s : State) → 3 < rank s → is_terminal_state s ≡ true
is_terminal-of_rank s h = ground arith

Chain-terminal :
    (s : Option State) (n : ℕ) (es : List TransitionEvent) (u : Option State)
    → 3 ≤ rank? s
    → Chain s n es u
    → All (λ e. is_terminal_state e.to_state ≡ true) es
Chain-terminal s n [] u h c = tt
Chain-terminal s n (e ∷ es) u h c = (
  is_terminal-of_rank e.to_state (omega (arith, rank-lt c.2)),
  Chain-terminal (some e.to_state) (n + 1) es u (omega (arith, rank-lt c.2)) c.3,
)

rank?-le : (s : Option State) → rank? s ≤ 4
rank?-le s = ground arith

-- After commit-attempted nothing is replayed: from a transaction that is commit-attempted or resolved,
-- whatever calls follow, at most one more event is recorded, and it leads to verified, disproven or
-- indeterminate; so no later event is a prepare, an arm or a commit.
pub no_replay :
    (t : Transaction) (cs : List Call)
    → 3 ≤ rank? t.state
    → (es : List TransitionEvent) × ((run t cs).events ≡ t.events ++ es)
      × (length es ≤ 1)
      × All (λ e. is_terminal_state e.to_state ≡ true) es
no_replay t cs h =
    let (es, a) = run-Adds t cs in
    (
      es,
      a.history,
      omega (
        arith,
        length-le-rank t.state (length t.events) es (run t cs).state a.chain,
        rank?-le (run t cs).state,
      ),
      Chain-terminal t.state (length t.events) es (run t cs).state h a.chain,
    )

abbrev pub states_of : List TransitionEvent → List State
states_of = map (λ e. e.to_state)

-- The verdicts that `resolve` reaches, as opposed to the state that has to be reconciled.
abbrev pub is_verdict : State → Bool
is_verdict verified = true
is_verdict disproven = true
is_verdict _ = false

-- What is still ahead of a state on the way to a verdict.
abbrev path_to : State → Option State → List State
path_to v none = prepared ∷ armed ∷ commit_attempted ∷ v ∷ []
path_to v (some prepared) = armed ∷ commit_attempted ∷ v ∷ []
path_to v (some armed) = commit_attempted ∷ v ∷ []
path_to v (some commit_attempted) = v ∷ []
path_to v (some s) = []

-- A chain from a terminal state has no event.
terminal_end :
    (v w : State) (n : ℕ) (es : List TransitionEvent)
    → is_terminal_state w ≡ true
    → Chain (some w) n es (some v)
    → w ≡ v
terminal_end v w n [] h c = cc
terminal_end v w n (e ∷ es) h c =
    absurd (omega (arith, rank-lt c.2, top w h, rank?-le (some e.to_state)))
  where
    top : (x : State) → is_terminal_state x ≡ true → 4 ≤ rank x
    top x k = ground arith

path-step :
    {s : Option State} {w : State} (v : State)
    → s ⟶ w
    → is_verdict v ≡ true
    → (is_terminal_state w ≡ true → w ≡ v)
    → w ∷ path_to v (some w) ≡ path_to v s
path-step v preparing d end = refl
path-step v arming d end = refl
path-step v committing d end = refl
path-step v verifying d end = rw (end refl)
path-step v disproving d end = rw (end refl)
path-step v (stopping s live) d end = cc (end refl)

Chain-path :
    (v : State) (s : Option State) (n : ℕ) (es : List TransitionEvent)
    → is_verdict v ≡ true
    → Chain s n es (some v)
    → states_of es ≡ path_to v s
Chain-path v s n [] d c = rw c (end v d)
  where
    end : (x : State) → is_verdict x ≡ true → ◌≡◌ {A = List State} [] (path_to x (some x))
    end x k = ground arith
Chain-path v s n (e ∷ es) d c =
    ap (λ (ss : List State). e.to_state ∷ ss) (Chain-path v (some e.to_state) (n + 1) es d c.3)
    ∙ path-step v c.2 d (λ h. terminal_end v e.to_state (n + 1) es h c.3)

-- A verdict is reached in one way only. If after some calls on a new transaction the state is
-- verified or disproven, then the events are prepared, armed, commit-attempted and that verdict, and
-- among the calls there were, in this order: a prepare with all four preconditions, an arm, a declared
-- commit, and a resolve with both results satisfied (verified) or the envelope violated (disproven).
pub verdict_history :
    (id : Option String) (cs : List Call) (v : State)
    → is_verdict v ≡ true
    → (run (new id) cs).state ≡ some v
    → (states_of (run (new id) cs).events ≡ prepared ∷ armed ∷ commit_attempted ∷ v ∷ [])
      × Justified (prepared ∷ armed ∷ commit_attempted ∷ v ∷ []) cs
unfolding new
verdict_history id cs v d h =
    let (es, a) = run-Adds (new id) cs in
    let path : states_of es ≡ path_to v none =
      Chain-path v none 0 es d (subst (Chain none 0 es) h a.chain) in
    (ap states_of a.history ∙ path, subst (λ ss. Justified ss cs) path a.justified)
