-- ===== src/Execution/Invariant/Gating.antt =====
-- The gates before the setup of src/wcd/exec_transaction.py: what they let pass, and what they leave
-- when they refuse.
use windows_console_driver.Prelude.{
  String, ◌≡◌, refl, ap, Bool, true, false, ◌||◌, Option, none, some, List, [], ◌∷◌, All, ◌==◌,
  string_eq, option_eq, option_beq_iff, eq_iff, ◌∙◌, if-elim,
}
use windows_console_driver.Prelude.Results.{Result, ok, err}
use windows_console_driver.Prelude.Dict.{Dict, lookup, remove}
use windows_console_driver.Leases.Registry.{Lease}
use windows_console_driver.Leases.Context.{InteractiveContext}
use windows_console_driver.RunSheets.Executor.{sheet_error, foreign, Action, then_do}
use windows_console_driver.RunSheets.Executor.Keeps.{Leaves}
use windows_console_driver.Execution.{
  ExecMessage, Exception, exec_error, transaction_raised, lease_raised, envelope_raised, unforeseen,
  HostError, sheet_failed, host_failed, host_result, Raised, fingerprint_note, HelperResult,
  file_version_request, Session, Baseline, ui_language, binary_version, Host, Plan, Record,
  add_note, on_world, try_do, release_lease,
}
use windows_console_driver.Execution.Helper.{helper_context, helper_file_version, version_result}
use windows_console_driver.Execution.Gates.{
  has_digest, is_language, fingerprint_of, language_of, gate_refused, gate_context, check_digest,
  check_version, check_baseline, check_baselines, check_surface,
}
use windows_console_driver.Execution.Invariant.{Running, Passing}
use windows_console_driver.Execution.Invariant.Steps.{helper_context-Keeps}
use windows_console_driver.Execution.Invariant.Records.{release_from-eq}

module _ {W : Type 0} (h : Host W) (plan : Plan) (l : Lease) (ls : Dict Lease)
    (forever : l.expires_at ≡ none) (listed : lookup l.target_id ls ≡ some l) where
  abbrev P : Session W → Type 0
  P = Running h plan l ls

  abbrev F : Exception → Session W → Type 0
  F = Passing h plan l ls

  abbrev IsReleased : Session W → Type 0
  IsReleased s = s.registry.leases ≡ remove l.target_id ls

  -- A banked value was observed: the language in the one context that the gates read, the version of
  -- a file in a read of its own.
  abbrev pub Observed : Option InteractiveContext → Baseline → Type 0
  Observed context (ui_language banked) = language_of context ≡ some banked
  Observed context (binary_version path banked) =
      (s s' : Session W) × (error : Option String) × (helper_file_version h path s
        ≡ (ok (some banked, error), s'))

  -- What the gates found from the session `s` on: the context is one that the helper showed in `s`.
  pub record Qualified (s : Session W) : Type 0 where
    pub context : Option InteractiveContext
    pub read :
        (c : InteractiveContext)
        → context ≡ some c
        → (s' : Session W) × (helper_context h s ≡ (ok c, s'))
    pub digest :
        (banked : String) → plan.banked_digest ≡ some banked → fingerprint_of context ≡ some banked
    pub values : All (Observed context) plan.baseline_values

  -- What a gate leaves: the invariant and what it found, or a released lease with its refusal.
  abbrev OnGate : {A : Type 0} → (A → Type 0) → Result Raised A × Session W → Type 0
  OnGate Q (ok a, s) = P s × Q a
  OnGate Q (err (foreign (exec_error m)), s) = IsReleased s
  OnGate Q (err x, s) = Unit

  release_lease-IsReleased : (s : Session W) → P s → IsReleased (release_lease h plan s)
  unfolding release_lease
  release_lease-IsReleased s q =
      rw (release_from-eq h plan l ls forever listed s q.held s.lease q.leased)
        (ap (λ x. remove l.target_id x) q.held)

  then_do-OnGate :
      {A B : Type 0} (Q : A → Type 0) (R : B → Type 0) (m : Action (Session W) Exception A)
      (f : A → Action (Session W) Exception B) (s : Session W)
      → OnGate Q (m s)
      → ((a : A) (s' : Session W) → P s' → Q a → OnGate R (f a s'))
      → OnGate R (then_do m f s)
  then_do-OnGate {A = A} Q R m f s start next = by_result (m s) start
    where
      by_result : (x : Result Raised A × Session W) → OnGate Q x → OnGate R (then_do (λ _. x) f s)
      by_result (ok a, s') q = next a s' q.0 q.1
      by_result (err (foreign (exec_error m)), s') q = q
      by_result (err (foreign (transaction_raised e)), s') q = tt
      by_result (err (foreign (lease_raised e)), s') q = tt
      by_result (err (foreign (envelope_raised e)), s') q = tt
      by_result (err (foreign (unforeseen e)), s') q = tt
      by_result (err (sheet_error m j), s') q = tt

  abbrev Shown : Session W → Option InteractiveContext → Type 0
  Shown s context =
      (c : InteractiveContext)
      → context ≡ some c
      → (s' : Session W) × (helper_context h s ≡ (ok c, s'))

  gate_context-OnGate : (s : Session W) → P s → OnGate (Shown s) (gate_context h plan s)
  unfolding gate_context
  gate_context-OnGate s q =
      if-elim
        (λ (m : Action (Session W) Exception (Option InteractiveContext)). OnGate (Shown s) (m s))
        (has_digest plan.banked_digest || is_language plan.baseline_values)
        (λ _. by_result (helper_context h s) refl (helper_context-Keeps h plan l ls s q))
        (λ _. (q, λ c none_is. absurd (cc none_is)))
    where
      by_result :
          (x : Result Raised InteractiveContext × Session W)
          → helper_context h s ≡ x
          → Leaves P F x
          → OnGate
              (Shown s)
              (try_do (λ (_ : Session W). x) (gate_refused h plan) (λ c s. (ok (some c), s)) s)
      by_result (ok c, s') read q' = (q', λ d same. (s', read ∙ ap (λ x. (x, s')) (cc same)))
      by_result (err (foreign (exec_error m)), s') read q' = release_lease-IsReleased s' q'
      by_result (err (foreign (transaction_raised e)), s') read q' = tt
      by_result (err (foreign (lease_raised e)), s') read q' = tt
      by_result (err (foreign (envelope_raised e)), s') read q' = tt
      by_result (err (foreign (unforeseen e)), s') read q' = tt
      by_result (err (sheet_error m j), s') read q' = tt

  check_digest-OnGate :
      (digest : Option String) (context : Option InteractiveContext) (s : Session W)
      → P s
      → OnGate
          (λ _. (banked : String) → digest ≡ some banked → fingerprint_of context ≡ some banked)
          (check_digest h plan digest context s)
  check_digest-OnGate none context s q = (q, λ banked e. absurd (cc e))
  check_digest-OnGate (some banked) context s q =
      if-elim (OnGate (λ _. (b : String) → some banked ≡ some b → fingerprint_of context ≡ some b))
        (fingerprint_of context == some banked)
        (λ e. (q, λ b same. (option_beq_iff (fingerprint_of context) (some banked)).0 e ∙ same))
        (λ e.
          release_lease-IsReleased (add_note (fingerprint_note banked (fingerprint_of context)) s)
            q)

  on_world-OnGate :
      {A : Type 0} (f : W → Result HostError A × W) (s : Session W)
      → P s
      → OnGate (λ _. Unit {0}) (on_world f s)
  on_world-OnGate {A = A} f s q = by_result (f s.world)
    where
      by_result :
          (x : Result HostError A × W)
          → OnGate (λ _. Unit {0}) (host_result x.0, record s { world = x.1 })
      by_result (ok a, w) = (q, tt)
      by_result (err (sheet_failed m), w) = tt
      by_result (err (host_failed text), w) = tt

  helper_file_version-OnGate :
      (path : String) (s : Session W) → P s → OnGate (λ _. Unit {0}) (helper_file_version h path s)
  unfolding helper_file_version
  helper_file_version-OnGate path s q =
      then_do-OnGate (λ _. Unit {0}) (λ _. Unit {0})
        (on_world (h.helper (file_version_request path)))
        (λ (result : HelperResult). version_result h (result.outcome == "ok") result) s
        (on_world-OnGate (h.helper (file_version_request path)) s q)
        (λ result s' q' _. by_outcome (result.outcome == "ok") result s' q')
    where
      by_outcome :
          (b : Bool) (result : HelperResult) (s' : Session W)
          → P s'
          → OnGate (λ _. Unit {0}) (version_result h b result s')
      by_outcome true result s' q' = (q', tt)
      by_outcome false result s' q' = (q', tt)

  check_baseline-OnGate :
      (b : Baseline) (context : Option InteractiveContext) (s : Session W)
      → P s
      → OnGate (λ _. Observed context b) (check_baseline h plan b context s)
  check_baseline-OnGate (ui_language banked) context s q =
      if-elim (OnGate (λ _. Observed context (ui_language banked)))
        (language_of context == some banked)
        (λ e. (q, (option_beq_iff (language_of context) (some banked)).0 e))
        (λ e. release_lease-IsReleased s q)
  check_baseline-OnGate (binary_version path banked) context s q =
      by_result (helper_file_version h path s) refl (helper_file_version-OnGate path s q)
    where
      by_result :
          (x : Result Raised (Option String × Option String) × Session W)
          → helper_file_version h path s ≡ x
          → OnGate (λ _. Unit {0}) x
          → OnGate
              (λ _. Observed context (binary_version path banked))
              (then_do (λ (_ : Session W). x) (check_version h plan path banked) s)
      by_result (ok (none, error), s') e q' = release_lease-IsReleased s' q'.0
      by_result (ok (some observed, error), s') e q' =
          if-elim (OnGate (λ _. Observed context (binary_version path banked))) (observed == banked)
            (λ same.
              let p : observed ≡ banked = (eq_iff observed banked).0 same in
              (q'.0, (s, s', error, e ∙ ap (λ v. (ok (some v, error), s')) p)))
            (λ differ. release_lease-IsReleased s' q'.0)
      by_result (err (foreign (exec_error m)), s') e q' = q'
      by_result (err (foreign (transaction_raised x)), s') e q' = tt
      by_result (err (foreign (lease_raised x)), s') e q' = tt
      by_result (err (foreign (envelope_raised x)), s') e q' = tt
      by_result (err (foreign (unforeseen x)), s') e q' = tt
      by_result (err (sheet_error m j), s') e q' = tt

  check_baselines-OnGate :
      (bs : List Baseline) (context : Option InteractiveContext) (s : Session W)
      → P s
      → OnGate (λ _. All (Observed context) bs) (check_baselines h plan bs context s)
  unfolding check_baselines
  check_baselines-OnGate [] context s q = (q, tt)
  check_baselines-OnGate (b ∷ bs) context s q =
      then_do-OnGate (λ _. Observed context b) (λ _. All (Observed context) (b ∷ bs))
        (check_baseline h plan b context) (λ _ s'. check_baselines h plan bs context s') s
        (check_baseline-OnGate b context s q)
        (λ _ s' q' first.
          weaken (check_baselines h plan bs context s') first
            (check_baselines-OnGate bs context s' q'))
    where
      weaken :
          (x : Result Raised (Unit {0}) × Session W)
          → Observed context b
          → OnGate (λ _. All (Observed context) bs) x
          → OnGate (λ _. All (Observed context) (b ∷ bs)) x
      weaken (ok a, s') first q' = (q'.0, (first, q'.1))
      weaken (err (foreign (exec_error m)), s') first q' = q'
      weaken (err (foreign (transaction_raised x)), s') first q' = tt
      weaken (err (foreign (lease_raised x)), s') first q' = tt
      weaken (err (foreign (envelope_raised x)), s') first q' = tt
      weaken (err (foreign (unforeseen x)), s') first q' = tt
      weaken (err (sheet_error m j), s') first q' = tt

  -- How the gates before the setup end.
  pub data Gated (next : Action (Session W) Exception Record) (start : Session W)
      : Result Raised Record × Session W → Type 0 where
    passed : (s : Session W) → P s → Qualified start → Gated next start (next s)
    refused :
        (m : ExecMessage) (s : Session W)
        → IsReleased s
        → Gated next start (err (foreign (exec_error m)), s)
    broke :
        (x : Raised) (s : Session W)
        → ((m : ExecMessage) → x ≡ foreign (exec_error m) → ⊥)
        → Gated next start (err x, s)

  then_do-Gated :
      {A : Type 0} (next : Action (Session W) Exception Record) (start : Session W) (Q : A → Type 0)
      (m : Action (Session W) Exception A) (f : A → Action (Session W) Exception Record)
      (s : Session W)
      → OnGate Q (m s)
      → ((a : A) (s' : Session W) → P s' → Q a → Gated next start (f a s'))
      → Gated next start (then_do m f s)
  then_do-Gated {A = A} next start Q m f s first go = by_result (m s) first
    where
      by_result :
          (x : Result Raised A × Session W) → OnGate Q x → Gated next start (then_do (λ _. x) f s)
      by_result (ok a, s') q = go a s' q.0 q.1
      by_result (err (foreign (exec_error m)), s') q = refused m s' q
      by_result (err (foreign (transaction_raised e)), s') q = broke _ s' (λ m p. cc p)
      by_result (err (foreign (lease_raised e)), s') q = broke _ s' (λ m p. cc p)
      by_result (err (foreign (envelope_raised e)), s') q = broke _ s' (λ m p. cc p)
      by_result (err (foreign (unforeseen e)), s') q = broke _ s' (λ m p. cc p)
      by_result (err (sheet_error m j), s') q = broke _ s' (λ m' p. cc p)

  pub check_surface-Gated :
      (next : Action (Session W) Exception Record) (s : Session W)
      → P s
      → Gated next s (check_surface h plan next s)
  unfolding check_surface
  check_surface-Gated next s q =
      then_do-Gated next s (Shown s) (gate_context h plan) _ s (gate_context-OnGate s q)
        (λ context s₁ q₁ read.
          then_do-Gated next s _ (check_digest h plan plan.banked_digest context) _ s₁
            (check_digest-OnGate plan.banked_digest context s₁ q₁)
            (λ _ s₂ q₂ digest.
              then_do-Gated next s _ (check_baselines h plan plan.baseline_values context)
                (λ _. next) s₂ (check_baselines-OnGate plan.baseline_values context s₂ q₂)
                (λ _ s₃ q₃ values.
                  passed s₃ q₃
                    (record { context = context; read = read; digest = digest; values = values }))))
