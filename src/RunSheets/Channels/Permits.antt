-- ===== src/RunSheets/Channels/Permits.antt =====
-- Which run sheets the channel contract of src/wcd/runsheets.py permits.
use windows_console_driver.Prelude.{
  ℕ, suc, String, ◌≡◌, ◌↔◌, refl, Bool, true, false, not, ◌||◌, Option, none, some, List, [], ◌∷◌,
  All, any, Bool-cases, inl, inr, arith,
}
use windows_console_driver.Prelude.Results.{ok, >>=-eq-ok}
use windows_console_driver.Value.{
  Value, null, boolean, int, str, list, tuple, dict, Fields, find_field,
}
use windows_console_driver.Envelope.{member}
use windows_console_driver.Envelope.Delta.{insert_key}
use windows_console_driver.RunSheets.{Step, RunSheet, phase_is}
use windows_console_driver.RunSheets.Channels.{
  input_actions, ui_operation_channels, ChannelFault, oracle_forbidden, requery_forbidden,
  setup_not_programmatic, setup_forbidden, cleanup_not_programmatic, cleanup_forbidden,
  operation_forbidden, input_forbidden, ui_operation_forbidden, Checked, Roles, roles_of,
  required_orientation, missing_channels, is_programmatic, require, declares_com, none_missing,
  check_console_step, check_step, check_steps, validate_channel_contract,
}

abbrev phase_of : Step → Option Value
phase_of step = find_field "phase" step.params

-- What the contract asks of a step, phase by phase.
pub data StepPermitted (roles : Roles) (step : Step) : Type 0 where
  in_setup :
      phase_is "setup" (phase_of step) ≡ true
      → is_programmatic step ≡ true
      → member "powershell" roles.setup ≡ true
      → StepPermitted roles step
  in_cleanup :
      phase_is "setup" (phase_of step) ≡ false
      → phase_is "cleanup" (phase_of step) ≡ true
      → is_programmatic step ≡ true
      → member "powershell" roles.cleanup ≡ true
      → StepPermitted roles step
  by_com :
      phase_is "setup" (phase_of step) ≡ false
      → phase_is "cleanup" (phase_of step) ≡ false
      → is_programmatic step ≡ true
      → declares_com (find_field "channel" step.params) roles.operation ≡ true
      → StepPermitted roles step
  on_console :
      phase_is "setup" (phase_of step) ≡ false
      → phase_is "cleanup" (phase_of step) ≡ false
      → is_programmatic step ≡ false
      → All (λ channel. member channel roles.orientation ≡ true) (required_orientation step)
      → (member step.action input_actions ≡ true
          → (member "helper_input" roles.input_delivery ≡ true)
            × (any (λ channel. member channel ui_operation_channels) roles.operation ≡ true))
      → StepPermitted roles step

insert_key-nil : (k : String) (ks : List String) → insert_key k ks ≡ [] → ⊥
unfolding insert_key
insert_key-nil k [] h = cc h
insert_key-nil k (j ∷ js) h = ground arith

missing_channels-nil :
    (required declared : List String)
    → (missing_channels required declared ≡ [])
      ↔ All (λ channel. member channel declared ≡ true) required
unfolding missing_channels
missing_channels-nil [] declared = (λ _. tt, λ _. refl)
missing_channels-nil (c ∷ cs) declared =
    let (there, back) = missing_channels-nil cs declared in
    elim (Bool-cases (member c declared)) [
      | inl e ↦ rw e (λ h. (refl, there h), λ h. back h.1)
      | inr e ↦ rw e (λ h. absurd (insert_key-nil c _ h), λ h. absurd (cc h.0))
    ]

require-ok :
    (b : Bool) (fault : ChannelFault) (rest : Checked (Unit {0}))
    → (require b fault rest ≡ ok tt) ↔ ((b ≡ true) × (rest ≡ ok tt))
require-ok true fault rest = (λ h. (refl, h), λ h. h.1)
require-ok false fault rest = (λ h. cc h, λ h. cc h.0)

none_missing-ok :
    (i : ℕ) (cs : List String) (rest : Checked (Unit {0}))
    → (none_missing i cs rest ≡ ok tt) ↔ ((cs ≡ []) × (rest ≡ ok tt))
none_missing-ok i [] rest = (λ h. (refl, h), λ h. h.1)
none_missing-ok i (c ∷ cs) rest = (λ h. cc h, λ h. cc h.0)

module _ (roles : Roles) (i : ℕ) (step : Step) where
  abbrev Delivers : Type 0
  Delivers =
      member step.action input_actions ≡ true
      → (member "helper_input" roles.input_delivery ≡ true)
        × (any (λ channel. member channel ui_operation_channels) roles.operation ≡ true)

  abbrev IsOriented : Type 0
  IsOriented = All (λ channel. member channel roles.orientation ≡ true) (required_orientation step)

  two_guards :
      (input helper ui : Bool)
      → (require
            (not input || helper)
            (input_forbidden i)
            (require (not input || ui) (ui_operation_forbidden i) (ok tt))
          ≡ ok tt)
        ↔ (input ≡ true → (helper ≡ true) × (ui ≡ true))
  two_guards true true true = (λ _ _. (refl, refl), λ _. refl)
  two_guards true true false = (λ h. cc h, λ h. cc (h refl).1)
  two_guards true false ui = (λ h. cc h, λ h. cc (h refl).0)
  two_guards false helper ui = (λ _ e. absurd (cc e), λ _. refl)

  console-ok : (check_console_step roles i step ≡ ok tt) ↔ (IsOriented × Delivers)
  unfolding check_console_step
  console-ok =
      let (a, b) =
        none_missing-ok i (missing_channels (required_orientation step) roles.orientation) (
          require
            (not (member step.action input_actions) || member "helper_input" roles.input_delivery)
            (input_forbidden i)
            (require
              (not (member step.action input_actions)
                || any (λ c. member c ui_operation_channels) roles.operation)
              (ui_operation_forbidden i) (ok tt))) in
      let (c, d) = missing_channels-nil (required_orientation step) roles.orientation in
      let (e, f) =
        two_guards (member step.action input_actions) (member "helper_input" roles.input_delivery)
          (any (λ c. member c ui_operation_channels) roles.operation) in
      (λ h. (c (a h).0, e (a h).1), λ h. b (d h.0, f h.1))

  programmatic-ok :
      (fault forbidden : ChannelFault) (allowed : Bool)
      → (require (is_programmatic step) fault (require allowed forbidden (ok tt)) ≡ ok tt)
        ↔ ((is_programmatic step ≡ true) × (allowed ≡ true))
  programmatic-ok fault forbidden allowed =
      let (a, b) = require-ok (is_programmatic step) fault (require allowed forbidden (ok tt)) in
      let (c, d) = require-ok allowed forbidden (ok tt) in
      (λ h. ((a h).0, (c (a h).1).0), λ h. b (h.0, d (h.1, refl)))

  check_step-Permitted : check_step roles i step ≡ ok tt → StepPermitted roles step
  unfolding check_step
  check_step-Permitted = elim (Bool-cases (phase_is "setup" (phase_of step))) [
    | inl a ↦ rw a (λ h.
        let (x, y) = (programmatic-ok (setup_not_programmatic i) (setup_forbidden i) _).0 h in
        in_setup a x y)
    | inr a ↦ elim (Bool-cases (phase_is "cleanup" (phase_of step))) [
      | inl b ↦
          rw (a, b)
            (λ h.
              let (x, y) =
                (programmatic-ok (cleanup_not_programmatic i) (cleanup_forbidden i) _).0 h in
              in_cleanup a b x y)
      | inr b ↦ elim (Bool-cases (is_programmatic step)) [
        | inl c ↦
            rw (a, b, c) (λ h. by_com a b c ((require-ok _ (operation_forbidden i) (ok tt)).0 h).0)
        | inr c ↦ rw (a, b, c) (λ h. on_console a b c (console-ok.0 h).0 (console-ok.0 h).1)
      ]
    ]
  ]

  Permitted-check_step : StepPermitted roles step → check_step roles i step ≡ ok tt
  unfolding check_step
  Permitted-check_step (in_setup a x y) =
      rw a ((programmatic-ok (setup_not_programmatic i) (setup_forbidden i) _).1 (x, y))
  Permitted-check_step (in_cleanup a b x y) =
      rw (a, b) ((programmatic-ok (cleanup_not_programmatic i) (cleanup_forbidden i) _).1 (x, y))
  Permitted-check_step (by_com a b c x) =
      rw (a, b, c) ((require-ok _ (operation_forbidden i) (ok tt)).1 (x, refl))
  Permitted-check_step (on_console a b c x y) = rw (a, b, c) (console-ok.1 (x, y))

check_steps-ok :
    (roles : Roles) (i : ℕ) (steps : List Step)
    → (check_steps roles i steps ≡ ok tt) ↔ All (StepPermitted roles) steps
unfolding check_steps
check_steps-ok roles i [] = (λ _. tt, λ _. refl)
check_steps-ok roles i (step ∷ steps) =
    let (there, back) = check_steps-ok roles (suc i) steps in
    (
      λ h.
          let (u, first, rest) =
            >>=-eq-ok (check_step roles i step) (λ _. check_steps roles (suc i) steps) h in
          (check_step-Permitted roles i step first, there rest),
      λ h. rw (Permitted-check_step roles i step h.0) (back h.1),
    )

-- What a contract permits: its roles are lists of texts, the oracle and, where cleanup queries again,
-- the cleanup have their channels, and every step is permitted.
pub record Permits (contract : Option Value) (requery : Bool) (sheet : RunSheet) : Type 0 where
  pub fields : Fields
  pub roles : Roles
  pub declared : contract ≡ some (dict fields)
  pub decoded : roles_of fields ≡ ok roles
  pub observes : member "gpo_observers" roles.oracle ≡ true
  pub requeries : (not requery || member "programmatic_requery" roles.cleanup) ≡ true
  pub permitted : All (StepPermitted roles) sheet.steps

module _ (sheet : RunSheet) (requery : Bool) where
  abbrev after_roles : Roles → Checked (Unit {0})
  after_roles roles = require (member "gpo_observers" roles.oracle) oracle_forbidden (
      require (not requery || member "programmatic_requery" roles.cleanup) requery_forbidden
        (check_steps roles 0 sheet.steps))

  validate-Permits :
      (contract : Option Value)
      → validate_channel_contract sheet contract requery ≡ ok tt
      → Permits contract requery sheet
  unfolding validate_channel_contract
  validate-Permits (some (dict fs)) = λ h.
      let (roles, decoded, rest) = >>=-eq-ok (roles_of fs) after_roles h in
      let (observes, rest₁) = (require-ok _ oracle_forbidden _).0 rest in
      let (requeries, rest₂) = (require-ok _ requery_forbidden _).0 rest₁ in
      record {
        fields = fs;
        roles = roles;
        declared = refl;
        decoded = decoded;
        observes = observes;
        requeries = requeries;
        permitted = (check_steps-ok roles 0 sheet.steps).0 rest₂;
      }
  validate-Permits none = λ h. absurd (cc h)
  validate-Permits (some null) = λ h. absurd (cc h)
  validate-Permits (some (boolean b)) = λ h. absurd (cc h)
  validate-Permits (some (int n)) = λ h. absurd (cc h)
  validate-Permits (some (str s)) = λ h. absurd (cc h)
  validate-Permits (some (list vs)) = λ h. absurd (cc h)
  validate-Permits (some (tuple vs)) = λ h. absurd (cc h)

  Permits-validate :
      (contract : Option Value)
      → Permits contract requery sheet
      → validate_channel_contract sheet contract requery ≡ ok tt
  unfolding validate_channel_contract
  Permits-validate contract p =
      rw (p.declared, p.decoded, p.observes, p.requeries)
        ((check_steps-ok p.roles 0 sheet.steps).1 p.permitted)

  -- The channel contract accepts a sheet exactly when it is an object whose six roles are lists of
  -- texts, the oracle role has gpo_observers, the cleanup role has programmatic_requery where that is
  -- required, and each step is permitted. A setup or cleanup step must be a guest or host step with
  -- powershell in its role. Any other guest or host step must declare the channel gpmc_com and the
  -- operation role have it. Any other step needs every orientation channel that it uses and, if it
  -- delivers input, helper_input and a UI channel of the operation role.
  pub validate_channel_contract_exact :
      (contract : Option Value)
      → (validate_channel_contract sheet contract requery ≡ ok tt) ↔ Permits contract requery sheet
  validate_channel_contract_exact contract = (validate-Permits contract, Permits-validate contract)
