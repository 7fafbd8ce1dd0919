-- ===== src/Execution/Invariant/Walk.antt =====
-- Every phase, from a session in which the invariant holds, ends as an execution should end.
use windows_console_driver.Prelude.{String, ◌≡◌, refl, Option, none, some, string_eq, option_eq}
use windows_console_driver.Prelude.Results.{Result, ok, err}
use windows_console_driver.Prelude.Dict.{Dict, lookup}
use windows_console_driver.Leases.Registry.{Lease}
use windows_console_driver.Envelope.Assertion.{AssertionResult}
use windows_console_driver.RunSheets.Executor.{sheet_error, foreign, Action, then_do}
use windows_console_driver.RunSheets.Executor.Keeps.{Leaves, Keeps}
use windows_console_driver.Execution.{
  Exception, HostError, Raised, Message, Session, Host, Plan, Record, on_world, try_do,
  abort_indeterminate,
}
use windows_console_driver.Execution.Ending.{clean_up, end_aborted, end_cleaned}
use windows_console_driver.Execution.Invariant.{Running, Ending, Passing}
use windows_console_driver.Execution.Invariant.Endings.{abort-Ending}
use windows_console_driver.Execution.Invariant.Steps.{RunningKeeps, on_world-Keeps, clean_up-Ending}
use windows_console_driver.Execution.Invariant.Records.{Ends, finish-Ends}

module _ {W : Type 0} (h : Host W) (plan : Plan) (l : Lease) (ls : Dict Lease)
    (forever : l.expires_at ≡ none) (listed : lookup l.target_id ls ≡ some l)
    (whole : Result Raised Record × Session W) where
  abbrev pub P : Session W → Type 0
  P = Running h plan l ls

  abbrev pub F : Exception → Session W → Type 0
  F = Passing h plan l ls

  abbrev pub Ended : Result Raised Record × Session W → Type 0
  Ended = Ends h plan l ls whole forever listed

  -- A phase that the whole run goes on with, from where the invariant holds, ends as it should.
  abbrev pub Runs : Action (Session W) Exception Record → Type 0
  Runs m = (s : Session W) → P s → whole ≡ m s → Ended (m s)

  -- A phase that ends as it should from wherever the invariant holds.
  abbrev pub Closes : Action (Session W) Exception Record → Type 0
  Closes m = (s : Session W) → P s → Ended (m s)

  pub then_do-Runs :
      {A : Type 0} (m : Action (Session W) Exception A)
      (f : A → Action (Session W) Exception Record)
      → RunningKeeps h plan l ls m
      → ((a : A) → Runs (f a))
      → Runs (then_do m f)
  then_do-Runs {A = A} m f keeps next s q = by_result (m s) (keeps s q)
    where
      by_result :
          (x : Result Raised A × Session W)
          → Leaves P F x
          → whole ≡ then_do (λ _. x) f s
          → Ended (then_do (λ _. x) f s)
      by_result (ok a, s') q' e = next a s' q' e
      by_result (err (sheet_error m j), s') q' e = tt
      by_result (err (foreign x), s') q' e = tt

  pub try_do-Ended :
      {A : Type 0} (m : Action (Session W) Exception A)
      (handler : Raised → Action (Session W) Exception Record)
      (f : A → Action (Session W) Exception Record) (s : Session W)
      → Leaves P F (m s)
      → ((x : Raised) (s' : Session W) → Leaves P F {A = A} (err x, s') → Ended (handler x s'))
      → ((a : A) (s' : Session W) → m s ≡ (ok a, s') → P s' → Ended (f a s'))
      → Ended (try_do m handler f s)
  try_do-Ended {A = A} m handler f s keeps handles next = by_result (m s) refl keeps
    where
      by_result :
          (x : Result Raised A × Session W)
          → m s ≡ x
          → Leaves P F x
          → Ended (try_do (λ _. x) handler f s)
      by_result (ok a, s') e q' = next a s' e q'
      by_result (err x, s') e q' = handles x s' q'

  pub try_do-Runs :
      {A : Type 0} (m : Action (Session W) Exception A)
      (handler : Raised → Action (Session W) Exception Record)
      (f : A → Action (Session W) Exception Record)
      → RunningKeeps h plan l ls m
      → ((x : Raised) (s : Session W) → Leaves P F {A = A} (err x, s) → Ended (handler x s))
      → ((a : A) → Runs (f a))
      → Runs (try_do m handler f)
  try_do-Runs {A = A} m handler f keeps handles next s q = by_result (m s) (keeps s q)
    where
      by_result :
          (x : Result Raised A × Session W)
          → Leaves P F x
          → whole ≡ try_do (λ _. x) handler f s
          → Ended (try_do (λ _. x) handler f s)
      by_result (ok a, s') q' e = next a s' q' e
      by_result (err x, s') q' e = handles x s' q'

  pub end_cleaned-Ended :
      (guid : Option String) (a : Option AssertionResult) (s : Session W)
      → Ending h plan l ls whole a s
      → Ended (end_cleaned h plan guid a s)
  end_cleaned-Ended guid a s q =
      finish-Ends h plan l ls whole forever listed a (clean_up h plan guid s)
        (clean_up-Ending h plan l ls whole a guid s q)

  pub end_aborted-Closes : (reason : Message) → Closes (end_aborted h plan reason)
  end_aborted-Closes reason s q =
      finish-Ends h plan l ls whole forever listed none (abort_indeterminate h plan reason s)
        (abort-Ending h plan l ls whole reason s q)

  pub abort_cleaned :
      (guid : Option String) (reason : Message) (s : Session W)
      → P s
      → Ended (end_cleaned h plan guid none (abort_indeterminate h plan reason s))
  abort_cleaned guid reason s q =
      end_cleaned-Ended guid none (abort_indeterminate h plan reason s)
        (abort-Ending h plan l ls whole reason s q)

  -- What the host alone runs leaves the invariant however it ends.
  abbrev pub Plain : {A : Type 0} → Action (Session W) Exception A → Type 0
  Plain = Keeps P (λ _. P)

  pub on_world-Plain : {A : Type 0} (f : W → Result HostError A × W) → Plain (on_world f)
  on_world-Plain f = on_world-Keeps P (λ _. P) (λ s w q. q) (λ text s q. q) f

  plain_handler :
      (A : Type 0) (handler : Raised → Action (Session W) Exception Record)
      → ((x : Raised) → Closes (handler x))
      → (x : Raised) (s : Session W) → Leaves P (λ _. P) {A = A} (err x, s)
      → Ended (handler x s)
  plain_handler A handler handles (sheet_error m j) s q = handles (sheet_error m j) s q
  plain_handler A handler handles (foreign x) s q = handles (foreign x) s q

  pub try_world-Runs :
      {A : Type 0} (m : Action (Session W) Exception A)
      (handler : Raised → Action (Session W) Exception Record)
      (f : A → Action (Session W) Exception Record)
      → Plain m
      → ((x : Raised) → Closes (handler x))
      → ((a : A) (s s' : Session W)
          → m s ≡ (ok a, s')
          → P s'
          → whole ≡ try_do m handler f s
          → whole ≡ f a s'
          → Ended (f a s'))
      → Runs (try_do m handler f)
  try_world-Runs {A = A} m handler f keeps handles next s q w = by_result (m s) refl (keeps s q) w
    where
      by_result :
          (x : Result Raised A × Session W)
          → m s ≡ x
          → Leaves P (λ _. P) x
          → whole ≡ try_do (λ _. x) handler f s
          → Ended (try_do (λ _. x) handler f s)
      by_result (ok a, s') e q' v = next a s s' e q' w v
      by_result (err x, s') e q' v = plain_handler A handler handles x s' q'
