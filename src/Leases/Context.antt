-- ===== src/Leases/Context.antt =====
-- src/wcd/leases.py: InteractiveContext, context_mismatches and assert_context.
use windows_console_driver.Prelude.{
  String, ◌≡◌, ◌↔◌, refl, Option, none, some, List, [], ◌∷◌, ◌++◌, Eq, ◌==◌, int_eq, string_eq,
  option_eq, ne-of-beq_false, if◌then◌else◌, Bool-cases, inl, inr, All, All-append, ◌≢◌,
}
use windows_console_driver.Prelude.Int.{ℤ}
use windows_console_driver.Prelude.Results.{Result, ok, err}

pub record ForegroundContext : Type 0 where
  pub hwnd : ℤ
  pub pid : ℤ
  pub process : String
  pub fingerprint : String

pub record InteractiveContext : Type 0 where
  pub session_id : ℤ
  pub user : String
  pub desktop : Option String
  pub foreground : Option ForegroundContext
  pub ui_language : Option String

-- The values that a mismatch of each field carries.
pub data FieldValue : Type 0 where
  number : ℤ → FieldValue
  text : String → FieldValue
  optional_text : Option String → FieldValue
  window : Option ForegroundContext → FieldValue

pub data Field : Type 0 where
  session_id_field user_field desktop_field foreground_field : Field
  hwnd_field pid_field process_field fingerprint_field : Field

pub record ContextFieldMismatch : Type 0 where
  pub field : Field
  pub expected : FieldValue
  pub observed : FieldValue

-- One `if expected != observed: append`.
unfoldable pub compare_field {ℓ} :
    {A : Type ℓ} ⦃e : Eq A⦄ → Field → (A → FieldValue) → A → A → List ContextFieldMismatch
compare_field field value a b =
    if a == b then [] else record { field = field; expected = value a; observed = value b } ∷ []

unfoldable pub foreground_mismatches :
    Option ForegroundContext → Option ForegroundContext → List ContextFieldMismatch
foreground_mismatches none none = []
foreground_mismatches (some a) (some b) =
    compare_field hwnd_field number a.hwnd b.hwnd
    ++ (compare_field pid_field number a.pid b.pid
        ++ (compare_field process_field text a.process b.process
            ++ compare_field fingerprint_field text a.fingerprint b.fingerprint))
foreground_mismatches a b =
    record { field = foreground_field; expected = window a; observed = window b } ∷ []

unfoldable pub context_mismatches :
    InteractiveContext → InteractiveContext → List ContextFieldMismatch
context_mismatches expected observed =
    compare_field session_id_field number expected.session_id observed.session_id
    ++ (compare_field user_field text expected.user observed.user
        ++ (compare_field desktop_field optional_text expected.desktop observed.desktop
            ++ foreground_mismatches expected.foreground observed.foreground))

compare_field_self {ℓ} :
    {A : Type ℓ} ⦃e : Eq A⦄ (f : Field) (v : A → FieldValue) (a : A) → compare_field f v a a ≡ []
unfolding compare_field
compare_field_self ⦃e⦄ f v a = rw ((e.beq_iff a a).1 refl)

-- `err` is the exception ContextMismatch.
abbrev raise_mismatches : List ContextFieldMismatch → Result (List ContextFieldMismatch) (Unit {0})
raise_mismatches [] = ok tt
raise_mismatches (m ∷ ms) = err (m ∷ ms)

unfoldable pub assert_context :
    InteractiveContext → InteractiveContext → Result (List ContextFieldMismatch) (Unit {0})
assert_context expected observed = raise_mismatches (context_mismatches expected observed)

-- The contexts agree in all that is compared at a commit point: all but the UI language.
pub record SameContext (a b : InteractiveContext) : Type 0 where
  pub session_id : a.session_id ≡ b.session_id
  pub user : a.user ≡ b.user
  pub desktop : a.desktop ≡ b.desktop
  pub foreground : a.foreground ≡ b.foreground

compare_field-nil {ℓ} :
    {A : Type ℓ} ⦃e : Eq A⦄ (f : Field) (v : A → FieldValue) (a b : A)
    → (compare_field f v a b ≡ []) ↔ (a ≡ b)
unfolding compare_field
compare_field-nil ⦃e⦄ f v a b = elim (Bool-cases (a == b)) [
  | inl same ↦ rw same (λ _. (e.beq_iff a b).0 same, λ _. refl)
  | inr differ ↦ rw differ (λ h. cc, λ p. absurd (ne-of-beq_false a b differ p))
]

append-nil_iff {ℓ} : {A : Type ℓ} (xs ys : List A) → (xs ++ ys ≡ []) ↔ ((xs ≡ []) × (ys ≡ []))
append-nil_iff [] ys = (λ h. (refl, h), λ h. h.1)
append-nil_iff (x ∷ xs) ys = (λ h. cc, λ h. cc h.0)

same_window :
    {a b : ForegroundContext}
    → a.hwnd ≡ b.hwnd
    → a.pid ≡ b.pid
    → a.process ≡ b.process
    → a.fingerprint ≡ b.fingerprint
    → some a ≡ some b
same_window p q r t = λ i. some (record { hwnd = p i; pid = q i; process = r i; fingerprint = t i })

foreground_self : (a : Option ForegroundContext) → foreground_mismatches a a ≡ []
unfolding foreground_mismatches
foreground_self none = refl
foreground_self (some a) = simp compare_field_self

nil-foreground : (a b : Option ForegroundContext) → foreground_mismatches a b ≡ [] → a ≡ b
unfolding foreground_mismatches
nil-foreground none none h = refl
nil-foreground none (some b) h = cc
nil-foreground (some a) none h = cc
nil-foreground (some a) (some b) h =
    let (p, h₁) = (append-nil_iff (compare_field hwnd_field number a.hwnd b.hwnd) _).0 h in
    let (q, h₂) = (append-nil_iff (compare_field pid_field number a.pid b.pid) _).0 h₁ in
    let (r, t) = (append-nil_iff (compare_field process_field text a.process b.process) _).0 h₂ in
    same_window ((compare_field-nil hwnd_field number a.hwnd b.hwnd).0 p)
      ((compare_field-nil pid_field number a.pid b.pid).0 q)
      ((compare_field-nil process_field text a.process b.process).0 r)
      ((compare_field-nil fingerprint_field text a.fingerprint b.fingerprint).0 t)

nil-context : (a b : InteractiveContext) → context_mismatches a b ≡ [] → SameContext a b
unfolding context_mismatches
nil-context a b h =
    let (p, h₁) =
      (append-nil_iff (compare_field session_id_field number a.session_id b.session_id) _).0 h in
    let (q, h₂) = (append-nil_iff (compare_field user_field text a.user b.user) _).0 h₁ in
    let (r, t) =
      (append-nil_iff (compare_field desktop_field optional_text a.desktop b.desktop) _).0 h₂ in
    record {
      session_id = (compare_field-nil session_id_field number a.session_id b.session_id).0 p;
      user = (compare_field-nil user_field text a.user b.user).0 q;
      desktop = (compare_field-nil desktop_field optional_text a.desktop b.desktop).0 r;
      foreground = nil-foreground a.foreground b.foreground t;
    }

context-nil : (a b : InteractiveContext) → SameContext a b → context_mismatches a b ≡ []
unfolding context_mismatches
context-nil a b s =
    rw (s.session_id, s.user, s.desktop, s.foreground, foreground_self b.foreground)
      (simp compare_field_self)

raise_mismatches-ok : (ms : List ContextFieldMismatch) → (raise_mismatches ms ≡ ok tt) ↔ (ms ≡ [])
raise_mismatches-ok [] = (λ _. refl, λ _. refl)
raise_mismatches-ok (m ∷ ms) = (λ h. cc, λ h. cc)

-- assert_context accepts exactly the contexts that agree in session, user, desktop and every part of
-- the foreground window; the UI language is left out.
pub assert_context_exact :
    (expected observed : InteractiveContext)
    → (assert_context expected observed ≡ ok tt) ↔ SameContext expected observed
unfolding assert_context
assert_context_exact a b =
    let (there, back) = raise_mismatches-ok (context_mismatches a b) in
    (λ h. nil-context a b (there h), λ s. back (context-nil a b s))

-- What a context shows in a field; a part of the window only where there is a window.
abbrev pub window_part :
    (ForegroundContext → FieldValue) → Option ForegroundContext → Option FieldValue
window_part part none = none
window_part part (some w) = some (part w)

abbrev pub value_of : Field → InteractiveContext → Option FieldValue
value_of session_id_field c = some (number c.session_id)
value_of user_field c = some (text c.user)
value_of desktop_field c = some (optional_text c.desktop)
value_of foreground_field c = some (window c.foreground)
value_of hwnd_field c = window_part (λ w. number w.hwnd) c.foreground
value_of pid_field c = window_part (λ w. number w.pid) c.foreground
value_of process_field c = window_part (λ w. text w.process) c.foreground
value_of fingerprint_field c = window_part (λ w. text w.fingerprint) c.foreground

abbrev pub IsTrueReport : InteractiveContext → InteractiveContext → ContextFieldMismatch → Type 0
IsTrueReport a b m =
    (value_of m.field a ≡ some m.expected)
    × (value_of m.field b ≡ some m.observed)
    × (m.expected ≢ m.observed)

-- The constructors of the field values are injective.
number-injective : (a b : ℤ) → number a ≡ number b → a ≡ b
number-injective a b h = cc

text-injective : (a b : String) → text a ≡ text b → a ≡ b
text-injective a b h = cc

optional_text-injective : (a b : Option String) → optional_text a ≡ optional_text b → a ≡ b
optional_text-injective a b h = cc

module _ (x y : InteractiveContext) {A : Type 0} ⦃e : Eq A⦄ (f : Field) (v : A → FieldValue) where
  compare_field_sound :
      (a b : A)
      → ((c d : A) → v c ≡ v d → c ≡ d)
      → value_of f x ≡ some (v a)
      → value_of f y ≡ some (v b)
      → All (IsTrueReport x y) (compare_field f v a b)
  unfolding compare_field
  compare_field_sound a b inj p q = elim (Bool-cases (a == b)) [
    | inl same ↦ rw same tt
    | inr differ ↦ rw differ ((p, q, λ h. ne-of-beq_false a b differ (inj a b h)), tt)
  ]

foreground_sound :
    (x y : InteractiveContext) (a b : Option ForegroundContext)
    → x.foreground ≡ a
    → y.foreground ≡ b
    → All (IsTrueReport x y) (foreground_mismatches a b)
unfolding foreground_mismatches
foreground_sound x y none none p q = tt
foreground_sound x y none (some b) p q = ((cc p, cc q, λ h. cc), tt)
foreground_sound x y (some a) none p q = ((cc p, cc q, λ h. cc), tt)
foreground_sound x y (some a) (some b) p q =
    All-append (IsTrueReport x y) (compare_field hwnd_field number a.hwnd b.hwnd) _
      (compare_field_sound x y hwnd_field number a.hwnd b.hwnd number-injective (rw p) (rw q))
      (All-append (IsTrueReport x y) (compare_field pid_field number a.pid b.pid) _
        (compare_field_sound x y pid_field number a.pid b.pid number-injective (rw p) (rw q))
        (All-append (IsTrueReport x y) (compare_field process_field text a.process b.process) _
          (compare_field_sound x y process_field text a.process b.process text-injective (rw p)
            (rw q))
          (compare_field_sound x y fingerprint_field text a.fingerprint b.fingerprint text-injective
            (rw p) (rw q))))

-- Every mismatch that is reported names a field in which the contexts differ, with the value of each.
pub context_mismatches_sound :
    (expected observed : InteractiveContext)
    → All (IsTrueReport expected observed) (context_mismatches expected observed)
unfolding context_mismatches
context_mismatches_sound x y =
    All-append (IsTrueReport x y) (compare_field session_id_field number x.session_id y.session_id)
      _
      (compare_field_sound x y session_id_field number x.session_id y.session_id number-injective
        refl refl)
      (All-append (IsTrueReport x y) (compare_field user_field text x.user y.user) _
        (compare_field_sound x y user_field text x.user y.user text-injective refl refl)
        (All-append (IsTrueReport x y)
          (compare_field desktop_field optional_text x.desktop y.desktop) _
          (compare_field_sound x y desktop_field optional_text x.desktop y.desktop
            optional_text-injective refl refl)
          (foreground_sound x y x.foreground y.foreground refl refl)))
