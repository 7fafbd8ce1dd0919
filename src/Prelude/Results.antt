-- ===== src/Prelude/Results.antt =====
-- A computation that returns a value or raises an exception of type `E`.
use mathlib.Core.Path.{◌≡◌, refl}
use mathlib.Core.Logic.{◌⊎◌, inl, inr}

pub data Result {ℓ} (E : Type ℓ) (A : Type ℓ) : Type ℓ where
  ok : A → Result E A
  err : E → Result E A

infixl 5 ◌>>=◌
abbrev pub ◌>>=◌ {ℓ} : {E A B : Type ℓ} → Result E A → (A → Result E B) → Result E B
ok a >>= f = f a
err e >>= f = err e

-- A chain that returns went through both of its parts.
pub >>=-eq-ok {ℓ} :
    {E X Y : Type ℓ} (first : Result E X) (next : X → Result E Y) {y : Y}
    → (first >>= next) ≡ ok y
    → (x : X) × (first ≡ ok x) × (next x ≡ ok y)
>>=-eq-ok (err e) next h = cc h
>>=-eq-ok (ok x) next h = (x, refl, h)

-- A chain that raises does so in one of them.
pub >>=-eq-err {ℓ} :
    {E A B : Type ℓ} (m : Result E A) (f : A → Result E B) {e : E}
    → (m >>= f) ≡ err e
    → (m ≡ err e) ⊎ ((a : A) × (m ≡ ok a) × (f a ≡ err e))
>>=-eq-err (ok a) f h = inr (a, refl, h)
>>=-eq-err (err e) f h = inl (cc h)

-- A result that is returned has the property.
abbrev pub Ensures : {E A : Type 0} → (A → Type 0) → Result E A → Type 0
Ensures P (ok a) = P a
Ensures P (err e) = Unit

pub bind-Ensures :
    {E A B : Type 0} (Q : A → Type 0) (P : B → Type 0) (m : Result E A) (f : A → Result E B)
    → Ensures Q m
    → ((a : A) → Q a → Ensures P (f a))
    → Ensures P (m >>= f)
bind-Ensures Q P (ok a) f h k = k a h
bind-Ensures Q P (err e) f h k = tt

any-Ensures : {E A : Type 0} (m : Result E A) → Ensures (λ _. Unit) m
any-Ensures (ok a) = tt
any-Ensures (err e) = tt

-- A step of which nothing is kept.
pub after-Ensures :
    {E A B : Type 0} (P : B → Type 0) (m : Result E A) (f : A → Result E B)
    → ((a : A) → Ensures P (f a))
    → Ensures P (m >>= f)
after-Ensures P m f k = bind-Ensures (λ _. Unit) P m f (any-Ensures m) (λ a _. k a)
