-- ===== src/Base/Outcome.antt =====
-- The outcome of a C call: a value, undefined behaviour, or a call that never returns.
use mathlib.Core.Path.{◌≡◌, refl}
use mathlib.Core.Logic.{◌⊎◌, inl, inr}

pub data Run {ℓ} (A : Type ℓ) : Type ℓ where
  -- The call returns.
  ret : A → Run A
  -- A dereference of a null pointer, or an access out of bounds.
  fault : Run A
  -- The call waits or recurses for ever.
  hang : Run A

infixl 5 ◌>>=◌ ◌>>◌
abbrev pub ◌>>=◌ {ℓ κ} : {A : Type ℓ} {B : Type κ} → Run A → (A → Run B) → Run B
ret a >>= f = f a
fault >>= f = fault
hang >>= f = hang

abbrev pub ◌>>◌ {ℓ} : {B : Type ℓ} → Run (Unit {0}) → Run B → Run B
m >> k = m >>= λ _. k

-- What a call returns, if it returns, has a property.
abbrev pub OnRet {ℓ κ} : {A : Type ℓ} → (A → Type κ) → Run A → Type κ
OnRet P (ret a) = P a
OnRet P fault = Unit
OnRet P hang = Unit

pub OnRet-bind {ℓ κ μ ν} :
    {A : Type ℓ} {B : Type κ} (P : A → Type μ) (Q : B → Type ν) (r : Run A) (f : A → Run B)
    → OnRet P r
    → ((a : A) → P a → OnRet Q (f a))
    → OnRet Q (r >>= f)
OnRet-bind P Q (ret a) f p h = h a p
OnRet-bind P Q fault f p h = tt
OnRet-bind P Q hang f p h = tt

pub Run-cases {ℓ} : {A : Type ℓ} (r : Run A) → ((a : A) × (r ≡ ret a)) ⊎ (r ≡ fault) ⊎ (r ≡ hang)
Run-cases (ret a) = inl (a, refl)
Run-cases fault = inr (inl refl)
Run-cases hang = inr (inr refl)

pub OnRet-any {ℓ} : {A : Type ℓ} (r : Run A) → OnRet (λ (a : A). Unit {0}) r
OnRet-any (ret a) = tt
OnRet-any fault = tt
OnRet-any hang = tt

pub OnRet-mono {ℓ κ μ} :
    {A : Type ℓ} (P : A → Type κ) (Q : A → Type μ) (r : Run A)
    → OnRet P r
    → ((a : A) → P a → Q a)
    → OnRet Q r
OnRet-mono P Q (ret a) p h = h a p
OnRet-mono P Q fault p h = tt
OnRet-mono P Q hang p h = tt
