-- ===== src/Prelude/Outcome.antt =====
-- How a call can end: it returns, it stops in the endless loop of PANIC, or its behaviour is
-- undefined (an access outside an array, a null pointer).

use mathlib.Core.Path.{◌≡◌, refl}

pub data Outcome {ℓ} (A : Type ℓ) : Type ℓ where
  ok : A → Outcome A
  panic : Outcome A
  fault : Outcome A

infixl 5 ◌>>=◌
abbrev pub ◌>>=◌ {ℓ κ} : {A : Type ℓ} {B : Type κ} → Outcome A → (A → Outcome B) → Outcome B
ok a >>= f = f a
panic >>= f = panic
fault >>= f = fault

-- A chain that returned: so did its first step, and the rest from what that gave.
pub bind_inv {κ ℓ} :
    {B : Type κ} {A : Type ℓ} {result : B} (k : A → Outcome B) (first : Outcome A)
    → (first >>= k) ≡ ok result
    → (x : A) × (k x ≡ ok result) × (first ≡ ok x)
bind_inv k (ok x) e = (x, e, refl)
bind_inv k panic e = cc
bind_inv k fault e = cc
