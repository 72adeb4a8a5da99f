-- ===== src/Common/Panics.antt =====
-- Code that may panic: a nil dereference or a failed type assertion ends the goroutine.
use mathlib.Core.Path.{◌≡◌, refl}

pub data Outcome {ℓ} (A : Type ℓ) : Type ℓ where
  ok : A → Outcome A
  panic : Outcome A

infixl 5 ◌>>=◌
abbrev pub ◌>>=◌ {ℓ κ} : {A : Type ℓ} {B : Type κ} → Outcome A → (A → Outcome B) → Outcome B
ok a >>= f = f a
panic >>= f = panic

-- Inversion of a chain that did not panic.
pub >>=-eq-ok {ℓ κ} :
    {A : Type ℓ} {B : Type κ} (out : Outcome A) (next : A → Outcome B) {result : B}
    → (out >>= next) ≡ ok result
    → (x : A) × (out ≡ ok x) × (next x ≡ ok result)
>>=-eq-ok panic next e = cc
>>=-eq-ok (ok x) next e = (x, refl, e)
