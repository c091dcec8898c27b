-- ===== src/Common/Results.antt =====
-- What a Go call does: it returns a value, returns an error, or panics. A loop that is run on fuel
-- may also run out of it; a theorem about such a loop shows when it does not.
use mathlib.Core.Bool.{Bool, true, false}
use mathlib.Core.Path.{◌≡◌, refl}

pub data Outcome {ℓ κ} (E : Type ℓ) (A : Type κ) : Type (ℓ ⊔ κ) where
  ok : A → Outcome E A
  err : E → Outcome E A
  panic : Outcome E A
  out_of_fuel : Outcome E A

infixl 5 ◌>>=◌ ◌>>◌
abbrev pub ◌>>=◌ {ℓ κ μ} :
    {E : Type ℓ} {A : Type κ} {B : Type μ} → Outcome E A → (A → Outcome E B) → Outcome E B
ok a >>= f = f a
err e >>= f = err e
panic >>= f = panic
out_of_fuel >>= f = out_of_fuel

abbrev pub ◌>>◌ {ℓ κ} : {E : Type ℓ} {B : Type κ} → Outcome E (Unit {0}) → Outcome E B → Outcome E B
m >> k = m >>= λ _. k

-- if b { return e }
abbrev pub reject {ℓ} : {E : Type ℓ} → Bool → E → Outcome E (Unit {0})
reject true e = err e
reject false e = ok tt

-- The call comes back, with a value or an error.
abbrev pub Returns {ℓ κ} : {E : Type ℓ} {A : Type κ} → Outcome E A → Type 0
Returns (ok a) = Unit {0}
Returns (err e) = Unit {0}
Returns panic = ⊥
Returns out_of_fuel = ⊥

-- A call in two steps that gives a value got one from each step.
pub ok_steps {ℓ κ μ} :
    {E : Type ℓ} {A : Type κ} {B : Type μ} {result : B} (first : Outcome E A)
    (second : A → Outcome E B)
    → (first >>= second) ≡ ok result
    → (between : A) × (first ≡ ok between) × (second between ≡ ok result)
ok_steps panic second e = cc
ok_steps out_of_fuel second e = cc
ok_steps (err x) second e = cc
ok_steps (ok between) second e = (between, refl, e)
