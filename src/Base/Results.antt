-- ===== src/Base/Results.antt =====
-- The result of code that may not return, or may meet undefined behaviour.
use mathlib.Core.Path.{◌≡◌, refl}
use mathlib.Core.Logic.{◌⊎◌, inl, inr}

-- `waiting`: the code has not returned after what was listed of its environment. `fault`: undefined
-- behaviour.
pub data Outcome {ℓ} (A : Type ℓ) : Type ℓ where
  done : A → Outcome A
  waiting : Outcome A
  fault : Outcome A

pub Outcome-cases {ℓ} :
    {A : Type ℓ} (r : Outcome A) → ((a : A) × (r ≡ done a)) ⊎ ((r ≡ waiting) ⊎ (r ≡ fault))
Outcome-cases (done a) = inl (a, refl)
Outcome-cases waiting = inr (inl refl)
Outcome-cases fault = inr (inr refl)

abbrev pub and_then {ℓ κ} : {A : Type ℓ} {B : Type κ} → Outcome A → (A → Outcome B) → Outcome B
and_then (done a) f = f a
and_then waiting f = waiting
and_then fault f = fault
