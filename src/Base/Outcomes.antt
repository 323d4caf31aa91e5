-- ===== src/Base/Outcomes.antt =====
-- `Result` with an error type of its own.
use mathlib.Core.Path.{◌≡◌, refl}
use mathlib.Core.Logic.{◌⊎◌, inl, inr}

pub data Outcome {ℓ} (E : Type ℓ) (A : Type ℓ) : Type ℓ where
  done : A → Outcome E A
  failed : E → Outcome E A

pub Outcome-cases {ℓ} :
    {E A : Type ℓ} (o : Outcome E A) → ((x : A) × (o ≡ done x)) ⊎ ((e : E) × (o ≡ failed e))
Outcome-cases (done x) = inl (x, refl)
Outcome-cases (failed e) = inr (e, refl)
