-- ===== src/Poller/Outcome.antt =====
-- ccv/destination_reader: what a call does.
use chainlink_stellar.Prelude.{◌≡◌, ◌⊎◌, inl, inr, refl}

-- It returns, it returns an error, or it panics, which ends the process.
pub data Outcome {ℓ} (A : Type ℓ) : Type ℓ where
  returned : A → Outcome A
  failed panicked : Outcome A

pub Outcome-cases {ℓ} :
    {A : Type ℓ} (o : Outcome A) → (o ≡ failed) ⊎ (o ≡ panicked) ⊎ ((a : A) × (o ≡ returned a))
Outcome-cases failed = inl refl
Outcome-cases panicked = inr (inl refl)
Outcome-cases (returned a) = inr (inr (a, refl))

pub returned_inj {ℓ} : {A : Type ℓ} {a b : A} → returned a ≡ returned b → a ≡ b
returned_inj e = cc
