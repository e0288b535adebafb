-- ===== src/Base/Results.antt =====
-- A JavaScript call returns, or throws.
pub data Outcome {ℓ} (A : Type ℓ) : Type ℓ where
  threw : Outcome A
  returned : A → Outcome A
