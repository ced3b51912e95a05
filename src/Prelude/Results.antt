-- ===== src/Prelude/Results.antt =====
-- A Go result `(value, error)` of which the value is read only without an error.

pub data Result {ℓ κ} (E : Type ℓ) (A : Type κ) : Type (ℓ ⊔ κ) where
  ok : A → Result E A
  err : E → Result E A
