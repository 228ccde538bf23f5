-- ===== src/Base/Results.antt =====
-- What a call returns or raises, with the exception as a value.

pub data Result {ℓ κ} (E : Type ℓ) (A : Type κ) : Type (ℓ ⊔ κ) where
  ok : A → Result E A
  err : E → Result E A
