-- ===== src/Base/Outcome.antt =====
-- Results of Go functions that return an error: the value, or the error.
pub data Result {ℓ} (E A : Type ℓ) : Type ℓ where
  ok : A → Result E A
  err : E → Result E A
