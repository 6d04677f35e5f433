-- ===== src/Base/Outcome.antt =====
-- The outcome of a call that may raise. The state stands beside it, since what a Python method
-- has written when it raises stays written.

-- The exceptions that the modelled code raises itself or meets in arithmetic.
pub data Error : Type 0 where
  key_error : Error  -- KeyError
  invalid_transition : Error  -- InvalidPositionTransition, InvalidTransitionError
  zero_division : Error  -- ZeroDivisionError
  type_error : Error  -- TypeError
  already_locked : Error  -- RuntimeError of PTBRecord.lock

pub data Result {ℓ} (A : Type ℓ) : Type ℓ where
  ok : A → Result A
  err : Error → Result A
