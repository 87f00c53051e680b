-- ===== src/Hpack/Outcome.antt =====
-- How a routine of src/http2/aws-http2-hpack*.adb ends: with a value, or with an exception.
-- `Protocol_Error` carries the code `C_Protocol_Error` or `C_Compression_Error`.

pub data Error : Type 0 where
  protocol_error compression_error constraint_error : Error

-- `stuck` is no result of the source: the loop of a model ran out of fuel.
pub data Outcome {ℓ} (A : Type ℓ) : Type ℓ where
  ok : A → Outcome A
  err : Error → Outcome A
  stuck : Outcome A

infixl 5 ◌>>=◌
abbrev pub ◌>>=◌ {ℓ κ} : {A : Type ℓ} {B : Type κ} → Outcome A → (A → Outcome B) → Outcome B
ok a >>= f = f a
err e >>= f = err e
stuck >>= f = stuck
