-- ===== src/Core/Errors.antt =====
-- app/core/exceptions.py: the error taxonomy. A call that may raise returns a `Result`.
pub mod Yields
use agentic_rag.Prelude.{ℕ}

-- The exceptions that the program raises or tells apart. `app_error` is `AppError` itself;
-- `other` is any exception of a library or of the language that no handler names.
pub data Exc : Type 0 where
  app_error configuration_error not_found_error validation_error dependency_error : Exc
  connection_error timeout_error os_error value_error tool_error other : Exc

pub data Result {ℓ} (A : Type ℓ) : Type ℓ where
  ok : A → Result A
  raise : Exc → Result A

infixl 5 ◌>>=◌
abbrev pub ◌>>=◌ {ℓ κ} : {A : Type ℓ} {B : Type κ} → Result A → (A → Result B) → Result B
ok a >>= f = f a
raise e >>= f = raise e

-- `status_code`: of the class, or inherited from `AppError`; anything else is reported as 500
unfoldable pub status_code : Exc → ℕ
status_code not_found_error = 404
status_code validation_error = 422
status_code dependency_error = 502
status_code _ = 500
