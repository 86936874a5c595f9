-- ===== src/Errors.antt =====
-- App/common/exceptions.py and App/common/web/error_handlers.py: the exceptions that a request can
-- end with, and the status code of the response that the handlers make of each.
use fastapi_newyear.Base.{ℕ, String, ◌≡◌, refl, ◌⊎◌, inl, inr}

-- The first five are `AppException` and its subclasses, with their `detail`. The others leave the
-- application's code as an exception of a library: a validation error of pydantic inside a handler,
-- a duplicate key of MongoDB, a failure of the message broker, and all else.
pub data Exc : Type 0 where
  app_exception unauthorized forbidden not_found conflict : String → Exc
  validation_error duplicate_key broker_error value_error other_error : Exc

pub data Result {ℓ} (A : Type ℓ) : Type ℓ where
  ok : A → Result A
  err : Exc → Result A

-- `app_exception_handler` and `internal_exception_handler`.
unfoldable pub status_code : Exc → ℕ
status_code (app_exception detail) = 400
status_code (unauthorized detail) = 401
status_code (forbidden detail) = 403
status_code (not_found detail) = 404
status_code (conflict detail) = 409
status_code _ = 500

pub Result-cases {ℓ} :
    {A : Type ℓ} (r : Result A) → ((a : A) × (r ≡ ok a)) ⊎ ((e : Exc) × (r ≡ err e))
Result-cases (ok a) = inl (a, refl)
Result-cases (err e) = inr (e, refl)
