-- ===== src/Errors.antt =====
-- Backend/errors: AppError.ts and errorCodes.ts, with the other values that the program's `throw`
-- and the database driver raise.
use mern_chat_app.Common.{Text, ℕ, ◌≡◌, refl, ◌⊎◌, inl, inr}

pub data ErrorCode : Type 0 where
  validation_error unauthenticated forbidden not_found conflict internal_error : ErrorCode
  invalid_credentials session_expired csrf_blocked rate_limited rate_limit_unavailable : ErrorCode
  request_too_large : ErrorCode

-- An error of the application, without its details.
pub record AppError : Type 0 where
  pub message : Text
  pub status_code : ℕ
  pub code : ErrorCode

-- `pg code` is an error of the database driver with its SQLSTATE, `plain` an `Error` with a
-- message, `token_expired` and `bad_token` the two errors of jsonwebtoken.
pub data Thrown : Type 0 where
  app : AppError → Thrown
  pg plain : Text → Thrown
  token_expired bad_token unknown : Thrown

pub data Result {ℓ} (A : Type ℓ) : Type ℓ where
  ok : A → Result A
  err : Thrown → Result A

pub Result-cases :
    {A : Type 0} (r : Result A) → ((a : A) × (r ≡ ok a)) ⊎ ((e : Thrown) × (r ≡ err e))
Result-cases (ok a) = inl (a, refl)
Result-cases (err e) = inr (e, refl)
