-- ===== src/Errors.antt =====
-- src/common/errors: the error codes with their statuses, the exception that carries one, and the
-- errors that the database driver throws. Messages and field details are for a reader and decide
-- nothing, so they are left out.
use nivara_api_nestjs.Shared.{ℕ, Bool, false, ◌||◌, Option, none, some, String, str_eq}

pub data ErrorCode : Type 0 where
  malformed_request invalid_filter invalid_sort invalid_cursor : ErrorCode
  unauthenticated forbidden not_found conflict : ErrorCode
  idempotency_in_flight validation_failed idempotency_key_reused : ErrorCode
  rate_limited internal_error integration_dormant : ErrorCode

-- `ERROR_CATALOG[code].status`
unfoldable pub status_for_code : ErrorCode → ℕ
status_for_code malformed_request = 400
status_for_code invalid_filter = 400
status_for_code invalid_sort = 400
status_for_code invalid_cursor = 400
status_for_code unauthenticated = 401
status_for_code forbidden = 403
status_for_code not_found = 404
status_for_code conflict = 409
status_for_code idempotency_in_flight = 409
status_for_code validation_failed = 422
status_for_code idempotency_key_reused = 422
status_for_code rate_limited = 429
status_for_code internal_error = 500
status_for_code integration_dormant = 503

pub record AppException : Type 0 where
  pub code : ErrorCode
  pub status : ℕ

-- The constructor derives the status from the code.
abbrev pub app_exception : ErrorCode → AppException
unfolding status_for_code
app_exception code = record { code = code; status = status_for_code code }

-- What a `catch` can receive, as far as the code looks at it: an `AppException`, an error object
-- with an optional `code` and an optional `cause` that has an optional `code`, or a value that is
-- no object.
pub data Cause : Type 0 where
  no_cause : Cause
  cause_code : Option String → Cause

pub data Thrown : Type 0 where
  app : AppException → Thrown
  driver : Option String → Cause → Thrown
  primitive : Thrown

pub data Result {ℓ} (A : Type ℓ) : Type ℓ where
  ok : A → Result A
  throw : Thrown → Result A

-- `promise.catch(handler)`, where the handler throws again
abbrev pub catch_throw {ℓ} : {A : Type ℓ} → Result A → (Thrown → Thrown) → Result A
catch_throw (ok a) handler = ok a
catch_throw (throw e) handler = throw (handler e)

-- `await promise`, and what the rest of the method does with the value
infixl 5 ◌>>=◌
abbrev pub ◌>>=◌ {ℓ κ} :
    {Value : Type ℓ} {Next : Type κ} → Result Value → (Value → Result Next) → Result Next
throw e >>= rest = throw e
ok value >>= rest = rest value

abbrev pub fail : ErrorCode → Thrown
fail code = app (app_exception code)

abbrev has_code : Option String → String → Bool
has_code none code = false
has_code (some c) code = str_eq c code

unfoldable pub is_foreign_key_violation : Thrown → Bool
is_foreign_key_violation (app e) = false
is_foreign_key_violation (driver code cause) = has_code code "P2003"
is_foreign_key_violation primitive = false

abbrev cause_has_code : Cause → String → Bool
cause_has_code no_cause code = false
cause_has_code (cause_code c) code = has_code c code

unfoldable pub is_unique_violation : Thrown → Bool
is_unique_violation (app e) = false
is_unique_violation (driver code cause) = has_code code "P2002" || cause_has_code cause "23505"
is_unique_violation primitive = false
