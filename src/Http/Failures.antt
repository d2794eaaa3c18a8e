-- ===== src/Http/Failures.antt =====
-- src/supernote_task_service/errors.py: what the handlers raise, with the status and the stable code
-- that the exception handlers put into the response.
use supernote_task_service.Common.{ℕ, ◌==◌, if◌then◌else◌, Bool, Option, none, some}

-- the values of `_STATUS_CODES`, its fallback, and the codes that handlers give themselves
pub data Code : Type 0 where
  bad_request unauthorized forbidden not_found conflict gone length_required payload_too_large :
      Code
  validation_error rate_limited db_unavailable error cursor_expired internal_error : Code

-- `code_for_status`
unfoldable pub code_for_status : ℕ → Code
code_for_status n =
    if n == 400
    then bad_request
    else if n == 401
    then unauthorized
    else if n == 403
    then forbidden
    else if n == 404
    then not_found
    else if n == 409
    then conflict
    else if n == 410
    then gone
    else if n == 411
    then length_required
    else if n == 413
    then payload_too_large
    else if n == 422
    then validation_error
    else if n == 429
    then rate_limited
    else if n == 503
    then db_unavailable
    else error

-- The exceptions of the handlers: `ApiError` and `HTTPException` at the places that raise them, the
-- framework's `RequestValidationError`, a `pymysql.Error`, and any other exception, such as that of
-- a row which is no task.
pub data Failure : Type 0 where
  list_not_found task_not_found list_conflict task_conflict expired_cursor : Failure
  unauthenticated invalid_request database_error unexpected : Failure
  -- with `Retry-After`
  too_many_requests : ℕ → Failure

unfoldable pub failure_status : Failure → ℕ
failure_status list_not_found = 404
failure_status task_not_found = 404
failure_status list_conflict = 409
failure_status task_conflict = 409
failure_status expired_cursor = 410
failure_status unauthenticated = 401
failure_status (too_many_requests n) = 429
failure_status invalid_request = 422
failure_status database_error = 503
failure_status unexpected = 500

-- the `code=` argument of an `ApiError`
unfoldable pub given_code : Failure → Option Code
given_code list_conflict = some conflict
given_code task_conflict = some conflict
given_code expired_cursor = some cursor_expired
given_code _ = none

-- The code of the response, as the exception handlers choose it.
unfoldable pub failure_code : Failure → Code
unfolding given_code code_for_status failure_status
failure_code invalid_request = validation_error
failure_code database_error = db_unavailable
failure_code unexpected = internal_error
failure_code f = elim (given_code f) [ none ↦ code_for_status (failure_status f) | some c ↦ c ]

-- What a handler gives: a value, or the exception that it raises.
pub data Result (A : Type 0) : Type 0 where
  ok : A → Result A
  raised : Failure → Result A

-- A handler runs on the tables, and leaves them as far as it came.
abbrev pub Handler : Type 0 → Type 0 → Type 0
Handler S A = S → Result A × S

infixl 5 ◌>>=◌ ◌>>◌
abbrev pub ◌>>=◌ : {S A B : Type 0} → Handler S A → (A → Handler S B) → Handler S B
◌>>=◌ m f s = let (r, s') = m s in elim r [ ok a ↦ f a s' | raised e ↦ (raised e, s') ]

abbrev pub ◌>>◌ : {S A B : Type 0} → Handler S A → Handler S B → Handler S B
m >> k = m >>= λ _. k

abbrev pub pure : {S A : Type 0} → A → Handler S A
pure a s = (ok a, s)

abbrev pub raise : {S A : Type 0} → Failure → Handler S A
raise e s = (raised e, s)

-- A read of the tables that may raise an unexpected exception.
abbrev pub reads : {S A : Type 0} → (S → Option A) → Handler S A
reads f s = elim (f s) [ none ↦ (raised unexpected, s) | some a ↦ (ok a, s) ]

abbrev pub gets : {S A : Type 0} → (S → A) → Handler S A
gets f s = (ok (f s), s)

abbrev pub runs : {S A : Type 0} → (S → S × A) → Handler S A
runs f s = let (s', a) = f s in (ok a, s')

abbrev pub raise_if : {S : Type 0} → Bool → Failure → Handler S (Unit {0})
raise_if b e s = (if b then raised e else ok tt, s)

abbrev pub or_raise : {S A : Type 0} → Option A → Failure → Handler S A
or_raise none e s = (raised e, s)
or_raise (some a) e s = (ok a, s)
