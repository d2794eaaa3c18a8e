-- ===== src/Http/Service.antt =====
-- A request of the API as a whole: the dependency `CallerDep` of every handler, and the response of
-- errors.py. FastAPI runs the dependency before the handler.
use supernote_task_service.Common.{
  Option, ℕ, ◌≡◌, ◌⊎◌, ap, refl, inl, inr, Bool, none, some, List, [], ◌∷◌, Text, Option-cases,
  Bool-cases,
}
use supernote_task_service.Common.Dict.{Dict}
use supernote_task_service.Encoding.Decimal.{decimal}
use supernote_task_service.Security.{validate_api_key}
use supernote_task_service.Sql.{Tables}
use supernote_task_service.RateLimit.{RateLimiter, check}
use supernote_task_service.Http.Failures.{
  Result, ok, raised, Handler, Code, Failure, list_not_found, task_not_found, list_conflict,
  task_conflict, expired_cursor, unauthenticated, too_many_requests, invalid_request,
  database_error, unexpected, failure_status, failure_code, bad_request, unauthorized, forbidden,
  not_found, conflict, gone, length_required, payload_too_large, validation_error, rate_limited,
  db_unavailable, error, cursor_expired, internal_error, given_code, code_for_status,
}
use supernote_task_service.Http.Deps.{Request, bucket_key, client_ip, enforce_rate_limit}
use supernote_task_service.Http.Middleware.{
  Response, Refusal, too_large, malformed_length, undeclared_length, refusal_code, refusal_status,
  respond,
}

abbrev www_authenticate : Text
www_authenticate =
    b'w' ∷ b'w' ∷ b'w' ∷ b'-' ∷ b'a' ∷ b'u' ∷ b't' ∷ b'h' ∷ b'e' ∷ b'n' ∷ b't' ∷ b'i' ∷ b'c' ∷ b'a'
    ∷ b't' ∷ b'e' ∷ []

abbrev bearer : Text
bearer = b'B' ∷ b'e' ∷ b'a' ∷ b'r' ∷ b'e' ∷ b'r' ∷ []

abbrev retry_after : Text
retry_after = b'r' ∷ b'e' ∷ b't' ∷ b'r' ∷ b'y' ∷ b'-' ∷ b'a' ∷ b'f' ∷ b't' ∷ b'e' ∷ b'r' ∷ []

-- the `headers=` argument of an `HTTPException`
unfoldable pub failure_headers : Failure → Dict Text
unfolding decimal
failure_headers unauthenticated = (www_authenticate, bearer) ∷ []
failure_headers (too_many_requests n) = (retry_after, decimal n) ∷ []
failure_headers _ = []

-- `_error_response`, as the exception handlers call it
unfoldable pub error_response : Failure → Response
unfolding failure_headers
error_response f = record {
  status = failure_status f;
  code = some (failure_code f);
  headers = failure_headers f;
}

-- The status that a code stands for; `error` is that of every status without a code of its own.
unfoldable pub status_of_code : Code → Option ℕ
status_of_code bad_request = some 400
status_of_code unauthorized = some 401
status_of_code forbidden = some 403
status_of_code not_found = some 404
status_of_code conflict = some 409
status_of_code gone = some 410
status_of_code cursor_expired = some 410
status_of_code length_required = some 411
status_of_code payload_too_large = some 413
status_of_code validation_error = some 422
status_of_code rate_limited = some 429
status_of_code db_unavailable = some 503
status_of_code error = none
status_of_code internal_error = some 500

failure_code_lem : (f : Failure) → status_of_code (failure_code f) ≡ some (error_response f).status
unfolding status_of_code failure_code error_response failure_status given_code code_for_status
failure_code_lem list_not_found = refl
failure_code_lem task_not_found = refl
failure_code_lem list_conflict = refl
failure_code_lem task_conflict = refl
failure_code_lem expired_cursor = refl
failure_code_lem unauthenticated = refl
failure_code_lem invalid_request = refl
failure_code_lem database_error = refl
failure_code_lem unexpected = refl
failure_code_lem (too_many_requests n) = refl

refusal_code_lem :
    (r : Refusal) (next : Response)
    → status_of_code (refusal_code r) ≡ some (respond (some r) next).status
unfolding status_of_code refusal_code refusal_status
refusal_code_lem too_large next = refl
refusal_code_lem malformed_length next = refl
refusal_code_lem undeclared_length next = refl

-- Clients can rely on the code alone: the code of an error response determines its status, whether an
-- exception handler or the middleware writes it.
pub code_tells_status :
    ((f : Failure) → status_of_code (failure_code f) ≡ some (error_response f).status)
    × ((r : Refusal) (next : Response)
        → status_of_code (refusal_code r) ≡ some (respond (some r) next).status)
code_tells_status = (failure_code_lem, refusal_code_lem)

-- What the requests share.
pub record Shared : Type 0 where
  pub tables : Tables
  pub limiter : RateLimiter

module _ (digest : Text → Text) (res : ℕ) (hashes : List Text) (trust_proxy : Bool) where
  abbrev behind :
      {A : Type 0} → Handler Tables A → Tables → Result Text × RateLimiter → Result A × Shared
  behind h db (raised f, l) = (raised f, record { tables = db; limiter = l })
  behind h db (ok caller, l) = let (a, db') = h db in (a, record { tables = db'; limiter = l })

  -- A handler behind `enforce_rate_limit`, at a reading of the clock.
  unfoldable pub authenticated : {A : Type 0} → Request → ℕ → Handler Tables A → Handler Shared A
  authenticated r now h s =
      behind h s.tables (enforce_rate_limit digest res hashes trust_proxy r now s.limiter)

  refused :
      (r : Request) (now : ℕ) (l : RateLimiter)
      → validate_api_key digest hashes r.authorization r.x_api_key ≡ none
      → (f : Failure) × ((failure_status f ≡ 401) ⊎ (failure_status f ≡ 429))
        × (l' : RateLimiter) × (enforce_rate_limit digest res hashes trust_proxy r now l
            ≡ (raised f, l'))
  unfolding enforce_rate_limit failure_status
  refused r now l e =
      let (l', result) = check res (bucket_key (client_ip r trust_proxy)) now l in
      elim (Bool-cases result.allowed) [
        | inl below ↦ (unauthenticated, inl refl, l', rw (enforce_rate_limit, e, below) refl)
        | inr over ↦ (
          too_many_requests result.retry_after,
          inr refl,
          l',
          rw (enforce_rate_limit, e, over) refl,
        )
      ]

  accepted :
      (r : Request) (now : ℕ) (l : RateLimiter) (caller : Text)
      → validate_api_key digest hashes r.authorization r.x_api_key ≡ some caller
      → enforce_rate_limit digest res hashes trust_proxy r now l ≡ (ok caller, l)
  unfolding enforce_rate_limit
  accepted r now l caller e = rw (enforce_rate_limit, e) refl

  -- At a reading of the clock and with a limiter, a request without a valid key is answered by 401
  -- or 429, changes no table, and its answer is the same whatever the tables hold and whatever it
  -- asks for; with a valid key, the answer is that of its handler, and the limiter stays as it was.
  pub authenticated_lem :
      {A : Type 0} (r : Request) (now : ℕ) (h : Handler Tables A) (s : Shared)
      → ((caller : Text) × (validate_api_key digest hashes r.authorization r.x_api_key
            ≡ some caller)
          × (authenticated r now h s ≡ ((h s.tables).0, record s { tables = (h s.tables).1 })))
        ⊎ ((validate_api_key digest hashes r.authorization r.x_api_key ≡ none)
            × ((authenticated r now h s).1.tables ≡ s.tables)
            × ((f : Failure) × ((failure_status f ≡ 401) ⊎ (failure_status f ≡ 429))
                × ((db : Tables) (g : Handler Tables A)
                    → (authenticated r now g (record s { tables = db })).0 ≡ raised f)))
  unfolding authenticated
  authenticated_lem r now h s =
      elim (Option-cases (validate_api_key digest hashes r.authorization r.x_api_key)) [
        | inr (caller, e) ↦
            inl (caller, e, ap (behind h s.tables) (accepted r now s.limiter caller e))
        | inl e ↦
            let (f, status, l, p) = refused r now s.limiter e in
            inr (
              e,
              ap (λ o. (behind h s.tables o).1.tables) p,
              (f, status, (λ db g. ap (λ o. (behind g db o).0) p)),
            )
      ]
