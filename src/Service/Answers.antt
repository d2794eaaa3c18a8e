-- ===== src/Service/Answers.antt =====
-- What every response of the application tells, and what a request without a key can do.
use supernote_task_service.Common.{
  Bool, true, false, if◌then◌else◌, ℕ, ◌≡◌, ◌⊎◌, ◌∙◌, sym, ap, refl, inl, inr, Option, none, some,
  ◌∷◌, Mem, take, List, [], Text, Option-cases, arith,
}
use supernote_task_service.Common.Dict.{lookup}
use supernote_task_service.Security.Keys.{configured_key}
use supernote_task_service.Http.Responses.{or_else, lookup-set_defaults}
use supernote_task_service.Config.{Settings}
use supernote_task_service.Security.{
  extract_presented_key, configured, split_on, api_key_hashes, validate_api_key,
}
use supernote_task_service.Repository.{Env}
use supernote_task_service.Sql.{Tables}
use supernote_task_service.Http.Failures.{
  Result, ok, raised, Code, Failure, failure_status, failure_code, unexpected, Handler,
}
use supernote_task_service.Http.Middleware.{
  Response, security_headers, Refusal, too_large, malformed_length, undeclared_length, limit_body,
  refusal_status, refusal_code,
}
use supernote_task_service.Http.Service.{
  Shared, authenticated, authenticated_lem, error_response, status_of_code, code_tells_status,
}
use supernote_task_service.Api.{Call, Reply, Moment, perform}
use supernote_task_service.Service.Statuses.{Succeeds, perform-Succeeds}
use supernote_task_service.Service.{Incoming, response, dispatch, handle, sent, is_unexpected}

-- What a refusal or a stranger is answered with.
abbrev pub TurnsAway : ℕ → Type 0
TurnsAway n = (n ≡ 401) ⊎ ((n ≡ 429) ⊎ ((n ≡ 400) ⊎ ((n ≡ 411) ⊎ (n ≡ 413))))

sent-status : (b : Bool) (r : Response) → (sent b r).status ≡ r.status
sent-status true r = refl
sent-status false r = refl

sent-code : (b : Bool) (r : Response) → (sent b r).code ≡ r.code
sent-code true r = refl
sent-code false r = refl

sent-headers :
    (b : Bool) (r : Response) (k : Text)
    → lookup k (sent b r).headers
      ≡ (if b then lookup k r.headers else or_else (lookup k r.headers) (lookup k security_headers))
sent-headers true r k = refl
sent-headers false r k = lookup-set_defaults k security_headers r.headers

module _ (env : Env) (digest : Text → Text) (resolution : ℕ) (settings : Settings) where
  abbrev caller_of : Incoming → Option Text
  caller_of i =
      validate_api_key digest (api_key_hashes digest settings.api_keys) i.request.authorization
        i.request.x_api_key

  refused :
      (i : Incoming) (m : Moment) (ticks : ℕ) (s : Shared) (why : Refusal)
      → limit_body settings.max_request_body_bytes i.arrival ≡ some why
      → handle env digest resolution settings i m ticks s
        ≡ (record { status = refusal_status why; code = some (refusal_code why); headers = [] }, s)
  unfolding handle
  refused i m ticks s why e = rw (handle, e) refl

  passed :
      (i : Incoming) (m : Moment) (ticks : ℕ) (s : Shared)
      → limit_body settings.max_request_body_bytes i.arrival ≡ none
      → handle env digest resolution settings i m ticks s ≡ (
        sent
            (is_unexpected (dispatch env digest resolution settings i m ticks s).0)
            (response i.call (dispatch env digest resolution settings i m ticks s).0),
        (dispatch env digest resolution settings i m ticks s).1,
      )
  unfolding handle
  passed i m ticks s e = rw (handle, e) refl

  refusal-TurnsAway : (why : Refusal) → TurnsAway (refusal_status why)
  unfolding refusal_status
  refusal-TurnsAway too_large = inr (inr (inr (inr refl)))
  refusal-TurnsAway malformed_length = inr (inr (inl refl))
  refusal-TurnsAway undeclared_length = inr (inr (inr (inl refl)))

  stranger-TurnsAway : (n : ℕ) → (n ≡ 401) ⊎ (n ≡ 429) → TurnsAway n
  stranger-TurnsAway n (inl e) = inl e
  stranger-TurnsAway n (inr e) = inr (inl e)

  -- A request without a valid key changes no table, is answered by 401, 429, 400, 411 or 413, and
  -- is answered in the same way whatever the tables hold, at whatever moment of the wall clock, and
  -- whatever it calls.
  pub handle_stranger :
      (i : Incoming) (m : Moment) (ticks : ℕ) (s : Shared)
      → caller_of i ≡ none
      → let (r, s') = handle env digest resolution settings i m ticks s in
        (s'.tables ≡ s.tables)
        × TurnsAway r.status
        × ((c : Call) (m' : Moment) (db : Tables)
            → (handle env digest resolution settings
                (record i { call = c })
                m'
                ticks
                (record s { tables = db })).0
              ≡ r)
  unfolding dispatch response error_response
  handle_stranger i m ticks s stranger =
      elim (Option-cases (limit_body settings.max_request_body_bytes i.arrival)) [
        | inr (why, e) ↦
            let first = refused i m ticks s why e in
            (
              ap (λ o. o.1.tables) first,
              rw first (refusal-TurnsAway why),
              λ c m' db.
                  ap (λ o. o.0)
                    (refused (record i { call = c }) m' ticks (record s { tables = db }) why e)
                  ∙ sym (ap (λ o. o.0) first),
            )
        | inl e ↦
            let h = perform env settings.cursor_max_age_ms i.call m in
            elim (authenticated_lem digest resolution (api_key_hashes digest settings.api_keys)
              settings.trust_proxy_headers i.request ticks h s) [
                | inl (caller, known, _) ↦ absurd (ground arith)
                | inr (_, kept, (f, status, same)) ↦
                    let answer = answered_by f same in
                    let first = passed i m ticks s e in
                    let mine : (handle env digest resolution settings i m ticks s).0
                        ≡ sent (is_unexpected {A = Reply} (raised f)) (error_response f) =
                      ap (λ o. o.0) first ∙ answer i.call m s.tables in
                    (
                      ap (λ o. o.1.tables) first ∙ kept_by kept,
                      rw
                          (
                            mine,
                            sent-status (is_unexpected {A = Reply} (raised f)) (error_response f),
                          )
                          (stranger-TurnsAway (failure_status f) status),
                      λ c m' db.
                          ap (λ o. o.0)
                            (passed (record i { call = c }) m' ticks (record s { tables = db }) e)
                          ∙ answer c m' db
                          ∙ sym mine,
                    )
              ]
      ]
    where
      hashes : List Text
      hashes = api_key_hashes digest settings.api_keys

      kept_by :
          (authenticated digest resolution hashes settings.trust_proxy_headers i.request ticks
              (perform env settings.cursor_max_age_ms i.call m)
              s).1.tables
            ≡ s.tables
          → (dispatch env digest resolution settings i m ticks s).1.tables ≡ s.tables
      kept_by e = e

      answered_by :
          (f : Failure)
          → ((db : Tables) (g : Handler Tables Reply)
              → (authenticated digest resolution hashes settings.trust_proxy_headers i.request ticks
                  g
                  (record s { tables = db })).0
                ≡ raised f)
          → (c : Call) (m' : Moment) (db : Tables)
          → (let o =
                (dispatch env digest resolution settings
                  (record i { call = c })
                  m'
                  ticks
                  (record s { tables = db })).0 in
              sent (is_unexpected o) (response c o))
            ≡ sent (is_unexpected {A = Reply} (raised f)) (error_response f)
      answered_by f same c m' db =
          ap (λ r. sent (is_unexpected r) (response c r))
            (same db (perform env settings.cursor_max_age_ms c m'))

  -- A success of a request is one of its call.
  dispatched :
      (i : Incoming) (m : Moment) (ticks : ℕ) (s : Shared) (r : Reply)
      → (dispatch env digest resolution settings i m ticks s).0 ≡ ok r
      → (perform env settings.cursor_max_age_ms i.call m s.tables).0 ≡ ok r
  unfolding dispatch
  dispatched i m ticks s r e =
      let h = perform env settings.cursor_max_age_ms i.call m in
      elim (authenticated_lem digest resolution (api_key_hashes digest settings.api_keys)
        settings.trust_proxy_headers i.request ticks h s) [
          | inl (caller, _, same) ↦ ap (λ o. o.0) (sym same) ∙ e
          | inr (_, _, (f, _, same)) ↦ let never = sym (same s.tables h) ∙ e in cc
        ]

  -- Clients can tell every response to a request for an endpoint of `/tasks` or `/lists` by its code:
  -- one without a code is a success, of status 200, 201 or 204, and the code of any other is not the
  -- fallback `error` and determines its status.
  pub handle_code :
      (i : Incoming) (m : Moment) (ticks : ℕ) (s : Shared)
      → let (r, s') = handle env digest resolution settings i m ticks s in
        ((r.code ≡ none) × Succeeds r.status)
        ⊎ ((c : Code) × (r.code ≡ some c) × (status_of_code c ≡ some r.status))
  unfolding response error_response
  handle_code i m ticks s =
      elim (Option-cases (limit_body settings.max_request_body_bytes i.arrival)) [
        | inr (why, e) ↦
            rw (refused i m ticks s why e)
              (inr (refusal_code why, refl, code_tells_status.1 why (error_response unexpected)))
        | inl e ↦
            rw (passed i m ticks s e) (
              tells (dispatch env digest resolution settings i m ticks s).0
                (dispatched i m ticks s))
      ]
    where
      tells :
          (o : Result Reply)
          → ((r : Reply)
              → o ≡ ok r
              → (perform env settings.cursor_max_age_ms i.call m s.tables).0 ≡ ok r)
          → let r = sent (is_unexpected o) (response i.call o) in
            ((r.code ≡ none) × Succeeds r.status)
            ⊎ ((c : Code) × (r.code ≡ some c) × (status_of_code c ≡ some r.status))
      tells (raised f) h =
          rw
            (
              sent-status (is_unexpected {A = Reply} (raised f)) (error_response f),
              sent-code (is_unexpected {A = Reply} (raised f)) (error_response f),
            )
            (inr (failure_code f, refl, code_tells_status.0 f))
      tells (ok r) h =
          inl (refl, perform-Succeeds env settings.cursor_max_age_ms m i.call s.tables r (h r refl))

  accepted :
      (i : Incoming) (m : Moment) (ticks : ℕ) (s : Shared) (caller : Text)
      → limit_body settings.max_request_body_bytes i.arrival ≡ none
      → caller_of i ≡ some caller
      → let (answer, after) = perform env settings.cursor_max_age_ms i.call m s.tables in
        handle env digest resolution settings i m ticks s
        ≡ (sent (is_unexpected answer) (response i.call answer), record s { tables = after })
  unfolding dispatch
  accepted i m ticks s caller e known =
      let h = perform env settings.cursor_max_age_ms i.call m in
      elim (authenticated_lem digest resolution (api_key_hashes digest settings.api_keys)
        settings.trust_proxy_headers i.request ticks h s) [
          | inl (_, _, same) ↦
              passed i m ticks s e
              ∙ ap (λ o. (sent (is_unexpected o.0) (response i.call o.0), o.1)) same
          | inr (unknown, _, _) ↦ absurd (ground arith)
        ]

  -- A request that presents a configured key which is not empty, and that the middleware lets
  -- through, is answered as its call is, changes the tables as its call does, and is not counted by
  -- the limiter. Its response keeps each header, and has each of the security headers that it did
  -- not set itself, but where the call ends in an unexpected exception, to which none is added; no
  -- other is added.
  pub handle_trusted :
      (i : Incoming) (m : Moment) (ticks : ℕ) (s : Shared) (c : ℕ) (cs : Text)
      → limit_body settings.max_request_body_bytes i.arrival ≡ none
      → Mem (c ∷ cs) (configured (split_on b',' settings.api_keys))
      → extract_presented_key i.request.authorization i.request.x_api_key ≡ some (c ∷ cs)
      → let (answer, after) = perform env settings.cursor_max_age_ms i.call m s.tables in
        let (r, s') = handle env digest resolution settings i m ticks s in
        let plain = response i.call answer in
        (s' ≡ record s { tables = after })
        × (r.status ≡ plain.status)
        × (r.code ≡ plain.code)
        × ((k : Text)
            → lookup k r.headers ≡ (
                if is_unexpected answer
                then lookup k plain.headers
                else or_else (lookup k plain.headers) (lookup k security_headers)))
  handle_trusted i m ticks s c cs e listed presented =
      let known =
        configured_key digest settings.api_keys c cs i.request.authorization i.request.x_api_key
          listed presented in
      let same = accepted i m ticks s (take 16 (digest (c ∷ cs))) e known in
      let answer = (perform env settings.cursor_max_age_ms i.call m s.tables).0 in
      let plain = response i.call answer in
      (
        ap (λ o. o.1) same,
        ap (λ o. o.0.status) same ∙ sent-status (is_unexpected answer) plain,
        ap (λ o. o.0.code) same ∙ sent-code (is_unexpected answer) plain,
        λ k. ap (λ o. lookup k o.0.headers) same ∙ sent-headers (is_unexpected answer) plain k,
      )
