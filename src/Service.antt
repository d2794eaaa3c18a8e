-- ===== src/Service.antt =====
-- The application as a whole: `create_app` of main.py puts the middleware around the routers, whose
-- handlers are behind `CallerDep`, and the exception handlers of errors.py write the error responses.
-- A request is given as the framework has read it, its body parsed.
pub mod Statuses
pub mod Answers
mod Tests
use supernote_task_service.Common.{Bool, true, false, ℕ, Option, none, some, List, [], ◌∷◌, Text}
use supernote_task_service.Common.Int.{ℤ}
use supernote_task_service.Config.{Settings}
use supernote_task_service.Security.{api_key_hashes}
use supernote_task_service.Repository.{Env}
use supernote_task_service.Http.Failures.{Result, ok, raised, unexpected}
use supernote_task_service.Http.Deps.{Request}
use supernote_task_service.Http.Middleware.{
  Arrival, Response, Refusal, limit_body, respond, refusal_status, refusal_code,
}
use supernote_task_service.Http.Service.{Shared, authenticated, error_response}
use supernote_task_service.Api.{
  Call, tasks_post, task_delete, list_delete, Reply, a_made_list, Moment, perform,
}

pub record Incoming : Type 0 where
  pub arrival : Arrival
  pub request : Request
  pub call : Call

-- The status of a success: `status_code=` of the routes, and the one that `create_list` sets.
unfoldable pub success_status : Call → Reply → ℕ
success_status _ (a_made_list (status, l)) = status
success_status (tasks_post body) _ = 201
success_status (task_delete id expected) _ = 204
success_status (list_delete id expected) _ = 204
success_status _ _ = 200

-- The response to what a handler gives.
unfoldable pub response : Call → Result Reply → Response
unfolding success_status error_response
response c (ok r) = record { status = success_status c r; code = none; headers = [] }
response c (raised f) = error_response f

-- What only the handler for `Exception` of errors.py answers.
abbrev pub is_unexpected : {A : Type 0} → Result A → Bool
is_unexpected (raised unexpected) = true
is_unexpected _ = false

-- The framework answers an unexpected exception outside of the middleware, so that its response has
-- none of the security headers.
abbrev pub sent : Bool → Response → Response
sent true r = r
sent false r = respond none r

module _ (env : Env) (digest : Text → Text) (resolution : ℕ) (settings : Settings) where
  -- The handler of a request's call, behind authentication.
  unfoldable pub dispatch : Incoming → Moment → ℕ → Shared → Result Reply × Shared
  unfolding authenticated perform
  dispatch i m ticks s =
      authenticated digest resolution (api_key_hashes digest settings.api_keys)
        settings.trust_proxy_headers i.request ticks
        (perform env settings.cursor_max_age_ms i.call m) s

  -- A request: the middleware refuses it, or what is dispatched is answered, with the security
  -- headers where the middleware sees the response.
  unfoldable pub handle : Incoming → Moment → ℕ → Shared → Response × Shared
  unfolding dispatch response refusal_status refusal_code
  handle i m ticks s = elim (limit_body settings.max_request_body_bytes i.arrival) [
    | some refusal ↦ (
      record { status = refusal_status refusal; code = some (refusal_code refusal); headers = [] },
      s,
    )
    | none ↦ let (r, s') = dispatch i m ticks s in (sent (is_unexpected r) (response i.call r), s')
  ]
