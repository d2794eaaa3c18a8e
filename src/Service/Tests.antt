-- ===== src/Service/Tests.antt =====
-- Requests to the application.
use mathlib.Core.List.{mem-cons_self}
use supernote_task_service.Common.{Mem}
use supernote_task_service.Common.Dict.{lookup}
use supernote_task_service.Http.Responses.{or_else}
use supernote_task_service.Http.Middleware.{security_headers}
use supernote_task_service.Common.{
  if◌then◌else◌, ◌≡◌, ◌⊎◌, refl, none, some, [], ◌∷◌, Text, text_eq,
}
use supernote_task_service.Config.{Settings, default_settings}
use supernote_task_service.Encoding.Decimal.{strip, lstrip, is_space}
use supernote_task_service.Security.{
  api_key_hashes, configured, split_on, validate_api_key, extract_presented_key, matches_any,
  key_matches,
}
use supernote_task_service.Sql.{Tables}
use supernote_task_service.Repository.Samples.{user_7, one_by_one, three_tasks}
use supernote_task_service.Http.Failures.{Code}
use supernote_task_service.Http.Deps.{Request}
use supernote_task_service.Http.Middleware.{Arrival, limit_body, has_body_method}
use supernote_task_service.Http.Service.{Shared, status_of_code}
use supernote_task_service.Api.{Call, tasks_get, Moment, perform}
use supernote_task_service.Service.{Incoming, response, handle, is_unexpected}
use supernote_task_service.Service.Statuses.{Succeeds}
use supernote_task_service.Service.Answers.{TurnsAway, handle_stranger, handle_trusted, handle_code}

abbrev marked : Text → Text
marked t = 7 ∷ t

abbrev settings : Settings
settings = record (default_settings []) { api_keys = b'k' ∷ [] }

abbrev get : Arrival
get = record { content_length = none; transfer_encoding = none; method = b'G' ∷ b'E' ∷ b'T' ∷ [] }

abbrev without_key : Request
without_key = record {
  authorization = none;
  x_api_key = some (b'g' ∷ []);
  forwarded_for = none;
  client_host = some (b'a' ∷ []);
}

abbrev with_key : Request
with_key = record without_key { x_api_key = some (b'k' ∷ []) }

abbrev stranger : Incoming
stranger = record { arrival = get; request = without_key; call = tasks_get one_by_one }

abbrev friend : Incoming
friend = record stranger { request = with_key }

abbrev moment : Moment
moment = record { fresh_at = 40; completed_at = 40; now = 40; new_id = [] }

abbrev shared : Shared
shared = record { tables = three_tasks; limiter = record { limit = 3; window = 60; buckets = [] } }

unknown : validate_api_key marked (api_key_hashes marked (b'k' ∷ [])) none (some (b'g' ∷ [])) ≡ none
unfolding validate_api_key api_key_hashes key_matches matches_any configured split_on
    extract_presented_key strip lstrip is_space text_eq
unknown = refl

listed : Mem (b'k' ∷ []) (configured (split_on b',' (b'k' ∷ [])))
unfolding configured split_on strip lstrip is_space
listed = mem-cons_self

presented : extract_presented_key none (some (b'k' ∷ [])) ≡ some (b'k' ∷ [])
unfolding extract_presented_key strip lstrip is_space text_eq
presented = refl

let_through : limit_body settings.max_request_body_bytes get ≡ none
unfolding limit_body has_body_method text_eq
let_through = refl

handle_stranger_example :
    let (r, s) = handle user_7 marked 1000 settings stranger moment 5000 shared in
    (s.tables ≡ three_tasks)
    × TurnsAway r.status
    × ((c : Call) (m : Moment) (db : Tables)
        → (handle user_7 marked 1000 settings
            (record stranger { call = c })
            m
            5000
            (record shared { tables = db })).0
          ≡ r)
handle_stranger_example =
    handle_stranger user_7 marked 1000 settings stranger moment 5000 shared unknown

handle_trusted_example :
    let (answer, after) =
      perform user_7 settings.cursor_max_age_ms (tasks_get one_by_one) moment three_tasks in
    let (r, s) = handle user_7 marked 1000 settings friend moment 5000 shared in
    let plain = response (tasks_get one_by_one) answer in
    (s ≡ record shared { tables = after })
    × (r.status ≡ plain.status)
    × (r.code ≡ plain.code)
    × ((k : Text)
        → lookup k r.headers ≡ (
            if is_unexpected answer
            then lookup k plain.headers
            else or_else (lookup k plain.headers) (lookup k security_headers)))
handle_trusted_example =
    handle_trusted user_7 marked 1000 settings friend moment 5000 shared b'k' [] let_through listed
      presented

handle_code_example :
    let (r, s) = handle user_7 marked 1000 settings friend moment 5000 shared in
    ((r.code ≡ none) × Succeeds r.status)
    ⊎ ((c : Code) × (r.code ≡ some c) × (status_of_code c ≡ some r.status))
handle_code_example = handle_code user_7 marked 1000 settings friend moment 5000 shared
