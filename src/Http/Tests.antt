-- ===== src/Http/Tests.antt =====
-- Requests to the handlers on a small table.
use supernote_task_service.Common.{
  length, ◌≤◌, ℕ, List, true, false, min, ◌⊎◌, arith, text_eq, refl, ◌≡◌, none, some, [], ◌∷◌, Text,
  is_some, ◌&&◌, if◌then◌else◌,
}
use supernote_task_service.Models.{list_title_max, TaskList, completed}
use supernote_task_service.Encoding.{encode_emoji, token}
use supernote_task_service.Sql.Reference.{reference-IsServer, same_uncounted}
use supernote_task_service.Repository.TaskReads.{task_exists}
use supernote_task_service.Repository.Samples.{user_7, id_a, three_tasks, rename, later}
use supernote_task_service.Repository.Writes.Conditional.{is_matched}
use supernote_task_service.Http.Service.{Shared}
use supernote_task_service.Http.Failures.{ok, raised, list_not_found, task_not_found}
use supernote_task_service.Http.Tasks as Tasks
use supernote_task_service.Http.Tasks.{Readings, require_task}
use supernote_task_service.Http.Lists as Lists
use supernote_task_service.Http.Deps.{Request, client_ip, bucket_key}
use supernote_task_service.Common.Int.{pos}
use supernote_task_service.Common.Dict.{lookup}
use supernote_task_service.Encoding.Decimal.{parse_int, strip, lstrip, is_space}
use supernote_task_service.Security.{
  validate_api_key, extract_presented_key, key_matches, matches_any,
}
use supernote_task_service.Http.Middleware.{
  Arrival, Response, limit_body, has_body_method, too_large, serve, cache_control,
}
use supernote_task_service.Http.Responses.{Declares, serve_bounded}
use supernote_task_service.RateLimit.{RateLimiter}
use supernote_task_service.RateLimit.Windows.{view, live}
use supernote_task_service.RateLimit.Quota.{asked}
use supernote_task_service.Http.Quota.{unauthenticated_of, count_401, count_401_quota}
use supernote_task_service.Http.Writes.{refusal, lists_missing}
use supernote_task_service.Repository.Writes.Fields.{FitsTitle}
use supernote_task_service.Repository.Writes.Rows.{with_task, patched, with_status}
use supernote_task_service.Http.Outcomes.{
  set_status_answers, delete_task_answers, status_handler, update_task_answers, create_list_again,
  complete_task_twice,
}

abbrev at_40 : Readings
at_40 = record { completed_at = 40; now = 40 }

abbrev chores : Text
chores = b'C' ∷ []

short_rename : FitsTitle rename.title
unfolding encode_emoji token
short_rename = omega arith

update_task_answers_example : Tasks.update_task user_7 id_a rename (some 20) at_40 three_tasks ≡ (
    if lists_missing user_7 rename.list_id three_tasks
    then (raised list_not_found, three_tasks)
    else if is_matched user_7 id_a (some 20) three_tasks
    then require_task user_7 id_a
        (with_task user_7 (patched user_7 rename 40 40) id_a (some 20) three_tasks)
    else (
      raised (refusal (is_some {A = ℕ} (some 20) && task_exists user_7 id_a three_tasks)),
      three_tasks,
    ))
update_task_answers_example =
    update_task_answers user_7 reference-IsServer id_a rename (some 20) at_40 three_tasks later
      short_rename

set_status_answers_example : status_handler user_7 completed id_a (some 20) at_40 three_tasks ≡ (
    if is_matched user_7 id_a (some 20) three_tasks
    then require_task user_7 id_a
        (with_task user_7 (with_status user_7 completed 40 40) id_a (some 20) three_tasks)
    else (
      raised (refusal (is_some {A = ℕ} (some 20) && task_exists user_7 id_a three_tasks)),
      three_tasks,
    ))
set_status_answers_example =
    set_status_answers user_7 reference-IsServer completed id_a (some 20) at_40 three_tasks later

delete_task_answers_example : Tasks.delete_task user_7 id_a none 40 three_tasks ≡ (
    if is_matched user_7 id_a none three_tasks
    then (
      ok tt,
      with_task user_7
          (λ r. record r { is_deleted = true; last_modified = some 40 })
          id_a
          none
          three_tasks,
    )
    else (
      raised (refusal (is_some {A = ℕ} none && task_exists user_7 id_a three_tasks)),
      three_tasks,
    ))
delete_task_answers_example =
    delete_task_answers user_7 reference-IsServer id_a none 40 three_tasks later

short_chores : length (encode_emoji chores) ≤ list_title_max
unfolding encode_emoji token
short_chores = omega arith

create_list_again_example :
    let db' = (Lists.create_list user_7 id_a 30 chores three_tasks).1 in
    (l : TaskList) × (Lists.create_list user_7 chores 31 chores db' ≡ (ok (200, l), db'))
create_list_again_example =
    create_list_again user_7 reference-IsServer id_a chores 30 31 chores three_tasks short_chores

complete_task_twice_example :
    let db' = (Tasks.complete_task user_7 id_a none at_40 three_tasks).1 in
    Tasks.complete_task user_7 id_a none at_40 db' ≡ (raised task_not_found, db')
complete_task_twice_example = complete_task_twice user_7 same_uncounted id_a at_40 three_tasks

-- A limiter of two requests in ten seconds, at a thousand ticks to the second.
abbrev two_in_ten : RateLimiter
two_in_ten = record { limit = 2; window = 10; buckets = [] }

abbrev marked : Text → Text
marked t = 7 ∷ t

abbrev valid : List Text
valid = (7 ∷ b'k' ∷ []) ∷ []

abbrev guess : Request
guess = record {
  authorization = none;
  x_api_key = some (b'g' ∷ []);
  forwarded_for = none;
  client_host = some (b'a' ∷ []);
}

abbrev caller : Request
caller = record guess { x_api_key = some (b'k' ∷ []) }

-- Three guesses, and a request with a valid key between them.
abbrev guesses : List (Request × ℕ)
guesses = (guess, 5000) ∷ (guess, 5001) ∷ (caller, 5002) ∷ (guess, 5003) ∷ []

abbrev guessing : Text
guessing = bucket_key (b'a' ∷ [])

guessed :
    unauthenticated_of marked 1000 valid false guesses
    ≡ (guessing, 5000) ∷ (guessing, 5001) ∷ (guessing, 5003) ∷ []
unfolding unauthenticated_of validate_api_key extract_presented_key key_matches matches_any strip
    lstrip is_space text_eq client_ip
guessed = refl

unseen : view two_in_ten guessing 5000 ≡ none
unfolding view live lookup
unseen = refl

count_401_quota_example :
    count_401 marked 1000 valid false (b'a' ∷ []) two_in_ten guesses
    ≡ min 2 (asked guessing (unauthenticated_of marked 1000 valid false guesses))
count_401_quota_example =
    count_401_quota marked 1000 valid false (b'a' ∷ []) 5000 two_in_ten guesses
      ((guessing, 5001) ∷ (guessing, 5003) ∷ []) tt unseen (omega arith) (omega arith) guessed
      (omega arith, omega arith, (omega arith, omega arith, tt))

-- A read of the tasks, which sets its own caching.
abbrev reading : Arrival
reading = record { content_length = none; transfer_encoding = none; method = b'G' ∷ [] }

abbrev cached : Arrival → Response
cached a = record { status = 200; code = none; headers = (cache_control, b'm' ∷ []) ∷ [] }

passes : limit_body (pos 8) reading ≡ none
unfolding limit_body has_body_method text_eq
passes = refl

-- Nine bytes are declared where eight are allowed.
abbrev writing : Arrival
writing = record { content_length = some (b'9' ∷ []); transfer_encoding = none; method = b'P' ∷ [] }

serve_bounded_example :
    ((f g : Arrival → Response) → serve (pos 8) f writing ≡ serve (pos 8) g writing)
    ⊎ Declares (pos 8) writing
serve_bounded_example = serve_bounded (pos 8) writing

refused : limit_body (pos 8) writing ≡ some too_large
unfolding limit_body parse_int strip lstrip is_space
refused = refl

abbrev shared : Shared
shared = record { tables = three_tasks; limiter = two_in_ten }
