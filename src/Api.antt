-- ===== src/Api.antt =====
-- The API as a whole: the endpoints of src/supernote_task_service/routers as the calls of one machine
-- on the tables. Each call is behind authentication (Http/Service.antt) and runs by itself.
pub mod Evolution
pub mod Writes
pub mod Reads
pub mod Steps
pub mod Isolation
pub mod Joined
pub mod Assignments
pub mod Values
pub mod WellFormed
pub mod Replica
pub mod Blind
pub mod Conflicts
mod Tests
use supernote_task_service.Common.{
  ℕ, Bool, true, ◌&&◌, Option, none, some, List, [], ◌∷◌, Text, if◌then◌else◌,
}
use supernote_task_service.Common.Int.{ℤ, pos, leb_ℤ}
use supernote_task_service.Models.{
  Task, TaskList, TaskCreate, TaskUpdate, Page, is_id, opt_all, valid_create, valid_update,
  valid_list_title,
}
use supernote_task_service.Sql.{Tables}
use supernote_task_service.Repository.{Env}
use supernote_task_service.Repository.TaskReads.{TaskQuery}
use supernote_task_service.Http.Failures.{Handler, ◌>>=◌, pure, raise, invalid_request}
use supernote_task_service.Http.Tasks as Tasks
use supernote_task_service.Http.Tasks.{Readings}
use supernote_task_service.Http.Lists as Lists

-- The requests, with their parameters and the version that a conditional write expects.
pub data Call : Type 0 where
  -- `GET /tasks`, `POST /tasks` and the methods of `/tasks/{task_id}`
  tasks_get : TaskQuery → Call
  tasks_post : TaskCreate → Call
  task_get : Text → Call
  task_patch : Text → TaskUpdate → Option ℕ → Call
  task_delete : Text → Option ℕ → Call
  -- `POST /tasks/{task_id}/complete` and `POST /tasks/{task_id}/uncomplete`
  task_complete : Text → Option ℕ → Call
  task_uncomplete : Text → Option ℕ → Call
  -- `GET /lists`, `POST /lists` and the methods of `/lists/{list_id}`
  lists_get : Option ℕ → Option ℤ → Option Text → Call
  lists_post : Text → Call
  list_patch : Text → Text → Option ℕ → Call
  list_delete : Text → Option ℕ → Call

-- What is sent back.
pub data Reply : Type 0 where
  a_task : Task → Reply
  a_page_of_tasks : Page Task → Reply
  a_list : TaskList → Reply
  -- with the status
  a_made_list : ℕ × TaskList → Reply
  a_page_of_lists : Page TaskList → Reply
  no_content : Reply

-- What a call takes from its surroundings: the readings of the clock, that of the age test first, and
-- the identifier of `new_id()`.
pub record Moment : Type 0 where
  pub fresh_at : ℕ
  pub completed_at : ℕ
  pub now : ℕ
  pub new_id : Text

abbrev pub readings : Moment → Readings
readings m = record { completed_at = m.completed_at; now = m.now }

abbrev replies : {A : Type 0} → (A → Reply) → Handler Tables A → Handler Tables Reply
replies f h = h >>= λ a. pure (f a)

-- the bounds that `Query(ge=1, le=1000)` puts on a limit
abbrev in_page_size : Option ℤ → Bool
in_page_size none = true
in_page_size (some n) = leb_ℤ (pos 1) n && leb_ℤ n (pos 1000)

-- What FastAPI checks of a request before its handler runs: the patterns of the identifiers in the
-- path and the query, the bounds of the query, and the constraints of the body.
unfoldable pub valid_call : Call → Bool
unfolding is_id valid_create valid_update valid_list_title
valid_call (tasks_get q) = opt_all is_id q.list_id && in_page_size q.limit
valid_call (tasks_post body) = valid_create body
valid_call (task_get id) = is_id id
valid_call (task_patch id body expected) = is_id id && valid_update body
valid_call (task_delete id expected) = is_id id
valid_call (task_complete id expected) = is_id id
valid_call (task_uncomplete id expected) = is_id id
valid_call (lists_get since limit title) = in_page_size limit
valid_call (lists_post title) = valid_list_title title
valid_call (list_patch id title expected) = is_id id && valid_list_title title
valid_call (list_delete id expected) = is_id id

module _ (env : Env) (max_age : ℤ) where
  -- The routing of a request to its handler.
  unfoldable pub route : Call → Moment → Handler Tables Reply
  route (tasks_get q) m = replies a_page_of_tasks (Tasks.list_tasks env q max_age m.fresh_at m.now)
  route (tasks_post body) m = replies a_task (Tasks.create_task env m.new_id m.now body)
  route (task_get id) m = replies a_task (Tasks.get_task env id)
  route (task_patch id body expected) m =
      replies a_task (Tasks.update_task env id body expected (readings m))
  route (task_delete id expected) m =
      replies (λ _. no_content) (Tasks.delete_task env id expected m.now)
  route (task_complete id expected) m =
      replies a_task (Tasks.complete_task env id expected (readings m))
  route (task_uncomplete id expected) m =
      replies a_task (Tasks.uncomplete_task env id expected (readings m))
  route (lists_get since limit title) m =
      replies a_page_of_lists (Lists.list_lists env since limit title max_age m.fresh_at m.now)
  route (lists_post title) m = replies a_made_list (Lists.create_list env m.new_id m.now title)
  route (list_patch id title expected) m =
      replies a_list (Lists.update_list env id title expected m.now)
  route (list_delete id expected) m =
      replies (λ _. no_content) (Lists.delete_list env id expected m.now)

  -- A request: it is refused, or its handler answers.
  unfoldable pub perform : Call → Moment → Handler Tables Reply
  unfolding valid_call route
  perform c m = if valid_call c then route c m else raise invalid_request

  -- The tables behind a series of calls.
  unfoldable pub run : List (Call × Moment) → Tables → Tables
  unfolding perform
  run [] db = db
  run ((c, m) ∷ calls) db = run calls (perform c m db).1
