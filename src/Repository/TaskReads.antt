-- ===== src/Repository/TaskReads.antt =====
-- The reads of tasks: `list_tasks` with its paging, `get_task` and the existence tests.
use supernote_task_service.Common.{
  ℕ, ◌+◌, Bool, true, false, ◌&&◌, Option, none, some, List, [], ◌∷◌, ◌++◌, Text, if◌then◌else◌,
  last?, is_some, ◌>>=◌,
}
use supernote_task_service.Common.Int.{ℤ}
use supernote_task_service.Models.{Task}
use supernote_task_service.Sql.{Tables, JoinedRow, joined_order, joined_id_order}
use supernote_task_service.Sql.Tasks.{
  TaskClause, by_user, modified_between, modified_at, active, status_is, in_inbox, in_list, has_id,
  id_after, select_joined, any_task,
}
use supernote_task_service.Repository.{
  Env, clamp_limit, is_full_page, is_single_ms_full_page, page_cursor,
}
use supernote_task_service.Repository.Mapping.{needs_action_value, row_to_task, rows_to_tasks}

-- The filter on the list, which `list_tasks` and `_drain_tasks_at` share.
unfoldable pub list_clauses : Option Text → Bool → List TaskClause
list_clauses list_id inbox_only =
    if inbox_only then in_inbox ∷ [] else elim list_id [ none ↦ [] | some l ↦ in_list l ∷ [] ]

-- The keyword arguments of `list_tasks`.
pub record TaskQuery : Type 0 where
  pub since : Option ℕ
  pub list_id : Option Text
  pub include_completed : Bool
  pub inbox_only : Bool
  pub limit : Option ℤ

unfoldable pub mode_clauses : TaskQuery → ℕ → List TaskClause
mode_clauses q server_now = elim q.since [
  | none ↦ active ∷ (if q.include_completed then [] else status_is needs_action_value ∷ [])
  | some since ↦ modified_between since server_now ∷ []
]

module _ (env : Env) where
  unfoldable pub task_clauses : TaskQuery → ℕ → List TaskClause
  task_clauses q server_now =
      by_user env.user_id ∷ (mode_clauses q server_now ++ list_clauses q.list_id q.inbox_only)

  -- `_drain_tasks_at`
  unfoldable pub drain_clauses : ℕ → Text → Option Text → Bool → List TaskClause
  drain_clauses boundary after_id list_id inbox_only =
      by_user env.user_id
      ∷ modified_at boundary
      ∷ id_after after_id
      ∷ list_clauses list_id inbox_only

  unfoldable pub drain_tasks_at : ℕ → Text → Option Text → Bool → Tables → Option (List Task)
  drain_tasks_at boundary after_id list_id inbox_only db = rows_to_tasks env (
      select_joined env.server (joined_id_order env.server)
        (drain_clauses boundary after_id list_id inbox_only) none db)

  -- The page, with what is drained behind a page of a single millisecond.
  unfoldable pub drained_page :
      TaskQuery → List Task → Option Task → Tables → Option (List Task × ℕ × Bool)
  drained_page q tasks none later = none
  drained_page q tasks (some t) later = do
    rest ← drain_tasks_at t.last_modified t.id q.list_id q.inbox_only later
    some (tasks ++ rest, t.last_modified + 1, false)

  -- The rows that the first statement of `list_tasks` fetches.
  unfoldable pub page_rows : TaskQuery → ℕ → Tables → List JoinedRow
  unfolding task_clauses
  page_rows q server_now db =
      select_joined env.server (joined_order env.server) (task_clauses q server_now)
        (some (clamp_limit q.limit)) db

  -- `list_tasks` behind the fetch.
  unfoldable pub finish_page : TaskQuery → ℕ → Tables → List Task → Option (List Task × ℕ × Bool)
  finish_page q server_now later tasks =
      let limit = clamp_limit q.limit in
      if is_some q.since && is_single_ms_full_page (λ (t : Task). t.last_modified) tasks limit
      then drained_page q tasks (last? tasks) later
      else some (
        tasks,
        page_cursor (λ (t : Task). t.last_modified) tasks limit server_now,
        is_full_page (λ (t : Task). t.last_modified) tasks limit,
      )

  -- `list_tasks`: the tasks, the cursor and `has_more`. The statement that drains runs later than
  -- the one that fetches the page, on the tables `later`.
  unfoldable pub list_tasks : TaskQuery → ℕ → Tables → Tables → Option (List Task × ℕ × Bool)
  list_tasks q server_now db later = do
    tasks ← rows_to_tasks env (page_rows q server_now db)
    finish_page q server_now later tasks

  abbrev pub fetchone : List JoinedRow → Option (Option Task)
  fetchone [] = some none
  fetchone (r ∷ rs) = do task ← row_to_task env r; some (some task)

  unfoldable pub one_task : Text → List TaskClause
  one_task task_id = has_id task_id ∷ by_user env.user_id ∷ active ∷ []

  -- `get_task`; without `ORDER BY` the server is free in the order of the rows.
  unfoldable pub get_task : Text → Tables → Option (Option Task)
  unfolding one_task
  get_task task_id db = fetchone (select_joined env.server (λ _ _. true) (one_task task_id) none db)

  -- `task_exists`
  unfoldable pub task_exists : Text → Tables → Bool
  unfolding one_task
  task_exists task_id db = any_task env.server (one_task task_id) db

  -- `_row_matches_version`
  unfoldable pub row_matches_version : Text → ℕ → Tables → Bool
  row_matches_version task_id expected db =
      any_task env.server
        (has_id task_id ∷ by_user env.user_id ∷ active ∷ modified_at expected ∷ []) db
