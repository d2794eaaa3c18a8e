-- ===== src/Http/Tasks.antt =====
-- src/supernote_task_service/routers/tasks.py. A request runs by itself: between the statements of
-- one handler no other writer comes in.
use supernote_task_service.Common.{
  ℕ, Bool, true, false, not, ◌&&◌, Option, none, some, Text, is_some, if◌then◌else◌,
}
use supernote_task_service.Common.Int.{ℤ}
use supernote_task_service.Models.{
  Task, TaskCreate, TaskUpdate, TaskStatus, Page, needs_action, completed,
}
use supernote_task_service.Sql.{Tables}
use supernote_task_service.Repository.{Env}
use supernote_task_service.Repository.TaskReads as Reads
use supernote_task_service.Repository.TaskReads.{TaskQuery}
use supernote_task_service.Repository.TaskWrites as Writes
use supernote_task_service.Repository.Lists.{list_exists}
use supernote_task_service.Http.Deps.{cursor_expired}
use supernote_task_service.Http.Failures.{
  Handler, ◌>>=◌, ◌>>◌, pure, raise, reads, gets, runs, raise_if, or_raise, list_not_found,
  task_not_found, task_conflict, expired_cursor,
}

-- The readings of the clock that one request takes.
pub record Readings : Type 0 where
  pub completed_at : ℕ
  pub now : ℕ

abbrev pub missing_list : Env → Option Text → Tables → Bool
missing_list env none db = false
missing_list env (some l) db = not (list_exists env l db)

module _ (env : Env) where
  -- `_ensure_list_exists`
  unfoldable pub ensure_list_exists : Option Text → Handler Tables (Unit {0})
  ensure_list_exists list_id = do raise_if (← gets (missing_list env list_id)) list_not_found

  -- `_resolve_write`
  unfoldable pub resolve_write : Text → Bool → Bool → Handler Tables (Unit {0})
  resolve_write task_id true conditional = pure tt
  resolve_write task_id false conditional = do
    there ← gets (Reads.task_exists env task_id)
    if conditional && there then raise task_conflict else raise task_not_found

  -- `_require_task`
  unfoldable pub require_task : Text → Handler Tables Task
  require_task task_id = do or_raise (← reads (Reads.get_task env task_id)) task_not_found

  -- the handler `get_task`
  unfoldable pub get_task : Text → Handler Tables Task
  get_task task_id = do or_raise (← reads (Reads.get_task env task_id)) task_not_found

  -- `list_tasks`
  unfoldable pub list_tasks :
      TaskQuery → (max_age : ℤ) → (fresh_at now : ℕ) → Handler Tables (Page Task)
  list_tasks q max_age fresh_at now = do
    raise_if (cursor_expired q.since max_age fresh_at) expired_cursor
    (tasks, cursor, has_more) ← reads (λ db. Reads.list_tasks env q now db db)
    pure (record { items = tasks; cursor = cursor; has_more = has_more })

  -- `create_task`
  unfoldable pub create_task : Text → ℕ → TaskCreate → Handler Tables Task
  unfolding ensure_list_exists
  create_task new_id ts body = do
    ensure_list_exists body.list_id
    task_id ← runs (Writes.create_task env new_id ts body)
    require_task task_id

  abbrev pub check_new_list : Option (Option Text) → Handler Tables (Unit {0})
  check_new_list none = pure tt
  check_new_list (some list_id) = ensure_list_exists list_id

  -- `update_task`
  unfoldable pub update_task : Text → TaskUpdate → Option ℕ → Readings → Handler Tables Task
  update_task task_id body expected at = do
    check_new_list body.list_id
    done ← runs (Writes.update_task env task_id body expected at.completed_at at.now)
    resolve_write task_id done (is_some expected)
    require_task task_id

  -- `delete_task`
  unfoldable pub delete_task : Text → Option ℕ → ℕ → Handler Tables (Unit {0})
  delete_task task_id expected now = do
    done ← runs (Writes.delete_task env task_id expected now)
    resolve_write task_id done (is_some expected)

  abbrev pub set_status : Text → TaskStatus → Option ℕ → Readings → Handler Tables Task
  set_status task_id status expected at = do
    done ← runs (Writes.set_status env task_id status expected at.completed_at at.now)
    resolve_write task_id done (is_some expected)
    require_task task_id

  -- `complete_task`
  unfoldable pub complete_task : Text → Option ℕ → Readings → Handler Tables Task
  complete_task task_id = set_status task_id completed

  -- `uncomplete_task`
  unfoldable pub uncomplete_task : Text → Option ℕ → Readings → Handler Tables Task
  uncomplete_task task_id = set_status task_id needs_action
