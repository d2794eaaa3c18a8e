-- ===== src/Repository/TaskWrites.antt =====
-- The writes of tasks: `create_task`, `update_task`, `set_status` and `delete_task`.
use supernote_task_service.Common.{
  ℕ, Bool, false, Option, none, some, List, [], ◌∷◌, ◌++◌, Text, ltb, keep,
}
use supernote_task_service.Models.{
  TaskCreate, TaskUpdate, TaskStatus, Field, needs_action, completed, DocumentLink, no_fields,
}
use supernote_task_service.Encoding.{encode_detail}
use supernote_task_service.Encoding.Clock.{dt_to_ms}
use supernote_task_service.Encoding.Decimal.{decimal}
use supernote_task_service.Encoding.Links.{encode_document_link, link_payload}
use supernote_task_service.Sql.{Tables, TaskRow}
use supernote_task_service.Sql.Tasks.{
  TaskClause, by_user, modified_at, active, has_id, in_list_or_inbox, all_hold, sort_after,
  TaskAssignment, set_title, set_detail, set_status as assign_status, set_completed_time,
  set_importance, set_due_time, set_sort, set_task_list_id, set_links, set_deleted,
  set_last_modified, update_rows,
}
use supernote_task_service.Repository.{Env, stored_title}
use supernote_task_service.Repository.Mapping.{status_value}
use supernote_task_service.Repository.TaskReads.{task_exists, row_matches_version}

-- `ts if status == TaskStatus.completed else 0`
unfoldable pub completion_time : ℕ → TaskStatus → ℕ
completion_time ts completed = ts
completion_time ts needs_action = 0

abbrev pub importance_text : Option ℕ → Option Text
importance_text none = none
importance_text (some n) = some (decimal n)

-- The `WHERE` of the conditional writes.
abbrev expected_clauses : Option ℕ → List TaskClause
expected_clauses none = []
expected_clauses (some m) = modified_at m ∷ []

-- An optional field of an update that is sent and not null.
abbrev pub when_set : {A : Type 0} → (A → List TaskAssignment) → Field A → List TaskAssignment
when_set f none = []
when_set f (some none) = []
when_set f (some (some a)) = f a

-- A field that null clears.
abbrev pub when_sent :
    {A : Type 0} → (Option A → List TaskAssignment) → Field A → List TaskAssignment
when_sent f none = []
when_sent f (some o) = f o

module _ (env : Env) where
  unfoldable pub link_text : Option DocumentLink → Option Text
  link_text none = none
  link_text (some d) = some (encode_document_link env.codec (link_payload d))

  -- `_next_sort`
  unfoldable pub next_sort : Option Text → Tables → ℕ
  next_sort list_id db = sort_after 0 (
      keep (all_hold env.server (in_list_or_inbox list_id ∷ by_user env.user_id ∷ active ∷ []))
        db.tasks)

  abbrev pub sort_or_next : Option ℕ → Option Text → Tables → ℕ
  sort_or_next none list_id db = next_sort list_id db
  sort_or_next (some n) list_id db = n

  -- The row that `create_task` inserts.
  unfoldable pub new_row : Text → ℕ → TaskCreate → Tables → TaskRow
  unfolding completion_time link_text
  new_row task_id ts c db = record {
    task_id = task_id;
    task_list_id = c.list_id;
    user_id = env.user_id;
    title = some (stored_title env c.title);
    detail = some (encode_detail c.detail);
    last_modified = some ts;
    status = status_value c.status;
    importance = importance_text c.importance;
    due_time = some (dt_to_ms env.floats c.due);
    completed_time = some (completion_time ts c.status);
    links = link_text c.document_link;
    is_deleted = false;
    sort = some (sort_or_next c.sort c.list_id db);
    is_reminder_on = false;
    sort_completed = some 0;
    planer_sort = some 0;
    all_sort = none;
    all_sort_completed = none;
    sort_time = some ts;
    planer_sort_time = some 0;
    all_sort_time = none;
  }

  -- `create_task`, with the identifier of `new_id()` and the reading of `now_ms()`.
  unfoldable pub create_task : Text → ℕ → TaskCreate → Tables → Tables × Text
  unfolding new_row
  create_task task_id ts c db =
      (record db { tasks = db.tasks ++ new_row task_id ts c db ∷ [] }, task_id)

  -- The list `sets` of `update_task`, before `last_modified` is added.
  unfoldable pub update_sets : TaskUpdate → ℕ → List TaskAssignment
  unfolding completion_time link_text
  update_sets u completed_at =
      when_set (λ t. set_title (stored_title env t) ∷ []) u.title
      ++ (when_set (λ t. set_detail (encode_detail t) ∷ []) u.detail
          ++ (when_set
                (λ s.
                  assign_status (status_value s)
                  ∷ set_completed_time (completion_time completed_at s)
                  ∷ [])
                u.status
              ++ (when_sent (λ i. set_importance (importance_text i) ∷ []) u.importance
                  ++ (when_sent (λ d. set_due_time (dt_to_ms env.floats d) ∷ []) u.due
                      ++ (when_set (λ n. set_sort n ∷ []) u.sort
                          ++ (when_sent (λ l. set_task_list_id l ∷ []) u.list_id
                              ++ when_sent (λ d. set_links (link_text d) ∷ []) u.document_link))))))

  unfoldable pub active_task : Text → Option ℕ → List TaskClause
  active_task task_id expected =
      has_id task_id ∷ by_user env.user_id ∷ active ∷ expected_clauses expected

  -- `UPDATE t_schedule_task SET … WHERE …`, and whether `affected > 0`.
  unfoldable pub run_update : List TaskAssignment → List TaskClause → Tables → Tables × Bool
  run_update sets where_ db =
      let u = update_rows env.server sets where_ db.tasks in
      (record db { tasks = u.rows }, ltb 0 u.affected)

  abbrev pub matches : Text → Option ℕ → Tables → Bool
  matches task_id none db = task_exists env task_id db
  matches task_id (some m) db = row_matches_version env task_id m db

  abbrev pub update_with : List TaskAssignment → Text → ℕ → Option ℕ → Tables → Tables × Bool
  update_with [] task_id modified_at_ expected db = (db, matches task_id expected db)
  update_with (s ∷ sets) task_id now expected db =
      run_update ((s ∷ sets) ++ set_last_modified now ∷ []) (active_task task_id expected) db

  -- `update_task`, with the readings of `now_ms()` for `completed_time` and for `last_modified`.
  unfoldable pub update_task : Text → TaskUpdate → Option ℕ → ℕ → ℕ → Tables → Tables × Bool
  update_task task_id u expected completed_at now db =
      update_with (update_sets u completed_at) task_id now expected db

  -- `set_status`
  unfoldable pub set_status : Text → TaskStatus → Option ℕ → ℕ → ℕ → Tables → Tables × Bool
  unfolding update_task
  set_status task_id s expected completed_at now db =
      update_task task_id (record no_fields { status = some (some s) }) expected completed_at now db

  -- `delete_task`
  unfoldable pub delete_task : Text → Option ℕ → ℕ → Tables → Tables × Bool
  delete_task task_id expected now db =
      run_update (set_deleted ∷ set_last_modified now ∷ []) (active_task task_id expected) db
