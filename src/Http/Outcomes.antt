-- ===== src/Http/Outcomes.antt =====
-- What the handlers of routers/tasks.py and routers/lists.py answer, on every branch.
use supernote_task_service.Common.{
  length, ◌≤◌, ap, sym, ℕ, ◌≡◌, refl, Bool, true, false, ◌&&◌, Option, none, some, arith, Text,
  Option-cases, inl, inr, is_some, if◌then◌else◌, ◌∙◌,
}
use supernote_task_service.Models.{
  list_title_max, Task, TaskUpdate, TaskList, TaskStatus, no_fields, completed, needs_action,
}
use supernote_task_service.Encoding.{encode_emoji}
use supernote_task_service.Sql.{Tables, TaskRow}
use supernote_task_service.Sql.Laws.{IsServer}
use supernote_task_service.Repository.{Env}
use supernote_task_service.Repository.TaskReads.{task_exists}
use supernote_task_service.Repository.TaskWrites as Writes
use supernote_task_service.Repository.Lists.{get_list_by_title}
use supernote_task_service.Repository.Lists as Repo
use supernote_task_service.Repository.Writes.Conditional.{
  IsUnusedTime, is_matched, update_task_reports, update_task-no_match, delete_task_reports,
  delete_task-no_match,
}
use supernote_task_service.Repository.Writes.Fields.{FitsTitle}
use supernote_task_service.Repository.Writes.Rows.{
  with_task, patched, with_status, update_task_tables, delete_task_tables,
}
use supernote_task_service.Repository.Writes.Titles.{get_list_by_title-create_list}
use supernote_task_service.Repository.Writes.Repeated.{set_status_twice}
use supernote_task_service.Http.Failures.{
  Handler, ◌>>◌, ◌>>=◌, runs, ok, raised, list_not_found, task_not_found,
}
use supernote_task_service.Http.Tasks as Tasks
use supernote_task_service.Http.Tasks.{
  Readings, missing_list, require_task, ensure_list_exists, resolve_write,
}
use supernote_task_service.Http.Lists as Lists
use supernote_task_service.Repository.TaskWrites.{new_row}
use supernote_task_service.Http.Writes.{
  refusal, lists_missing, guarded, resolve_write_lem, resolved, answered,
}

module _ (env : Env) where
  -- A handler that answers by reading the task leaves the tables as the write made them.
  resolved-tables :
      (task_id : Text) (conditional done : Bool) (s : Tables)
      → ((resolve_write env task_id done conditional >> require_task env task_id) s).1 ≡ s
  unfolding resolve_write require_task
  resolved-tables task_id conditional true s = ground arith
  resolved-tables task_id conditional false s = ground arith

  make_list-tables :
      (id : Text) (ts : ℕ) (title : Text) (db : Tables)
      → (Lists.make_list env id ts title none db).1 ≡ (Repo.create_list env id ts title db).0
  make_list-tables id ts title db = ground arith

module _ (env : Env) where
  unmatched_kept :
      (task_id : Text) (body : TaskUpdate) (expected : Option ℕ) (at : Readings) (db : Tables)
      → is_matched env task_id expected db ≡ false
      → (Writes.update_task env task_id body expected at.completed_at at.now db).0 ≡ db
  unmatched_kept task_id body expected at db e =
      ap (λ (p : Tables × Bool). p.0)
        (update_task-no_match env task_id body expected at.completed_at at.now db e)

  -- The handler for a status.
  abbrev pub status_handler : TaskStatus → Text → Option ℕ → Readings → Handler Tables Task
  status_handler completed = Tasks.complete_task env
  status_handler needs_action = Tasks.uncomplete_task env

module _ (env : Env) (law : IsServer env.server) where
  -- At a clock reading that no row was written at, and for a title, if one is sent, whose encoding
  -- fits its column, `update_task` answers 404 if the list that it is
  -- to move to is missing; otherwise, if the task is there at the expected version, it answers with
  -- the task as read back from the tables in which its row has the columns that were sent and the
  -- new time, if a field was set, and every other row is as it was; otherwise it leaves the tables
  -- alone and answers 409 if a version was expected and the task is there, and 404 if not.
  pub update_task_answers :
      (task_id : Text) (body : TaskUpdate) (expected : Option ℕ) (at : Readings) (db : Tables)
      → IsUnusedTime at.now db.tasks
      → FitsTitle body.title
      → Tasks.update_task env task_id body expected at db ≡ (
          if lists_missing env body.list_id db
          then (raised list_not_found, db)
          else if is_matched env task_id expected db
          then require_task env task_id
              (with_task env (patched env body at.completed_at at.now) task_id expected db)
          else (raised (refusal (is_some expected && task_exists env task_id db)), db))
  unfolding Tasks.update_task
  update_task_answers task_id body expected at db l fits =
      let w = Writes.update_task env task_id body expected at.completed_at at.now in
      let reports : (w db).1 ≡ is_matched env task_id expected db =
        update_task_reports env law task_id body expected at.completed_at at.now db l in
      guarded env body.list_id
        (runs w >>= λ done.
          resolve_write env task_id done (is_some expected) >> require_task env task_id)
        db
      ∙ ap (λ z. if lists_missing env body.list_id db then (raised list_not_found, db) else z)
          (answered env (require_task env task_id) w task_id (is_some expected)
            (is_matched env task_id expected db) db reports
            (unmatched_kept env task_id body expected at db))
      ∙ ap
          (λ z.
            if lists_missing env body.list_id db
            then (raised list_not_found, db)
            else if is_matched env task_id expected db
            then require_task env task_id z
            else (raised (refusal (is_some expected && task_exists env task_id db)), db))
          (update_task_tables env law task_id body expected at.completed_at at.now db fits)

  status_answered :
      (s : TaskStatus) (task_id : Text) (expected : Option ℕ) (at : Readings) (db : Tables)
      → IsUnusedTime at.now db.tasks
      → let w = Writes.set_status env task_id s expected at.completed_at at.now in
        (runs w >>= λ done.
        resolve_write env task_id done (is_some expected) >> require_task env task_id)
          db
        ≡ (if is_matched env task_id expected db
            then require_task env task_id
                (with_task env (with_status env s at.completed_at at.now) task_id expected db)
            else (raised (refusal (is_some expected && task_exists env task_id db)), db))
  unfolding Writes.set_status
  status_answered s task_id expected at db l =
      let body : TaskUpdate = record no_fields { status = some (some s) } in
      answered env (require_task env task_id)
        (Writes.set_status env task_id s expected at.completed_at at.now) task_id (is_some expected)
        (is_matched env task_id expected db) db
        (update_task_reports env law task_id body expected at.completed_at at.now db l)
        (unmatched_kept env task_id body expected at db)
      ∙ ap
          (λ z.
            if is_matched env task_id expected db
            then require_task env task_id z
            else (raised (refusal (is_some expected && task_exists env task_id db)), db))
          (update_task_tables env law task_id body expected at.completed_at at.now db tt)

  -- At a clock reading that no row was written at, `complete_task` and `uncomplete_task` answer
  -- with the task, as read back from the tables in which its row has the status, the time of
  -- completion or 0, and the new time, and every other row is as it was, if it is there at the
  -- expected version; otherwise they leave the tables alone and answer 409 if a version was
  -- expected and the task is there, and 404 if not.
  pub set_status_answers :
      (s : TaskStatus) (task_id : Text) (expected : Option ℕ) (at : Readings) (db : Tables)
      → IsUnusedTime at.now db.tasks
      → status_handler env s task_id expected at db ≡ (
          if is_matched env task_id expected db
          then require_task env task_id
              (with_task env (with_status env s at.completed_at at.now) task_id expected db)
          else (raised (refusal (is_some expected && task_exists env task_id db)), db))
  unfolding Tasks.complete_task Tasks.uncomplete_task Writes.set_status
  set_status_answers completed task_id expected at db l =
      status_answered completed task_id expected at db l
  set_status_answers needs_action task_id expected at db l =
      status_answered needs_action task_id expected at db l

  -- `delete_task` answers 204 and leaves the tables with the task marked as deleted and dated, and
  -- every other row as it was, if it is there at the expected version and no row was written at the
  -- clock reading; otherwise it answers 409 or 404 as the others, and leaves the tables alone.
  pub delete_task_answers :
      (task_id : Text) (expected : Option ℕ) (now : ℕ) (db : Tables)
      → IsUnusedTime now db.tasks
      → Tasks.delete_task env task_id expected now db ≡ (
          if is_matched env task_id expected db
          then (
            ok tt,
            with_task env
                (λ r. record r { is_deleted = true; last_modified = some now })
                task_id
                expected
                db,
          )
          else (raised (refusal (is_some expected && task_exists env task_id db)), db))
  unfolding Tasks.delete_task
  delete_task_answers task_id expected now db l =
      let w = Writes.delete_task env task_id expected now db in
      let reports = delete_task_reports env law task_id expected now db l in
      rw (← reports) (
        resolve_write_lem env task_id (is_some expected) w.1 w.0 db (λ e.
          ap (λ (p : Tables × Bool). p.0)
            (delete_task-no_match env task_id expected now db (sym reports ∙ e))))
      ∙ ap
          (λ z.
            if is_matched env task_id expected db
            then (ok tt, z)
            else (raised (refusal (is_some expected && task_exists env task_id db)), db))
          (delete_task_tables env task_id expected now db)

  -- `create_list` is idempotent by title: after a request with a title whose encoding fits its
  -- column, a second one with the same
  -- title answers 200 with a list and changes nothing.
  pub create_list_again :
      (first second : Text) (ts ts' : ℕ) (title : Text) (db : Tables)
      → length (encode_emoji title) ≤ list_title_max
      → let db' = (Lists.create_list env first ts title db).1 in
        (l : TaskList) × (Lists.create_list env second ts' title db' ≡ (ok (200, l), db'))
  unfolding Lists.create_list
  create_list_again first second ts ts' title db short =
      elim (Option-cases (get_list_by_title env title db)) [
        | inr (l, e) ↦ (l, rw (e, e) refl)
        | inl e ↦
            let (l, f) = get_list_by_title-create_list env law first ts title db short in
            (l, rw e (rw (make_list-tables env first ts title db, f) refl))
      ]

-- On a server that counts no unchanged row, to complete a task twice at the same clock reading is
-- answered by 404 the second time, whether or not the task is there.
pub complete_task_twice :
    (env : Env) (uncounted : (r : TaskRow) → env.server.counts r r ≡ false) (task_id : Text)
    (at : Readings) (db : Tables)
    → let db' = (Tasks.complete_task env task_id none at db).1 in
      Tasks.complete_task env task_id none at db' ≡ (raised task_not_found, db')
unfolding Tasks.complete_task
complete_task_twice env uncounted task_id at db =
    let w = Writes.set_status env task_id completed none at.completed_at at.now db in
    rw
      (
        resolved-tables env task_id false w.1 w.0,
        set_status_twice env uncounted task_id completed none at.completed_at at.now db,
      )
      (resolved env (require_task env task_id) task_id false false w.0 w.0 (λ _. refl))
