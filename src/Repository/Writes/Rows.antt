-- ===== src/Repository/Writes/Rows.antt =====
-- What the writes of tasks make of the table: `update_task`, `set_status` and `delete_task` of
-- repository.py.
use supernote_task_service.Common.{
  ℕ, ◌≡◌, refl, ◌∙◌, sym, ap, Bool, true, not, ◌&&◌, Option, none, some, List, [], ◌∷◌, ◌++◌, arith,
  Text, if◌then◌else◌, map, ◌==◌,
}
use supernote_task_service.Models.{TaskUpdate, TaskStatus}
use supernote_task_service.Sql.{Tables, TaskRow, same_text, column}
use supernote_task_service.Sql.Tasks.{
  TaskAssignment, assign, assign_all, all_hold, holds, set_last_modified,
}
use supernote_task_service.Sql.Laws.{IsServer}
use supernote_task_service.Repository.{Env}
use supernote_task_service.Repository.TaskWrites.{
  update_task, delete_task, update_sets, active_task, run_update, update_with,
}
use supernote_task_service.Repository.Writes.Fields.{
  FitsTitle, sets_nothing, status_word, completed_or_0, with_fields, is_nil, nothing_set,
  assign_all-update_sets,
}
use supernote_task_service.Repository.Writes.Updates.{updated, update_rows-map}

module _ (env : Env) where
  -- The version of a row is the expected one, if one is expected.
  abbrev pub at_version : Option ℕ → TaskRow → Bool
  at_version none r = true
  at_version (some m) r = column (λ n. n == m) r.last_modified

  -- The active task of the user with the identifier, at the expected version.
  abbrev pub is_target : Text → Option ℕ → TaskRow → Bool
  is_target task_id expected r =
      same_text env.server r.task_id task_id
      && ((r.user_id == env.user_id) && (not r.is_deleted && at_version expected r))

  -- The tables in which the task is changed, and nothing else.
  abbrev pub with_task : (TaskRow → TaskRow) → Text → Option ℕ → Tables → Tables
  with_task f task_id expected db = record db {
    tasks = map (λ r. if is_target task_id expected r then f r else r) db.tasks;
  }

  -- A row that a request changes is dated; one that sets nothing leaves it as it is.
  abbrev pub patched : TaskUpdate → ℕ → ℕ → TaskRow → TaskRow
  patched u completed_at now r =
      if sets_nothing u
      then r
      else record (with_fields env u completed_at r) { last_modified = some now }

  abbrev pub with_status : TaskStatus → ℕ → ℕ → TaskRow → TaskRow
  with_status s completed_at now r = record r {
    status = status_word s;
    completed_time = some (completed_or_0 completed_at s);
    last_modified = some now;
  }

  target_lem :
      (task_id : Text) (expected : Option ℕ) (r : TaskRow)
      → all_hold env.server (active_task env task_id expected) r ≡ is_target task_id expected r
  unfolding all_hold holds active_task
  target_lem task_id none r = ground arith
  target_lem task_id (some m) r = ground arith

  -- A statement on the task, by what it makes of the row.
  run_update-with_task :
      (sets : List TaskAssignment) (f : TaskRow → TaskRow) (task_id : Text) (expected : Option ℕ)
      (db : Tables)
      → ((r : TaskRow) → assign_all sets r ≡ f r)
      → (run_update env sets (active_task env task_id expected) db).0
        ≡ with_task f task_id expected db
  unfolding run_update updated
  run_update-with_task sets f task_id expected db same =
      ap (λ rows. record db { tasks = rows })
        (update_rows-map env.server sets (active_task env task_id expected) db.tasks ∙ go db.tasks)
    where
      go :
          (rows : List TaskRow)
          → map (updated env.server sets (active_task env task_id expected)) rows
            ≡ map (λ r. if is_target task_id expected r then f r else r) rows
      go [] = refl
      go (r ∷ rs) = rw (target_lem task_id expected r, same r, go rs) refl

  pub delete_task_tables :
      (task_id : Text) (expected : Option ℕ) (now : ℕ) (db : Tables)
      → (delete_task env task_id expected now db).0
        ≡ with_task
            (λ r. record r { is_deleted = true; last_modified = some now })
            task_id
            expected
            db
  unfolding delete_task assign_all assign
  delete_task_tables task_id expected now db =
      run_update-with_task _ _ task_id expected db (λ r. refl)

  map_same :
      (p : TaskRow → Bool) (f : TaskRow → TaskRow) (rows : List TaskRow)
      → ((r : TaskRow) → f r ≡ r)
      → map (λ r. if p r then f r else r) rows ≡ rows
  map_same p f [] same = refl
  map_same p f (r ∷ rs) same = ground (arith, same r, map_same p f rs same)

  update_with-with_task :
      (u : TaskUpdate) (sets : List TaskAssignment) (task_id : Text) (now : ℕ) (expected : Option ℕ)
      (at : ℕ) (db : Tables)
      → is_nil sets ≡ sets_nothing u
      → ((more : List TaskAssignment) (r : TaskRow)
          → assign_all (sets ++ more) r ≡ assign_all more (with_fields env u at r))
      → (update_with env sets task_id now expected db).0
        ≡ with_task (patched u at now) task_id expected db
  unfolding assign_all assign
  update_with-with_task u [] task_id now expected at db e h =
      ap (λ rows. record db { tasks = rows })
        (sym
          (map_same (is_target task_id expected) (patched u at now) db.tasks (λ r. rw (← e) refl)))
  update_with-with_task u (s ∷ sets) task_id now expected at db e h =
      run_update-with_task _ _ task_id expected db
        (λ r. rw (← e) (h (set_last_modified now ∷ []) r))

  pub update_task_tables :
      (law : IsServer env.server) (task_id : Text) (u : TaskUpdate) (expected : Option ℕ)
      (completed_at now : ℕ) (db : Tables)
      → FitsTitle u.title
      → (update_task env task_id u expected completed_at now db).0
        ≡ with_task (patched u completed_at now) task_id expected db
  unfolding update_task
  update_task_tables law task_id u expected at now db fits =
      update_with-with_task u (update_sets env u at) task_id now expected at db
        (nothing_set env u at) (assign_all-update_sets env law u at fits)
