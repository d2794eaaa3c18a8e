-- ===== src/Repository/Writes/Conditional.antt =====
-- The outcome of `update_task` and `delete_task`, with and without an expected version.
use supernote_task_service.Common.{
  ℕ, ◌≡◌, ◌≢◌, refl, ◌∙◌, Bool, true, false, Option, none, some, List, [], ◌∷◌, ◌++◌, arith, Text,
  if◌then◌else◌, map, any, All,
}
use supernote_task_service.Models.{TaskUpdate}
use supernote_task_service.Sql.{Tables, TaskRow}
use supernote_task_service.Sql.Tasks.{
  TaskClause, TaskAssignment, assign_all, all_hold, set_last_modified, set_deleted,
}
use supernote_task_service.Sql.Laws.{IsServer}
use supernote_task_service.Repository.{Env}
use supernote_task_service.Repository.TaskReads.{task_exists, row_matches_version}
use supernote_task_service.Repository.TaskWrites.{
  active_task, run_update, update_sets, update_task, delete_task, update_with, matches,
}
use supernote_task_service.Repository.Writes.Updates.{
  updated, update_rows-map, Changes, affected-any, any_task-any, assign_all-time,
  update_rows-no_match, update_rows-same,
}

-- No row was written at the clock reading.
abbrev pub IsUnusedTime : ℕ → List TaskRow → Type 0
IsUnusedTime now rows = All (λ r. r.last_modified ≢ some now) rows

module _ (env : Env) where
  -- Some active task of the user has the identifier, and the version if one is expected.
  unfoldable pub is_matched : Text → Option ℕ → Tables → Bool
  is_matched task_id expected db =
      any (all_hold env.server (active_task env task_id expected)) db.tasks

  matches_lem :
      (task_id : Text) (expected : Option ℕ) (db : Tables)
      → matches env task_id expected db ≡ is_matched task_id expected db
  unfolding is_matched task_exists row_matches_version active_task
  matches_lem task_id none db = any_task-any env.server _ db
  matches_lem task_id (some m) db = any_task-any env.server _ db

module _ (env : Env) (law : IsServer env.server) where
  Changes-later :
      (sets : List TaskAssignment) (where_ : List TaskClause) (now : ℕ) (rows : List TaskRow)
      → IsUnusedTime now rows
      → All (Changes env.server (sets ++ set_last_modified now ∷ []) where_) rows
  Changes-later sets where_ now [] l = tt
  Changes-later sets where_ now (r ∷ rs) l = (
    λ _. law.counts_changed r _ (λ e. l.0 (e ∙ assign_all-time sets now r)),
    Changes-later sets where_ now rs l.1,
  )

  run_update-reports :
      (sets : List TaskAssignment) (task_id : Text) (expected : Option ℕ) (now : ℕ) (db : Tables)
      → IsUnusedTime now db.tasks
      → (run_update env
          (sets ++ set_last_modified now ∷ [])
          (active_task env task_id expected)
          db).1
        ≡ is_matched env task_id expected db
  unfolding run_update is_matched
  run_update-reports sets task_id expected now db l =
      affected-any env.server _ _ db.tasks
        (Changes-later sets (active_task env task_id expected) now db.tasks l)

  update_with-reports :
      (sets : List TaskAssignment) (task_id : Text) (expected : Option ℕ) (now : ℕ) (db : Tables)
      → IsUnusedTime now db.tasks
      → (update_with env sets task_id now expected db).1 ≡ is_matched env task_id expected db
  update_with-reports [] task_id expected now db l = matches_lem env task_id expected db
  update_with-reports (s ∷ sets) task_id expected now db l =
      run_update-reports (s ∷ sets) task_id expected now db l

  -- At a clock reading that no row was written at, `update_task` answers whether the user has an
  -- active task with the identifier, at the expected version if one is given; also if no field is
  -- set.
  pub update_task_reports :
      (task_id : Text) (u : TaskUpdate) (expected : Option ℕ) (completed_at now : ℕ) (db : Tables)
      → IsUnusedTime now db.tasks
      → (update_task env task_id u expected completed_at now db).1
        ≡ is_matched env task_id expected db
  unfolding update_task
  update_task_reports task_id u expected completed_at now db l =
      update_with-reports (update_sets env u completed_at) task_id expected now db l

  -- At a clock reading that no row was written at, `delete_task` answers whether the user has an
  -- active task with the identifier, at the expected version if one is given.
  pub delete_task_reports :
      (task_id : Text) (expected : Option ℕ) (now : ℕ) (db : Tables)
      → IsUnusedTime now db.tasks
      → (delete_task env task_id expected now db).1 ≡ is_matched env task_id expected db
  unfolding delete_task
  delete_task_reports task_id expected now db l =
      run_update-reports (set_deleted ∷ []) task_id expected now db l

module _ (env : Env) where
  run_update-no_match :
      (sets : List TaskAssignment) (where_ : List TaskClause) (db : Tables)
      → any (all_hold env.server where_) db.tasks ≡ false
      → run_update env sets where_ db ≡ (db, false)
  unfolding run_update
  run_update-no_match sets where_ db h = ground (
    arith,
    update_rows-same env.server sets where_ db.tasks h,
    update_rows-no_match env.server sets where_ db.tasks h,
  )

  update_with-no_match :
      (sets : List TaskAssignment) (task_id : Text) (expected : Option ℕ) (now : ℕ) (db : Tables)
      → is_matched env task_id expected db ≡ false
      → update_with env sets task_id now expected db ≡ (db, false)
  update_with-no_match [] task_id expected now db h =
      rw (matches_lem env task_id expected db, h) refl
  update_with-no_match (s ∷ sets) task_id expected now db h =
      run_update-no_match _ (active_task env task_id expected) db (unfold is_matched in h)

  -- An update for which the user has no active task with the identifier, or not at the expected
  -- version, changes nothing and says so.
  pub update_task-no_match :
      (task_id : Text) (u : TaskUpdate) (expected : Option ℕ) (completed_at now : ℕ) (db : Tables)
      → is_matched env task_id expected db ≡ false
      → update_task env task_id u expected completed_at now db ≡ (db, false)
  unfolding update_task
  update_task-no_match task_id u expected completed_at now db h =
      update_with-no_match (update_sets env u completed_at) task_id expected now db h

  pub delete_task-no_match :
      (task_id : Text) (expected : Option ℕ) (now : ℕ) (db : Tables)
      → is_matched env task_id expected db ≡ false
      → delete_task env task_id expected now db ≡ (db, false)
  unfolding delete_task is_matched
  delete_task-no_match task_id expected now db h =
      run_update-no_match (set_deleted ∷ set_last_modified now ∷ [])
        (active_task env task_id expected) db h

  -- A row that was written at another time does not have the version.
  pub stale_row :
      (task_id : Text) (m now : ℕ) (r : TaskRow)
      → m ≢ now
      → r.last_modified ≡ some now
      → all_hold env.server (active_task env task_id (some m)) r ≡ false
  unfolding active_task all_hold
  stale_row task_id m now r ne e = ground arith

  stale_rows :
      (sets : List TaskAssignment) (task_id : Text) (m now : ℕ) (rows : List TaskRow)
      → m ≢ now
      → any (all_hold env.server (active_task env task_id (some m))) (
          map
            (updated env.server
              (sets ++ set_last_modified now ∷ [])
              (active_task env task_id (some m)))
            rows)
        ≡ false
  unfolding updated
  stale_rows sets task_id m now [] ne = refl
  stale_rows sets task_id m now (r ∷ rs) ne = ground (
    arith,
    stale_rows sets task_id m now rs ne,
    stale_row task_id m now (assign_all (sets ++ set_last_modified now ∷ []) r) ne,
    assign_all-time sets now r,
  )

  pub update_with-stale :
      (sets : List TaskAssignment) (task_id : Text) (m now : ℕ) (db : Tables)
      → sets ≢ []
      → m ≢ now
      → is_matched env task_id (some m) (update_with env sets task_id now (some m) db).0 ≡ false
  unfolding is_matched run_update
  update_with-stale [] task_id m now db h ne = absurd (h refl)
  update_with-stale (s ∷ sets) task_id m now db h ne =
      rw
        (update_rows-map env.server ((s ∷ sets) ++ set_last_modified now ∷ [])
          (active_task env task_id (some m)) db.tasks)
        (stale_rows (s ∷ sets) task_id m now db.tasks ne)

  -- `delete_task` removes no row: the tasks that match are marked and dated, the others are as they
  -- were.
  pub delete_task_rows :
      (task_id : Text) (expected : Option ℕ) (now : ℕ) (db : Tables)
      → (delete_task env task_id expected now db).0 ≡ record db {
        tasks =
            map
              (λ r.
                if all_hold env.server (active_task env task_id expected) r
                then record r { is_deleted = true; last_modified = some now }
                else r)
              db.tasks;
      }
  unfolding delete_task run_update updated assign_all
  delete_task_rows task_id expected now db =
      rw
        (update_rows-map env.server (set_deleted ∷ set_last_modified now ∷ [])
          (active_task env task_id expected) db.tasks)
        refl
