-- ===== src/Repository/Writes/Repeated.antt =====
-- `set_status` twice at the same clock reading, on a server that counts no unchanged row.
use supernote_task_service.Common.{ℕ, ◌≡◌, refl, false, Option, List, [], ◌∷◌, arith, Text, map}
use supernote_task_service.Models.{TaskStatus}
use supernote_task_service.Sql.{Server, Tables, TaskRow}
use supernote_task_service.Sql.Tasks.{
  TaskClause, TaskAssignment, assign_all, update_rows, set_last_modified, set_completed_time,
  set_status as assign_status,
}
use supernote_task_service.Repository.{Env}
use supernote_task_service.Repository.Mapping.{status_value}
use supernote_task_service.Repository.TaskWrites.{
  set_status, update_task, run_update, update_sets, active_task, completion_time,
}
use supernote_task_service.Repository.Writes.Updates.{updated, update_rows-map}

module _ (sv : Server) (uncounted : (r : TaskRow) → sv.counts r r ≡ false)
    (sets : List TaskAssignment)
    (again : (r : TaskRow) → assign_all sets (assign_all sets r) ≡ assign_all sets r)
    (where_ : List TaskClause) where
  update_rows-updated :
      (rows : List TaskRow)
      → (update_rows sv sets where_ (map (updated sv sets where_) rows)).affected ≡ 0
  unfolding update_rows updated
  update_rows-updated [] = refl
  update_rows-updated (r ∷ rs) =
      let rest = update_rows-updated rs in
      let same : sv.counts (assign_all sets r) (assign_all sets (assign_all sets r)) ≡ false =
        rw (again r) (uncounted (assign_all sets r)) in
      ground (arith, rest, same)

  updated-updated :
      (rows : List TaskRow)
      → map (updated sv sets where_) (map (updated sv sets where_) rows)
        ≡ map (updated sv sets where_) rows
  unfolding updated
  updated-updated [] = refl
  updated-updated (r ∷ rs) = ground (arith, updated-updated rs, again r)

-- The second time changes nothing and reports that nothing was found.
pub set_status_twice :
    (env : Env) (uncounted : (r : TaskRow) → env.server.counts r r ≡ false) (task_id : Text)
    (s : TaskStatus) (expected : Option ℕ) (completed_at now : ℕ) (db : Tables)
    → let db' = (set_status env task_id s expected completed_at now db).0 in
      set_status env task_id s expected completed_at now db' ≡ (db', false)
unfolding set_status update_task run_update update_sets assign_all
set_status_twice env uncounted task_id s expected completed_at now db =
    let sets : List TaskAssignment =
      assign_status (status_value s)
      ∷ set_completed_time (completion_time completed_at s)
      ∷ set_last_modified now
      ∷ [] in
    let where_ = active_task env task_id expected in
    rw
      (
        update_rows-map env.server sets where_ db.tasks,
        update_rows-map env.server sets where_ (map (updated env.server sets where_) db.tasks),
        updated-updated env.server uncounted sets (λ _. refl) where_ db.tasks,
        update_rows-updated env.server uncounted sets (λ _. refl) where_ db.tasks,
      )
      refl
