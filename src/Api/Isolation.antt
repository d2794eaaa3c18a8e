-- ===== src/Api/Isolation.antt =====
-- What no series of calls can do: to the rows of another user, and to a row that is deleted.
use mathlib.Core.Bool.{false≢true}
use supernote_task_service.Common.{◌≡◌, refl, ◌∙◌, sym, true, List, [], ◌∷◌, Mem}
use supernote_task_service.Common.Int.{ℤ}
use supernote_task_service.Sql.{Tables, TaskRow, GroupRow}
use supernote_task_service.Repository.{Env}
use supernote_task_service.Repository.TaskWrites as Repo
use supernote_task_service.Api.{Call, Moment, perform, run}
use supernote_task_service.Api.Evolution.{task_columns, group_columns, others, others_kept, stays}
use supernote_task_service.Api.Writes.{
  Step, Step-refl, update_task-Step, delete_task-Step, create_task-Step, update_list-Step,
  delete_list-Step, create_list-Step,
}
use supernote_task_service.Api.Steps.{IsWriteRelation, perform_related}

module _ (env : Env) where
  Step-IsWriteRelation : (m : Moment) → IsWriteRelation env m (Step env m)
  unfolding Repo.set_status
  Step-IsWriteRelation m = record {
    unchanged = Step-refl env m;
    create_task = λ body db _. create_task-Step env m body db;
    update_task =
        λ id body expected db _. update_task-Step env m id body expected m.completed_at db;
    set_status = λ id s expected db. update_task-Step env m id _ expected m.completed_at db;
    delete_task = delete_task-Step env m;
    create_list = create_list-Step env m;
    update_list = update_list-Step env m;
    delete_list = delete_list-Step env m;
  }

  -- A call changes the tables as its moment and its user allow.
  pub perform-Step :
      (max_age : ℤ) (c : Call) (m : Moment) (db : Tables)
      → Step env m db (perform env max_age c m db).1
  perform-Step max_age c m db =
      perform_related env m (Step env m) (Step-IsWriteRelation m) max_age c db

  -- No series of calls touches the rows of another user: in both tables they are afterwards what they
  -- were before, in the same order.
  pub run_isolates :
      (max_age : ℤ) (calls : List (Call × Moment)) (db : Tables)
      → (others task_columns env.user_id (run env max_age calls db).tasks
          ≡ others task_columns env.user_id db.tasks)
        × (others group_columns env.user_id (run env max_age calls db).groups
            ≡ others group_columns env.user_id db.groups)
  unfolding run
  run_isolates max_age [] db = (refl, refl)
  run_isolates max_age ((c, m) ∷ calls) db =
      let s = perform-Step max_age c m db in
      let rest = run_isolates max_age calls (perform env max_age c m db).1 in
      (
        rest.0 ∙ others_kept task_columns env.user_id m.now m.new_id db.tasks _ s.tasks,
        rest.1 ∙ others_kept group_columns env.user_id m.now m.new_id db.groups _ s.groups,
      )

  -- A deletion is final: whatever is called afterwards, a row that is marked as deleted stays in its
  -- table as it is.
  pub deletion_is_final :
      (max_age : ℤ) (calls : List (Call × Moment)) (db : Tables)
      → ((r : TaskRow)
          → r.is_deleted ≡ true
          → Mem r db.tasks
          → Mem r (run env max_age calls db).tasks)
        × ((r : GroupRow)
            → r.is_deleted ≡ true
            → Mem r db.groups
            → Mem r (run env max_age calls db).groups)
  unfolding run
  deletion_is_final max_age [] db = (λ r e m. m, λ r e m. m)
  deletion_is_final max_age ((c, m) ∷ calls) db =
      let s = perform-Step max_age c m db in
      let rest = deletion_is_final max_age calls (perform env max_age c m db).1 in
      (
        λ r e i. rest.0 r e (
            stays task_columns env.user_id m.now m.new_id db.tasks _ s.tasks
              (λ a. false≢true (sym a.0 ∙ e)) i),
        λ r e i. rest.1 r e (
            stays group_columns env.user_id m.now m.new_id db.groups _ s.groups
              (λ a. false≢true (sym a.0 ∙ e)) i),
      )
