-- ===== src/Api/Writes.antt =====
-- What each call may change of the two tables.
use supernote_task_service.Common.{
  ℕ, ◌≡◌, refl, ◌∙◌, inl, inr, true, Option, List, [], ◌∷◌, ◌++◌, arith, Text, Bool-cases,
}
use supernote_task_service.Models.{TaskCreate, TaskUpdate}
use supernote_task_service.Sql.{Tables, TaskRow, GroupRow}
use supernote_task_service.Sql.Tasks.{
  TaskAssignment, set_deleted, assign_all, assign, set_last_modified, all_hold, holds,
}
use supernote_task_service.Sql.Groups as Groups
use supernote_task_service.Sql.Groups.{GroupAssignment}
use supernote_task_service.Repository.{Env}
use supernote_task_service.Repository.TaskWrites as Writes
use supernote_task_service.Repository.TaskWrites.{active_task, new_row}
use supernote_task_service.Repository.Lists as Repo
use supernote_task_service.Repository.Writes.Updates.{
  updated, update_rows-map, assign_all-time, assign_all-id,
}
use supernote_task_service.Api.{Moment}
use supernote_task_service.Api.Evolution.{
  task_columns, group_columns, Written, Evolves, Evolves-refl, Evolves-append, Evolves-map,
}

assign-user : (a : TaskAssignment) (r : TaskRow) → (assign a r).user_id ≡ r.user_id
unfolding assign
assign-user set_deleted r = refl
assign-user _ r = refl

pub assign_all-user :
    (xs : List TaskAssignment) (r : TaskRow) → (assign_all xs r).user_id ≡ r.user_id
unfolding assign_all
assign_all-user [] r = refl
assign_all-user (a ∷ xs) r = assign_all-user xs (assign a r) ∙ assign-user a r

module _ (env : Env) (m : Moment) where
  -- Both tables change as a call at the moment may change them.
  pub record Step (db db' : Tables) : Type 0 where
    pub tasks : Evolves task_columns env.user_id m.now m.new_id db.tasks db'.tasks
    pub groups : Evolves group_columns env.user_id m.now m.new_id db.groups db'.groups

  pub Step-refl : (db : Tables) → Step db db
  Step-refl db = record {
    tasks = Evolves-refl _ _ _ _ db.tasks;
    groups = Evolves-refl _ _ _ _ db.groups;
  }

  task-Written :
      (sets : List TaskAssignment) (task_id : Text) (expected : Option ℕ) (r : TaskRow)
      → all_hold env.server (active_task env task_id expected) r ≡ true
      → Written task_columns env.user_id m.now m.new_id r
          (assign_all (sets ++ set_last_modified m.now ∷ []) r)
  unfolding all_hold holds active_task
  task-Written sets task_id expected r h = record {
    active = ground arith;
    owner = ground arith;
    same_id = assign_all-id _ r;
    same_owner = assign_all-user (sets ++ set_last_modified m.now ∷ []) r ∙ ground arith;
    stamped = assign_all-time sets m.now r;
  }

  run_update-Step :
      (sets : List TaskAssignment) (task_id : Text) (expected : Option ℕ) (db : Tables)
      → Step db
          (Writes.run_update env
            (sets ++ set_last_modified m.now ∷ [])
            (active_task env task_id expected)
            db).0
  unfolding Writes.run_update updated
  run_update-Step sets task_id expected db =
      let where_ = active_task env task_id expected in
      let all = sets ++ set_last_modified m.now ∷ [] in
      record {
        tasks = rw (update_rows-map env.server all where_ db.tasks) (
            Evolves-map _ _ _ _ (updated env.server all where_)
              (λ r. elim (Bool-cases (all_hold env.server where_ r)) [
                | inl h ↦ inr (rw h (task-Written sets task_id expected r h))
                | inr h ↦ inl (rw h refl)
              ])
              db.tasks);
        groups = Evolves-refl _ _ _ _ db.groups;
      }

  pub update_task-Step :
      (task_id : Text) (u : TaskUpdate) (expected : Option ℕ) (completed_at : ℕ) (db : Tables)
      → Step db (Writes.update_task env task_id u expected completed_at m.now db).0
  unfolding Writes.update_task
  update_task-Step task_id u expected completed_at db = go (Writes.update_sets env u completed_at)
    where
      go :
          (sets : List TaskAssignment)
          → Step db (Writes.update_with env sets task_id m.now expected db).0
      go [] = Step-refl db
      go (s ∷ sets) = run_update-Step (s ∷ sets) task_id expected db

  pub delete_task-Step :
      (task_id : Text) (expected : Option ℕ) (db : Tables)
      → Step db (Writes.delete_task env task_id expected m.now db).0
  unfolding Writes.delete_task
  delete_task-Step task_id expected db = run_update-Step (set_deleted ∷ []) task_id expected db

  pub create_task-Step :
      (body : TaskCreate) (db : Tables) → Step db (Writes.create_task env m.new_id m.now body db).0
  unfolding Writes.create_task new_row
  create_task-Step body db = record {
    tasks =
        Evolves-append _ _ _ _ db.tasks (new_row env m.new_id m.now body db)
          (record { fresh_id = refl; owner = refl; stamped = refl });
    groups = Evolves-refl _ _ _ _ db.groups;
  }

  group-Written :
      (a : GroupAssignment) (list_id : Text) (expected : Option ℕ) (r : GroupRow)
      → Groups.all_hold env.server (Repo.active_list env list_id expected) r ≡ true
      → Written group_columns env.user_id m.now m.new_id r
          (Groups.assign_all (a ∷ Groups.set_last_modified m.now ∷ []) r)
  unfolding Groups.all_hold Groups.holds Repo.active_list Groups.assign_all Groups.assign
  group-Written a list_id expected r h = record {
    active = ground arith;
    owner = ground arith;
    same_id = ground arith;
    same_owner = ground arith;
    stamped = refl;
  }

  group_rows-Evolves :
      (a : GroupAssignment) (list_id : Text) (expected : Option ℕ) (rows : List GroupRow)
      → Evolves group_columns env.user_id m.now m.new_id rows
          (Groups.update_rows env.server
            (a ∷ Groups.set_last_modified m.now ∷ [])
            (Repo.active_list env list_id expected)
            rows).rows
  unfolding Groups.update_rows
  group_rows-Evolves a list_id expected [] = tt
  group_rows-Evolves a list_id expected (r ∷ rs) =
      let rest = group_rows-Evolves a list_id expected rs in
      elim (Bool-cases (Groups.all_hold env.server (Repo.active_list env list_id expected) r)) [
        | inl h ↦ rw h (inr (group-Written a list_id expected r h), rest)
        | inr h ↦ rw h (inl refl, rest)
      ]

  pub update_list-Step :
      (list_id title : Text) (expected : Option ℕ) (db : Tables)
      → Step db (Repo.update_list env list_id title expected m.now db).0
  unfolding Repo.update_list Repo.run_update
  update_list-Step list_id title expected db = record {
    tasks = Evolves-refl _ _ _ _ db.tasks;
    groups = group_rows-Evolves _ list_id expected db.groups;
  }

  pub delete_list-Step :
      (list_id : Text) (expected : Option ℕ) (db : Tables)
      → Step db (Repo.delete_list env list_id expected m.now db).0
  unfolding Repo.delete_list Repo.run_update
  delete_list-Step list_id expected db = record {
    tasks = Evolves-refl _ _ _ _ db.tasks;
    groups = group_rows-Evolves _ list_id expected db.groups;
  }

  pub create_list-Step :
      (title : Text) (db : Tables) → Step db (Repo.create_list env m.new_id m.now title db).0
  unfolding Repo.create_list
  create_list-Step title db = record {
    tasks = Evolves-refl _ _ _ _ db.tasks;
    groups =
        Evolves-append _ _ _ _ db.groups _
          (record { fresh_id = refl; owner = refl; stamped = refl });
  }
