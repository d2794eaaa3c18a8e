-- ===== src/Api/Values.antt =====
-- What the service writes it can read, but for its times: every row that a call writes has a status
-- and a link that read again.
use supernote_task_service.Common.{
  ℕ, ◌≡◌, refl, inl, inr, true, Option, List, [], ◌∷◌, arith, Text, All, All-append, map,
  Bool-cases,
}
use supernote_task_service.Encoding.Links.{IsCodec}
use supernote_task_service.Models.{TaskCreate, valid_create, valid_update}
use supernote_task_service.Sql.{Tables, TaskRow}
use supernote_task_service.Sql.Tasks.{
  TaskAssignment, TaskClause, set_last_modified, update_rows, all_hold,
}
use supernote_task_service.Repository.{Env}
use supernote_task_service.Repository.Mapping.{row_to_task}
use supernote_task_service.Repository.TaskWrites as Writes
use supernote_task_service.Repository.TaskWrites.{link_text, when_set, when_sent}
use supernote_task_service.Repository.Lists as Repo
use supernote_task_service.Repository.Writes.Updates.{updated, update_rows-map}
use supernote_task_service.Api.{Moment}
use supernote_task_service.Api.Steps.{IsWriteRelation}
use supernote_task_service.Api.Assignments.{
  GoodAssignment, IsSound, assign_all-Good, status_value-Good, link_text-Good, update_sets-Good,
}

module _ (env : Env) (law : IsCodec env.codec) where
  -- An update by good assignments leaves rows whose status and link read.
  updated-IsSound :
      (sets : List TaskAssignment) (where_ : List TaskClause) (rows : List TaskRow)
      → All (GoodAssignment env) sets
      → All (IsSound env) rows
      → All (IsSound env) (update_rows env.server sets where_ rows).rows
  unfolding updated row_to_task
  updated-IsSound sets where_ rows g h =
      rw (update_rows-map env.server sets where_ rows) (go rows h)
    where
      one : (r : TaskRow) → IsSound env r → IsSound env (updated env.server sets where_ r)
      one r a = elim (Bool-cases (all_hold env.server where_ r)) [
        | inl e ↦ rw (updated, e) (assign_all-Good env sets r g a)
        | inr e ↦ rw (updated, e) a
      ]

      go :
          (rs : List TaskRow)
          → All (IsSound env) rs
          → All (IsSound env) (map (updated env.server sets where_) rs)
      go [] a = tt
      go (r ∷ rs) a = (one r a.0, go rs a.1)

  new_row-IsSound :
      (id : Text) (ts : ℕ) (c : TaskCreate) (db : Tables)
      → valid_create c ≡ true
      → IsSound env (Writes.new_row env id ts c db)
  unfolding Writes.new_row valid_create
  new_row-IsSound id ts c db v =
      (status_value-Good env c.status, link_text-Good env law c.document_link (ground arith))

  -- From tables whose rows have a status and a link that read to such tables.
  abbrev pub KeepsSound : Tables → Tables → Type 0
  KeepsSound db db' = All (IsSound env) db.tasks → All (IsSound env) db'.tasks

  update_with-KeepsSound :
      (sets : List TaskAssignment) (id : Text) (now : ℕ) (expected : Option ℕ) (db : Tables)
      → All (GoodAssignment env) sets
      → KeepsSound db (Writes.update_with env sets id now expected db).0
  unfolding Writes.run_update
  update_with-KeepsSound [] id now expected db g h = h
  update_with-KeepsSound (s ∷ sets) id now expected db g h =
      updated-IsSound _ _ db.tasks
        (All-append (GoodAssignment env) (s ∷ sets) (set_last_modified now ∷ []) g (tt, tt)) h

  pub values-IsWriteRelation : (m : Moment) → IsWriteRelation env m KeepsSound
  unfolding Writes.create_task Writes.update_task Writes.set_status Writes.delete_task
      Writes.run_update Repo.create_list Repo.update_list Repo.delete_list Repo.run_update
      valid_update
  values-IsWriteRelation m = record {
    unchanged = λ db h. h;
    create_task = λ body db v h.
        All-append (IsSound env) db.tasks _ h (new_row-IsSound m.new_id m.now body db v, tt);
    update_task = λ id body expected db v.
        update_with-KeepsSound (Writes.update_sets env body m.completed_at) id m.now expected db
          (update_sets-Good env law body m.completed_at (ground arith));
    set_status = λ id s expected db.
        update_with-KeepsSound _ id m.now expected db
          (update_sets-Good env law _ m.completed_at refl);
    delete_task = λ id expected db h. updated-IsSound _ _ db.tasks (tt, (tt, tt)) h;
    create_list = λ title db h. h;
    update_list = λ id title expected db h. h;
    delete_list = λ id expected db h. h;
  }
