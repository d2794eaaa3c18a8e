-- ===== src/Api/Blind/Rows.antt =====
-- Statements that name the user read and write the rows of the user alone.
use supernote_task_service.Common.{
  ℕ, ◌≡◌, refl, ◌∙◌, sym, ap, inl, inr, Bool, true, false, Option, none, some, List, [], ◌∷◌, ◌++◌,
  arith, keep, take, ltb, ◌==◌, Bool-cases,
}
use supernote_task_service.Sql.{
  Tables, TaskRow, GroupRow, JoinedRow, left_join, join_row, joined_titles,
}
use supernote_task_service.Sql.Tasks.{
  TaskClause, TaskAssignment, Update, all_hold, select_joined, any_task, update_rows,
}
use supernote_task_service.Repository.{Env}
use supernote_task_service.Repository.TaskWrites.{run_update}
use supernote_task_service.Repository.Writes.Deleted.{keep-append, wanted, keep-join_row}
use supernote_task_service.Api.Writes.{assign_all-user}
use supernote_task_service.Api.Blind.{mine, Agree}

module _ (env : Env) (where_ : List TaskClause) where
  -- The clauses hold of no row of another user.
  abbrev pub IsOwn : Type 0
  IsOwn = (r : TaskRow) → (r.user_id == env.user_id) ≡ false → all_hold env.server where_ r ≡ false

  module _ (own : IsOwn) where
    keep-mine :
        (ts : List TaskRow)
        → keep (all_hold env.server where_) (mine env ts) ≡ keep (all_hold env.server where_) ts
    keep-mine [] = refl
    keep-mine (t ∷ ts) = let o = own t in let rest = keep-mine ts in ground arith

    left_join-mine :
        (ts : List TaskRow) (gs : List GroupRow)
        → keep (wanted env.server where_) (left_join env.server (mine env ts) gs)
          ≡ keep (wanted env.server where_) (left_join env.server ts gs)
    unfolding left_join
    left_join-mine [] gs = refl
    left_join-mine (t ∷ ts) gs =
        let rest = left_join-mine ts gs in
        let first = join_row t (joined_titles env.server t.task_list_id gs) in
        elim (Bool-cases (t.user_id == env.user_id)) [
          | inl e ↦ rw e (
              keep-append (wanted env.server where_) first _
              ∙ ap (λ z. keep (wanted env.server where_) first ++ z) rest
              ∙ sym (keep-append (wanted env.server where_) first _))
          | inr e ↦ rw e (
              rest
              ∙ sym (
                  keep-append (wanted env.server where_) first _
                  ∙ rw
                      (keep-join_row env.server where_ t
                        (joined_titles env.server t.task_list_id gs) (own t e))
                      refl))
        ]

    pub select_joined-Agree :
        (le : JoinedRow → JoinedRow → Bool) (limit : Option ℕ) (db db' : Tables)
        → Agree env db db'
        → select_joined env.server le where_ limit db ≡ select_joined env.server le where_ limit db'
    unfolding select_joined
    select_joined-Agree le limit db db' (tasks, groups) =
        let same : keep (wanted env.server where_) (left_join env.server db.tasks db.groups)
            ≡ keep (wanted env.server where_) (left_join env.server db'.tasks db'.groups) =
          sym (left_join-mine db.tasks db.groups)
          ∙ rw (tasks, groups) (left_join-mine db'.tasks db'.groups) in
        ap
          (λ rows. elim limit as (λ _. List JoinedRow) [
            | none ↦ env.server.order_joined le rows
            | some n ↦ take n (env.server.order_joined le rows)
          ])
          same

    pub keep-Agree :
        (db db' : Tables)
        → Agree env db db'
        → keep (all_hold env.server where_) db.tasks ≡ keep (all_hold env.server where_) db'.tasks
    keep-Agree db db' (tasks, _) =
        sym (keep-mine db.tasks)
        ∙ ap (keep (all_hold env.server where_)) tasks
        ∙ keep-mine db'.tasks

    pub any_task-Agree :
        (db db' : Tables)
        → Agree env db db'
        → any_task env.server where_ db ≡ any_task env.server where_ db'
    unfolding any_task
    any_task-Agree db db' a =
        ap (λ rows. elim rows as (λ _. Bool) [ [] ↦ false | r ∷ rs ↦ true ]) (keep-Agree db db' a)

    -- An update of the user's rows alone is that of all rows, seen by the user.
    update_rows-mine :
        (sets : List TaskAssignment) (ts : List TaskRow)
        → ((update_rows env.server sets where_ (mine env ts)).rows
            ≡ mine env (update_rows env.server sets where_ ts).rows)
          × ((update_rows env.server sets where_ (mine env ts)).affected
              ≡ (update_rows env.server sets where_ ts).affected)
    unfolding update_rows
    update_rows-mine sets [] = (refl, refl)
    update_rows-mine sets (t ∷ ts) =
        let (rows, affected) = update_rows-mine sets ts in
        let o = own t in
        let u = assign_all-user sets t in
        elim (Bool-cases (t.user_id == env.user_id)) [
          | inl e ↦ elim (Bool-cases (all_hold env.server where_ t)) [
            | inl h ↦ (rw (e, h, u, e, rows) refl, rw (e, h, affected) refl)
            | inr h ↦ (rw (e, h, e, rows) refl, rw (e, h, affected) refl)
          ]
          | inr e ↦ (rw (e, own t e, e, rows) refl, rw (e, own t e, affected) refl)
        ]

    pub run_update-Agree :
        (sets : List TaskAssignment) (db db' : Tables)
        → Agree env db db'
        → let (s, done) = run_update env sets where_ db in
          let (s', done') = run_update env sets where_ db' in (done ≡ done') × Agree env s s'
    unfolding run_update
    run_update-Agree sets db db' (tasks, groups) =
        let (rows, affected) = update_rows-mine sets db.tasks in
        let (rows', affected') = update_rows-mine sets db'.tasks in
        let both = ap (update_rows env.server sets where_) tasks in
        (
          ap (λ n. ltb 0 n)
              (sym affected ∙ ap (λ (u : Update TaskRow). u.affected) both ∙ affected'),
          (sym rows ∙ ap (λ (u : Update TaskRow). u.rows) both ∙ rows', groups),
        )
