-- ===== src/Api/Blind/Methods.antt =====
-- The methods of the repository on tables that agree.
use supernote_task_service.Common.{
  ℕ, ◌≡◌, refl, ◌∙◌, sym, ap, Bool, true, false, Option, none, some, List, [], ◌∷◌, ◌++◌, arith,
  Text, Option-cases, last?, ◌>>=◌, ◌+◌, inl, inr,
}
use supernote_task_service.Models.{Task, TaskCreate, TaskUpdate}
use supernote_task_service.Sql.{Tables, joined_order, joined_id_order}
use supernote_task_service.Sql.Tasks.{
  TaskAssignment, all_hold, holds, has_id, by_user, active, modified_at, in_list_or_inbox,
  sort_after,
}
use supernote_task_service.Repository.{Env, clamp_limit}
use supernote_task_service.Repository.Mapping.{rows_to_tasks}
use supernote_task_service.Repository.TaskReads as Reads
use supernote_task_service.Repository.TaskReads.{
  TaskQuery, page_rows, finish_page, drained_page, drain_tasks_at, drain_clauses, task_clauses,
  one_task,
}
use supernote_task_service.Repository.TaskWrites as Writes
use supernote_task_service.Repository.TaskWrites.{active_task, new_row, next_sort}
use supernote_task_service.Repository.Writes.Deleted.{keep-append}
use supernote_task_service.Api.Blind.{Agree}
use supernote_task_service.Api.Blind.Rows.{
  IsOwn, select_joined-Agree, keep-Agree, any_task-Agree, run_update-Agree,
}

module _ (env : Env) where
  task_clauses-IsOwn : (q : TaskQuery) (now : ℕ) → IsOwn env (task_clauses env q now)
  unfolding task_clauses all_hold holds
  task_clauses-IsOwn q now r e = ground arith

  drain_clauses-IsOwn :
      (b : ℕ) (i : Text) (l : Option Text) (o : Bool) → IsOwn env (drain_clauses env b i l o)
  unfolding drain_clauses all_hold holds
  drain_clauses-IsOwn b i l o r e = ground arith

  one_task-IsOwn : (id : Text) → IsOwn env (one_task env id)
  unfolding one_task all_hold holds
  one_task-IsOwn id r e = ground arith

  active_task-IsOwn : (id : Text) (expected : Option ℕ) → IsOwn env (active_task env id expected)
  unfolding active_task all_hold holds
  active_task-IsOwn id expected r e = ground arith

  module _ (db db' : Tables) (a : Agree env db db') where
    page_rows-Agree : (q : TaskQuery) (now : ℕ) → page_rows env q now db ≡ page_rows env q now db'
    unfolding page_rows
    page_rows-Agree q now =
        select_joined-Agree env (task_clauses env q now) (task_clauses-IsOwn q now)
          (joined_order env.server) (some (clamp_limit q.limit)) db db' a

    drained_page-Agree :
        (q : TaskQuery) (tasks : List Task) (o : Option Task)
        → drained_page env q tasks o db ≡ drained_page env q tasks o db'
    unfolding drained_page drain_tasks_at
    drained_page-Agree q tasks none = refl
    drained_page-Agree q tasks (some t) =
        ap
          (λ rows.
            rows_to_tasks env rows >>= λ rest. some (tasks ++ rest, t.last_modified + 1, false))
          (select_joined-Agree env (drain_clauses env t.last_modified t.id q.list_id q.inbox_only)
            (drain_clauses-IsOwn t.last_modified t.id q.list_id q.inbox_only)
            (joined_id_order env.server) none db db' a)

    finish_page-Agree :
        (q : TaskQuery) (now : ℕ) (tasks : List Task)
        → finish_page env q now db tasks ≡ finish_page env q now db' tasks
    unfolding finish_page
    finish_page-Agree q now tasks =
        let same = drained_page-Agree q tasks (last? tasks) in ground arith

    pub list_tasks-Agree :
        (q : TaskQuery) (now : ℕ)
        → Reads.list_tasks env q now db db ≡ Reads.list_tasks env q now db' db'
    unfolding Reads.list_tasks
    list_tasks-Agree q now =
        let page = page_rows-Agree q now in
        elim (Option-cases (rows_to_tasks env (page_rows env q now db'))) [
          | inl failed ↦ rw (page, failed) refl
          | inr (tasks, f) ↦ rw (page, f) (finish_page-Agree q now tasks)
        ]

    pub get_task-Agree : (id : Text) → Reads.get_task env id db ≡ Reads.get_task env id db'
    unfolding Reads.get_task
    get_task-Agree id =
        ap (Reads.fetchone env) (
          select_joined-Agree env (one_task env id) (one_task-IsOwn id) (λ _ _. true) none db db' a)

    pub task_exists-Agree : (id : Text) → Reads.task_exists env id db ≡ Reads.task_exists env id db'
    unfolding Reads.task_exists
    task_exists-Agree id = any_task-Agree env (one_task env id) (one_task-IsOwn id) db db' a

    row_matches_version-Agree :
        (id : Text) (n : ℕ)
        → Reads.row_matches_version env id n db ≡ Reads.row_matches_version env id n db'
    unfolding Reads.row_matches_version all_hold holds
    row_matches_version-Agree id n =
        any_task-Agree env (has_id id ∷ by_user env.user_id ∷ active ∷ modified_at n ∷ [])
          (λ r e. ground arith) db db' a

    next_sort-Agree : (l : Option Text) → next_sort env l db ≡ next_sort env l db'
    unfolding next_sort all_hold holds
    next_sort-Agree l = ap (sort_after 0) (
        keep-Agree env (in_list_or_inbox l ∷ by_user env.user_id ∷ active ∷ [])
          (λ r e. ground arith) db db' a)

    new_row-Agree :
        (id : Text) (ts : ℕ) (c : TaskCreate) → new_row env id ts c db ≡ new_row env id ts c db'
    unfolding new_row
    new_row-Agree id ts c =
        ap (λ n. record (new_row env id ts c db) { sort = some n }) (position c.sort)
      where
        position :
            (o : Option ℕ)
            → Writes.sort_or_next env o c.list_id db ≡ Writes.sort_or_next env o c.list_id db'
        position none = next_sort-Agree c.list_id
        position (some n) = refl

    pub create_task-Agree :
        (id : Text) (ts : ℕ) (c : TaskCreate)
        → Agree env (Writes.create_task env id ts c db).0 (Writes.create_task env id ts c db').0
    unfolding Writes.create_task
    create_task-Agree id ts c = (
      keep-append _ db.tasks _ ∙ rw (a.0, new_row-Agree id ts c) (sym (keep-append _ db'.tasks _)),
      a.1,
    )

    pub update_task-Agree :
        (id : Text) (u : TaskUpdate) (expected : Option ℕ) (at now : ℕ)
        → let (s, done) = Writes.update_task env id u expected at now db in
          let (s', done') = Writes.update_task env id u expected at now db' in
          (done ≡ done') × Agree env s s'
    unfolding Writes.update_task
    update_task-Agree id u expected at now = go (Writes.update_sets env u at)
      where
        same :
            (expected : Option ℕ)
            → Writes.matches env id expected db ≡ Writes.matches env id expected db'
        same none = task_exists-Agree id
        same (some n) = row_matches_version-Agree id n

        go :
            (sets : List TaskAssignment)
            → let (s, done) = Writes.update_with env sets id now expected db in
              let (s', done') = Writes.update_with env sets id now expected db' in
              (done ≡ done') × Agree env s s'
        go [] = (same expected, a)
        go (x ∷ xs) =
            run_update-Agree env (active_task env id expected) (active_task-IsOwn id expected) _ db
              db' a

    pub delete_task-Agree :
        (id : Text) (expected : Option ℕ) (now : ℕ)
        → let (s, done) = Writes.delete_task env id expected now db in
          let (s', done') = Writes.delete_task env id expected now db' in
          (done ≡ done') × Agree env s s'
    unfolding Writes.delete_task
    delete_task-Agree id expected now =
        run_update-Agree env (active_task env id expected) (active_task-IsOwn id expected) _ db db'
          a
