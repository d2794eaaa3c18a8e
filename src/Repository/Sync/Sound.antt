-- ===== src/Repository/Sync/Sound.antt =====
-- A delta page delivers nothing that the query does not ask for.
use mathlib.Core.Logic.{∥∥₁_prop, ∥∥₁_map}
use mathlib.Core.Logic.Or
use mathlib.Core.List.{mem-append}
use mathlib.Core.List.Perm
use supernote_task_service.Common.{ℕ, ◌≡◌, ◌≤◌, Bool, some, List, Mem, arith, Text}
use supernote_task_service.Common.Members.{mem-keep, mem_of_mem-take}
use supernote_task_service.Models.{Task}
use supernote_task_service.Sql.{Tables, JoinedRow}
use supernote_task_service.Sql.Tasks.{all_hold, select_joined}
use supernote_task_service.Sql.Laws.{IsServer}
use supernote_task_service.Repository.{Env, clamp_limit}
use supernote_task_service.Repository.Mapping.{row_to_task}
use supernote_task_service.Repository.TaskReads.{
  TaskQuery, drain_clauses, drain_tasks_at, list_tasks,
}
use supernote_task_service.Repository.Sync.Mapped.{Mapped, rows_to_tasks-Mapped, Mapped-origin}
use supernote_task_service.Repository.Sync.Pages.{Finished, short, full, drained}
use supernote_task_service.Repository.Sync.Rows.{
  Asked, asked_rows, Asked_of_mem, drain_clauses-task_clauses,
}
use supernote_task_service.Repository.Sync.Complete.{list_tasks_cases, page}
use supernote_task_service.Repository.Sync.Promises.{page_ends}

module _ (env : Env) (law : IsServer env.server) (q : TaskQuery) (now since : ℕ)
    (delta : q.since ≡ some since) (db : Tables) where
  -- The task is what a row that is asked for is read as.
  abbrev pub ComesFrom : Task → Type 0
  ComesFrom t = ∥ ((r : JoinedRow) × Asked env q now db r × (row_to_task env r ≡ some t)) ∥₁

  page_comes :
      (tasks : List Task) (t : Task)
      → Mapped env (page env law q now since delta db db) tasks
      → Mem t tasks
      → ComesFrom t
  page_comes tasks t mapped m = ∥∥₁_map (Mapped-origin env _ tasks mapped m) (λ (r, i, e). (
    r,
    Asked_of_mem env q now db law r
        (mem_of_mem-take (clamp_limit q.limit) (asked_rows env q now db) i),
    e,
  ))

  drain_comes :
      (boundary : ℕ) (after : Text) (rest : List Task) (t : Task)
      → since ≤ boundary
      → boundary ≤ now
      → drain_tasks_at env boundary after q.list_id q.inbox_only db ≡ some rest
      → Mem t rest
      → ComesFrom t
  unfolding drain_tasks_at select_joined
  drain_comes boundary after rest t lo hi e m =
      ∥∥₁_map (Mapped-origin env _ rest (rows_to_tasks-Mapped env _ rest e) m) (λ (r, i, f).
        let kept =
          mem-keep
            (λ (s : JoinedRow).
              all_hold env.server (drain_clauses env boundary after q.list_id q.inbox_only) s.task)
            _ ((Perm.mem_iff (law.joined_perm _ _)).0 i) in
        (
          r,
          (kept.0, drain_clauses-task_clauses env q now since delta boundary after r lo hi kept.1),
          f,
        ))

  -- On tables that stand still, whatever a delta page delivers, drained or not, the query asks for.
  pub page_sound :
      (ts : List Task) (cursor : ℕ) (more : Bool) (t : Task)
      → list_tasks env q now db db ≡ some (ts, cursor, more)
      → Mem t ts
      → ComesFrom t
  page_sound ts cursor more t e m =
      let (tasks, mapped, finished) =
        list_tasks_cases env law q now since delta db db ts cursor more e in
      comes tasks mapped finished
    where
      comes :
          (tasks : List Task)
          → Mapped env (page env law q now since delta db db) tasks
          → Finished env q now db tasks ts cursor more
          → ComesFrom t
      comes tasks mapped (short _ p _ _) = page_comes tasks t mapped (rw p at m)
      comes tasks mapped (full _ _ _ _ _ _ p _ _) = page_comes tasks t mapped (rw p at m)
      comes tasks mapped (drained f l rest first last _ _ found p _ _) =
          let ends = page_ends env law q now since delta db tasks f l mapped first last in
          Or.elim ∥∥₁_prop (mem-append.0 (rw p at m)) (λ i. page_comes tasks t mapped i)
            (λ j. drain_comes l.last_modified l.id rest t (omega arith) ends.2 found j)
