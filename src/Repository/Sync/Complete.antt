-- ===== src/Repository/Sync/Complete.antt =====
-- What a page of a delta query promises, on tables that stand still while it is fetched.
use supernote_task_service.Common.{
  false, List, ℕ, ◌≤◌, ◌≡◌, Bool, false, some, List, Mem, arith, last?, take, drop, Option-cases,
  inl, inr,
}
use supernote_task_service.Common.Members.{
  last-le-drop, mem_of_mem-take, mem_of_mem-drop, mem-last?,
}
use supernote_task_service.Models.{Task}
use supernote_task_service.Sql.{Server, Tables, JoinedRow, left_join, joined_order, text_lt}
use supernote_task_service.Sql.Laws.{IsServer, joined_order_le}
use supernote_task_service.Repository.{Env, clamp_limit}
use supernote_task_service.Repository.Mapping.{row_to_task, rows_to_tasks}
use supernote_task_service.Repository.TaskReads.{TaskQuery, page_rows, list_tasks}
use supernote_task_service.Repository.Sync.Mapped.{
  row_to_task-Keeps, Mapped, rows_to_tasks-Mapped, Mapped-last,
}
use supernote_task_service.Repository.Sync.Unique.{IsUniqueBy}
use supernote_task_service.Repository.Sync.Pages.{Finished, finish_page-Finished}
use supernote_task_service.Repository.Sync.Rows.{
  asked_rows, page_rows-take, Asked_of_mem, asked_rows-Sorted, Asked-window,
}

-- Every row differs from the rows behind it in its identifier.
abbrev pub IsUnique : Server → List JoinedRow → Type 0
IsUnique sv = IsUniqueBy sv (λ (r : JoinedRow). r.task.task_id)

-- `task_id` is the primary key, and a task joins at most one group: no two rows of the join have the
-- same identifier.
abbrev pub IsKeyed : Env → Tables → Type 0
IsKeyed env db = IsUnique env.server (left_join env.server db.tasks db.groups)

module _ (env : Env) (law : IsServer env.server) (q : TaskQuery) (now since : ℕ)
    (delta : q.since ≡ some since) (db later : Tables) where
  pub list_tasks_cases :
      (ts : List Task) (cursor : ℕ) (more : Bool)
      → list_tasks env q now db later ≡ some (ts, cursor, more)
      → (tasks : List Task) × Mapped env
          (take (clamp_limit q.limit) (asked_rows env q now db))
          tasks
        × Finished env q now later tasks ts cursor more
  unfolding list_tasks
  list_tasks_cases ts cursor more e =
      elim (Option-cases (rows_to_tasks env (page_rows env q now db))) [
        | inl failed ↦ ground arith
        | inr (tasks, mapped) ↦ (
          tasks,
          rows_to_tasks-Mapped env _ tasks (rw page_rows-take at mapped),
          finish_page-Finished env q now later tasks ts cursor more (rw delta) (ground arith),
        )
      ]

  abbrev pub page : List JoinedRow
  page = take (clamp_limit q.limit) (asked_rows env q now db)

  abbrev pub behind : List JoinedRow
  behind = drop (clamp_limit q.limit) (asked_rows env q now db)

  -- The time of a task whose row is asked for.
  pub task_time :
      (r : JoinedRow) (t : Task)
      → Mem r (asked_rows env q now db)
      → row_to_task env r ≡ some t
      → (r.task.last_modified ≡ some t.last_modified)
        × (since ≤ t.last_modified)
        × (t.last_modified ≤ now)
  task_time r t m e =
      let (n, f, lo, hi) =
        Asked-window env q now since delta db r (Asked_of_mem env q now db law r m) in
      let k = row_to_task-Keeps env r t e in (ground arith, ground arith, ground arith)

  -- The last row of the page, and that a row behind the page comes after it.
  pub record Behind (l t : Task) (r : JoinedRow) : Type 0 where
    pub row : JoinedRow
    pub delivered : Mem row page
    pub mapped : row_to_task env row ≡ some l
    pub le : l.last_modified ≤ t.last_modified
    pub after : l.last_modified ≡ t.last_modified → text_lt env.server r.task.task_id l.id ≡ false

  pub behind_last :
      (tasks : List Task) (l t : Task) (r : JoinedRow)
      → Mapped env page tasks
      → last? tasks ≡ some l
      → Mem r behind
      → row_to_task env r ≡ some t
      → Behind l t r
  behind_last tasks l t r mapped last m e =
      let (s, last_row, f) = Mapped-last env page tasks mapped last in
      let i = mem-last? page last_row in
      let ordered =
        last-le-drop (joined_order env.server) (clamp_limit q.limit) (asked_rows env q now db)
          (asked_rows-Sorted env q now db law) last_row m in
      let (s_time, _, _) =
        task_time s l (mem_of_mem-take (clamp_limit q.limit) (asked_rows env q now db) i) f in
      let (r_time, _, _) =
        task_time r t (mem_of_mem-drop (clamp_limit q.limit) (asked_rows env q now db) m) e in
      let both =
        joined_order_le env.server s r l.last_modified t.last_modified s_time r_time ordered in
      record {
        row = s;
        delivered = i;
        mapped = f;
        le = both.0;
        after = rw (row_to_task-Keeps env s l f).id both.1;
      }
