-- ===== src/Repository/Sync/Promises.antt =====
-- The promises of a delta page to a client that goes on from its cursor.
use mathlib.Core.Logic.{◌∨₁◌, ∨₁_prop, ∥∥₁_elim}
use mathlib.Core.HLevel.{⊥_prop}
use mathlib.Core.Bool.{false≢true}
use native.Mathlib.Bridge.{le_prop}
use native.Mathlib.Nat.{ℕ_set}
use mathlib.Core.Logic.Or
use mathlib.Core.Path.{subst}
use mathlib.Core.List.{mem-append_left, mem-append_right, mem-append, not-mem-nil}
use mathlib.Core.List.Perm
use supernote_task_service.Common.{
  ℕ, ◌+◌, ◌≤◌, ◌<◌, ◌≡◌, ◌≢◌, ◌∙◌, Bool, true, false, some, List, ◌++◌, Mem, arith, Text, first?,
  last?, take, drop, ◌==◌, Bool-cases, inl, inr, ◌⊎◌,
}
use supernote_task_service.Common.Members.{
  mem-keep, mem-keep_of_mem, mem_take-or-drop, drop_short, mem_of_mem-take, first-le, mem-last?,
  mem-first?, le-last,
}
use supernote_task_service.Models.{Task}
use supernote_task_service.Sql.{left_join, Tables, JoinedRow, joined_order, same_text, text_lt}
use supernote_task_service.Sql.Tasks.{all_hold, select_joined}
use supernote_task_service.Sql.Laws.{IsServer, joined_order-IsOrder, joined_order_le, text_lt_of_ne}
use supernote_task_service.Repository.{Env, clamp_limit}
use supernote_task_service.Repository.Mapping.{row_to_task}
use supernote_task_service.Repository.TaskReads.{
  TaskQuery, drain_clauses, drain_tasks_at, list_tasks,
}
use supernote_task_service.Repository.Sync.Mapped.{
  row_to_task-Keeps, Mapped, rows_to_tasks-Mapped, Mapped-length, Mapped-mem, Mapped-last,
  Mapped-first, Mapped-origin,
}
use supernote_task_service.Repository.Sync.Unique.{unique_elim}
use supernote_task_service.Repository.Sync.Pages.{Finished, short, full, drained}
use supernote_task_service.Repository.Sync.Rows.{
  Asked, asked_rows, mem-asked_rows, Asked_of_mem, asked_rows-Sorted, Asked-drain_clauses,
  drain_clauses_time,
}
use supernote_task_service.Repository.Sync.Complete.{
  IsKeyed, list_tasks_cases, task_time, page, Behind, behind_last,
}

module _ (env : Env) (law : IsServer env.server) (q : TaskQuery) (now since : ℕ)
    (delta : q.since ≡ some since) (db : Tables) where
  -- The drain delivers every row of the boundary millisecond that is asked for and comes after.
  drain_complete :
      (boundary : ℕ) (after : Text) (rest : List Task) (r : JoinedRow) (t : Task)
      → drain_tasks_at env boundary after q.list_id q.inbox_only db ≡ some rest
      → Asked env q now db r
      → r.task.last_modified ≡ some boundary
      → text_lt env.server after r.task.task_id ≡ true
      → row_to_task env r ≡ some t
      → Mem t rest
  unfolding drain_tasks_at select_joined
  drain_complete boundary after rest r t e a time lt f =
      Mapped-mem env _ rest (rows_to_tasks-Mapped env _ rest e)
        ((Perm.mem_iff (law.joined_perm _ _)).1 (
          mem-keep_of_mem
            (λ (s : JoinedRow).
              all_hold env.server (drain_clauses env boundary after q.list_id q.inbox_only) s.task)
            _ a.0 (Asked-drain_clauses env q now since delta db r boundary after a time lt)))
        f

  abbrev Delivered : List Task → ℕ → Task → Type 0
  Delivered ts cursor t = Mem t ts ∨₁ (cursor ≤ t.last_modified)

  drained_or_later :
      (tasks rest : List Task) (l t : Task) (r : JoinedRow)
      → IsKeyed env db
      → Mapped env (page env law q now since delta db db) tasks
      → drain_tasks_at env l.last_modified l.id q.list_id q.inbox_only db ≡ some rest
      → Asked env q now db r
      → row_to_task env r ≡ some t
      → Behind env law q now since delta db db l t r
      → Mem t (tasks ++ rest) ∨₁ (l.last_modified + 1 ≤ t.last_modified)
  drained_or_later tasks rest l t r keyed mapped found a f b =
      let n = clamp_limit q.limit in
      let rows = asked_rows env q now db in
      let row_asked = Asked_of_mem env q now db law b.row (mem_of_mem-take n rows b.delivered) in
      let time =
        (task_time env law q now since delta db db r t (mem-asked_rows env q now db law r a) f).0 in
      let id = (row_to_task-Keeps env b.row l b.mapped).id in
      elim (Bool-cases (l.last_modified == t.last_modified)) [
        | inr later ↦ let le = b.le in Or.inr (ground arith)
        | inl same_time ↦
            let e : l.last_modified ≡ t.last_modified = ground arith in
            elim (Bool-cases (same_text env.server l.id r.task.task_id)) [
              | inl same ↦
                  unique_elim env.server (λ (z : JoinedRow). z.task.task_id)
                    (left_join env.server db.tasks db.groups) b.row r ∨₁_prop keyed row_asked.0 a.0
                    (rw id at same)
                    (λ p. Or.inl (
                      mem-append_left rest (
                        Mapped-mem env (page env law q now since delta db db) tasks mapped
                          (subst (λ s. Mem s (page env law q now since delta db db)) p b.delivered)
                          f)))
              | inr differ ↦ Or.inl (
                  mem-append_right tasks (
                    drain_complete l.last_modified l.id rest r t found a (rw e time)
                      (text_lt_of_ne env.server l.id r.task.task_id (b.after e) differ) f))
            ]
      ]

  -- Nothing is lost: on tables that stand still, and in whose join no identifier is repeated, every
  -- row that a delta query asks for is on the page if it reads as a task, or the task's time is not
  -- before the cursor, so that the next call asks for it again.
  pub page_complete :
      (ts : List Task) (cursor : ℕ) (more : Bool) (r : JoinedRow) (t : Task)
      → IsKeyed env db
      → list_tasks env q now db db ≡ some (ts, cursor, more)
      → Asked env q now db r
      → row_to_task env r ≡ some t
      → Mem t ts ∨₁ (cursor ≤ t.last_modified)
  page_complete ts cursor more r t keyed e a f =
      let (tasks, mapped, finished) =
        list_tasks_cases env law q now since delta db db ts cursor more e in
      Or.elim ∨₁_prop
        (mem_take-or-drop (clamp_limit q.limit) (asked_rows env q now db)
          (mem-asked_rows env q now db law r a))
        (λ here. on_page tasks finished (Mapped-mem env _ tasks mapped here f))
        (λ m. off_page tasks mapped finished m)
    where
      rows : List JoinedRow
      rows = asked_rows env q now db

      off_page :
          (tasks : List Task)
          → Mapped env (page env law q now since delta db db) tasks
          → Finished env q now db tasks ts cursor more
          → Mem r (drop (clamp_limit q.limit) rows)
          → Mem t ts ∨₁ (cursor ≤ t.last_modified)
      off_page tasks mapped (short few _ _ _) m =
          let none_left =
            drop_short (clamp_limit q.limit) rows
              (λ p. few (Mapped-length env _ tasks mapped ∙ p)) in
          absurd (not-mem-nil (subst (Mem r) none_left m))
      off_page tasks mapped (full _ l _ last _ _ _ c _) m =
          Or.inr (rw c (behind_last env law q now since delta db db tasks l t r mapped last m f).le)
      off_page tasks mapped (drained _ l rest _ last _ _ found p c _) m =
          rw (p, c)
            (drained_or_later tasks rest l t r keyed mapped found a f
              (behind_last env law q now since delta db db tasks l t r mapped last m f))

      on_page :
          (tasks : List Task)
          → Finished env q now db tasks ts cursor more
          → Mem t tasks
          → Mem t ts ∨₁ (cursor ≤ t.last_modified)
      on_page tasks (short _ p _ _) m = Or.inl (rw p m)
      on_page tasks (full _ _ _ _ _ _ p _ _) m = Or.inl (rw p m)
      on_page tasks (drained _ _ rest _ _ _ _ _ p _ _) m = Or.inl (rw p (mem-append_left rest m))

  -- The first and the last time of a page lie in the window, in order.
  pub page_ends :
      (tasks : List Task) (f l : Task)
      → Mapped env (page env law q now since delta db db) tasks
      → first? tasks ≡ some f
      → last? tasks ≡ some l
      → (since ≤ f.last_modified) × (f.last_modified ≤ l.last_modified) × (l.last_modified ≤ now)
  page_ends tasks f l mapped first last =
      let n = clamp_limit q.limit in
      let rows = asked_rows env q now db in
      let (r, first_row, fr) = Mapped-first env _ tasks mapped first in
      let (s, last_row, fs) = Mapped-last env _ tasks mapped last in
      let r_in = mem_of_mem-take n rows (mem-first? (take n rows) first_row) in
      let s_in = mem_of_mem-take n rows (mem-last? (take n rows) last_row) in
      let ordered =
        first-le (joined_order env.server) n rows (joined_order-IsOrder env.server)
          (asked_rows-Sorted env q now db law) first_row s_in in
      let (r_time, lo, _) = task_time env law q now since delta db db r f r_in fr in
      let (s_time, _, hi) = task_time env law q now since delta db db s l s_in fs in
      (
        lo,
        (joined_order_le env.server r s f.last_modified l.last_modified r_time s_time ordered).0,
        hi,
      )

  -- How a page can end: all is delivered up to now; or it is capped, and its cursor is past the one
  -- it was asked with; or one millisecond was drained, and the cursor is past that one.
  abbrev pub Advances : ℕ → Bool → Type 0
  Advances cursor more =
      ((more ≡ false) × (cursor ≡ now))
      ⊎ (((more ≡ true) × (since < cursor) × (cursor ≤ now))
          ⊎ ((more ≡ false) × (since < cursor) × (cursor ≤ now + 1)))

  -- Paging cannot stall: a page that announces more has a cursor past the one it was asked with and
  -- not past the clock; any other page ends at the clock, or moves the cursor past a millisecond.
  pub page_progress :
      (ts : List Task) (cursor : ℕ) (more : Bool)
      → list_tasks env q now db db ≡ some (ts, cursor, more)
      → Advances cursor more
  page_progress ts cursor more e =
      let (tasks, mapped, finished) =
        list_tasks_cases env law q now since delta db db ts cursor more e in
      progress tasks mapped finished
    where
      progress :
          (tasks : List Task)
          → Mapped env (page env law q now since delta db db) tasks
          → Finished env q now db tasks ts cursor more
          → Advances cursor more
      progress tasks mapped (short _ _ c m) = inl (m, c)
      progress tasks mapped (full f l first last ne _ _ c m) =
          let ends = page_ends tasks f l mapped first last in
          inr (inl (m, grind arith, omega arith))
      progress tasks mapped (drained f l rest first last same _ found p c m) =
          let ends = page_ends tasks f l mapped first last in
          inr (inr (m, omega arith, omega arith))

  -- No task of a page has a time past its last one.
  page_le_last :
      (tasks : List Task) (l t : Task)
      → Mapped env (page env law q now since delta db db) tasks
      → last? tasks ≡ some l
      → Mem t tasks
      → t.last_modified ≤ l.last_modified
  page_le_last tasks l t mapped last m =
      let n = clamp_limit q.limit in
      let rows = asked_rows env q now db in
      let (s, last_row, fs) = Mapped-last env _ tasks mapped last in
      let s_in = mem_of_mem-take n rows (mem-last? (take n rows) last_row) in
      let (s_time, _, _) = task_time env law q now since delta db db s l s_in fs in
      ∥∥₁_elim (Mapped-origin env _ tasks mapped m) le_prop λ (r, i, f).
        let (r_time, _, _) =
          task_time env law q now since delta db db r t (mem_of_mem-take n rows i) f in
        let ordered =
          le-last (joined_order env.server) n rows (joined_order-IsOrder env.server)
            (asked_rows-Sorted env q now db law) last_row i in
        (joined_order_le env.server r s t.last_modified l.last_modified r_time s_time ordered).0

  -- What is drained has the time of the boundary.
  drained_time :
      (boundary : ℕ) (after : Text) (rest : List Task) (t : Task)
      → drain_tasks_at env boundary after q.list_id q.inbox_only db ≡ some rest
      → Mem t rest
      → t.last_modified ≡ boundary
  unfolding drain_tasks_at select_joined
  drained_time boundary after rest t e m =
      ∥∥₁_elim (Mapped-origin env _ rest (rows_to_tasks-Mapped env _ rest e) m) (ℕ_set _ _)
        λ (r, i, f).
          let kept =
            mem-keep
              (λ (s : JoinedRow).
                all_hold env.server (drain_clauses env boundary after q.list_id q.inbox_only)
                  s.task)
              _ ((Perm.mem_iff (law.joined_perm _ _)).0 i) in
          let k = row_to_task-Keeps env r t f in
          drain_clauses_time env q boundary after r t k.modified kept.1

  -- A delta page that announces no more, and whose cursor is not the clock, delivers no task with a
  -- time from its cursor on, whether or not the query asks for it.
  pub drained_page_hides :
      (ts : List Task) (cursor : ℕ) (t : Task)
      → list_tasks env q now db db ≡ some (ts, cursor, false)
      → cursor ≢ now
      → cursor ≤ t.last_modified
      → ¬ Mem t ts
  drained_page_hides ts cursor t e ne le m =
      let (tasks, mapped, finished) =
        list_tasks_cases env law q now since delta db db ts cursor false e in
      hides tasks mapped finished
    where
      hides :
          (tasks : List Task)
          → Mapped env (page env law q now since delta db db) tasks
          → Finished env q now db tasks ts cursor false
          → ⊥
      hides tasks mapped (short _ _ c _) = ne c
      hides tasks mapped (full _ _ _ _ _ _ _ _ p) = false≢true p
      hides tasks mapped (drained f l rest first last same _ found p c _) =
          Or.elim ⊥_prop (mem-append.0 (subst (Mem t) p m))
            (λ i. let h = page_le_last tasks l t mapped last i in omega arith)
            (λ i. let h = drained_time l.last_modified l.id rest t found i in omega arith)
