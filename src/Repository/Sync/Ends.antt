-- ===== src/Repository/Sync/Ends.antt =====
-- The client's loop comes to an end.
use mathlib.Core.List.{mem-cons_self, mem-cons_of_mem}
use mathlib.Core.List.Perm
use supernote_task_service.Common.{
  ℕ, ◌+◌, ◌≤◌, ◌<◌, ◌≡◌, refl, Bool, true, false, Option, none, some, List, [], ◌∷◌, ◌++◌, Mem,
  arith, length, Option-cases, inl, inr, All, is_some, first?, last?,
}
use supernote_task_service.Common.Members.{All-mem, Bool_eq_prop, mem-keep, mem_of_mem-take}
use supernote_task_service.Models.{Task}
use supernote_task_service.Sql.{Tables, JoinedRow, left_join}
use supernote_task_service.Sql.Tasks.{all_hold, select_joined}
use supernote_task_service.Sql.Laws.{IsServer}
use supernote_task_service.Repository.{Env, clamp_limit, is_single_ms_full_page}
use supernote_task_service.Repository.Mapping.{row_to_task, rows_to_tasks}
use supernote_task_service.Repository.TaskReads.{
  TaskQuery, list_tasks, finish_page, drained_page, drain_tasks_at, page_rows, drain_clauses,
  task_clauses,
}
use supernote_task_service.Repository.Sync.Promises.{page_progress, Advances}
use supernote_task_service.Repository.Sync.Client.{
  sync, from_cursor, Delivery, sync_last, sync_onward,
}

-- Every row of the join is read as a task.
abbrev pub IsReadable : Env → Tables → Type 0
IsReadable env db =
    All (λ r. is_some (row_to_task env r) ≡ true) (left_join env.server db.tasks db.groups)

module _ (env : Env) (law : IsServer env.server) (db : Tables) (readable : IsReadable env db) where
  reads :
      (rs : List JoinedRow)
      → ((r : JoinedRow) → Mem r rs → is_some (row_to_task env r) ≡ true)
      → is_some (rows_to_tasks env rs) ≡ true
  unfolding rows_to_tasks
  reads [] h = refl
  reads (r ∷ rs) h =
      let first = h r mem-cons_self in
      let others = reads rs (λ s m. h s (mem-cons_of_mem r m)) in ground arith

  page_reads :
      (q : TaskQuery) (now : ℕ) → is_some (rows_to_tasks env (page_rows env q now db)) ≡ true
  unfolding page_rows select_joined
  page_reads q now = reads _ λ r m.
      All-mem _ _ (λ _. Bool_eq_prop) readable
        (mem-keep (λ (s : JoinedRow). all_hold env.server (task_clauses env q now) s.task) _
          ((Perm.mem_iff (law.joined_perm _ _)).0 (mem_of_mem-take (clamp_limit q.limit) _ m))).0

  drain_reads :
      (boundary : ℕ) (after : List ℕ) (list_id : Option (List ℕ)) (inbox_only : Bool)
      → is_some (drain_tasks_at env boundary after list_id inbox_only db) ≡ true
  unfolding drain_tasks_at select_joined
  drain_reads boundary after list_id inbox_only = reads _ λ r m.
      All-mem _ _ (λ _. Bool_eq_prop) readable
        (mem-keep
          (λ (s : JoinedRow).
            all_hold env.server (drain_clauses env boundary after list_id inbox_only) s.task)
          _ ((Perm.mem_iff (law.joined_perm _ _)).0 m)).0

  finish_reads :
      (q : TaskQuery) (now : ℕ) (tasks : List Task)
      → is_some (finish_page env q now db tasks) ≡ true
  unfolding finish_page drained_page is_single_ms_full_page
  finish_reads q now tasks = elim (Option-cases (last? tasks)) [
    | inl nobody ↦ elim (Option-cases (first? tasks)) [
      | inl e ↦ ground arith
      | inr (f, e) ↦ ground arith
    ]
    | inr (l, e) ↦ ground (arith, drain_reads l.last_modified l.id q.list_id q.inbox_only)
  ]

  -- A call is answered.
  list_reads : (q : TaskQuery) (now : ℕ) → is_some (list_tasks env q now db db) ≡ true
  unfolding list_tasks
  list_reads q now = elim (Option-cases (rows_to_tasks env (page_rows env q now db))) [
    | inl failed ↦ let read = page_reads q now in ground arith
    | inr (tasks, e) ↦ let read = finish_reads q now tasks in ground arith
  ]

  -- The loop ends with a page that announces no more: if the clock readings do not pass a bound, and
  -- neither does the first cursor, one call for each millisecond from there to the bound is enough.
  pub sync_ends :
      (q : TaskQuery) (bound : ℕ) (clocks : List ℕ) (since : ℕ)
      → All (λ n. n ≤ bound) clocks
      → since ≤ bound
      → bound < since + length clocks
      → (ts : List Task) × (cursor : ℕ) × (sync env q db clocks since ≡ some (ts, cursor, false))
  sync_ends q bound [] since h le enough = absurd (omega arith)
  sync_ends q bound (now ∷ clocks) since h le enough =
      cases (list_tasks env (from_cursor q since) now db db) refl
        (list_reads (from_cursor q since) now)
        (λ c le' enough'. sync_ends q bound clocks c h.1 le' enough')
    where
      cases :
          (o : Option Delivery)
          → list_tasks env (from_cursor q since) now db db ≡ o
          → is_some (list_tasks env (from_cursor q since) now db db) ≡ true
          → ((c : ℕ)
              → c ≤ bound
              → bound < c + length clocks
              → (ts : List Task) × (cursor : ℕ) × (sync env q db clocks c
                  ≡ some (ts, cursor, false)))
          → (ts : List Task) × (cursor : ℕ) × (sync env q db (now ∷ clocks) since
              ≡ some (ts, cursor, false))
      cases none e s others = cc
      cases (some (ts, c, false)) e s others = (ts, c, sync_last env q db now clocks since e)
      cases (some (ts, c, true)) e s others =
          let ahead : Advances env law (from_cursor q since) now since refl db c true =
            page_progress env law (from_cursor q since) now since refl db ts c true e in
          let in_time : now ≤ bound = h.0 in
          let (rest, cursor, f) = others c (ground arith) (ground arith) in
          (ts ++ rest, cursor, sync_onward env q db now clocks since e f)
