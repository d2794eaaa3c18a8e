-- ===== src/Repository/Sync/Rows.antt =====
-- The rows that a delta query asks for, those that its page fetches, and those that a drain fetches.
use mathlib.Core.List.Perm
use supernote_task_service.Sql.Tasks.{modified_between}
use supernote_task_service.Common.{
  ℕ, ◌≤◌, ◌≡◌, refl, Bool, true, ◌&&◌, some, List, [], ◌∷◌, ◌++◌, Mem, arith, Text, take, keep,
  Option-cases, inl, inr,
}
use supernote_task_service.Common.Members.{Sorted, mem-keep, mem-keep_of_mem}
use supernote_task_service.Sql.{
  Server, Tables, TaskRow, JoinedRow, left_join, joined_order, text_lt,
}
use supernote_task_service.Sql.Tasks.{TaskClause, all_hold, select_joined, modified_between}
use supernote_task_service.Sql.Laws.{IsServer, joined_order-IsOrder}
use supernote_task_service.Models.{Task}
use supernote_task_service.Repository.{Env, clamp_limit}
use supernote_task_service.Repository.Mapping.{or_zero}
use supernote_task_service.Repository.TaskReads.{
  TaskQuery, mode_clauses, list_clauses, task_clauses, drain_clauses, page_rows,
}

module _ (env : Env) (q : TaskQuery) (now : ℕ) (db : Tables) where
  -- A row of the join that the query asks for.
  abbrev pub Asked : JoinedRow → Type 0
  Asked r =
      Mem r (left_join env.server db.tasks db.groups)
      × (all_hold env.server (task_clauses env q now) r.task ≡ true)

  abbrev pub matching : JoinedRow → Bool
  matching r = all_hold env.server (task_clauses env q now) r.task

  -- All rows that the query asks for, in the order of the pages.
  abbrev pub asked_rows : List JoinedRow
  asked_rows =
      env.server.order_joined (joined_order env.server)
        (keep matching (left_join env.server db.tasks db.groups))

  pub page_rows-take : page_rows env q now db ≡ take (clamp_limit q.limit) asked_rows
  unfolding page_rows select_joined
  page_rows-take = refl

  pub mem-asked_rows : (law : IsServer env.server) (r : JoinedRow) → Asked r → Mem r asked_rows
  mem-asked_rows law r a =
      (Perm.mem_iff (law.joined_perm _ _)).1 (mem-keep_of_mem matching _ a.0 a.1)

  pub Asked_of_mem : (law : IsServer env.server) (r : JoinedRow) → Mem r asked_rows → Asked r
  Asked_of_mem law r m = mem-keep matching _ ((Perm.mem_iff (law.joined_perm _ _)).0 m)

  pub asked_rows-Sorted : (law : IsServer env.server) → Sorted (joined_order env.server) asked_rows
  asked_rows-Sorted law = law.joined_sorted _ _ (joined_order-IsOrder env.server)

pub all_hold-append :
    (sv : Server) (cs ds : List TaskClause) (r : TaskRow)
    → all_hold sv (cs ++ ds) r ≡ (all_hold sv cs r && all_hold sv ds r)
unfolding all_hold
all_hold-append sv [] ds r = refl
all_hold-append sv (c ∷ cs) ds r = ground (arith, all_hold-append sv cs ds r)

module _ (env : Env) (q : TaskQuery) (now since : ℕ) (delta : q.since ≡ some since) where
  mode_delta : mode_clauses q now ≡ modified_between since now ∷ []
  unfolding mode_clauses
  mode_delta = ground arith

  -- In delta mode a row that is asked for has a time in the closed window.
  pub Asked-window :
      (db : Tables) (r : JoinedRow)
      → Asked env q now db r
      → (m : ℕ) × (r.task.last_modified ≡ some m) × (since ≤ m) × (m ≤ now)
  unfolding all_hold task_clauses
  Asked-window db r a = elim (Option-cases r.task.last_modified) [
    | inl e ↦ absurd (
        ground (
          arith,
          mode_delta,
          all_hold-append env.server (mode_clauses q now) (list_clauses q.list_id q.inbox_only)
              r.task,
        ))
    | inr (m, e) ↦ (
      m,
      e,
      ground (
        arith,
        mode_delta,
        all_hold-append env.server (mode_clauses q now) (list_clauses q.list_id q.inbox_only)
            r.task,
      ),
      ground (
        arith,
        mode_delta,
        all_hold-append env.server (mode_clauses q now) (list_clauses q.list_id q.inbox_only)
            r.task,
      ),
    )
  ]

  -- A row of the boundary millisecond behind the last one of the page is drained.
  pub Asked-drain_clauses :
      (db : Tables) (r : JoinedRow) (boundary : ℕ) (after : Text)
      → Asked env q now db r
      → r.task.last_modified ≡ some boundary
      → text_lt env.server after r.task.task_id ≡ true
      → all_hold env.server (drain_clauses env boundary after q.list_id q.inbox_only) r.task ≡ true
  unfolding all_hold task_clauses drain_clauses
  Asked-drain_clauses db r b after a e lt = ground (
    arith,
    all_hold-append env.server (mode_clauses q now) (list_clauses q.list_id q.inbox_only) r.task,
  )

module _ (env : Env) (q : TaskQuery) (now since : ℕ) (delta : q.since ≡ some since) where
  -- What is drained is asked for, if its millisecond is in the window.
  pub drain_clauses-task_clauses :
      (boundary : ℕ) (after : Text) (r : JoinedRow)
      → since ≤ boundary
      → boundary ≤ now
      → all_hold env.server (drain_clauses env boundary after q.list_id q.inbox_only) r.task ≡ true
      → all_hold env.server (task_clauses env q now) r.task ≡ true
  unfolding all_hold task_clauses drain_clauses mode_clauses
  drain_clauses-task_clauses b after r lo hi h = rw delta (
      ground (
        arith,
        all_hold-append env.server (modified_between since now ∷ [])
            (list_clauses q.list_id q.inbox_only) r.task,
      ))

pub drain_clauses_time :
    (env : Env) (q : TaskQuery) (boundary : ℕ) (after : Text) (r : JoinedRow) (t : Task)
    → t.last_modified ≡ or_zero r.task.last_modified
    → all_hold env.server (drain_clauses env boundary after q.list_id q.inbox_only) r.task ≡ true
    → t.last_modified ≡ boundary
unfolding all_hold drain_clauses
drain_clauses_time env q boundary after r t k h = ground arith
