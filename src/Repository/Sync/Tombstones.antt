-- ===== src/Repository/Sync/Tombstones.antt =====
-- What a client's next delta page says of a task that was deleted.
use mathlib.Core.Path.{subst}
use mathlib.Core.Logic.{◌∨₁◌, ∥∥₁_prop, ∥∥₁_map}
use mathlib.Core.Logic.Or
use mathlib.Core.List.{
  mem-cons, not-mem-nil, mem-cons_self, mem-append_left, mem-append_right, mem-map_of_mem,
}
use supernote_task_service.Common.{
  ℕ, ◌≤◌, ◌≡◌, ◌∙◌, refl, sym, ap, Bool, true, false, Option, none, some, List, [], ◌∷◌, Mem, arith,
  Text, is_some, map, if◌then◌else◌, Option-cases, inl, inr,
}
use supernote_task_service.Common.Members.{All-mem, Bool_eq_prop}
use supernote_task_service.Models.{Task}
use supernote_task_service.Sql.{
  Tables, TaskRow, GroupRow, JoinedRow, Server, left_join, join_row, joined_titles,
}
use supernote_task_service.Sql.Tasks.{all_hold, holds}
use supernote_task_service.Sql.Laws.{IsServer}
use supernote_task_service.Repository.{Env}
use supernote_task_service.Repository.Mapping.{row_to_task, or_zero}
use supernote_task_service.Repository.TaskReads.{
  TaskQuery, list_tasks, task_clauses, mode_clauses, list_clauses,
}
use supernote_task_service.Repository.TaskWrites.{active_task, delete_task}
use supernote_task_service.Repository.Sync.Mapped.{row_to_task-Keeps}
use supernote_task_service.Repository.Sync.Rows.{Asked}
use supernote_task_service.Repository.Sync.Complete.{IsKeyed}
use supernote_task_service.Repository.Sync.Promises.{page_complete}
use supernote_task_service.Repository.Sync.Ends.{IsReadable}
use supernote_task_service.Repository.Writes.Conditional.{delete_task_rows}

-- The join has a row for every task.
first_joined :
    (t : TaskRow) (titles : List (Option Text))
    → (j : JoinedRow) × (j.task ≡ t) × Mem j (join_row t titles)
unfolding join_row
first_joined t [] = (_, refl, mem-cons_self)
first_joined t (x ∷ xs) = (_, refl, mem-cons_self)

left_join-mem :
    (sv : Server) (ts : List TaskRow) (gs : List GroupRow) {t : TaskRow}
    → Mem t ts
    → ∥ ((j : JoinedRow) × (j.task ≡ t) × Mem j (left_join sv ts gs)) ∥₁
unfolding left_join
left_join-mem sv [] gs m = absurd (not-mem-nil m)
left_join-mem sv (x ∷ ts) gs {t} m =
    Or.elim ∥∥₁_prop (mem-cons.0 m)
      (λ (p : t ≡ x).
        let (j, e, i) = first_joined x (joined_titles sv x.task_list_id gs) in
        ∣ (j, e ∙ sym p, mem-append_left (left_join sv ts gs) i) ∣₁)
      (λ i.
        ∥∥₁_map (left_join-mem sv ts gs i) (λ (j, e, k).
          (j, e, mem-append_right (join_row x (joined_titles sv x.task_list_id gs)) k)))

abbrev pub tombstone : TaskRow → ℕ → TaskRow
tombstone r now = record r { is_deleted = true; last_modified = some now }

module _ (env : Env) where
  mem-deleted :
      (task_id : Text) (expected : Option ℕ) (now : ℕ) (db : Tables) (r : TaskRow)
      → Mem r db.tasks
      → all_hold env.server (active_task env task_id expected) r ≡ true
      → Mem (tombstone r now) (delete_task env task_id expected now db).0.tasks
  mem-deleted task_id expected now db r m h =
      let deleted : TaskRow → TaskRow = λ x.
        if all_hold env.server (active_task env task_id expected) x then tombstone x now else x in
      let p : deleted r ≡ tombstone r now = rw h refl in
      rw (delete_task_rows env task_id expected now db)
        (subst (λ z. Mem z (map deleted db.tasks)) p (mem-map_of_mem deleted m))

  asked_tombstone :
      (q : TaskQuery) (since now later : ℕ) (task_id : Text) (expected : Option ℕ) (r : TaskRow)
      → q.since ≡ some since
      → q.list_id ≡ none
      → q.inbox_only ≡ false
      → since ≤ now
      → now ≤ later
      → all_hold env.server (active_task env task_id expected) r ≡ true
      → all_hold env.server (task_clauses env q later) (tombstone r now) ≡ true
  unfolding all_hold holds task_clauses mode_clauses list_clauses active_task
  asked_tombstone q since now later task_id expected r e f g lo hi h = rw (e, f, g) (ground arith)

module _ (env : Env) (law : IsServer env.server) (q : TaskQuery) (since now later : ℕ)
    (delta : q.since ≡ some since) (everywhere : q.list_id ≡ none)
    (all_lists : q.inbox_only ≡ false) (seen : since ≤ now) (past : now ≤ later) where
  read :
      (j : JoinedRow)
      → is_some (row_to_task env j) ≡ true
      → (t : Task) × (row_to_task env j ≡ some t)
  read j s = elim (Option-cases (row_to_task env j)) [
    | inl failed ↦ ground arith
    | inr found ↦ found
  ]

  -- A deletion reaches the clients: after `delete_task`, a delta page of all lists that is asked for
  -- from a cursor not past the deletion, on tables that stand still, whose join repeats no identifier
  -- and whose rows all read as tasks, delivers the task marked as deleted, or its cursor is not past
  -- the deletion, so that the next page is asked for it again.
  pub tombstone_delivered :
      (task_id : Text) (expected : Option ℕ) (db : Tables) (r : TaskRow) (ts : List Task)
      (cursor : ℕ) (more : Bool)
      → Mem r db.tasks
      → all_hold env.server (active_task env task_id expected) r ≡ true
      → IsKeyed env (delete_task env task_id expected now db).0
      → IsReadable env (delete_task env task_id expected now db).0
      → list_tasks env q later
          (delete_task env task_id expected now db).0
          (delete_task env task_id expected now db).0
        ≡ some (ts, cursor, more)
      → ∥ (
          (t : Task) × (t.id ≡ r.task_id) × (t.is_deleted ≡ true) × (Mem t ts ∨₁ (cursor ≤ now))) ∥₁
  tombstone_delivered task_id expected db r ts cursor more m h keyed readable e =
      let after : Tables = (delete_task env task_id expected now db).0 in
      ∥∥₁_map
        (left_join-mem env.server after.tasks after.groups
          (mem-deleted env task_id expected now db r m h))
        (λ (j, p, i).
          let (t, f) = read j (All-mem _ _ (λ _. Bool_eq_prop) readable i) in
          let k = row_to_task-Keeps env j t f in
          let asked : Asked env q later after j = (
            i,
            subst (λ z. all_hold env.server (task_clauses env q later) z ≡ true) (sym p)
                (asked_tombstone env q since now later task_id expected r delta everywhere all_lists
                  seen past h),
          ) in
          let time : t.last_modified ≡ now =
            k.modified ∙ ap (λ (z : TaskRow). or_zero z.last_modified) p in
          (
            t,
            k.id ∙ ap (λ (z : TaskRow). z.task_id) p,
            k.deleted ∙ ap (λ (z : TaskRow). z.is_deleted) p,
            subst (λ n. Mem t ts ∨₁ (cursor ≤ n)) time
                (page_complete env law q later since delta after ts cursor more j t keyed e asked
                  f),
          ))
