-- ===== src/Api/Replica/Listing.antt =====
-- A listing without a cursor, from which the client goes on.
use mathlib.Core.Path.{subst}
use mathlib.Core.Logic.{◌∨₁◌, ∨₁_prop, ∥∥₁_map}
use mathlib.Core.Logic.Or
use mathlib.Core.List.{not-mem-nil}
use supernote_task_service.Common.{
  ℕ, ◌≤◌, ◌≡◌, ◌≢◌, ◌⊎◌, ◌∙◌, sym, ap, inl, inr, Bool, true, false, none, some, List, [], ◌∷◌, Mem,
  arith, length, last?, take, Option-cases, Bool-cases, ◌==◌,
}
use supernote_task_service.Common.Members.{
  mem_take-or-drop, mem_of_mem-take, drop_short, last-le-drop,
}
use supernote_task_service.Common.Dict.{lookup}
use supernote_task_service.Models.{Task}
use supernote_task_service.Sql.{Server, Tables, TaskRow, JoinedRow, joined_order}
use supernote_task_service.Sql.Tasks.{all_hold, holds}
use supernote_task_service.Sql.Laws.{IsServer, joined_order_le}
use supernote_task_service.Repository.{
  Env, clamp_limit, is_full_page, is_single_ms_full_page, page_cursor,
}
use supernote_task_service.Repository.Mapping.{row_to_task, rows_to_tasks, or_zero}
use supernote_task_service.Repository.TaskReads.{
  TaskQuery, list_tasks, page_rows, finish_page, task_clauses, mode_clauses, list_clauses,
}
use supernote_task_service.Repository.Sync.Mapped.{
  row_to_task-Keeps, Mapped, rows_to_tasks-Mapped, Mapped-length, Mapped-mem, Mapped-last,
  Mapped-origin,
}
use supernote_task_service.Repository.Sync.Pages.{clamp_limit_bounds, last?-cons}
use supernote_task_service.Repository.Sync.Rows.{
  Asked, asked_rows, page_rows-take, mem-asked_rows, Asked_of_mem, asked_rows-Sorted,
}
use supernote_task_service.Api.Joined.{joined}
use supernote_task_service.Api.WellFormed.{IsWellFormed}
use supernote_task_service.Api.Replica.{file_all}
use supernote_task_service.Api.Replica.Lookup.{lookup-file_all}
use supernote_task_service.Api.Replica.Synced.{
  HoldsBefore, Known, own_task, task_of, asked_task, asked_user,
}

-- In the order of a page, a row with a time is behind none whose time, or 0 for NULL, is later.
order_le :
    (sv : Server) (s r : JoinedRow) (m : ℕ)
    → r.task.last_modified ≡ some m
    → joined_order sv s r ≡ true
    → or_zero s.task.last_modified ≤ m
order_le sv s r m e h = elim (Option-cases s.task.last_modified) [
  | inl null ↦ rw null (omega arith)
  | inr (n, f) ↦ rw f (joined_order_le sv s r n m f e h).0
]

module _ (env : Env) (law : IsServer env.server) (q : TaskQuery) (now : ℕ) (anew : q.since ≡ none)
    (db : Tables) where
  -- A listing that is not full is all there is; a full one ends at its last task.
  abbrev Ends : List Task → ℕ → Type 0
  Ends ts cursor =
      (length ts ≢ clamp_limit q.limit)
      ⊎ ((l : Task) × (last? ts ≡ some l) × (cursor ≡ l.last_modified))

  finish_ends :
      (tasks ts : List Task) (cursor : ℕ) (more : Bool)
      → finish_page env q now db tasks ≡ some (ts, cursor, more)
      → (ts ≡ tasks) × Ends tasks cursor
  unfolding finish_page is_full_page is_single_ms_full_page page_cursor
  finish_ends [] ts cursor more e = (ground arith, inl (ground (arith, clamp_limit_bounds q.limit)))
  finish_ends (x ∷ xs) ts cursor more e =
      let (l, last) = last?-cons x xs in
      elim (Bool-cases (length (x ∷ xs) == clamp_limit q.limit)) [
        | inr partial ↦ (ground arith, inl (ground arith))
        | inl whole ↦ (ground arith, inr (l, last, ground arith))
      ]

  listed :
      (ts : List Task) (cursor : ℕ) (more : Bool)
      → list_tasks env q now db db ≡ some (ts, cursor, more)
      → Mapped env (take (clamp_limit q.limit) (asked_rows env q now db)) ts × Ends ts cursor
  unfolding list_tasks
  listed ts cursor more e = elim (Option-cases (rows_to_tasks env (page_rows env q now db))) [
    | inl failed ↦ ground arith
    | inr (tasks, mapped) ↦
        let (same, ends) = finish_ends tasks ts cursor more (ground arith) in
        rw same
          (rows_to_tasks-Mapped env _ tasks (rw (page_rows-take env q now db) at mapped), ends)
  ]

  listing_comes :
      (ts : List Task) (cursor : ℕ) (more : Bool) (t : Task)
      → list_tasks env q now db db ≡ some (ts, cursor, more)
      → Mem t ts
      → ∥ ((j : JoinedRow) × Asked env q now db j × (row_to_task env j ≡ some t)) ∥₁
  listing_comes ts cursor more t e i =
      ∥∥₁_map (Mapped-origin env _ ts (listed ts cursor more e).0 i) λ (j, k, f).
        (j, Asked_of_mem env q now db law j (mem_of_mem-take (clamp_limit q.limit) _ k), f)

  -- What is asked for and does not come has a time from the cursor on.
  listing_complete :
      (ts : List Task) (cursor : ℕ) (more : Bool) (j : JoinedRow) (t : Task) (m : ℕ)
      → list_tasks env q now db db ≡ some (ts, cursor, more)
      → Asked env q now db j
      → row_to_task env j ≡ some t
      → j.task.last_modified ≡ some m
      → Mem t ts ∨₁ (cursor ≤ m)
  listing_complete ts cursor more j t m e a f time =
      let (mapped, ends) = listed ts cursor more e in
      let n = clamp_limit q.limit in
      let rows = asked_rows env q now db in
      Or.elim ∨₁_prop (mem_take-or-drop n rows (mem-asked_rows env q now db law j a))
        (λ i. Or.inl (Mapped-mem env _ ts mapped i f))
        (λ i. Or.inr (elim ends [
          | inl few ↦ absurd (
              not-mem-nil (
                subst (Mem j) (drop_short n rows (λ p. few (Mapped-length env _ ts mapped ∙ p))) i))
          | inr (l, last, at_last) ↦
              let (s, last_row, g) = Mapped-last env _ ts mapped last in
              let ordered =
                last-le-drop (joined_order env.server) n rows (asked_rows-Sorted env q now db law)
                  last_row i in
              let le = order_le env.server s j m time ordered in
              let same : cursor ≡ or_zero s.task.last_modified =
                at_last ∙ (row_to_task-Keeps env s l g).modified in
              rw same le
        ]))

module _ (env : Env) (law : IsServer env.server) (q : TaskQuery) (now : ℕ) (anew : q.since ≡ none)
    (all_status : q.include_completed ≡ true) (everywhere : q.list_id ≡ none)
    (all_lists : q.inbox_only ≡ false) (db : Tables) (well : IsWellFormed env db) where
  asks_active :
      (r : TaskRow)
      → r.user_id ≡ env.user_id
      → r.is_deleted ≡ false
      → all_hold env.server (task_clauses env q now) r ≡ true
  unfolding all_hold holds task_clauses mode_clauses list_clauses
  asks_active r u active = rw (anew, all_status, everywhere, all_lists) (ground arith)

  -- A client that starts anew from a listing holds every task of the user with a time before its
  -- cursor.
  pub listing_holds :
      (ts : List Task) (cursor : ℕ) (more : Bool)
      → list_tasks env q now db db ≡ some (ts, cursor, more)
      → HoldsBefore env cursor db (file_all ts [])
  unfolding lookup
  listing_holds ts cursor more e r m i u time before dated =
      elim (lookup-file_all ts [] r.task_id) [
        | inl (t, k, same, found) ↦ Or.inl (
            own_task env q now db well r t (file_all ts []) i
              (listing_comes env law q now anew db ts cursor more t e k) same found)
        | inr (kept, absent) ↦ elim (Bool-cases r.is_deleted) [
          | inl dead ↦ Or.inr (dead, kept)
          | inr active ↦
              let (there, own, (t, f, same, _)) = task_of env q now db well r i dated in
              let asked : Asked env q now db (joined env.server db.groups r) =
                (there, rw own (asks_active r u active)) in
              Or.elim ∨₁_prop
                (listing_complete env law q now anew db ts cursor more
                  (joined env.server db.groups r) t m e asked f
                  (ap (λ (z : TaskRow). z.last_modified) own ∙ time))
                (λ k. absurd (absent t k same)) (λ (le : cursor ≤ m). absurd (omega arith))
        ]
      ]

  pub listing-Known :
      (ts : List Task) (cursor : ℕ) (more : Bool)
      → list_tasks env q now db db ≡ some (ts, cursor, more)
      → Known env db (file_all ts [])
  unfolding lookup
  listing-Known ts cursor more e k t found = elim (lookup-file_all ts [] k) [
    | inl (s, i, same, l) ↦
        ∥∥₁_map (listing_comes env law q now anew db ts cursor more s e i) λ (j, a, f). (
          j.task,
          asked_task env q now db well j a,
          sym (row_to_task-Keeps env j s f).id ∙ same,
          asked_user env q now db well j a,
        )
    | inr (kept, absent) ↦ ground arith
  ]
