-- ===== src/Repository/Sync/Whole.antt =====
-- A page that the limit does not cut.
use supernote_task_service.Common.{
  ℕ, zero, suc, ◌<◌, ◌≤◌, ◌≡◌, refl, ap, false, none, some, List, [], ◌∷◌, arith, length, take,
  ◌>>=◌, Option-cases, inl, inr,
}
use supernote_task_service.Models.{Task}
use supernote_task_service.Sql.{Tables, JoinedRow, joined_order}
use supernote_task_service.Sql.Tasks.{select_joined}
use supernote_task_service.Repository.{
  Env, clamp_limit, is_full_page, is_single_ms_full_page, page_cursor,
}
use supernote_task_service.Repository.Mapping.{rows_to_tasks}
use supernote_task_service.Repository.TaskReads.{
  TaskQuery, list_tasks, finish_page, page_rows, task_clauses,
}

take_whole {ℓ} : {A : Type ℓ} (n : ℕ) (xs : List A) → length xs ≤ n → take n xs ≡ xs
take_whole zero [] h = refl
take_whole zero (x ∷ xs) h = absurd (omega arith)
take_whole (suc n) [] h = refl
take_whole (suc n) (x ∷ xs) h = ap (λ ys. x ∷ ys) (take_whole n xs (omega arith))

module _ (env : Env) where
  rows_to_tasks-length :
      (rs : List JoinedRow) (ts : List Task)
      → rows_to_tasks env rs ≡ some ts
      → length ts ≡ length rs
  unfolding rows_to_tasks
  rows_to_tasks-length [] ts e = ground arith
  rows_to_tasks-length (r ∷ rs) ts e = elim (Option-cases (rows_to_tasks env rs)) [
    | inl failed ↦ ground arith
    | inr (others, f) ↦ let n = rows_to_tasks-length rs others f in ground arith
  ]

  finish_page-short :
      (q : TaskQuery) (now : ℕ) (later : Tables) (tasks : List Task)
      → length tasks < clamp_limit q.limit
      → finish_page env q now later tasks ≡ some (tasks, now, false)
  unfolding finish_page is_full_page is_single_ms_full_page page_cursor
  finish_page-short q now later tasks h = ground arith

  -- Where fewer rows are asked for than the limit, with or without a cursor, `list_tasks` gives
  -- what the statement without a limit gives, the clock reading as its cursor, and announces no
  -- more.
  pub whole_page :
      (q : TaskQuery) (now : ℕ) (db later : Tables)
      → let rows =
          select_joined env.server (joined_order env.server) (task_clauses env q now) none db in
        length rows < clamp_limit q.limit
        → list_tasks env q now db later
          ≡ (do tasks ← rows_to_tasks env rows; some (tasks, now, false))
  unfolding list_tasks page_rows
  whole_page q now db later h =
      let rows =
        select_joined env.server (joined_order env.server) (task_clauses env q now) none db in
      let uncut : page_rows env q now db ≡ rows =
        unfold page_rows select_joined in take_whole (clamp_limit q.limit) rows (omega arith) in
      elim (Option-cases (rows_to_tasks env rows)) [
        | inl failed ↦ rw (uncut, failed) refl
        | inr (tasks, e) ↦
            let n = rows_to_tasks-length rows tasks e in
            rw (uncut, e) (finish_page-short q now later tasks (omega arith))
      ]
