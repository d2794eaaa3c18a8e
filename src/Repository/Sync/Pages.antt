-- ===== src/Repository/Sync/Pages.antt =====
-- The three ways in which `list_tasks` ends a page in delta mode.
use supernote_task_service.Common.{
  ℕ, ◌+◌, ◌≤◌, ◌≡◌, ◌≢◌, refl, Bool, true, false, Option, none, some, List, [], ◌∷◌, ◌++◌, arith,
  length, first?, last?, is_some, ◌==◌, Bool-cases, Option-cases, inl, inr,
}
use supernote_task_service.Common.Int.{ℤ}
use supernote_task_service.Models.{Task}
use supernote_task_service.Sql.{Tables}
use supernote_task_service.Repository.{
  Env, clamp_limit, is_full_page, is_single_ms_full_page, page_cursor,
}
use supernote_task_service.Repository.TaskReads.{
  TaskQuery, drain_tasks_at, drained_page, finish_page,
}

pub clamp_limit_bounds : (limit : Option ℤ) → (1 ≤ clamp_limit limit) × (clamp_limit limit ≤ 1000)
unfolding clamp_limit
clamp_limit_bounds none = omega arith
clamp_limit_bounds (some n) = ground arith

pub last?-cons {ℓ} : {A : Type ℓ} (x : A) (xs : List A) → (l : A) × (last? (x ∷ xs) ≡ some l)
last?-cons x [] = (x, refl)
last?-cons x (y ∷ ys) = last?-cons y ys

module _ (env : Env) (q : TaskQuery) (now : ℕ) (later : Tables) where
  pub data Finished (tasks ts : List Task) (cursor : ℕ) (more : Bool) : Type 0 where
    -- fewer rows than the limit
    short :
        length tasks ≢ clamp_limit q.limit
        → ts ≡ tasks
        → cursor ≡ now
        → more ≡ false
        → Finished tasks ts cursor more
    -- a full page of several milliseconds
    full :
        (f l : Task)
        → first? tasks ≡ some f
        → last? tasks ≡ some l
        → f.last_modified ≢ l.last_modified
        → length tasks ≡ clamp_limit q.limit
        → ts ≡ tasks
        → cursor ≡ l.last_modified
        → more ≡ true
        → Finished tasks ts cursor more
    -- a full page of one millisecond, and what was drained behind it
    drained :
        (f l : Task) (rest : List Task)
        → first? tasks ≡ some f
        → last? tasks ≡ some l
        → f.last_modified ≡ l.last_modified
        → length tasks ≡ clamp_limit q.limit
        → drain_tasks_at env l.last_modified l.id q.list_id q.inbox_only later ≡ some rest
        → ts ≡ tasks ++ rest
        → cursor ≡ l.last_modified + 1
        → more ≡ false
        → Finished tasks ts cursor more

  pub finish_page-Finished :
      (tasks ts : List Task) (cursor : ℕ) (more : Bool)
      → is_some q.since ≡ true
      → finish_page env q now later tasks ≡ some (ts, cursor, more)
      → Finished tasks ts cursor more
  unfolding finish_page drained_page is_full_page is_single_ms_full_page page_cursor
  finish_page-Finished [] ts cursor more d e =
      short (ground (arith, clamp_limit_bounds q.limit)) (ground arith) (ground arith)
        (ground arith)
  finish_page-Finished (x ∷ xs) ts cursor more d e =
      let (l, last) = last?-cons x xs in
      elim (Bool-cases (length (x ∷ xs) == clamp_limit q.limit)) [
        | inr partial ↦ short (ground arith) (ground arith) (ground arith) (ground arith)
        | inl whole ↦ elim (Bool-cases (x.last_modified == l.last_modified)) [
          | inr several ↦
              full x l refl last (ground arith) (ground arith) (ground arith) (ground arith)
                (ground arith)
          | inl one ↦
              elim (Option-cases
                (drain_tasks_at env l.last_modified l.id q.list_id q.inbox_only later)) [
                  | inl failed ↦ ground arith
                  | inr (rest, found) ↦
                      drained x l rest refl last (ground arith) (ground arith) found (ground arith)
                        (ground arith) (ground arith)
                ]
        ]
      ]
