-- ===== src/Repository/Sync/Client.antt =====
-- The loop that README.md asks of a client: call with the cursor of the page before, as long as a
-- page says that there is more.
use mathlib.Core.Logic.{◌∨₁◌, ∨₁_prop}
use mathlib.Core.Logic.Or
use mathlib.Core.List.{mem-append_left, mem-append_right}
use supernote_task_service.Common.{
  ℕ, ◌≤◌, ◌≡◌, ap, ◌∙◌, refl, Bool, true, false, Option, none, some, List, [], ◌∷◌, ◌++◌, Mem,
  arith,
}
use supernote_task_service.Models.{Task}
use supernote_task_service.Sql.{Tables, JoinedRow}
use supernote_task_service.Sql.Tasks.{all_hold, holds}
use supernote_task_service.Sql.Laws.{IsServer}
use supernote_task_service.Repository.{Env}
use supernote_task_service.Repository.Mapping.{row_to_task}
use supernote_task_service.Repository.TaskReads.{TaskQuery, list_tasks, task_clauses, mode_clauses}
use supernote_task_service.Repository.Sync.Mapped.{row_to_task-Keeps}
use supernote_task_service.Repository.Sync.Rows.{Asked, Asked-window}
use supernote_task_service.Repository.Sync.Complete.{IsKeyed}
use supernote_task_service.Repository.Sync.Promises.{page_complete}

-- The query of a call that goes on from a cursor.
abbrev pub from_cursor : TaskQuery → ℕ → TaskQuery
from_cursor q since = record q { since = some since }

abbrev pub Delivery : Type 0
Delivery = List Task × ℕ × Bool

abbrev behind_page : List Task → Option Delivery → Option Delivery
behind_page ts none = none
behind_page ts (some (rest, cursor, more)) = some (ts ++ rest, cursor, more)

-- What follows a page.
abbrev go_on : (ℕ → Option Delivery) → Option Delivery → Option Delivery
go_on others none = none
go_on others (some (ts, cursor, false)) = some (ts, cursor, false)
go_on others (some (ts, cursor, true)) = behind_page ts (others cursor)

-- The calls at the given clock readings, while there is more: the tasks of all pages, the last
-- cursor, and whether more was announced still.
unfoldable pub sync : Env → TaskQuery → Tables → List ℕ → ℕ → Option Delivery
sync env q db [] since = some ([], since, true)
sync env q db (now ∷ clocks) since =
    go_on (sync env q db clocks) (list_tasks env (from_cursor q since) now db db)

-- Clock readings that do not fall.
abbrev pub IsRising : List ℕ → Type 0
IsRising [] = Unit
IsRising (n ∷ []) = Unit
IsRising (n ∷ m ∷ ns) = (n ≤ m) × IsRising (m ∷ ns)

module _ (env : Env) (q : TaskQuery) (db : Tables) where
  -- What is asked for and lies behind the cursor is asked for again, from the cursor on.
  Asked-later :
      (since now cursor later : ℕ) (r : JoinedRow) (t : Task)
      → Asked env (from_cursor q since) now db r
      → row_to_task env r ≡ some t
      → cursor ≤ t.last_modified
      → now ≤ later
      → Asked env (from_cursor q cursor) later db r
  unfolding all_hold holds task_clauses mode_clauses
  Asked-later since now cursor later r t a e le rise =
      let k = row_to_task-Keeps env r t e in
      let (m, f, lo, hi) = Asked-window env (from_cursor q since) now since refl db r a in
      (a.0, ground (arith, a.1, k.modified))

module _ (env : Env) (q : TaskQuery) (db : Tables) (now : ℕ) (clocks : List ℕ) (since : ℕ) where
  -- The first of the calls ends the loop, or the others follow it.
  pub data Round (ts : List Task) (cursor : ℕ) (more : Bool) : Type 0 where
    last :
        list_tasks env (from_cursor q since) now db db ≡ some (ts, cursor, false)
        → more ≡ false
        → Round ts cursor more
    onward :
        (page rest : List Task) (c : ℕ)
        → list_tasks env (from_cursor q since) now db db ≡ some (page, c, true)
        → sync env q db clocks c ≡ some (rest, cursor, more)
        → ts ≡ page ++ rest
        → Round ts cursor more

  pub sync-Round :
      (ts : List Task) (cursor : ℕ) (more : Bool)
      → sync env q db (now ∷ clocks) since ≡ some (ts, cursor, more)
      → Round ts cursor more
  unfolding sync
  sync-Round ts cursor more e = cases (list_tasks env (from_cursor q since) now db db) refl e
    where
      onwards :
          (page : List Task) (c : ℕ) (o : Option Delivery)
          → list_tasks env (from_cursor q since) now db db ≡ some (page, c, true)
          → sync env q db clocks c ≡ o
          → behind_page page o ≡ some (ts, cursor, more)
          → Round ts cursor more
      onwards page c none got went f = cc
      onwards page c (some (rest, d, m)) got went f = onward page rest c got (went ∙ cc) (cc)

      cases :
          (o : Option Delivery)
          → list_tasks env (from_cursor q since) now db db ≡ o
          → go_on (sync env q db clocks) o ≡ some (ts, cursor, more)
          → Round ts cursor more
      cases none got f = cc
      cases (some (page, c, false)) got f = last (got ∙ cc) (cc)
      cases (some (page, c, true)) got f = onwards page c (sync env q db clocks c) got refl f

module _ (env : Env) (q : TaskQuery) (db : Tables) (now : ℕ) (clocks : List ℕ) (since : ℕ) where
  pub sync_last :
      {ts : List Task} {cursor : ℕ}
      → list_tasks env (from_cursor q since) now db db ≡ some (ts, cursor, false)
      → sync env q db (now ∷ clocks) since ≡ some (ts, cursor, false)
  unfolding sync
  sync_last e = ap (go_on (sync env q db clocks)) e

  pub sync_onward :
      {page rest : List Task} {c cursor : ℕ} {more : Bool}
      → list_tasks env (from_cursor q since) now db db ≡ some (page, c, true)
      → sync env q db clocks c ≡ some (rest, cursor, more)
      → sync env q db (now ∷ clocks) since ≡ some (page ++ rest, cursor, more)
  unfolding sync
  sync_onward {page} e f = ap (go_on (sync env q db clocks)) e ∙ ap (behind_page page) f

sync_stopped :
    (env : Env) (q : TaskQuery) (db : Tables) (since : ℕ) (ts : List Task) (cursor : ℕ)
    (more : Bool)
    → sync env q db [] since ≡ some (ts, cursor, more)
    → cursor ≡ since
unfolding sync
sync_stopped env q db since ts cursor more e = ground arith

module _ (env : Env) (law : IsServer env.server) (q : TaskQuery) (db : Tables)
    (keyed : IsKeyed env db) where
  -- What the first call asks for.
  abbrev pub FirstAsks : List ℕ → ℕ → JoinedRow → Type 0
  FirstAsks [] since r = ⊥
  FirstAsks (now ∷ clocks) since r = Asked env (from_cursor q since) now db r

  -- Nothing is lost over the pages: on tables that stand still and repeat no identifier in the
  -- join, and at clock readings that do not fall, every row that the first of the calls asks for
  -- and that reads as a task is on one of the pages, or the task's time is not before the last
  -- cursor.
  pub sync_complete :
      (clocks : List ℕ) (since : ℕ) (ts : List Task) (cursor : ℕ) (more : Bool) (r : JoinedRow)
      (t : Task)
      → IsRising clocks
      → sync env q db clocks since ≡ some (ts, cursor, more)
      → FirstAsks clocks since r
      → row_to_task env r ≡ some t
      → Mem t ts ∨₁ (cursor ≤ t.last_modified)
  sync_complete [] since ts cursor more r t rising e a f = absurd a
  sync_complete (now ∷ []) since ts cursor more r t rising e a f =
      elim (sync-Round env q db now [] since ts cursor more e) [
        | last got _ ↦
            page_complete env law (from_cursor q since) now since refl db ts cursor false r t keyed
              got a f
        | onward page rest c got went p ↦
            Or.elim ∨₁_prop
              (page_complete env law (from_cursor q since) now since refl db page c true r t keyed
                got a f)
              (λ m. Or.inl (rw p (mem-append_left rest m)))
              (λ le. Or.inr (rw (sync_stopped env q db c rest cursor more went) le))
      ]
  sync_complete (now ∷ later ∷ clocks) since ts cursor more r t rising e a f =
      elim (sync-Round env q db now (later ∷ clocks) since ts cursor more e) [
        | last got _ ↦
            page_complete env law (from_cursor q since) now since refl db ts cursor false r t keyed
              got a f
        | onward page rest c got went p ↦
            Or.elim ∨₁_prop
              (page_complete env law (from_cursor q since) now since refl db page c true r t keyed
                got a f)
              (λ m. Or.inl (rw p (mem-append_left rest m)))
              (λ le.
                Or.elim ∨₁_prop
                  (sync_complete (later ∷ clocks) c rest cursor more r t rising.1 went
                    (Asked-later env q db since now c later r t a f le rising.0) f)
                  (λ m. Or.inl (rw p (mem-append_right page m))) (λ h. Or.inr h))
      ]
