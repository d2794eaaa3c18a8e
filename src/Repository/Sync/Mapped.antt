-- ===== src/Repository/Sync/Mapped.antt =====
-- The tasks of a page stand for its rows, one for one and in order.
use mathlib.Core.Path.{subst}
use mathlib.Core.Logic.Or
use mathlib.Core.Logic.{∥∥₁_prop, ∥∥₁_map}
use mathlib.Core.List.{mem-cons, not-mem-nil, mem-cons_self, mem-cons_of_mem, Mem-prop}
use supernote_task_service.Common.{
  suc, ◌≡◌, refl, ap, some, List, [], ◌∷◌, Mem, arith, length, first?, last?,
}
use supernote_task_service.Models.{Task}
use supernote_task_service.Sql.{JoinedRow}
use supernote_task_service.Repository.{Env}
use supernote_task_service.Repository.Mapping.{row_to_task, rows_to_tasks, or_zero}

module _ (env : Env) where
  -- A mapped task keeps the identifier and the time of its row.
  pub record Keeps (r : JoinedRow) (t : Task) : Type 0 where
    pub id : t.id ≡ r.task.task_id
    pub modified : t.last_modified ≡ or_zero r.task.last_modified
    pub list_id : t.list_id ≡ r.task.task_list_id
    pub deleted : t.is_deleted ≡ r.task.is_deleted

  pub row_to_task-Keeps : (r : JoinedRow) (t : Task) → row_to_task env r ≡ some t → Keeps r t
  unfolding row_to_task
  row_to_task-Keeps r t e = ground arith

  abbrev pub Mapped : List JoinedRow → List Task → Type 0
  Mapped [] [] = Unit
  Mapped [] (t ∷ ts) = ⊥
  Mapped (r ∷ rs) [] = ⊥
  Mapped (r ∷ rs) (t ∷ ts) = (row_to_task env r ≡ some t) × Mapped rs ts

  pub rows_to_tasks-Mapped :
      (rs : List JoinedRow) (ts : List Task) → rows_to_tasks env rs ≡ some ts → Mapped rs ts
  unfolding rows_to_tasks
  rows_to_tasks-Mapped [] [] e = tt
  rows_to_tasks-Mapped [] (t ∷ ts) e = cc
  rows_to_tasks-Mapped (r ∷ rs) [] e = ground arith
  rows_to_tasks-Mapped (r ∷ rs) (t ∷ ts) e =
      (ground arith, rows_to_tasks-Mapped rs ts (ground arith))

  pub Mapped-length : (rs : List JoinedRow) (ts : List Task) → Mapped rs ts → length ts ≡ length rs
  Mapped-length [] [] m = refl
  Mapped-length [] (t ∷ ts) m = absurd m
  Mapped-length (r ∷ rs) [] m = absurd m
  Mapped-length (r ∷ rs) (t ∷ ts) m = ap suc (Mapped-length rs ts m.1)

  -- Every row that is mapped is delivered.
  pub Mapped-mem :
      (rs : List JoinedRow) (ts : List Task) {r : JoinedRow} {t : Task}
      → Mapped rs ts
      → Mem r rs
      → row_to_task env r ≡ some t
      → Mem t ts
  Mapped-mem [] [] m k e = absurd (not-mem-nil k)
  Mapped-mem [] (u ∷ ts) m k e = absurd m
  Mapped-mem (s ∷ rs) [] m k e = absurd m
  Mapped-mem (s ∷ rs) (u ∷ ts) {r} {t} m k e =
      Or.elim Mem-prop (mem-cons.0 k)
        (λ (q : r ≡ s).
          let p : u ≡ t = cc (m.0, ap (row_to_task env) q) in
          subst (λ z. Mem z (u ∷ ts)) p mem-cons_self)
        (λ k'. mem-cons_of_mem u (Mapped-mem rs ts m.1 k' e))

  pub Mapped-last :
      (rs : List JoinedRow) (ts : List Task) {t : Task}
      → Mapped rs ts
      → last? ts ≡ some t
      → (r : JoinedRow) × (last? rs ≡ some r) × (row_to_task env r ≡ some t)
  Mapped-last [] [] m e = cc
  Mapped-last [] (u ∷ ts) m e = absurd m
  Mapped-last (s ∷ rs) [] m e = absurd m
  Mapped-last (s ∷ []) (u ∷ []) m e = (s, refl, ground arith)
  Mapped-last (s ∷ []) (u ∷ v ∷ ts) m e = absurd m.1
  Mapped-last (s ∷ q ∷ rs) (u ∷ []) m e = absurd m.1
  Mapped-last (s ∷ q ∷ rs) (u ∷ v ∷ ts) m e = Mapped-last (q ∷ rs) (v ∷ ts) m.1 e

  pub Mapped-first :
      (rs : List JoinedRow) (ts : List Task) {t : Task}
      → Mapped rs ts
      → first? ts ≡ some t
      → (r : JoinedRow) × (first? rs ≡ some r) × (row_to_task env r ≡ some t)
  Mapped-first [] [] m e = cc
  Mapped-first [] (u ∷ ts) m e = absurd m
  Mapped-first (s ∷ rs) [] m e = absurd m
  Mapped-first (s ∷ rs) (u ∷ ts) m e = (s, refl, ground arith)

  -- Every task comes from a row.
  pub Mapped-origin :
      (rs : List JoinedRow) (ts : List Task) {t : Task}
      → Mapped rs ts
      → Mem t ts
      → ∥ ((r : JoinedRow) × Mem r rs × (row_to_task env r ≡ some t)) ∥₁
  Mapped-origin [] [] m k = absurd (not-mem-nil k)
  Mapped-origin [] (u ∷ ts) m k = absurd m
  Mapped-origin (s ∷ rs) [] m k = absurd m
  Mapped-origin (s ∷ rs) (u ∷ ts) {t} m k =
      Or.elim ∥∥₁_prop (mem-cons.0 k) (λ (q : t ≡ u). ∣ (s, mem-cons_self, rw q m.0) ∣₁)
        (λ k'. ∥∥₁_map (Mapped-origin rs ts m.1 k') (λ (r, i, e). (r, mem-cons_of_mem s i, e)))
