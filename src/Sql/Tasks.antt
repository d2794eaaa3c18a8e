-- ===== src/Sql/Tasks.antt =====
-- The statements on `t_schedule_task`: `WHERE` clauses and `SET` assignments with their parameters,
-- and what a `SELECT`, an `UPDATE` and an `INSERT` do.
use supernote_task_service.Common.{
  ℕ, ◌+◌, Bool, true, false, not, ◌&&◌, Option, none, some, List, [], ◌∷◌, Text, leb, ◌==◌,
  if◌then◌else◌, take, keep, is_some, max,
}
use supernote_task_service.Common.Int.{ℤ}
use supernote_task_service.Sql.{
  Server, Tables, TaskRow, JoinedRow, column, same_text, text_lt, null_safe_same, left_join,
}

pub data TaskClause : Type 0 where
  -- `user_id = %s`
  by_user : ℕ → TaskClause
  -- `last_modified >= %s AND last_modified <= %s`
  modified_between : ℕ → ℕ → TaskClause
  -- `last_modified = %s`
  modified_at : ℕ → TaskClause
  -- `is_deleted = 'N'`
  active : TaskClause
  -- `status = 'needsAction'`
  status_is : Text → TaskClause
  -- `task_list_id IS NULL`
  in_inbox : TaskClause
  -- `task_list_id = %s`
  in_list : Text → TaskClause
  -- `task_list_id <=> %s`
  in_list_or_inbox : Option Text → TaskClause
  -- `task_id = %s`
  has_id : Text → TaskClause
  -- `task_id > %s`
  id_after : Text → TaskClause

pub data TaskAssignment : Type 0 where
  set_title : Text → TaskAssignment
  set_detail : Text → TaskAssignment
  set_status : Text → TaskAssignment
  set_completed_time : ℕ → TaskAssignment
  set_importance : Option Text → TaskAssignment
  set_due_time : ℤ → TaskAssignment
  set_sort : ℕ → TaskAssignment
  set_task_list_id : Option Text → TaskAssignment
  set_links : Option Text → TaskAssignment
  set_deleted : TaskAssignment
  set_last_modified : ℕ → TaskAssignment

unfoldable pub assign : TaskAssignment → TaskRow → TaskRow
assign (set_title t) r = record r { title = some t }
assign (set_detail t) r = record r { detail = some t }
assign (set_status t) r = record r { status = t }
assign (set_completed_time n) r = record r { completed_time = some n }
assign (set_importance t) r = record r { importance = t }
assign (set_due_time n) r = record r { due_time = some n }
assign (set_sort n) r = record r { sort = some n }
assign (set_task_list_id t) r = record r { task_list_id = t }
assign (set_links t) r = record r { links = t }
assign set_deleted r = record r { is_deleted = true }
assign (set_last_modified n) r = record r { last_modified = some n }

unfoldable pub assign_all : List TaskAssignment → TaskRow → TaskRow
unfolding assign
assign_all [] r = r
assign_all (a ∷ more) r = assign_all more (assign a r)

-- The rows after an `UPDATE`, and how many it reports as affected.
pub record Update (A : Type 0) : Type 0 where
  pub rows : List A
  pub affected : ℕ

-- `COALESCE(MAX(sort), -1) + 1`
unfoldable pub sort_after : ℕ → List TaskRow → ℕ
sort_after n [] = n
sort_after n (r ∷ rs) = sort_after (elim r.sort [ none ↦ n | some k ↦ max n (k + 1) ]) rs

module _ (sv : Server) where
  unfoldable pub holds : TaskClause → TaskRow → Bool
  unfolding same_text text_lt null_safe_same
  holds (by_user u) r = r.user_id == u
  holds (modified_between a b) r = column (λ m. leb a m && leb m b) r.last_modified
  holds (modified_at m) r = column (λ n. n == m) r.last_modified
  holds active r = not r.is_deleted
  holds (status_is s) r = same_text sv r.status s
  holds in_inbox r = not (is_some r.task_list_id)
  holds (in_list l) r = column (λ i. same_text sv i l) r.task_list_id
  holds (in_list_or_inbox l) r = null_safe_same sv r.task_list_id l
  holds (has_id i) r = same_text sv r.task_id i
  holds (id_after i) r = text_lt sv i r.task_id

  -- clauses joined by AND
  unfoldable pub all_hold : List TaskClause → TaskRow → Bool
  unfolding holds
  all_hold [] r = true
  all_hold (c ∷ cs) r = holds c r && all_hold cs r

  -- `SELECT … WHERE … ORDER BY … LIMIT …`
  unfoldable pub select_joined :
      (JoinedRow → JoinedRow → Bool) → List TaskClause → Option ℕ → Tables → List JoinedRow
  select_joined order where_ limit db =
      let rows =
        sv.order_joined order
          (keep (λ r. all_hold where_ r.task) (left_join sv db.tasks db.groups)) in
      elim limit [ none ↦ rows | some n ↦ take n rows ]

  -- `SELECT 1 FROM t_schedule_task WHERE …`, and whether a row came back
  unfoldable pub any_task : List TaskClause → Tables → Bool
  any_task where_ db = elim (keep (all_hold where_) db.tasks) [ [] ↦ false | r ∷ rs ↦ true ]

  -- `UPDATE t_schedule_task SET … WHERE …`
  unfoldable pub update_rows : List TaskAssignment → List TaskClause → List TaskRow → Update TaskRow
  update_rows sets where_ [] = record { rows = []; affected = 0 }
  update_rows sets where_ (r ∷ rs) =
      let u = update_rows sets where_ rs in
      let r' = assign_all sets r in
      if all_hold where_ r
      then record { rows = r' ∷ u.rows; affected = (if sv.counts r r' then 1 else 0) + u.affected }
      else record { rows = r ∷ u.rows; affected = u.affected }
