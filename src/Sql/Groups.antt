-- ===== src/Sql/Groups.antt =====
-- The statements on `t_schedule_task_group`.
use supernote_task_service.Common.{
  ℕ, ◌+◌, Bool, true, false, not, ◌&&◌, Option, none, some, List, [], ◌∷◌, Text, leb, ◌==◌,
  if◌then◌else◌, take, keep,
}
use supernote_task_service.Sql.{Server, Tables, GroupRow, column, same_text, text_lt}
use supernote_task_service.Sql.Tasks.{Update}

pub data GroupClause : Type 0 where
  by_user : ℕ → GroupClause
  modified_between : ℕ → ℕ → GroupClause
  modified_at : ℕ → GroupClause
  active : GroupClause
  has_id : Text → GroupClause
  -- `title = %s`
  titled : Text → GroupClause
  id_after : Text → GroupClause

pub data GroupAssignment : Type 0 where
  set_title : Text → GroupAssignment
  set_deleted : GroupAssignment
  set_last_modified : ℕ → GroupAssignment

unfoldable pub assign : GroupAssignment → GroupRow → GroupRow
assign (set_title t) r = record r { title = some t }
assign set_deleted r = record r { is_deleted = true }
assign (set_last_modified n) r = record r { last_modified = some n }

unfoldable pub assign_all : List GroupAssignment → GroupRow → GroupRow
unfolding assign
assign_all [] r = r
assign_all (a ∷ more) r = assign_all more (assign a r)

module _ (sv : Server) where
  unfoldable pub holds : GroupClause → GroupRow → Bool
  unfolding same_text text_lt
  holds (by_user u) r = r.user_id == u
  holds (modified_between a b) r = column (λ m. leb a m && leb m b) r.last_modified
  holds (modified_at m) r = column (λ n. n == m) r.last_modified
  holds active r = not r.is_deleted
  holds (has_id i) r = same_text sv r.task_list_id i
  holds (titled t) r = column (λ title. same_text sv title t) r.title
  holds (id_after i) r = text_lt sv i r.task_list_id

  unfoldable pub all_hold : List GroupClause → GroupRow → Bool
  unfolding holds
  all_hold [] r = true
  all_hold (c ∷ cs) r = holds c r && all_hold cs r

  unfoldable pub select_groups :
      (GroupRow → GroupRow → Bool) → List GroupClause → Option ℕ → Tables → List GroupRow
  select_groups order where_ limit db =
      let rows = sv.order_groups order (keep (all_hold where_) db.groups) in
      elim limit [ none ↦ rows | some n ↦ take n rows ]

  unfoldable pub any_group : List GroupClause → Tables → Bool
  any_group where_ db = elim (keep (all_hold where_) db.groups) [ [] ↦ false | r ∷ rs ↦ true ]

  unfoldable pub update_rows :
      List GroupAssignment → List GroupClause → List GroupRow → Update GroupRow
  update_rows sets where_ [] = record { rows = []; affected = 0 }
  update_rows sets where_ (r ∷ rs) =
      let u = update_rows sets where_ rs in
      let r' = assign_all sets r in
      if all_hold where_ r
      then record {
        rows = r' ∷ u.rows;
        affected = (if sv.counts_group r r' then 1 else 0) + u.affected;
      }
      else record { rows = r ∷ u.rows; affected = u.affected }
