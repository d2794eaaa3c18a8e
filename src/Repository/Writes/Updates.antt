-- ===== src/Repository/Writes/Updates.antt =====
-- An `UPDATE` of tasks, row by row: which rows it changes, and when it reports a change.
use supernote_task_service.Common.{
  ℕ, ◌<◌, ◌≡◌, refl, ◌∙◌, Bool, true, false, some, List, [], ◌∷◌, ◌++◌, arith, keep, if◌then◌else◌,
  ltb, map, any, All,
}
use supernote_task_service.Sql.{Server, Tables, TaskRow}
use supernote_task_service.Sql.Tasks.{
  TaskClause, TaskAssignment, assign, assign_all, set_deleted, all_hold, update_rows, any_task,
  set_last_modified,
}

module _ (sv : Server) (sets : List TaskAssignment) (where_ : List TaskClause) where
  -- What the statement makes of one row.
  unfoldable pub updated : TaskRow → TaskRow
  updated r = if all_hold sv where_ r then assign_all sets r else r

  pub update_rows-map :
      (rows : List TaskRow) → (update_rows sv sets where_ rows).rows ≡ map updated rows
  unfolding update_rows updated
  update_rows-map [] = refl
  update_rows-map (r ∷ rs) = ground (arith, update_rows-map rs)

  -- Nothing is reported where no row is matched.
  pub update_rows-no_match :
      (rows : List TaskRow)
      → any (all_hold sv where_) rows ≡ false
      → (update_rows sv sets where_ rows).affected ≡ 0
  unfolding update_rows
  update_rows-no_match [] h = refl
  update_rows-no_match (r ∷ rs) h = ground (arith, update_rows-no_match rs)

  pub update_rows-same :
      (rows : List TaskRow)
      → any (all_hold sv where_) rows ≡ false
      → (update_rows sv sets where_ rows).rows ≡ rows
  unfolding update_rows
  update_rows-same [] h = refl
  update_rows-same (r ∷ rs) h = ground (arith, update_rows-same rs)

  -- Every matched row changes in a way that the server counts.
  abbrev pub Changes : TaskRow → Type 0
  Changes r = all_hold sv where_ r ≡ true → sv.counts r (assign_all sets r) ≡ true

  -- A matched row that is counted is reported.
  pub update_rows-match :
      (rows : List TaskRow)
      → All Changes rows
      → any (all_hold sv where_) rows ≡ true
      → 0 < (update_rows sv sets where_ rows).affected
  unfolding update_rows
  update_rows-match [] c h = cc
  update_rows-match (r ∷ rs) c h = ground (arith, c.0, update_rows-match rs c.1)

  pub affected-any :
      (rows : List TaskRow)
      → All Changes rows
      → ltb 0 (update_rows sv sets where_ rows).affected ≡ any (all_hold sv where_) rows
  affected-any rows c = ground (arith, update_rows-match rows c, update_rows-no_match rows)

  -- Where the server counts no unchanged row, and no matched row changes, nothing is reported.
  pub update_rows-unchanged :
      (uncounted : (r : TaskRow) → sv.counts r r ≡ false) (rows : List TaskRow)
      → All (λ r. assign_all sets r ≡ r) rows
      → (update_rows sv sets where_ rows).affected ≡ 0
  unfolding update_rows
  update_rows-unchanged uncounted [] h = refl
  update_rows-unchanged uncounted (r ∷ rs) h =
      let same : sv.counts r (assign_all sets r) ≡ false = rw h.0 (uncounted r) in
      ground (arith, update_rows-unchanged uncounted rs h.1)

pub any_task-any :
    (sv : Server) (where_ : List TaskClause) (db : Tables)
    → any_task sv where_ db ≡ any (all_hold sv where_) db.tasks
unfolding any_task
any_task-any sv where_ db = go db.tasks
  where
    go :
        (rows : List TaskRow)
        → (elim (keep (all_hold sv where_) rows) as (λ _. Bool) [ [] ↦ false | r ∷ rs ↦ true ])
          ≡ any (all_hold sv where_) rows
    go [] = refl
    go (r ∷ rs) = ground (arith, go rs)

pub assign_all-append :
    (xs ys : List TaskAssignment) (r : TaskRow)
    → assign_all (xs ++ ys) r ≡ assign_all ys (assign_all xs r)
unfolding assign_all
assign_all-append [] ys r = refl
assign_all-append (a ∷ xs) ys r = assign_all-append xs ys (assign a r)

-- Every write ends by setting the time.
pub assign_all-time :
    (xs : List TaskAssignment) (now : ℕ) (r : TaskRow)
    → (assign_all (xs ++ set_last_modified now ∷ []) r).last_modified ≡ some now
unfolding assign_all
assign_all-time [] now r = refl
assign_all-time (a ∷ xs) now r = assign_all-time xs now (assign a r)

-- No assignment touches the identifier or the owner.
assign-id : (a : TaskAssignment) (r : TaskRow) → (assign a r).task_id ≡ r.task_id
unfolding assign
assign-id set_deleted r = refl
assign-id _ r = refl

pub assign_all-id : (xs : List TaskAssignment) (r : TaskRow) → (assign_all xs r).task_id ≡ r.task_id
unfolding assign_all
assign_all-id [] r = refl
assign_all-id (a ∷ xs) r = assign_all-id xs (assign a r) ∙ assign-id a r
