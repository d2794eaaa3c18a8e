-- ===== src/Repository/Writes/Deleted.antt =====
-- The rows of a join that a statement selects.
use supernote_task_service.Common.{
  ◌≡◌, refl, ◌∙◌, Bool, false, Option, List, [], ◌∷◌, ◌++◌, arith, Text, any, keep,
}
use supernote_task_service.Sql.{
  Server, TaskRow, GroupRow, JoinedRow, left_join, join_row, joined_titles,
}
use supernote_task_service.Sql.Tasks.{TaskClause, all_hold}

pub keep-append :
    {A : Type 0} (p : A → Bool) (xs ys : List A) → keep p (xs ++ ys) ≡ keep p xs ++ keep p ys
keep-append p [] ys = refl
keep-append p (x ∷ xs) ys = ground (arith, keep-append p xs ys)

module _ (sv : Server) (where_ : List TaskClause) where
  abbrev pub wanted : JoinedRow → Bool
  wanted r = all_hold sv where_ r.task

  keep-joined :
      (t : TaskRow) (x : Option Text) (titles : List (Option Text))
      → all_hold sv where_ t ≡ false
      → keep wanted (join_row t (x ∷ titles)) ≡ []
  unfolding join_row
  keep-joined t x [] h = rw h refl
  keep-joined t x (y ∷ ys) h = let rest = keep-joined t y ys h in rw h (rw h at rest)

  pub keep-join_row :
      (t : TaskRow) (titles : List (Option Text))
      → all_hold sv where_ t ≡ false
      → keep wanted (join_row t titles) ≡ []
  keep-join_row t [] h = unfold join_row in rw h refl
  keep-join_row t (x ∷ xs) h = keep-joined t x xs h

  -- A statement that no task matches selects no row of the join.
  pub keep-left_join :
      (ts : List TaskRow) (gs : List GroupRow)
      → any (all_hold sv where_) ts ≡ false
      → keep wanted (left_join sv ts gs) ≡ []
  unfolding left_join
  keep-left_join [] gs h = refl
  keep-left_join (t ∷ ts) gs h =
      let first : keep wanted (join_row t (joined_titles sv t.task_list_id gs)) ≡ [] =
        keep-join_row t (joined_titles sv t.task_list_id gs) (ground arith) in
      let rest = keep-left_join ts gs (ground arith) in
      keep-append wanted (join_row t (joined_titles sv t.task_list_id gs)) (left_join sv ts gs)
      ∙ rw (first, rest) refl
