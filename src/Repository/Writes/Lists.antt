-- ===== src/Repository/Writes/Lists.antt =====
-- The conditional writes of task lists: `update_list` and `delete_list` of repository.py.
use supernote_task_service.Common.{
  length, ◌≤◌, ℕ, ◌<◌, ◌≡◌, ◌≢◌, refl, ◌∙◌, Bool, true, false, Option, some, List, [], ◌∷◌, arith,
  Text, any, map, All, not, ◌&&◌, ◌==◌, if◌then◌else◌, none, ap,
}
use supernote_task_service.Encoding.{encode_emoji}
use supernote_task_service.Models.{list_title_max}
use supernote_task_service.Sql.{Server, Tables, GroupRow, same_text, column}
use supernote_task_service.Sql.Groups.{
  GroupClause, GroupAssignment, assign, assign_all, set_title, set_deleted, set_last_modified,
  all_hold, update_rows,
}
use supernote_task_service.Sql.Laws.{IsServer}
use supernote_task_service.Repository.{Env, stored_list_title}
use supernote_task_service.Repository.Lists.{active_list, run_update, update_list, delete_list}

module _ (sv : Server) (sets : List GroupAssignment) (where_ : List GroupClause) where
  no_match :
      (rows : List GroupRow)
      → any (all_hold sv where_) rows ≡ false
      → ((update_rows sv sets where_ rows).rows ≡ rows)
        × ((update_rows sv sets where_ rows).affected ≡ 0)
  unfolding update_rows
  no_match [] h = (refl, refl)
  no_match (r ∷ rs) h = let rest = no_match rs (ground arith) in (ground arith, ground arith)

  some_match :
      (rows : List GroupRow)
      → All (λ r. sv.counts_group r (assign_all sets r) ≡ true) rows
      → any (all_hold sv where_) rows ≡ true
      → 0 < (update_rows sv sets where_ rows).affected
  unfolding update_rows
  some_match [] c h = cc
  some_match (r ∷ rs) c h = ground (arith, c.0, some_match rs c.1)

-- The version of a list is the expected one, if one is expected.
abbrev at_version : Option ℕ → GroupRow → Bool
at_version none r = true
at_version (some m) r = column (λ n. n == m) r.last_modified

-- No list was written at the clock reading.
abbrev pub IsUnusedTime : ℕ → List GroupRow → Type 0
IsUnusedTime now rows = All (λ r. r.last_modified ≢ some now) rows

assign_all-time :
    (a : GroupAssignment) (now : ℕ) (r : GroupRow)
    → (assign_all (a ∷ set_last_modified now ∷ []) r).last_modified ≡ some now
unfolding assign_all assign
assign_all-time a now r = refl

module _ (env : Env) where
  -- Some active list of the user has the identifier, and the version if one is expected.
  unfoldable pub is_matched : Text → Option ℕ → Tables → Bool
  is_matched list_id expected db =
      any (all_hold env.server (active_list env list_id expected)) db.groups

  run_update-no_match :
      (sets : List GroupAssignment) (list_id : Text) (expected : Option ℕ) (db : Tables)
      → is_matched list_id expected db ≡ false
      → (run_update env sets (active_list env list_id expected) db).0 ≡ db
  unfolding run_update is_matched
  run_update-no_match sets list_id expected db h =
      let same = no_match env.server sets (active_list env list_id expected) db.groups h in
      rw same.0 refl

  pub update_list-no_match :
      (list_id title : Text) (expected : Option ℕ) (now : ℕ) (db : Tables)
      → is_matched list_id expected db ≡ false
      → (update_list env list_id title expected now db).0 ≡ db
  unfolding update_list
  update_list-no_match list_id title expected now db h = run_update-no_match _ list_id expected db h

  pub delete_list-no_match :
      (list_id : Text) (expected : Option ℕ) (now : ℕ) (db : Tables)
      → is_matched list_id expected db ≡ false
      → (delete_list env list_id expected now db).0 ≡ db
  unfolding delete_list
  delete_list-no_match list_id expected now db h = run_update-no_match _ list_id expected db h

module _ (env : Env) (law : IsServer env.server) where
  counted :
      (a : GroupAssignment) (now : ℕ) (rows : List GroupRow)
      → IsUnusedTime now rows
      → All
          (λ r. env.server.counts_group r (assign_all (a ∷ set_last_modified now ∷ []) r) ≡ true)
          rows
  counted a now [] l = tt
  counted a now (r ∷ rs) l =
      (law.counts_group_changed r _ (λ e. l.0 (e ∙ assign_all-time a now r)), counted a now rs l.1)

  run_update-reports :
      (a : GroupAssignment) (list_id : Text) (expected : Option ℕ) (now : ℕ) (db : Tables)
      → IsUnusedTime now db.groups
      → (run_update env (a ∷ set_last_modified now ∷ []) (active_list env list_id expected) db).1
        ≡ is_matched env list_id expected db
  unfolding run_update is_matched
  run_update-reports a list_id expected now db l =
      let sets = a ∷ set_last_modified now ∷ [] in
      let where_ = active_list env list_id expected in
      ground (
        arith,
        some_match env.server sets where_ db.groups (counted a now db.groups l),
        no_match env.server sets where_ db.groups,
      )

  pub update_list_reports :
      (list_id title : Text) (expected : Option ℕ) (now : ℕ) (db : Tables)
      → IsUnusedTime now db.groups
      → (update_list env list_id title expected now db).1 ≡ is_matched env list_id expected db
  unfolding update_list
  update_list_reports list_id title expected now db l =
      run_update-reports (set_title (stored_list_title env title)) list_id expected now db l

  pub delete_list_reports :
      (list_id : Text) (expected : Option ℕ) (now : ℕ) (db : Tables)
      → IsUnusedTime now db.groups
      → (delete_list env list_id expected now db).1 ≡ is_matched env list_id expected db
  unfolding delete_list
  delete_list_reports list_id expected now db l =
      run_update-reports set_deleted list_id expected now db l

module _ (env : Env) where
  -- The active list of the user with the identifier, at the expected version.
  abbrev pub is_target : Text → Option ℕ → GroupRow → Bool
  is_target list_id expected r =
      same_text env.server r.task_list_id list_id
      && ((r.user_id == env.user_id) && (not r.is_deleted && at_version expected r))

  -- The tables in which the list is changed, and nothing else.
  abbrev pub with_list : (GroupRow → GroupRow) → Text → Option ℕ → Tables → Tables
  with_list f list_id expected db = record db {
    groups = map (λ r. if is_target list_id expected r then f r else r) db.groups;
  }

  target_lem :
      (list_id : Text) (expected : Option ℕ) (r : GroupRow)
      → all_hold env.server (active_list env list_id expected) r ≡ is_target list_id expected r
  unfolding all_hold active_list
  target_lem list_id none r = ground arith
  target_lem list_id (some m) r = ground arith

  run_update-with_list :
      (sets : List GroupAssignment) (list_id : Text) (expected : Option ℕ) (db : Tables)
      → (run_update env sets (active_list env list_id expected) db).0
        ≡ with_list (assign_all sets) list_id expected db
  unfolding run_update update_rows
  run_update-with_list sets list_id expected db =
      ap (λ rows. record db { groups = rows }) (go db.groups)
    where
      go :
          (rows : List GroupRow)
          → (update_rows env.server sets (active_list env list_id expected) rows).rows
            ≡ map (λ r. if is_target list_id expected r then assign_all sets r else r) rows
      go [] = refl
      go (r ∷ rs) = ground (arith, target_lem list_id expected r, go rs)

  pub update_list_tables :
      (law : IsServer env.server) (list_id title : Text) (expected : Option ℕ) (now : ℕ)
      (db : Tables)
      → length (encode_emoji title) ≤ list_title_max
      → (update_list env list_id title expected now db).0
        ≡ with_list
            (λ r. record r { title = some (encode_emoji title); last_modified = some now })
            list_id
            expected
            db
  unfolding update_list assign_all assign
  update_list_tables law list_id title expected now db fits =
      run_update-with_list (set_title (stored_list_title env title) ∷ set_last_modified now ∷ [])
        list_id expected db
      ∙ ap
          (λ t.
            with_list (λ r. record r { title = some t; last_modified = some now }) list_id expected
              db)
          (law.fits list_title_max (encode_emoji title) fits)

  pub delete_list_tables :
      (list_id : Text) (expected : Option ℕ) (now : ℕ) (db : Tables)
      → (delete_list env list_id expected now db).0
        ≡ with_list
            (λ r. record r { is_deleted = true; last_modified = some now })
            list_id
            expected
            db
  unfolding delete_list assign_all assign
  delete_list_tables list_id expected now db =
      run_update-with_list (set_deleted ∷ set_last_modified now ∷ []) list_id expected db
