-- ===== src/Repository/Lists.antt =====
-- The task lists: reads with paging, and the writes.
use supernote_task_service.Common.{
  ℕ, ◌+◌, Bool, true, false, ◌&&◌, Option, none, some, List, [], ◌∷◌, ◌++◌, Text, if◌then◌else◌,
  last?, is_some, ltb, map,
}
use supernote_task_service.Common.Int.{ℤ}
use supernote_task_service.Models.{TaskList}
use supernote_task_service.Encoding.{encode_emoji}
use supernote_task_service.Sql.{
  inbox, Tables, GroupRow, group_order, group_id_order, group_title_order,
}
use supernote_task_service.Sql.Groups.{
  GroupClause, by_user, modified_between, modified_at, active, has_id, titled, id_after,
  GroupAssignment, set_title, set_deleted, set_last_modified, select_groups, any_group, update_rows,
}
use supernote_task_service.Repository.{
  Env, stored_list_title, clamp_limit, is_full_page, is_single_ms_full_page, page_cursor,
}
use supernote_task_service.Repository.Mapping.{row_to_list}

-- The implicit Inbox, which heads a full listing.
abbrev pub inbox_list : TaskList
inbox_list = record { id = none; title = inbox; last_modified = 0; is_deleted = false }

abbrev expected_clauses : Option ℕ → List GroupClause
expected_clauses none = []
expected_clauses (some m) = modified_at m ∷ []

module _ (env : Env) where
  -- `_drain_lists_at`; an identifier that is NULL is after nothing.
  unfoldable pub drain_lists_at : ℕ → Option Text → Tables → List TaskList
  drain_lists_at boundary none later = []
  drain_lists_at boundary (some after_id) later = map row_to_list (
      select_groups env.server (group_id_order env.server)
        (by_user env.user_id ∷ modified_at boundary ∷ id_after after_id ∷ []) none later)

  -- The rows that the first statement of `list_lists` fetches.
  unfoldable pub list_rows : Option ℕ → Option ℤ → ℕ → Tables → List GroupRow
  list_rows (some since) limit server_now db =
      select_groups env.server (group_order env.server)
        (by_user env.user_id ∷ modified_between since server_now ∷ []) (some (clamp_limit limit)) db
  list_rows none limit server_now db =
      select_groups env.server (group_title_order env.server) (by_user env.user_id ∷ active ∷ [])
        (some (clamp_limit limit)) db

  unfoldable pub drained_lists : List TaskList → Option TaskList → Tables → List TaskList × ℕ × Bool
  drained_lists lists none later = (lists, 0, false)
  drained_lists lists (some l) later =
      (lists ++ drain_lists_at l.last_modified l.id later, l.last_modified + 1, false)

  abbrev with_inbox : Option ℕ → List TaskList → List TaskList
  with_inbox none lists = inbox_list ∷ lists
  with_inbox (some since) lists = lists

  -- `list_lists`, with the tables as the statement that drains finds them.
  unfoldable pub list_lists : Option ℕ → Option ℤ → ℕ → Tables → Tables → List TaskList × ℕ × Bool
  unfolding drained_lists
  list_lists since limit server_now db later =
      let lists = map row_to_list (list_rows since limit server_now db) in
      let size = clamp_limit limit in
      if is_some since && is_single_ms_full_page (λ (l : TaskList). l.last_modified) lists size
      then drained_lists lists (last? lists) later
      else (
        with_inbox since lists,
        page_cursor (λ (l : TaskList). l.last_modified) lists size server_now,
        is_full_page (λ (l : TaskList). l.last_modified) lists size,
      )

  abbrev pub fetchone : List GroupRow → Option TaskList
  fetchone [] = none
  fetchone (r ∷ rs) = some (row_to_list r)

  unfoldable pub one_list : Text → List GroupClause
  one_list list_id = has_id list_id ∷ by_user env.user_id ∷ active ∷ []

  -- `get_list`
  unfoldable pub get_list : Text → Tables → Option TaskList
  unfolding one_list
  get_list list_id db = fetchone (select_groups env.server (λ _ _. true) (one_list list_id) none db)

  -- `list_exists`
  unfoldable pub list_exists : Text → Tables → Bool
  unfolding one_list
  list_exists list_id db = any_group env.server (one_list list_id) db

  -- `get_list_by_title`
  unfoldable pub get_list_by_title : Text → Tables → Option TaskList
  get_list_by_title title db = fetchone (
      select_groups env.server (group_order env.server)
        (titled (encode_emoji title) ∷ by_user env.user_id ∷ active ∷ []) (some 1) db)

  -- `create_list`
  unfoldable pub create_list : Text → ℕ → Text → Tables → Tables × Text
  create_list list_id ts title db =
      let row : GroupRow = record {
        task_list_id = list_id;
        user_id = env.user_id;
        title = some (stored_list_title env title);
        last_modified = some ts;
        is_deleted = false;
        create_time = some ts;
      } in
      (record db { groups = db.groups ++ row ∷ [] }, list_id)

  unfoldable pub active_list : Text → Option ℕ → List GroupClause
  active_list list_id expected =
      has_id list_id ∷ by_user env.user_id ∷ active ∷ expected_clauses expected

  unfoldable pub run_update : List GroupAssignment → List GroupClause → Tables → Tables × Bool
  run_update sets where_ db =
      let u = update_rows env.server sets where_ db.groups in
      (record db { groups = u.rows }, ltb 0 u.affected)

  -- `update_list`
  unfoldable pub update_list : Text → Text → Option ℕ → ℕ → Tables → Tables × Bool
  update_list list_id title expected now db =
      run_update (set_title (stored_list_title env title) ∷ set_last_modified now ∷ [])
        (active_list list_id expected) db

  -- `delete_list`
  unfoldable pub delete_list : Text → Option ℕ → ℕ → Tables → Tables × Bool
  delete_list list_id expected now db =
      run_update (set_deleted ∷ set_last_modified now ∷ []) (active_list list_id expected) db
