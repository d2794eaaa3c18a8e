-- ===== src/Http/Lists.antt =====
-- src/supernote_task_service/routers/lists.py.
use supernote_task_service.Common.{
  ℕ, Bool, true, false, ◌&&◌, Option, none, some, [], ◌∷◌, Text, is_some, if◌then◌else◌,
}
use supernote_task_service.Common.Int.{ℤ}
use supernote_task_service.Models.{TaskList, Page}
use supernote_task_service.Sql.{Tables}
use supernote_task_service.Repository.{Env}
use supernote_task_service.Repository.Lists as Repo
use supernote_task_service.Http.Deps.{cursor_expired}
use supernote_task_service.Http.Failures.{
  Handler, ◌>>=◌, ◌>>◌, pure, raise, gets, runs, raise_if, or_raise, list_not_found, list_conflict,
  expired_cursor,
}

module _ (env : Env) where
  -- `_resolve_write`
  unfoldable pub resolve_write : Text → Bool → Bool → Handler Tables (Unit {0})
  resolve_write list_id true conditional = pure tt
  resolve_write list_id false conditional = do
    there ← gets (Repo.list_exists env list_id)
    if conditional && there then raise list_conflict else raise list_not_found

  abbrev pub require_list : Text → Handler Tables TaskList
  require_list list_id = do or_raise (← gets (Repo.get_list env list_id)) list_not_found

  -- `list_lists`; a title asks for the one list that has it.
  unfoldable pub list_lists :
      Option ℕ
      → Option ℤ
      → Option Text
      → (max_age : ℤ) → (fresh_at now : ℕ) → Handler Tables (Page TaskList)
  list_lists since limit (some title) max_age fresh_at now = do
    l ← or_raise (← gets (Repo.get_list_by_title env title)) list_not_found
    pure (record { items = l ∷ []; cursor = l.last_modified; has_more = false })
  list_lists since limit none max_age fresh_at now = do
    raise_if (cursor_expired since max_age fresh_at) expired_cursor
    (lists, cursor, has_more) ← gets (λ db. Repo.list_lists env since limit now db db)
    pure (record { items = lists; cursor = cursor; has_more = has_more })

  -- what `create_list` does if no list has the title: status 201
  abbrev pub make_list : Text → ℕ → Text → Option TaskList → Handler Tables (ℕ × TaskList)
  make_list new_id ts title (some existing) = pure (200, existing)
  make_list new_id ts title none = do
    list_id ← runs (Repo.create_list env new_id ts title)
    created ← require_list list_id
    pure (201, created)

  -- `create_list`: the status and the list
  unfoldable pub create_list : Text → ℕ → Text → Handler Tables (ℕ × TaskList)
  create_list new_id ts title = do
    existing ← gets (Repo.get_list_by_title env title)
    make_list new_id ts title existing

  -- `update_list`
  unfoldable pub update_list : Text → Text → Option ℕ → ℕ → Handler Tables TaskList
  update_list list_id title expected now = do
    done ← runs (Repo.update_list env list_id title expected now)
    resolve_write list_id done (is_some expected)
    require_list list_id

  -- `delete_list`
  unfoldable pub delete_list : Text → Option ℕ → ℕ → Handler Tables (Unit {0})
  delete_list list_id expected now = do
    done ← runs (Repo.delete_list env list_id expected now)
    resolve_write list_id done (is_some expected)
