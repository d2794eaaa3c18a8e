-- ===== src/Http/ListWrites.antt =====
-- What PATCH and DELETE of a list answer: `update_list` and `delete_list` of routers/lists.py.
use supernote_task_service.Common.{
  length, ◌≤◌, ℕ, ◌≡◌, refl, ap, ◌∙◌, some, Bool, true, false, ◌&&◌, Option, arith, Text, is_some,
  if◌then◌else◌,
}
use supernote_task_service.Encoding.{encode_emoji}
use supernote_task_service.Models.{list_title_max}
use supernote_task_service.Sql.{Tables}
use supernote_task_service.Sql.Laws.{IsServer}
use supernote_task_service.Repository.{Env}
use supernote_task_service.Repository.Lists as Repo
use supernote_task_service.Repository.Writes.Lists.{
  IsUnusedTime, is_matched, update_list_reports, delete_list_reports, update_list-no_match,
  delete_list-no_match, with_list, update_list_tables, delete_list_tables,
}
use supernote_task_service.Http.Failures.{◌>>◌, Failure, ok, raised, list_not_found, list_conflict}
use supernote_task_service.Http.Lists as Lists
use supernote_task_service.Http.Lists.{require_list, resolve_write}

abbrev pub list_refusal : Bool → Failure
list_refusal true = list_conflict
list_refusal false = list_not_found

module _ (env : Env) where
  -- What becomes of a write, which leaves the tables alone if it finds no list.
  resolve_write_lem :
      (list_id : Text) (conditional done found : Bool) (s db : Tables)
      → done ≡ found
      → (found ≡ false → s ≡ db)
      → resolve_write env list_id done conditional s ≡ (
          if found
          then (ok tt, s)
          else (raised (list_refusal (conditional && Repo.list_exists env list_id db)), db))
  unfolding resolve_write
  resolve_write_lem list_id conditional done true s db e h = rw e refl
  resolve_write_lem list_id conditional done false s db e h =
      let same : s ≡ db = h refl in rw (e, same) (ground arith)

  resolved :
      (list_id : Text) (conditional done found : Bool) (s db : Tables)
      → done ≡ found
      → (found ≡ false → s ≡ db)
      → (resolve_write env list_id done conditional >> require_list env list_id) s ≡ (
          if found
          then require_list env list_id s
          else (raised (list_refusal (conditional && Repo.list_exists env list_id db)), db))
  unfolding resolve_write
  resolved list_id conditional done true s db e h = rw e refl
  resolved list_id conditional done false s db e h =
      let same : s ≡ db = h refl in rw (e, same) (ground arith)

-- At a clock reading that no list was written at, and for a title whose encoding fits its column,
-- PATCH of a list answers with the list as read back from the tables in which it has the encoded
-- title and the new time, and DELETE with 204, and leaves the list marked as deleted and dated,
-- every other row as it was, if the list is there at the expected version; otherwise they leave the
-- tables alone and answer 409 if a version was expected and the list is there, and 404 if not.
pub list_write_answers :
    (env : Env) (law : IsServer env.server) (list_id title : Text) (expected : Option ℕ) (now : ℕ)
    (db : Tables)
    → IsUnusedTime now db.groups
    → length (encode_emoji title) ≤ list_title_max
    → (Lists.update_list env list_id title expected now db ≡ (
        if is_matched env list_id expected db
        then require_list env list_id (
            with_list env
              (λ r. record r { title = some (encode_emoji title); last_modified = some now })
              list_id
              expected
              db)
        else (raised (list_refusal (is_some expected && Repo.list_exists env list_id db)), db)))
      × (Lists.delete_list env list_id expected now db ≡ (
          if is_matched env list_id expected db
          then (
            ok tt,
            with_list env
                (λ r. record r { is_deleted = true; last_modified = some now })
                list_id
                expected
                db,
          )
          else (raised (list_refusal (is_some expected && Repo.list_exists env list_id db)), db)))
unfolding Lists.update_list Lists.delete_list
list_write_answers env law list_id title expected now db l fits = (
  resolved env list_id (is_some expected) _ _ _ db
        (update_list_reports env law list_id title expected now db l)
        (update_list-no_match env list_id title expected now db)
      ∙ ap
          (λ z.
            if is_matched env list_id expected db
            then require_list env list_id z
            else (raised (list_refusal (is_some expected && Repo.list_exists env list_id db)), db))
          (update_list_tables env law list_id title expected now db fits),
  resolve_write_lem env list_id (is_some expected) _ _ _ db
        (delete_list_reports env law list_id expected now db l)
        (delete_list-no_match env list_id expected now db)
      ∙ ap
          (λ z.
            if is_matched env list_id expected db
            then (ok tt, z)
            else (raised (list_refusal (is_some expected && Repo.list_exists env list_id db)), db))
          (delete_list_tables env list_id expected now db),
)
