-- ===== src/Http/Creation.antt =====
-- What POST /tasks answers: `create_task` of routers/tasks.py, down to the row that is read back.
use supernote_task_service.Common.{
  ◌≤◌, length, All, [], ◌∷◌, ◌++◌, ap, ℕ, ◌≡◌, false, none, some, arith, Option, Text,
  if◌then◌else◌, ◌∙◌,
}
use supernote_task_service.Models.{title_max, TaskCreate, Task}
use supernote_task_service.Sql.{Tables}
use supernote_task_service.Sql.Laws.{IsServer}
use supernote_task_service.Repository.{Env}
use supernote_task_service.Repository.TaskReads.{task_exists, get_task}
use supernote_task_service.Repository.TaskWrites as Writes
use supernote_task_service.Http.Failures.{
  ◌>>=◌, runs, Result, ok, raised, unexpected, list_not_found,
}
use supernote_task_service.Http.Tasks as Tasks
use supernote_task_service.Http.Tasks.{
  Readings, missing_list, require_task, ensure_list_exists, resolve_write,
}
use supernote_task_service.Repository.TaskWrites.{new_row}
use supernote_task_service.Repository.Writes.Readback.{created}
use supernote_task_service.Repository.Writes.Inserted.{as_found, get-create_task}
use supernote_task_service.Encoding.{occurs, mark, encode_emoji, detail_max_len}
use supernote_task_service.Encoding.Emoji.{IsCharacter}
use mathlib.Core.Logic.{∥∥₁_map}
use supernote_task_service.Http.Writes.{guarded}

-- The answer with a task that is read back, or with the exception that reading it raises.
abbrev pub read_back : Option Task → Result Task
read_back none = raised unexpected
read_back (some t) = ok t

module _ (env : Env) where
  found :
      (task_id : Text) (db : Tables) (o : Option Task)
      → get_task env task_id db ≡ as_found o
      → require_task env task_id db ≡ (read_back o, db)
  unfolding require_task
  found task_id db none e = ground arith
  found task_id db (some t) e = ground arith

module _ (env : Env) (law : IsServer env.server) where
  -- POST /tasks: if the list is missing, the answer is 404 and nothing changes. Otherwise, for a
  -- task without a link, with a title and a detail of characters that do not hold the letters
  -- `[U+`, whose encodings fit their columns, and under an identifier that no active task of the user
  -- has, the table has one row more, that of the task, and the answer is the task that was sent, in a
  -- list of some title, its due time and its time of completion as they read back from what is
  -- stored; or it is 500, if one of these is no date that Python has.
  pub create_task_answers :
      (new_id : Text) (ts : ℕ) (body : TaskCreate) (db : Tables)
      → task_exists env new_id db ≡ false
      → body.document_link ≡ none
      → All IsCharacter body.title
      → occurs mark body.title ≡ false
      → length (encode_emoji body.title) ≤ title_max
      → All IsCharacter body.detail
      → occurs mark body.detail ≡ false
      → length (encode_emoji body.detail) ≤ detail_max_len
      → ∥ (
          (category : Text) × (Tasks.create_task env new_id ts body db ≡ (
            if missing_list env body.list_id db then (raised list_not_found, db) else (
              read_back (created env new_id ts body db category),
              record db { tasks = db.tasks ++ new_row env new_id ts body db ∷ [] },
            )))) ∥₁
  unfolding Tasks.create_task Writes.create_task
  create_task_answers new_id ts body db unused l h m short h' m' fits =
      ∥∥₁_map (get-create_task env law new_id ts body db unused l h m short h' m' fits)
        (λ (category, e). (
          category,
          guarded env (some body.list_id)
                (runs (Writes.create_task env new_id ts body) >>= λ task_id.
                  require_task env task_id)
                db
              ∙ ap
                  (λ z. if missing_list env body.list_id db then (raised list_not_found, db) else z)
                  (found env new_id (Writes.create_task env new_id ts body db).0
                    (created env new_id ts body db category) e),
        ))
