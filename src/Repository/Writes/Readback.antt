-- ===== src/Repository/Writes/Readback.antt =====
-- A task that `create_task` inserts, as `_row_to_task` reads it.
use mathlib.Core.Option
use supernote_task_service.Common.{
  ℕ, ◌≤◌, length, Option, ◌>>=◌, ◌≡◌, refl, false, none, some, Text, All, text_eq,
}
use supernote_task_service.Common.Int.{pos}
use supernote_task_service.Encoding.{decode_emoji, encode_emoji, detail_max_len, occurs, mark}
use supernote_task_service.Encoding.Detail.{encode_detail_fits}
use supernote_task_service.Encoding.Emoji.{IsCharacter}
use supernote_task_service.Encoding.Roundtrip.{decode-encode_emoji}
use supernote_task_service.Encoding.Clock.{dt_to_ms, ms_to_dt}
use supernote_task_service.Encoding.Links.{decode_document_link}
use supernote_task_service.Models.{title_max, Task, TaskCreate, TaskStatus, needs_action, completed}
use supernote_task_service.Sql.{Tables}
use supernote_task_service.Sql.Laws.{IsServer}
use supernote_task_service.Repository.{Env}
use supernote_task_service.Repository.Mapping.{row_to_task, row_link, task_status, status_value}
use supernote_task_service.Repository.TaskWrites.{new_row, completion_time, link_text, sort_or_next}
use supernote_task_service.Repository.Writes.Created.{parse_importance-importance_text}

task_status-status_value : (s : TaskStatus) → task_status (status_value s) ≡ some s
unfolding task_status status_value text_eq
task_status-status_value needs_action = refl
task_status-status_value completed = refl

-- The task that a request to create one asks for, in a list of the given title: the importance as a
-- number, the times as they read back from what is stored, and the rest as it was sent; none where
-- one of the times is no date that Python has.
abbrev pub created : Env → Text → ℕ → TaskCreate → Tables → Text → Option Task
created env task_id ts c db category = do
  due_at ← ms_to_dt env.floats (dt_to_ms env.floats c.due)
  completed_at ← ms_to_dt env.floats (pos (completion_time ts c.status))
  some (record {
    id = task_id;
    list_id = c.list_id;
    category = decode_emoji (some category);
    title = c.title;
    detail = c.detail;
    status = c.status;
    importance = Option.map pos c.importance;
    due = due_at;
    completed = completed_at;
    sort = some (sort_or_next env c.sort c.list_id db);
    last_modified = ts;
    document_link = none;
    is_deleted = false;
  })

-- A task that is created without a link, with a title and a detail of characters that do not hold the
-- letters `[U+`, and whose encodings fit, reads back as it was sent, with the position
-- and the time that it was given, if its due time and its time of completion, as they are stored, are
-- dates, and does not read back if not.
pub row_to_task-new_row :
    (env : Env) (law : IsServer env.server) (task_id : Text) (ts : ℕ) (c : TaskCreate) (db : Tables)
    (category : Text)
    → c.document_link ≡ none
    → All IsCharacter c.title
    → occurs mark c.title ≡ false
    → length (encode_emoji c.title) ≤ title_max
    → All IsCharacter c.detail
    → occurs mark c.detail ≡ false
    → length (encode_emoji c.detail) ≤ detail_max_len
    → row_to_task env (record { task = new_row env task_id ts c db; category = category })
      ≡ created env task_id ts c db category
unfolding row_to_task new_row link_text row_link decode_document_link
row_to_task-new_row env law task_id ts c db category l h m short h' m' fits =
    rw
      (
        l,
        task_status-status_value c.status,
        law.fits title_max (encode_emoji c.title) short,
        decode-encode_emoji c.title h m,
        encode_detail_fits c.detail fits,
        decode-encode_emoji c.detail h' m',
        parse_importance-importance_text c.importance,
      )
      refl
