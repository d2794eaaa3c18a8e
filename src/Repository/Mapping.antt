-- ===== src/Repository/Mapping.antt =====
-- The mapping helpers of `Repository`: from rows of the database to the models.
use supernote_task_service.Common.{
  ℕ, Option, none, some, List, [], ◌∷◌, Text, text_eq, if◌then◌else◌, ◌>>=◌,
}
use supernote_task_service.Common.Int.{ℤ, pos}
use supernote_task_service.Models.{
  Task, TaskList, TaskStatus, needs_action, completed, DocumentLink,
}
use supernote_task_service.Encoding.{decode_emoji}
use supernote_task_service.Encoding.Clock.{ms_to_dt}
use supernote_task_service.Encoding.Decimal.{strip, parse_int}
use supernote_task_service.Encoding.Links.{Members, member, end, decode_document_link}
use supernote_task_service.Sql.{JoinedRow, GroupRow}
use supernote_task_service.Repository.{Env}

-- the values of the enumeration `TaskStatus`
abbrev pub needs_action_value : Text
needs_action_value = b'n' ∷ b'e' ∷ b'e' ∷ b'd' ∷ b's' ∷ b'A' ∷ b'c' ∷ b't' ∷ b'i' ∷ b'o' ∷ b'n' ∷ []

abbrev pub completed_value : Text
completed_value = b'c' ∷ b'o' ∷ b'm' ∷ b'p' ∷ b'l' ∷ b'e' ∷ b't' ∷ b'e' ∷ b'd' ∷ []

-- `status.value`
unfoldable pub status_value : TaskStatus → Text
status_value needs_action = needs_action_value
status_value completed = completed_value

-- `TaskStatus(value)`
unfoldable pub task_status : Text → Option TaskStatus
task_status t =
    if text_eq t needs_action_value
    then some needs_action
    else if text_eq t completed_value
    then some completed
    else none

-- `_parse_importance`
unfoldable pub parse_importance : Option Text → Option ℤ
parse_importance none = none
parse_importance (some v) = elim (strip v) [ [] ↦ none | c ∷ cs ↦ parse_int (c ∷ cs) ]

-- `int(value or 0)`
abbrev pub or_zero : Option ℕ → ℕ
or_zero none = 0
or_zero (some n) = n

abbrev pub due_ms : Option ℤ → ℤ
due_ms none = pos 0
due_ms (some n) = n

-- `row["detail"] or ""`
abbrev or_empty : Option Text → Text
or_empty none = []
or_empty (some t) = t

module _ (env : Env) where
  -- A mapping that is empty or missing gives no link; a refused one raises.
  unfoldable pub row_link : Option Members → Option (Option DocumentLink)
  row_link none = some none
  row_link (some end) = some none
  row_link (some (member k v m)) = do
    link ← env.codec.model_validate (member k v m)
    some (some link)

  -- `_row_to_task`
  unfoldable pub row_to_task : JoinedRow → Option Task
  unfolding row_link task_status
  row_to_task row = do
    link ← row_link (decode_document_link env.codec row.task.links)
    status ← task_status row.task.status
    due_at ← ms_to_dt env.floats (due_ms row.task.due_time)
    completed_at ← ms_to_dt env.floats (pos (or_zero row.task.completed_time))
    some (record {
      id = row.task.task_id;
      list_id = row.task.task_list_id;
      category = decode_emoji (some row.category);
      title = decode_emoji row.task.title;
      detail = decode_emoji (some (or_empty row.task.detail));
      status = status;
      importance = parse_importance row.task.importance;
      due = due_at;
      completed = completed_at;
      sort = row.task.sort;
      last_modified = or_zero row.task.last_modified;
      document_link = link;
      is_deleted = row.task.is_deleted;
    })

  unfoldable pub rows_to_tasks : List JoinedRow → Option (List Task)
  rows_to_tasks [] = some []
  rows_to_tasks (r ∷ rs) = do task ← row_to_task r; tasks ← rows_to_tasks rs; some (task ∷ tasks)

-- `_row_to_list`
unfoldable pub row_to_list : GroupRow → TaskList
row_to_list r = record {
  id = some r.task_list_id;
  title = decode_emoji r.title;
  last_modified = or_zero r.last_modified;
  is_deleted = r.is_deleted;
}
