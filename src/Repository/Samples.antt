-- ===== src/Repository/Samples.antt =====
-- A small table of tasks, on which the methods of `Repository` are run.
use supernote_task_service.Repository.Writes.Conditional.{IsUnusedTime}
use supernote_task_service.Common.{arith, ℕ, false, none, some, [], ◌∷◌, Text}
use supernote_task_service.Common.Int.{pos}
use supernote_task_service.Encoding.Clock.{Floats}
use supernote_task_service.Encoding.Links.{Codec}
use supernote_task_service.Models.{Task, TaskUpdate, no_fields, needs_action}
use supernote_task_service.Sql.{TaskRow, JoinedRow, Tables, inbox}
use supernote_task_service.Sql.Reference.{reference}
use supernote_task_service.Repository.{Env}
use supernote_task_service.Repository.Mapping.{needs_action_value}
use supernote_task_service.Repository.TaskReads.{TaskQuery}

-- The rows have no links, so that no reader of them is called.
abbrev pub plain : Codec
plain = record {
  b64decode = λ t. some t;
  b64encode = λ b. b;
  utf8_decode = λ b. some b;
  utf8_encode = λ t. t;
  loads = λ _. none;
  dumps = λ _. [];
  model_validate = λ _. none;
}

abbrev pub whole : Floats
whole = record { to_ms = λ i. i; from_ms = λ i. some i }

abbrev pub user_7 : Env
user_7 = record { server = reference; codec = plain; floats = whole; user_id = 7 }

abbrev pub row_at : Text → ℕ → TaskRow
row_at id ms = record {
  task_id = id;
  task_list_id = none;
  user_id = 7;
  title = some (b'M' ∷ b'i' ∷ b'l' ∷ b'k' ∷ []);
  detail = none;
  last_modified = some ms;
  status = needs_action_value;
  importance = none;
  due_time = none;
  completed_time = some 0;
  links = none;
  is_deleted = false;
  sort = some 3;
  is_reminder_on = false;
  sort_completed = some 0;
  planer_sort = some 0;
  all_sort = none;
  all_sort_completed = none;
  sort_time = some ms;
  planer_sort_time = some 0;
  all_sort_time = none;
}

abbrev pub task_at : Text → ℕ → Task
task_at id ms = record {
  id = id;
  list_id = none;
  category = inbox;
  title = b'M' ∷ b'i' ∷ b'l' ∷ b'k' ∷ [];
  detail = [];
  status = needs_action;
  importance = none;
  due = none;
  completed = none;
  sort = some 3;
  last_modified = ms;
  document_link = none;
  is_deleted = false;
}

abbrev pub id_a : Text
id_a = b'a' ∷ []

abbrev pub id_b : Text
id_b = b'b' ∷ []

abbrev pub id_c : Text
id_c = b'c' ∷ []

-- Two tasks of one millisecond, and a later one.
abbrev pub three_tasks : Tables
three_tasks = record { tasks = row_at id_c 30 ∷ row_at id_b 20 ∷ row_at id_a 20 ∷ []; groups = [] }

abbrev pub joined_at : Text → ℕ → JoinedRow
joined_at id ms = record { task = row_at id ms; category = inbox }

-- A delta query for pages of one task.
abbrev pub one_by_one : TaskQuery
one_by_one = record {
  since = some 10;
  list_id = none;
  include_completed = false;
  inbox_only = false;
  limit = some (pos 1);
}

abbrev pub rename : TaskUpdate
rename = record no_fields { title = some (some (b'T' ∷ b'e' ∷ b'a' ∷ [])) }

-- No row was written at 40.
pub later : IsUnusedTime 40 three_tasks.tasks
later = (λ e. ground arith, (λ e. ground arith, (λ e. ground arith, tt)))
