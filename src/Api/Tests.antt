-- ===== src/Api/Tests.antt =====
-- Calls on a small table, and a client that follows it.
use supernote_task_service.Common.{
  Text, ◌≡◌, refl, false, true, none, some, List, [], ◌∷◌, Mem, arith, text_eq,
}
use supernote_task_service.Common.Int.{pos}
use supernote_task_service.Encoding.{all_lower_hex, decode_emoji, occurs, starts_with}
use supernote_task_service.Encoding.Clock.{ms_to_dt, ms_to_datetime}
use supernote_task_service.Encoding.Links.{decode_document_link}
use supernote_task_service.Encoding.Samples.{framed, framed-IsCodec}
use supernote_task_service.Models.{is_id, Task, TaskCreate, Page, needs_action}
use supernote_task_service.Sql.{
  Tables, TaskRow, GroupRow, left_join, joined_titles, join_row, joined_order, joined_id_order,
  modified_order, text_lt, weights_lt, same_text,
}
use supernote_task_service.Sql.Tasks.{update_rows, assign_all, select_joined, all_hold, holds}
use supernote_task_service.Sql.Reference.{reference-IsServer, arrange, place}
use supernote_task_service.Repository.{
  Env, clamp_limit, is_full_page, is_single_ms_full_page, page_cursor,
}
use supernote_task_service.Repository.Mapping.{
  row_to_task, rows_to_tasks, row_link, task_status, parse_importance,
}
use supernote_task_service.Repository.TaskReads.{
  list_tasks, page_rows, task_clauses, mode_clauses, list_clauses, finish_page, drained_page,
  drain_tasks_at, drain_clauses, TaskQuery,
}
use supernote_task_service.Repository.Samples.{
  user_7, row_at, task_at, id_a, id_b, id_c, one_by_one, three_tasks, rename,
}
use supernote_task_service.Repository.Sync.Complete.{IsKeyed}
use supernote_task_service.Api.Joined.{ReadsByDates}
use supernote_task_service.Repository.TaskWrites.{delete_task, run_update, active_task}
use supernote_task_service.Api.Conflicts.{no_lost_update, deletes, patches}
use supernote_task_service.Http.Failures.{ok, raised, Failure}
use supernote_task_service.Http.Tasks as Tasks
use supernote_task_service.Http.Deps.{cursor_expired}
use supernote_task_service.Api.{
  Call, tasks_get, tasks_post, task_patch, task_delete, no_content, Moment, a_page_of_tasks,
  perform, route, run, valid_call,
}
use supernote_task_service.Api.Evolution.{task_columns, group_columns, others}
use supernote_task_service.Api.Isolation.{run_isolates, deletion_is_final}
use supernote_task_service.Api.WellFormed.{IsWellFormed, IsFresh, run-IsWellFormed}
use supernote_task_service.Api.Replica.{World, request, listing, Reaches, here, then, file_all}
use supernote_task_service.Api.Blind.Calls.{answered, answered-Agree}
use supernote_task_service.Api.Replica.Converges.{start, IsSynced, copy_converges}

abbrev env_7 : Env
env_7 = record user_7 { codec = framed }

abbrev bread : TaskCreate
bread = record {
  title = b'B' ∷ [];
  detail = [];
  list_id = none;
  status = needs_action;
  importance = none;
  due = none;
  sort = none;
  document_link = none;
}

abbrev at_41 : Moment
at_41 = record { fresh_at = 40; completed_at = 41; now = 41; new_id = b'd' ∷ [] }

-- An identifier of 32 digits.
abbrev id_32 : Text
id_32 =
    b'a' ∷ b'a' ∷ b'a' ∷ b'a' ∷ b'a' ∷ b'a' ∷ b'a' ∷ b'a' ∷ b'a' ∷ b'a' ∷ b'a' ∷ b'a' ∷ b'a' ∷ b'a'
    ∷ b'a' ∷ b'a' ∷ b'a' ∷ b'a' ∷ b'a' ∷ b'a' ∷ b'a' ∷ b'a' ∷ b'a' ∷ b'a' ∷ b'a' ∷ b'a' ∷ b'a'
    ∷ b'a' ∷ b'a' ∷ b'a' ∷ b'a' ∷ b'a' ∷ []

-- A task of user 8, and one of user 7 that is deleted.
abbrev two_users : Tables
two_users = record {
  tasks =
      record (row_at id_32 10) { user_id = 8 } ∷ record (row_at id_b 20) { is_deleted = true } ∷ [];
  groups = [];
}

abbrev calls : List (Call × Moment)
calls = (tasks_post bread, at_41) ∷ (task_delete id_32 none, at_41) ∷ []

run_isolates_example :
    (others task_columns 7 (run env_7 (pos 0) calls two_users).tasks
      ≡ others task_columns 7 two_users.tasks)
    × (others group_columns 7 (run env_7 (pos 0) calls two_users).groups
        ≡ others group_columns 7 two_users.groups)
run_isolates_example = run_isolates env_7 (pos 0) calls two_users

deletion_is_final_example :
    ((r : TaskRow)
      → r.is_deleted ≡ true
      → Mem r two_users.tasks
      → Mem r (run env_7 (pos 0) calls two_users).tasks)
    × ((r : GroupRow)
        → r.is_deleted ≡ true
        → Mem r two_users.groups
        → Mem r (run env_7 (pos 0) calls two_users).groups)
deletion_is_final_example = deletion_is_final env_7 (pos 0) calls two_users

well : IsWellFormed env_7 three_tasks
unfolding same_text text_eq row_to_task row_link task_status decode_document_link parse_importance
    ms_to_dt ms_to_datetime decode_emoji occurs
well = record {
  task_ids = ((refl, (refl, tt)), ((refl, tt), (tt, tt)));
  list_ids = tt;
  sound = ((refl, refl), ((refl, refl), ((refl, refl), tt)));
}

fresh : IsFresh env_7 at_41 three_tasks
unfolding same_text text_eq
fresh = ((refl, (refl, (refl, tt))), tt)

run-IsWellFormed_example :
    let db' = run env_7 (pos 0) ((tasks_post bread, at_41) ∷ []) three_tasks in
    IsWellFormed env_7 db' × IsKeyed env_7 db' × ReadsByDates env_7 db'
run-IsWellFormed_example =
    run-IsWellFormed env_7 (pos 0) framed-IsCodec ((tasks_post bread, at_41) ∷ []) three_tasks
      (fresh, tt) well

abbrev all_tasks : TaskQuery
all_tasks = record one_by_one { since = none; include_completed = true; limit = some (pos 5) }

-- The same task of user 8 under another identifier and time.
abbrev others_differ : Tables
others_differ = record {
  tasks =
      record (row_at id_b 20) { is_deleted = true } ∷ record (row_at id_c 15) { user_id = 8 } ∷ [];
  groups = [];
}

answered-Agree_example :
    answered env_7 (pos 0) calls two_users ≡ answered env_7 (pos 0) calls others_differ
answered-Agree_example = answered-Agree env_7 (pos 0) calls two_users others_differ (refl, refl)

abbrev at_40 : Moment
at_40 = record { fresh_at = 40; completed_at = 40; now = 40; new_id = [] }

abbrev first_page : Page Task
first_page = record {
  items = task_at id_a 20 ∷ task_at id_b 20 ∷ task_at id_c 30 ∷ [];
  cursor = 40;
  has_more = false;
}

lists_all :
    perform env_7 (pos 0) (tasks_get all_tasks) at_40 three_tasks
    ≡ (ok (a_page_of_tasks first_page), three_tasks)
unfolding perform route valid_call Tasks.list_tasks list_tasks page_rows task_clauses mode_clauses
    list_clauses finish_page drained_page drain_tasks_at drain_clauses rows_to_tasks row_to_task
    row_link task_status parse_importance clamp_limit is_full_page is_single_ms_full_page
    page_cursor arrange place select_joined all_hold holds left_join joined_titles join_row
    joined_order joined_id_order modified_order text_lt weights_lt same_text decode_document_link
    ms_to_dt ms_to_datetime decode_emoji occurs starts_with text_eq cursor_expired
lists_all = refl

-- The client lists the tasks, and another request writes behind it.
abbrev listed : World
listed = record {
  tables = three_tasks;
  copy = file_all first_page.items [];
  cursor = 40;
  clock = 40;
}

abbrev written : World
written = record listed {
  tables = (perform env_7 (pos 0) (tasks_post bread) at_41 three_tasks).1;
  clock = 41;
}

steps : Reaches env_7 (pos 0) (start three_tasks) written
steps =
    then
      (then here
        (listing all_tasks at_40 first_page (omega arith) refl refl (refl, refl) lists_all))
      (request (tasks_post bread) at_41 (omega arith) (omega arith) fresh)

copy_converges_example : IsSynced env_7 written
copy_converges_example =
    copy_converges env_7 (pos 0) reference-IsServer framed-IsCodec three_tasks written well steps

abbrev one_task : Tables
one_task = record { tasks = row_at id_32 20 ∷ []; groups = [] }

deleted : (perform env_7 (pos 0) (task_delete id_32 (some 20)) at_41 one_task).0 ≡ ok no_content
unfolding perform route valid_call is_id all_lower_hex Tasks.delete_task Tasks.resolve_write
    delete_task run_update update_rows active_task all_hold holds same_text text_eq assign_all
deleted = refl

no_lost_update_example :
    let after =
      run env_7
        (pos 0)
        ((tasks_post bread, at_41) ∷ [])
        (perform env_7 (pos 0) (task_delete id_32 (some 20)) at_41 one_task).1 in
    (f : Failure) × (perform env_7 (pos 0) (task_patch id_32 rename (some 20)) at_41 after
      ≡ (raised f, after))
no_lost_update_example =
    no_lost_update env_7 (pos 0) id_32 20 (task_delete id_32 (some 20))
      (task_patch id_32 rename (some 20)) at_41 at_41 ((tasks_post bread, at_41) ∷ []) one_task
      no_content deletes tt (patches rename) (λ e. omega arith) ((λ e. omega arith), tt) deleted
