-- ===== src/Repository/Sync/Tests.antt =====
-- A client that reads a small table page by page, and the page that follows a deletion.
use mathlib.Core.List.{mem-cons_self, mem-cons_of_mem}
use mathlib.Core.Logic.{◌∨₁◌}
use supernote_task_service.Common.{
  ℕ, length, ◌<◌, ◌>>=◌, ◌≡◌, ◌≤◌, refl, true, false, none, some, List, [], ◌∷◌, Mem, All, length,
  ◌<◌, ◌>>=◌, arith, text_eq,
}
use supernote_task_service.Common.Int.{pos}
use supernote_task_service.Encoding.{decode_emoji, occurs, starts_with}
use supernote_task_service.Encoding.Clock.{ms_to_dt, ms_to_datetime}
use supernote_task_service.Encoding.Links.{decode_document_link}
use supernote_task_service.Models.{Task}
use supernote_task_service.Sql.{
  Tables, left_join, joined_titles, join_row, joined_order, joined_id_order, modified_order,
  text_lt, weights_lt, same_text,
}
use supernote_task_service.Sql.Tasks.{update_rows, assign_all, select_joined, all_hold, holds}
use supernote_task_service.Sql.Reference.{reference-IsServer, arrange, place}
use supernote_task_service.Repository.{
  clamp_limit, is_full_page, is_single_ms_full_page, page_cursor,
}
use supernote_task_service.Repository.Mapping.{
  row_to_task, rows_to_tasks, row_link, task_status, parse_importance,
}
use supernote_task_service.Repository.TaskReads.{
  list_tasks, page_rows, task_clauses, mode_clauses, list_clauses, finish_page, drained_page,
  drain_tasks_at, drain_clauses, TaskQuery,
}
use supernote_task_service.Repository.TaskWrites.{delete_task, active_task, run_update}
use supernote_task_service.Repository.Sync.Rows.{Asked}
use supernote_task_service.Repository.Sync.Complete.{IsKeyed}
use supernote_task_service.Repository.Sync.Client.{sync, sync_complete}
use supernote_task_service.Repository.Sync.Ends.{IsReadable, sync_ends}
use supernote_task_service.Repository.Sync.Tombstones.{tombstone_delivered}
use supernote_task_service.Repository.Sync.Whole.{whole_page}
use supernote_task_service.Repository.Samples.{
  user_7, row_at, task_at, joined_at, id_a, id_b, id_c, one_by_one,
}

-- Pages of two tasks, of three that were written one after the other.
abbrev two_by_two : TaskQuery
two_by_two = record one_by_one { limit = some (pos 2) }

abbrev spread : Tables
spread = record { tasks = row_at id_c 30 ∷ row_at id_b 20 ∷ row_at id_a 10 ∷ []; groups = [] }

keyed : IsKeyed user_7 spread
unfolding left_join joined_titles join_row same_text text_eq
keyed = ((refl, (refl, tt)), ((refl, tt), (tt, tt)))

mapped : row_to_task user_7 (joined_at id_c 30) ≡ some (task_at id_c 30)
unfolding row_to_task decode_document_link text_eq decode_emoji parse_importance ms_to_dt occurs
mapped = refl

asked : Asked user_7 two_by_two 40 spread (joined_at id_c 30)
unfolding left_join joined_titles join_row task_clauses mode_clauses list_clauses all_hold holds
asked = (mem-cons_self, refl)

-- The task at a cursor is delivered again.
abbrev delivered : List Task
delivered =
    task_at id_a 10 ∷ task_at id_b 20 ∷ task_at id_b 20 ∷ task_at id_c 30 ∷ task_at id_c 30 ∷ []

read_all : sync user_7 two_by_two spread (40 ∷ 41 ∷ 42 ∷ []) 10 ≡ some (delivered, 42, false)
unfolding sync list_tasks page_rows task_clauses mode_clauses list_clauses finish_page drained_page
    drain_tasks_at drain_clauses rows_to_tasks row_to_task row_link task_status parse_importance
    clamp_limit is_full_page is_single_ms_full_page page_cursor arrange place select_joined all_hold
    holds left_join joined_titles join_row joined_order joined_id_order modified_order text_lt
    weights_lt same_text decode_document_link ms_to_dt ms_to_datetime decode_emoji occurs
    starts_with text_eq
read_all = refl

sync_complete_example : Mem (task_at id_c 30) delivered ∨₁ (42 ≤ 30)
sync_complete_example =
    sync_complete user_7 reference-IsServer two_by_two spread keyed (40 ∷ 41 ∷ 42 ∷ []) 10 delivered
      42 false (joined_at id_c 30) (task_at id_c 30) (omega arith, (omega arith, tt)) read_all asked
      mapped

readable : IsReadable user_7 spread
unfolding left_join joined_titles join_row row_to_task decode_document_link text_eq decode_emoji
    parse_importance ms_to_dt occurs
readable = (refl, (refl, (refl, tt)))

-- One call for each millisecond from 20 to 30.
abbrev readings : List ℕ
readings = 30 ∷ 30 ∷ 30 ∷ 30 ∷ 30 ∷ 30 ∷ 30 ∷ 30 ∷ 30 ∷ 30 ∷ 30 ∷ []

no_later : All (λ n. n ≤ 30) readings
no_later = (
  omega arith,
  (
    omega arith,
    (
      omega arith,
      (
        omega arith,
        (
          omega arith,
          (
            omega arith,
            (omega arith, (omega arith, (omega arith, (omega arith, (omega arith, tt))))),
          ),
        ),
      ),
    ),
  ),
)

sync_ends_example :
    (ts : List Task) × (cursor : ℕ) × (sync user_7 two_by_two spread readings 20
      ≡ some (ts, cursor, false))
sync_ends_example =
    sync_ends user_7 reference-IsServer spread readable two_by_two 30 readings 20 no_later
      (omega arith) (omega arith)

abbrev left_over : Tables
left_over = (delete_task user_7 id_a none 40 spread).0

unrepeated : IsKeyed user_7 left_over
unfolding left_join joined_titles join_row same_text text_eq delete_task active_task all_hold holds
    run_update update_rows assign_all
unrepeated = ((refl, (refl, tt)), ((refl, tt), (tt, tt)))

all_read : IsReadable user_7 left_over
unfolding left_join joined_titles join_row row_to_task decode_document_link text_eq decode_emoji
    parse_importance ms_to_dt occurs delete_task active_task all_hold holds run_update update_rows
    assign_all
all_read = (refl, (refl, (refl, tt)))

-- The row that is to be deleted.
found : all_hold user_7.server (active_task user_7 id_a none) (row_at id_a 10) ≡ true
unfolding active_task all_hold holds same_text text_eq
found = refl

abbrev at_once : TaskQuery
at_once = record one_by_one { limit = some (pos 10) }

abbrev page : List Task
page = task_at id_b 20 ∷ task_at id_c 30 ∷ record (task_at id_a 40) { is_deleted = true } ∷ []

next_page : list_tasks user_7 at_once 50 left_over left_over ≡ some (page, 50, false)
unfolding list_tasks page_rows task_clauses mode_clauses list_clauses finish_page drained_page
    drain_tasks_at drain_clauses rows_to_tasks row_to_task row_link task_status parse_importance
    clamp_limit is_full_page is_single_ms_full_page page_cursor arrange place select_joined all_hold
    holds left_join joined_titles join_row joined_order joined_id_order modified_order text_lt
    weights_lt same_text decode_document_link ms_to_dt ms_to_datetime decode_emoji occurs
    starts_with text_eq delete_task active_task run_update update_rows assign_all
next_page = refl

tombstone_delivered_example :
    ∥ ((t : Task) × (t.id ≡ id_a) × (t.is_deleted ≡ true) × (Mem t page ∨₁ (50 ≤ 40))) ∥₁
tombstone_delivered_example =
    tombstone_delivered user_7 reference-IsServer at_once 10 40 50 refl refl refl (omega arith)
      (omega arith) id_a none spread (row_at id_a 10) page 50 false
      (mem-cons_of_mem _ (mem-cons_of_mem _ mem-cons_self)) found unrepeated all_read next_page

few :
    length (
      select_joined user_7.server
        (joined_order user_7.server)
        (task_clauses user_7 at_once 50)
        none
        left_over)
    < 10
unfolding left_join joined_titles join_row same_text text_eq delete_task active_task all_hold holds
    run_update update_rows assign_all select_joined joined_order modified_order text_lt weights_lt
    arrange place task_clauses mode_clauses list_clauses
few = omega arith

whole_page_example : list_tasks user_7 at_once 50 left_over left_over ≡ (do
  tasks ← rows_to_tasks user_7 (
      select_joined user_7.server
        (joined_order user_7.server)
        (task_clauses user_7 at_once 50)
        none
        left_over)
  some (tasks, 50, false))
whole_page_example = whole_page user_7 at_once 50 left_over left_over (unfold clamp_limit in few)
