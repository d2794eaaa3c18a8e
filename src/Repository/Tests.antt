-- ===== src/Repository/Tests.antt =====
-- Runs of the methods of `Repository` on a small table.
use mathlib.Core.List.{mem-cons_self, mem-cons_of_mem}
use mathlib.Core.Logic.{◌∨₁◌}
use supernote_task_service.Common.{◌≡◌, ◌≤◌, refl, false, none, some, [], ◌∷◌, Mem, arith, text_eq}
use supernote_task_service.Encoding.{decode_emoji, occurs, starts_with}
use supernote_task_service.Encoding.Clock.{ms_to_dt, ms_to_datetime}
use supernote_task_service.Encoding.Links.{decode_document_link}
use supernote_task_service.Sql.{
  left_join, joined_titles, join_row, joined_order, joined_id_order, modified_order, text_lt,
  weights_lt, same_text,
}
use supernote_task_service.Sql.Tasks.{
  select_joined, all_hold, holds, in_list_or_inbox, by_user, active,
}
use supernote_task_service.Sql.Reference.{reference-IsServer, arrange, place}
use supernote_task_service.Repository.{
  clamp_limit, is_full_page, is_single_ms_full_page, page_cursor,
}
use supernote_task_service.Repository.Mapping.{
  row_to_task, rows_to_tasks, row_link, task_status, parse_importance,
}
use supernote_task_service.Repository.TaskReads.{
  list_tasks, page_rows, task_clauses, mode_clauses, list_clauses, finish_page, drained_page,
  drain_tasks_at, drain_clauses,
}
use supernote_task_service.Repository.TaskWrites.{next_sort}
use supernote_task_service.Repository.Sync.Rows.{Asked}
use supernote_task_service.Repository.Sync.Complete.{IsKeyed}
use supernote_task_service.Repository.Sync.Promises.{
  page_complete, page_progress, drained_page_hides, Advances,
}
use supernote_task_service.Repository.Writes.Created.{next_sort_lem, AllBefore, IsTight}
use supernote_task_service.Repository.Sync.Sound.{ComesFrom, page_sound}
use supernote_task_service.Repository.Samples.{
  user_7, task_at, joined_at, id_a, id_b, id_c, three_tasks, one_by_one,
}

-- The page is full at one millisecond, which is drained; the later task waits behind the cursor.
first_page :
    list_tasks user_7 one_by_one 40 three_tasks three_tasks
    ≡ some (task_at id_a 20 ∷ task_at id_b 20 ∷ [], 21, false)
unfolding list_tasks page_rows task_clauses mode_clauses list_clauses finish_page drained_page
    drain_tasks_at drain_clauses rows_to_tasks row_to_task row_link task_status parse_importance
    clamp_limit is_full_page is_single_ms_full_page page_cursor arrange place select_joined all_hold
    holds left_join joined_titles join_row joined_order joined_id_order modified_order text_lt
    weights_lt same_text decode_document_link ms_to_dt ms_to_datetime decode_emoji occurs
    starts_with text_eq
first_page = refl

keyed : IsKeyed user_7 three_tasks
unfolding left_join joined_titles join_row same_text text_eq
keyed = ((refl, (refl, tt)), ((refl, tt), (tt, tt)))

mapped : row_to_task user_7 (joined_at id_b 20) ≡ some (task_at id_b 20)
unfolding row_to_task decode_document_link text_eq decode_emoji parse_importance ms_to_dt occurs
mapped = refl

asked : Asked user_7 one_by_one 40 three_tasks (joined_at id_b 20)
unfolding left_join joined_titles join_row task_clauses mode_clauses list_clauses all_hold holds
asked = (mem-cons_of_mem _ mem-cons_self, refl)

page_complete_example : Mem (task_at id_b 20) (task_at id_a 20 ∷ task_at id_b 20 ∷ []) ∨₁ (21 ≤ 20)
page_complete_example =
    page_complete user_7 reference-IsServer one_by_one 40 10 refl three_tasks
      (task_at id_a 20 ∷ task_at id_b 20 ∷ []) 21 false (joined_at id_b 20) (task_at id_b 20) keyed
      first_page asked mapped

page_progress_example :
    Advances user_7 reference-IsServer one_by_one 40 10 refl three_tasks 21 false
page_progress_example =
    page_progress user_7 reference-IsServer one_by_one 40 10 refl three_tasks
      (task_at id_a 20 ∷ task_at id_b 20 ∷ []) 21 false first_page

-- The third task is asked for, and it is not on a page that announces no more.
drained_page_hides_example : ¬ Mem (task_at id_c 30) (task_at id_a 20 ∷ task_at id_b 20 ∷ [])
drained_page_hides_example =
    drained_page_hides user_7 reference-IsServer one_by_one 40 10 refl three_tasks
      (task_at id_a 20 ∷ task_at id_b 20 ∷ []) 21 (task_at id_c 30) first_page (omega arith)
      (omega arith)

next_sort_example :
    let where_ = in_list_or_inbox none ∷ by_user 7 ∷ active ∷ [] in
    AllBefore user_7.server where_ (next_sort user_7 none three_tasks) three_tasks.tasks
    × IsTight user_7.server where_ (next_sort user_7 none three_tasks) 0 three_tasks.tasks
next_sort_example = next_sort_lem user_7 none three_tasks

page_sound_example :
    ComesFrom user_7 reference-IsServer one_by_one 40 10 refl three_tasks (task_at id_b 20)
page_sound_example =
    page_sound user_7 reference-IsServer one_by_one 40 10 refl three_tasks
      (task_at id_a 20 ∷ task_at id_b 20 ∷ []) 21 false (task_at id_b 20) first_page
      (mem-cons_of_mem _ mem-cons_self)
