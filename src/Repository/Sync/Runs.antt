-- ===== src/Repository/Sync/Runs.antt =====
-- A page of task lists of a small table.
use mathlib.Core.Logic.{◌∨₁◌}
use mathlib.Core.List.{mem-cons_self}
use supernote_task_service.Common.{
  ◌≡◌, ◌≤◌, refl, false, some, [], ◌∷◌, Text, Mem, arith, text_eq, ℕ,
}
use supernote_task_service.Common.Int.{pos}
use supernote_task_service.Encoding.{decode_emoji, occurs, starts_with}
use supernote_task_service.Models.{TaskList}
use supernote_task_service.Sql.{
  Tables, GroupRow, group_order, group_id_order, modified_order, text_lt, weights_lt, same_text,
}
use supernote_task_service.Sql.Groups.{all_hold, holds, select_groups}
use supernote_task_service.Sql.Reference.{reference-IsServer, arrange, place}
use supernote_task_service.Repository.{
  clamp_limit, is_full_page, is_single_ms_full_page, page_cursor,
}
use supernote_task_service.Repository.Mapping.{row_to_list}
use supernote_task_service.Repository.Lists.{list_lists, list_rows, drained_lists, drain_lists_at}
use supernote_task_service.Repository.Sync.Unique.{IsUniqueBy}
use supernote_task_service.Repository.Sync.Lists.{Changed, lists_complete}
use supernote_task_service.Repository.Samples.{user_7, id_a, id_b, id_c}

abbrev group_at : Text → ℕ → GroupRow
group_at id ms = record {
  task_list_id = id;
  user_id = 7;
  title = some (b'L' ∷ []);
  last_modified = some ms;
  is_deleted = false;
  create_time = some ms;
}

-- Two lists of one millisecond, and a later one.
abbrev three_lists : Tables
three_lists = record {
  tasks = [];
  groups = group_at id_b 20 ∷ group_at id_a 20 ∷ group_at id_c 30 ∷ [];
}

abbrev list_at : Text → ℕ → TaskList
list_at id ms = record { id = some id; title = b'L' ∷ []; last_modified = ms; is_deleted = false }

first_lists :
    list_lists user_7 (some 10) (some (pos 1)) 40 three_lists three_lists
    ≡ (list_at id_a 20 ∷ list_at id_b 20 ∷ [], 21, false)
unfolding list_lists list_rows drained_lists drain_lists_at select_groups all_hold holds row_to_list
    clamp_limit is_full_page is_single_ms_full_page page_cursor arrange place group_order
    group_id_order modified_order text_lt weights_lt same_text decode_emoji occurs starts_with
    text_eq
first_lists = refl

told_apart : IsUniqueBy user_7.server (λ (z : GroupRow). z.task_list_id) three_lists.groups
unfolding same_text text_eq
told_apart = ((refl, (refl, tt)), ((refl, tt), (tt, tt)))

changed : Changed user_7 reference-IsServer (some (pos 1)) 40 10 three_lists (group_at id_b 20) 20
changed = record {
  there = mem-cons_self;
  owned = refl;
  at = refl;
  lower = omega arith;
  upper = omega arith;
}

lists_complete_example :
    Mem (row_to_list (group_at id_b 20)) (list_at id_a 20 ∷ list_at id_b 20 ∷ []) ∨₁ (21 ≤ 20)
lists_complete_example =
    lists_complete user_7 reference-IsServer (some (pos 1)) 40 10 three_lists
      (list_at id_a 20 ∷ list_at id_b 20 ∷ []) 21 false (group_at id_b 20) 20 told_apart first_lists
      changed
