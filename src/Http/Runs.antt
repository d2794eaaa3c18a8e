-- ===== src/Http/Runs.antt =====
-- Requests that create a task, and that write a list, in small tables.
use supernote_task_service.Common.{
  ◌≤◌, length, ℕ, ◌&&◌, is_some, ◌≡◌, ◌++◌, refl, false, true, none, some, [], ◌∷◌, Text, arith,
  if◌then◌else◌, text_eq,
}
use supernote_task_service.Models.{list_title_max, title_max, TaskCreate, completed}
use supernote_task_service.Encoding.{occurs, starts_with, mark, encode_emoji, token, detail_max_len}
use supernote_task_service.Encoding.Hex.{hex, hex_fuel, hex_digit}
use supernote_task_service.Sql.{Tables, same_text}
use supernote_task_service.Sql.Tasks.{any_task, all_hold, holds}
use supernote_task_service.Sql.Reference.{reference-IsServer}
use supernote_task_service.Repository.TaskReads.{task_exists, one_task}
use supernote_task_service.Repository.TaskWrites.{new_row}
use supernote_task_service.Repository.Writes.Readback.{created}
use supernote_task_service.Repository.Samples.{user_7, three_tasks}
use supernote_task_service.Http.Failures.{ok, raised, list_not_found}
use supernote_task_service.Http.Tasks.{missing_list}
use supernote_task_service.Http.Tasks as Tasks
use supernote_task_service.Repository.Lists as Repo
use supernote_task_service.Repository.Writes.Lists.{is_matched, with_list}
use supernote_task_service.Http.Lists as Lists
use supernote_task_service.Http.Lists.{require_list}
use supernote_task_service.Http.ListWrites.{list_refusal, list_write_answers}
use supernote_task_service.Http.Creation.{read_back, create_task_answers}

abbrev milk : TaskCreate
milk = record {
  title = b'M' ∷ 0x1F95B ∷ [];
  detail = b'2' ∷ 0x1F95B ∷ [];
  list_id = none;
  status = completed;
  importance = some 2;
  due = none;
  sort = none;
  document_link = none;
}

milk_no_mark : occurs mark milk.title ≡ false
unfolding occurs starts_with
milk_no_mark = refl

abbrev id_d : Text
id_d = b'd' ∷ []

detail_no_mark : occurs mark milk.detail ≡ false
unfolding occurs starts_with
detail_no_mark = refl

short_title : length (encode_emoji milk.title) ≤ title_max
unfolding encode_emoji token hex hex_fuel hex_digit
short_title = omega arith

short_detail : length (encode_emoji milk.detail) ≤ detail_max_len
unfolding encode_emoji token hex hex_fuel hex_digit
short_detail = omega arith

unused : task_exists user_7 id_d three_tasks ≡ false
unfolding task_exists one_task any_task all_hold holds same_text text_eq
unused = refl

create_task_answers_example : ∥ (
    (category : Text) × (Tasks.create_task user_7 id_d 50 milk three_tasks ≡ (
      if missing_list user_7 none three_tasks then (raised list_not_found, three_tasks) else (
        read_back (created user_7 id_d 50 milk three_tasks category),
        record three_tasks {
          tasks = three_tasks.tasks ++ new_row user_7 id_d 50 milk three_tasks ∷ [];
        },
      )))) ∥₁
create_task_answers_example =
    create_task_answers user_7 reference-IsServer id_d 50 milk three_tasks unused refl
      (omega arith, (omega arith, tt)) milk_no_mark short_title (omega arith, (omega arith, tt))
      detail_no_mark short_detail

abbrev one_group : Tables
one_group = record three_tasks {
  groups =
      record {
        task_list_id = id_d;
        user_id = 7;
        title = some (b'C' ∷ []);
        last_modified = some 20;
        is_deleted = false;
        create_time = some 20;
      }
      ∷ [];
}

abbrev errands : Text
errands = b'E' ∷ []

short_errands : length (encode_emoji errands) ≤ list_title_max
unfolding encode_emoji token hex hex_fuel hex_digit
short_errands = omega arith

list_write_answers_example :
    (Lists.update_list user_7 id_d errands (some 20) 40 one_group ≡ (
      if is_matched user_7 id_d (some 20) one_group
      then require_list user_7 id_d (
          with_list user_7
            (λ r. record r { title = some (encode_emoji errands); last_modified = some 40 })
            id_d
            (some 20)
            one_group)
      else (
        raised (list_refusal (is_some {A = ℕ} (some 20) && Repo.list_exists user_7 id_d one_group)),
        one_group,
      )))
    × (Lists.delete_list user_7 id_d (some 20) 40 one_group ≡ (
        if is_matched user_7 id_d (some 20) one_group
        then (
          ok tt,
          with_list user_7
              (λ r. record r { is_deleted = true; last_modified = some 40 })
              id_d
              (some 20)
              one_group,
        )
        else (
          raised
              (list_refusal (is_some {A = ℕ} (some 20) && Repo.list_exists user_7 id_d one_group)),
          one_group,
        )))
list_write_answers_example =
    list_write_answers user_7 reference-IsServer id_d errands (some 20) 40 one_group
      ((λ e. ground arith), tt) short_errands
