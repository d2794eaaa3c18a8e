-- ===== src/Repository/Writes/Titles.antt =====
-- `create_list` and `get_list_by_title`.
use mathlib.Core.List.{not-mem-nil, mem-append_right, mem-cons_self}
use mathlib.Core.List.Perm
use supernote_task_service.Common.{
  ℕ, length, ◌≤◌, ap, ◌≡◌, refl, true, false, some, List, [], ◌∷◌, arith, Text, Mem, take,
  text_eq_refl,
}
use supernote_task_service.Common.Members.{mem-keep_of_mem}
use supernote_task_service.Models.{list_title_max, TaskList}
use supernote_task_service.Encoding.{encode_emoji}
use supernote_task_service.Sql.{Tables, GroupRow, same_text}
use supernote_task_service.Sql.Groups.{all_hold, select_groups, titled, by_user, active}
use supernote_task_service.Sql.Laws.{IsServer}
use supernote_task_service.Repository.{Env}
use supernote_task_service.Repository.Lists.{get_list_by_title, create_list, fetchone}

module _ (env : Env) (law : IsServer env.server) where
  first_row :
      (rows : List GroupRow) (r : GroupRow)
      → Mem r rows
      → (l : TaskList) × (fetchone env (take 1 rows) ≡ some l)
  first_row [] r m = absurd (not-mem-nil m)
  first_row (x ∷ xs) r m = (_, refl)

  titled_row :
      (title : Text) (r : GroupRow)
      → r.user_id ≡ env.user_id
      → r.is_deleted ≡ false
      → r.title ≡ some (encode_emoji title)
      → all_hold env.server (titled (encode_emoji title) ∷ by_user env.user_id ∷ active ∷ []) r
        ≡ true
  unfolding all_hold same_text
  titled_row title r u d t = ground (arith, text_eq_refl (env.server.weight (encode_emoji title)))

  -- A list that was created with a title whose encoding fits is found by its title.
  pub get_list_by_title-create_list :
      (list_id : Text) (ts : ℕ) (title : Text) (db : Tables)
      → length (encode_emoji title) ≤ list_title_max
      → (l : TaskList) × (get_list_by_title env title (create_list env list_id ts title db).0
          ≡ some l)
  unfolding get_list_by_title create_list select_groups
  get_list_by_title-create_list list_id ts title db short = first_row _ _ (
      (Perm.mem_iff (law.groups_perm _ _)).1 (
        mem-keep_of_mem _ _ (mem-append_right db.groups mem-cons_self) (
          titled_row title _ refl refl
            (ap some (law.fits list_title_max (encode_emoji title) short)))))
