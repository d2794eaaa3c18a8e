-- ===== src/Models.antt =====
-- src/supernote_task_service/models.py: the data that the API takes and gives, with the constraints
-- of the request models as tests.
use supernote_task_service.Common.{
  ℕ, Bool, true, ◌&&◌, ◌||◌, Option, none, some, List, Text, leb, length, is_some,
}
use supernote_task_service.Encoding.{all_lower_hex}
use supernote_task_service.Encoding.Clock.{Datetime}
use supernote_task_service.Common.{◌==◌}
use supernote_task_service.Common.Int.{ℤ}

abbrev pub title_max : ℕ
title_max = 600

abbrev pub detail_max : ℕ
detail_max = 255

abbrev pub list_title_max : ℕ
list_title_max = 255

pub data TaskStatus : Type 0 where
  needs_action completed : TaskStatus

pub record DocumentLink : Type 0 where
  pub app_name : Text
  pub file_id : Text
  pub file_path : Text
  pub page : ℕ
  pub page_id : Text

pub record TaskList : Type 0 where
  pub id : Option Text
  pub title : Text
  pub last_modified : ℕ
  pub is_deleted : Bool

pub record TaskCreate : Type 0 where
  pub title : Text
  pub detail : Text
  pub list_id : Option Text
  pub status : TaskStatus
  pub importance : Option ℕ
  pub due : Option Datetime
  pub sort : Option ℕ
  pub document_link : Option DocumentLink

-- A field of a partial update: `none` where it is not in `model_fields_set`, `some none` for null.
abbrev pub Field : Type 0 → Type 0
Field A = Option (Option A)

pub record TaskUpdate : Type 0 where
  pub title : Field Text
  pub detail : Field Text
  pub list_id : Field Text
  pub status : Field TaskStatus
  pub importance : Field ℕ
  pub due : Field Datetime
  pub sort : Field ℕ
  pub document_link : Field DocumentLink

-- `TaskUpdate()` with no field set, which `_require_at_least_one_field` refuses.
abbrev pub no_fields : TaskUpdate
no_fields = record {
  title = none;
  detail = none;
  list_id = none;
  status = none;
  importance = none;
  due = none;
  sort = none;
  document_link = none;
}

pub record Task : Type 0 where
  pub id : Text
  pub list_id : Option Text
  pub category : Text
  pub title : Text
  pub detail : Text
  pub status : TaskStatus
  pub importance : Option ℤ
  pub due : Option Datetime
  pub completed : Option Datetime
  pub sort : Option ℕ
  pub last_modified : ℕ
  pub document_link : Option DocumentLink
  pub is_deleted : Bool

-- `TaskListPage` and `TaskListsPage`
pub record Page (A : Type 0) : Type 0 where
  pub items : List A
  pub cursor : ℕ
  pub has_more : Bool

unfoldable pub is_id : Text → Bool
is_id t = length t == 32 && all_lower_hex t

abbrev pub opt_all : {A : Type 0} → (A → Bool) → Option A → Bool
opt_all p none = true
opt_all p (some a) = p a

abbrev in_priority : ℕ → Bool
in_priority n = leb 1 n && leb n 5

-- the bounds that `Field(...)` puts on a link
unfoldable pub valid_link : DocumentLink → Bool
valid_link d =
    leb (length d.app_name) 64
    && leb (length d.file_id) 255
    && leb (length d.file_path) 1024
    && leb (length d.page_id) 255

unfoldable pub valid_create : TaskCreate → Bool
unfolding valid_link is_id
valid_create c =
    leb 1 (length c.title)
    && leb (length c.title) title_max
    && leb (length c.detail) detail_max
    && opt_all is_id c.list_id
    && opt_all in_priority c.importance
    && opt_all valid_link c.document_link

-- null passes every constraint of an optional field
abbrev pub field_all : {A : Type 0} → (A → Bool) → Field A → Bool
field_all p none = true
field_all p (some v) = opt_all p v

-- `_require_at_least_one_field`
unfoldable pub has_field : TaskUpdate → Bool
has_field u =
    is_some u.title
    || is_some u.detail
    || is_some u.list_id
    || is_some u.status
    || is_some u.importance
    || is_some u.due
    || is_some u.sort
    || is_some u.document_link

unfoldable pub valid_update : TaskUpdate → Bool
unfolding has_field valid_link is_id
valid_update u =
    has_field u
    && field_all (λ t. leb 1 (length t) && leb (length t) title_max) u.title
    && field_all (λ t. leb (length t) detail_max) u.detail
    && field_all is_id u.list_id
    && field_all in_priority u.importance
    && field_all valid_link u.document_link

-- `TaskListCreate` and `TaskListUpdate`
unfoldable pub valid_list_title : Text → Bool
valid_list_title t = leb 1 (length t) && leb (length t) list_title_max
