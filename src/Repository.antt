-- ===== src/Repository.antt =====
-- src/supernote_task_service/repository.py: what the methods of `Repository` share. The state is the
-- two tables; a method takes the clock readings and the new identifier that it asks for, and runs
-- after `Database.get_user_id` has resolved the user. `none` stands for an exception of the mapping.
pub mod Mapping
pub mod TaskReads
pub mod TaskWrites
pub mod Lists
pub mod Sync
pub mod Writes
pub mod Samples
mod Tests
use supernote_task_service.Common.{
  Text, ℕ, Bool, true, false, ◌&&◌, Option, none, some, List, [], ◌∷◌, leb, ◌==◌, if◌then◌else◌,
  length, first?, last?, is_some,
}
use supernote_task_service.Common.Int.{ℤ, pos, leb_ℤ, at_least_one}
use supernote_task_service.Models.{title_max, list_title_max}
use supernote_task_service.Encoding.{encode_emoji}
use supernote_task_service.Sql.{Server}
use supernote_task_service.Encoding.Clock.{Floats}
use supernote_task_service.Encoding.Links.{Codec}

-- The database server, the parts of Python that are parameters, and the exposed user.
pub record Env : Type 0 where
  pub server : Server
  pub codec : Codec
  pub floats : Floats
  pub user_id : ℕ

-- The encoded titles of a task and of a list, as their columns keep them.
abbrev pub stored_title : Env → Text → Text
stored_title env t = env.server.fit title_max (encode_emoji t)

abbrev pub stored_list_title : Env → Text → Text
stored_list_title env t = env.server.fit list_title_max (encode_emoji t)

abbrev pub default_page_limit : ℕ
default_page_limit = 500

abbrev pub max_page_limit : ℕ
max_page_limit = 1000

-- `_clamp_limit`
unfoldable pub clamp_limit : Option ℤ → ℕ
clamp_limit none = default_page_limit
clamp_limit (some n) = if leb_ℤ n (pos max_page_limit) then at_least_one n else max_page_limit

-- The paging tests of lists of tasks and of task lists, which share the field `last_modified`.
module _ {A : Type 0} (modified : A → ℕ) where
  abbrev same_modified : Option A → Option A → Bool
  same_modified none o = false
  same_modified (some a) none = false
  same_modified (some a) (some b) = modified a == modified b

  -- `_is_full_page`
  unfoldable pub is_full_page : List A → ℕ → Bool
  is_full_page items limit = length items == limit && is_some (first? items)

  -- `_is_single_ms_full_page`
  unfoldable pub is_single_ms_full_page : List A → ℕ → Bool
  is_single_ms_full_page items limit =
      length items == limit && is_some (first? items) && same_modified (first? items) (last? items)

  -- `_page_cursor`
  unfoldable pub page_cursor : List A → ℕ → ℕ → ℕ
  page_cursor items limit server_now =
      if length items == limit
      then elim (last? items) [ none ↦ server_now | some a ↦ modified a ]
      else server_now
