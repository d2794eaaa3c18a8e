-- ===== src/Api/Blind.antt =====
-- What the answers of the API depend on: of the tasks, only on those of the user.
pub mod Rows
pub mod Methods
pub mod Handlers
pub mod Lists
pub mod Calls
use supernote_task_service.Common.{◌≡◌, Bool, List, keep, ◌==◌}
use supernote_task_service.Sql.{Tables, TaskRow}
use supernote_task_service.Repository.{Env}
use supernote_task_service.Http.Failures.{Handler}

module _ (env : Env) where
  -- The tasks of the user.
  abbrev pub mine : List TaskRow → List TaskRow
  mine = keep (λ r. r.user_id == env.user_id)

  -- Tables that differ only in the tasks of other users.
  abbrev pub Agree : Tables → Tables → Type 0
  Agree db db' = (mine db.tasks ≡ mine db'.tasks) × (db.groups ≡ db'.groups)

  -- A handler whose answer is the same on tables that agree, and that leaves tables that agree.
  abbrev pub IsBlind : {A : Type 0} → Handler Tables A → Type 0
  IsBlind h = (db db' : Tables) → Agree db db' → ((h db).0 ≡ (h db').0) × Agree (h db).1 (h db').1
