-- ===== src/Api/Replica.antt =====
-- A client that keeps a copy of the tasks by incremental sync, as README.md tells it to: it asks
-- `GET /tasks` with the cursor of the page before, and files what it gets under the identifier.
-- Requests of any client, writes of others such as the device, and the pages of this client
-- interleave in any order.
pub mod Lookup
pub mod Synced
pub mod Listing
pub mod Converges
use mathlib.Core.Logic.{◌∨₁◌}
use supernote_task_service.Common.{
  ℕ, ◌≤◌, ◌≡◌, Bool, true, false, Option, none, some, List, [], ◌∷◌, Mem, Text,
}
use supernote_task_service.Common.Int.{ℤ}
use supernote_task_service.Common.Dict.{Dict, insert}
use supernote_task_service.Models.{Task, Page}
use supernote_task_service.Http.Failures.{ok}
use supernote_task_service.Sql.{Tables, TaskRow}
use supernote_task_service.Repository.{Env}
use supernote_task_service.Repository.TaskReads.{TaskQuery}
use supernote_task_service.Api.{Call, tasks_get, Moment, a_page_of_tasks, perform}
use supernote_task_service.Api.WellFormed.{IsWellFormed, IsFresh}

-- The client files each task of a page under its identifier.
unfoldable pub file_all : List Task → Dict Task → Dict Task
file_all [] d = d
file_all (t ∷ ts) d = file_all ts (insert t.id t d)

-- The tables, what the client holds, the cursor that it asks with next, and the last reading of the
-- clock.
pub record World : Type 0 where
  pub tables : Tables
  pub copy : Dict Task
  pub cursor : ℕ
  pub clock : ℕ

-- Each row that another writer leaves was there, or has a time that is not before the client's
-- cursor.
abbrev pub IsLate : World → Tables → Type 0
IsLate w db =
    (r : TaskRow)
    → Mem r db.tasks
    → Mem r w.tables.tasks ∨₁ ((m : ℕ) × (r.last_modified ≡ some m) × (w.cursor ≤ m))

-- Every task stays in the table, under its identifier and its owner.
abbrev pub KeepsTasks : Tables → Tables → Type 0
KeepsTasks db db' =
    (r : TaskRow)
    → Mem r db.tasks
    → ∥ ((s : TaskRow) × Mem s db'.tasks × (s.task_id ≡ r.task_id) × (s.user_id ≡ r.user_id)) ∥₁

-- Of all lists.
abbrev pub IsUnfiltered : TaskQuery → Type 0
IsUnfiltered q = (q.list_id ≡ none) × (q.inbox_only ≡ false)

module _ (env : Env) (max_age : ℤ) where
  -- One step of the whole. A call is at a reading of the clock that is not before the client's
  -- cursor: the millisecond that a drained page has just closed is over.
  pub data Next (w : World) : World → Type 0 where
    request :
        (c : Call) (m : Moment)
        → w.clock ≤ m.now
        → w.cursor ≤ m.now
        → IsFresh env m w.tables
        → Next w (record w { tables = (perform env max_age c m w.tables).1; clock = m.now })
    other_writer :
        (db : Tables)
        → IsWellFormed env db
        → IsLate w db
        → KeepsTasks w.tables db
        → Next w (record w { tables = db })
    -- `GET /tasks` without a cursor, by which the client starts anew
    listing :
        (q : TaskQuery) (m : Moment) (p : Page Task)
        → w.clock ≤ m.now
        → q.since ≡ none
        → q.include_completed ≡ true
        → IsUnfiltered q
        → perform env max_age (tasks_get q) m w.tables ≡ (ok (a_page_of_tasks p), w.tables)
        → Next w (record w { copy = file_all p.items []; cursor = p.cursor; clock = m.now })
    -- `GET /tasks` with the cursor
    page :
        (q : TaskQuery) (m : Moment) (p : Page Task)
        → w.clock ≤ m.now
        → q.since ≡ some w.cursor
        → IsUnfiltered q
        → perform env max_age (tasks_get q) m w.tables ≡ (ok (a_page_of_tasks p), w.tables)
        → Next w (record w { copy = file_all p.items w.copy; cursor = p.cursor; clock = m.now })

  -- The worlds that follow from one by steps.
  pub data Reaches (w : World) : World → Type 0 where
    here : Reaches w w
    then : {v u : World} → Reaches w v → Next v u → Reaches w u
