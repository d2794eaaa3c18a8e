-- ===== src/Api/Replica/Converges.antt =====
-- The client's copy, whatever the order of requests, of other writers and of its own pages.
use mathlib.Core.Logic.{∥∥₁_prop, ∥∥₁_map, ∥∥₁_elim}
use mathlib.Core.Logic.Or
use supernote_task_service.Common.{ℕ, ◌≡◌, ◌∙◌, Option, some, [], Text, arith}
use supernote_task_service.Common.Int.{ℤ}
use supernote_task_service.Common.Dict.{Dict, lookup}
use supernote_task_service.Encoding.Links.{IsCodec}
use supernote_task_service.Models.{Task, Page}
use supernote_task_service.Sql.{Tables}
use supernote_task_service.Sql.Laws.{IsServer}
use supernote_task_service.Repository.{Env}
use supernote_task_service.Repository.TaskReads.{TaskQuery, list_tasks}
use supernote_task_service.Http.Failures.{ok}
use supernote_task_service.Http.Tasks as Tasks
use supernote_task_service.Api.{perform, route, tasks_get, Moment, a_page_of_tasks}
use supernote_task_service.Api.Replica.Listing.{listing_holds, listing-Known}
use supernote_task_service.Api.Evolution.{task_columns, origin, lasts}
use supernote_task_service.Api.Isolation.{perform-Step}
use supernote_task_service.Api.WellFormed.{IsWellFormed, perform-IsWellFormed}
use supernote_task_service.Api.Replica.{
  World, Next, request, other_writer, listing, page, Reaches, here, then, KeepsTasks,
}
use supernote_task_service.Api.Replica.Synced.{HoldsBefore, Known, page_holds, page-Known}

module _ (env : Env) where
  -- The client is in step: every task of the user, with times that are dates, that was last changed
  -- before the cursor is in the
  -- copy as its row is, or is deleted and not in the copy, and the copy holds no other than the
  -- user's tasks.
  pub record IsSynced (w : World) : Type 0 where
    pub well : IsWellFormed env w.tables
    pub holds : HoldsBefore env w.cursor w.tables w.copy
    pub known : Known env w.tables w.copy

  Known-KeepsTasks :
      (db db' : Tables) (copy : Dict Task)
      → KeepsTasks db db'
      → Known env db copy
      → Known env db' copy
  Known-KeepsTasks db db' copy keeps known k t found =
      ∥∥₁_elim (known k t found) ∥∥₁_prop
        λ (r, i, e, u). ∥∥₁_map (keeps r i) λ (s, j, same, owner). (s, j, same ∙ e, owner ∙ u)

one_time : (o : Option ℕ) {m n : ℕ} → o ≡ some m → o ≡ some n → m ≡ n
one_time o e f = ground arith

empty_copy : (k : Text) (t : Task) → ¬ (lookup k [] ≡ some t)
unfolding lookup
empty_copy k t e = cc

-- An answered `GET /tasks` is a page of `list_tasks`.
page_read :
    (env : Env) (max_age : ℤ) (q : TaskQuery) (m : Moment) (p : Page Task) (db : Tables)
    → perform env max_age (tasks_get q) m db ≡ (ok (a_page_of_tasks p), db)
    → list_tasks env q m.now db db ≡ some (p.items, p.cursor, p.has_more)
unfolding perform route Tasks.list_tasks
page_read env max_age q m p db e = ground arith

-- The client's start: an empty copy and the cursor 0.
abbrev pub start : Tables → World
start db = record { tables = db; copy = []; cursor = 0; clock = 0 }

module _ (env : Env) (max_age : ℤ) (law : IsServer env.server) (codec : IsCodec env.codec) where
  next-IsSynced : {w v : World} → Next env max_age w v → IsSynced env w → IsSynced env v
  next-IsSynced {w} (request c m later after fresh) s =
      let step = perform-Step env max_age c m w.tables in
      record {
        well = perform-IsWellFormed env max_age codec c m w.tables fresh s.well;
        holds = λ r n i u time before dated.
            Or.elim ∥∥₁_prop
              (origin task_columns env.user_id m.now m.new_id w.tables.tasks _ step.tasks i)
              (λ there. s.holds r n there u time before dated)
              (λ (stamped, _).
                let e : n ≡ m.now = one_time r.last_modified time stamped in absurd (omega arith));
        known =
            Known-KeepsTasks env w.tables (perform env max_age c m w.tables).1 w.copy
              (λ r i. lasts task_columns env.user_id m.now m.new_id w.tables.tasks _ step.tasks i)
              s.known;
      }
  next-IsSynced {w} (other_writer db well late keeps) s = record {
    well = well;
    holds = λ r n i u time before dated.
        Or.elim ∥∥₁_prop (late r i) (λ there. s.holds r n there u time before dated)
          (λ (m, stamped, le).
            let e : n ≡ m = one_time r.last_modified time stamped in absurd (omega arith));
    known = Known-KeepsTasks env w.tables db w.copy keeps s.known;
  }
  next-IsSynced {w} (listing q m p later anew all_status (everywhere, all_lists) e) s =
      let read = page_read env max_age q m p w.tables e in
      record {
        well = s.well;
        holds =
            listing_holds env law q m.now anew all_status everywhere all_lists w.tables s.well
              p.items p.cursor p.has_more read;
        known =
            listing-Known env law q m.now anew all_status everywhere all_lists w.tables s.well
              p.items p.cursor p.has_more read;
      }
  next-IsSynced {w} (page q m p later delta (everywhere, all_lists) e) s =
      let read = page_read env max_age q m p w.tables e in
      record {
        well = s.well;
        holds =
            page_holds env law q m.now w.cursor delta everywhere all_lists w.tables s.well p.items
              p.cursor p.has_more w.copy read s.holds;
        known =
            page-Known env law q m.now w.cursor delta everywhere all_lists w.tables s.well p.items
              p.cursor p.has_more w.copy read s.known;
      }

  -- A client that starts with nothing, and asks for pages of all its tasks (all lists, every
  -- status) by a listing without a cursor or with the cursor of the page before, is in step in
  -- every world that follows from well-formed tables, in whatever order requests, other writers and
  -- its pages come: each task of the user whose due time and time of completion are dates that
  -- Python has, and that was last changed before its cursor, is in its copy as the table has it,
  -- but for the title of its list, or is deleted and not in the copy, and every entry of its copy
  -- is a task of the user. Requests take new identifiers, at readings of the clock that do not fall
  -- and are not before the client's cursor; other writers leave well-formed tables with every task,
  -- and what they change has a time not before the cursor.
  pub copy_converges :
      (db : Tables) (w : World)
      → IsWellFormed env db
      → Reaches env max_age (start db) w
      → IsSynced env w
  copy_converges db w well here = record {
    well = well;
    holds = λ r m i u time before dated. absurd (omega arith);
    known = λ k t found. absurd (empty_copy k t found);
  }
  copy_converges db w well (then before next) = next-IsSynced next (copy_converges db _ well before)
