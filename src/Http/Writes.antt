-- ===== src/Http/Writes.antt =====
-- The steps that the handlers of a write share.
use mathlib.Core.Path.{subst}
use supernote_task_service.Common.{
  sym, ◌≡◌, refl, Bool, true, false, ◌&&◌, Option, none, some, arith, Text, if◌then◌else◌, ◌∙◌,
}
use supernote_task_service.Sql.{Tables}
use supernote_task_service.Repository.{Env}
use supernote_task_service.Repository.TaskReads.{task_exists}
use supernote_task_service.Http.Failures.{
  Handler, ◌>>◌, ◌>>=◌, runs, Failure, ok, raised, list_not_found, task_not_found, task_conflict,
}
use supernote_task_service.Http.Tasks as Tasks
use supernote_task_service.Http.Tasks.{
  Readings, missing_list, require_task, ensure_list_exists, resolve_write,
}

-- The refusal of a write that found no row: a conflict if a version was expected and the task is
-- there, and otherwise that there is no such task.
abbrev pub refusal : Bool → Failure
refusal true = task_conflict
refusal false = task_not_found

module _ (env : Env) where
  abbrev pub lists_missing : Option (Option Text) → Tables → Bool
  lists_missing none db = false
  lists_missing (some l) db = missing_list env l db

  pub guarded :
      {A : Type 0} (l : Option (Option Text)) (k : Handler Tables A) (db : Tables)
      → (Tasks.check_new_list env l >> k) db
        ≡ (if lists_missing l db then (raised list_not_found, db) else k db)
  guarded none k db = refl
  guarded (some l) k db = unfold ensure_list_exists in ground arith

  -- What becomes of a write, which leaves the tables alone if it reports nothing.
  pub resolve_write_lem :
      (task_id : Text) (conditional done : Bool) (s db : Tables)
      → (done ≡ false → s ≡ db)
      → resolve_write env task_id done conditional s ≡ (
          if done
          then (ok tt, s)
          else (raised (refusal (conditional && task_exists env task_id db)), db))
  unfolding resolve_write
  resolve_write_lem task_id conditional true s db h = refl
  resolve_write_lem task_id conditional false s db h =
      let e : s ≡ db = h refl in rw e (ground arith)

  pub resolved :
      {A : Type 0} (k : Handler Tables A) (task_id : Text) (conditional done : Bool) (s db : Tables)
      → (done ≡ false → s ≡ db)
      → (resolve_write env task_id done conditional >> k) s
        ≡ (if done then k s else (raised (refusal (conditional && task_exists env task_id db)), db))
  unfolding resolve_write
  resolved k task_id conditional true s db h = refl
  resolved k task_id conditional false s db h = let e : s ≡ db = h refl in rw e (ground arith)

  -- The answer of a handler that writes and then goes on, by whether the write finds its task.
  pub answered :
      {A : Type 0} (k : Handler Tables A) (w : Tables → Tables × Bool) (task_id : Text)
      (conditional found : Bool) (db : Tables)
      → (w db).1 ≡ found
      → (found ≡ false → (w db).0 ≡ db)
      → (runs w >>= λ done. resolve_write env task_id done conditional >> k) db ≡ (
          if found
          then k (w db).0
          else (raised (refusal (conditional && task_exists env task_id db)), db))
  answered k w task_id conditional found db reports kept =
      subst
        (λ b. (resolve_write env task_id (w db).1 conditional >> k) (w db).0 ≡ (
          if b
          then k (w db).0
          else (raised (refusal (conditional && task_exists env task_id db)), db)))
        reports (resolved k task_id conditional (w db).1 (w db).0 db (λ e. kept (sym reports ∙ e)))
