-- ===== src/Api/Conflicts.antt =====
-- Optimistic concurrency: what becomes of a version that clients expect.
use mathlib.Core.Path.{subst}
use supernote_task_service.Common.{
  ℕ, ◌≡◌, ◌≢◌, ◌∙◌, sym, ap, refl, inl, inr, Bool, true, false, some, List, [], ◌∷◌, Text, arith,
  All, any, Bool-cases,
}
use supernote_task_service.Common.Int.{ℤ}
use supernote_task_service.Models.{TaskUpdate, TaskStatus, Task, completed, needs_action, no_fields}
use supernote_task_service.Sql.{Tables, TaskRow}
use supernote_task_service.Sql.Tasks.{all_hold, set_deleted}
use supernote_task_service.Repository.{Env}
use supernote_task_service.Repository.TaskReads as Reads
use supernote_task_service.Repository.TaskWrites as Writes
use supernote_task_service.Repository.TaskWrites.{active_task, update_sets}
use supernote_task_service.Repository.Writes.Conditional.{
  is_matched, stale_row, update_with-stale, update_task-no_match, delete_task-no_match,
}
use supernote_task_service.Http.Failures.{
  ok, raised, Failure, Handler, ◌>>=◌, pure, runs, list_not_found, invalid_request,
}
use supernote_task_service.Http.Tasks as Tasks
use supernote_task_service.Http.Writes.{
  refusal, lists_missing, guarded, resolved, resolve_write_lem,
}
use supernote_task_service.Api.{
  Call, task_patch, task_delete, task_complete, task_uncomplete, Reply, a_task, no_content, Moment,
  readings, perform, route, run, valid_call,
}
use supernote_task_service.Api.Evolution.{task_columns, Evolves}
use supernote_task_service.Api.Isolation.{perform-Step}
use supernote_task_service.Api.Reads.{
  IsRead, bind-IsRead, onward, bind_onward, answers, answers-IsRead, resolve_task-IsRead,
}

-- A write of the task that expects the version.
pub data Expects (id : Text) (v : ℕ) : Call → Type 0 where
  patches : (body : TaskUpdate) → Expects id v (task_patch id body (some v))
  deletes : Expects id v (task_delete id (some v))
  completes : Expects id v (task_complete id (some v))
  uncompletes : Expects id v (task_uncomplete id (some v))

module _ (env : Env) (max_age : ℤ) (id : Text) (v : ℕ) where
  -- No task of the user with the identifier has the version.
  abbrev IsStale : Tables → Type 0
  IsStale db = is_matched env id (some v) db ≡ false

  Evolves-IsStale :
      (now : ℕ) (new_id : Text) (rs ss : List TaskRow)
      → v ≢ now
      → Evolves task_columns env.user_id now new_id rs ss
      → any (all_hold env.server (active_task env id (some v))) rs ≡ false
      → any (all_hold env.server (active_task env id (some v))) ss ≡ false
  Evolves-IsStale now new_id [] [] ne e h = refl
  Evolves-IsStale now new_id [] (s ∷ []) ne e h = rw (stale_row env id v now s ne e.stamped) refl
  Evolves-IsStale now new_id [] (s ∷ t ∷ ss) ne e h = absurd e
  Evolves-IsStale now new_id (r ∷ rs) [] ne e h = absurd e
  Evolves-IsStale now new_id (r ∷ rs) (s ∷ ss) ne e h =
      let rest = Evolves-IsStale now new_id rs ss ne e.1 (ground arith) in
      elim e.0 [
        | inl q ↦ rw q (ground (arith, rest))
        | inr w ↦ rw (stale_row env id v now s ne w.stamped) rest
      ]

  -- A version that no task has is not met again, at moments other than it.
  run-IsStale :
      (calls : List (Call × Moment)) (db : Tables)
      → All (λ (c, m). v ≢ m.now) calls
      → IsStale db
      → IsStale (run env max_age calls db)
  unfolding run is_matched
  run-IsStale [] db n h = h
  run-IsStale ((c, m) ∷ calls) db n h =
      run-IsStale calls (perform env max_age c m db).1 n.1
        (Evolves-IsStale m.now m.new_id db.tasks _ n.0 (perform-Step env max_age c m db).tasks h)

  module _ (m : Moment) (db : Tables) where
    -- A refused handler.
    refused :
        {A : Type 0} (f : A → Reply) (h : Handler Tables A) (why : Failure)
        → h db ≡ (raised why, db)
        → (h >>= λ a. pure (f a)) db ≡ (raised why, db)
    refused f h why e = bind_onward h (λ a. pure (f a)) db ∙ rw e refl

    no_task :
        (id' : Text)
        → (w : Tables → Tables × Bool) → w db ≡ (db, false)
        → (runs w >>= answers env id' true) db
          ≡ (raised (refusal (Reads.task_exists env id' db)), db)
    no_task id' w e =
        bind_onward (runs w) (answers env id' true) db
        ∙ rw e (resolved env (Tasks.require_task env id') id' true false db db (λ _. refl))

    status_refused :
        (s : TaskStatus)
        → IsStale db
        → Tasks.set_status env id s (some v) (readings m) db
          ≡ (raised (refusal (Reads.task_exists env id db)), db)
    unfolding Writes.set_status
    status_refused s h =
        no_task id (Writes.set_status env id s (some v) m.completed_at m.now)
          (update_task-no_match env id _ (some v) m.completed_at m.now db h)

    patch_refused :
        (body : TaskUpdate)
        → IsStale db
        → (f : Failure) × (Tasks.update_task env id body (some v) (readings m) db ≡ (raised f, db))
    unfolding Tasks.update_task
    patch_refused body h =
        let w = Writes.update_task env id body (some v) m.completed_at m.now in
        let split = guarded env body.list_id (runs w >>= answers env id true) db in
        elim (Bool-cases (lists_missing env body.list_id db)) [
          | inl e ↦ (list_not_found, split ∙ rw e refl)
          | inr e ↦ (
            refusal (Reads.task_exists env id db),
            split
                ∙ rw e (
                    no_task id w
                      (update_task-no_match env id body (some v) m.completed_at m.now db h)),
          )
        ]

    delete_refused :
        IsStale db
        → Tasks.delete_task env id (some v) m.now db
          ≡ (raised (refusal (Reads.task_exists env id db)), db)
    unfolding Tasks.delete_task
    delete_refused h =
        let w = Writes.delete_task env id (some v) m.now in
        bind_onward (runs w) (λ done. Tasks.resolve_write env id done true) db
        ∙ rw (delete_task-no_match env id (some v) m.now db h)
            (resolve_write_lem env id true false db db (λ _. refl))

    route_refused :
        (c : Call)
        → Expects id v c
        → IsStale db
        → (f : Failure) × (route env max_age c m db ≡ (raised f, db))
    unfolding route Tasks.complete_task Tasks.uncomplete_task
    route_refused _ (patches body) h =
        let (f, e) = patch_refused body h in
        (f, refused a_task (Tasks.update_task env id body (some v) (readings m)) f e)
    route_refused _ deletes h = (
      _,
      refused (λ _. no_content) (Tasks.delete_task env id (some v) m.now) _ (delete_refused h),
    )
    route_refused _ completes h = (
      _,
      refused a_task (Tasks.set_status env id completed (some v) (readings m)) _
          (status_refused completed h),
    )
    route_refused _ uncompletes h = (
      _,
      refused a_task (Tasks.set_status env id needs_action (some v) (readings m)) _
          (status_refused needs_action h),
    )

    -- A write that expects a version that no task has is refused, and changes nothing.
    stale_refused :
        (c : Call)
        → Expects id v c
        → IsStale db
        → (f : Failure) × (perform env max_age c m db ≡ (raised f, db))
    unfolding perform
    stale_refused c x h = elim (Bool-cases (valid_call c)) [
      | inl e ↦ let (f, p) = route_refused c x h in (f, rw e p)
      | inr e ↦ (invalid_request, rw e refl)
    ]

    -- The tables behind a write and what only reads.
    behind_write :
        {A : Type 0} (f : A → Reply) (w : Tables → Tables × Bool) (k : Bool → Handler Tables A)
        → ((done : Bool) → IsRead (k done))
        → (((runs w >>= k) >>= λ a. pure (f a)) db).1 ≡ (w db).0
    behind_write f w k read =
        bind-IsRead (λ s. (k (w db).1 s)) (λ a. pure (f a)) (read (w db).1) (λ a s. refl) (w db).0

    -- A call that expects a version and sets a column: a body that only has nulls sets none.
    abbrev pub Sets : Call → Type 0
    Sets (task_patch id' body expected) = update_sets env body m.completed_at ≢ []
    Sets _ = Unit

    patch_stales :
        (body : TaskUpdate) (a : Reply)
        → update_sets env body m.completed_at ≢ []
        → v ≢ m.now
        → (route env max_age (task_patch id body (some v)) m db).0 ≡ ok a
        → IsStale (route env max_age (task_patch id body (some v)) m db).1
    unfolding route Tasks.update_task Writes.update_task
    patch_stales body a x ne e =
        let w = Writes.update_task env id body (some v) m.completed_at m.now in
        let k = runs w >>= answers env id true in
        let h = Tasks.update_task env id body (some v) (readings m) in
        let reply = λ (t : Task). pure {S = Tables} (a_task t) in
        let split = guarded env body.list_id k db in
        elim (Bool-cases (lists_missing env body.list_id db)) [
          | inl missing ↦
              let raises = refused a_task h list_not_found (split ∙ rw missing refl) in
              let never : raised list_not_found ≡ ok a = ap (λ o. o.0) (sym raises) ∙ e in cc
          | inr there ↦
              let same : h db ≡ k db = split ∙ rw there refl in
              let whole =
                bind_onward h reply db ∙ ap (onward reply) same ∙ sym (bind_onward k reply db) in
              subst IsStale
                (sym (
                  ap (λ o. o.1) whole
                  ∙ behind_write a_task w (answers env id true) (answers-IsRead env id true)))
                (update_with-stale env (update_sets env body m.completed_at) id v m.now db x ne)
        ]

    status_stales :
        (s : TaskStatus)
        → v ≢ m.now
        → IsStale ((Tasks.set_status env id s (some v) (readings m) >>= λ t. pure (a_task t)) db).1
    unfolding Writes.set_status Writes.update_task update_sets
    status_stales s ne =
        subst IsStale
          (sym (
            behind_write a_task (Writes.set_status env id s (some v) m.completed_at m.now)
              (answers env id true) (answers-IsRead env id true)))
          (update_with-stale env
            (update_sets env (record no_fields { status = some (some s) }) m.completed_at) id v
            m.now db
            (λ (e : update_sets env (record no_fields { status = some (some s) }) m.completed_at
                ≡ []).
              cc)
            ne)

    delete_stales :
        v ≢ m.now
        → IsStale ((Tasks.delete_task env id (some v) m.now >>= λ _. pure no_content) db).1
    unfolding Tasks.delete_task Writes.delete_task
    delete_stales ne =
        subst IsStale
          (sym (
            behind_write (λ _. no_content) (Writes.delete_task env id (some v) m.now)
              (λ done. Tasks.resolve_write env id done true)
              (λ done. resolve_task-IsRead env id done true)))
          (update_with-stale env (set_deleted ∷ []) id v m.now db (λ e. cc) ne)

    route_stales :
        (c : Call) (a : Reply)
        → Expects id v c
        → Sets c
        → v ≢ m.now
        → (route env max_age c m db).0 ≡ ok a
        → IsStale (route env max_age c m db).1
    unfolding route Tasks.complete_task Tasks.uncomplete_task
    route_stales _ a (patches body) x ne e = patch_stales body a x ne e
    route_stales _ a deletes x ne e = delete_stales ne
    route_stales _ a completes x ne e = status_stales completed ne
    route_stales _ a uncompletes x ne e = status_stales needs_action ne

    perform_stales :
        (c : Call) (a : Reply)
        → Expects id v c
        → Sets c
        → v ≢ m.now
        → (perform env max_age c m db).0 ≡ ok a
        → IsStale (perform env max_age c m db).1
    unfolding perform
    perform_stales c a x sets ne e = elim (Bool-cases (valid_call c)) [
      | inl valid ↦ rw valid (route_stales c a x sets ne (rw valid at e))
      | inr invalid ↦ let never : raised invalid_request ≡ ok a = rw invalid at e in cc
    ]

-- No update is lost: once a write that expects a version of a task, and sets a column, is answered
-- with success, every write that still expects this version is refused and changes nothing,
-- whatever is called in between, by whomever it is sent. The moments of the first write and of the
-- calls in between are other than the version.
pub no_lost_update :
    (env : Env) (max_age : ℤ) (id : Text) (v : ℕ) (first second : Call) (m m' : Moment)
    (between : List (Call × Moment)) (db : Tables) (a : Reply)
    → Expects id v first
    → Sets env max_age id v m db first
    → Expects id v second
    → v ≢ m.now
    → All (λ (c, n). v ≢ n.now) between
    → (perform env max_age first m db).0 ≡ ok a
    → let after = run env max_age between (perform env max_age first m db).1 in
      (f : Failure) × (perform env max_age second m' after ≡ (raised f, after))
no_lost_update env max_age id v first second m m' between db a x sets y ne others e =
    stale_refused env max_age id v m' _ second y (
      run-IsStale env max_age id v between _ others
        (perform_stales env max_age id v m db first a x sets ne e))
