-- ===== src/Api/Blind/Handlers.antt =====
-- The handlers on tables that agree, and the calls of the API.
use supernote_task_service.Common.{
  ℕ, ◌≡◌, refl, ◌∙◌, ap, Bool, true, false, not, Option, none, some, List, arith, Text,
  if◌then◌else◌, Option-cases, Bool-cases, inl, inr, ◌&&◌, is_some,
}
use supernote_task_service.Common.Int.{ℤ}
use supernote_task_service.Models.{Task, Page, TaskCreate, TaskUpdate, TaskStatus}
use supernote_task_service.Sql.{Tables, TaskRow}
use supernote_task_service.Sql.Groups as Groups
use supernote_task_service.Repository.{Env}
use supernote_task_service.Repository.TaskReads as Reads
use supernote_task_service.Repository.TaskReads.{TaskQuery}
use supernote_task_service.Repository.TaskWrites as Writes
use supernote_task_service.Repository.Lists as Repo
use supernote_task_service.Http.Deps.{cursor_expired}
use supernote_task_service.Http.Failures.{
  Result, ok, raised, Failure, Handler, ◌>>=◌, pure, raise, reads, gets, runs, raise_if, or_raise,
  task_not_found, task_conflict, list_not_found,
}
use supernote_task_service.Http.Tasks as Tasks
use supernote_task_service.Http.Tasks.{Readings}
use supernote_task_service.Api.{Moment, readings}
use supernote_task_service.Api.Reads.{onward, bind_onward, answers}
use supernote_task_service.Api.Blind.{Agree, IsBlind}
use supernote_task_service.Api.Blind.Methods.{
  list_tasks-Agree, get_task-Agree, task_exists-Agree, create_task-Agree, update_task-Agree,
  delete_task-Agree,
}

module _ (env : Env) where
  pub bind-IsBlind :
      {A B : Type 0} (h : Handler Tables A) (k : A → Handler Tables B)
      → IsBlind env h
      → ((a : A) → IsBlind env (k a))
      → IsBlind env (h >>= k)
  bind-IsBlind {A} h k blind blind_on db db' agree =
      rw (bind_onward h k db, bind_onward h k db') (go (h db) (h db') (blind db db' agree))
    where
      go :
          (o o' : Result A × Tables)
          → (o.0 ≡ o'.0) × Agree env o.1 o'.1
          → ((onward k o).0 ≡ (onward k o').0) × Agree env (onward k o).1 (onward k o').1
      go (ok a, s) (ok b, t) (e, g) = let same : a ≡ b = ground arith in rw same (blind_on b s t g)
      go (ok a, s) (raised f, t) (e, g) = cc
      go (raised f, s) (ok b, t) (e, g) = cc
      go (raised f, s) (raised f', t) (e, g) = (cc, g)

  -- A read that gives the same on tables that agree.
  pub read-IsBlind :
      {A : Type 0} (f : Tables → Option A)
      → ((db db' : Tables) → Agree env db db' → f db ≡ f db')
      → IsBlind env (reads f)
  read-IsBlind f same db db' g = elim (Option-cases (f db')) [
    | inl e ↦ rw (reads, same db db' g, e) (refl, g)
    | inr (a, e) ↦ rw (reads, same db db' g, e) (refl, g)
  ]

  pub gets-IsBlind :
      {A : Type 0} (f : Tables → A)
      → ((db db' : Tables) → Agree env db db' → f db ≡ f db')
      → IsBlind env (gets f)
  gets-IsBlind f same db db' g = (ap ok (same db db' g), g)

  pub runs-IsBlind :
      {A : Type 0} (f : Tables → Tables × A)
      → ((db db' : Tables)
          → Agree env db db'
          → ((f db).1 ≡ (f db').1) × Agree env (f db).0 (f db').0)
      → IsBlind env (runs f)
  runs-IsBlind f same db db' g = let (e, after) = same db db' g in (ap ok e, after)

  pub pure-IsBlind : {A : Type 0} (a : A) → IsBlind env (pure a)
  pure-IsBlind a db db' g = (refl, g)

  pub raise-IsBlind : {A : Type 0} (f : Failure) → IsBlind env (raise {A = A} f)
  raise-IsBlind f db db' g = (refl, g)

  pub or_raise-IsBlind : {A : Type 0} (o : Option A) (f : Failure) → IsBlind env (or_raise o f)
  or_raise-IsBlind none f db db' g = (refl, g)
  or_raise-IsBlind (some a) f db db' g = (refl, g)

  raise_if-IsBlind : (b : Bool) (f : Failure) → IsBlind env (raise_if b f)
  raise_if-IsBlind b f db db' g = (refl, g)

  -- What does not look at the tasks is the same on tables that agree.
  pub of_groups :
      {A : Type 0} (f : Tables → A)
      → ((rows : List TaskRow) (db : Tables) → f (record db { tasks = rows }) ≡ f db)
      → (db db' : Tables) → Agree env db db'
      → f db ≡ f db'
  of_groups f h db db' (_, groups) =
      ap (λ gs. f (record db { groups = gs })) groups ∙ h db.tasks db'

  pub list_exists-Agree :
      (l : Text) (db db' : Tables)
      → Agree env db db'
      → Repo.list_exists env l db ≡ Repo.list_exists env l db'
  unfolding Repo.list_exists Groups.any_group
  list_exists-Agree l = of_groups (Repo.list_exists env l) (λ rows db. refl)

  pub require_task-IsBlind : (id : Text) → IsBlind env (Tasks.require_task env id)
  unfolding Tasks.require_task
  require_task-IsBlind id =
      bind-IsBlind (reads (Reads.get_task env id)) (λ o. or_raise o task_not_found)
        (read-IsBlind (Reads.get_task env id) (λ db db' g. get_task-Agree env db db' g id))
        (λ o. or_raise-IsBlind o task_not_found)

  ensure_list_exists-IsBlind : (l : Option Text) → IsBlind env (Tasks.ensure_list_exists env l)
  unfolding Tasks.ensure_list_exists
  ensure_list_exists-IsBlind l =
      bind-IsBlind (gets (Tasks.missing_list env l)) (λ b. raise_if b list_not_found)
        (gets-IsBlind (Tasks.missing_list env l) (missing l))
        (λ b. raise_if-IsBlind b list_not_found)
    where
      missing :
          (o : Option Text) (db db' : Tables)
          → Agree env db db'
          → Tasks.missing_list env o db ≡ Tasks.missing_list env o db'
      missing none db db' g = refl
      missing (some i) db db' g = ap not (list_exists-Agree i db db' g)

  resolve_task-IsBlind :
      (id : Text) (done conditional : Bool)
      → IsBlind env (Tasks.resolve_write env id done conditional)
  unfolding Tasks.resolve_write
  resolve_task-IsBlind id true conditional = pure-IsBlind tt
  resolve_task-IsBlind id false conditional =
      bind-IsBlind (gets (Reads.task_exists env id))
        (λ there. if conditional && there then raise task_conflict else raise task_not_found)
        (gets-IsBlind (Reads.task_exists env id) (λ db db' g. task_exists-Agree env db db' g id))
        (λ there. choose (conditional && there))
    where
      choose :
          (b : Bool)
          → IsBlind env {A = Unit {0}} (if b then raise task_conflict else raise task_not_found)
      choose true = raise-IsBlind task_conflict
      choose false = raise-IsBlind task_not_found

  answers-IsBlind :
      (id : Text) (conditional done : Bool) → IsBlind env (answers env id conditional done)
  answers-IsBlind id conditional done =
      bind-IsBlind (Tasks.resolve_write env id done conditional) (λ _. Tasks.require_task env id)
        (resolve_task-IsBlind id done conditional) (λ _. require_task-IsBlind id)

  module _ (m : Moment) where
    pub create_task-IsBlind :
        (body : TaskCreate) → IsBlind env (Tasks.create_task env m.new_id m.now body)
    unfolding Tasks.create_task
    create_task-IsBlind body =
        bind-IsBlind (Tasks.ensure_list_exists env body.list_id)
          (λ _. runs (Writes.create_task env m.new_id m.now body) >>= Tasks.require_task env)
          (ensure_list_exists-IsBlind body.list_id)
          (λ _.
            bind-IsBlind (runs (Writes.create_task env m.new_id m.now body))
              (Tasks.require_task env)
              (runs-IsBlind (Writes.create_task env m.new_id m.now body) (λ db db' g. (
                unfold Writes.create_task in refl,
                create_task-Agree env db db' g m.new_id m.now body,
              )))
              require_task-IsBlind)

    check_new_list-IsBlind : (l : Option (Option Text)) → IsBlind env (Tasks.check_new_list env l)
    check_new_list-IsBlind none = pure-IsBlind tt
    check_new_list-IsBlind (some l) = ensure_list_exists-IsBlind l

    pub update_task-IsBlind :
        (id : Text) (body : TaskUpdate) (expected : Option ℕ)
        → IsBlind env (Tasks.update_task env id body expected (readings m))
    unfolding Tasks.update_task
    update_task-IsBlind id body expected =
        bind-IsBlind (Tasks.check_new_list env body.list_id)
          (λ _.
            runs (Writes.update_task env id body expected m.completed_at m.now)
            >>= answers env id (is_some expected))
          (check_new_list-IsBlind body.list_id)
          (λ _.
            bind-IsBlind (runs (Writes.update_task env id body expected m.completed_at m.now))
              (answers env id (is_some expected))
              (runs-IsBlind (Writes.update_task env id body expected m.completed_at m.now)
                (λ db db' g. update_task-Agree env db db' g id body expected m.completed_at m.now))
              (answers-IsBlind id (is_some expected)))

    pub set_status-IsBlind :
        (id : Text) (s : TaskStatus) (expected : Option ℕ)
        → IsBlind env (Tasks.set_status env id s expected (readings m))
    unfolding Writes.set_status
    set_status-IsBlind id s expected =
        bind-IsBlind (runs (Writes.set_status env id s expected m.completed_at m.now))
          (answers env id (is_some expected))
          (runs-IsBlind (Writes.set_status env id s expected m.completed_at m.now)
            (λ db db' g. update_task-Agree env db db' g id _ expected m.completed_at m.now))
          (answers-IsBlind id (is_some expected))

    pub delete_task-IsBlind :
        (id : Text) (expected : Option ℕ) → IsBlind env (Tasks.delete_task env id expected m.now)
    unfolding Tasks.delete_task
    delete_task-IsBlind id expected =
        bind-IsBlind (runs (Writes.delete_task env id expected m.now))
          (λ done. Tasks.resolve_write env id done (is_some expected))
          (runs-IsBlind (Writes.delete_task env id expected m.now)
            (λ db db' g. delete_task-Agree env db db' g id expected m.now))
          (λ done. resolve_task-IsBlind id done (is_some expected))

    pub list_tasks-IsBlind :
        (q : TaskQuery) (max_age : ℤ)
        → IsBlind env (Tasks.list_tasks env q max_age m.fresh_at m.now)
    unfolding Tasks.list_tasks
    list_tasks-IsBlind q max_age db db' g =
        let found : Tables → Option (List Task × ℕ × Bool) =
          λ t. Reads.list_tasks env q m.now t t in
        elim (Bool-cases (cursor_expired q.since max_age m.fresh_at)) [
          | inl e ↦ rw e (refl, g)
          | inr e ↦ rw e (
              bind-IsBlind (reads found)
                (λ (tasks, cursor, has_more).
                  pure {A = Page Task}
                    (record { items = tasks; cursor = cursor; has_more = has_more }))
                (read-IsBlind found (λ d d' h. list_tasks-Agree env d d' h q m.now))
                (λ (tasks, cursor, has_more).
                  pure-IsBlind {A = Page Task}
                    (record { items = tasks; cursor = cursor; has_more = has_more }))
                db db' g)
        ]
