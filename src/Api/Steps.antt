-- ===== src/Api/Steps.antt =====
-- Each call changes the tables as one write of the repository does, whatever it answers.
use mathlib.Core.Path.{subst}
use supernote_task_service.Common.{
  ℕ, ◌≡◌, refl, sym, true, Option, none, some, arith, Text, Bool-cases, inl, inr, is_some,
}
use supernote_task_service.Common.Int.{ℤ}
use supernote_task_service.Models.{
  TaskList, TaskCreate, TaskUpdate, TaskStatus, valid_create, valid_update,
}
use supernote_task_service.Sql.{Tables}
use supernote_task_service.Repository.{Env}
use supernote_task_service.Repository.TaskWrites as Writes
use supernote_task_service.Repository.Lists as Repo
use supernote_task_service.Http.Failures.{
  Result, ok, raised, Handler, ◌>>=◌, ◌>>◌, pure, gets, runs,
}
use supernote_task_service.Http.Tasks as Tasks
use supernote_task_service.Http.Tasks.{Readings}
use supernote_task_service.Http.Lists as Lists
use supernote_task_service.Api.{
  Call, tasks_get, tasks_post, task_get, task_patch, task_delete, task_complete, task_uncomplete,
  lists_get, lists_post, list_patch, list_delete, Reply, Moment, readings, perform, route,
  valid_call,
}
use supernote_task_service.Api.Reads.{
  IsRead, onward, bind_onward, bind-IsRead, require_task-IsRead, require_list-IsRead,
  resolve_task-IsRead, resolve_list-IsRead, check_new_list-IsRead, get_task-IsRead, answers,
  answers-IsRead, page-IsRead, lists-IsRead,
}

module _ (env : Env) where
  module _ (m : Moment) where
    -- A relation under which every write of the repository, for a body that is accepted, and doing
    -- nothing, take the tables from one state to the next.
    pub record IsWriteRelation (R : Tables → Tables → Type 0) : Type 0 where
      pub unchanged : (db : Tables) → R db db
      pub create_task :
          (body : TaskCreate) (db : Tables)
          → valid_create body ≡ true
          → R db (Writes.create_task env m.new_id m.now body db).0
      pub update_task :
          (id : Text) (body : TaskUpdate) (expected : Option ℕ) (db : Tables)
          → valid_update body ≡ true
          → R db (Writes.update_task env id body expected m.completed_at m.now db).0
      pub set_status :
          (id : Text) (s : TaskStatus) (expected : Option ℕ) (db : Tables)
          → R db (Writes.set_status env id s expected m.completed_at m.now db).0
      pub delete_task :
          (id : Text) (expected : Option ℕ) (db : Tables)
          → R db (Writes.delete_task env id expected m.now db).0
      pub create_list :
          (title : Text) (db : Tables) → R db (Repo.create_list env m.new_id m.now title db).0
      pub update_list :
          (id title : Text) (expected : Option ℕ) (db : Tables)
          → R db (Repo.update_list env id title expected m.now db).0
      pub delete_list :
          (id : Text) (expected : Option ℕ) (db : Tables)
          → R db (Repo.delete_list env id expected m.now db).0

  module _ (m : Moment) (R : Tables → Tables → Type 0) (w : IsWriteRelation m R) where
    -- A handler under which the tables change as one call may change them.
    abbrev pub IsStep : {A : Type 0} → Handler Tables A → Type 0
    IsStep h = (db : Tables) → R db (h db).1

    of_read : {A : Type 0} (h : Handler Tables A) → IsRead h → IsStep h
    of_read h read db = subst (R db) (sym (read db)) (w.unchanged db)

    bind-IsStep :
        {A B : Type 0} (h : Handler Tables A) (k : A → Handler Tables B)
        → IsStep h
        → ((a : A) → IsRead (k a))
        → IsStep (h >>= k)
    bind-IsStep {A} h k step read db = rw (bind_onward h k db) (go (h db) (step db))
      where
        go : (o : Result A × Tables) → R db o.1 → R db (onward k o).1
        go (ok a, s) t = subst (R db) (sym (read a s)) t
        go (raised f, s) t = t

    bind_read-IsStep :
        {A B : Type 0} (h : Handler Tables A) (k : A → Handler Tables B)
        → IsRead h
        → ((a : A) → IsStep (k a))
        → IsStep (h >>= k)
    bind_read-IsStep {A} h k read step db = rw (bind_onward h k db) (go (h db) (read db))
      where
        go : (o : Result A × Tables) → o.1 ≡ db → R db (onward k o).1
        go (ok a, s) e = rw e (step a db)
        go (raised f, s) e = rw e (w.unchanged db)

    replies-IsStep :
        {A : Type 0} (f : A → Reply) (h : Handler Tables A)
        → IsStep h
        → IsStep (h >>= λ a. pure (f a))
    replies-IsStep f h step = bind-IsStep h (λ a. pure (f a)) step (λ a s. refl)

    patch-IsStep :
        (id : Text) (body : TaskUpdate) (expected : Option ℕ)
        → valid_update body ≡ true
        → IsStep (Tasks.update_task env id body expected (readings m))
    unfolding Tasks.update_task
    patch-IsStep id body expected ok_body =
        bind_read-IsStep (Tasks.check_new_list env body.list_id)
          (λ _.
            runs (Writes.update_task env id body expected m.completed_at m.now)
            >>= answers env id (is_some expected))
          (check_new_list-IsRead env body.list_id)
          λ _.
            bind-IsStep (runs (Writes.update_task env id body expected m.completed_at m.now))
              (answers env id (is_some expected)) (λ db. w.update_task id body expected db ok_body)
              (answers-IsRead env id (is_some expected))

    status-IsStep :
        (id : Text) (s : TaskStatus) (expected : Option ℕ)
        → IsStep (Tasks.set_status env id s expected (readings m))
    unfolding Writes.set_status
    status-IsStep id s expected =
        bind-IsStep (runs (Writes.set_status env id s expected m.completed_at m.now))
          (answers env id (is_some expected)) (w.set_status id s expected)
          (answers-IsRead env id (is_some expected))

    post-IsStep :
        (body : TaskCreate)
        → valid_create body ≡ true
        → IsStep (Tasks.create_task env m.new_id m.now body)
    unfolding Tasks.create_task
    post-IsStep body ok_body =
        bind_read-IsStep (Tasks.ensure_list_exists env body.list_id)
          (λ _. runs (Writes.create_task env m.new_id m.now body) >>= Tasks.require_task env)
          (check_new_list-IsRead env (some body.list_id))
          λ _.
            bind-IsStep (runs (Writes.create_task env m.new_id m.now body)) (Tasks.require_task env)
              (λ db. w.create_task body db ok_body) (require_task-IsRead env)

    delete-IsStep :
        (id : Text) (expected : Option ℕ) → IsStep (Tasks.delete_task env id expected m.now)
    unfolding Tasks.delete_task
    delete-IsStep id expected =
        bind-IsStep (runs (Writes.delete_task env id expected m.now))
          (λ done. Tasks.resolve_write env id done (is_some expected)) (w.delete_task id expected)
          (λ done. resolve_task-IsRead env id done (is_some expected))

    patch_list-IsStep :
        (id title : Text) (expected : Option ℕ)
        → IsStep (Lists.update_list env id title expected m.now)
    unfolding Lists.update_list
    patch_list-IsStep id title expected =
        bind-IsStep (runs (Repo.update_list env id title expected m.now))
          (λ done. Lists.resolve_write env id done (is_some expected) >> Lists.require_list env id)
          (w.update_list id title expected)
          (λ done.
            bind-IsRead (Lists.resolve_write env id done (is_some expected))
              (λ _. Lists.require_list env id) (resolve_list-IsRead env id done (is_some expected))
              (λ _. require_list-IsRead env id))

    delete_list-IsStep :
        (id : Text) (expected : Option ℕ) → IsStep (Lists.delete_list env id expected m.now)
    unfolding Lists.delete_list
    delete_list-IsStep id expected =
        bind-IsStep (runs (Repo.delete_list env id expected m.now))
          (λ done. Lists.resolve_write env id done (is_some expected)) (w.delete_list id expected)
          (λ done. resolve_list-IsRead env id done (is_some expected))

    post_list-IsStep : (title : Text) → IsStep (Lists.create_list env m.new_id m.now title)
    unfolding Lists.create_list
    post_list-IsStep title =
        bind_read-IsStep (gets (Repo.get_list_by_title env title))
          (λ o. Lists.make_list env m.new_id m.now title o) (λ s. refl) make
      where
        make : (o : Option TaskList) → IsStep (Lists.make_list env m.new_id m.now title o)
        make (some l) = w.unchanged
        make none =
            bind-IsStep (runs (Repo.create_list env m.new_id m.now title))
              (λ id. Lists.require_list env id >>= λ created. pure (201, created))
              (w.create_list title)
              (λ id.
                bind-IsRead (Lists.require_list env id) (λ created. pure (201, created))
                  (require_list-IsRead env id) (λ _ s. refl))

    route-IsStep : (max_age : ℤ) (c : Call) → valid_call c ≡ true → IsStep (route env max_age c m)
    unfolding route Tasks.get_task Tasks.complete_task Tasks.uncomplete_task valid_call
    route-IsStep max_age (tasks_get q) v =
        replies-IsStep _ _
          (of_read (Tasks.list_tasks env q max_age m.fresh_at m.now) (page-IsRead env m q max_age))
    route-IsStep max_age (tasks_post body) v = replies-IsStep _ _ (post-IsStep body v)
    route-IsStep max_age (task_get id) v =
        replies-IsStep _ (Tasks.get_task env id)
          (of_read (Tasks.get_task env id) (get_task-IsRead env id))
    route-IsStep max_age (task_patch id body expected) v =
        replies-IsStep _ _ (patch-IsStep id body expected (ground arith))
    route-IsStep max_age (task_delete id expected) v =
        replies-IsStep _ _ (delete-IsStep id expected)
    route-IsStep max_age (task_complete id expected) v =
        replies-IsStep _ _ (status-IsStep id _ expected)
    route-IsStep max_age (task_uncomplete id expected) v =
        replies-IsStep _ _ (status-IsStep id _ expected)
    route-IsStep max_age (lists_get since limit title) v = replies-IsStep _ _ (
        of_read (Lists.list_lists env since limit title max_age m.fresh_at m.now)
          (lists-IsRead env m since limit title max_age))
    route-IsStep max_age (lists_post title) v = replies-IsStep _ _ (post_list-IsStep title)
    route-IsStep max_age (list_patch id title expected) v =
        replies-IsStep _ _ (patch_list-IsStep id title expected)
    route-IsStep max_age (list_delete id expected) v =
        replies-IsStep _ _ (delete_list-IsStep id expected)

    -- What every write does to the tables, each call does.
    pub perform_related :
        (max_age : ℤ) (c : Call) (db : Tables) → R db (perform env max_age c m db).1
    unfolding perform
    perform_related max_age c db = elim (Bool-cases (valid_call c)) [
      | inl v ↦ rw v (route-IsStep max_age c v db)
      | inr v ↦ rw v (w.unchanged db)
    ]
