-- ===== src/Api/Blind/Lists.antt =====
-- The handlers of the lists on tables that agree, which do not look at the tasks.
use supernote_task_service.Common.{
  ℕ, ◌≡◌, refl, ap, Bool, true, false, Option, none, some, List, [], ◌∷◌, Text, if◌then◌else◌, map,
  last?, Bool-cases, inl, inr, ◌&&◌, is_some,
}
use supernote_task_service.Common.Int.{ℤ}
use supernote_task_service.Models.{TaskList, Page}
use supernote_task_service.Sql.{Tables, TaskRow}
use supernote_task_service.Sql.Groups as Groups
use supernote_task_service.Repository.{Env}
use supernote_task_service.Repository.Lists as Repo
use supernote_task_service.Repository.Mapping.{row_to_list}
use supernote_task_service.Http.Deps.{cursor_expired}
use supernote_task_service.Http.Failures.{
  ◌>>=◌, ◌>>◌, pure, raise, gets, runs, or_raise, list_not_found, list_conflict,
}
use supernote_task_service.Http.Lists as Lists
use supernote_task_service.Api.{Moment}
use supernote_task_service.Api.Blind.{IsBlind}
use supernote_task_service.Api.Blind.Handlers.{
  bind-IsBlind, gets-IsBlind, runs-IsBlind, pure-IsBlind, raise-IsBlind, or_raise-IsBlind,
  of_groups, list_exists-Agree,
}

module _ (env : Env) where
  require_list-IsBlind : (id : Text) → IsBlind env (Lists.require_list env id)
  unfolding Repo.get_list Groups.select_groups
  require_list-IsBlind id =
      bind-IsBlind env (gets (Repo.get_list env id)) (λ o. or_raise o list_not_found)
        (gets-IsBlind env (Repo.get_list env id)
          (of_groups env (Repo.get_list env id) (λ rows db. refl)))
        (λ o. or_raise-IsBlind env o list_not_found)

  by_title : (title : Text) → IsBlind env (gets (Repo.get_list_by_title env title))
  unfolding Repo.get_list_by_title Groups.select_groups
  by_title title =
      gets-IsBlind env (Repo.get_list_by_title env title)
        (of_groups env (Repo.get_list_by_title env title) (λ rows db. refl))

  resolve_list-IsBlind :
      (id : Text) (done conditional : Bool)
      → IsBlind env (Lists.resolve_write env id done conditional)
  unfolding Lists.resolve_write
  resolve_list-IsBlind id true conditional = pure-IsBlind env tt
  resolve_list-IsBlind id false conditional =
      bind-IsBlind env (gets (Repo.list_exists env id))
        (λ there. if conditional && there then raise list_conflict else raise list_not_found)
        (gets-IsBlind env (Repo.list_exists env id) (list_exists-Agree env id))
        (λ there. choose (conditional && there))
    where
      choose :
          (b : Bool)
          → IsBlind env {A = Unit {0}} (if b then raise list_conflict else raise list_not_found)
      choose true = raise-IsBlind env list_conflict
      choose false = raise-IsBlind env list_not_found

  -- A write of lists.
  write-IsBlind :
      {A : Type 0} (f : Tables → Tables × A)
      → ((rows : List TaskRow) (db : Tables)
          → f (record db { tasks = rows }) ≡ (record (f db).0 { tasks = rows }, (f db).1))
      → ((db : Tables) → (f db).0.tasks ≡ db.tasks)
      → IsBlind env (runs f)
  write-IsBlind f h keeps = runs-IsBlind env f λ db db' g. (
    of_groups env (λ d. (f d).1) (λ rows d. ap (λ o. o.1) (h rows d)) db db' g,
    (
      rw (keeps db, keeps db') g.0,
      of_groups env (λ d. (f d).0.groups) (λ rows d. ap (λ o. o.0.groups) (h rows d)) db db' g,
    ),
  )

  drain-groups :
      (b : ℕ) (after : Option Text) (rows : List TaskRow) (db : Tables)
      → Repo.drain_lists_at env b after (record db { tasks = rows })
        ≡ Repo.drain_lists_at env b after db
  unfolding Repo.drain_lists_at Groups.select_groups
  drain-groups b none rows db = refl
  drain-groups b (some i) rows db = refl

  drained-groups :
      (lists : List TaskList) (o : Option TaskList) (rows : List TaskRow) (db : Tables)
      → Repo.drained_lists env lists o (record db { tasks = rows })
        ≡ Repo.drained_lists env lists o db
  unfolding Repo.drained_lists
  drained-groups lists none rows db = refl
  drained-groups lists (some l) rows db = rw (drain-groups l.last_modified l.id rows db) refl

  rows-groups :
      (since : Option ℕ) (limit : Option ℤ) (now : ℕ) (rows : List TaskRow) (db : Tables)
      → Repo.list_rows env since limit now (record db { tasks = rows })
        ≡ Repo.list_rows env since limit now db
  unfolding Repo.list_rows Groups.select_groups
  rows-groups none limit now rows db = refl
  rows-groups (some n) limit now rows db = refl

  list_lists-groups :
      (since : Option ℕ) (limit : Option ℤ) (now : ℕ) (rows : List TaskRow) (db : Tables)
      → Repo.list_lists env since limit now
          (record db { tasks = rows })
          (record db { tasks = rows })
        ≡ Repo.list_lists env since limit now db db
  unfolding Repo.list_lists
  list_lists-groups since limit now rows db = rw (rows-groups since limit now rows db) (
      let lists = map row_to_list (Repo.list_rows env since limit now db) in
      let drained = drained-groups lists (last? lists) rows db in rw drained refl)

  module _ (m : Moment) where
    pub create_list-IsBlind :
        (title : Text) → IsBlind env (Lists.create_list env m.new_id m.now title)
    unfolding Lists.create_list
    create_list-IsBlind title =
        bind-IsBlind env (gets (Repo.get_list_by_title env title))
          (Lists.make_list env m.new_id m.now title) (by_title title) make
      where
        make : (o : Option TaskList) → IsBlind env (Lists.make_list env m.new_id m.now title o)
        make (some l) = pure-IsBlind env (200, l)
        make none =
            bind-IsBlind env (runs (Repo.create_list env m.new_id m.now title))
              (λ id. Lists.require_list env id >>= λ created. pure (201, created))
              (write-IsBlind (Repo.create_list env m.new_id m.now title)
                (λ rows db. unfold Repo.create_list in refl)
                (λ db. unfold Repo.create_list in refl))
              (λ id.
                bind-IsBlind env (Lists.require_list env id) (λ created. pure (201, created))
                  (require_list-IsBlind id) (λ created. pure-IsBlind env (201, created)))

    pub update_list-IsBlind :
        (id title : Text) (expected : Option ℕ)
        → IsBlind env (Lists.update_list env id title expected m.now)
    unfolding Lists.update_list
    update_list-IsBlind id title expected =
        bind-IsBlind env (runs (Repo.update_list env id title expected m.now))
          (λ done. Lists.resolve_write env id done (is_some expected) >> Lists.require_list env id)
          (write-IsBlind (Repo.update_list env id title expected m.now)
            (λ rows db. unfold Repo.update_list Repo.run_update in refl)
            (λ db. unfold Repo.update_list Repo.run_update in refl))
          (λ done.
            bind-IsBlind env (Lists.resolve_write env id done (is_some expected))
              (λ _. Lists.require_list env id) (resolve_list-IsBlind id done (is_some expected))
              (λ _. require_list-IsBlind id))

    pub delete_list-IsBlind :
        (id : Text) (expected : Option ℕ) → IsBlind env (Lists.delete_list env id expected m.now)
    unfolding Lists.delete_list
    delete_list-IsBlind id expected =
        bind-IsBlind env (runs (Repo.delete_list env id expected m.now))
          (λ done. Lists.resolve_write env id done (is_some expected))
          (write-IsBlind (Repo.delete_list env id expected m.now)
            (λ rows db. unfold Repo.delete_list Repo.run_update in refl)
            (λ db. unfold Repo.delete_list Repo.run_update in refl))
          (λ done. resolve_list-IsBlind id done (is_some expected))

    pub list_lists-IsBlind :
        (since : Option ℕ) (limit : Option ℤ) (title : Option Text) (max_age : ℤ)
        → IsBlind env (Lists.list_lists env since limit title max_age m.fresh_at m.now)
    unfolding Lists.list_lists
    list_lists-IsBlind since limit (some t) max_age db db' g =
        bind-IsBlind env (gets (Repo.get_list_by_title env t))
          (λ o. or_raise o list_not_found >>= λ (l : TaskList).
            pure {A = Page TaskList}
              (record { items = l ∷ []; cursor = l.last_modified; has_more = false }))
          (by_title t)
          (λ o.
            bind-IsBlind env (or_raise o list_not_found)
              (λ (l : TaskList).
                pure {A = Page TaskList}
                  (record { items = l ∷ []; cursor = l.last_modified; has_more = false }))
              (or_raise-IsBlind env o list_not_found)
              (λ (l : TaskList).
                pure-IsBlind env {A = Page TaskList}
                  (record { items = l ∷ []; cursor = l.last_modified; has_more = false })))
          db db' g
    list_lists-IsBlind since limit none max_age db db' g =
        let found : Tables → List TaskList × ℕ × Bool =
          λ t. Repo.list_lists env since limit m.now t t in
        let same =
          of_groups env found (λ rows t. list_lists-groups since limit m.now rows t) db db' g in
        elim (Bool-cases (cursor_expired since max_age m.fresh_at)) [
          | inl e ↦ rw e (refl, g)
          | inr e ↦ rw (e, same) (refl, g)
        ]
