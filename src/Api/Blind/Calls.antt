-- ===== src/Api/Blind/Calls.antt =====
-- Calls of the API on tables that agree.
use supernote_task_service.Common.{◌≡◌, refl, List, [], ◌∷◌, Bool-cases, inl, inr}
use supernote_task_service.Common.Int.{ℤ}
use supernote_task_service.Models.{completed, needs_action}
use supernote_task_service.Sql.{Tables}
use supernote_task_service.Repository.{Env}
use supernote_task_service.Http.Failures.{Result, Handler, ◌>>=◌, pure}
use supernote_task_service.Http.Tasks as Tasks
use supernote_task_service.Http.Lists as Lists
use supernote_task_service.Api.{
  Call, tasks_get, tasks_post, task_get, task_patch, task_delete, task_complete, task_uncomplete,
  lists_get, lists_post, list_patch, list_delete, Reply, Moment, perform, route, valid_call,
}
use supernote_task_service.Api.Blind.{Agree, IsBlind}
use supernote_task_service.Api.Blind.Handlers.{
  bind-IsBlind, pure-IsBlind, require_task-IsBlind, create_task-IsBlind, update_task-IsBlind,
  set_status-IsBlind, delete_task-IsBlind, list_tasks-IsBlind,
}
use supernote_task_service.Api.Blind.Lists.{
  create_list-IsBlind, update_list-IsBlind, delete_list-IsBlind, list_lists-IsBlind,
}

module _ (env : Env) (max_age : ℤ) where
  replies-IsBlind :
      {A : Type 0} (f : A → Reply) (h : Handler Tables A)
      → IsBlind env h
      → IsBlind env (h >>= λ a. pure (f a))
  replies-IsBlind f h blind =
      bind-IsBlind env h (λ a. pure (f a)) blind (λ a. pure-IsBlind env (f a))

  route-IsBlind : (c : Call) (m : Moment) → IsBlind env (route env max_age c m)
  unfolding route Tasks.get_task Tasks.complete_task Tasks.uncomplete_task
  route-IsBlind (tasks_get q) m =
      replies-IsBlind _ (Tasks.list_tasks env q max_age m.fresh_at m.now)
        (list_tasks-IsBlind env m q max_age)
  route-IsBlind (tasks_post body) m = replies-IsBlind _ _ (create_task-IsBlind env m body)
  route-IsBlind (task_get id) m =
      replies-IsBlind _ (Tasks.get_task env id)
        (unfold Tasks.require_task in require_task-IsBlind env id)
  route-IsBlind (task_patch id body expected) m =
      replies-IsBlind _ _ (update_task-IsBlind env m id body expected)
  route-IsBlind (task_delete id expected) m =
      replies-IsBlind _ _ (delete_task-IsBlind env m id expected)
  route-IsBlind (task_complete id expected) m =
      replies-IsBlind _ _ (set_status-IsBlind env m id completed expected)
  route-IsBlind (task_uncomplete id expected) m =
      replies-IsBlind _ _ (set_status-IsBlind env m id needs_action expected)
  route-IsBlind (lists_get since limit title) m =
      replies-IsBlind _ (Lists.list_lists env since limit title max_age m.fresh_at m.now)
        (list_lists-IsBlind env m since limit title max_age)
  route-IsBlind (lists_post title) m = replies-IsBlind _ _ (create_list-IsBlind env m title)
  route-IsBlind (list_patch id title expected) m =
      replies-IsBlind _ _ (update_list-IsBlind env m id title expected)
  route-IsBlind (list_delete id expected) m =
      replies-IsBlind _ _ (delete_list-IsBlind env m id expected)

  perform-IsBlind : (c : Call) (m : Moment) → IsBlind env (perform env max_age c m)
  unfolding perform
  perform-IsBlind c m db db' g = elim (Bool-cases (valid_call c)) [
    | inl v ↦ rw v (route-IsBlind c m db db' g)
    | inr v ↦ rw v (refl, g)
  ]

  -- What is answered to a series of calls.
  unfoldable pub answered : List (Call × Moment) → Tables → List (Result Reply)
  unfolding perform
  answered [] db = []
  answered ((c, m) ∷ calls) db =
      let (answer, after) = perform env max_age c m db in answer ∷ answered calls after

  -- Nothing of another user's tasks comes out: on tables that have the same tasks of the user, in the
  -- same order, and the same lists, every series of calls gets the same answers.
  pub answered-Agree :
      (calls : List (Call × Moment)) (db db' : Tables)
      → Agree env db db'
      → answered calls db ≡ answered calls db'
  unfolding answered
  answered-Agree [] db db' g = refl
  answered-Agree ((c, m) ∷ calls) db db' g =
      let (same, after) = perform-IsBlind c m db db' g in
      let rest =
        answered-Agree calls (perform env max_age c m db).1 (perform env max_age c m db').1 after in
      rw (same, rest) refl
