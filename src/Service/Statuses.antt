-- ===== src/Service/Statuses.antt =====
-- The status of every success.
use supernote_task_service.Common.{
  ℕ, ◌≡◌, ◌⊎◌, ◌∙◌, sym, ap, refl, inl, inr, Text, Option-cases, Bool-cases, arith,
}
use supernote_task_service.Common.Int.{ℤ}
use supernote_task_service.Models.{TaskList}
use supernote_task_service.Repository.{Env}
use supernote_task_service.Repository.Lists as Repo
use supernote_task_service.Sql.{Tables}
use supernote_task_service.Http.Failures.{Result, ok, raised, Handler, ◌>>=◌, pure, invalid_request}
use supernote_task_service.Http.Tasks as Tasks
use supernote_task_service.Http.Lists as Lists
use supernote_task_service.Api.{
  Call, tasks_get, tasks_post, task_get, task_patch, task_delete, task_complete, task_uncomplete,
  lists_get, lists_post, list_patch, list_delete, Reply, a_task, a_page_of_tasks, a_list,
  a_made_list, a_page_of_lists, no_content, Moment, readings, perform, route, valid_call,
}
use supernote_task_service.Api.Reads.{onward, bind_onward}
use supernote_task_service.Service.{success_status}

-- The statuses of a success.
abbrev pub Succeeds : ℕ → Type 0
Succeeds n = (n ≡ 200) ⊎ ((n ≡ 201) ⊎ (n ≡ 204))

-- What is answered comes from what the handler gives.
replied :
    {A B : Type 0} (f : A → B) (h : Handler Tables A) (s : Tables) (r : B)
    → ((h >>= λ a. pure (f a)) s).0 ≡ ok r
    → (a : A) × ((h s).0 ≡ ok a) × (r ≡ f a)
replied {A} f h s r e = go (h s) (ap (λ o. o.0) (sym (bind_onward h (λ a. pure (f a)) s)) ∙ e)
  where
    go :
        (o : Result A × Tables)
        → (onward (λ a. pure (f a)) o).0 ≡ ok r
        → (a : A) × (o.0 ≡ ok a) × (r ≡ f a)
    go (ok a, t) p = (a, refl, ground arith)
    go (raised f', t) p = cc

module _ (env : Env) (max_age : ℤ) (m : Moment) where
  made :
      (title : Text) (s : Tables) (n : ℕ) (l : TaskList)
      → (Lists.create_list env m.new_id m.now title s).0 ≡ ok (n, l)
      → Succeeds n
  unfolding Lists.create_list
  made title s n l e = elim (Option-cases (Repo.get_list_by_title env title s)) [
    | inr (old, f) ↦ inl (ground arith)
    | inl f ↦
        let (after, id) = Repo.create_list env m.new_id m.now title s in
        let create : ((Lists.require_list env id >>= λ created. pure (201, created)) after).0
            ≡ ok (n, l) =
          rw f at e in
        let (created, _, p) =
          replied (λ (z : TaskList). (201, z)) (Lists.require_list env id) after (n, l) create in
        inr (inl (ap (λ (o : ℕ × TaskList). o.0) p))
  ]

  route-Succeeds :
      (c : Call) (s : Tables) (r : Reply)
      → (route env max_age c m s).0 ≡ ok r
      → Succeeds (success_status c r)
  unfolding route success_status
  route-Succeeds (tasks_get q) s r e =
      let (a, _, p) =
        replied a_page_of_tasks (Tasks.list_tasks env q max_age m.fresh_at m.now) s r e in
      rw p (inl refl)
  route-Succeeds (tasks_post body) s r e =
      let (a, _, p) = replied a_task (Tasks.create_task env m.new_id m.now body) s r e in
      rw p (inr (inl refl))
  route-Succeeds (task_get id) s r e =
      let (a, _, p) = replied a_task (Tasks.get_task env id) s r e in rw p (inl refl)
  route-Succeeds (task_patch id body expected) s r e =
      let (a, _, p) = replied a_task (Tasks.update_task env id body expected (readings m)) s r e in
      rw p (inl refl)
  route-Succeeds (task_delete id expected) s r e =
      let (a, _, p) = replied (λ _. no_content) (Tasks.delete_task env id expected m.now) s r e in
      rw p (inr (inr refl))
  route-Succeeds (task_complete id expected) s r e =
      let (a, _, p) = replied a_task (Tasks.complete_task env id expected (readings m)) s r e in
      rw p (inl refl)
  route-Succeeds (task_uncomplete id expected) s r e =
      let (a, _, p) = replied a_task (Tasks.uncomplete_task env id expected (readings m)) s r e in
      rw p (inl refl)
  route-Succeeds (lists_get since limit title) s r e =
      let (a, _, p) =
        replied a_page_of_lists (Lists.list_lists env since limit title max_age m.fresh_at m.now) s
          r e in
      rw p (inl refl)
  route-Succeeds (lists_post title) s r e =
      let ((n, l), f, p) = replied a_made_list (Lists.create_list env m.new_id m.now title) s r e in
      rw p (made title s n l f)
  route-Succeeds (list_patch id title expected) s r e =
      let (a, _, p) = replied a_list (Lists.update_list env id title expected m.now) s r e in
      rw p (inl refl)
  route-Succeeds (list_delete id expected) s r e =
      let (a, _, p) = replied (λ _. no_content) (Lists.delete_list env id expected m.now) s r e in
      rw p (inr (inr refl))

  pub perform-Succeeds :
      (c : Call) (s : Tables) (r : Reply)
      → (perform env max_age c m s).0 ≡ ok r
      → Succeeds (success_status c r)
  unfolding perform
  perform-Succeeds c s r e = elim (Bool-cases (valid_call c)) [
    | inl v ↦ route-Succeeds c s r (rw v at e)
    | inr v ↦ let refused : raised invalid_request ≡ ok r = rw v at e in cc
  ]
