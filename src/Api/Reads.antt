-- ===== src/Api/Reads.antt =====
-- The parts of the handlers that leave the tables alone.
use supernote_task_service.Common.{
  ℕ, ◌≡◌, refl, ◌∙◌, Bool, true, false, Option, none, some, List, arith, Text, Bool-cases,
  Option-cases, inl, inr,
}
use supernote_task_service.Common.Int.{ℤ}
use supernote_task_service.Models.{Page, Task}
use supernote_task_service.Sql.{Tables}
use supernote_task_service.Repository.{Env}
use supernote_task_service.Repository.TaskReads as Reads
use supernote_task_service.Repository.TaskReads.{TaskQuery}
use supernote_task_service.Http.Deps.{cursor_expired}
use supernote_task_service.Repository.Lists as Repo
use supernote_task_service.Http.Failures.{
  Result, ok, raised, Failure, Handler, ◌>>=◌, ◌>>◌, pure, reads, or_raise, task_not_found,
}
use supernote_task_service.Http.Tasks as Tasks
use supernote_task_service.Http.Tasks.{Readings}
use supernote_task_service.Http.Lists as Lists
use supernote_task_service.Api.{Moment}

-- A handler that leaves the tables alone.
abbrev pub IsRead : {A : Type 0} → Handler Tables A → Type 0
IsRead h = (s : Tables) → (h s).1 ≡ s

abbrev pub onward : {A B : Type 0} → (A → Handler Tables B) → Result A × Tables → Result B × Tables
onward k (ok a, s) = k a s
onward k (raised e, s) = (raised e, s)

pub bind_onward :
    {A B : Type 0} (h : Handler Tables A) (k : A → Handler Tables B) (s : Tables)
    → (h >>= k) s ≡ onward k (h s)
bind_onward h k s = ground arith

pub bind-IsRead :
    {A B : Type 0} (h : Handler Tables A) (k : A → Handler Tables B)
    → IsRead h
    → ((a : A) → IsRead (k a))
    → IsRead (h >>= k)
bind-IsRead {A} h k read reads_on s = rw (bind_onward h k s) (go (h s) (read s))
  where
    go : (o : Result A × Tables) → o.1 ≡ s → (onward k o).1 ≡ s
    go (ok a, s') e = reads_on a s' ∙ e
    go (raised f, s') e = e

or_raise-IsRead : {A : Type 0} (o : Option A) (f : Failure) → IsRead (or_raise o f)
or_raise-IsRead none f s = refl
or_raise-IsRead (some a) f s = refl

reads-IsRead : {A : Type 0} (f : Tables → Option A) → IsRead (reads f)
reads-IsRead f s = elim (Option-cases (f s)) [
  | inl e ↦ rw (reads, e) refl
  | inr (a, e) ↦ rw (reads, e) refl
]

module _ (env : Env) where
  pub get_task-IsRead :
      (id : Text) → IsRead (reads (Reads.get_task env id) >>= λ o. or_raise o task_not_found)
  get_task-IsRead id =
      bind-IsRead (reads (Reads.get_task env id)) (λ o. or_raise o task_not_found)
        (reads-IsRead (Reads.get_task env id)) (λ o. or_raise-IsRead o task_not_found)

  pub require_task-IsRead : (id : Text) → IsRead (Tasks.require_task env id)
  unfolding Tasks.require_task
  require_task-IsRead id = get_task-IsRead id

  pub require_list-IsRead : (id : Text) → IsRead (Lists.require_list env id)
  require_list-IsRead id s = or_raise-IsRead (Repo.get_list env id s) _ s

  pub resolve_task-IsRead :
      (id : Text) (done conditional : Bool) → IsRead (Tasks.resolve_write env id done conditional)
  unfolding Tasks.resolve_write
  resolve_task-IsRead id true conditional s = refl
  resolve_task-IsRead id false conditional s = ground arith

  pub resolve_list-IsRead :
      (id : Text) (done conditional : Bool) → IsRead (Lists.resolve_write env id done conditional)
  unfolding Lists.resolve_write
  resolve_list-IsRead id true conditional s = refl
  resolve_list-IsRead id false conditional s = ground arith

  pub check_new_list-IsRead : (l : Option (Option Text)) → IsRead (Tasks.check_new_list env l)
  unfolding Tasks.ensure_list_exists
  check_new_list-IsRead none s = refl
  check_new_list-IsRead (some l) s = refl

  abbrev pub answers : Text → Bool → Bool → Handler Tables Task
  answers id conditional done =
      Tasks.resolve_write env id done conditional >> Tasks.require_task env id

  pub answers-IsRead : (id : Text) (conditional done : Bool) → IsRead (answers id conditional done)
  answers-IsRead id conditional done =
      bind-IsRead (Tasks.resolve_write env id done conditional) (λ _. Tasks.require_task env id)
        (resolve_task-IsRead id done conditional) (λ _. require_task-IsRead id)

  module _ (m : Moment) where
    pub page-IsRead :
        (q : TaskQuery) (max_age : ℤ) → IsRead (Tasks.list_tasks env q max_age m.fresh_at m.now)
    unfolding Tasks.list_tasks
    page-IsRead q max_age s =
        let found : Tables → Option (List Task × ℕ × Bool) =
          λ db. Reads.list_tasks env q m.now db db in
        elim (Bool-cases (cursor_expired q.since max_age m.fresh_at)) [
          | inl e ↦ rw e refl
          | inr e ↦ rw e (
              bind-IsRead (reads found)
                (λ (tasks, cursor, has_more).
                  pure {A = Page Task}
                    (record { items = tasks; cursor = cursor; has_more = has_more }))
                (reads-IsRead found) (λ _ _. refl) s)
        ]

    pub lists-IsRead :
        (since : Option ℕ) (limit : Option ℤ) (title : Option Text) (max_age : ℤ)
        → IsRead (Lists.list_lists env since limit title max_age m.fresh_at m.now)
    unfolding Lists.list_lists
    lists-IsRead since limit (some t) max_age s =
        elim (Option-cases (Repo.get_list_by_title env t s)) [
          | inl e ↦ rw e refl
          | inr (l, e) ↦ rw e refl
        ]
    lists-IsRead since limit none max_age s =
        elim (Bool-cases (cursor_expired since max_age m.fresh_at)) [
          | inl e ↦ rw e refl
          | inr e ↦ rw e refl
        ]
