-- ===== src/Api/Assignments.antt =====
-- The assignments after which a row still reads as a task, and that updates make no other.
use supernote_task_service.Common.{
  ℕ, ◌≡◌, refl, true, Option, none, some, List, [], ◌∷◌, arith, Text, All, All-append, is_some,
  text_eq,
}
use supernote_task_service.Encoding.Links.{
  IsCodec, link_payload, decode_document_link, decode-encode_document_link,
}
use supernote_task_service.Models.{
  DocumentLink, TaskUpdate, TaskStatus, needs_action, completed, valid_link, opt_all, field_all,
  Field,
}
use supernote_task_service.Sql.{TaskRow}
use supernote_task_service.Sql.Tasks.{
  TaskAssignment, assign, assign_all, set_title, set_detail, set_status, set_completed_time,
  set_importance, set_due_time, set_sort, set_task_list_id, set_links, set_deleted,
  set_last_modified,
}
use supernote_task_service.Repository.{Env}
use supernote_task_service.Repository.Mapping.{row_to_task, row_link, task_status, status_value}
use supernote_task_service.Repository.TaskWrites as Writes
use supernote_task_service.Repository.TaskWrites.{link_text, when_set, when_sent}
use supernote_task_service.Api.Joined.{Reads, has_dates}

module _ (env : Env) where
  -- The two columns that a row can fail to read for, but for its times.
  abbrev pub GoodStatus : Text → Type 0
  GoodStatus t = is_some (task_status t) ≡ true

  abbrev pub GoodLinks : Option Text → Type 0
  GoodLinks o = is_some (row_link env (decode_document_link env.codec o)) ≡ true

  abbrev pub IsSound : TaskRow → Type 0
  IsSound r = GoodStatus r.status × GoodLinks r.links

  pub columns_suffice : (r : TaskRow) → IsSound r → Reads env r
  unfolding row_to_task has_dates
  columns_suffice r (s, l) category = ground arith

  abbrev pub GoodAssignment : TaskAssignment → Type 0
  GoodAssignment (set_status t) = GoodStatus t
  GoodAssignment (set_links o) = GoodLinks o
  GoodAssignment _ = Unit

  assign-Good :
      (a : TaskAssignment) (r : TaskRow) → GoodAssignment a → IsSound r → IsSound (assign a r)
  unfolding assign
  assign-Good (set_status t) r g h = (g, h.1)
  assign-Good (set_links o) r g h = (h.0, g)
  assign-Good (set_title t) r g h = h
  assign-Good (set_detail t) r g h = h
  assign-Good (set_completed_time t) r g h = h
  assign-Good (set_importance t) r g h = h
  assign-Good (set_due_time t) r g h = h
  assign-Good (set_sort t) r g h = h
  assign-Good (set_task_list_id t) r g h = h
  assign-Good set_deleted r g h = h
  assign-Good (set_last_modified t) r g h = h

  pub assign_all-Good :
      (xs : List TaskAssignment) (r : TaskRow)
      → All GoodAssignment xs
      → IsSound r
      → IsSound (assign_all xs r)
  unfolding assign_all
  assign_all-Good [] r g h = h
  assign_all-Good (a ∷ xs) r g h = assign_all-Good xs (assign a r) g.1 (assign-Good a r g.0 h)

  pub status_value-Good : (s : TaskStatus) → GoodStatus (status_value s)
  unfolding task_status status_value text_eq
  status_value-Good needs_action = refl
  status_value-Good completed = refl

module _ (env : Env) (law : IsCodec env.codec) where
  pub link_text-Good :
      (o : Option DocumentLink) → opt_all valid_link o ≡ true → GoodLinks env (link_text env o)
  unfolding link_text row_link decode_document_link link_payload
  link_text-Good none v = refl
  link_text-Good (some d) v =
      rw (decode-encode_document_link env.codec d law) (go (law.validate d v))
    where
      go :
          env.codec.model_validate (link_payload d) ≡ some d
          → is_some (row_link env (some (link_payload d))) ≡ true
      go e = rw e refl

  sent_links-Good :
      (f : Field DocumentLink)
      → field_all valid_link f ≡ true
      → All (GoodAssignment env) (when_sent (λ d. set_links (link_text env d) ∷ []) f)
  sent_links-Good none v = tt
  sent_links-Good (some o) v = (link_text-Good o v, tt)

  set_status-Good :
      (completed_at : ℕ) (f : Field TaskStatus)
      → All (GoodAssignment env) (
          when_set
            (λ s.
              set_status (status_value s)
              ∷ set_completed_time (Writes.completion_time completed_at s)
              ∷ [])
            f)
  set_status-Good completed_at none = tt
  set_status-Good completed_at (some none) = tt
  set_status-Good completed_at (some (some s)) = (status_value-Good env s, (tt, tt))

  -- An assignment of another column than the two is good.
  plain_set :
      {A : Type 0} (f : A → TaskAssignment)
      → ((a : A) → GoodAssignment env (f a))
      → (o : Field A) → All (GoodAssignment env) (when_set (λ a. f a ∷ []) o)
  plain_set f g none = tt
  plain_set f g (some none) = tt
  plain_set f g (some (some a)) = (g a, tt)

  plain_sent :
      {A : Type 0} (f : Option A → TaskAssignment)
      → ((a : Option A) → GoodAssignment env (f a))
      → (o : Field A) → All (GoodAssignment env) (when_sent (λ a. f a ∷ []) o)
  plain_sent f g none = tt
  plain_sent f g (some o) = (g o, tt)

  pub update_sets-Good :
      (u : TaskUpdate) (completed_at : ℕ)
      → field_all valid_link u.document_link ≡ true
      → All (GoodAssignment env) (Writes.update_sets env u completed_at)
  unfolding Writes.update_sets
  update_sets-Good u completed_at v =
      let good = GoodAssignment env in
      All-append good _ _ (plain_set _ (λ _. tt) u.title) (
        All-append good _ _ (plain_set _ (λ _. tt) u.detail) (
          All-append good _ _ (set_status-Good completed_at u.status) (
            All-append good _ _ (plain_sent _ (λ _. tt) u.importance) (
              All-append good _ _ (plain_sent _ (λ _. tt) u.due) (
                All-append good _ _ (plain_set _ (λ _. tt) u.sort) (
                  All-append good _ _ (plain_sent _ (λ _. tt) u.list_id)
                    (sent_links-Good u.document_link v)))))))
