-- ===== src/Repository/Writes/Fields.antt =====
-- What the fields of a request to change a task make of its row, column by column: `update_task` of
-- repository.py.
use supernote_task_service.Common.{
  length, ◌≤◌, ℕ, ◌≡◌, refl, ◌∙◌, ap, Bool, true, false, not, ◌&&◌, Option, none, some, List, [],
  ◌∷◌, ◌++◌, arith, Text,
}
use supernote_task_service.Models.{
  title_max, TaskUpdate, TaskStatus, Field, completed, needs_action, DocumentLink,
}
use supernote_task_service.Encoding.{encode_emoji, encode_detail}
use supernote_task_service.Encoding.Clock.{Datetime, dt_to_ms}
use supernote_task_service.Sql.{TaskRow}
use supernote_task_service.Sql.Tasks.{
  TaskAssignment, assign, assign_all, set_title, set_detail, set_status as assign_status,
  set_completed_time, set_importance, set_due_time, set_sort, set_task_list_id, set_links,
}
use supernote_task_service.Sql.Laws.{IsServer}
use supernote_task_service.Repository.{Env, stored_title}
use supernote_task_service.Repository.Mapping.{needs_action_value, completed_value, status_value}
use supernote_task_service.Repository.TaskWrites.{
  update_sets, when_set, when_sent, link_text, importance_text, completion_time,
}
use supernote_task_service.Repository.Writes.Updates.{assign_all-append}

-- What a field that is sent, and not null, makes of a column.
abbrev pub set_or : {A B : Type 0} → (A → B) → Field A → B → B
set_or f none b = b
set_or f (some none) b = b
set_or f (some (some a)) b = f a

-- What a field that null clears makes of a column.
abbrev pub sent_or : {A B : Type 0} → (Option A → B) → Field A → B → B
sent_or f none b = b
sent_or f (some o) b = f o

-- A title that is sent fits its column once it is encoded.
abbrev pub FitsTitle : Field Text → Type 0
FitsTitle none = Unit
FitsTitle (some none) = Unit
FitsTitle (some (some t)) = length (encode_emoji t) ≤ title_max

abbrev pub is_set : {A : Type 0} → Field A → Bool
is_set none = false
is_set (some none) = false
is_set (some (some a)) = true

abbrev pub is_sent : {A : Type 0} → Field A → Bool
is_sent none = false
is_sent (some o) = true

abbrev pub sets_nothing : TaskUpdate → Bool
sets_nothing u =
    not (is_set u.title)
    && (not (is_set u.detail)
        && (not (is_set u.status)
            && (not (is_sent u.importance)
                && (not (is_sent u.due)
                    && (not (is_set u.sort)
                        && (not (is_sent u.list_id) && not (is_sent u.document_link)))))))

abbrev pub status_word : TaskStatus → Text
status_word needs_action = needs_action_value
status_word completed = completed_value

abbrev pub completed_or_0 : ℕ → TaskStatus → ℕ
completed_or_0 at needs_action = 0
completed_or_0 at completed = at

abbrev pub is_nil : {A : Type 0} → List A → Bool
is_nil [] = true
is_nil (x ∷ xs) = false

module _ (env : Env) where
  -- The columns of the fields that a request sets.
  abbrev pub with_fields : TaskUpdate → ℕ → TaskRow → TaskRow
  with_fields u completed_at r = record r {
    title = set_or (λ t. some (encode_emoji t)) u.title r.title;
    detail = set_or (λ t. some (encode_detail t)) u.detail r.detail;
    status = set_or status_word u.status r.status;
    completed_time = set_or (λ s. some (completed_or_0 completed_at s)) u.status r.completed_time;
    importance = sent_or importance_text u.importance r.importance;
    due_time = sent_or (λ d. some (dt_to_ms env.floats d)) u.due r.due_time;
    sort = set_or some u.sort r.sort;
    task_list_id = sent_or (λ l. l) u.list_id r.task_list_id;
    links = sent_or (link_text env) u.document_link r.links;
  }

  by_set :
      {A : Type 0} (f : A → List TaskAssignment) (o : Field A) (g : TaskRow → TaskRow)
      (more : List TaskAssignment) (r : TaskRow)
      → (assign_all (when_set f o) r ≡ g r)
      → assign_all (when_set f o ++ more) r ≡ assign_all more (g r)
  by_set f o g more r e = assign_all-append (when_set f o) more r ∙ ap (assign_all more) e

  by_sent :
      {A : Type 0} (f : Option A → List TaskAssignment) (o : Field A) (g : TaskRow → TaskRow)
      (more : List TaskAssignment) (r : TaskRow)
      → (assign_all (when_sent f o) r ≡ g r)
      → assign_all (when_sent f o ++ more) r ≡ assign_all more (g r)
  by_sent f o g more r e = assign_all-append (when_sent f o) more r ∙ ap (assign_all more) e

  titled :
      (law : IsServer env.server) (o : Field Text) (r : TaskRow)
      → FitsTitle o
      → assign_all (when_set (λ t. set_title (stored_title env t) ∷ []) o) r
        ≡ record r { title = set_or (λ t. some (encode_emoji t)) o r.title }
  unfolding assign_all assign
  titled law none r fits = refl
  titled law (some none) r fits = refl
  titled law (some (some t)) r fits = rw (law.fits title_max (encode_emoji t) fits) refl

  detailed :
      (o : Field Text) (r : TaskRow)
      → assign_all (when_set (λ t. set_detail (encode_detail t) ∷ []) o) r
        ≡ record r { detail = set_or (λ t. some (encode_detail t)) o r.detail }
  unfolding assign_all assign
  detailed none r = refl
  detailed (some none) r = refl
  detailed (some (some t)) r = refl

  statused :
      (at : ℕ) (o : Field TaskStatus) (r : TaskRow)
      → assign_all
          (when_set
            (λ s. assign_status (status_value s) ∷ set_completed_time (completion_time at s) ∷ [])
            o)
          r
        ≡ record r {
          status = set_or status_word o r.status;
          completed_time = set_or (λ s. some (completed_or_0 at s)) o r.completed_time;
        }
  unfolding assign_all assign status_value completion_time
  statused at none r = refl
  statused at (some none) r = refl
  statused at (some (some completed)) r = refl
  statused at (some (some needs_action)) r = refl

  weighed :
      (o : Field ℕ) (r : TaskRow)
      → assign_all (when_sent (λ a. set_importance (importance_text a) ∷ []) o) r
        ≡ record r { importance = sent_or importance_text o r.importance }
  unfolding assign_all assign
  weighed none r = refl
  weighed (some o) r = refl

  dated :
      (o : Field Datetime) (r : TaskRow)
      → assign_all (when_sent (λ a. set_due_time (dt_to_ms env.floats a) ∷ []) o) r
        ≡ record r { due_time = sent_or (λ d. some (dt_to_ms env.floats d)) o r.due_time }
  unfolding assign_all assign
  dated none r = refl
  dated (some o) r = refl

  filed :
      (o : Field Text) (r : TaskRow)
      → assign_all (when_sent (λ a. set_task_list_id a ∷ []) o) r
        ≡ record r { task_list_id = sent_or (λ l. l) o r.task_list_id }
  unfolding assign_all assign
  filed none r = refl
  filed (some o) r = refl

  linked :
      (o : Field DocumentLink) (r : TaskRow)
      → assign_all (when_sent (λ a. set_links (link_text env a) ∷ []) o) r
        ≡ record r { links = sent_or (link_text env) o r.links }
  unfolding assign_all assign
  linked none r = refl
  linked (some o) r = refl

  sorted :
      (o : Field ℕ) (r : TaskRow)
      → assign_all (when_set (λ n. set_sort n ∷ []) o) r ≡ record r { sort = set_or some o r.sort }
  unfolding assign_all assign
  sorted none r = refl
  sorted (some none) r = refl
  sorted (some (some n)) r = refl

  -- The assignments of an update, column by column.
  pub assign_all-update_sets :
      (law : IsServer env.server) (u : TaskUpdate) (at : ℕ) (fits : FitsTitle u.title)
      (more : List TaskAssignment) (r : TaskRow)
      → assign_all (update_sets env u at ++ more) r ≡ assign_all more (with_fields u at r)
  unfolding update_sets
  assign_all-update_sets law u at fits more r =
      assign_all-append (update_sets env u at) more r
      ∙ ap (assign_all more) (
          by_set _ u.title
            (λ s. record s { title = set_or (λ t. some (encode_emoji t)) u.title s.title }) _ r
            (titled law u.title r fits)
          ∙ by_set _ u.detail
              (λ s. record s { detail = set_or (λ t. some (encode_detail t)) u.detail s.detail }) _
              _ (detailed u.detail _)
          ∙ by_set _ u.status
              (λ s. record s {
                status = set_or status_word u.status s.status;
                completed_time = set_or (λ v. some (completed_or_0 at v)) u.status s.completed_time;
              })
              _ _ (statused at u.status _)
          ∙ by_sent _ u.importance
              (λ s. record s { importance = sent_or importance_text u.importance s.importance }) _ _
              (weighed u.importance _)
          ∙ by_sent _ u.due
              (λ s. record s {
                due_time = sent_or (λ d. some (dt_to_ms env.floats d)) u.due s.due_time;
              })
              _ _ (dated u.due _)
          ∙ by_set _ u.sort (λ s. record s { sort = set_or some u.sort s.sort }) _ _
              (sorted u.sort _)
          ∙ by_sent _ u.list_id
              (λ s. record s { task_list_id = sent_or (λ l. l) u.list_id s.task_list_id }) _ _
              (filed u.list_id _)
          ∙ (linked u.document_link _))

  nil_both :
      {A : Type 0} (xs ys : List A) {a b : Bool}
      → is_nil xs ≡ a
      → is_nil ys ≡ b
      → is_nil (xs ++ ys) ≡ (a && b)
  nil_both [] ys e f = ground arith
  nil_both (x ∷ xs) ys e f = ground arith

  nil-set :
      {A : Type 0} (f : A → TaskAssignment) (g : A → List TaskAssignment) (o : Field A)
      → is_nil (when_set (λ a. f a ∷ g a) o) ≡ not (is_set o)
  nil-set f g none = refl
  nil-set f g (some none) = refl
  nil-set f g (some (some a)) = refl

  nil-sent :
      {A : Type 0} (f : Option A → TaskAssignment) (o : Field A)
      → is_nil (when_sent (λ a. f a ∷ []) o) ≡ not (is_sent o)
  nil-sent f none = refl
  nil-sent f (some o) = refl

  pub nothing_set : (u : TaskUpdate) (at : ℕ) → is_nil (update_sets env u at) ≡ sets_nothing u
  unfolding update_sets
  nothing_set u at = nil_both _ _ (nil-set _ _ u.title) (
      nil_both _ _ (nil-set _ _ u.detail) (
        nil_both _ _ (nil-set _ _ u.status) (
          nil_both _ _ (nil-sent _ u.importance) (
            nil_both _ _ (nil-sent _ u.due) (
              nil_both _ _ (nil-set _ _ u.sort)
                (nil_both _ _ (nil-sent _ u.list_id) (nil-sent _ u.document_link)))))))
