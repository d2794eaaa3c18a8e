-- ===== src/Repository/Writes/Inserted.antt =====
-- What a reader sees of a task behind `create_task`.
use mathlib.Core.Path.{subst}
use mathlib.Core.Logic.{∥∥₁_prop, ∥∥₁_map}
use mathlib.Core.Logic.Or
use mathlib.Core.List.{mem-cons, not-mem-nil, mem-cons_self, append-nil, append_assoc}
use mathlib.Core.List.Perm
use supernote_task_service.Common.{
  ◌≤◌, length, ℕ, ◌≡◌, ◌>>=◌, refl, ◌∙◌, ap, sym, Bool, true, false, Option, none, some, List, [],
  ◌∷◌, ◌++◌, arith, Text, map, any, keep, Perm, Mem, All,
}
use supernote_task_service.Encoding.{occurs, mark, encode_emoji, detail_max_len}
use supernote_task_service.Encoding.Emoji.{IsCharacter}
use supernote_task_service.Models.{title_max, Task, TaskCreate}
use supernote_task_service.Sql.{
  Server, Tables, TaskRow, GroupRow, JoinedRow, left_join, join_row, joined_titles, same_text,
  coalesce,
}
use supernote_task_service.Sql.Tasks.{TaskClause, all_hold, holds, select_joined}
use supernote_task_service.Sql.Laws.{IsServer}
use supernote_task_service.Common.Dict.{text_eq_iff}
use supernote_task_service.Repository.{Env}
use supernote_task_service.Repository.TaskReads.{get_task, one_task, fetchone, task_exists}
use supernote_task_service.Repository.TaskWrites.{create_task, new_row}
use supernote_task_service.Repository.Writes.Updates.{any_task-any}
use supernote_task_service.Repository.Writes.Deleted.{keep-append, wanted, keep-left_join}
use supernote_task_service.Repository.Writes.Readback.{created, row_to_task-new_row}

keep-mapped :
    {A B : Type 0} (p : B → Bool) (f : A → B) (h : (x : A) → p (f x) ≡ true) (xs : List A)
    → keep p (map f xs) ≡ map f xs
keep-mapped p f h [] = refl
keep-mapped p f h (x ∷ xs) = rw (h x) (ap (λ ys. f x ∷ ys) (keep-mapped p f h xs))

module _ (sv : Server) (where_ : List TaskClause) where
  left_join-append :
      (ts : List TaskRow) (t : TaskRow) (gs : List GroupRow)
      → left_join sv (ts ++ t ∷ []) gs
        ≡ left_join sv ts gs ++ join_row t (joined_titles sv t.task_list_id gs)
  unfolding left_join
  left_join-append [] t gs = append-nil (join_row t (joined_titles sv t.task_list_id gs))
  left_join-append (u ∷ ts) t gs =
      ap (λ rs. join_row u (joined_titles sv u.task_list_id gs) ++ rs) (left_join-append ts t gs)
      ∙ sym (
          append_assoc (join_row u (joined_titles sv u.task_list_id gs)) (left_join sv ts gs)
            (join_row t (joined_titles sv t.task_list_id gs)))

  keep-found :
      (t : TaskRow) (titles : List (Option Text))
      → all_hold sv where_ t ≡ true
      → keep (wanted sv where_) (join_row t titles) ≡ join_row t titles
  unfolding join_row
  keep-found t [] h = rw h refl
  keep-found t (x ∷ xs) h =
      keep-mapped (wanted sv where_) (λ title. record { task = t; category = coalesce title })
        (λ _. h) (x ∷ xs)

  -- A statement that no older task matches selects the rows of the new one.
  keep-inserted :
      (ts : List TaskRow) (t : TaskRow) (gs : List GroupRow)
      → any (all_hold sv where_) ts ≡ false
      → all_hold sv where_ t ≡ true
      → keep (wanted sv where_) (left_join sv (ts ++ t ∷ []) gs)
        ≡ join_row t (joined_titles sv t.task_list_id gs)
  keep-inserted ts t gs unused h =
      ap (keep (wanted sv where_)) (left_join-append ts t gs)
      ∙ keep-append (wanted sv where_) (left_join sv ts gs)
          (join_row t (joined_titles sv t.task_list_id gs))
      ∙ ap (λ xs. xs ++ keep (wanted sv where_) (join_row t (joined_titles sv t.task_list_id gs)))
          (keep-left_join sv where_ ts gs unused)
      ∙ keep-found t (joined_titles sv t.task_list_id gs) h

abbrev row_with : TaskRow → Option Text → JoinedRow
row_with t title = record { task = t; category = coalesce title }

mem-rows :
    (t : TaskRow) (titles : List (Option Text)) {r : JoinedRow}
    → Mem r (map (row_with t) titles)
    → ∥ ((category : Text) × (r ≡ record { task = t; category = category })) ∥₁
mem-rows t [] m = absurd (not-mem-nil m)
mem-rows t (x ∷ xs) {r} m =
    Or.elim ∥∥₁_prop (mem-cons.0 m) (λ (e : r ≡ row_with t x). ∣ (coalesce x, e) ∣₁)
      (λ k. mem-rows t xs k)

mem-join_row :
    (t : TaskRow) (titles : List (Option Text)) {r : JoinedRow}
    → Mem r (join_row t titles)
    → ∥ ((category : Text) × (r ≡ record { task = t; category = category })) ∥₁
unfolding join_row
mem-join_row t [] m = mem-rows t (none ∷ []) m
mem-join_row t (x ∷ xs) m = mem-rows t (x ∷ xs) m

some_row : (t : TaskRow) (titles : List (Option Text)) → (r : JoinedRow) × Mem r (join_row t titles)
unfolding join_row
some_row t [] = (_, mem-cons_self)
some_row t (x ∷ xs) = (_, mem-cons_self)

-- What a server makes of rows that are there begins with one of them.
ordered-join_row :
    (t : TaskRow) (titles : List (Option Text)) (rows : List JoinedRow)
    → Perm rows (join_row t titles)
    → ∥ (
        (category : Text) × (rest : List JoinedRow) × (rows
          ≡ record { task = t; category = category } ∷ rest)) ∥₁
ordered-join_row t titles [] p =
    let (j, m) = some_row t titles in absurd (not-mem-nil ((Perm.mem_iff p).1 m))
ordered-join_row t titles (r ∷ rs) p =
    ∥∥₁_map (mem-join_row t titles ((Perm.mem_iff p).0 mem-cons_self))
      (λ (category, e). (category, rs, ap (λ s. s ∷ rs) e))

-- What `get_task` gives for a row, by what the row reads as.
abbrev pub as_found : Option Task → Option (Option Task)
as_found none = none
as_found (some t) = some (some t)

found_as : (o : Option Task) → (do t ← o; some (some t)) ≡ as_found o
found_as none = refl
found_as (some t) = refl

module _ (env : Env) where
  one_task-new_row :
      (task_id : Text) (ts : ℕ) (c : TaskCreate) (db : Tables)
      → all_hold env.server (one_task env task_id) (new_row env task_id ts c db) ≡ true
  unfolding one_task new_row all_hold holds same_text
  one_task-new_row task_id ts c db =
      let same = (text_eq_iff (env.server.weight task_id) (env.server.weight task_id)).1 refl in
      ground arith

  -- A task that is created without a link, with a title and a detail of characters that do not hold
  -- the letters `[U+`, with encodings of both that fit, under an identifier that no active task
  -- of the user has, is what a read of that identifier gives, in a list of some title.
  pub get-create_task :
      (law : IsServer env.server) (task_id : Text) (ts : ℕ) (c : TaskCreate) (db : Tables)
      → task_exists env task_id db ≡ false
      → c.document_link ≡ none
      → All IsCharacter c.title
      → occurs mark c.title ≡ false
      → length (encode_emoji c.title) ≤ title_max
      → All IsCharacter c.detail
      → occurs mark c.detail ≡ false
      → length (encode_emoji c.detail) ≤ detail_max_len
      → ∥ (
          (category : Text) × (get_task env task_id (create_task env task_id ts c db).0
            ≡ as_found (created env task_id ts c db category))) ∥₁
  unfolding get_task create_task select_joined task_exists
  get-create_task law task_id ts c db unused l h m short h' m' fits =
      let row = new_row env task_id ts c db in
      let titles = joined_titles env.server row.task_list_id db.groups in
      let selected =
        keep-inserted env.server (one_task env task_id) db.tasks row db.groups
          (sym (any_task-any env.server (one_task env task_id) db) ∙ unused)
          (one_task-new_row task_id ts c db) in
      ∥∥₁_map
        (ordered-join_row row titles _ (
          subst (λ rows. Perm (env.server.order_joined (λ _ _. true) rows) (join_row row titles))
            (sym selected) (law.joined_perm (λ _ _. true) (join_row row titles))))
        (λ (category, rest, e). (
          category,
          ap (fetchone env) e
              ∙ rw (row_to_task-new_row env law task_id ts c db category l h m short h' m' fits)
                  (found_as (created env task_id ts c db category)),
        ))
