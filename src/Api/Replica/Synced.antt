-- ===== src/Api/Replica/Synced.antt =====
-- One step of a client that is in step with the tables.
use mathlib.Core.Path.{subst}
use mathlib.Core.Logic.{◌∨₁◌, ∨₁_prop, ∥∥₁_prop, ∥∥₁_map, ∥∥₁_elim}
use mathlib.Core.Logic.Or
use mathlib.Core.List.{mem-map, mem-map_of_mem, Mem-prop}
use supernote_task_service.Common.{
  ℕ, ◌≤◌, ◌<◌, ◌≡◌, refl, ◌∙◌, sym, ap, inl, inr, Bool, true, false, none, some, List, Mem, Text,
  arith, ltb, ltb→lt, Option-cases, Bool-cases, text_eq_refl,
}
use supernote_task_service.Common.Members.{All-mem}
use supernote_task_service.Common.Dict.{Dict, lookup}
use supernote_task_service.Models.{Task}
use supernote_task_service.Sql.{Server, Tables, TaskRow, JoinedRow, left_join, same_text}
use supernote_task_service.Sql.Tasks.{all_hold, holds}
use supernote_task_service.Sql.Laws.{IsServer}
use supernote_task_service.Repository.{Env}
use supernote_task_service.Repository.Mapping.{row_to_task, or_zero}
use supernote_task_service.Repository.TaskReads.{
  TaskQuery, list_tasks, task_clauses, mode_clauses, list_clauses,
}
use supernote_task_service.Repository.Sync.Mapped.{row_to_task-Keeps}
use supernote_task_service.Repository.Sync.Rows.{Asked}
use supernote_task_service.Repository.Sync.Unique.{unique_elim}
use supernote_task_service.Repository.Sync.Promises.{page_complete, page_progress}
use supernote_task_service.Repository.Sync.Sound.{page_sound}
use supernote_task_service.Api.Joined.{has_dates, Reads, joined, left_join-map}
use supernote_task_service.Api.WellFormed.{IsWellFormed-Reads, IsWellFormed, IsWellFormed-IsKeyed}
use supernote_task_service.Api.Replica.{file_all}
use supernote_task_service.Api.Replica.Lookup.{lookup-file_all}

module _ (env : Env) where
  -- The copy shows the row: under its identifier is a task that the row is read as, with some title
  -- for its list.
  abbrev pub Shown : Dict Task → TaskRow → Type 0
  Shown copy r = ∥ (
      (t : Task) × (lookup r.task_id copy ≡ some t)
      × ((category : Text) × (row_to_task env (record { task = r; category = category })
            ≡ some t))) ∥₁

  -- The copy shows the row, or it has no entry for it and the row is marked as deleted.
  abbrev pub Held : Dict Task → TaskRow → Type 0
  Held copy r = Shown copy r ∨₁ ((r.is_deleted ≡ true) × (lookup r.task_id copy ≡ none))

  -- Every task of the user with a time before the cursor is held.
  abbrev pub HoldsBefore : ℕ → Tables → Dict Task → Type 0
  HoldsBefore cursor db copy =
      (r : TaskRow) (m : ℕ)
      → Mem r db.tasks
      → r.user_id ≡ env.user_id
      → r.last_modified ≡ some m
      → m < cursor
      → has_dates env r ≡ true
      → Held copy r

  -- Every entry is of a task of the user that is in the table.
  abbrev pub Known : Tables → Dict Task → Type 0
  Known db copy =
      (k : Text) (t : Task)
      → lookup k copy ≡ some t
      → ∥ ((r : TaskRow) × Mem r db.tasks × (r.task_id ≡ k) × (r.user_id ≡ env.user_id)) ∥₁

same_text_refl : (sv : Server) (a b : Text) → a ≡ b → same_text sv a b ≡ true
unfolding same_text
same_text_refl sv a b e = rw e (text_eq_refl (sv.weight b))

module _ (env : Env) (q : TaskQuery) (now : ℕ) (db : Tables) (well : IsWellFormed env db) where
  pub asked_task : (j : JoinedRow) → Asked env q now db j → Mem j.task db.tasks
  unfolding joined
  asked_task j a =
      let i = subst (Mem j) (left_join-map env.server db.tasks db.groups well.list_ids) a.0 in
      ∥∥₁_elim (mem-map.0 i) Mem-prop
        λ (t, k, e). subst (λ (z : JoinedRow). Mem z.task db.tasks) e k

  pub asked_user : (j : JoinedRow) → Asked env q now db j → j.task.user_id ≡ env.user_id
  unfolding all_hold holds task_clauses
  asked_user j a = let h = a.1 in ground arith

  -- A task that a row asked for is read as, under the identifier of a row of the table, is that
  -- row's.
  pub own_task :
      (r : TaskRow) (t : Task) (copy : Dict Task)
      → Mem r db.tasks
      → ∥ ((j : JoinedRow) × Asked env q now db j × (row_to_task env j ≡ some t)) ∥₁
      → t.id ≡ r.task_id
      → lookup r.task_id copy ≡ some t
      → Shown env copy r
  own_task r t copy i comes same found = ∥∥₁_elim comes ∥∥₁_prop λ (j, a, f).
      let ids : r.task_id ≡ j.task.task_id = sym same ∙ (row_to_task-Keeps env j t f).id in
      unique_elim env.server (λ (z : TaskRow). z.task_id) db.tasks r j.task ∥∥₁_prop well.task_ids i
        (asked_task j a) (same_text_refl env.server r.task_id j.task.task_id ids)
        (λ p. ∣ (
          t,
          found,
          (
            j.category,
            subst (λ z. row_to_task env (record { task = z; category = j.category }) ≡ some t)
                (sym p) f,
          ),
        ) ∣₁)

  -- The task of a row of the table whose times are dates.
  pub task_of :
      (r : TaskRow)
      → Mem r db.tasks
      → has_dates env r ≡ true
      → let j = joined env.server db.groups r in
        Mem j (left_join env.server db.tasks db.groups)
        × (j.task ≡ r)
        × ((t : Task) × (row_to_task env j ≡ some t)
            × (t.id ≡ r.task_id)
            × (t.last_modified ≡ or_zero r.last_modified))
  unfolding joined
  task_of r i dated =
      let j = joined env.server db.groups r in
      let reads = All-mem (Reads env) db.tasks (λ _. hlevel) (IsWellFormed-Reads env db well) i in
      (
        subst (Mem j) (sym (left_join-map env.server db.tasks db.groups well.list_ids))
            (mem-map_of_mem (joined env.server db.groups) i),
        refl,
        elim (Option-cases (row_to_task env j)) [
          | inl failed ↦ let h = reads j.category in absurd (ground arith)
          | inr (t, f) ↦ let k = row_to_task-Keeps env j t f in (t, f, k.id, k.modified)
        ],
      )

module _ (env : Env) (law : IsServer env.server) (q : TaskQuery) (now since : ℕ)
    (delta : q.since ≡ some since) (everywhere : q.list_id ≡ none)
    (all_lists : q.inbox_only ≡ false) (db : Tables) (well : IsWellFormed env db) where
  asks :
      (r : TaskRow) (m : ℕ)
      → r.user_id ≡ env.user_id
      → r.last_modified ≡ some m
      → since ≤ m
      → m ≤ now
      → all_hold env.server (task_clauses env q now) r ≡ true
  unfolding all_hold holds task_clauses mode_clauses list_clauses
  asks r m u e lo hi = rw (delta, everywhere, all_lists) (ground arith)

  -- A row that is asked for, and whose time is before the cursor of the page, is delivered.
  delivered :
      (ts : List Task) (cursor : ℕ) (more : Bool) (r : TaskRow) (m : ℕ)
      → list_tasks env q now db db ≡ some (ts, cursor, more)
      → Mem r db.tasks
      → r.user_id ≡ env.user_id
      → r.last_modified ≡ some m
      → since ≤ m
      → m ≤ now
      → m < cursor
      → has_dates env r ≡ true
      → ∥ ((t : Task) × Mem t ts × (t.id ≡ r.task_id)) ∥₁
  delivered ts cursor more r m e i u time lo hi before dated =
      let (there, own, (t, f, same, t_time)) = task_of env q now db well r i dated in
      let late : t.last_modified ≡ m = t_time ∙ ap or_zero time in
      let asked : Asked env q now db (joined env.server db.groups r) =
        (there, rw own (asks r m u time lo hi)) in
      Or.elim ∥∥₁_prop
        (page_complete env law q now since delta db ts cursor more (joined env.server db.groups r) t
          (IsWellFormed-IsKeyed env db well) e asked f)
        (λ k. ∣ (t, k, same) ∣₁) (λ (le : cursor ≤ t.last_modified). absurd (omega arith))

  within :
      (ts : List Task) (cursor : ℕ) (more : Bool)
      → list_tasks env q now db db ≡ some (ts, cursor, more)
      → (m : ℕ) → m < cursor
      → m ≤ now
  within ts cursor more e m before =
      elim (page_progress env law q now since delta db ts cursor more e) [
        | inl (_, at_clock) ↦ omega arith
        | inr (inl (_, _, le)) ↦ omega arith
        | inr (inr (_, _, le)) ↦ omega arith
      ]

  -- A page keeps the client in step: it shows every task of the user with a time before its cursor,
  -- and files no task that is not in the table.
  pub page_holds :
      (ts : List Task) (cursor : ℕ) (more : Bool) (copy : Dict Task)
      → list_tasks env q now db db ≡ some (ts, cursor, more)
      → HoldsBefore env since db copy
      → HoldsBefore env cursor db (file_all ts copy)
  page_holds ts cursor more copy e held r m i u time before dated =
      elim (lookup-file_all ts copy r.task_id) [
        | inl (t, k, same, found) ↦ Or.inl (
            own_task env q now db well r t (file_all ts copy) i
              (page_sound env law q now since delta db ts cursor more t e k) same found)
        | inr (kept, absent) ↦ elim (Bool-cases (ltb m since)) [
          | inl old ↦
              Or.elim ∨₁_prop (held r m i u time (ltb→lt m since old) dated)
                (λ shown. Or.inl (∥∥₁_map shown (λ (t, found, reads). (t, kept ∙ found, reads))))
                (λ (dead, none_there). Or.inr (dead, kept ∙ none_there))
          | inr recent ↦
              ∥∥₁_elim
                (delivered ts cursor more r m e i u time (ground arith)
                  (within ts cursor more e m before) before dated)
                ∨₁_prop (λ (t, k, same). absurd (absent t k same))
        ]
      ]

  pub page-Known :
      (ts : List Task) (cursor : ℕ) (more : Bool) (copy : Dict Task)
      → list_tasks env q now db db ≡ some (ts, cursor, more)
      → Known env db copy
      → Known env db (file_all ts copy)
  page-Known ts cursor more copy e known k t found = elim (lookup-file_all ts copy k) [
    | inl (s, i, same, l) ↦
        ∥∥₁_map (page_sound env law q now since delta db ts cursor more s e i) λ (j, a, f). (
          j.task,
          asked_task env q now db well j a,
          sym (row_to_task-Keeps env j s f).id ∙ same,
          asked_user env q now db well j a,
        )
    | inr (kept, absent) ↦ known k t (sym kept ∙ found)
  ]
