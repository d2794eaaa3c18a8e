-- ===== src/Repository/Writes/Created.antt =====
-- `create_task`: the position that it chooses, and the task that is read back.
use supernote_task_service.Common.{length}
use supernote_task_service.Common.Int.{ℤ, pos}
use mathlib.Core.Option
use supernote_task_service.Repository.Mapping.{parse_importance}
use supernote_task_service.Encoding.Decimal.{
  decimal, parse_int, strip, strip-decimal, parse_int-decimal, length-decimal,
}
use mathlib.Core.Path.{subst}
use supernote_task_service.Common.{
  ℕ, ◌+◌, ◌≤◌, ◌<◌, ◌≡◌, refl, sym, Bool, true, false, ◌&&◌, Option, none, some, List, [], ◌∷◌,
  arith, Text, keep, if◌then◌else◌, ◌==◌, ltb, Bool-cases, Option-cases, inl, inr, any, ◌⊎◌, max,
}
use supernote_task_service.Sql.{Server, Tables, TaskRow}
use supernote_task_service.Sql.Tasks.{
  TaskClause, all_hold, sort_after, by_user, active, in_list_or_inbox,
}
use supernote_task_service.Repository.{Env}
use supernote_task_service.Repository.TaskWrites.{next_sort, importance_text}

sort_after-le : (n : ℕ) (rows : List TaskRow) → n ≤ sort_after n rows
unfolding sort_after
sort_after-le n [] = omega arith
sort_after-le n (r ∷ rs) = elim (Option-cases r.sort) [
  | inl e ↦ rw e (sort_after-le n rs)
  | inr (k, e) ↦ rw e (omega (arith, sort_after-le (max n (k + 1)) rs))
]

-- A position is below the next one.
abbrev pub IsBefore : ℕ → Option ℕ → Type 0
IsBefore n none = Unit
IsBefore n (some k) = k < n

abbrev has_position : ℕ → Option ℕ → Bool
has_position k none = false
has_position k (some j) = j == k

module _ (sv : Server) (where_ : List TaskClause) where
  -- All matched rows stand before a position.
  abbrev pub AllBefore : ℕ → List TaskRow → Type 0
  AllBefore n [] = Unit
  AllBefore n (r ∷ rs) =
      (if all_hold sv where_ r then IsBefore n r.sort else Unit {0}) × AllBefore n rs

  -- The position is the first one, or one above that of a matched row.
  abbrev pub IsTight : ℕ → ℕ → List TaskRow → Type 0
  IsTight n first rows =
      (n ≡ first)
      ⊎ ((k : ℕ) × (n ≡ k + 1)
          × (any (λ r. all_hold sv where_ r && has_position k r.sort) rows ≡ true))

  -- One row of the maximum.
  next_after : ℕ → TaskRow → ℕ
  next_after n r =
      if all_hold sv where_ r then elim r.sort [ none ↦ n | some k ↦ max n (k + 1) ] else n

  sort_after-next :
      (n : ℕ) (r : TaskRow) (rs : List TaskRow)
      → sort_after n (keep (all_hold sv where_) (r ∷ rs))
        ≡ sort_after (next_after n r) (keep (all_hold sv where_) rs)
  unfolding sort_after next_after
  sort_after-next n r rs = ground arith

  next_after_le :
      (m n : ℕ) (r : TaskRow)
      → next_after n r ≤ m
      → if all_hold sv where_ r then IsBefore m r.sort else Unit {0}
  unfolding next_after
  next_after_le m n r h = elim (Bool-cases (all_hold sv where_ r)) [
    | inr other ↦ rw other tt
    | inl hit ↦ elim (Option-cases r.sort) [
      | inl e ↦ rw (hit, e) tt
      | inr (k, e) ↦ rw (hit, e) (ground arith)
    ]
  ]

  sort_after-AllBefore :
      (n : ℕ) (rows : List TaskRow) → AllBefore (sort_after n (keep (all_hold sv where_) rows)) rows
  sort_after-AllBefore n [] = tt
  sort_after-AllBefore n (r ∷ rs) =
      subst (λ m. AllBefore m (r ∷ rs)) (sym (sort_after-next n r rs))
        (
          next_after_le _ n r (sort_after-le (next_after n r) (keep (all_hold sv where_) rs)),
          sort_after-AllBefore (next_after n r) rs,
        )

  next_after_step :
      (m n : ℕ) (r : TaskRow) (rs : List TaskRow)
      → IsTight m (next_after n r) rs
      → IsTight m n (r ∷ rs)
  unfolding next_after
  next_after_step m n r rs (inr (k, e, h)) = inr (k, e, ground arith)
  next_after_step m n r rs (inl e) = elim (Option-cases r.sort) [
    | inl none_set ↦ inl (ground arith)
    | inr (k, set) ↦ elim (Bool-cases (all_hold sv where_ r && ltb n (k + 1))) [
      | inl above ↦ inr (k, ground arith, ground arith)
      | inr below ↦ inl (ground arith)
    ]
  ]

  sort_after-IsTight :
      (n : ℕ) (rows : List TaskRow) → IsTight (sort_after n (keep (all_hold sv where_) rows)) n rows
  sort_after-IsTight n [] = inl (unfold sort_after in refl)
  sort_after-IsTight n (r ∷ rs) =
      subst (λ m. IsTight m n (r ∷ rs)) (sym (sort_after-next n r rs))
        (next_after_step _ n r rs (sort_after-IsTight (next_after n r) rs))

-- The position of a new task is behind every position of an active task of the user in the same list
-- or Inbox, and no further than it must be: it is 0, or one above a position that is taken.
pub next_sort_lem :
    (env : Env) (list_id : Option Text) (db : Tables)
    → let where_ = in_list_or_inbox list_id ∷ by_user env.user_id ∷ active ∷ [] in
      AllBefore env.server where_ (next_sort env list_id db) db.tasks
      × IsTight env.server where_ (next_sort env list_id db) 0 db.tasks
unfolding next_sort
next_sort_lem env list_id db =
    (sort_after-AllBefore env.server _ 0 db.tasks, sort_after-IsTight env.server _ 0 db.tasks)

nonempty-strip :
    (t : Text) (n : ℤ)
    → 0 < length t
    → strip t ≡ t
    → parse_int t ≡ some n
    → parse_importance (some t) ≡ some n
unfolding parse_importance
nonempty-strip [] n h e f = absurd (omega arith)
nonempty-strip (c ∷ cs) n h e f = ground arith

-- A stored importance reads back as the number that was written.
pub parse_importance-importance_text :
    (o : Option ℕ) → parse_importance (importance_text o) ≡ Option.map pos o
unfolding parse_importance
parse_importance-importance_text none = refl
parse_importance-importance_text (some n) =
    nonempty-strip (decimal n) (pos n) (length-decimal n) (strip-decimal n) (parse_int-decimal n)
