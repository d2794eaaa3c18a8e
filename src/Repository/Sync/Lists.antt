-- ===== src/Repository/Sync/Lists.antt =====
-- What a delta page of task lists promises: `list_lists` of repository.py with a cursor, on tables
-- that stand still while it is fetched.
use mathlib.Core.Logic.{◌∨₁◌, ∨₁_prop}
use mathlib.Core.Logic.Or
use mathlib.Core.Path.{subst}
use mathlib.Core.List.{mem-append_left, mem-append_right, mem-map_of_mem, not-mem-nil}
use mathlib.Core.List.Perm
use supernote_task_service.Common.{
  ℕ, ◌+◌, ◌≤◌, ◌≡◌, ◌≢◌, ◌∙◌, refl, sym, ap, Bool, true, false, Option, some, List, [], ◌∷◌, ◌++◌,
  Mem, arith, Text, length, last?, take, drop, keep, map, ◌==◌, if◌then◌else◌, Bool-cases,
  Option-cases, inl, inr,
}
use supernote_task_service.Common.Int.{ℤ}
use supernote_task_service.Common.Members.{
  mem-keep, mem-keep_of_mem, mem_take-or-drop, drop_short, mem_of_mem-take, mem-last?, last-le-drop,
}
use supernote_task_service.Models.{TaskList}
use supernote_task_service.Sql.{Tables, GroupRow, group_order, modified_order, same_text, text_lt}
use supernote_task_service.Sql.Groups.{
  GroupClause, by_user, modified_between, modified_at, id_after, all_hold, select_groups,
}
use supernote_task_service.Sql.Laws.{IsServer, group_order-IsOrder, text_lt_of_ne}
use supernote_task_service.Repository.{
  Env, clamp_limit, is_full_page, is_single_ms_full_page, page_cursor,
}
use supernote_task_service.Repository.Mapping.{row_to_list}
use supernote_task_service.Repository.Lists.{list_lists, list_rows, drained_lists, drain_lists_at}
use supernote_task_service.Repository.Sync.Unique.{IsUniqueBy, unique_elim}
use supernote_task_service.Repository.Sync.Pages.{clamp_limit_bounds, last?-cons}

length-map {ℓ κ} :
    {A : Type ℓ} {B : Type κ} (f : A → B) (xs : List A) → length (map f xs) ≡ length xs
length-map f [] = refl
length-map f (x ∷ xs) = ground (arith, length-map f xs)

last?-map {ℓ κ} :
    {A : Type ℓ} {B : Type κ} (f : A → B) (xs : List A) {b : B}
    → last? (map f xs) ≡ some b
    → (a : A) × (last? xs ≡ some a) × (f a ≡ b)
last?-map f [] e = cc
last?-map f (x ∷ []) e = (x, refl, cc)
last?-map f (x ∷ y ∷ ys) e = last?-map f (y ∷ ys) e

row_to_list-id : (r : GroupRow) → (row_to_list r).id ≡ some r.task_list_id
unfolding row_to_list
row_to_list-id r = refl

module _ (env : Env) (limit : Option ℤ) (now : ℕ) (db : Tables) where
  abbrev finish : List TaskList → List TaskList × ℕ × Bool
  finish lists =
      let size = clamp_limit limit in
      if is_single_ms_full_page (λ (l : TaskList). l.last_modified) lists size
      then drained_lists env lists (last? lists) db
      else (
        lists,
        page_cursor (λ (l : TaskList). l.last_modified) lists size now,
        is_full_page (λ (l : TaskList). l.last_modified) lists size,
      )

  -- How a page ends.
  data End (lists ts : List TaskList) (cursor : ℕ) : Type 0 where
    short : length lists ≢ clamp_limit limit → ts ≡ lists → End lists ts cursor
    full :
        (l : TaskList)
        → last? lists ≡ some l
        → length lists ≡ clamp_limit limit
        → ts ≡ lists
        → cursor ≡ l.last_modified
        → End lists ts cursor
    drained :
        (l : TaskList)
        → last? lists ≡ some l
        → length lists ≡ clamp_limit limit
        → ts ≡ lists ++ drain_lists_at env l.last_modified l.id db
        → cursor ≡ l.last_modified + 1
        → End lists ts cursor

  finish-End :
      (lists ts : List TaskList) (cursor : ℕ) (more : Bool)
      → finish lists ≡ (ts, cursor, more)
      → End lists ts cursor
  unfolding drained_lists is_full_page is_single_ms_full_page page_cursor
  finish-End [] ts cursor more e = short (ground (arith, clamp_limit_bounds limit)) (ground arith)
  finish-End (x ∷ xs) ts cursor more e =
      let (l, last) = last?-cons x xs in
      elim (Bool-cases (length (x ∷ xs) == clamp_limit limit)) [
        | inr partial ↦ short (ground arith) (ground arith)
        | inl whole ↦ elim (Bool-cases (x.last_modified == l.last_modified)) [
          | inr several ↦ full l last (ground arith) (ground arith) (ground arith)
          | inl one ↦ drained l last (ground arith) (ground arith) (ground arith)
        ]
      ]

module _ (env : Env) (law : IsServer env.server) (limit : Option ℤ) (now since : ℕ)
    (db : Tables) where
  -- A list of the user that was changed in the window of the page, deleted or not.
  pub record Changed (g : GroupRow) (m : ℕ) : Type 0 where
    pub there : Mem g db.groups
    pub owned : g.user_id ≡ env.user_id
    pub at : g.last_modified ≡ some m
    pub lower : since ≤ m
    pub upper : m ≤ now

  abbrev window : List GroupClause
  window = by_user env.user_id ∷ modified_between since now ∷ []

  abbrev rows : List GroupRow
  rows =
      env.server.order_groups (group_order env.server) (keep (all_hold env.server window) db.groups)

  abbrev page : List GroupRow
  page = take (clamp_limit limit) rows

  abbrev behind : List GroupRow
  behind = drop (clamp_limit limit) rows

  mem-rows : (g : GroupRow) (m : ℕ) → Changed g m → Mem g rows
  mem-rows g m c = (Perm.mem_iff (law.groups_perm _ _)).1 (
      mem-keep_of_mem (all_hold env.server window) db.groups c.there
        (unfold all_hold in ground (arith, c.owned, c.at, c.lower, c.upper)))

  -- A fetched row has a time.
  rows-time :
      (g : GroupRow)
      → Mem g rows
      → (g.last_modified ≡ some (row_to_list g).last_modified) × Mem g db.groups
  rows-time g i =
      let kept =
        mem-keep (all_hold env.server window) db.groups
          ((Perm.mem_iff (law.groups_perm _ _)).0 i) in
      elim (Option-cases g.last_modified) [
        | inl e ↦ absurd (let h = kept.1 in unfold all_hold in ground arith)
        | inr (m, e) ↦ (unfold row_to_list in ground arith, kept.0)
      ]

  group_order_le :
      (r s : GroupRow) (m n : ℕ)
      → r.last_modified ≡ some m
      → s.last_modified ≡ some n
      → group_order env.server r s ≡ true
      → (m ≤ n) × (m ≡ n → text_lt env.server s.task_list_id r.task_list_id ≡ false)
  unfolding group_order modified_order
  group_order_le r s m n e f h = (ground arith, λ q. ground arith)

  drain_complete :
      (after : Text) (g : GroupRow) (m : ℕ)
      → Changed g m
      → text_lt env.server after g.task_list_id ≡ true
      → Mem (row_to_list g) (drain_lists_at env m (some after) db)
  unfolding drain_lists_at select_groups
  drain_complete after g m c lt = mem-map_of_mem row_to_list (
      (Perm.mem_iff (law.groups_perm _ _)).1 (
        mem-keep_of_mem
          (all_hold env.server (by_user env.user_id ∷ modified_at m ∷ id_after after ∷ []))
          db.groups c.there (unfold all_hold in ground (arith, c.owned, c.at, lt))))

  list_lists-End :
      (ts : List TaskList) (cursor : ℕ) (more : Bool)
      → list_lists env (some since) limit now db db ≡ (ts, cursor, more)
      → End env limit now db (map row_to_list page) ts cursor
  unfolding list_lists list_rows select_groups
  list_lists-End ts cursor more e =
      finish-End env limit now db (map row_to_list page) ts cursor more e

  -- A list that the page does not fetch comes after its last one, by its time or by its identifier.
  behind_last :
      (s g : GroupRow) (m : ℕ)
      → last? page ≡ some s
      → Mem g behind
      → g.last_modified ≡ some m
      → ((row_to_list s).last_modified ≤ m)
        × ((row_to_list s).last_modified ≡ m
            → text_lt env.server g.task_list_id s.task_list_id ≡ false)
  behind_last s g m last i e =
      let time = (rows-time s (mem_of_mem-take (clamp_limit limit) rows (mem-last? page last))).0 in
      group_order_le s g (row_to_list s).last_modified m time e (
        last-le-drop (group_order env.server) (clamp_limit limit) rows
          (law.groups_sorted _ _ (group_order-IsOrder env.server)) last i)

  -- A list of the drained page, and one behind it.
  drained_or_later :
      (s g : GroupRow) (m : ℕ)
      → IsUniqueBy env.server (λ (z : GroupRow). z.task_list_id) db.groups
      → Changed g m
      → last? page ≡ some s
      → Mem g behind
      → Mem (row_to_list g) (
          map row_to_list page
          ++ drain_lists_at env (row_to_list s).last_modified (row_to_list s).id db)
        ∨₁ ((row_to_list s).last_modified + 1 ≤ m)
  drained_or_later s g m unique c last i =
      let after = behind_last s g m last i c.at in
      let drawn = mem-last? page last in
      elim (Bool-cases ((row_to_list s).last_modified == m)) [
        | inr later ↦ let le = after.0 in Or.inr (ground arith)
        | inl same_time ↦
            let e : (row_to_list s).last_modified ≡ m = ground arith in
            elim (Bool-cases (same_text env.server s.task_list_id g.task_list_id)) [
              | inl same ↦
                  unique_elim env.server (λ (z : GroupRow). z.task_list_id) db.groups s g ∨₁_prop
                    unique (rows-time s (mem_of_mem-take (clamp_limit limit) rows drawn)).1 c.there
                    same
                    (λ p. Or.inl (
                      mem-append_left _
                        (mem-map_of_mem row_to_list (subst (λ z. Mem z page) p drawn))))
              | inr differ ↦ Or.inl (
                  mem-append_right (map row_to_list page) (
                    rw (e, row_to_list-id s)
                      (drain_complete s.task_list_id g m c (
                        text_lt_of_ne env.server s.task_list_id g.task_list_id (after.1 e)
                          differ))))
            ]
      ]

  -- Nothing is lost: on tables that stand still, and in which no list's identifier is repeated,
  -- every list of the user that was changed in the closed window from the cursor asked with to the
  -- clock is on the page, deleted or not, or its time is not before the cursor of the page.
  pub lists_complete :
      (ts : List TaskList) (cursor : ℕ) (more : Bool) (g : GroupRow) (m : ℕ)
      → IsUniqueBy env.server (λ (z : GroupRow). z.task_list_id) db.groups
      → list_lists env (some since) limit now db db ≡ (ts, cursor, more)
      → Changed g m
      → Mem (row_to_list g) ts ∨₁ (cursor ≤ m)
  lists_complete ts cursor more g m unique e c =
      Or.elim ∨₁_prop (mem_take-or-drop (clamp_limit limit) rows (mem-rows g m c))
        (λ here. on_page (mem-map_of_mem row_to_list here) (list_lists-End ts cursor more e))
        (λ i. off_page i (list_lists-End ts cursor more e))
    where
      on_page :
          Mem (row_to_list g) (map row_to_list page)
          → End env limit now db (map row_to_list page) ts cursor
          → Mem (row_to_list g) ts ∨₁ (cursor ≤ m)
      on_page k (short _ p) = Or.inl (rw p k)
      on_page k (full _ _ _ p _) = Or.inl (rw p k)
      on_page k (drained _ _ _ p _) = Or.inl (rw p (mem-append_left _ k))

      off_page :
          Mem g behind
          → End env limit now db (map row_to_list page) ts cursor
          → Mem (row_to_list g) ts ∨₁ (cursor ≤ m)
      off_page i (short few _) =
          let none_left =
            drop_short (clamp_limit limit) rows (λ p. few (length-map row_to_list page ∙ p)) in
          absurd (not-mem-nil (subst (Mem g) none_left i))
      off_page i (full l last _ _ at) =
          let (s, last_row, q) = last?-map row_to_list page last in
          let time : (row_to_list s).last_modified ≡ cursor =
            ap (λ (z : TaskList). z.last_modified) q ∙ sym at in
          Or.inr (subst (λ n. n ≤ m) time (behind_last s g m last_row i c.at).0)
      off_page i (drained l last _ p at) =
          let (s, last_row, q) = last?-map row_to_list page last in
          rw (p, at, ← q) (drained_or_later s g m unique c last_row i)
