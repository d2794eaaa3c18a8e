-- ===== src/Api/Joined.antt =====
-- Where no identifier is repeated in either table, the join has one row for each task.
use mathlib.Core.Path.{subst}
use mathlib.Core.Bool.{false≢true}
use supernote_task_service.Common.{
  ◌≡◌, refl, ◌∙◌, sym, inl, inr, true, false, Option, none, some, List, [], ◌∷◌, Text, All, map,
  text_eq_sound, text_eq, Bool-cases, is_some,
}
use supernote_task_service.Sql.{
  Server, Tables, TaskRow, GroupRow, JoinedRow, same_text, coalesce, inbox, joined_titles, join_row,
  left_join,
}
use supernote_task_service.Repository.{Env}
use supernote_task_service.Common.{Bool, ◌&&◌}
use supernote_task_service.Common.Int.{pos}
use supernote_task_service.Encoding.Clock.{ms_to_dt}
use supernote_task_service.Repository.Mapping.{row_to_task, due_ms, or_zero}
use supernote_task_service.Repository.Sync.Unique.{IsUniqueBy}
use supernote_task_service.Repository.Sync.Complete.{IsKeyed}

module _ (sv : Server) where
  -- Two identifiers that a text compares equal to compare equal to each other.
  same_text_join :
      (a b c : Text) → same_text sv a b ≡ true → same_text sv a c ≡ true → same_text sv b c ≡ true
  unfolding same_text
  same_text_join a b c h k =
      let p = text_eq_sound (sv.weight a) (sv.weight b) h in
      let q = text_eq_sound (sv.weight a) (sv.weight c) k in
      subst (λ w. text_eq w (sv.weight c) ≡ true) p k

  -- Behind the group that a task joins, none has the same identifier.
  no_more :
      (i : Text) (g : GroupRow) (gs : List GroupRow)
      → same_text sv i g.task_list_id ≡ true
      → All (λ (h : GroupRow). same_text sv g.task_list_id h.task_list_id ≡ false) gs
      → joined_titles sv (some i) gs ≡ []
  unfolding joined_titles
  no_more i g [] e u = refl
  no_more i g (h ∷ gs) e u = elim (Bool-cases (same_text sv i h.task_list_id)) [
    | inl f ↦ absurd (false≢true (sym u.0 ∙ same_text_join i g.task_list_id h.task_list_id e f))
    | inr f ↦ rw f (no_more i g gs e u.1)
  ]

  abbrev title_of : List (Option Text) → Text
  title_of [] = inbox
  title_of (x ∷ xs) = coalesce x

  -- The one row of a task.
  unfoldable pub joined : List GroupRow → TaskRow → JoinedRow
  joined gs t = record { task = t; category = title_of (joined_titles sv t.task_list_id gs) }

  join_row-joined :
      (t : TaskRow) (l : Option Text) (gs : List GroupRow)
      → IsUniqueBy sv (λ (g : GroupRow). g.task_list_id) gs
      → join_row t (joined_titles sv l gs)
        ≡ record { task = t; category = title_of (joined_titles sv l gs) } ∷ []
  unfolding join_row joined_titles
  join_row-joined t l [] u = refl
  join_row-joined t none (g ∷ gs) u = join_row-joined t none gs u.1
  join_row-joined t (some i) (g ∷ gs) u = elim (Bool-cases (same_text sv i g.task_list_id)) [
    | inl e ↦ rw (e, no_more i g gs e u.0) refl
    | inr e ↦ rw e (join_row-joined t (some i) gs u.1)
  ]

  pub left_join-map :
      (ts : List TaskRow) (gs : List GroupRow)
      → IsUniqueBy sv (λ (g : GroupRow). g.task_list_id) gs
      → left_join sv ts gs ≡ map (joined gs) ts
  unfolding left_join joined
  left_join-map [] gs u = refl
  left_join-map (t ∷ ts) gs u =
      rw (join_row-joined t t.task_list_id gs u, left_join-map ts gs u) refl

  joined-IsUniqueBy :
      (gs : List GroupRow) (ts : List TaskRow)
      → IsUniqueBy sv (λ (t : TaskRow). t.task_id) ts
      → IsUniqueBy sv (λ (r : JoinedRow). r.task.task_id) (map (joined gs) ts)
  unfolding joined
  joined-IsUniqueBy gs [] u = tt
  joined-IsUniqueBy gs (t ∷ ts) u = (differ ts u.0, joined-IsUniqueBy gs ts u.1)
    where
      differ :
          (ss : List TaskRow)
          → All (λ (s : TaskRow). same_text sv t.task_id s.task_id ≡ false) ss
          → All
              (λ (r : JoinedRow). same_text sv t.task_id r.task.task_id ≡ false)
              (map (joined gs) ss)
      differ [] a = tt
      differ (s ∷ ss) a = (a.0, differ ss a.1)

-- The two times of a row are dates that Python has.
unfoldable pub has_dates : Env → TaskRow → Bool
has_dates env r =
    is_some (ms_to_dt env.floats (due_ms r.due_time))
    && is_some (ms_to_dt env.floats (pos (or_zero r.completed_time)))

-- A row reads as a task exactly if its times are dates, whatever the title of its list.
abbrev pub Reads : Env → TaskRow → Type 0
Reads env r =
    (category : Text)
    → is_some (row_to_task env (record { task = r; category = category })) ≡ has_dates env r

-- Every row that a statement joins reads as a task exactly if its times are dates.
abbrev pub ReadsByDates : Env → Tables → Type 0
ReadsByDates env db =
    All (λ j. is_some (row_to_task env j) ≡ has_dates env j.task)
      (left_join env.server db.tasks db.groups)

module _ (env : Env) (db : Tables)
    (lists : IsUniqueBy env.server (λ (g : GroupRow). g.task_list_id) db.groups) where
  pub join-IsKeyed : IsUniqueBy env.server (λ (t : TaskRow). t.task_id) db.tasks → IsKeyed env db
  join-IsKeyed u =
      rw (left_join-map env.server db.tasks db.groups lists)
        (joined-IsUniqueBy env.server db.groups db.tasks u)

  pub join-ReadsByDates : All (Reads env) db.tasks → ReadsByDates env db
  unfolding joined
  join-ReadsByDates h = rw (left_join-map env.server db.tasks db.groups lists) (go db.tasks h)
    where
      go :
          (ts : List TaskRow)
          → All (Reads env) ts
          → All
              (λ r. is_some (row_to_task env r) ≡ has_dates env r.task)
              (map (joined env.server db.groups) ts)
      go [] a = tt
      go (t ∷ ts) a = (a.0 _, go ts a.1)
