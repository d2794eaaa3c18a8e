-- ===== src/Api/WellFormed.antt =====
-- The invariant of the tables: identifiers are not repeated, and every row has a status and
-- a link that read.
use supernote_task_service.Common.{ℕ, ◌≡◌, sym, ap, inl, inr, false, List, [], ◌∷◌, Text, All}
use mathlib.Core.Path.{subst}
use supernote_task_service.Common.Int.{ℤ}
use supernote_task_service.Encoding.Links.{IsCodec}
use supernote_task_service.Sql.{Server, Tables, TaskRow, GroupRow, same_text}
use supernote_task_service.Repository.{Env}
use supernote_task_service.Repository.Sync.Unique.{IsUniqueBy}
use supernote_task_service.Repository.Sync.Complete.{IsKeyed}
use supernote_task_service.Api.Assignments.{IsSound, columns_suffice}
use supernote_task_service.Api.{Call, Moment, perform, run}
use supernote_task_service.Api.Evolution.{Columns, task_columns, group_columns, Evolves}
use supernote_task_service.Api.Joined.{Reads, ReadsByDates, join-IsKeyed, join-ReadsByDates}
use supernote_task_service.Api.Values.{KeepsSound, values-IsWriteRelation}
use supernote_task_service.Api.Steps.{perform_related}
use supernote_task_service.Api.Isolation.{perform-Step}

-- The server tells the identifier of every row from a new one.
abbrev pub IsNew : {A : Type 0} → Server → (A → Text) → Text → List A → Type 0
IsNew sv key id = All (λ r. same_text sv (key r) id ≡ false)

module _ {A : Type 0} (sv : Server) (c : Columns A) (user now : ℕ) (new_id : Text) where
  differ_still :
      (a : Text) (rs ss : List A)
      → Evolves c user now new_id rs ss
      → same_text sv a new_id ≡ false
      → All (λ r. same_text sv a (c.id r) ≡ false) rs
      → All (λ s. same_text sv a (c.id s) ≡ false) ss
  differ_still a [] [] e n h = tt
  differ_still a [] (s ∷ []) e n h = (rw e.fresh_id n, tt)
  differ_still a [] (s ∷ t ∷ ss) e n h = absurd e
  differ_still a (r ∷ rs) [] e n h = absurd e
  differ_still a (r ∷ rs) (s ∷ ss) e n h =
      (elim e.0 [ inl q ↦ rw q h.0 | inr w ↦ rw w.same_id h.0 ], differ_still a rs ss e.1 n h.1)

  -- A table in which no identifier is repeated stays one, if a new identifier is new.
  pub Evolves-IsUniqueBy :
      (rs ss : List A)
      → Evolves c user now new_id rs ss
      → IsNew sv c.id new_id rs
      → IsUniqueBy sv c.id rs
      → IsUniqueBy sv c.id ss
  Evolves-IsUniqueBy [] [] e n u = tt
  Evolves-IsUniqueBy [] (s ∷ []) e n u = (tt, tt)
  Evolves-IsUniqueBy [] (s ∷ t ∷ ss) e n u = absurd e
  Evolves-IsUniqueBy (r ∷ rs) [] e n u = absurd e
  Evolves-IsUniqueBy (r ∷ rs) (s ∷ ss) e n u =
      let same : c.id s ≡ c.id r = elim e.0 [ inl q ↦ ap c.id q | inr w ↦ w.same_id ] in
      (
        subst (λ a. All (λ z. same_text sv a (c.id z) ≡ false) ss) (sym same)
            (differ_still (c.id r) rs ss e.1 n.0 u.0),
        Evolves-IsUniqueBy rs ss e.1 n.1 u.1,
      )

module _ (env : Env) where
  pub record IsWellFormed (db : Tables) : Type 0 where
    pub task_ids : IsUniqueBy env.server (λ (r : TaskRow). r.task_id) db.tasks
    pub list_ids : IsUniqueBy env.server (λ (r : GroupRow). r.task_list_id) db.groups
    pub sound : All (IsSound env) db.tasks

  -- The identifier of `new_id()` is that of no task and no list.
  abbrev pub IsFresh : Moment → Tables → Type 0
  IsFresh m db =
      IsNew env.server (λ (r : TaskRow). r.task_id) m.new_id db.tasks
      × IsNew env.server (λ (r : GroupRow). r.task_list_id) m.new_id db.groups

  pub IsWellFormed-IsKeyed : (db : Tables) → IsWellFormed db → IsKeyed env db
  IsWellFormed-IsKeyed db w = join-IsKeyed env db w.list_ids w.task_ids

  sound-Reads : (rows : List TaskRow) → All (IsSound env) rows → All (Reads env) rows
  sound-Reads [] s = tt
  sound-Reads (r ∷ rs) s = (columns_suffice env r s.0, sound-Reads rs s.1)

  pub IsWellFormed-Reads : (db : Tables) → IsWellFormed db → All (Reads env) db.tasks
  IsWellFormed-Reads db w = sound-Reads db.tasks w.sound

  IsWellFormed-ReadsByDates : (db : Tables) → IsWellFormed db → ReadsByDates env db
  IsWellFormed-ReadsByDates db w = join-ReadsByDates env db w.list_ids (IsWellFormed-Reads db w)

  module _ (max_age : ℤ) where
    -- The identifiers that a series of calls takes are new when they are taken.
    abbrev pub TakesFresh : List (Call × Moment) → Tables → Type 0
    TakesFresh [] db = Unit
    TakesFresh ((c, m) ∷ calls) db = IsFresh m db × TakesFresh calls (perform env max_age c m db).1

    module _ (law : IsCodec env.codec) where
      pub perform-IsWellFormed :
          (c : Call) (m : Moment) (db : Tables)
          → IsFresh m db
          → IsWellFormed db
          → IsWellFormed (perform env max_age c m db).1
      perform-IsWellFormed c m db f w =
          let s = perform-Step env max_age c m db in
          record {
            task_ids =
                Evolves-IsUniqueBy env.server task_columns env.user_id m.now m.new_id db.tasks _
                  s.tasks f.0 w.task_ids;
            list_ids =
                Evolves-IsUniqueBy env.server group_columns env.user_id m.now m.new_id db.groups _
                  s.groups f.1 w.list_ids;
            sound =
                perform_related env m (KeepsSound env law) (values-IsWriteRelation env law m)
                  max_age c db w.sound;
          }

      -- Tables in which no identifier is repeated and every row has a status and a link that read
      -- stay so under every series of calls whose new identifiers are new; in the tables after it the
      -- join repeats no identifier, and a row of it reads as a task exactly if its due time and its
      -- time of completion are dates that Python has.
      pub run-IsWellFormed :
          (calls : List (Call × Moment)) (db : Tables)
          → TakesFresh calls db
          → IsWellFormed db
          → let db' = run env max_age calls db in
            IsWellFormed db' × IsKeyed env db' × ReadsByDates env db'
      unfolding run
      run-IsWellFormed [] db f w = (w, IsWellFormed-IsKeyed db w, IsWellFormed-ReadsByDates db w)
      run-IsWellFormed ((c, m) ∷ calls) db f w =
          run-IsWellFormed calls (perform env max_age c m db).1 f.1
            (perform-IsWellFormed c m db f.0 w)
