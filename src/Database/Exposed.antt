-- ===== src/Database/Exposed.antt =====
-- Which user db.py exposes, and that it does not change.
use mathlib.Core.Path.{subst}
use supernote_task_service.Common.{
  ℕ, ◌≡◌, ap, ◌∙◌, refl, true, Option, none, some, List, [], ◌∷◌, ◌++◌, Text, ◌==◌, keep, first?,
  any, All, Mem, arith, ◌⊎◌, inl, inr, Bool-cases,
}
use supernote_task_service.Common.Members.{mem-keep, mem-first?}
use supernote_task_service.Sql.{Server, same_text}
use supernote_task_service.Database.Users.{
  UserRow, Resolution, resolved, user_ids, add_once, distinct, owners, Columns, not_null,
  detect_user_id_from_tasks, resolve_user_id, sole_user, row_resolution, Lookup, exposed,
  get_user_id, lookups,
}

distinct-nil : (us : List ℕ) → distinct us ≡ [] → us ≡ []
unfolding distinct add_once
distinct-nil [] e = refl
distinct-nil (u ∷ us) e = elim (Bool-cases (any (λ v. v == u) (distinct us))) [
  | inl there ↦ let none_left = distinct-nil us (rw there at e) in ground arith
  | inr new ↦ let absent = rw new at e in cc
]

distinct-sole : (us : List ℕ) (v : ℕ) → distinct us ≡ v ∷ [] → All (λ u. u ≡ v) us
unfolding distinct add_once
distinct-sole [] v e = tt
distinct-sole (u ∷ us) v e = elim (Bool-cases (any (λ w. w == u) (distinct us))) [
  | inl there ↦
      let one : distinct us ≡ v ∷ [] = rw there at e in (ground arith, distinct-sole us v one)
  | inr new ↦
      let both : ◌≡◌ {A = List ℕ} (u ∷ distinct us) (v ∷ []) = rw new at e in
      let empty = distinct-nil us (cc) in (cc, rw empty tt)
]

pub lookups_exposed :
    (u : ℕ) (attempts : List (Option Resolution))
    → All (λ a. a ≡ exposed u) (lookups (some u) attempts)
unfolding lookups get_user_id
lookups_exposed u [] = tt
lookups_exposed u (a ∷ as') = (refl, lookups_exposed u as')

exposed-cached :
    (cached : Option ℕ) (a : Option Resolution) (u : ℕ)
    → (get_user_id cached a).0 ≡ exposed u
    → (get_user_id cached a).1 ≡ some u
unfolding get_user_id
exposed-cached cached a u e = ground arith

-- Once a call has answered with a user, every later call answers with the same, whatever the database
-- holds by then and whether or not it is reached.
pub user_id_stable :
    (attempts : List (Option Resolution)) (cached : Option ℕ) (u : ℕ) (before after : List Lookup)
    → lookups cached attempts ≡ before ++ exposed u ∷ after
    → All (λ a. a ≡ exposed u) after
unfolding lookups
user_id_stable [] cached u [] after e = cc
user_id_stable [] cached u (b ∷ before) after e = cc
user_id_stable (a ∷ as') cached u [] after e =
    let kept : (get_user_id cached a).1 ≡ some u = exposed-cached cached a u (cc) in
    let rest : lookups (some u) as' ≡ after = rw (← kept) (cc) in
    subst (All (λ a. a ≡ exposed u)) rest (lookups_exposed u as')
user_id_stable (a ∷ as') cached u (b ∷ before) after e =
    user_id_stable as' (get_user_id cached a).1 u before after (cc)

-- Every row that has an owner has this one.
abbrev pub OwnedBy : ℕ → Columns → Type 0
OwnedBy u db =
    All (λ o. (o ≡ none) ⊎ (o ≡ some u)) db.of_tasks
    × All (λ o. (o ≡ none) ⊎ (o ≡ some u)) db.of_lists

All-not_null :
    (u : ℕ) (os : List (Option ℕ))
    → All (λ v. v ≡ u) (not_null os)
    → All (λ o. (o ≡ none) ⊎ (o ≡ some u)) os
unfolding not_null
All-not_null u [] h = tt
All-not_null u (none ∷ os) h = (inl refl, All-not_null u os h)
All-not_null u (some v ∷ os) h = (inr (ap some h.0), All-not_null u os h.1)

All-split :
    (u : ℕ) (us vs : List ℕ)
    → All (λ v. v ≡ u) (us ++ vs)
    → All (λ v. v ≡ u) us × All (λ v. v ≡ u) vs
All-split u [] vs h = (tt, h)
All-split u (w ∷ us) vs h = let rest = All-split u us vs h.1 in ((h.0, rest.0), rest.1)

resolve_sole_user :
    (sv : Server) (users : List UserRow) (db : Columns) (u : ℕ)
    → resolve_user_id sv [] users db ≡ resolved u
    → (user_ids users ≡ u ∷ []) ⊎ ((user_ids users ≡ []) × OwnedBy u db)
unfolding resolve_user_id
resolve_sole_user sv users db u e = by_ids (user_ids users) e
  where
    by_owners :
        (os : List ℕ) → owners db ≡ os → detect_user_id_from_tasks db ≡ resolved u → OwnedBy u db
    by_owners [] p f = unfold detect_user_id_from_tasks in ground arith
    by_owners (v ∷ []) p f =
        let same : v ≡ u = unfold detect_user_id_from_tasks in ground arith in
        let sole : owners db ≡ u ∷ [] = p ∙ ap (λ w. w ∷ []) same in
        (let (ts, gs) =
            All-split u (not_null db.of_tasks) (not_null db.of_lists)
              (distinct-sole _ u (unfold owners in sole)) in
          (All-not_null u db.of_tasks ts, All-not_null u db.of_lists gs))
    by_owners (v ∷ w ∷ os) p f = unfold detect_user_id_from_tasks in ground arith

    by_ids :
        (ids : List ℕ)
        → sole_user db ids ≡ resolved u
        → (ids ≡ u ∷ []) ⊎ ((ids ≡ []) × OwnedBy u db)
    by_ids [] f = inr (refl, by_owners (owners db) refl f)
    by_ids (v ∷ []) f = inl (cc)
    by_ids (v ∷ w ∷ ids) f = cc

resolve_by_email :
    (sv : Server) (c : ℕ) (cs : Text) (users : List UserRow) (db : Columns) (u : ℕ)
    → resolve_user_id sv (c ∷ cs) users db ≡ resolved u
    → (r : UserRow) × Mem r users × (same_text sv r.email (c ∷ cs) ≡ true) × (r.user_id ≡ some u)
unfolding resolve_user_id
resolve_by_email sv c cs users db u e =
    found (first? (keep (λ (r : UserRow). same_text sv r.email (c ∷ cs)) users)) refl e
  where
    found :
        (o : Option UserRow)
        → first? (keep (λ (r : UserRow). same_text sv r.email (c ∷ cs)) users) ≡ o
        → row_resolution o ≡ resolved u
        → (r : UserRow) × Mem r users
          × (same_text sv r.email (c ∷ cs) ≡ true)
          × (r.user_id ≡ some u)
    found none p f = cc
    found (some r) p f =
        let kept =
          mem-keep (λ (s : UserRow). same_text sv s.email (c ∷ cs)) users (mem-first? _ p) in
        (r, kept.0, kept.1, ground arith)

-- Whom the service may expose. Without a configured address: the only user of `u_user`, or, if that
-- has no identifiers, the owner of all tasks and task lists that have one. With one: the user of a
-- row with that address.
abbrev pub IsExposable : Server → Text → List UserRow → Columns → ℕ → Type 0
IsExposable sv [] users db u = (user_ids users ≡ u ∷ []) ⊎ ((user_ids users ≡ []) × OwnedBy u db)
IsExposable sv (c ∷ cs) users db u =
    (r : UserRow) × Mem r users × (same_text sv r.email (c ∷ cs) ≡ true) × (r.user_id ≡ some u)

-- A user that is resolved may be exposed: without a configured address it is the only user of
-- `u_user`, or, if that has no identifiers, the owner of all tasks and task lists that have one;
-- with one it is the user of a row of `u_user` with that address.
pub resolve_user_id_lem :
    (sv : Server) (email : Text) (users : List UserRow) (db : Columns) (u : ℕ)
    → resolve_user_id sv email users db ≡ resolved u
    → IsExposable sv email users db u
resolve_user_id_lem sv [] users db u e = resolve_sole_user sv users db u e
resolve_user_id_lem sv (c ∷ cs) users db u e = resolve_by_email sv c cs users db u e
