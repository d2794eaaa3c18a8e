-- ===== src/Database/Users.antt =====
-- The exposed user of db.py: `_resolve_user_id`, `_detect_user_id_from_tasks` and the cache of
-- `get_user_id`, whose lock makes each call one step.
use supernote_task_service.Common.{
  ℕ, Option, none, some, List, [], ◌∷◌, ◌++◌, Text, ◌==◌, if◌then◌else◌, keep, length, first?, any,
}
use supernote_task_service.Sql.{Server, same_text}

-- A row of `u_user`.
pub record UserRow : Type 0 where
  pub user_id : Option ℕ
  pub email : Text

-- `_resolve_user_id` gives a user, or one of its `UserResolutionError`s.
pub data Resolution : Type 0 where
  resolved : ℕ → Resolution
  unknown_email nobody : Resolution
  several_users several_owners : ℕ → Resolution

-- `[r["user_id"] for r in … if r.get("user_id") is not None]`
unfoldable pub user_ids : List UserRow → List ℕ
user_ids [] = []
user_ids (r ∷ rs) = elim r.user_id [ none ↦ user_ids rs | some u ↦ u ∷ user_ids rs ]

-- A set of numbers, as the list of its members without repetition.
unfoldable pub add_once : ℕ → List ℕ → List ℕ
add_once u us = if any (λ v. v == u) us then us else u ∷ us

unfoldable pub distinct : List ℕ → List ℕ
unfolding add_once
distinct [] = []
distinct (u ∷ us) = add_once u (distinct us)

-- The column `user_id` of the two tables, where it may be NULL.
pub record Columns : Type 0 where
  pub of_tasks : List (Option ℕ)
  pub of_lists : List (Option ℕ)

-- `WHERE user_id IS NOT NULL`
unfoldable pub not_null : List (Option ℕ) → List ℕ
not_null [] = []
not_null (none ∷ os) = not_null os
not_null (some u ∷ os) = u ∷ not_null os

-- The owners of the rows of the two tables that have one.
unfoldable pub owners : Columns → List ℕ
unfolding distinct not_null
owners db = distinct (not_null db.of_tasks ++ not_null db.of_lists)

-- `_detect_user_id_from_tasks`
unfoldable pub detect_user_id_from_tasks : Columns → Resolution
detect_user_id_from_tasks db = elim (owners db) [
  | [] ↦ nobody
  | u ∷ us ↦ elim us [ [] ↦ resolved u | v ∷ vs ↦ several_owners (length (u ∷ v ∷ vs)) ]
]

abbrev pub row_resolution : Option UserRow → Resolution
row_resolution none = unknown_email
row_resolution (some r) = elim r.user_id [ none ↦ unknown_email | some u ↦ resolved u ]

-- What follows the query for all users.
abbrev pub sole_user : Columns → List ℕ → Resolution
sole_user db [] = detect_user_id_from_tasks db
sole_user db (u ∷ []) = resolved u
sole_user db (u ∷ v ∷ us) = several_users (length (u ∷ v ∷ us))

-- `_resolve_user_id`, with `SUPERNOTE_USER_EMAIL`; `email` is UNIQUE in `u_user`.
unfoldable pub resolve_user_id : Server → Text → List UserRow → Columns → Resolution
unfolding same_text user_ids
resolve_user_id sv [] users db = sole_user db (user_ids users)
resolve_user_id sv (c ∷ cs) users db =
    row_resolution (first? (keep (λ (r : UserRow). same_text sv r.email (c ∷ cs)) users))

-- How a call of `get_user_id` ends: the user, a `UserResolutionError`, or a `pymysql.Error`.
pub data Lookup : Type 0 where
  exposed : ℕ → Lookup
  misconfigured : Resolution → Lookup
  unavailable : Lookup

-- `get_user_id`, on the cached user and on what the database would answer now: `none` where it is
-- not reached.
unfoldable pub get_user_id : Option ℕ → Option Resolution → Lookup × Option ℕ
get_user_id (some u) attempt = (exposed u, some u)
get_user_id none none = (unavailable, none)
get_user_id none (some (resolved u)) = (exposed u, some u)
get_user_id none (some other) = (misconfigured other, none)

-- The answers of a sequence of calls.
unfoldable pub lookups : Option ℕ → List (Option Resolution) → List Lookup
unfolding get_user_id
lookups cached [] = []
lookups cached (a ∷ as') =
    let (answer, cached') = get_user_id cached a in answer ∷ lookups cached' as'
