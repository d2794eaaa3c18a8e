-- ===== src/Database/Tests.antt =====
-- Three threads on a pool of two connections, and the user of small tables.
use supernote_task_service.Common.{
  ℕ, ◌+◌, ◌≤◌, ◌≡◌, refl, List, [], ◌∷◌, ◌++◌, length, All, Option, none, some, Text, text_eq,
  arith,
}
use supernote_task_service.Sql.{same_text}
use supernote_task_service.Sql.Reference.{reference}
use supernote_task_service.Database.Owners.{queued, in_hands, given, gives, sole_owner}
use supernote_task_service.Database.Users.{
  UserRow, Resolution, resolved, user_ids, add_once, distinct, owners, detect_user_id_from_tasks,
  Columns, not_null, resolve_user_id, exposed, unavailable, get_user_id, lookups,
}
use supernote_task_service.Database.Exposed.{IsExposable, user_id_stable, resolve_user_id_lem}
use supernote_task_service.Database.{
  waiting, using, Outcome, succeeds, fails, next, step_at, run, new_pool, all_outside, release,
  get_nowait, try_reserve_slot, unreserve_slot, get_wait,
}
use supernote_task_service.Database.Slots.{held, slots}
use supernote_task_service.Database.Runs.{
  pool_after, threads_after, open_connections, release_finds_room,
}

-- Two threads connect, as 8 and 9; the third finds the queue empty and the slots taken, and waits.
abbrev crowded : List (ℕ × Outcome)
crowded =
    (0, fails)
    ∷ (1, fails)
    ∷ (0, fails)
    ∷ (1, fails)
    ∷ (0, succeeds 8)
    ∷ (1, succeeds 9)
    ∷ (2, fails)
    ∷ (2, fails)
    ∷ []

crowd : threads_after 2 3 crowded ≡ using 8 ∷ using 9 ∷ waiting ∷ []
unfolding run step_at next get_nowait try_reserve_slot unreserve_slot get_wait release new_pool
    all_outside
crowd = refl

open_connections_example :
    length (pool_after 2 3 crowded).idle + held (threads_after 2 3 crowded) ≤ 2
open_connections_example = open_connections 2 3 crowded

release_finds_room_example :
    release 9 (pool_after 2 3 crowded)
    ≡ record (pool_after 2 3 crowded) { idle = 9 ∷ (pool_after 2 3 crowded).idle }
release_finds_room_example = release_finds_room 2 3 crowded (using 8 ∷ []) (waiting ∷ []) 9 crowd

-- One thread cannot connect; another can, and returns its connection.
abbrev calm : List (ℕ × Outcome)
calm =
    (0, fails)
    ∷ (0, fails)
    ∷ (0, fails)
    ∷ (1, fails)
    ∷ (1, fails)
    ∷ (1, succeeds 9)
    ∷ (1, fails)
    ∷ []

all_gone : held (threads_after 2 3 calm) ≡ 0
unfolding run step_at next get_nowait try_reserve_slot unreserve_slot get_wait release new_pool
    all_outside held slots
all_gone = refl

-- The database is not reached, then names a user, then another.
abbrev attempts : List (Option Resolution)
attempts = none ∷ some (resolved 7) ∷ some (resolved 9) ∷ none ∷ []

answered : lookups none attempts ≡ (unavailable ∷ []) ++ exposed 7 ∷ exposed 7 ∷ exposed 7 ∷ []
unfolding lookups get_user_id
answered = refl

user_id_stable_example : All (λ a. a ≡ exposed 7) (exposed 7 ∷ exposed 7 ∷ [])
user_id_stable_example =
    user_id_stable attempts none 7 (unavailable ∷ []) (exposed 7 ∷ exposed 7 ∷ []) answered

abbrev a_b : Text
a_b = b'a' ∷ b'@' ∷ b'b' ∷ []

abbrev users : List UserRow
users =
    record { user_id = some 6; email = b'c' ∷ [] } ∷ record { user_id = some 7; email = a_b } ∷ []

-- Two rows have no owner.
abbrev owned : Columns
owned = record { of_tasks = some 7 ∷ none ∷ some 7 ∷ []; of_lists = none ∷ [] }

sole : resolve_user_id reference [] [] owned ≡ resolved 7
unfolding resolve_user_id user_ids detect_user_id_from_tasks owners not_null distinct add_once
sole = refl

resolve_user_id_example : IsExposable reference [] [] owned 7
resolve_user_id_example = resolve_user_id_lem reference [] [] owned 7 sole

by_email : resolve_user_id reference a_b users owned ≡ resolved 7
unfolding resolve_user_id same_text text_eq
by_email = refl

sole_owner_example :
    (queued 9 (pool_after 2 3 crowded).idle ≡ 0) × (in_hands 9 ((using 8 ∷ []) ++ waiting ∷ []) ≡ 0)
sole_owner_example =
    sole_owner 9 2 3 crowded (using 8 ∷ []) (waiting ∷ []) (unfold given gives in omega arith) crowd
