-- ===== src/Application/Boot.antt =====
-- What a start of the application promises of the requests that follow.
use supernote_task_service.Common.{ℕ, ◌≡◌, refl, Option, none, some, List, [], ◌∷◌, All}
use supernote_task_service.Config.{Settings}
use supernote_task_service.Database.{Pool, close, close_idle}
use supernote_task_service.Database.Users.{
  Resolution, resolved, unknown_email, nobody, several_users, several_owners, get_user_id, lookups,
  exposed, misconfigured,
}
use supernote_task_service.Application.{
  App, Attempt, meets, crashes, Start, started, aborted, crashed, after_lookup, lifespan,
}
use supernote_task_service.Database.Exposed.{lookups_exposed}

close_idle-empties : (cs closed : List ℕ) → (close_idle cs closed).0 ≡ []
unfolding close_idle
close_idle-empties [] closed = refl
close_idle-empties (c ∷ cs) closed = close_idle-empties cs (c ∷ closed)

-- How a start ends, by what its call of `get_user_id` meets. With a user: the application serves, and
-- every later call of `get_user_id` answers with this user. Without the database: it serves, and
-- later calls resolve the user. Without a user in it, or with another exception: it does not serve.
abbrev pub Boots : Pool → List (Option Resolution) → Attempt → Start → Type 0
Boots p later (meets none) start =
    (app : App) × (start ≡ started app)
    × (app.pool ≡ p)
    × (lookups app.user later ≡ lookups none later)
Boots p later (meets (some (resolved u))) start =
    (app : App) × (start ≡ started app)
    × (app.pool ≡ p)
    × All (λ a. a ≡ exposed u) (lookups app.user later)
Boots p later (meets (some why)) start =
    (q : Pool) × (start ≡ aborted why q) × (q.idle ≡ []) × (q.created ≡ p.created)
Boots p later crashes start = start ≡ crashed p

turned_down :
    (s : Settings) (p : Pool) (why : Resolution)
    → (q : Pool) × (after_lookup s p (misconfigured why, none) ≡ aborted why q)
      × (q.idle ≡ [])
      × (q.created ≡ p.created)
unfolding after_lookup close
turned_down s p why = ((close p).0, refl, close_idle-empties p.idle [], refl)

-- A start serves if the user is resolved, which is then the user of every later call of
-- `get_user_id`, or if the database is not reached, in which case later calls resolve the user. If
-- the database answers without a user, the start is aborted with this answer, and no connection of
-- the pool is idle. Behind any other exception it is aborted with the pool as it is.
pub lifespan_lem :
    (s : Settings) (p : Pool) (attempt : Attempt) (later : List (Option Resolution))
    → Boots p later attempt (lifespan s p attempt)
unfolding lifespan get_user_id after_lookup
lifespan_lem s p (meets none) later = (_, refl, refl, refl)
lifespan_lem s p (meets (some (resolved u))) later = (_, refl, refl, lookups_exposed u later)
lifespan_lem s p (meets (some unknown_email)) later = turned_down s p unknown_email
lifespan_lem s p (meets (some nobody)) later = turned_down s p nobody
lifespan_lem s p (meets (some (several_users n))) later = turned_down s p (several_users n)
lifespan_lem s p (meets (some (several_owners n))) later = turned_down s p (several_owners n)
lifespan_lem s p crashes later = refl
