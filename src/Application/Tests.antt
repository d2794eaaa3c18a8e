-- ===== src/Application/Tests.antt =====
-- Starts of the application.
use supernote_task_service.Common.{◌≡◌, refl, none, some, [], ◌∷◌}
use supernote_task_service.Config.{Settings, default_settings}
use supernote_task_service.Database.{Pool, close, close_idle}
use supernote_task_service.Database.Users.{several_users, get_user_id}
use supernote_task_service.Application.{aborted, after_lookup, lifespan, meets}
use supernote_task_service.Application.Boot.{Boots, lifespan_lem}

abbrev defaults : Settings
defaults = default_settings (b'p' ∷ [])

-- Two users, and a connection that the query has left in the queue.
abbrev queried : Pool
queried = record { size = 5; created = 1; idle = 4 ∷ [] }

abbrev emptied : Pool
emptied = record queried { idle = [] }

refused :
    lifespan defaults queried (meets (some (several_users 2))) ≡ aborted (several_users 2) emptied
unfolding lifespan get_user_id after_lookup close close_idle
refused = refl

lifespan_example :
    Boots queried
      (none ∷ [])
      (meets (some (several_users 2)))
      (lifespan defaults queried (meets (some (several_users 2))))
lifespan_example = lifespan_lem defaults queried (meets (some (several_users 2))) (none ∷ [])
