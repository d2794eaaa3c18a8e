-- ===== src/Application.antt =====
-- The life of the application: `_lifespan` and `create_app` of main.py, the probes of
-- routers/health.py, and `close` of db.py.
pub mod Boot
mod Tests
use supernote_task_service.Common.{
  ℕ, Bool, true, false, Option, none, some, List, [], ◌∷◌, Text, if◌then◌else◌,
}
use supernote_task_service.Config.{Settings, has_api_keys}
use supernote_task_service.Database.{Pool, close}
use supernote_task_service.Database.Users.{
  Resolution, Lookup, exposed, misconfigured, unavailable, get_user_id,
}
use supernote_task_service.RateLimit.{RateLimiter, init}

-- What `app.state` holds, with the pool and the cached user of its database.
pub record App : Type 0 where
  pub settings : Settings
  pub pool : Pool
  pub user : Option ℕ
  pub limiter : RateLimiter

-- What the first call of `get_user_id` meets: what the database answers, or `none` if it is not
-- reached; or an exception that is neither a `UserResolutionError` nor a `pymysql.Error`.
pub data Attempt : Type 0 where
  meets : Option Resolution → Attempt
  crashes : Attempt

-- The application serves, or the start ends with the error and the pool that is left: closed behind a
-- `UserResolutionError`, and as it was behind another exception.
pub data Start : Type 0 where
  started : App → Start
  aborted : Resolution → Pool → Start
  crashed : Pool → Start

-- What `_lifespan` makes of the answer, with the user that is then cached.
unfoldable pub after_lookup : Settings → Pool → Lookup × Option ℕ → Start
after_lookup s p (answer, cached) =
    let app : App = record {
      settings = s;
      pool = p;
      user = cached;
      limiter = init s.unauth_rate_limit_requests s.rate_limit_window_seconds;
    } in
    elim answer [
      | exposed u ↦ started app
      | misconfigured why ↦ aborted why (close p).0
      | unavailable ↦ started app
    ]

-- `_lifespan` up to its `yield`: the first call of `get_user_id`, which leaves the pool `p`.
unfoldable pub lifespan : Settings → Pool → Attempt → Start
unfolding get_user_id after_lookup
lifespan s p (meets attempt) = after_lookup s p (get_user_id none attempt)
lifespan s p crashes = crashed p

-- `_lifespan` behind its `yield`
unfoldable pub shutdown : App → App
shutdown app = record app { pool = (close app.pool).0 }

-- `docs_url` and `openapi_url` of `create_app`: whether the documentation is served.
unfoldable pub serves_docs : Settings → Bool
serves_docs s = s.enable_docs

-- The warning of `create_app`.
unfoldable pub warns_of_no_keys : (Text → Text) → Settings → Bool
warns_of_no_keys digest s = if has_api_keys digest s then false else true

-- The words `ok`, `ready` and `unavailable`
pub data Probe : Type 0 where
  alive ready not_ready : Probe

-- `readyz`, on whether `ping` raised a `pymysql.Error`: the status and the body's word.
unfoldable pub readyz : Bool → ℕ × Probe
readyz true = (503, not_ready)
readyz false = (200, ready)

-- `healthz`
unfoldable pub healthz : ℕ × Probe
healthz = (200, alive)

-- `__version__`
abbrev version_text : Text
version_text = b'0' ∷ b'.' ∷ b'5' ∷ b'.' ∷ b'1' ∷ []

-- `version`
unfoldable pub version : ℕ × Text
version = (200, version_text)
