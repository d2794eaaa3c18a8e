-- ===== src/RateLimit.antt =====
-- src/supernote_task_service/ratelimit.py: the in-memory fixed-window limiter. A clock reading is a
-- count of ticks, `resolution` of them to a second; the lock makes each `check` one step.
pub mod Windows
pub mod Quota
pub mod Refines
mod Tests
use supernote_task_service.Common.{
  ℕ, ◌≡◌, arith, ◌+◌, ◌-◌, ◌*◌, ◌/◌, ◌%◌, max, Bool, true, false, Option, none, some, List, [], ◌∷◌,
  Text, ltb, leb, if◌then◌else◌, length,
}
use supernote_task_service.Common.Int.{ℤ, at_least_one}
use supernote_task_service.Common.Dict.{Dict, lookup, insert, erase}

pub record Window : Type 0 where
  pub count : ℕ
  pub reset_at : ℕ

pub record RateLimitResult : Type 0 where
  pub allowed : Bool
  pub remaining : ℕ
  pub retry_after : ℕ

pub record RateLimiter : Type 0 where
  pub limit : ℕ
  pub window : ℕ
  pub buckets : Dict Window

-- `RateLimiter.__init__`
unfoldable pub init : ℤ → ℤ → RateLimiter
init limit window_seconds = record {
  limit = at_least_one limit;
  window = at_least_one window_seconds;
  buckets = [];
}

-- `now >= w.reset_at`
abbrev pub expired : ℕ → Window → Bool
expired now w = leb w.reset_at now

-- The comprehension of `_evict_expired`.
unfoldable pub expired_keys : ℕ → Dict Window → List Text
expired_keys now [] = []
expired_keys now ((k, w) ∷ d) = if expired now w then k ∷ expired_keys now d else expired_keys now d

-- `for k in expired: del self._buckets[k]`
unfoldable pub delete_keys : List Text → Dict Window → Dict Window
delete_keys [] d = d
delete_keys (k ∷ ks) d = delete_keys ks (erase k d)

unfoldable pub evict_expired : ℕ → RateLimiter → RateLimiter
unfolding expired_keys delete_keys
evict_expired now l =
    if ltb (length l.buckets) 1024
    then l
    else record l { buckets = delete_keys (expired_keys now l.buckets) l.buckets }

-- `round(ticks / resolution)`: to the nearest second, and to the even one of two.
unfoldable pub round : ℕ → ℕ → ℕ
round resolution ticks =
    let q = ticks / resolution in
    let twice = 2 * (ticks % resolution) in
    if ltb twice resolution then q else if ltb resolution twice then q + 1 else q + q % 2

-- The window that counts a request at `now`: a new one if there is none or it has run out.
unfoldable pub current : ℕ → ℕ → Option Window → Window
current span now none = record { count = 0; reset_at = now + span }
current span now (some w) = if expired now w then record { count = 0; reset_at = now + span } else w

-- The rest of `check`, on the window of the key. The dictionary holds the window object itself, so
-- the increment is a write to the dictionary.
unfoldable pub charge : ℕ → Text → ℕ → RateLimiter → Window → RateLimiter × RateLimitResult
unfolding round
charge resolution key now l w =
    if leb l.limit w.count
    then (
      record l { buckets = insert key w l.buckets },
      record {
        allowed = false;
        remaining = 0;
        retry_after = max 1 (round resolution (w.reset_at - now));
      },
    )
    else (
      record l { buckets = insert key (record w { count = w.count + 1 }) l.buckets },
      record { allowed = true; remaining = l.limit - (w.count + 1); retry_after = 0 },
    )

-- `check`
unfoldable pub check : ℕ → Text → ℕ → RateLimiter → RateLimiter × RateLimitResult
check resolution key now l =
    let l' = evict_expired now l in
    charge resolution key now l' (current (l.window * resolution) now (lookup key l'.buckets))

limit-evict_expired : (now : ℕ) (l : RateLimiter) → (evict_expired now l).limit ≡ l.limit
unfolding evict_expired
limit-evict_expired now l = ground arith

window-evict_expired : (now : ℕ) (l : RateLimiter) → (evict_expired now l).window ≡ l.window
unfolding evict_expired
window-evict_expired now l = ground arith

-- A request leaves the configuration alone.
pub limit-check :
    (res : ℕ) (k : Text) (now : ℕ) (l : RateLimiter) → (check res k now l).0.limit ≡ l.limit
unfolding check charge
limit-check res k now l = ground (arith, limit-evict_expired now l)

pub window-check :
    (res : ℕ) (k : Text) (now : ℕ) (l : RateLimiter) → (check res k now l).0.window ≡ l.window
unfolding check charge
window-check res k now l = ground (arith, window-evict_expired now l)
