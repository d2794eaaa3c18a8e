-- ===== src/RateLimit/Windows.antt =====
-- The window of a key at a clock reading, and what each step of `check` does to it.
use supernote_task_service.Common.{
  ℕ, ◌+◌, ◌*◌, ◌≤◌, ◌≡◌, refl, sym, ap, ◌∙◌, Bool, true, false, Option, none, some, List, [], ◌∷◌,
  arith, Text, text_eq, leb, ltb, if◌then◌else◌,
}
use supernote_task_service.Common.Dict.{
  Dict, lookup, erase, IsDistinct, text_eq_iff, lookup-insert, insert-IsDistinct, lookup-erase,
  erase-IsDistinct,
}
use supernote_task_service.RateLimit.{
  Window, RateLimiter, expired, expired_keys, delete_keys, evict_expired, current, charge, check,
  limit-evict_expired,
}

-- A window that has run out counts for nothing.
unfoldable pub live : ℕ → Option Window → Option Window
live now none = none
live now (some w) = if expired now w then none else some w

unfoldable pub view : RateLimiter → Text → ℕ → Option Window
unfolding live
view l key now = live now (lookup key l.buckets)

abbrev pub IsValid : RateLimiter → Type 0
IsValid l = IsDistinct l.buckets

unfoldable pub contains : Text → List Text → Bool
contains k [] = false
contains k (j ∷ ks) = if text_eq j k then true else contains k ks

lookup-delete_keys :
    (j : Text) (ks : List Text) (d : Dict Window)
    → IsDistinct d
    → lookup j (delete_keys ks d) ≡ (if contains j ks then none else lookup j d)
unfolding delete_keys contains
lookup-delete_keys j [] d h = refl
lookup-delete_keys j (k ∷ ks) d h =
    ground
      (arith, lookup-delete_keys j ks (erase k d) (erase-IsDistinct k d h), lookup-erase k j d h)

delete_keys-IsDistinct :
    (ks : List Text) (d : Dict Window) → IsDistinct d → IsDistinct (delete_keys ks d)
unfolding delete_keys
delete_keys-IsDistinct [] d h = h
delete_keys-IsDistinct (k ∷ ks) d h = delete_keys-IsDistinct ks (erase k d) (erase-IsDistinct k d h)

abbrev has_expired : ℕ → Option Window → Bool
has_expired now none = false
has_expired now (some w) = expired now w

contains-expired_keys :
    (now : ℕ) (j : Text) (d : Dict Window)
    → IsDistinct d
    → contains j (expired_keys now d) ≡ has_expired now (lookup j d)
unfolding contains expired_keys lookup
contains-expired_keys now j [] h = refl
contains-expired_keys now j ((k, w) ∷ d) h =
    ground (arith, contains-expired_keys now j d h.1, text_eq_iff k j)

-- Eviction drops what has run out and nothing else.
pub view-evict_expired :
    (now later : ℕ) (j : Text) (l : RateLimiter)
    → IsValid l
    → now ≤ later
    → view (evict_expired now l) j later ≡ view l j later
unfolding view evict_expired
view-evict_expired now later j l h le = ground (
  arith,
  lookup-delete_keys j (expired_keys now l.buckets) l.buckets h,
  contains-expired_keys now j l.buckets h,
)

pub evict_expired-IsValid : (now : ℕ) (l : RateLimiter) → IsValid l → IsValid (evict_expired now l)
unfolding evict_expired
evict_expired-IsValid now l h =
    ground (arith, delete_keys-IsDistinct (expired_keys now l.buckets) l.buckets h)

pub current-live :
    (span now : ℕ) (o : Option Window) → current span now (live now o) ≡ current span now o
unfolding current live
current-live span now o = ground arith

-- The window that answers a request at `now`.
unfoldable pub window_of : ℕ → Text → ℕ → RateLimiter → Window
window_of res k now l = current (l.window * res) now (view l k now)

-- The window after that answer.
unfoldable pub counted : ℕ → Window → Window
counted limit w = if leb limit w.count then w else record w { count = w.count + 1 }

charge-IsValid :
    (res : ℕ) (k : Text) (now : ℕ) (l : RateLimiter) (w : Window)
    → IsValid l
    → IsValid (charge res k now l w).0
unfolding charge
charge-IsValid res k now l w h = ground (
  arith,
  insert-IsDistinct k w l.buckets h,
  insert-IsDistinct k (record w { count = w.count + 1 }) l.buckets h,
)

pub check-IsValid :
    (res : ℕ) (k : Text) (now : ℕ) (l : RateLimiter) → IsValid l → IsValid (check res k now l).0
unfolding check
check-IsValid res k now l h =
    charge-IsValid res k now (evict_expired now l) _ (evict_expired-IsValid now l h)

lookup-charge :
    (res : ℕ) (k j : Text) (now : ℕ) (l : RateLimiter) (w : Window)
    → lookup j (charge res k now l w).0.buckets
      ≡ (if text_eq k j then some (counted l.limit w) else lookup j l.buckets)
unfolding charge counted
lookup-charge res k j now l w = ground (
  arith,
  lookup-insert k j w l.buckets,
  lookup-insert k j (record w { count = w.count + 1 }) l.buckets,
)

pub current-view_evicted :
    (res : ℕ) (k : Text) (now : ℕ) (l : RateLimiter)
    → IsValid l
    → current (l.window * res) now (lookup k (evict_expired now l).buckets) ≡ window_of res k now l
unfolding window_of
current-view_evicted res k now l h =
    sym (current-live (l.window * res) now (lookup k (evict_expired now l).buckets))
    ∙ ap (current (l.window * res) now)
        (unfold view in view-evict_expired now now k l h (omega arith))

-- The request is allowed exactly while its window has room.
pub allowed-check :
    (res : ℕ) (k : Text) (now : ℕ) (l : RateLimiter)
    → IsValid l
    → (check res k now l).1.allowed ≡ ltb (window_of res k now l).count l.limit
unfolding check charge
allowed-check res k now l h =
    ground (arith, current-view_evicted res k now l h, limit-evict_expired now l)

pub lookup-check :
    (res : ℕ) (k j : Text) (now : ℕ) (l : RateLimiter)
    → IsValid l
    → lookup j (check res k now l).0.buckets ≡ (
        if text_eq k j
        then some (counted l.limit (window_of res k now l))
        else lookup j (evict_expired now l).buckets)
unfolding check
lookup-check res k j now l h = ground (
  arith,
  current-view_evicted res k now l h,
  limit-evict_expired now l,
  lookup-charge res k j now (evict_expired now l)
      (current (l.window * res) now (lookup k (evict_expired now l).buckets)),
)

-- The windows after a request to a valid limiter, at its time or later: that of its key has counted
-- it, if it was not full, and the others are as they were.
pub view-check :
    (res : ℕ) (k j : Text) (now later : ℕ) (l : RateLimiter)
    → IsValid l
    → now ≤ later
    → view (check res k now l).0 j later ≡ (
        if text_eq k j
        then live later (some (counted l.limit (window_of res k now l)))
        else view l j later)
unfolding view
view-check res k j now later l h le =
    ground (arith, lookup-check res k j now l h, view-evict_expired now later j l h le)
