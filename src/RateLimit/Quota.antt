-- ===== src/RateLimit/Quota.antt =====
-- Histories of requests: how many of those with one key are allowed in one window.
use supernote_task_service.Common.{
  ℕ, ◌+◌, ◌-◌, ◌*◌, ◌≤◌, ◌<◌, ◌≡◌, none, some, List, [], ◌∷◌, arith, Text, text_eq, text_eq_sound,
  if◌then◌else◌, min, Bool-cases, inl, inr,
}
use supernote_task_service.Common.Int.{ℤ}
use supernote_task_service.Common.Dict.{text_eq_iff}
use supernote_task_service.RateLimit.{Window, RateLimiter, init, current, check, limit-check}
use supernote_task_service.RateLimit.Windows.{
  live, view, IsValid, window_of, counted, check-IsValid, allowed-check, view-check,
}

-- A history is the keys and the clock readings of its requests.
abbrev pub History : Type 0
History = List (Text × ℕ)

-- How many requests of the history carry the key.
unfoldable pub asked : Text → History → ℕ
asked k [] = 0
asked k ((j, t) ∷ h) = (if text_eq j k then 1 else 0) + asked k h

-- How many of them the limiter allows.
unfoldable pub granted : ℕ → Text → RateLimiter → History → ℕ
granted res k l [] = 0
granted res k l ((j, t) ∷ h) =
    let (l', r) = check res j t l in
    (if text_eq j k then (if r.allowed then 1 else 0) else 0) + granted res k l' h

-- Readings that do not fall, from one on, and stay below a bound.
abbrev pub IsWithin : ℕ → ℕ → History → Type 0
IsWithin from bound [] = Unit
IsWithin from bound ((k, t) ∷ h) = (from ≤ t) × (t < bound) × IsWithin t bound h

view-later :
    (l : RateLimiter) (k : Text) (now later : ℕ) (w : Window)
    → view l k now ≡ some w
    → later < w.reset_at
    → view l k later ≡ some w
unfolding view live
view-later l k now later w e h = ground arith

window_of_live :
    (res : ℕ) (k : Text) (now : ℕ) (w : Window) (l : RateLimiter)
    → view l k now ≡ some w
    → now < w.reset_at
    → window_of res k now l ≡ w
unfolding window_of current
window_of_live res k now w l e lt = ground arith

view-check_self :
    (res : ℕ) (k : Text) (now : ℕ) (w : Window) (l : RateLimiter)
    → IsValid l
    → window_of res k now l ≡ w
    → now < w.reset_at
    → view (check res k now l).0 k now ≡ some (counted l.limit w)
unfolding live counted
view-check_self res k now w l v e lt =
    ground (arith, view-check res k k now now l v, text_eq_iff k k)

-- Requests that arrive while the window of the key stands are allowed up to what it has left.
pub granted_in_window :
    (res : ℕ) (k : Text) (now : ℕ) (w : Window) (l : RateLimiter) (h : History)
    → IsValid l
    → view l k now ≡ some w
    → IsWithin now w.reset_at h
    → granted res k l h ≡ min (l.limit - w.count) (asked k h)
unfolding granted asked counted
granted_in_window res k now w l [] v e i = omega arith
granted_in_window res k now w l ((j, t) ∷ h) v e i =
    let (l', r) = check res j t l in
    let v' : IsValid l' = check-IsValid res j t l v in
    let here : view l k t ≡ some w = view-later l k now t w e i.1 in
    elim (Bool-cases (text_eq j k)) [
      | inl same ↦
          let at : window_of res j t l ≡ w =
            window_of_live res j t w l (rw (text_eq_sound j k same) here) i.1 in
          let after : view l' k t ≡ some (counted l.limit w) =
            rw (← text_eq_sound j k same) (view-check_self res j t w l v at i.1) in
          ground (
            arith,
            allowed-check res j t l v,
            limit-check res j t l,
            granted_in_window res k t (counted l.limit w) l' h v' after,
          )
      | inr other ↦
          let after : view l' k t ≡ some w = ground (arith, view-check res j k t t l v) in
          ground (arith, limit-check res j t l, granted_in_window res k t w l' h v' after)
    ]

-- A key without a standing window, on a valid limiter whose limit and window are not 0: its first
-- request opens a window, and of the requests with the key from that one on, in the order of their
-- times and before the end of that window, exactly the smaller of the limit and their number is
-- allowed, whatever requests with other keys come in between.
pub granted_quota :
    (res : ℕ) (k : Text) (now : ℕ) (l : RateLimiter) (h : History)
    → IsValid l
    → view l k now ≡ none
    → 0 < l.window * res
    → 0 < l.limit
    → IsWithin now (now + l.window * res) h
    → granted res k l ((k, now) ∷ h) ≡ min l.limit (asked k ((k, now) ∷ h))
unfolding granted asked counted window_of current
granted_quota res k now l h v e span room i =
    let first : Window = record { count = 1; reset_at = now + l.window * res } in
    let after : view (check res k now l).0 k now ≡ some first = ground (
      arith,
      view-check_self res k now (record { count = 0; reset_at = now + l.window * res }) l v,
    ) in
    ground (
      arith,
      text_eq_iff k k,
      allowed-check res k now l v,
      limit-check res k now l,
      granted_in_window res k now first (check res k now l).0 h (check-IsValid res k now l v) after,
    )

-- Every limiter that the service creates is valid, and has room for a request in a window.
pub init_lem :
    (limit window : ℤ)
    → IsValid (init limit window)
      × (0 < (init limit window).limit)
      × (0 < (init limit window).window)
unfolding init
init_lem limit window = ground arith
