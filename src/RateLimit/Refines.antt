-- ===== src/RateLimit/Refines.antt =====
-- The limiter against its specification: a window for each key, and no eviction.
use supernote_task_service.Common.{
  ℕ, ◌+◌, ◌-◌, ◌*◌, ◌≤◌, ◌≡◌, ◌∙◌, refl, sym, ap, max, true, false, Option, none, some, List, [],
  ◌∷◌, arith, Text, text_eq, ltb, if◌then◌else◌,
}
use supernote_task_service.Common.Int.{ℤ, at_least_one}
use supernote_task_service.Common.Dict.{lookup}
use supernote_task_service.RateLimit.{
  Window, RateLimitResult, RateLimiter, init, current, charge, check, round, limit-check,
  window-check, limit-evict_expired,
}
use supernote_task_service.RateLimit.Windows.{
  live, view, IsValid, window_of, counted, current-view_evicted, view-check, check-IsValid,
  current-live,
}
use supernote_task_service.RateLimit.Quota.{History}

-- The specification's state: the last window of each key.
abbrev pub Spec : Type 0
Spec = Text → Option Window

-- The answer to a request that finds a window.
unfoldable pub answer : (res limit now : ℕ) → Window → RateLimitResult
answer res limit now w =
    if ltb w.count limit
    then record { allowed = true; remaining = limit - (w.count + 1); retry_after = 0 }
    else record {
      allowed = false;
      remaining = 0;
      retry_after = max 1 (round res (w.reset_at - now));
    }

-- The window that counts a request: the last one, or a new one from the request on if there is none
-- or it ends by then.
unfoldable pub renewed : (span now : ℕ) → Option Window → Window
renewed span now none = record { count = 0; reset_at = now + span }
renewed span now (some w) =
    if ltb now w.reset_at then w else record { count = 0; reset_at = now + span }

abbrev pub spec_window : (span : ℕ) → Text → ℕ → Spec → Window
spec_window span k now f = renewed span now (f k)

abbrev pub spec_next : (limit span : ℕ) → Text → ℕ → Spec → Spec
spec_next limit span k now f j =
    if text_eq k j then some (counted limit (spec_window span k now f)) else f j

-- What the specification answers to the requests of a history.
unfoldable pub spec_answers : (res limit span : ℕ) → Spec → History → List RateLimitResult
spec_answers res limit span f [] = []
spec_answers res limit span f ((k, now) ∷ h) =
    answer res limit now (spec_window span k now f)
    ∷ spec_answers res limit span (spec_next limit span k now f) h

-- What the limiter answers.
unfoldable pub answers : ℕ → RateLimiter → History → List RateLimitResult
answers res l [] = []
answers res l ((k, now) ∷ h) = let (l', r) = check res k now l in r ∷ answers res l' h

-- Readings that do not fall, from one on.
abbrev pub IsOrdered : ℕ → History → Type 0
IsOrdered from [] = Unit
IsOrdered from ((k, now) ∷ h) = (from ≤ now) × IsOrdered now h

-- The limiter shows what the specification keeps.
abbrev Shows : RateLimiter → Spec → ℕ → Type 0
Shows l f now = (j : Text) → view l j now ≡ live now (f j)

check-answer :
    (res : ℕ) (k : Text) (now : ℕ) (l : RateLimiter)
    → IsValid l
    → (check res k now l).1 ≡ answer res l.limit now (window_of res k now l)
unfolding check charge answer
check-answer res k now l v =
    ground (arith, current-view_evicted res k now l v, limit-evict_expired now l)

live-live :
    (now later : ℕ) (o : Option Window) → now ≤ later → live later (live now o) ≡ live later o
unfolding live
live-live now later o le = ground arith

-- What the limiter shows it goes on showing.
Shows-later :
    (now later : ℕ) (l : RateLimiter) (f : Spec) → now ≤ later → Shows l f now → Shows l f later
unfolding view
Shows-later now later l f le s j =
    sym (live-live now later (lookup j l.buckets) le)
    ∙ ap (live later) (s j)
    ∙ live-live now later (f j) le

current-renewed : (span now : ℕ) (o : Option Window) → current span now o ≡ renewed span now o
unfolding current renewed
current-renewed span now none = refl
current-renewed span now (some w) = ground arith

window_of-spec_window :
    (res : ℕ) (k : Text) (now : ℕ) (l : RateLimiter) (f : Spec)
    → Shows l f now
    → window_of res k now l ≡ spec_window (l.window * res) k now f
unfolding window_of
window_of-spec_window res k now l f s =
    ap (current (l.window * res) now) (s k)
    ∙ current-live (l.window * res) now (f k)
    ∙ current-renewed (l.window * res) now (f k)

Shows-check :
    (res : ℕ) (k : Text) (now : ℕ) (l : RateLimiter) (f : Spec)
    → IsValid l
    → Shows l f now
    → Shows (check res k now l).0 (spec_next l.limit (l.window * res) k now f) now
Shows-check res k now l f v s j =
    ground (arith, view-check res k j now now l v, window_of-spec_window res k now l f s, s j)

answers_refine :
    (res now : ℕ) (l : RateLimiter) (f : Spec) (h : History)
    → IsValid l
    → Shows l f now
    → IsOrdered now h
    → answers res l h ≡ spec_answers res l.limit (l.window * res) f h
unfolding answers spec_answers
answers_refine res now l f [] v s o = refl
answers_refine res now l f ((k, t) ∷ h) v s o =
    let shown : Shows l f t = Shows-later now t l f o.0 s in
    let first : (check res k t l).1 ≡ answer res l.limit t (spec_window (l.window * res) k t f) =
      check-answer res k t l v
      ∙ ap (answer res l.limit t) (window_of-spec_window res k t l f shown) in
    let others =
      answers_refine res t (check res k t l).0 (spec_next l.limit (l.window * res) k t f) h
        (check-IsValid res k t l v) (Shows-check res k t l f v shown) o.1 in
    rw first (
      ap (λ rs. answer res l.limit t (spec_window (l.window * res) k t f) ∷ rs)
        (rw (limit-check res k t l, window-check res k t l) at others))

-- From `RateLimiter.__init__` on, and at clock readings that do not fall, the limiter gives the
-- answers of its specification, which keeps one window for each key and evicts none.
pub check_refines :
    (limit window : ℤ) (res now : ℕ) (h : History)
    → IsOrdered now h
    → answers res (init limit window) h
      ≡ spec_answers res (at_least_one limit) (at_least_one window * res) (λ _. none) h
unfolding init
check_refines limit window res now h o =
    answers_refine res now (init limit window) (λ _. none) h tt
      (λ j. unfold view live lookup in refl) o
