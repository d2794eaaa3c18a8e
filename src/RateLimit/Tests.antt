-- ===== src/RateLimit/Tests.antt =====
-- A limiter of two requests in ten seconds, at a thousand ticks to the second.
use supernote_task_service.Common.{
  ◌≡◌, ◌*◌, min, map, true, false, refl, none, [], ◌∷◌, Text, arith, text_eq,
}
use supernote_task_service.Common.Dict.{lookup, insert}
use supernote_task_service.Common.Int.{pos, at_least_one}
use supernote_task_service.RateLimit.{
  RateLimiter, RateLimitResult, check, charge, init, current, evict_expired,
}
use supernote_task_service.RateLimit.Refines.{IsOrdered, answers, spec_answers, check_refines}
use supernote_task_service.RateLimit.Windows.{IsValid, view, live}
use supernote_task_service.RateLimit.Quota.{History, granted, asked, IsWithin, granted_quota}

abbrev key : Text
key = b'k' ∷ []

abbrev other : Text
other = b'o' ∷ []

abbrev fresh : RateLimiter
fresh = record { limit = 2; window = 10; buckets = [] }

abbrev seen : RateLimiter
seen = record {
  limit = 2;
  window = 10;
  buckets = (key, record { count = 1; reset_at = 20000 }) ∷ [];
}

abbrev arrivals : History
arrivals = (key, 5000) ∷ (other, 6000) ∷ (key, 7000) ∷ (key, 14999) ∷ []

seen-IsValid : IsValid seen
unfolding lookup
seen-IsValid = (refl, tt)

unseen : view fresh key 5000 ≡ none
unfolding view live lookup
unseen = refl

calm : IsWithin 5000 15000 arrivals
calm = (
  omega arith,
  omega arith,
  (omega arith, omega arith, (omega arith, omega arith, (omega arith, omega arith, tt))),
)

granted_quota_example :
    granted 1000 key fresh ((key, 5000) ∷ arrivals) ≡ min 2 (asked key ((key, 5000) ∷ arrivals))
granted_quota_example =
    granted_quota 1000 key 5000 fresh arrivals tt unseen (omega arith) (omega arith) calm

-- The windows of both keys run out, and the third request of a key in its window is refused.
abbrev in_order : History
in_order = (key, 5000) ∷ (key, 6000) ∷ (other, 6500) ∷ (key, 7000) ∷ (key, 15000) ∷ []

ordered : IsOrdered 5000 in_order
ordered = (omega arith, (omega arith, (omega arith, (omega arith, (omega arith, tt)))))

check_refines_example :
    answers 1000 (init (pos 2) (pos 10)) in_order
    ≡ spec_answers 1000 (at_least_one (pos 2)) (at_least_one (pos 10) * 1000) (λ _. none) in_order
check_refines_example = check_refines (pos 2) (pos 10) 1000 5000 in_order ordered

refused :
    map (λ (r : RateLimitResult). r.allowed) (answers 1000 (init (pos 2) (pos 10)) in_order)
    ≡ true ∷ true ∷ true ∷ false ∷ true ∷ []
unfolding answers check charge init current evict_expired text_eq lookup insert
refused = refl
