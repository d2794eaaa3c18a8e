-- ===== src/Http/Quota.antt =====
-- deps.py over a sequence of requests: how many 401 answers an address can get.
use supernote_task_service.Common.{
  ℕ, ◌+◌, ◌*◌, ◌<◌, ◌≡◌, ◌∙◌, refl, min, Bool, true, false, none, some, List, [], ◌∷◌, arith, Text,
  text_eq, if◌then◌else◌, Option-cases, inl, inr,
}
use supernote_task_service.RateLimit.{RateLimiter, check}
use supernote_task_service.RateLimit.Windows.{IsValid, view}
use supernote_task_service.RateLimit.Quota.{History, granted, asked, IsWithin, granted_quota}
use supernote_task_service.Security.{validate_api_key}
use supernote_task_service.Http.Failures.{Result, ok, raised, unauthenticated}
use supernote_task_service.Http.Deps.{Request, client_ip, bucket_key, enforce_rate_limit}

-- Whether the answer is a 401.
unfoldable pub is_401 : Result Text → Bool
is_401 (ok caller) = false
is_401 (raised unauthenticated) = true
is_401 (raised _) = false

module _ (digest : Text → Text) (res : ℕ) (hashes : List Text) (trust_proxy : Bool) where
  -- The requests, with their times, that carry no valid key.
  unfoldable pub unauthenticated_of : List (Request × ℕ) → History
  unauthenticated_of [] = []
  unauthenticated_of ((r, t) ∷ rs) =
      let others = unauthenticated_of rs in
      elim (validate_api_key digest hashes r.authorization r.x_api_key) [
        | none ↦ (bucket_key (client_ip r trust_proxy), t) ∷ others
        | some caller ↦ others
      ]

  -- How many of the requests of an address are answered by 401.
  unfoldable pub count_401 : Text → RateLimiter → List (Request × ℕ) → ℕ
  count_401 ip l [] = 0
  count_401 ip l ((r, t) ∷ rs) =
      let (answer, l') = enforce_rate_limit digest res hashes trust_proxy r t l in
      (if text_eq (bucket_key (client_ip r trust_proxy)) (bucket_key ip)
        then if is_401 answer then 1 else 0
        else 0)
      + count_401 ip l' rs

  count_401-granted :
      (ip : Text) (l : RateLimiter) (rs : List (Request × ℕ))
      → count_401 ip l rs ≡ granted res (bucket_key ip) l (unauthenticated_of rs)
  unfolding count_401 unauthenticated_of granted enforce_rate_limit is_401
  count_401-granted ip l [] = refl
  count_401-granted ip l ((r, t) ∷ rs) =
      elim (Option-cases (validate_api_key digest hashes r.authorization r.x_api_key)) [
        | inr (caller, e) ↦ ground (arith, count_401-granted ip l rs)
        | inl e ↦ ground (
          arith,
          count_401-granted ip (check res (bucket_key (client_ip r trust_proxy)) t l).0 rs,
        )
      ]

  -- An address without a standing window, on a valid limiter whose limit and window are not 0, gets
  -- from its first request without a valid key on, and until the window that this one opens runs out,
  -- exactly as many 401 answers as it makes such requests, and no more than the limit; requests
  -- with a valid key, and those of other addresses, count for nothing.
  pub count_401_quota :
      (ip : Text) (now : ℕ) (l : RateLimiter) (rs : List (Request × ℕ)) (h : History)
      → IsValid l
      → view l (bucket_key ip) now ≡ none
      → 0 < l.window * res
      → 0 < l.limit
      → unauthenticated_of rs ≡ (bucket_key ip, now) ∷ h
      → IsWithin now (now + l.window * res) h
      → count_401 ip l rs ≡ min l.limit (asked (bucket_key ip) (unauthenticated_of rs))
  count_401_quota ip now l rs h v none_yet span room e i =
      count_401-granted ip l rs
      ∙ rw e (granted_quota res (bucket_key ip) now l h v none_yet span room i)
