-- ===== src/Http/Deps.antt =====
-- src/supernote_task_service/deps.py: cursor expiry, the client's address, and authentication with
-- the limit on unauthenticated requests.
use supernote_task_service.Common.{
  ℕ, Bool, false, Option, none, some, List, [], ◌∷◌, Text, if◌then◌else◌,
}
use supernote_task_service.Common.Int.{ℤ, pos, ◌-ℤ◌, leb_ℤ, ltb_ℤ}
use supernote_task_service.Encoding.Decimal.{strip}
use supernote_task_service.RateLimit.{RateLimiter, check}
use supernote_task_service.Security.{validate_api_key, split_on}
use supernote_task_service.Http.Failures.{Result, ok, raised, unauthenticated, too_many_requests}

-- `ensure_cursor_fresh`: whether the cursor is refused.
unfoldable pub cursor_expired : Option ℕ → ℤ → ℕ → Bool
unfolding ◌-ℤ◌
cursor_expired none max_age now = false
cursor_expired (some since) max_age now =
    if leb_ℤ max_age (pos 0) then false else ltb_ℤ (pos since) (pos now -ℤ max_age)

-- What `_client_ip` reads of a request.
pub record Request : Type 0 where
  pub authorization : Option Text
  pub x_api_key : Option Text
  pub forwarded_for : Option Text
  pub client_host : Option Text

abbrev pub unknown : Text
unknown = b'u' ∷ b'n' ∷ b'k' ∷ b'n' ∷ b'o' ∷ b'w' ∷ b'n' ∷ []

abbrev host_or_unknown : Option Text → Text
host_or_unknown none = unknown
host_or_unknown (some h) = h

-- `forwarded.split(",")[-1]`
unfoldable pub last_part : Text → Text
unfolding split_on
last_part t = last_of (split_on b',' t)
  where
    last_of : List Text → Text
    last_of [] = []
    last_of (p ∷ []) = p
    last_of (p ∷ q ∷ qs) = last_of (q ∷ qs)

unfoldable pub client_ip : Request → Bool → Text
unfolding last_part
client_ip r trust_proxy = elim r.forwarded_for [
  | none ↦ host_or_unknown r.client_host
  | some forwarded ↦ elim forwarded [
    | [] ↦ host_or_unknown r.client_host
    | c ∷ cs ↦ if trust_proxy then strip (last_part (c ∷ cs)) else host_or_unknown r.client_host
  ]
]

-- `f"ip:{ip}"`
abbrev pub bucket_key : Text → Text
bucket_key ip = b'i' ∷ b'p' ∷ b':' ∷ ip

-- `enforce_rate_limit`: the caller, or the refusal, and the limiter that it leaves.
unfoldable pub enforce_rate_limit :
    (digest : Text → Text) (resolution : ℕ) (hashes : List Text) (trust_proxy : Bool)
    → Request
    → ℕ
    → RateLimiter
    → Result Text × RateLimiter
enforce_rate_limit digest resolution hashes trust_proxy r now limiter =
    elim (validate_api_key digest hashes r.authorization r.x_api_key) [
      | some caller ↦ (ok caller, limiter)
      | none ↦
          let (limiter', result) =
            check resolution (bucket_key (client_ip r trust_proxy)) now limiter in
          (
            if result.allowed
                then raised unauthenticated
                else raised (too_many_requests result.retry_after),
            limiter',
          )
    ]
