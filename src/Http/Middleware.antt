-- ===== src/Http/Middleware.antt =====
-- The application of main.py: the middleware that bounds a request's body and sets the security
-- headers. Names of headers are in lower case, as the framework compares them.
use supernote_task_service.Common.{
  ℕ, Bool, true, false, ◌||◌, ◌&&◌, Option, none, some, [], ◌∷◌, ◌++◌, Text, text_eq, if◌then◌else◌,
  is_some,
}
use supernote_task_service.Common.Int.{ℤ, ltb_ℤ}
use supernote_task_service.Common.Dict.{Dict, lookup}
use supernote_task_service.Encoding.Decimal.{strip, parse_int}
use supernote_task_service.Http.Failures.{Code, bad_request, length_required, payload_too_large}

abbrev pub x_content_type_options : Text
x_content_type_options =
    b'x' ∷ b'-' ∷ b'c' ∷ b'o' ∷ b'n' ∷ b't' ∷ b'e' ∷ b'n' ∷ b't' ∷ b'-' ∷ b't' ∷ b'y' ∷ b'p' ∷ b'e'
    ∷ b'-' ∷ b'o' ∷ b'p' ∷ b't' ∷ b'i' ∷ b'o' ∷ b'n' ∷ b's' ∷ []

abbrev nosniff : Text
nosniff = b'n' ∷ b'o' ∷ b's' ∷ b'n' ∷ b'i' ∷ b'f' ∷ b'f' ∷ []

abbrev pub x_frame_options : Text
x_frame_options =
    b'x' ∷ b'-' ∷ b'f' ∷ b'r' ∷ b'a' ∷ b'm' ∷ b'e' ∷ b'-' ∷ b'o' ∷ b'p' ∷ b't' ∷ b'i' ∷ b'o' ∷ b'n'
    ∷ b's' ∷ []

abbrev deny : Text
deny = b'D' ∷ b'E' ∷ b'N' ∷ b'Y' ∷ []

abbrev pub referrer_policy : Text
referrer_policy =
    b'r' ∷ b'e' ∷ b'f' ∷ b'e' ∷ b'r' ∷ b'r' ∷ b'e' ∷ b'r' ∷ b'-' ∷ b'p' ∷ b'o' ∷ b'l' ∷ b'i' ∷ b'c'
    ∷ b'y' ∷ []

abbrev no_referrer : Text
no_referrer = b'n' ∷ b'o' ∷ b'-' ∷ b'r' ∷ b'e' ∷ b'f' ∷ b'e' ∷ b'r' ∷ b'r' ∷ b'e' ∷ b'r' ∷ []

abbrev pub cache_control : Text
cache_control =
    b'c' ∷ b'a' ∷ b'c' ∷ b'h' ∷ b'e' ∷ b'-' ∷ b'c' ∷ b'o' ∷ b'n' ∷ b't' ∷ b'r' ∷ b'o' ∷ b'l' ∷ []

abbrev no_store : Text
no_store = b'n' ∷ b'o' ∷ b'-' ∷ b's' ∷ b't' ∷ b'o' ∷ b'r' ∷ b'e' ∷ []

-- `_SECURITY_HEADERS`
abbrev pub security_headers : Dict Text
security_headers =
    (x_content_type_options, nosniff)
    ∷ (x_frame_options, deny)
    ∷ (referrer_policy, no_referrer)
    ∷ (cache_control, no_store)
    ∷ []

abbrev post : Text
post = b'P' ∷ b'O' ∷ b'S' ∷ b'T' ∷ []

abbrev put : Text
put = b'P' ∷ b'U' ∷ b'T' ∷ []

abbrev patch : Text
patch = b'P' ∷ b'A' ∷ b'T' ∷ b'C' ∷ b'H' ∷ []

-- What the middleware reads of a request.
pub record Arrival : Type 0 where
  pub content_length : Option Text
  pub transfer_encoding : Option Text
  pub method : Text

abbrev pub is_set : Option Text → Bool
is_set none = false
is_set (some []) = false
is_set (some (c ∷ cs)) = true

-- `request.method in {"POST", "PUT", "PATCH"}`
unfoldable pub has_body_method : Text → Bool
has_body_method m = text_eq m post || text_eq m put || text_eq m patch

-- The answers that the middleware gives by itself.
pub data Refusal : Type 0 where
  too_large malformed_length undeclared_length : Refusal

-- Whether `_limit_body_and_set_headers` refuses a request before the handler. `int` allows white
-- space around its number.
unfoldable pub limit_body : (max_bytes : ℤ) → Arrival → Option Refusal
unfolding has_body_method
limit_body max_bytes a = elim a.content_length [
  | none ↦
      if has_body_method a.method && is_set a.transfer_encoding
      then some undeclared_length
      else none
  | some declared ↦ elim (parse_int (strip declared)) [
    | none ↦ some malformed_length
    | some n ↦ if ltb_ℤ max_bytes n then some too_large else none
  ]
]

unfoldable pub refusal_status : Refusal → ℕ
refusal_status too_large = 413
refusal_status malformed_length = 400
refusal_status undeclared_length = 411

unfoldable pub refusal_code : Refusal → Code
refusal_code too_large = payload_too_large
refusal_code malformed_length = bad_request
refusal_code undeclared_length = length_required

pub record Response : Type 0 where
  pub status : ℕ
  pub code : Option Code
  pub headers : Dict Text

-- `response.headers.setdefault(key, value)`
unfoldable pub setdefault : Text → Text → Dict Text → Dict Text
setdefault k v h = if is_some (lookup k h) then h else h ++ (k, v) ∷ []

-- The loop over `_SECURITY_HEADERS`.
unfoldable pub set_defaults : Dict Text → Dict Text → Dict Text
unfolding setdefault
set_defaults [] h = h
set_defaults ((k, v) ∷ more) h = set_defaults more (setdefault k v h)

-- The response of the middleware, from that of the rest of the application.
abbrev pub respond : Option Refusal → Response → Response
respond none r = record r { headers = set_defaults security_headers r.headers }
respond (some c) r = record {
  status = refusal_status c;
  code = some (refusal_code c);
  headers = [];
}

-- `_limit_body_and_set_headers`, around the rest of the application, which a refused request does not
-- reach.
unfoldable pub serve : (max_bytes : ℤ) → (Arrival → Response) → Arrival → Response
serve max_bytes call_next a = respond (limit_body max_bytes a) (call_next a)
