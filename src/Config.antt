-- ===== src/Config.antt =====
-- src/supernote_task_service/config.py: the settings, with their defaults and the validators that
-- normalise them. Reading the environment is Pydantic's.
use supernote_task_service.Common.{
  ℕ, ◌-◌, Bool, true, false, ◌&&◌, List, [], ◌∷◌, Text, leb, if◌then◌else◌, map,
}
use supernote_task_service.Common.Int.{ℤ, pos}
use supernote_task_service.Encoding.Decimal.{strip}
use supernote_task_service.Security.{api_key_hashes}

pub record Settings : Type 0 where
  pub db_host : Text
  pub db_port : ℤ
  pub db_user : Text
  pub db_password : Text
  pub db_name : Text
  pub db_connect_timeout : ℤ
  pub db_pool_size : ℤ
  pub user_email : Text
  pub api_keys : Text
  pub rate_limit_window_seconds : ℤ
  pub unauth_rate_limit_requests : ℤ
  pub log_level : Text
  pub enable_docs : Bool
  pub max_request_body_bytes : ℤ
  pub cursor_max_age_ms : ℤ
  pub trust_proxy_headers : Bool

-- The settings of an environment that has the password alone.
abbrev pub default_settings : Text → Settings
default_settings password = record {
  db_host =
      b's' ∷ b'u' ∷ b'p' ∷ b'e' ∷ b'r' ∷ b'n' ∷ b'o' ∷ b't' ∷ b'e' ∷ b'-' ∷ b'm' ∷ b'a' ∷ b'r'
      ∷ b'i' ∷ b'a' ∷ b'd' ∷ b'b' ∷ [];
  db_port = pos 3306;
  db_user = b's' ∷ b'u' ∷ b'p' ∷ b'e' ∷ b'r' ∷ b'n' ∷ b'o' ∷ b't' ∷ b'e' ∷ [];
  db_password = password;
  db_name = b's' ∷ b'u' ∷ b'p' ∷ b'e' ∷ b'r' ∷ b'n' ∷ b'o' ∷ b't' ∷ b'e' ∷ b'd' ∷ b'b' ∷ [];
  db_connect_timeout = pos 10;
  db_pool_size = pos 5;
  user_email = [];
  api_keys = [];
  rate_limit_window_seconds = pos 60;
  unauth_rate_limit_requests = pos 10;
  log_level = b'I' ∷ b'N' ∷ b'F' ∷ b'O' ∷ [];
  enable_docs = false;
  max_request_body_bytes = pos 65536;
  cursor_max_age_ms = pos 0;
  trust_proxy_headers = true;
}

-- `str.upper` on the letters of the names of the log levels
abbrev upper : ℕ → ℕ
upper c = if leb b'a' c && leb c b'z' then c - 32 else c

-- `_normalize_log_level` and `_normalize_user_email`, which run on what the environment sets
unfoldable pub normalize : Settings → Settings
unfolding strip
normalize s = record s { log_level = map upper s.log_level; user_email = strip s.user_email }

abbrev is_empty : List Text → Bool
is_empty [] = true
is_empty (h ∷ hs) = false

-- `has_api_keys`
unfoldable pub has_api_keys : (Text → Text) → Settings → Bool
has_api_keys digest s = if is_empty (api_key_hashes digest s.api_keys) then false else true
