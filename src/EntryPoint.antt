-- ===== src/EntryPoint.antt =====
-- src/supernote_task_service/__main__.py: how `main` starts Uvicorn. Uvicorn itself, and the
-- reading of the environment, are not the repository's; `none` stands for the exception of `int`.
mod Tests
use supernote_task_service.Common.{
  ℕ, ◌+◌, Bool, true, false, ◌&&◌, Option, none, some, [], ◌∷◌, Text, leb, if◌then◌else◌, map,
  ◌>>=◌,
}
use supernote_task_service.Common.Int.{ℤ}
use supernote_task_service.Encoding.Decimal.{parse_int}
use supernote_task_service.Config.{Settings}

-- The keyword arguments of `uvicorn.run`; `*` allows every proxy.
pub record ServerOptions : Type 0 where
  pub host : Text
  pub port : ℤ
  pub log_level : Text
  pub proxy_headers : Bool
  pub forwarded_allow_ips : Option Text

-- `str.lower` on the letters of the names of the log levels
abbrev lower : ℕ → ℕ
lower c = if leb b'A' c && leb c b'Z' then c + 32 else c

-- `os.environ.get(name, default)`
abbrev environ_get : Option Text → Text → Text
environ_get none default = default
environ_get (some t) default = t

abbrev pub any_address : Text
any_address = b'0' ∷ b'.' ∷ b'0' ∷ b'.' ∷ b'0' ∷ b'.' ∷ b'0' ∷ []

abbrev port_8000 : Text
port_8000 = b'8' ∷ b'0' ∷ b'0' ∷ b'0' ∷ []

-- `main`, on the values of HOST and PORT in the environment
unfoldable pub main : Option Text → Option Text → Settings → Option ServerOptions
unfolding parse_int
main host port s = do
  number ← parse_int (environ_get port port_8000)
  some (record {
    host = environ_get host any_address;
    port = number;
    log_level = map lower s.log_level;
    proxy_headers = s.trust_proxy_headers;
    forwarded_allow_ips = (if s.trust_proxy_headers then some (b'*' ∷ []) else none);
  })
