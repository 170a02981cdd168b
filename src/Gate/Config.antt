-- ===== src/Gate/Config.antt =====
-- `Config::from_env` of crates/edge-viewer-gate/src/config.rs. Durations are milliseconds. The parsing
-- of a socket address is a parameter.
use dun_tunel.Prelude.{ℕ, ◌*◌, Bool, false, ◌||◌, Option, none, some, Text, text, text_eq, trim}
use dun_tunel.Prelude.Results.{Result, ok, ◌>>=◌, ok_or}
use dun_tunel.Storage.Numbers.{u64_max}
use dun_tunel.Shared.Env.{Env, var, or_default, parsed, to_ascii_lowercase}

pub record Config (Addr : Type 0) : Type 0 where
  pub bind_addr : Addr
  pub jwks_url : Text
  pub refresh_interval : ℕ
  pub revocation_url : Option Text
  pub revocation_api_key : Option Text
  pub revocation_poll_interval : ℕ
  pub revocation_required : Bool
  pub revocation_max_staleness : ℕ

abbrev pub seconds_or : Option Text → ℕ → ℕ
seconds_or value default = 1000 * or_default (parsed u64_max value) default

abbrev pub is_yes : Text → Bool
is_yes s =
    text_eq s (text "true")
    || text_eq s (text "1")
    || text_eq s (text "yes")
    || text_eq s (text "on")

unfoldable pub is_required : Option Text → Bool
unfolding text_eq to_ascii_lowercase trim
is_required none = false
is_required (some s) = is_yes (to_ascii_lowercase (trim s))

unfoldable pub from_env : {Addr : Type 0} → (Text → Option Addr) → Env → Result Text (Config Addr)
unfolding is_required
from_env parse_addr env = do
  bind_addr ←
      ok_or (parse_addr (or_default (var env "BIND_ADDR") (text "127.0.0.1:9444")))
        (text "BIND_ADDR is not a valid SocketAddr")
  jwks_url ←
      ok_or (var env "JWKS_URL") (text "JWKS_URL env var is required (dun-api /api/viewer/jwks)")
  ok (record {
    bind_addr = bind_addr;
    jwks_url = jwks_url;
    refresh_interval = seconds_or (var env "JWKS_REFRESH_SECONDS") 86400;
    revocation_url = var env "REVOCATION_URL";
    revocation_api_key = var env "REVOCATION_API_KEY";
    revocation_poll_interval = seconds_or (var env "REVOCATION_POLL_SECONDS") 5;
    revocation_required = is_required (var env "REVOCATION_REQUIRED");
    revocation_max_staleness = seconds_or (var env "REVOCATION_MAX_STALENESS_SECONDS") 30;
  })
