-- ===== src/Control/Config.antt =====
-- `EdgeConfig::from_env` of crates/edge-control/src/config.rs. Paths are text.
use dun_tunel.Prelude.{
  ℕ, Bool, true, not, ◌||◌, [], ◌∷◌, Option, none, some, Text, text, trim, if◌then◌else◌,
}
use dun_tunel.Prelude.Results.{Result, ok, ◌>>=◌, ok_or}
use dun_tunel.Storage.Numbers.{u64_max}
use dun_tunel.Shared.Env.{Env, var, or_default, parsed, u16_max, eq_ignore_ascii_case}

pub record EdgeConfig : Type 0 where
  pub region : Text
  pub bind_port : ℕ
  pub dun_api_endpoint : Text
  pub dun_api_key : Option Text
  pub mtls_cert_path : Option Text
  pub mtls_key_path : Option Text
  pub mtls_ca_path : Option Text
  pub caddy_admin_url : Text
  pub rathole_config_path : Text
  pub persistent_queue_dir : Text
  pub sfu_workers : ℕ
  pub jwt_secret_v1 : Option Text
  pub jwt_secret_v2 : Option Text
  pub share_tunnel_domain : Option Text
  pub cloudflare_api_token : Option Text
  pub viewer_gate_upstream : Option Text

abbrev pub is_falsy : Text → Bool
is_falsy [] = true
is_falsy (c ∷ s) =
    eq_ignore_ascii_case (c ∷ s) (text "disabled")
    || eq_ignore_ascii_case (c ∷ s) (text "off")
    || eq_ignore_ascii_case (c ∷ s) (text "none")

abbrev pub unless_falsy : Text → Option Text
unless_falsy s = if not (is_falsy s) then some s else none

-- `map`, `filter` and `or_else`.
abbrev pub named_gate : Option Text → Option Text
named_gate none = none
named_gate (some s) = unless_falsy (trim s)

abbrev pub or_local_gate : Option Text → Option Text
or_local_gate none = some (text "127.0.0.1:9444")
or_local_gate (some gate) = some gate

abbrev pub gate_of : Option Text → Option Text
gate_of o = or_local_gate (named_gate o)

-- By `available_parallelism`, where the system tells it.
abbrev pub num_cpus_or_default : Option ℕ → ℕ
num_cpus_or_default n = or_default n 4

unfoldable pub from_env : Option ℕ → Env → Result Text EdgeConfig
unfolding eq_ignore_ascii_case trim
from_env cpus env = do
  region ← ok_or (var env "REGION_ID") (text "REGION_ID env var required")
  dun_api_endpoint ← ok_or (var env "DUN_API_ENDPOINT") (text "DUN_API_ENDPOINT required")
  ok (record {
    region = region;
    bind_port = or_default (parsed u16_max (var env "EDGE_BIND_PORT")) 8443;
    dun_api_endpoint = dun_api_endpoint;
    dun_api_key = var env "DUN_API_KEY";
    mtls_cert_path = var env "EDGE_MTLS_CERT_PATH";
    mtls_key_path = var env "EDGE_MTLS_KEY_PATH";
    mtls_ca_path = var env "EDGE_MTLS_CA_PATH";
    caddy_admin_url = or_default (var env "CADDY_ADMIN_URL") (text "http://127.0.0.1:2019");
    rathole_config_path =
        or_default (var env "RATHOLE_CONFIG_PATH") (text "/etc/rathole/server.toml");
    persistent_queue_dir =
        or_default (var env "PERSISTENT_QUEUE_DIR") (text "/var/lib/dun-tunel/queue");
    sfu_workers = or_default (parsed u64_max (var env "SFU_WORKERS")) (num_cpus_or_default cpus);
    jwt_secret_v1 = var env "TUNNEL_JWT_SECRET_V1";
    jwt_secret_v2 = var env "TUNNEL_JWT_SECRET_V2";
    share_tunnel_domain = var env "SHARE_TUNNEL_DOMAIN";
    cloudflare_api_token = var env "CLOUDFLARE_API_TOKEN";
    viewer_gate_upstream = gate_of (var env "EDGE_VIEWER_GATE_UPSTREAM");
  })
