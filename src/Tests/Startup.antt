-- ===== src/Tests/Startup.antt =====
-- The configurations of the processes at concrete environments.
use dun_tunel.Prelude.{
  ℕ, ◌≡◌, refl, ◌↔◌, Bool, true, false, List, [], ◌∷◌, Option, none, some, Text, text, text_eq,
  lookup, insert, Assoc, trim, starts_with, if◌then◌else◌,
}
use dun_tunel.Prelude.Results
use dun_tunel.Prelude.Results.{Result, ok}
use dun_tunel.Shared.Env.{Env, parse_up_to, eq_ignore_ascii_case}
use dun_tunel.Shared.Errors
use dun_tunel.Shared.Types.{CaddyRoute}
use dun_tunel.Shared.Jwt.{
  TunnelClaims, got, failed, JsonWebToken, RevocationOracle, verify_tunnel, tunnel_aud,
}
use dun_tunel.Caddy.Routes.{with_children}
use dun_tunel.Caddy.Routes.Dispatch.{dispatch, any_matches}
use dun_tunel.Prelude.Int.{pos}
use dun_tunel.Rathole.Reload.{
  System, sighup, command, trigger_reload, reload_via_pid_file, reload_via_command, parse_i32,
  split_whitespace,
}
use dun_tunel.Sfu.InputBridge.Endpoint.{neko_admin_endpoint, replace_from}
use dun_tunel.Control.Config.{EdgeConfig, from_env}
use dun_tunel.Control.Startup.{client_of, verifier_of}
use dun_tunel.Control.Startup.Gated.{routed, from_env-guards}
use dun_tunel.Control.Startup.Tokens.{secret_of, initialized-accepts}
use dun_tunel.Control.Router.{post, create_sfu_router, build_router, route_to, captures}
use dun_tunel.Gate.Verify.{Libraries}
use dun_tunel.Gate.Config.{Config}
use dun_tunel.Gate.Jwks.{JwkEntry, IsServing, first_fetch, fetch_jwks, collect_keys}
use dun_tunel.Gate.Revocation.{start_list, start_poller, is_some}
use dun_tunel.Gate.Revocation.{Poll, unreachable}
use dun_tunel.Gate.Revocation.Mirror.{Succeeds}
use dun_tunel.Gate.Boot.{after_polls, start, check, Started, start-strict}

-- The gate is named as disabled.
abbrev variables : Assoc Text
variables =
    (text "REGION_ID", text "sin")
    ∷ (text "DUN_API_ENDPOINT", text "https://dun.example")
    ∷ (text "DUN_API_KEY", text "key")
    ∷ (text "TUNNEL_JWT_SECRET_V1", text "secret")
    ∷ (text "EDGE_VIEWER_GATE_UPSTREAM", text "disabled")
    ∷ []

abbrev env : Env
env name = lookup name variables

abbrev config : EdgeConfig
config = record {
  region = text "sin";
  bind_port = 8443;
  dun_api_endpoint = text "https://dun.example";
  dun_api_key = some (text "key");
  mtls_cert_path = none;
  mtls_key_path = none;
  mtls_ca_path = none;
  caddy_admin_url = text "http://127.0.0.1:2019";
  rathole_config_path = text "/etc/rathole/server.toml";
  persistent_queue_dir = text "/var/lib/dun-tunel/queue";
  sfu_workers = 2;
  jwt_secret_v1 = some (text "secret");
  jwt_secret_v2 = none;
  share_tunnel_domain = none;
  cloudflare_api_token = none;
  viewer_gate_upstream = some (text "127.0.0.1:9444");
}

config-from_env : from_env (some 2) env ≡ dun_tunel.Prelude.Results.ok config
unfolding from_env lookup text_eq trim eq_ignore_ascii_case
config-from_env = refl

abbrev route : CaddyRoute
route = record { host = text "a.b"; upstream = text "127.0.0.1:11000"; ws_paths = [] }

from_env-guards_example :
    dispatch text_eq false (text "/v1/sfu") (routed (client_of config) route).routes ≡ none
from_env-guards_example =
    from_env-guards (some 2) env config text_eq (text "/v1/sfu") route config-from_env
      (unfold any_matches with_children text_eq in refl) (unfold any_matches text_eq in refl)

abbrev tunnel_claims : TunnelClaims
tunnel_claims = record {
  sub = text "s1";
  aud = tunnel_aud;
  exp = 2000;
  iat = 1000;
  jti = text "j1";
  region = text "sin";
  kid = text "v1";
}

abbrev jwt : JsonWebToken Text
jwt = record {
  from_secret = λ s. s;
  decode_header = λ token. got (some (text "v1"));
  decode_tunnel = λ key aud token.
      if text_eq key (text "secret") then got tunnel_claims else failed (text "InvalidSignature");
  decode_viewer = λ key aud token. failed (text "InvalidSignature");
}

abbrev oracle : Text → RevocationOracle (Unit {0})
oracle api_key = record { is_revoked = λ jti s. (dun_tunel.Shared.Errors.ok false, s) }

initialized-accepts_example :
    (kid secret : Text) × (jwt.decode_header (text "t") ≡ got (some kid))
    × (secret_of kid config ≡ some secret)
    × (jwt.decode_tunnel (jwt.from_secret secret) tunnel_aud (text "t") ≡ got tunnel_claims)
    × (tunnel_claims.region ≡ text "sin")
    × ((api_key : Text)
        → config.dun_api_key ≡ some api_key
        → ((oracle api_key).is_revoked tunnel_claims.jti tt).0 ≡ dun_tunel.Shared.Errors.ok false)
initialized-accepts_example =
    initialized-accepts jwt oracle config (text "t") (text "sin") tt tunnel_claims (
      unfold verify_tunnel verifier_of text_eq lookup insert dun_tunel.Shared.Jwt.tunnel_region
        dun_tunel.Shared.Jwt.decode_with_kid dun_tunel.Shared.Jwt.check_revocation in
      refl)

abbrev segments : Text → List Text
segments path = text "v1" ∷ text "sfu" ∷ text "viewer" ∷ text "ws" ∷ []

-- As Caddy matches: without dot segments.
abbrev undotted : List Text → List Text
undotted (a ∷ b ∷ up ∷ rest) = if text_eq up (text "..") then a ∷ rest else a ∷ b ∷ up ∷ rest
undotted _ = []

abbrev dotted : List Text
dotted = text "v1" ∷ text "tunnels" ∷ text ".." ∷ text "sfu" ∷ text "router" ∷ []

-- A path that Caddy matches as `/v1/sfu/router`, and axum takes for that of the router of `..`.
dotted-path :
    (undotted dotted ≡ text "v1" ∷ text "sfu" ∷ text "router" ∷ [])
    × (route_to build_router post dotted ≡ ok (create_sfu_router (text "..")))
unfolding route_to captures text_eq
dotted-path = (refl, refl)

abbrev entry : JwkEntry
entry = record {
  kty = text "OKP";
  crv = some (text "Ed25519");
  kid = text "k1";
  alg = some (text "EdDSA");
  x = text "0123456789abcdef0123456789abcdef";
}

-- Strict mode with a revocation list.
abbrev gate_config : Config Text
gate_config = record {
  bind_addr = text "127.0.0.1:9444";
  jwks_url = text "https://dun.example/api/viewer/jwks";
  refresh_interval = 86400000;
  revocation_url = some (text "http://dun.example/revoked");
  revocation_api_key = none;
  revocation_poll_interval = 5000;
  revocation_required = true;
  revocation_max_staleness = 30000;
}

abbrev libraries : Libraries Text
libraries = record {
  to_str = λ s. some s;
  to_lowercase = λ s. s;
  decode_header = λ t. none;
  decode = λ key aud t. dun_tunel.Prelude.Results.err (text "InvalidSignature");
}

abbrev started : Started Text
started = record {
  state = record {
    jwks = (text "k1", text "0123456789abcdef0123456789abcdef") ∷ [];
    revocation = start_list (some (text "http://dun.example/revoked")) 30000;
    revocation_required = true;
  };
  poller = some (start_poller 5000 30000 0);
}

abbrev lost_poll : Poll
lost_poll = record { reply = unreachable; recorded_at = 10; ended_at = 20 }

lost_poll-fails : ¬ Succeeds unreachable
lost_poll-fails h = elim h [ ]

start-strict_example :
    IsServing some (λ bytes. bytes) started.state.jwks
    × (((check libraries some (after_polls (lost_poll ∷ []) started) [] 100).status ≡ 503)
        ↔ ((gate_config.revocation_required ≡ true) × (is_some gate_config.revocation_url ≡ true)))
start-strict_example =
    start-strict some (λ bytes. bytes) libraries some gate_config (some (entry ∷ [])) 0 started
      (lost_poll ∷ []) [] 100
      (unfold start first_fetch fetch_jwks collect_keys text_eq insert in refl)
      (lost_poll-fails, tt)

abbrev neko : Assoc Text
neko =
    (text "NEKO_ADMIN_WS_URL", text "ws://neko-{session}:8081/{session}")
    ∷ (text "NEKO_ADMIN_TOKEN", text "token")
    ∷ []

neko_admin_endpoint-session :
    neko_admin_endpoint (λ name. lookup name neko) (text "s1")
    ≡ some (text "ws://neko-s1:8081/s1", text "token")
unfolding neko_admin_endpoint replace_from lookup text_eq trim starts_with
neko_admin_endpoint-session = refl

abbrev system : System
system = record {
  read_to_string = λ path. dun_tunel.Shared.Errors.ok (text "4711\n");
  kill = λ pid. true;
  status = λ exe args. dun_tunel.Shared.Errors.ok false;
}

trigger_reload-pid_file :
    trigger_reload system (λ name. if text_eq name (text "RATHOLE_PID_FILE") then some [] else none)
    ≡ (dun_tunel.Shared.Errors.ok tt, sighup (pos 4711) ∷ [])
unfolding trigger_reload reload_via_pid_file parse_i32 parse_up_to trim text_eq
trigger_reload-pid_file = refl

trigger_reload-command :
    (trigger_reload system (λ name.
      if text_eq name (text "RATHOLE_RELOAD_CMD")
      then some (text " systemctl  reload x")
      else none)).1
    ≡ command (text "systemctl") (text "reload" ∷ text "x" ∷ []) ∷ []
unfolding trigger_reload reload_via_command split_whitespace text_eq
trigger_reload-command = refl
