-- ===== src/Control/Http.antt =====
-- The small handlers of crates/edge-control/src/routes: sfu.rs, verify.rs, healthz.rs and snapshot.rs,
-- and the snapshots that crates/edge-sfu/src/snapshot_reporter.rs sends. Times are left out.
pub mod Entries
use dun_tunel.Prelude.{
  ℕ, ◌^◌, ◌%◌, Bool, true, false, List, [], ◌∷◌, ◌++◌, map, Option, none, some, Text, text, length,
  split, leb, if◌then◌else◌, values,
}
use dun_tunel.Prelude.Results
use dun_tunel.Prelude.Results.{Result}
use dun_tunel.Shared.Errors.{EdgeError, EdgeResult, ok, err}
use dun_tunel.Shared.Types.{CaddyRoute}
use dun_tunel.Shared.Jwt.{JsonWebToken, JwtVerifier, TunnelClaims, verify_tunnel}
use dun_tunel.Storage.Numbers.{parse_u64}
use dun_tunel.Rathole.Services.{RatholeService, ServiceRegistry}
use dun_tunel.Sfu.Sessions.{
  RouterManager, SfuError, viewer_cap_reached, session_not_found, ConsumerTransportInfo,
  create_consumer_transports, list_active_sessions, viewer_count, remove_viewer,
}

abbrev pub status_of : SfuError → ℕ
status_of e = elim e [ viewer_cap_reached ↦ 429 | session_not_found ↦ 404 | _ ↦ 500 ]

-- The transports, or the status.
abbrev pub router_reply :
    Result SfuError (ConsumerTransportInfo × ConsumerTransportInfo) × RouterManager
    → Result ℕ (ConsumerTransportInfo × ConsumerTransportInfo) × RouterManager
router_reply (Results.ok infos, m) = (Results.ok infos, m)
router_reply (Results.err e, m) = (Results.err (status_of e), m)

unfoldable pub create_router :
    Option ℕ
    → Option ℕ
    → Text
    → Text
    → RouterManager
    → Result ℕ (ConsumerTransportInfo × ConsumerTransportInfo) × RouterManager
unfolding create_consumer_transports
create_router recv send session_id viewer_id m =
    router_reply (create_consumer_transports recv send session_id viewer_id m)

pub record VerifyResponse : Type 0 where
  pub status : ℕ
  pub ok : Bool
  pub session_id : Option Text
  pub jti : Option Text

abbrev pub verify_reply : {S : Type 0} → EdgeResult TunnelClaims × S → VerifyResponse × S
verify_reply (ok claims, s) =
    (record { status = 200; ok = true; session_id = some claims.sub; jti = some claims.jti }, s)
verify_reply (err e, s) = (record { status = 401; ok = false; session_id = none; jti = none }, s)

unfoldable pub verify_tunnel_handler :
    {Key S : Type 0} → JsonWebToken Key → JwtVerifier Key S → Text → Text → S → VerifyResponse × S
unfolding verify_tunnel
verify_tunnel_handler lib v token region s = verify_reply (verify_tunnel lib v token region s)

abbrev pub active_sessions : RouterManager → ℕ
active_sessions m = length (list_active_sessions m) % 2 ^ 32

pub record RouteEntry : Type 0 where
  pub session_id : Text
  pub subdomain : Text
  pub upstream_port : ℕ

abbrev pub last_piece : List Text → Text
last_piece [] = []
last_piece (p ∷ ps) = elim ps [ [] ↦ p | q ∷ qs ↦ last_piece ps ]

abbrev pub port_or_zero : Option ℕ → ℕ
port_or_zero none = 0
port_or_zero (some n) = if leb n 65535 then n else 0

unfoldable pub route_entry : CaddyRoute → RouteEntry
unfolding parse_u64 split
route_entry r = record {
  session_id = r.host;
  subdomain = r.host;
  upstream_port = port_or_zero (parse_u64 (last_piece (split b':' r.upstream)));
}

pub record RouterEntry : Type 0 where
  pub session_id : Text
  pub router_id : Text
  pub viewer_count : ℕ

abbrev pub router_entry : Text → RouterEntry
router_entry session_id = record {
  session_id = session_id;
  router_id = text "router-" ++ session_id;
  viewer_count = 0;
}

-- The routes, the routers and the names of the tunnels.
pub record StateSnapshot : Type 0 where
  pub routes : List RouteEntry
  pub routers : List RouterEntry
  pub tunnels : List Text

unfoldable pub snapshot : List CaddyRoute → RouterManager → ServiceRegistry → StateSnapshot
unfolding route_entry
snapshot routes m registry = record {
  routes = map route_entry routes;
  routers = map router_entry (list_active_sessions m);
  tunnels = map (λ svc. svc.name) (values registry.services);
}

-- What one round of the reporter sends: each session with the number of its viewers.
unfoldable pub session_snapshots : RouterManager → List (Text × ℕ)
unfolding viewer_count
session_snapshots m = map (λ sid. (sid, viewer_count sid m)) (list_active_sessions m)
