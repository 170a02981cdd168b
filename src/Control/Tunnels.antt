-- ===== src/Control/Tunnels.antt =====
-- crates/edge-control/src/routes/tunnels.rs, on the part of `AppState` that it uses. What the
-- handlers ask of Caddy is recorded; whether Caddy, the disk and mediasoup do what is asked is an
-- argument of the handler.
pub mod Ports
pub mod Lifecycle
use dun_tunel.Prelude.{
  ℕ, Bool, true, false, List, [], ◌∷◌, ◌++◌, Option, none, some, Text, text, decimal, if◌then◌else◌,
  Assoc, lookup, insert, remove,
}
use dun_tunel.Prelude.Results.{Result}
use dun_tunel.Shared.Errors
use dun_tunel.Shared.Errors.{EdgeResult}
use dun_tunel.Shared.Types.{CaddyRoute}
use dun_tunel.Storage.Stores.{session_path}
use dun_tunel.Rathole.PortAllocator.{PortAllocator, allocate, release}
use dun_tunel.Rathole.Services.{RatholeService, ServiceRegistry, register, deregister, update_token}
use dun_tunel.Sfu.Sessions.{
  RouterManager, Pipeline, ProvisionedRouter, SfuError, panics, provision_session, close_session,
}

pub data CaddyCall : Type 0 where
  adds_route : CaddyRoute → CaddyCall
  removes_route : Text → CaddyCall

-- `caddy_calls` are what Caddy was asked for, newest first; `subdomain_store` is the directory of the
-- mappings on disk, by the names of its files.
pub record AppState : Type 0 where
  pub port_allocator : PortAllocator
  pub rathole : ServiceRegistry
  pub caddy_calls : List CaddyCall
  pub sfu : RouterManager
  pub session_subdomains : Assoc Text
  pub subdomain_store : Assoc Text

pub record CreateSessionReq : Type 0 where
  pub session_id : Text
  pub subdomain : Text
  pub tunnel_token : Text

-- The fields of `CreateSessionResp` that depend on the session.
pub record CreateSessionResp : Type 0 where
  pub router_id : ℕ
  pub producer_id : ℕ
  pub plain_rtp_port : ℕ
  pub plain_rtcp_port : ℕ
  pub local_upstream_port : ℕ

-- How a request ends: with the response, with a status, or with the connection of a handler that
-- panicked.
pub data Reply (A : Type 0) : Type 0 where
  json : A → Reply A
  status : ℕ → Reply A
  aborted : Reply A

-- What the world does during `create`.
pub record CreateFates : Type 0 where
  pub config_written : Bool
  pub route_added : Bool
  pub pipeline : Pipeline
  pub cleaned_up : Bool
  pub mapping_saved : Bool

abbrev pub service_of : CreateSessionReq → ℕ → RatholeService
service_of req port = record {
  name = req.session_id;
  token_hash = req.tunnel_token;
  bind_addr = text "0.0.0.0:" ++ decimal port;
  transport = none;
}

abbrev pub route_of : CreateSessionReq → ℕ → CaddyRoute
route_of req port = record {
  host = req.subdomain;
  upstream = text "127.0.0.1:" ++ decimal port;
  ws_paths = text "/api/ws" ∷ text "/webrtc" ∷ [];
}

abbrev pub response_of : ProvisionedRouter → ℕ → CreateSessionResp
response_of p port = record {
  router_id = p.router_id;
  producer_id = p.producer_id;
  plain_rtp_port = p.plain_rtp_port;
  plain_rtcp_port = p.plain_rtcp_port;
  local_upstream_port = port;
}

abbrev pub recorded : Bool → CreateSessionReq → AppState → AppState
recorded saved req a = record a {
  session_subdomains = insert req.session_id req.subdomain a.session_subdomains;
  subdomain_store =
      if saved
      then insert (session_path req.session_id) req.subdomain a.subdomain_store
      else a.subdomain_store;
}

-- The cleanup of a session that could not be provisioned.
abbrev pub torn_down : Bool → CreateSessionReq → ℕ → AppState → AppState
torn_down works req port a = record a {
  caddy_calls = removes_route req.subdomain ∷ a.caddy_calls;
  rathole = (deregister works req.session_id a.rathole).1;
  port_allocator = release port a.port_allocator;
}

abbrev pub is_panic : SfuError → Bool
is_panic panics = true
is_panic e = false

-- Step 4 and 5, on the result of `provision_session`. A panic leaves the handler at once.
abbrev pub create_provisioned :
    CreateFates
    → CreateSessionReq
    → ℕ
    → Result SfuError ProvisionedRouter
    → AppState
    → Reply CreateSessionResp × AppState
create_provisioned f req port (Result.ok p) a =
    (json (response_of p port), recorded f.mapping_saved req a)
create_provisioned f req port (Result.err e) a =
    if is_panic e then (aborted, a) else (status 500, torn_down f.cleaned_up req port a)

-- Step 3 on: the route.
unfoldable pub create_routed :
    CreateFates → CreateSessionReq → ℕ → AppState → Reply CreateSessionResp × AppState
create_routed f req port a =
    let a' = record a { caddy_calls = adds_route (route_of req port) ∷ a.caddy_calls } in
    let (r, sfu) = provision_session f.pipeline req.session_id a.sfu in
    if f.route_added
    then create_provisioned f req port r (record a' { sfu = sfu })
    else (status 500, a')

-- Step 2 on: the rathole service.
abbrev pub create_registered :
    CreateFates
    → CreateSessionReq
    → ℕ
    → EdgeResult (Unit {0}) × ServiceRegistry
    → AppState
    → Reply CreateSessionResp × AppState
create_registered f req port (EdgeResult.ok _, rathole) a =
    create_routed f req port (record a { rathole = rathole })
create_registered f req port (EdgeResult.err e, rathole) a =
    (status 500, record a { rathole = rathole })

abbrev pub create_on :
    CreateFates → CreateSessionReq → EdgeResult ℕ → AppState → Reply CreateSessionResp × AppState
create_on f req (EdgeResult.ok port) a =
    create_registered f req port (register f.config_written (service_of req port) a.rathole) a
create_on f req (EdgeResult.err e) a = (status 503, a)

unfoldable pub create :
    CreateFates → CreateSessionReq → AppState → Reply CreateSessionResp × AppState
create f req a =
    let (r, pool) = allocate a.port_allocator in
    create_on f req r (record a { port_allocator = pool })

-- What the world does during `deprovision`.
pub record DeprovisionFates : Type 0 where
  pub config_written : Bool
  pub rtp_config_written : Bool
  pub mapping_removed : Bool

abbrev pub route_removal : Option Text → List CaddyCall → List CaddyCall
route_removal none calls = calls
route_removal (some host) calls = removes_route host ∷ calls

-- The status is 204 whatever fails.
unfoldable pub deprovision : DeprovisionFates → Text → AppState → ℕ × AppState
deprovision f session_id a =
    let rathole = (deregister f.config_written session_id a.rathole).1 in
    let rathole' = (deregister f.rtp_config_written (session_id ++ text "-rtp") rathole).1 in
    (
      204,
      record a {
        session_subdomains = remove session_id a.session_subdomains;
        subdomain_store =
            if f.mapping_removed
            then remove (session_path session_id) a.subdomain_store
            else a.subdomain_store;
        caddy_calls = route_removal (lookup session_id a.session_subdomains) a.caddy_calls;
        rathole = rathole';
        sfu = close_session session_id a.sfu;
      },
    )

abbrev pub rotation_status : EdgeResult Bool → ℕ
rotation_status (EdgeResult.ok true) = 204
rotation_status (EdgeResult.ok false) = 404
rotation_status (EdgeResult.err e) = 500

unfoldable pub update_token_handler : Bool → Text → Text → AppState → ℕ × AppState
update_token_handler works session_id tunnel_token a =
    let (r, rathole) = update_token works session_id tunnel_token a.rathole in
    (rotation_status r, record a { rathole = rathole })
