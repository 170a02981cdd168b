-- ===== src/Lib.antt =====
-- The edge of dun-tunel: the servers through which a browser session on its owner's machine is shared
-- with viewers on the web.
--
-- A session begins with `POST /v1/tunnels` at edge-control. It takes an upstream port from the pool,
-- registers a rathole service on it, adds a Caddy route for the session's subdomain, and provisions a
-- mediasoup router. Viewers reach the subdomain through Caddy, which asks the viewer gate about each
-- request. They receive media from the SFU, and send input that the SFU forwards to the session's
-- Neko server. Meanwhile reporters send bandwidth and counts to dun-api.
--
-- The files follow the crates:
--
--   Shared     crates/edge-shared/src: errors.rs in Shared/Errors, types.rs in Shared/Types, jwt.rs
--              in Shared/Jwt (`JwtVerifier`, `verify_tunnel`, `verify_viewer`), revocation.rs in
--              Shared/Revocation (`HttpRevocationOracle`) and Shared/Endpoint (`normalise_dun_api_endpoint`).
--              Shared/Env is how every configuration reads the environment.
--   Rathole    crates/edge-rathole-bridge/src: port_allocator.rs in Rathole/PortAllocator,
--              service_registry.rs in Rathole/Services and, for `trigger_reload`, Rathole/Reload, `render_toml` of config_writer.rs in
--              Rathole/Config.
--   Gate       crates/edge-viewer-gate/src: revocation.rs in Gate/Revocation, verify.rs and
--              `check_handler` of main.rs in Gate/Verify, jwks.rs in Gate/Jwks, config.rs in Gate/Config,
--              and the rest of main.rs in Gate/Boot.
--   Sfu        crates/edge-sfu/src: neko_input_bridge.rs and input_envelope.rs in Sfu/RateLimiter and
--              Sfu/InputBridge; router_manager.rs and viewer_cap.rs in Sfu/Sessions, with the
--              consumers of a viewer in Sessions/Consumers, `reprovision_plain_producer` in
--              Sessions/Source, the steps of `produce_input_data` in Sessions/Input, the whole of
--              it with the connecting of transports and `get_session_bytes` in Sessions/Calls, and
--              `spawn_source_monitor` in Sessions/Monitor; `neko_admin_endpoint` in
--              InputBridge/Endpoint; transport.rs in Sfu/Transport.
--   Bandwidth  crates/edge-bandwidth/src/reporter.rs in Bandwidth/Reporter, and
--              crates/edge-callback-client/src/client.rs in Bandwidth/Callback, with its requests in
--              Callback/Posts.
--   Storage    `atomic_write` as calls on a directory in Storage/Files, and in Storage/Stores
--              crates/edge-bandwidth/src/persistence.rs and
--              crates/edge-control/src/subdomain_store.rs.
--   Control    crates/edge-control/src: routes/tunnels.rs in Control/Tunnels; routes/sfu_ws.rs in
--              Control/Signalling, with the messages in Protocol, the loop of `run_session` in
--              Connection, `run_session` and `ws_handler` in Session, and `client_ip` and
--              `mint_viewer_id` in Peer; config.rs in Control/Config; state.rs in Control/Startup;
--              routes/mod.rs and auth/api_key.rs in Control/Router; routes/sfu.rs, verify.rs,
--              healthz.rs and snapshot.rs in Control/Http, with
--              crates/edge-sfu/src/snapshot_reporter.rs. Control/Exposure and Control/Startup/Gated put
--              the Caddy routes together with the router and the configuration.
--   Caddy      crates/edge-caddy-bridge/src: route_builder.rs in Caddy/Routes, as the tree of
--              handlers, and in Routes/Render and Routes/SessionEnded, as JSON; admin_client.rs in
--              Caddy/Admin, with the requests in Admin/Requests, the operations on routes in
--              Admin/Client and those on TLS policies in Admin/Policies.
--   Poc        poc/neko-sfu/src/bin/sfu_main.rs, the proof of concept: what its connections share in
--              Poc, the handlers of `ViewerConnection` in Poc/Viewer, and its tasks and the order of
--              events in Viewer/Run.
--
-- Each file declares its state as a record and each method as a function on it, under the name in
-- the source. What is not the program's is an argument: a library is a record of its functions,
-- and what a network, a disk, a clock or mediasoup does in one call is passed to that call. An
-- operation that holds a lock throughout is one step; `consume` and `produce_input_data`, which
-- let their lock go, are two and three; where the signalling calls `produce_input_data`, nothing
-- comes between its steps. Text is its code points, or its bytes where the source
-- cuts it by bytes.
--
-- Prelude holds the shared types and lemmas, and Tests the theorems at concrete inputs. The shared
-- part of the program's own errors is Prelude/Results.
--
-- Bounds and fuel: ports are 11000 to 11999. A number is printed with fuel for 20 digits, which 64
-- bits never exceed, and a viewer id with 16 hexadecimal digits for each of its two halves. The
-- attempts of `send` are the structural count 3. No other definition has fuel. Counters and sums on 64 and 32 bits keep their wrap or their saturation where the source
-- has it; sequence numbers and clocks are unbounded, as they stay far below 2^64.
--
-- The HTTP API of Caddy is the parameter `exchange` of Caddy/Admin, a function from a request and a
-- state to a response, or none, and a state. Where a theorem depends on what Caddy does, its
-- hypothesis states what Caddy documents of the requests that are sent. Control/Tunnels records what
-- it asks Caddy for. A directory is a map from names to contents; a crash is a prefix of the calls
-- that `atomic_write` makes. A viewer's connection takes a list of events: each has a frame, what
-- else changed the sessions before it, and what mediasoup and the socket answer.
--
-- Not modelled: the reader of the input bridge's socket, which only drains it, the spawning of the
-- tasks and the listening of the processes, errors of the disk other than a crash, what is logged,
-- and the viewer of the proof of concept, which is not Rust. The dispatch of concurrent requests is
-- not modelled either: a run is a sequence of steps.
mod Prelude
pub mod Shared
pub mod Rathole
pub mod Gate
pub mod Sfu
pub mod Bandwidth
pub mod Control
pub mod Caddy
pub mod Storage
pub mod Poc
mod Tests
