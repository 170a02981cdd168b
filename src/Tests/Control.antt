-- ===== src/Tests/Control.antt =====
-- The handlers for tunnels at concrete requests.
use dun_tunel.Prelude.{
  ℕ, zero, suc, ◌+◌, ◌≤◌, ◌≡◌, refl, Bool, true, false, List, [], ◌∷◌, ◌++◌, Option, none, some,
  Text, text, lookup, insert, text_eq, arith, if◌then◌else◌,
}
use dun_tunel.Rathole.PortAllocator
use dun_tunel.Rathole.PortAllocator.{PortAllocator, allocate, release, count_up, remove_port}
use dun_tunel.Storage.Stores.{session_path}
use dun_tunel.Rathole.Services
use dun_tunel.Rathole.Services.{RatholeService, register, persist_and_reload}
use dun_tunel.Sfu.Sessions.{
  RouterManager, Pipeline, provision_session, build_session, pick_worker_index, install,
}
use dun_tunel.Control.Tunnels.{
  AppState, CreateFates, CreateSessionReq, CreateSessionResp, DeprovisionFates, json, status,
  create, create_routed, deprovision, update_token_handler, removes_route,
}
use dun_tunel.Control.Tunnels.Lifecycle.{IsServing, create-deprovision, update_token-rotates}
use dun_tunel.Control.Tunnels.Ports.{
  Request, creates, deprovisions, serve, serve_all, create-exhausted, Served,
}

abbrev pipeline : Pipeline
pipeline = record {
  router = some 7;
  plain_transport = some (record { id = 8; local_port = 40001; rtcp_port = none });
  producer = some 9;
  audio_producer = some 10;
}

abbrev fates : CreateFates
fates = record {
  config_written = true;
  route_added = true;
  pipeline = pipeline;
  cleaned_up = true;
  mapping_saved = true;
}

abbrev request : CreateSessionReq
request = record {
  session_id = text "s1";
  subdomain = text "abc.sin.example";
  tunnel_token = text "token";
}

abbrev app : PortAllocator → AppState
app pool = record {
  port_allocator = pool;
  rathole = dun_tunel.Rathole.Services.new;
  caddy_calls = [];
  sfu = record { workers = 2; worker_cursor = 0; sessions = [] };
  session_subdomains = [];
  subdomain_store = [];
}

abbrev small : AppState
small = app (record { free = 11000 ∷ 11001 ∷ [] })

abbrev response : CreateSessionResp
response = record {
  router_id = 7;
  producer_id = 9;
  plain_rtp_port = 40001;
  plain_rtcp_port = 40001;
  local_upstream_port = 11000;
}

created-ok : (create fates request small).0 ≡ json response
unfolding create allocate register persist_and_reload create_routed provision_session build_session
    pick_worker_index install lookup
created-ok = refl

abbrev ending : DeprovisionFates
ending = record { config_written = true; rtp_config_written = true; mapping_removed = true }

create-deprovision_example :
    let created = (create fates request small).1 in
    let ended = (deprovision ending (text "s1") created).1 in
    IsServing request 11000 created
    × (ended.caddy_calls ≡ removes_route (text "abc.sin.example") ∷ created.caddy_calls)
    × (lookup (text "s1") ended.rathole.services ≡ none)
    × (lookup (text "s1" ++ text "-rtp") ended.rathole.services ≡ none)
    × (lookup (text "s1") ended.session_subdomains ≡ none)
    × (lookup (text "s1") ended.sfu.sessions ≡ none)
    × (true ≡ true → lookup (session_path (text "s1")) ended.subdomain_store ≡ none)
    × (true ≡ true → ended.rathole.config ≡ dun_tunel.Prelude.values ended.rathole.services)
create-deprovision_example = create-deprovision fates ending request small response created-ok

update_token-rotates_example :
    let (s, a') = update_token_handler true (text "s1") (text "new") small in
    (lookup (text "s1") small.rathole.services ≡ none → (s ≡ 404) × (a' ≡ small))
    × ((svc : RatholeService)
        → lookup (text "s1") small.rathole.services ≡ some svc
        → (s ≡ 204)
          × (lookup (text "s1") a'.rathole.services ≡ some (record svc { token_hash = text "new" }))
          × (a'.rathole.config ≡ dun_tunel.Prelude.values a'.rathole.services))
update_token-rotates_example = update_token-rotates true (text "s1") (text "new") small

-- A session is created and torn down again, so many times.
cycles : ℕ → List Request
cycles zero = []
cycles (suc n) = creates fates request ∷ deprovisions ending (text "s1") ∷ cycles n

abbrev full : AppState
full = app dun_tunel.Rathole.PortAllocator.new

abbrev served : ℕ → Served
served n = serve_all (cycles n) (record { app = full; created = 0 })

thousand : (served 1000).created ≡ 1000
unfolding create allocate register persist_and_reload create_routed provision_session build_session
    pick_worker_index install lookup insert text_eq cycles serve_all serve deprovision
    dun_tunel.Prelude.remove dun_tunel.Rathole.Services.deregister
    dun_tunel.Sfu.Sessions.close_session dun_tunel.Rathole.PortAllocator.new count_up remove_port
thousand = refl

thousand-le : 1000 ≤ (served 1000).created
thousand-le = omega (arith, thousand)

create-exhausted_example : (create fates request (served 1000).app).0 ≡ status 503
create-exhausted_example = create-exhausted full (cycles 1000) fates request refl thousand-le
