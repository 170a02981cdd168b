-- ===== src/Control/Tunnels/Lifecycle.antt =====
-- A session from its creation to its end.
use dun_tunel.Prelude.{
  ℕ, ◌≡◌, refl, subst, Bool, true, false, ◌∷◌, ◌++◌, none, some, Text, text, lookup, remove, arith,
  Bool-cases, inl, inr, if◌then◌else◌, lookup-insert_self, lookup-remove_self, lookup-remove,
  values,
}
use dun_tunel.Prelude.Results.{Result}
use dun_tunel.Shared.Errors.{EdgeResult, EdgeResult-cases, ok, err}
use dun_tunel.Storage.Stores.{session_path}
use dun_tunel.Rathole.PortAllocator.{allocate}
use dun_tunel.Rathole.Services.{
  RatholeService, ServiceRegistry, register, deregister, update_token, persist_and_reload,
}
use dun_tunel.Sfu.Sessions.{ProvisionedRouter, SfuError, provision_session, close_session}
use dun_tunel.Control.Tunnels.{
  AppState, CreateFates, CreateSessionReq, CreateSessionResp, DeprovisionFates, Reply, json, status,
  aborted, create, create_registered, create_routed, create_provisioned, deprovision,
  update_token_handler, service_of, route_of, adds_route, removes_route, is_panic,
}

-- What a session that was answered has: its service under the token of the request, and its host.
pub record IsServing (req : CreateSessionReq) (port : ℕ) (a : AppState) : Type 0 where
  pub service : lookup req.session_id a.rathole.services ≡ some (service_of req port)
  pub subdomain : lookup req.session_id a.session_subdomains ≡ some req.subdomain

-- Whatever the reply is, if it is a session then it is being served on its port.
abbrev Serves : CreateSessionReq → Reply CreateSessionResp × AppState → Type 0
Serves req (json resp, a) = IsServing req resp.local_upstream_port a
Serves req (status s, a) = Unit {0}
Serves req (aborted, a) = Unit {0}

create_provisioned-Serves :
    (f : CreateFates) (req : CreateSessionReq) (port : ℕ) (r : Result SfuError ProvisionedRouter)
    (a : AppState)
    → lookup req.session_id a.rathole.services ≡ some (service_of req port)
    → Serves req (create_provisioned f req port r a)
create_provisioned-Serves f req port (Result.ok p) a h = record {
  service = h;
  subdomain = lookup-insert_self req.session_id req.subdomain a.session_subdomains;
}
create_provisioned-Serves f req port (Result.err e) a h = elim (Bool-cases (is_panic e)) [
  | inl y ↦ simp y tt
  | inr n ↦ simp n tt
]

create_routed-Serves :
    (f : CreateFates) (req : CreateSessionReq) (port : ℕ) (a : AppState)
    → lookup req.session_id a.rathole.services ≡ some (service_of req port)
    → Serves req (create_routed f req port a)
unfolding create_routed
create_routed-Serves f req port a h = elim (Bool-cases f.route_added) [
  | inl y ↦
      let (r, sfu) = provision_session f.pipeline req.session_id a.sfu in
      simp y (
        create_provisioned-Serves f req port r
          (record a { caddy_calls = adds_route (route_of req port) ∷ a.caddy_calls; sfu = sfu }) h)
  | inr n ↦ simp n tt
]

registered-service :
    (works : Bool) (svc : RatholeService) (r : ServiceRegistry)
    → lookup svc.name (register works svc r).1.services ≡ some svc
unfolding register persist_and_reload
registered-service true svc r = lookup-insert_self svc.name svc r.services
registered-service false svc r = lookup-insert_self svc.name svc r.services

create_registered-Serves :
    (f : CreateFates) (req : CreateSessionReq) (port : ℕ)
    (r : EdgeResult (Unit {0}) × ServiceRegistry) (a : AppState)
    → lookup req.session_id r.1.services ≡ some (service_of req port)
    → Serves req (create_registered f req port r a)
create_registered-Serves f req port (ok _, rathole) a h =
    create_routed-Serves f req port (record a { rathole = rathole }) h
create_registered-Serves f req port (err e, rathole) a h = tt

create-Serves :
    (f : CreateFates) (req : CreateSessionReq) (a : AppState) → Serves req (create f req a)
unfolding create
create-Serves f req a = elim (EdgeResult-cases (allocate a.port_allocator).0) [
  | inl (p, e) ↦
      rw (create, e)
        (create_registered-Serves f req p (register f.config_written (service_of req p) a.rathole)
          (record a { port_allocator = (allocate a.port_allocator).1 })
          (registered-service f.config_written (service_of req p) a.rathole))
  | inr (x, e) ↦ rw (create, e) tt
]

serving :
    (req : CreateSessionReq) (answer : Reply CreateSessionResp × AppState)
    {resp : CreateSessionResp}
    → Serves req answer
    → answer.0 ≡ json resp
    → IsServing req resp.local_upstream_port answer.1
serving req (json r, a) {resp} h e =
    let same : r ≡ resp = cc in
    subst (λ (x : CreateSessionResp). IsServing req x.local_upstream_port a) same h
serving req (status s, a) h e = cc
serving req (aborted, a) h e = cc

removed-service :
    (works : Bool) (name : Text) (r : ServiceRegistry)
    → (deregister works name r).1.services ≡ remove name r.services
unfolding deregister persist_and_reload
removed-service true name r = refl
removed-service false name r = refl

written-config :
    (name : Text) (r : ServiceRegistry)
    → (deregister true name r).1.config ≡ values (deregister true name r).1.services
unfolding deregister persist_and_reload
written-config name r = refl

-- When `create` answers with a session, its rathole service is registered with the token of the
-- request and its subdomain is mapped. `deprovision` then asks Caddy to remove exactly that
-- subdomain, and whatever fails, the running process has no service of the session, for its tunnel or
-- its RTP, no mapping and no router left. The session's mapping on the disk is gone too where the
-- file could be removed, and rathole's configuration has exactly the services that are left where its
-- last write works.
pub create-deprovision :
    (f : CreateFates) (g : DeprovisionFates) (req : CreateSessionReq) (a : AppState)
    (resp : CreateSessionResp)
    → (create f req a).0 ≡ json resp
    → let created = (create f req a).1 in
      let ended = (deprovision g req.session_id created).1 in
      IsServing req resp.local_upstream_port created
      × (ended.caddy_calls ≡ removes_route req.subdomain ∷ created.caddy_calls)
      × (lookup req.session_id ended.rathole.services ≡ none)
      × (lookup (req.session_id ++ text "-rtp") ended.rathole.services ≡ none)
      × (lookup req.session_id ended.session_subdomains ≡ none)
      × (lookup req.session_id ended.sfu.sessions ≡ none)
      × (g.mapping_removed ≡ true
          → lookup (session_path req.session_id) ended.subdomain_store ≡ none)
      × (g.rtp_config_written ≡ true → ended.rathole.config ≡ values ended.rathole.services)
unfolding deprovision close_session
create-deprovision f g req a resp e =
    let created = (create f req a).1 in
    let served = serving req (create f req a) (create-Serves f req a) e in
    let rathole = (deregister g.config_written req.session_id created.rathole).1 in
    (
      served,
      rw served.subdomain refl,
      rw
          (
            removed-service g.rtp_config_written (req.session_id ++ text "-rtp") rathole,
            removed-service g.config_written req.session_id created.rathole,
            lookup-remove,
            lookup-remove_self req.session_id created.rathole.services,
          )
          (ground arith),
      rw (removed-service g.rtp_config_written (req.session_id ++ text "-rtp") rathole)
          (lookup-remove_self (req.session_id ++ text "-rtp") rathole.services),
      lookup-remove_self req.session_id created.session_subdomains,
      lookup-remove_self req.session_id created.sfu.sessions,
      λ gone. rw gone (lookup-remove_self (session_path req.session_id) created.subdomain_store),
      λ written. rw written (written-config (req.session_id ++ text "-rtp") rathole),
    )

-- What a token rotation finds and leaves: 404 exactly for a session without a service, with nothing
-- changed. For a session with one, its service has the new token and keeps the rest, and the status is
-- 204 exactly when the configuration could be written, which then holds it.
pub update_token-rotates :
    (works : Bool) (session_id tunnel_token : Text) (a : AppState)
    → let (s, a') = update_token_handler works session_id tunnel_token a in
      (lookup session_id a.rathole.services ≡ none → (s ≡ 404) × (a' ≡ a))
      × ((svc : RatholeService)
          → lookup session_id a.rathole.services ≡ some svc
          → (s ≡ (if works then 204 else 500))
            × (lookup session_id a'.rathole.services
                ≡ some (record svc { token_hash = tunnel_token }))
            × (a'.rathole.config
                ≡ (if works then values a'.rathole.services else a.rathole.config)))
unfolding update_token_handler update_token persist_and_reload
update_token-rotates true session_id tunnel_token a = (
  λ e. rw (e, update_token) (refl, refl),
  λ svc e.
      rw (e, update_token, persist_and_reload)
        (
          refl,
          lookup-insert_self session_id (record svc { token_hash = tunnel_token })
              a.rathole.services,
          refl,
        ),
)
update_token-rotates false session_id tunnel_token a = (
  λ e. rw (e, update_token) (refl, refl),
  λ svc e.
      rw (e, update_token, persist_and_reload)
        (
          refl,
          lookup-insert_self session_id (record svc { token_hash = tunnel_token })
              a.rathole.services,
          refl,
        ),
)
