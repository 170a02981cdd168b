-- ===== src/Control/Tunnels/Ports.antt =====
-- The upstream ports that sessions take.
use dun_tunel.Prelude.{
  ℕ, ◌+◌, ◌≤◌, ◌≡◌, refl, Bool, List, [], ◌∷◌, Text, length, arith, Bool-cases, inl, inr,
}
use dun_tunel.Prelude.Results.{Result}
use dun_tunel.Shared.Errors.{EdgeResult, ok, err}
use dun_tunel.Rathole.PortAllocator.{PortAllocator, new, allocate, release, insert_port}
use dun_tunel.Rathole.PortAllocator.Leases.{allocate-takes}
use dun_tunel.Rathole.PortAllocator.Sets.{length-count_up}
use dun_tunel.Rathole.Services.{ServiceRegistry, register}
use dun_tunel.Sfu.Sessions.{ProvisionedRouter, SfuError, provision_session}
use dun_tunel.Control.Tunnels.{
  AppState, CreateFates, CreateSessionReq, DeprovisionFates, Reply, json, status, aborted, create,
  create_registered, create_routed, create_provisioned, deprovision, update_token_handler,
  service_of, adds_route, route_of, is_panic,
}

-- A request, with what the world does during it.
pub data Request : Type 0 where
  creates : CreateFates → CreateSessionReq → Request
  deprovisions : DeprovisionFates → Text → Request
  rotates : Bool → Text → Text → Request

-- The server, and how many `create` requests it has answered with a session.
pub record Served : Type 0 where
  pub app : AppState
  pub created : ℕ

abbrev pub count_reply : {A : Type 0} → Reply A → ℕ
count_reply (json a) = 1
count_reply (status s) = 0
count_reply aborted = 0

unfoldable pub serve : Request → Served → Served
serve (creates f req) s =
    let (reply, app) = create f req s.app in
    record { app = app; created = count_reply reply + s.created }
serve (deprovisions f session_id) s = record s { app = (deprovision f session_id s.app).1 }
serve (rotates works session_id token) s = record s {
  app = (update_token_handler works session_id token s.app).1;
}

unfoldable pub serve_all : List Request → Served → Served
serve_all [] s = s
serve_all (q ∷ qs) s = serve_all qs (serve q s)

abbrev free_ports : AppState → ℕ
free_ports a = length a.port_allocator.free

length-insert_port-le : (p : ℕ) (ps : List ℕ) → length (insert_port p ps) ≤ length ps + 1
unfolding insert_port
length-insert_port-le p [] = omega arith
length-insert_port-le p (q ∷ qs) = ground (arith, length-insert_port-le p qs)

length-release-le : (p : ℕ) (a : PortAllocator) → length (release p a).free ≤ length a.free + 1
unfolding release
length-release-le p a = ground (arith, length-insert_port-le p a.free)

create_provisioned-ports :
    (f : CreateFates) (req : CreateSessionReq) (port : ℕ) (r : Result SfuError ProvisionedRouter)
    (a : AppState)
    → let (reply, a') = create_provisioned f req port r a in
      free_ports a' + count_reply reply ≤ free_ports a + 1
create_provisioned-ports f req port (Result.ok p) a = omega arith
create_provisioned-ports f req port (Result.err e) a = elim (Bool-cases (is_panic e)) [
  | inl y ↦ simp y (omega arith)
  | inr n ↦ simp n (omega (arith, length-release-le port a.port_allocator))
]

create_routed-ports :
    (f : CreateFates) (req : CreateSessionReq) (port : ℕ) (a : AppState)
    → let (reply, a') = create_routed f req port a in
      free_ports a' + count_reply reply ≤ free_ports a + 1
unfolding create_routed
create_routed-ports f req port a = elim (Bool-cases f.route_added) [
  | inl y ↦
      let (r, sfu) = provision_session f.pipeline req.session_id a.sfu in
      simp y (
        create_provisioned-ports f req port r
          (record a { caddy_calls = adds_route (route_of req port) ∷ a.caddy_calls; sfu = sfu }))
  | inr n ↦ simp n (omega arith)
]

create_registered-ports :
    (f : CreateFates) (req : CreateSessionReq) (port : ℕ)
    (r : EdgeResult (Unit {0}) × ServiceRegistry) (a : AppState)
    → let (reply, a') = create_registered f req port r a in
      free_ports a' + count_reply reply ≤ free_ports a + 1
create_registered-ports f req port (ok _, rathole) a =
    create_routed-ports f req port (record a { rathole = rathole })
create_registered-ports f req port (err e, rathole) a = omega arith

create-ports :
    (f : CreateFates) (req : CreateSessionReq) (a : AppState)
    → let (reply, a') = create f req a in free_ports a' + count_reply reply ≤ free_ports a
unfolding create
create-ports f req a = elim (allocate-takes a.port_allocator.free a.port_allocator refl) [
  | inl (p, e, l) ↦
      rw (create, e)
        (omega (
          arith,
          l,
          create_registered-ports f req p (register f.config_written (service_of req p) a.rathole)
              (record a { port_allocator = (allocate a.port_allocator).1 }),
        ))
  | inr (e, l, same) ↦ rw (create, e, same) (omega arith)
]

serve-ports :
    (q : Request) (s : Served)
    → free_ports (serve q s).app + (serve q s).created ≤ free_ports s.app + s.created
unfolding serve deprovision update_token_handler
serve-ports (creates f req) s = omega (arith, create-ports f req s.app)
serve-ports (deprovisions f session_id) s = omega arith
serve-ports (rotates works session_id token) s = omega arith

serve_all-ports :
    (qs : List Request) (s : Served)
    → free_ports (serve_all qs s).app + (serve_all qs s).created ≤ free_ports s.app + s.created
unfolding serve_all
serve_all-ports [] s = omega arith
serve_all-ports (q ∷ qs) s = omega (arith, serve_all-ports qs (serve q s), serve-ports q s)

new-ports : length new.free ≡ 1000
unfolding new
new-ports = length-count_up 11000 1000

-- From a server with a new port pool, over any requests: once 1000 `create` requests have been
-- answered with a session, every `create` gets 503, even if all of those sessions have been
-- deprovisioned since.
pub create-exhausted :
    (a : AppState) (qs : List Request) (f : CreateFates) (req : CreateSessionReq)
    → a.port_allocator ≡ new
    → let later = serve_all qs (record { app = a; created = 0 }) in
      1000 ≤ later.created → (create f req later.app).0 ≡ status 503
unfolding create
create-exhausted a qs f req e enough =
    let later = serve_all qs (record { app = a; created = 0 }) in
    let bound = serve_all-ports qs (record { app = a; created = 0 }) in
    let fresh : free_ports a ≡ 1000 = rw e new-ports in
    elim (allocate-takes later.app.port_allocator.free later.app.port_allocator refl) [
      | inl (p, _, l) ↦ absurd (omega (arith, l, bound, fresh, enough))
      | inr (x, l, same) ↦ rw (create, x) refl
    ]
