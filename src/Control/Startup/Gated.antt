-- ===== src/Control/Startup/Gated.antt =====
-- The gate before the viewers, from the environment to the routes in Caddy.
use dun_tunel.Prelude.{ℕ, ◌≡◌, refl, subst, Bool, false, Option, none, some, Text, arith}
use dun_tunel.Prelude.Results.{ok, ok_or, Holds, >>=-Holds}
use dun_tunel.Shared.Env.{Env, var}
use dun_tunel.Shared.Types.{CaddyRoute}
use dun_tunel.Caddy.Routes.{
  Route, build_route, with_children, dun_api_path_prefixes, viewer_public_paths,
}
use dun_tunel.Caddy.Routes.Dispatch.{any_matches, dispatch, build_route-dispatch}
use dun_tunel.Caddy.Admin.Client.{AdminClient}
use dun_tunel.Control.Config.{EdgeConfig, named_gate, or_local_gate, from_env}
use dun_tunel.Control.Startup.{client_of}

or_local_gate-some : (o : Option Text) → (gate : Text) × (or_local_gate o ≡ some gate)
or_local_gate-some none = (_, refl)
or_local_gate-some (some gate) = (gate, refl)

abbrev HasGate : EdgeConfig → Type 0
HasGate cfg = (gate : Text) × (cfg.viewer_gate_upstream ≡ some gate)

from_env-HasGate : (cpus : Option ℕ) (env : Env) → Holds HasGate (from_env cpus env)
unfolding from_env
from_env-HasGate cpus env = >>=-Holds HasGate (ok_or (var env "REGION_ID") _) _ (λ region r.
    >>=-Holds HasGate (ok_or (var env "DUN_API_ENDPOINT") _) _
      (λ endpoint e. or_local_gate-some (named_gate (var env "EDGE_VIEWER_GATE_UPSTREAM"))))

-- The route that the client of the configuration puts into Caddy.
abbrev pub routed : AdminClient → CaddyRoute → Route
routed client route =
    build_route route client.dun_api_upstream client.auth_gate_upstream client.edge_control_upstream

-- Whatever the environment says of the gate, also that it is disabled: once the configuration can be
-- read, a request that the gate does not consent to gets to no upstream of any route that the client
-- adds, that of the edge's own API included, unless its path is public or one of dun-api's.
pub from_env-guards :
    (cpus : Option ℕ) (env : Env) (cfg : EdgeConfig) (matches : Text → Text → Bool) (path : Text)
    (route : CaddyRoute)
    → from_env cpus env ≡ ok cfg
    → any_matches matches path (with_children dun_api_path_prefixes) ≡ false
    → any_matches matches path viewer_public_paths ≡ false
    → dispatch matches false path (routed (client_of cfg) route).routes ≡ none
unfolding client_of
from_env-guards cpus env cfg matches path route h api public =
    let (gate, e) = subst (Holds HasGate) h (from_env-HasGate cpus env) in
    rw e (
      ground (
        arith,
        api,
        public,
        build_route-dispatch matches false path route (client_of cfg).dun_api_upstream gate
            (client_of cfg).edge_control_upstream,
      ))
