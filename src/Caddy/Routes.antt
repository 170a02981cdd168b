-- ===== src/Caddy/Routes.antt =====
-- `build_route` of crates/edge-caddy-bridge/src/route_builder.rs. A route is built as the tree of its
-- matchers and handlers here, and Routes/Render.antt makes the JSON for Caddy from it.
pub mod Render
pub mod SessionEnded
pub mod Hardening
pub mod Dispatch
pub mod Ids
use dun_tunel.Prelude.{
  ℕ, List, [], ◌∷◌, ◌++◌, map, Option, none, some, Text, text, ◌==◌, if◌then◌else◌,
}
use dun_tunel.Shared.Types.{CaddyRoute}

-- `forward_auth` asks the gate's `/check`, and goes on with its handler on a 2xx answer.
pub data Handler : Type 0 where
  static_response : ℕ → Handler
  reverse_proxy : Text → Handler
  api_rewrite : Text → Handler
  forward_auth : Text → Handler → Handler

-- A route for the paths that one of the patterns matches, or for all.
pub record InnerRoute : Type 0 where
  pub group : Option Text
  pub paths : Option (List Text)
  pub handle : Handler

pub record Route : Type 0 where
  pub id : Text
  pub host : Text
  pub routes : List InnerRoute

abbrev pub dun_api_path_prefixes : List Text
dun_api_path_prefixes =
    text "/viewer/exchange"
    ∷ text "/viewer/password"
    ∷ text "/viewer/refresh-cookie"
    ∷ text "/viewer/jwks"
    ∷ []

abbrev pub edge_control_path_prefixes : List Text
edge_control_path_prefixes = text "/v1/sfu" ∷ []

abbrev pub viewer_edge_block_paths : List Text
viewer_edge_block_paths = text "/host" ∷ text "/host/*" ∷ []

abbrev pub viewer_public_paths : List Text
viewer_public_paths =
    text "/viewer"
    ∷ text "/viewer/"
    ∷ text "/viewer/index.html"
    ∷ text "/static/*"
    ∷ text "/assets/*"
    ∷ text "/env.js"
    ∷ text "/favicon*"
    ∷ text "/robots.txt"
    ∷ []

-- Each prefix, and what is below it.
unfoldable pub with_children : List Text → List Text
with_children [] = []
with_children (p ∷ ps) = p ∷ (p ++ text "/*") ∷ with_children ps

-- `replace('.', "_")`.
unfoldable pub underscored : Text → Text
underscored [] = []
underscored (c ∷ s) = (if c == b'.' then b'_' else c) ∷ underscored s

unfoldable pub route_id : Text → Text
route_id host = text "dun-tunel-" ++ underscored host

abbrev pub for_paths : List Text → Handler → InnerRoute
for_paths paths handle = record { group = none; paths = some paths; handle = handle }

abbrev pub in_group : Text → List Text → Handler → InnerRoute
in_group group paths handle = record { group = some group; paths = some paths; handle = handle }

abbrev pub for_all : Handler → InnerRoute
for_all handle = record { group = none; paths = none; handle = handle }

abbrev pub api_routes : Option Text → List InnerRoute
api_routes none = []
api_routes (some upstream) =
    in_group (text "viewer-api") (with_children dun_api_path_prefixes) (api_rewrite upstream) ∷ []

abbrev pub control_routes : Text → Option Text → List InnerRoute
control_routes gate none = []
control_routes gate (some upstream) =
    for_paths (with_children edge_control_path_prefixes)
      (forward_auth gate (reverse_proxy upstream))
    ∷ []

-- What comes behind the routes for dun-api: with a gate, public paths, signalling and the rest.
abbrev pub guarded_routes : Option Text → Option Text → Text → List InnerRoute
guarded_routes none control tunnel = for_all (reverse_proxy tunnel) ∷ []
guarded_routes (some gate) control tunnel =
    in_group (text "viewer-public") viewer_public_paths (reverse_proxy tunnel)
    ∷ (control_routes gate control ++ for_all (forward_auth gate (reverse_proxy tunnel)) ∷ [])

unfoldable pub build_route : CaddyRoute → Option Text → Option Text → Option Text → Route
build_route route dun_api_upstream auth_gate_upstream edge_control_upstream = record {
  id = route_id route.host;
  host = route.host;
  routes =
      for_paths viewer_edge_block_paths (static_response 403)
      ∷ (api_routes dun_api_upstream
          ++ guarded_routes auth_gate_upstream edge_control_upstream route.upstream);
}
