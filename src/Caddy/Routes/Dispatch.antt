-- ===== src/Caddy/Routes/Dispatch.antt =====
-- Where a viewer's request ends up. Caddy tries the routes of a subroute in order, and each of these
-- handlers answers the request. How it matches a pattern with a path is a parameter.
use dun_tunel.Prelude.{
  ◌≡◌, Bool, true, false, ◌||◌, List, [], ◌∷◌, Option, none, some, Text, arith, if◌then◌else◌,
}
use dun_tunel.Shared.Types.{CaddyRoute}
use dun_tunel.Caddy.Routes.{
  Handler, static_response, reverse_proxy, api_rewrite, forward_auth, InnerRoute, build_route,
  with_children, dun_api_path_prefixes, edge_control_path_prefixes, viewer_edge_block_paths,
  viewer_public_paths,
}

unfoldable pub any_matches : (Text → Text → Bool) → Text → List Text → Bool
any_matches matches path [] = false
any_matches matches path (p ∷ ps) = matches p path || any_matches matches path ps

abbrev pub accepts : (Text → Text → Bool) → Text → Option (List Text) → Bool
accepts matches path none = true
accepts matches path (some patterns) = any_matches matches path patterns

-- The upstream that gets the request, where the gate gives the verdict.
unfoldable pub upstream_of : Bool → Handler → Option Text
upstream_of verdict (static_response s) = none
upstream_of verdict (reverse_proxy u) = some u
upstream_of verdict (api_rewrite u) = some u
upstream_of verdict (forward_auth gate h) =
    let behind = upstream_of verdict h in if verdict then behind else none

unfoldable pub dispatch : (Text → Text → Bool) → Bool → Text → List InnerRoute → Option Text
dispatch matches verdict path [] = none
dispatch matches verdict path (r ∷ rs) =
    let rest = dispatch matches verdict path rs in
    if accepts matches path r.paths then upstream_of verdict r.handle else rest

abbrev pub or_upstream : Bool → Option Text → Option Text → Option Text
or_upstream matched none other = other
or_upstream matched (some upstream) other = if matched then some upstream else other

-- With a gate: no upstream gets a request for a blocked path. Of the others, dun-api gets those for its
-- paths, where it is known, and the tunnel those for public paths, whatever the gate says. Any other
-- request needs the gate's consent, and then edge-control gets those for signalling, where it is
-- known, and the tunnel the rest.
pub build_route-dispatch :
    (matches : Text → Text → Bool) (verdict : Bool) (path : Text) (route : CaddyRoute)
    (api : Option Text) (gate : Text) (control : Option Text)
    → let hits = any_matches matches path in
      dispatch matches verdict path (build_route route api (some gate) control).routes ≡ (
        if hits viewer_edge_block_paths
        then none
        else or_upstream (hits (with_children dun_api_path_prefixes)) api (
            if hits viewer_public_paths
            then some route.upstream
            else if verdict
            then or_upstream
                (hits (with_children edge_control_path_prefixes))
                control
                (some route.upstream)
            else none))
unfolding build_route dispatch upstream_of
build_route-dispatch matches verdict path route none gate none = ground arith
build_route-dispatch matches verdict path route none gate (some c) = ground arith
build_route-dispatch matches verdict path route (some a) gate none = ground arith
build_route-dispatch matches verdict path route (some a) gate (some c) = ground arith
