-- ===== src/Tests/Caddy.antt =====
-- Caddy's routes at a concrete session.
use dun_tunel.Prelude.{◌≡◌, true, [], none, some, text, text_eq}
use dun_tunel.Shared.Types.{CaddyRoute}
use dun_tunel.Caddy.Routes.{build_route, route_id}
use dun_tunel.Caddy.Routes.Dispatch.{dispatch, any_matches, build_route-dispatch}

abbrev route : CaddyRoute
route = record { host = text "a.b"; upstream = text "127.0.0.1:11000"; ws_paths = [] }

-- Signalling is for those whom the gate lets through. The patterns are taken literally here.
build_route-dispatch_example :
    dispatch text_eq true
      (text "/v1/sfu")
      (build_route route none (some (text "127.0.0.1:9444")) (some (text "127.0.0.1:9443"))).routes
    ≡ some (text "127.0.0.1:9443")
unfolding any_matches text_eq dun_tunel.Caddy.Routes.with_children
build_route-dispatch_example =
    build_route-dispatch text_eq true (text "/v1/sfu") route none (text "127.0.0.1:9444")
      (some (text "127.0.0.1:9443"))
