-- ===== src/Caddy/Routes/Hardening.antt =====
-- What the JSON of a route says about the handlers that reach an upstream.
use dun_tunel.Prelude.{
  Bool, true, false, ◌&&◌, Option, none, some, Text, text, text_eq, if◌then◌else◌, ◌≡◌, refl,
}
use dun_tunel.Prelude.Json.{
  Json, Items, no_items, item, Members, no_members, member, null, bool, number, string, array,
  object, find, get, json_eq,
}
use dun_tunel.Shared.Types.{CaddyRoute}
use dun_tunel.Caddy.Routes.{build_route, route_id}
use dun_tunel.Caddy.Routes.Render.{viewer_response_security_headers, route_json}

abbrev pub is_text : Text → Option Json → Bool
is_text t none = false
is_text t (some j) = elim j [ string s ↦ text_eq s t | _ ↦ false ]

abbrev pub member_of : Text → Option Json → Option Json
member_of k none = none
member_of k (some j) = get k j

-- A `reverse_proxy` handler sets all of the security headers on what it answers.
unfoldable pub sets_headers : Members → Bool
unfolding text_eq json_eq
sets_headers ms =
    if is_text (text "reverse_proxy") (find (text "handler") ms)
    then elim (member_of (text "response") (find (text "headers") ms)) [
      | none ↦ false
      | some j ↦ json_eq j viewer_response_security_headers
    ]
    else true

-- Every handler in the tree does.
unfoldable mutual
  unfolding sets_headers

  pub hardened : Json → Bool
  hardened null = true
  hardened (bool b) = true
  hardened (number n) = true
  hardened (string s) = true
  hardened (array js) = hardened_items js
  hardened (object ms) = sets_headers ms && hardened_members ms

  pub hardened_items : Items → Bool
  hardened_items no_items = true
  hardened_items (item j js) = hardened j && hardened_items js

  pub hardened_members : Members → Bool
  hardened_members no_members = true
  hardened_members (member k j ms) = hardened j && hardened_members ms

-- Whatever upstreams are known, every handler in a session's route that passes a request on, to the
-- tunnel, to dun-api, to edge-control or to the gate, sets the security headers on the answer.
pub build_route-hardened :
    (route : CaddyRoute) (api gate control : Option Text)
    → hardened (route_json (build_route route api gate control)) ≡ true
unfolding build_route route_json hardened json_eq text_eq sets_headers
    dun_tunel.Caddy.Routes.with_children
build_route-hardened route none none control = refl
build_route-hardened route (some a) none control = refl
build_route-hardened route none (some g) none = refl
build_route-hardened route (some a) (some g) none = refl
build_route-hardened route none (some g) (some c) = refl
build_route-hardened route (some a) (some g) (some c) = refl
