-- ===== src/Caddy/Routes/Render.antt =====
-- The JSON that crates/edge-caddy-bridge/src/route_builder.rs writes for Caddy.
use dun_tunel.Prelude.{ℕ, true, List, [], ◌∷◌, ◌++◌, map, Option, none, some, Text, text}
use dun_tunel.Prelude.Json.{Json, string, number, bool, str, ◌:=◌, obj, list, only, strings}
use dun_tunel.Caddy.Routes.{
  Handler, static_response, reverse_proxy, api_rewrite, forward_auth, InnerRoute, Route,
}

abbrev pub viewer_response_security_headers : Json
viewer_response_security_headers = obj (
    "set"
      := obj (
          "Content-Security-Policy"
            := only (
                string (
                  text "default-src 'self'; "
                  ++ text "script-src 'self' 'unsafe-inline'; "
                  ++ text "style-src 'self' 'unsafe-inline'; "
                  ++ text "img-src 'self' data: blob:; "
                  ++ text "media-src 'self' blob:; "
                  ++ text "connect-src 'self' wss: https:; "
                  ++ text "font-src 'self' data:; "
                  ++ text "frame-ancestors 'none'; "
                  ++ text "form-action 'self'; "
                  ++ text "base-uri 'self'; "
                  ++ text "object-src 'none'; "
                  ++ text "worker-src 'self' blob:"))
          ∷ "X-Content-Type-Options" := only (str "nosniff")
          ∷ "X-Frame-Options" := only (str "DENY")
          ∷ "Referrer-Policy" := only (str "strict-origin-when-cross-origin")
          ∷ "Permissions-Policy"
            := only (
                string (
                  text "geolocation=(), "
                  ++ text "microphone=(self), "
                  ++ text "camera=(self), "
                  ++ text "payment=(), "
                  ++ text "usb=(), "
                  ++ text "magnetometer=(), "
                  ++ text "gyroscope=(), "
                  ++ text "accelerometer=()"))
          ∷ "Strict-Transport-Security" := only (str "max-age=31536000; includeSubDomains")
          ∷ "Cross-Origin-Opener-Policy" := only (str "same-origin")
          ∷ "Cross-Origin-Resource-Policy" := only (str "same-origin")
          ∷ [])
    ∷ "deferred" := bool true
    ∷ [])

abbrev pub edge_block_host_body : Text
edge_block_host_body =
    text "403 Forbidden\n\nThe `/host` route is local-only and cannot be "
    ++ text "accessed via a public share link. Only the device that owns this "
    ++ text "profile can open the host UI. If you received a share link, please "
    ++ text "use the `/viewer/` URL the owner sent you.\n"

abbrev pub hard_block : ℕ → Json
hard_block status = obj (
    "handler" := str "static_response"
    ∷ "status_code" := number status
    ∷ "headers"
      := obj (
          "Content-Type" := only (str "text/plain; charset=utf-8")
          ∷ "Cache-Control" := only (str "no-store")
          ∷ "X-Content-Type-Options" := only (str "nosniff")
          ∷ "X-Frame-Options" := only (str "DENY")
          ∷ [])
    ∷ "body" := string edge_block_host_body
    ∷ [])

abbrev pub http_transport : Json
http_transport = obj ("protocol" := str "http" ∷ "versions" := list (str "1.1" ∷ str "2" ∷ []) ∷ [])

abbrev pub dial : Text → Json
dial upstream = only (obj ("dial" := string upstream ∷ []))

abbrev pub forwarded_headers : List (Text × Json)
forwarded_headers =
    "X-Forwarded-Host" := only (str "{http.request.host}")
    ∷ "X-Forwarded-Proto" := only (str "{http.request.scheme}")
    ∷ "X-Forwarded-For" := only (str "{http.request.remote.host}")
    ∷ []

abbrev pub request_set : List (Text × Json) → Json
request_set headers = obj (
    "request" := obj ("set" := obj headers ∷ [])
    ∷ "response" := viewer_response_security_headers
    ∷ [])

-- The handler that passes a request on.
abbrev pub proxy_handle : Text → List (Text × Json) → Json
proxy_handle upstream headers = obj (
    "handler" := str "reverse_proxy"
    ∷ "transport" := http_transport
    ∷ "upstreams" := dial upstream
    ∷ "headers" := request_set headers
    ∷ [])

abbrev pub rewrite_handle : Json
rewrite_handle = obj (
    "handler" := str "rewrite"
    ∷ "uri" := str "/api{http.request.uri.path}{http.request.uri.search}"
    ∷ [])

-- The headers that the gate's check of a request gets.
abbrev pub check_headers : List (Text × Json)
check_headers =
    "X-Forwarded-Host" := only (str "{http.request.host}")
    ∷ "X-Forwarded-Method" := only (str "{http.request.method}")
    ∷ "X-Forwarded-Uri" := only (str "{http.request.uri}")
    ∷ []

abbrev pub copy_headers : Json
copy_headers = obj (
    "handler" := str "headers"
    ∷ "request"
      := obj (
          "set"
            := obj
                ("X-Forwarded-Sub" := only (str "{http.reverse_proxy.header.X-Forwarded-Sub}") ∷ [])
          ∷ [])
    ∷ [])

-- The request goes to the gate's `/check` first, and on a 2xx answer to the handlers behind it.
abbrev pub auth_handle : Text → List Json → Json
auth_handle gate behind = obj (
    "handler" := str "reverse_proxy"
    ∷ "rewrite" := obj ("method" := str "GET" ∷ "uri" := str "/check" ∷ [])
    ∷ "upstreams" := dial gate
    ∷ "headers" := request_set check_headers
    ∷ "handle_response"
      := only (
          obj (
            "match" := obj ("status_code" := only (number 2) ∷ [])
            ∷ "routes"
              := list (
                  obj ("handle" := only copy_headers ∷ [])
                  ∷ obj ("handle" := list behind ∷ [])
                  ∷ [])
            ∷ []))
    ∷ [])

unfoldable pub handle_json : Text → Handler → List Json
handle_json host (static_response status) = hard_block status ∷ []
handle_json host (reverse_proxy upstream) =
    proxy_handle upstream ("Host" := only (string host) ∷ forwarded_headers) ∷ []
handle_json host (api_rewrite upstream) =
    rewrite_handle ∷ proxy_handle upstream forwarded_headers ∷ []
handle_json host (forward_auth gate behind) = auth_handle gate (handle_json host behind) ∷ []

abbrev pub group_member : Option Text → List (Text × Json)
group_member none = []
group_member (some group) = "group" := string group ∷ []

abbrev pub match_member : Option (List Text) → List (Text × Json)
match_member none = []
match_member (some paths) = "match" := only (obj ("path" := strings paths ∷ [])) ∷ []

unfoldable pub inner_route_json : Text → InnerRoute → Json
unfolding handle_json
inner_route_json host r = obj (
    group_member r.group
    ++ match_member r.paths
    ++ "handle" := list (handle_json host r.handle) ∷ [])

unfoldable pub route_json : Route → Json
unfolding inner_route_json
route_json route = obj (
    "@id" := string route.id
    ∷ "match" := only (obj ("host" := only (string route.host) ∷ []))
    ∷ "handle"
      := only (
          obj (
            "handler" := str "subroute"
            ∷ "routes" := list (map (inner_route_json route.host) route.routes)
            ∷ []))
    ∷ "terminal" := bool true
    ∷ [])
