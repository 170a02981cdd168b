-- ===== src/Caddy/Routes/SessionEnded.antt =====
-- The route that answers for the hosts that no session has: `build_session_ended_route` of
-- crates/edge-caddy-bridge/src/route_builder.rs.
use dun_tunel.Prelude.{true, [], ◌∷◌, ◌++◌, Text, text}
use dun_tunel.Prelude.Json.{Json, string, number, bool, str, ◌:=◌, obj, list, only}

abbrev pub session_ended_body : Text
session_ended_body =
    text "<!doctype html>"
    ++ text "<html lang=\"en\"><head><meta charset=\"utf-8\">"
    ++ text "<meta name=\"viewport\" content=\"width=device-width,initial-scale=1\">"
    ++ text "<title>Session ended</title>"
    ++ text "<style>body{font-family:system-ui,-apple-system,Segoe UI,Roboto,sans-serif;"
    ++ text "background:#0b0d10;color:#e6e6e6;margin:0;display:grid;place-items:center;"
    ++ text "min-height:100vh}main{max-width:32rem;padding:2rem;text-align:center}"
    ++ text "h1{font-size:1.5rem;margin:0 0 .5rem;color:#f5f5f5}"
    ++ text "p{margin:0;color:#9aa0a6;line-height:1.5}"
    ++ text "code{background:#1a1d22;color:#cdd2d8;padding:.1rem .35rem;border-radius:.2rem;"
    ++ text "font-family:ui-monospace,monospace;font-size:.9em}</style></head>"
    ++ text "<body><main><h1>Session ended</h1>"
    ++ text "<p>Người chia sẻ đã đóng phiên này. Đường dẫn không còn hiệu lực.<br>"
    ++ text "Hãy yêu cầu họ tạo phiên mới nếu bạn cần truy cập tiếp.</p>"
    ++ text "</main></body></html>"

abbrev pub session_ended_headers : Json
session_ended_headers = obj (
    "Content-Type" := only (str "text/html; charset=utf-8")
    ∷ "Cache-Control" := only (str "no-store")
    ∷ "Content-Security-Policy"
      := only (
          string (
            text "default-src 'self'; script-src 'none'; style-src 'unsafe-inline'; "
            ++ text "frame-ancestors 'none'; base-uri 'none'; form-action 'none'"))
    ∷ "X-Content-Type-Options" := only (str "nosniff")
    ∷ "X-Frame-Options" := only (str "DENY")
    ∷ "Referrer-Policy" := only (str "no-referrer")
    ∷ [])

abbrev pub session_ended_handle : Json
session_ended_handle = list (
    obj ("handler" := str "headers" ∷ "response" := obj ("set" := session_ended_headers ∷ []) ∷ [])
    ∷ obj (
        "handler" := str "static_response"
        ∷ "status_code" := number 410
        ∷ "body" := string session_ended_body
        ∷ [])
    ∷ [])

abbrev pub build_session_ended_route : Text → Text → Json
build_session_ended_route id host_pattern = obj (
    "@id" := string id
    ∷ "match" := only (obj ("host" := only (string host_pattern) ∷ []))
    ∷ "handle"
      := only (
          obj (
            "handler" := str "subroute"
            ∷ "routes" := only (obj ("handle" := session_ended_handle ∷ []))
            ∷ []))
    ∷ "terminal" := bool true
    ∷ [])
