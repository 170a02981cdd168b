-- ===== src/Tests/Admin.antt =====
-- The admin client at a concrete Caddy, which keeps one array.
use Prim.Native.String.{String}
use dun_tunel.Prelude.{
  ℕ, ◌+◌, ◌≤◌, ◌≡◌, refl, Bool, true, false, List, [], ◌∷◌, ◌++◌, Option, none, some, Text, text,
  text_eq, if◌then◌else◌, strip_suffix, strip_prefix, lookup, insert, arith,
}
use dun_tunel.Prelude.Json
use dun_tunel.Prelude.Json.{
  Json, null, string, array, item_list, items, item_list-items, obj, ◌:=◌, str, strings, list,
  no_members,
}
use dun_tunel.Shared.Types.{CaddyRoute}
use dun_tunel.Shared.Errors.{ok}
use dun_tunel.Caddy.Routes.{route_id, build_route, underscored}
use dun_tunel.Caddy.Routes.Render.{route_json}
use dun_tunel.Caddy.Routes.Hardening.{hardened, build_route-hardened}
use dun_tunel.Caddy.Admin.Requests.{
  Method, get, put, post, patch, delete, Target, by_id, servers, server_routes, tls_policies,
  at_index, tls_automation, Request, Response, Exchange, World, ◌>>=◌, some_or, pure, require,
  modify,
}
use dun_tunel.Caddy.Admin.Client.{
  AdminClient, has_id, without_nulls, add_route, body_of, dedup_id_in_array, delete_stale,
  fallback_id, fallback_of, ensure_session_ended_fallback,
}
use dun_tunel.Caddy.Admin.Verified.{Confirmed, add_route-verified}
use dun_tunel.Caddy.Admin.Bounds.{logged, asked, add_route-requests}
use dun_tunel.Caddy.Admin.Sweep.{ArrayAt, remove_at}
use dun_tunel.Caddy.Admin.Upsert.{
  names, any_names, Documented, ensure_session_ended_fallback-add_route,
}
use dun_tunel.Caddy.Admin.Policies.{
  ensure_wildcard_tls_policy, wildcard_subject, wildcard_policy, policy_id,
}
use dun_tunel.Caddy.Admin.Wildcard.{Policies, Foreign, ensure_wildcard_tls_policy-replaces}
use dun_tunel.Caddy.Admin.Stale.{delete_stale-last}

abbrev reply : ℕ → Json → Response
reply status j = record { status = status; body_text = []; json = some j }

abbrev known_or_404 : Bool → Response
known_or_404 true = reply 200 null
known_or_404 false = reply 404 null

abbrev get_answer : Target → List Json → Response
get_answer (by_id id) s = known_or_404 (any_names id s)
get_answer servers s = reply 200 (obj ("srv0" := null ∷ []))
get_answer (server_routes name) s = reply 200 (list s)
get_answer tls_policies s = reply 200 (list s)
get_answer (at_index t i) s = reply 404 null
get_answer tls_automation s = reply 404 null

abbrev array_in : Option Json → List Json → List Json
array_in none s = s
array_in (some j) s = elim j [ array js ↦ item_list js | null ↦ s | _ ↦ s ]

abbrev appended_to : Option Json → List Json → List Json
appended_to none s = s
appended_to (some j) s = s ++ j ∷ []

abbrev deleted : Target → List Json → List Json
deleted (at_index t i) s = remove_at i s
deleted (by_id id) s = s
deleted servers s = s
deleted (server_routes name) s = s
deleted tls_policies s = s
deleted tls_automation s = s

-- Caddy refuses routes where one has the id of another.
abbrev id_of : Json → Text
id_of j = elim (Json.get (text "@id") j) [ none ↦ [] | some i ↦ elim i [ string s ↦ s | _ ↦ [] ] ]

abbrev distinct : List Json → Bool
distinct [] = true
distinct (j ∷ js) = let rest = distinct js in if any_names (id_of j) js then false else rest

abbrev taking : Bool → List Json → List Json → Option Response × List Json
taking true now s = (some (reply 200 null), now)
taking false now s = (some (reply 400 null), s)

abbrev answer : Method → Target → Option Json → List Json → Option Response × List Json
answer get t body s = (some (get_answer t s), s)
answer put t body s = (some (get_answer t s), s)
answer post t body s = taking (distinct (appended_to body s)) (appended_to body s) s
answer patch t body s = taking (distinct (array_in body s)) (array_in body s) s
answer delete t body s = (some (reply 200 null), deleted t s)

abbrev caddy : Exchange (List Json)
caddy q s = answer q.method q.target q.body s

abbrev knows : List Json → Text → Bool
knows s id = any_names id s

knows-appended :
    (s : List Json) (j : Json) (id : Text)
    → any_names id s ≡ false
    → names id j ≡ false
    → any_names id (s ++ j ∷ []) ≡ false
knows-appended [] j id h g = ground arith
knows-appended (x ∷ s) j id h g = ground (arith, knows-appended s j id)

abbrev routes_at : ArrayAt caddy (server_routes (text "srv0")) (λ s. s)
routes_at = record {
  listing = λ s. reply 200 (list s);
  listing-success = λ s. refl;
  listing-json = λ s. refl;
  get-lists = λ s. refl;
  delete-removes = λ s i h. refl;
}

abbrev takes : List Json → List Json → Bool
takes s js = distinct js

documented : Documented caddy (text "srv0") (λ s. s) knows takes
documented = record {
  routes_at = routes_at;
  servers_listing = λ s. reply 200 (obj ("srv0" := null ∷ []));
  server = λ s. null;
  others = λ s. no_members;
  servers-success = λ s. refl;
  servers-json = λ s. refl;
  servers-lists = λ s. refl;
  unknown = reply 404 null;
  unknown-404 = refl;
  put-unknown = λ s id body h. rw h refl;
  found = λ s id. reply 200 null;
  found-success = λ s id. refl;
  get-known = λ s id h. rw h refl;
  done = reply 200 null;
  done-success = refl;
  replaced = λ s js. item_list (items js);
  patch-replaces = λ s js h. rw (item_list-items js, h) refl;
  replaced-view = λ s js h. item_list-items js;
  appended = λ s j. s ++ j ∷ [];
  post-appends = λ s j h. rw h refl;
  appended-view = λ s j h. refl;
  appended-knows = λ s j id h. knows-appended s j id;
}

abbrev policies_at : ArrayAt caddy tls_policies (λ s. s)
policies_at = record {
  listing = λ s. reply 200 (list s);
  listing-success = λ s. refl;
  listing-json = λ s. refl;
  get-lists = λ s. refl;
  delete-removes = λ s i h. refl;
}

policies : Policies caddy (λ s. s) (λ s. any_names policy_id s) takes
policies = record {
  policies_at = policies_at;
  unknown = reply 404 null;
  unknown-404 = refl;
  put-unknown = λ s body h. rw h refl;
  done = reply 200 null;
  done-success = refl;
  replaced = λ s js. item_list (items js);
  patch-replaces = λ s js h. rw (item_list-items js, h) refl;
  replaced-view = λ s js h. item_list-items js;
}

abbrev client : AdminClient
client = record {
  base_url = text "http://127.0.0.1:2019";
  dun_api_upstream = none;
  auth_gate_upstream = some (text "127.0.0.1:9444");
  edge_control_upstream = some (text "127.0.0.1:9443");
}

abbrev route : CaddyRoute
route = record { host = text "a.sin.x"; upstream = text "127.0.0.1:11000"; ws_paths = [] }

abbrev entry : String → Json
entry id = obj ("@id" := str id ∷ [])

abbrev world : List Json → World (List Json)
world s = record { caddy = s; routes = [] }

build_route-hardened_example :
    hardened (route_json (build_route route none (some (text "g")) (some (text "c")))) ≡ true
build_route-hardened_example = build_route-hardened route none (some (text "g")) (some (text "c"))

add_route-requests_example :
    asked
      (add_route (logged caddy) client route (record { caddy = ([], []); routes = [] })).1.caddy.1
    ≤ 9 + asked []
add_route-requests_example =
    add_route-requests caddy client route (record { caddy = ([], []); routes = [] })

-- Two entries have the id.
abbrev twice : List Json
twice = entry "a" ∷ entry "b" ∷ entry "a" ∷ null ∷ []

-- Of two entries with the id, the first stays.
delete_stale-last_example :
    (delete_stale caddy (text "a") (world twice)).1.caddy ≡ entry "a" ∷ entry "b" ∷ null ∷ []
unfolding has_id text_eq dun_tunel.Caddy.Admin.Client.first_server_name
    dun_tunel.Caddy.Admin.Requests.send ◌>>=◌ some_or require
delete_stale-last_example =
    delete_stale-last caddy (text "srv0") (λ s. s) routes_at (text "a") (entry "a" ∷ entry "b" ∷ [])
      (null ∷ []) (entry "a") (world twice) refl refl refl (refl, tt)

ensure_session_ended_fallback-add_route_example :
    let v =
      (ensure_session_ended_fallback caddy (text "sin") (text "x") (world (entry "b" ∷ []))).1 in
    let (r, u) = add_route caddy client route v in
    (r ≡ ok tt)
    × (u.caddy
        ≡ body_of caddy client route
          ∷ (without_nulls (entry "b" ∷ []) ++ fallback_of (text "sin") (text "x") ∷ []))
unfolding has_id names text_eq route_id underscored without_nulls route_json build_route
ensure_session_ended_fallback-add_route_example =
    ensure_session_ended_fallback-add_route caddy (text "srv0") (λ s. s) knows takes documented
      client route (text "sin") (text "x") (world (entry "b" ∷ [])) refl refl refl refl refl

abbrev policy_for : String → Json
policy_for host = obj ("subjects" := strings (text host ∷ []) ∷ [])

abbrev a_host : Json
a_host = policy_for "a.sin.x"

abbrev elsewhere : Json
elsewhere = policy_for "b.fra.x"

elsewhere-Foreign : Foreign (text "sin.x") elsewhere
unfolding strip_suffix strip_prefix text_eq
elsewhere-Foreign = record {
  present = refl;
  subjects = text "b.fra.x" ∷ [];
  listed = refl;
  elsewhere = (refl, tt);
}

ensure_wildcard_tls_policy-replaces_example :
    let policy = wildcard_policy (wildcard_subject (text "sin") (text "x")) (text "token") in
    let (r, v) =
      ensure_wildcard_tls_policy caddy
        (text "sin")
        (text "x")
        (text "token")
        (world (elsewhere ∷ a_host ∷ [])) in
    (r ≡ ok tt) × (v.caddy ≡ policy ∷ elsewhere ∷ [])
unfolding names text_eq
ensure_wildcard_tls_policy-replaces_example =
    ensure_wildcard_tls_policy-replaces caddy (λ s. s) (λ s. any_names policy_id s) takes policies
      (text "sin") (text "x") (text "token") b'a' [] (elsewhere ∷ []) [] a_host
      (world (elsewhere ∷ a_host ∷ [])) refl refl (refl, tt) refl (elsewhere-Foreign, tt) tt refl

abbrev after_adding : World (List Json)
after_adding = record { caddy = body_of caddy client route ∷ []; routes = (route.host, route) ∷ [] }

add_route-verified_example :
    (lookup route.host after_adding.routes ≡ some route)
    × Confirmed caddy (route_id route.host) after_adding.caddy
unfolding add_route ◌>>=◌ some_or pure require modify text_eq underscored insert names
add_route-verified_example = add_route-verified caddy client route (world []) after_adding refl
