-- ===== src/Caddy/Admin/Client.antt =====
-- The operations of `AdminClient`.
use dun_tunel.Prelude.{
  ℕ, suc, Bool, true, false, ◌&&◌, ◌||◌, List, [], ◌∷◌, ◌++◌, Option, none, some, Text, text,
  text_eq, contains, decimal, values, ◌==◌, if◌then◌else◌, insert, remove,
}
use dun_tunel.Prelude.Json
use dun_tunel.Prelude.Json.{
  Json, is_null, as_str, as_array, as_object, first_key, string, str, ◌:=◌, obj, list, only,
}
use dun_tunel.Shared.Types.{CaddyRoute}
use dun_tunel.Shared.Errors.{EdgeResult}
use dun_tunel.Caddy.Routes.{build_route, route_id}
use dun_tunel.Caddy.Routes.Render.{route_json}
use dun_tunel.Caddy.Routes.SessionEnded.{build_session_ended_route}
use dun_tunel.Caddy.Admin.Requests.{
  Target, by_id, servers, server_routes, tls_policies, at_index, Response, Exchange, World, Action,
  ◌>>=◌, ◌>>◌, pure, fail, failed, require, some_or, modify, is_success, not_found, get_of,
  delete_of, put_to, post_to, patch_to, attempt, send,
}

-- The upstreams that the client puts into the routes.
pub record AdminClient : Type 0 where
  pub base_url : Text
  pub dun_api_upstream : Option Text
  pub auth_gate_upstream : Option Text
  pub edge_control_upstream : Option Text

unfoldable pub has_id : Text → Json → Bool
has_id id entry = elim (Json.get (text "@id") entry) [
  | none ↦ text_eq [] id
  | some j ↦ elim (as_str j) [ none ↦ text_eq [] id | some s ↦ text_eq s id ]
]

abbrev pub entries_of : Json → List Json
entries_of j = elim (as_array j) [ none ↦ [] | some es ↦ es ]

abbrev pub array_of : Option Json → Option (List Json)
array_of none = none
array_of (some j) = as_array j

unfoldable pub without_nulls : List Json → List Json
without_nulls [] = []
without_nulls (j ∷ js) = let rest = without_nulls js in if is_null j then rest else j ∷ rest

-- The index of the last entry with the id, where `i` is that of the first.
unfoldable pub last_with_id : Text → ℕ → List Json → Option ℕ
last_with_id id i [] = none
last_with_id id i (e ∷ es) = elim (last_with_id id (suc i) es) [
  | none ↦ if has_id id e then some i else none
  | some k ↦ some k
]

abbrev pub fallback_id : Text → Text
fallback_id region = text "dun-tunel-session-ended-" ++ region

abbrev pub fallback_of : Text → Text → Json
fallback_of region domain =
    build_session_ended_route (fallback_id region) (text "*." ++ region ++ text "." ++ domain)

module _ {S : Type 0} (exchange : Exchange S) where
  unfoldable pub verify_route_present : Text → Action S (Unit {0})
  unfolding send
  verify_route_present id = do
    r ← send exchange "caddy verify route" (get_of (by_id id))
    require (is_success r) (failed "caddy verify route missing after add")

  unfoldable pub first_server_name : Action S Text
  unfolding send
  first_server_name = do
    r ← send exchange "caddy list servers" (get_of servers)
    require (is_success r) (failed "caddy list servers failed")
    map ← some_or r.json (failed "caddy list servers parse")
    obj ← some_or (as_object map) (failed "caddy servers list not an object")
    some_or (first_key obj) (failed "caddy servers list empty")

  abbrev pub delete_if : Bool → Target → Action S (Unit {0})
  delete_if false t = pure tt
  delete_if true t = do attempt exchange (delete_of t); pure tt

  -- The entries from the index on, the last one first. Failures are ignored.
  unfoldable pub delete_matching : Target → Text → ℕ → List Json → Action S (Unit {0})
  unfolding has_id attempt
  delete_matching array id i [] = pure tt
  delete_matching array id i (e ∷ es) = do
    delete_matching array id (suc i) es
    delete_if (has_id id e) (at_index array i)

  abbrev pub sweep_entries : Target → Text → Option (List Json) → Action S (Unit {0})
  sweep_entries array id none = pure tt
  sweep_entries array id (some es) = delete_matching array id 0 es

  abbrev pub sweep_response : Target → Text → Option Response → Action S (Unit {0})
  sweep_response array id none = pure tt
  sweep_response array id (some r) =
      if is_success r then sweep_entries array id (array_of r.json) else pure tt

  unfoldable pub dedup_id_in_array : Target → Text → Action S (Unit {0})
  unfolding attempt delete_matching
  dedup_id_in_array array id = do r ← attempt exchange (get_of array); sweep_response array id r

  -- `if let Ok(name) = ...`.
  abbrev pub sweep_routes : Text → EdgeResult Text × World S → EdgeResult (Unit {0}) × World S
  sweep_routes id (EdgeResult.ok name, w) = dedup_id_in_array (server_routes name) id w
  sweep_routes id (EdgeResult.err e, w) = (EdgeResult.ok tt, w)

  unfoldable pub dedup_id_in_arrays : Text → Action S (Unit {0})
  unfolding first_server_name dedup_id_in_array
  dedup_id_in_arrays id = do
    (λ w. sweep_routes id (first_server_name w))
    dedup_id_in_array tls_policies id

  abbrev pub accepted : Response → Bool
  accepted r = is_success r || not_found r

  abbrev pub retry_put : Text → Json → Action S Response
  retry_put id body = do
    dedup_id_in_arrays id
    r ← send exchange "caddy put retry" (put_to (by_id id) body)
    require (accepted r) (failed "caddy put retry failed")
    pure r

  abbrev pub is_duplicate : Response → Bool
  is_duplicate r = r.status == 400 && contains r.body_text (text "duplicate ID")

  unfoldable pub put_with_dedup_retry : Text → Json → Action S Response
  unfolding send dedup_id_in_arrays contains
  put_with_dedup_retry id body = do
    r ← send exchange "caddy put" (put_to (by_id id) body)
    (if accepted r
        then pure r
        else if is_duplicate r
        then retry_put id body
        else fail (failed "caddy put failed"))

  -- A new array of routes with this one.
  abbrev pub create_routes : Text → Json → Action S (Unit {0})
  create_routes name body = do
    r ← send exchange "caddy create routes" (put_to (server_routes name) (only body))
    require (is_success r) (failed "caddy create routes failed")

  abbrev pub prepend_route : Text → Json → Response → Action S (Unit {0})
  prepend_route name body r = do
    existing ← some_or r.json (failed "caddy fetch routes parse")
    p ←
        send exchange "caddy patch routes"
          (patch_to (server_routes name) (list (body ∷ without_nulls (entries_of existing))))
    require (is_success p) (failed "caddy patch routes failed")

  abbrev pub append_route : Text → Json → Action S (Unit {0})
  append_route name body = do
    r ← send exchange "caddy append session-ended" (post_to (server_routes name) body)
    require (is_success r) (failed "caddy append session-ended failed")

  -- By what the routes of the first server are: `present` with the response, or a new array.
  unfoldable pub install : Json → (Text → Response → Action S (Unit {0})) → Action S (Unit {0})
  unfolding send first_server_name
  install body present = do
    name ← first_server_name
    r ← send exchange "caddy fetch routes" (get_of (server_routes name))
    (if is_success r
        then present name r
        else if not_found r
        then create_routes name body
        else fail (failed "caddy fetch routes failed"))

  -- In the place of the entry with this id, or of `present`, or in a new array.
  unfoldable pub upsert :
      Text → Json → (Text → Response → Action S (Unit {0})) → Action S (Unit {0})
  unfolding put_with_dedup_retry install
  upsert id body present = do
    r ← put_with_dedup_retry id body
    (if is_success r then pure tt else install body present)

  abbrev pub confirm_route : Text → CaddyRoute → Action S (Unit {0})
  confirm_route id route = do modify (insert route.host route); verify_route_present id

  abbrev pub body_of : AdminClient → CaddyRoute → Json
  body_of client route = route_json (
      build_route route client.dun_api_upstream client.auth_gate_upstream
        client.edge_control_upstream)

  abbrev pub place_route : AdminClient → CaddyRoute → Action S (Unit {0})
  place_route client route =
      let body = body_of client route in
      upsert (route_id route.host) body (λ name response. prepend_route name body response)

  unfoldable pub add_route : AdminClient → CaddyRoute → Action S (Unit {0})
  unfolding build_route route_json upsert without_nulls verify_route_present send route_id
  add_route client route = do place_route client route; confirm_route (route_id route.host) route

  abbrev pub delete_entry : Text → Option ℕ → Action S (Unit {0})
  delete_entry name none = pure tt
  delete_entry name (some i) = do
    r ← send exchange "caddy delete absolute" (delete_of (at_index (server_routes name) i))
    require (is_success r) (failed "caddy delete absolute failed")

  abbrev pub delete_stale : Text → Action S (Unit {0})
  delete_stale id = do
    name ← first_server_name
    r ← send exchange "caddy fetch routes" (get_of (server_routes name))
    j ← some_or r.json (failed "caddy routes parse")
    entries ← some_or (as_array j) (failed "caddy routes not an array")
    delete_entry name (last_with_id id 0 entries)

  abbrev pub delete_route : Text → Action S (Unit {0})
  delete_route id = do
    r ← send exchange "caddy delete route" (delete_of (by_id id))
    require (accepted r) (failed "caddy delete route failed")
    probe ← send exchange "caddy verify route deletion" (get_of (by_id id))
    (if not_found probe then pure tt else delete_stale id)

  unfoldable pub remove_route : Text → Action S (Unit {0})
  unfolding send first_server_name last_with_id route_id
  remove_route host = do delete_route (route_id host); modify (remove host)

  unfoldable pub list_routes : World S → List CaddyRoute
  list_routes w = values w.routes

  unfoldable pub ensure_edge_admin_route : AdminClient → Text → Text → ℕ → Action S (Unit {0})
  unfolding add_route
  ensure_edge_admin_route client region domain upstream_port = add_route client (record {
    host = text "edge." ++ region ++ text "." ++ domain;
    upstream = text "127.0.0.1:" ++ decimal upstream_port;
    ws_paths = [];
  })

  unfoldable pub ensure_session_ended_fallback : Text → Text → Action S (Unit {0})
  unfolding upsert
  ensure_session_ended_fallback region domain =
      upsert (fallback_id region) (fallback_of region domain)
        (λ name response. append_route name (fallback_of region domain))
