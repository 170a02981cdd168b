-- ===== src/Caddy/Admin/Upsert.antt =====
-- What adding a route and the fallback route do to the routes of a Caddy that keeps to its
-- documentation.
use dun_tunel.Prelude.{
  Bool, true, false, ◌&&◌, ◌||◌, ◌≡◌, refl, sym, ap, ◌∙◌, List, [], ◌∷◌, ◌++◌, Option, none, some,
  Text, text, text_eq, text_eq_refl, arith,
}
use dun_tunel.Prelude.Json.{
  Json, Members, member, no_members, null, bool, number, string, Items, item, no_items, array,
  object, as_str, list, item_list-items, is_null,
}
use dun_tunel.Shared.Types.{CaddyRoute}
use dun_tunel.Shared.Errors.{ok}
use dun_tunel.Caddy.Routes.{route_id, build_route}
use dun_tunel.Caddy.Routes.Render.{route_json}
use dun_tunel.Caddy.Admin.Requests.{
  by_id, servers, server_routes, Response, Exchange, World, Action, ◌>>=◌, pure, require, some_or,
  modify, is_success, get_of, put_to, patch_to, post_to, attempt, send,
}
use dun_tunel.Caddy.Admin.Client.{
  AdminClient, without_nulls, first_server_name, put_with_dedup_retry, install, upsert, add_route,
  fallback_id, fallback_of, body_of, place_route, verify_route_present,
  ensure_session_ended_fallback, append_route, prepend_route,
}
use dun_tunel.Caddy.Admin.Sweep.{ArrayAt}

abbrev pub is_id : Text → Option Text → Bool
is_id id none = false
is_id id (some s) = text_eq s id

-- Whether an object within has the `@id`.
unfoldable mutual
  unfolding text_eq

  pub names : Text → Json → Bool
  names id null = false
  names id (bool b) = false
  names id (number n) = false
  names id (string s) = false
  names id (array js) = names_item id js
  names id (object ms) = names_member id ms

  pub names_item : Text → Items → Bool
  names_item id no_items = false
  names_item id (item j js) = names id j || names_item id js

  pub names_member : Text → Members → Bool
  names_member id no_members = false
  names_member id (member k j ms) =
      (text_eq k (text "@id") && is_id id (as_str j)) || names id j || names_member id ms

abbrev pub any_names : Text → List Json → Bool
any_names id [] = false
any_names id (j ∷ js) = names id j || any_names id js

-- Caddy's first server is `name`, with the routes `view`, and `knows` tells the ids of its tree.
-- `accepts` tells whether Caddy takes the configuration with these routes in place of the view: it
-- may refuse one, for duplicate ids or another reason. A PUT by an id that it does not know is a 404,
-- a GET by an id within the routes succeeds, and where it takes the result, a PATCH replaces the
-- routes and a POST appends to them.
pub record Documented {S : Type 0} (exchange : Exchange S) (name : Text) (view : S → List Json)
    (knows : S → Text → Bool) (accepts : S → List Json → Bool) : Type 0 where
  pub routes_at : ArrayAt exchange (server_routes name) view
  pub servers_listing : S → Response
  pub server : S → Json
  pub others : S → Members
  pub servers-success : (s : S) → is_success (servers_listing s) ≡ true
  pub servers-json :
      (s : S) → (servers_listing s).json ≡ some (object (member name (server s) (others s)))
  pub servers-lists : (s : S) → exchange (get_of servers) s ≡ (some (servers_listing s), s)
  pub unknown : Response
  pub unknown-404 : unknown.status ≡ 404
  pub put-unknown :
      (s : S) (id : Text) (body : Json)
      → knows s id ≡ false
      → exchange (put_to (by_id id) body) s ≡ (some unknown, s)
  pub found : S → Text → Response
  pub found-success : (s : S) (id : Text) → is_success (found s id) ≡ true
  pub get-known :
      (s : S) (id : Text)
      → any_names id (view s) ≡ true
      → exchange (get_of (by_id id)) s ≡ (some (found s id), s)
  pub done : Response
  pub done-success : is_success done ≡ true
  pub replaced : S → List Json → S
  pub patch-replaces :
      (s : S) (js : List Json)
      → accepts s js ≡ true
      → exchange (patch_to (server_routes name) (list js)) s ≡ (some done, replaced s js)
  pub replaced-view : (s : S) (js : List Json) → accepts s js ≡ true → view (replaced s js) ≡ js
  pub appended : S → Json → S
  pub post-appends :
      (s : S) (j : Json)
      → accepts s (view s ++ j ∷ []) ≡ true
      → exchange (post_to (server_routes name) j) s ≡ (some done, appended s j)
  pub appended-view :
      (s : S) (j : Json)
      → accepts s (view s ++ j ∷ []) ≡ true
      → view (appended s j) ≡ view s ++ j ∷ []
  pub appended-knows :
      (s : S) (j : Json) (id : Text)
      → accepts s (view s ++ j ∷ []) ≡ true
      → knows s id ≡ false
      → names id j ≡ false
      → knows (appended s j) id ≡ false

without_nulls-append :
    (xs : List Json) (j : Json)
    → is_null j ≡ false
    → without_nulls (xs ++ j ∷ []) ≡ without_nulls xs ++ j ∷ []
unfolding without_nulls
without_nulls-append [] j h = rw h refl
without_nulls-append (x ∷ xs) j h = ground (arith, without_nulls-append xs j h)

module _ {S : Type 0} (exchange : Exchange S) (name : Text) (view : S → List Json)
    (knows : S → Text → Bool) (accepts : S → List Json → Bool)
    (caddy : Documented exchange name view knows accepts) where
  first_server_name-is : (w : World S) → first_server_name exchange w ≡ (ok name, w)
  unfolding first_server_name send attempt ◌>>=◌ require some_or
  first_server_name-is w =
      rw (caddy.servers-lists w.caddy, caddy.servers-success w.caddy, caddy.servers-json w.caddy)
        refl

  put-unknown :
      (id : Text) (body : Json) (w : World S)
      → knows w.caddy id ≡ false
      → put_with_dedup_retry exchange id body w ≡ (ok caddy.unknown, w)
  unfolding put_with_dedup_retry send attempt ◌>>=◌ some_or pure
  put-unknown id body w h = rw (caddy.put-unknown w.caddy id body h, caddy.unknown-404) refl

  -- The world with another state of Caddy.
  abbrev with_caddy : World S → S → World S
  with_caddy w s = record { caddy = s; routes = w.routes }

  upsert-new :
      (id : Text) (body : Json) (present : Text → Response → Action S (Unit {0})) (w : World S)
      → knows w.caddy id ≡ false
      → upsert exchange id body present w ≡ present name (caddy.routes_at.listing w.caddy) w
  unfolding upsert install send attempt ◌>>=◌ some_or
  upsert-new id body present w h =
      rw
        (
          put-unknown id body w h,
          caddy.unknown-404,
          first_server_name-is w,
          caddy.routes_at.get-lists w.caddy,
          caddy.routes_at.listing-success w.caddy,
        )
        refl

  prepend-new :
      (body : Json) (w : World S)
      → accepts w.caddy (body ∷ without_nulls (view w.caddy)) ≡ true
      → prepend_route exchange name body (caddy.routes_at.listing w.caddy) w
        ≡ (ok tt, with_caddy w (caddy.replaced w.caddy (body ∷ without_nulls (view w.caddy))))
  unfolding send attempt ◌>>=◌ some_or require
  prepend-new body w fine =
      rw
        (
          caddy.routes_at.listing-json w.caddy,
          item_list-items (view w.caddy),
          caddy.patch-replaces w.caddy (body ∷ without_nulls (view w.caddy)) fine,
          caddy.done-success,
        )
        refl

  append-new :
      (body : Json) (w : World S)
      → accepts w.caddy (view w.caddy ++ body ∷ []) ≡ true
      → append_route exchange name body w ≡ (ok tt, with_caddy w (caddy.appended w.caddy body))
  unfolding send attempt ◌>>=◌ some_or require
  append-new body w fine = rw (caddy.post-appends w.caddy body fine, caddy.done-success) refl

  body_of-names :
      (client : AdminClient) (route : CaddyRoute)
      → names (route_id route.host) (body_of exchange client route) ≡ true
  unfolding names build_route route_json text_eq
  body_of-names client route = rw (text_eq_refl (route_id route.host)) refl

  -- A route that Caddy does not know yet is added, and goes before those that are there.
  pub add_route-new :
      (client : AdminClient) (route : CaddyRoute) (w : World S)
      → knows w.caddy (route_id route.host) ≡ false
      → accepts w.caddy (body_of exchange client route ∷ without_nulls (view w.caddy)) ≡ true
      → let (r, v) = add_route exchange client route w in
        (r ≡ ok tt) × (view v.caddy ≡ body_of exchange client route ∷ without_nulls (view w.caddy))
  unfolding add_route ◌>>=◌ modify verify_route_present send attempt require some_or
  add_route-new client route w h fine =
      let id = route_id route.host in
      let body = body_of exchange client route in
      let s = caddy.replaced w.caddy (body ∷ without_nulls (view w.caddy)) in
      let known : any_names id (view s) ≡ true =
        rw
          (
            caddy.replaced-view w.caddy (body ∷ without_nulls (view w.caddy)) fine,
            body_of-names client route,
          )
          refl in
      let placed : place_route exchange client route w ≡ (ok tt, with_caddy w s) =
        upsert-new id body (λ n r. prepend_route exchange n body r) w h ∙ prepend-new body w fine in
      rw (placed, caddy.get-known s id known, caddy.found-success s id)
        (refl, caddy.replaced-view w.caddy (body ∷ without_nulls (view w.caddy)) fine)

  ensure-new :
      (region domain : Text) (w : World S)
      → knows w.caddy (fallback_id region) ≡ false
      → accepts w.caddy (view w.caddy ++ fallback_of region domain ∷ []) ≡ true
      → ensure_session_ended_fallback exchange region domain w
        ≡ (ok tt, with_caddy w (caddy.appended w.caddy (fallback_of region domain)))
  unfolding ensure_session_ended_fallback
  ensure-new region domain w h fine =
      upsert-new (fallback_id region) (fallback_of region domain)
        (λ n r. append_route exchange n (fallback_of region domain)) w h
      ∙ append-new (fallback_of region domain) w fine

  fallback_of-names :
      (region domain id : Text)
      → text_eq (fallback_id region) id ≡ false
      → names id (fallback_of region domain) ≡ false
  unfolding names text_eq
  fallback_of-names region domain id h = rw h refl

  -- Let Caddy answer as documented, know neither the fallback route nor a session's route, whose ids
  -- differ, and take the routes with the fallback route appended and then those with the session's
  -- route in front of them. After the two are added, in this order, the session's route is the first
  -- and the fallback route the last: those that were there, but for nulls, are between them.
  pub ensure_session_ended_fallback-add_route :
      (client : AdminClient) (route : CaddyRoute) (region domain : Text) (w : World S)
      → knows w.caddy (fallback_id region) ≡ false
      → knows w.caddy (route_id route.host) ≡ false
      → text_eq (fallback_id region) (route_id route.host) ≡ false
      → accepts w.caddy (view w.caddy ++ fallback_of region domain ∷ []) ≡ true
      → accepts (ensure_session_ended_fallback exchange region domain w).1.caddy (
          body_of exchange client route
          ∷ (without_nulls (view w.caddy) ++ fallback_of region domain ∷ []))
        ≡ true
      → let v = (ensure_session_ended_fallback exchange region domain w).1 in
        let (r, u) = add_route exchange client route v in
        (r ≡ ok tt)
        × (view u.caddy
            ≡ body_of exchange client route
              ∷ (without_nulls (view w.caddy) ++ fallback_of region domain ∷ []))
  ensure_session_ended_fallback-add_route client route region domain w fresh new differ fine then =
      let id = route_id route.host in
      let fallback = fallback_of region domain in
      let v : World S = with_caddy w (caddy.appended w.caddy fallback) in
      let unknown : knows v.caddy id ≡ false =
        caddy.appended-knows w.caddy fallback id fine new
          (fallback_of-names region domain id differ) in
      let seen = caddy.appended-view w.caddy fallback fine in
      let body = body_of exchange client route in
      let rest : without_nulls (view v.caddy) ≡ without_nulls (view w.caddy) ++ fallback ∷ [] =
        ap without_nulls seen ∙ without_nulls-append (view w.caddy) fallback refl in
      let taken : accepts v.caddy (body ∷ without_nulls (view v.caddy)) ≡ true =
        ap (λ js. accepts v.caddy (body ∷ js)) rest
        ∙ ap (λ p. accepts p.1.caddy (body ∷ (without_nulls (view w.caddy) ++ fallback ∷ [])))
            (sym (ensure-new region domain w fresh fine))
        ∙ then in
      let (added, first) = add_route-new client route v unknown taken in
      rw (ensure-new region domain w fresh fine) (added, first ∙ ap (λ js. body ∷ js) rest)
