-- ===== src/Caddy/Admin/Verified.antt =====
-- What the client's own view of the routes says after an operation.
use Prim.Native.String.{String}
use dun_tunel.Prelude.{
  Bool, true, false, ◌≡◌, refl, Option, none, some, Text, subst, lookup, lookup-insert_self,
}
use dun_tunel.Shared.Types.{CaddyRoute}
use dun_tunel.Shared.Errors.{EdgeError, EdgeResult, ok, err}
use dun_tunel.Caddy.Routes.{route_id}
use dun_tunel.Caddy.Admin.Requests.{
  by_id, Response, Exchange, World, Action, ◌>>=◌, continue_with, require, is_success, get_of,
  attempt, send, failed, Request, some_or, modify,
}
use dun_tunel.Caddy.Admin.Client.{
  AdminClient, add_route, verify_route_present, place_route, confirm_route,
}

continue_with-ok :
    {S A B : Type 0} (p : EdgeResult A × World S) (f : A → Action S B) {b : B} {w : World S}
    → continue_with p f ≡ (ok b, w)
    → (a : A) × (v : World S) × (p ≡ (ok a, v)) × (f a v ≡ (ok b, w))
continue_with-ok (ok a, v) f h = (a, v, refl, h)
continue_with-ok (err e, v) f h = cc

module _ {S : Type 0} (exchange : Exchange S) where
  -- The last thing that Caddy said is that it has the route.
  abbrev pub Confirmed : Text → S → Type 0
  Confirmed id s =
      (before : S) × (r : Response) × (exchange (get_of (by_id id)) before ≡ (some r, s))
      × (is_success r ≡ true)

  send-ok :
      (what : String) (q : Request) (w v : World S) {r : Response}
      → send exchange what q w ≡ (ok r, v)
      → (exchange q w.caddy ≡ (some r, v.caddy)) × (v.routes ≡ w.routes)
  unfolding send attempt ◌>>=◌ some_or
  send-ok what q w v {r} h = from (exchange q w.caddy) h
    where
      from :
          (p : Option Response × S)
          → some_or {S = S} p.0 (failed what) (record { caddy = p.1; routes = w.routes })
            ≡ (ok r, v)
          → (p ≡ (some r, v.caddy)) × (v.routes ≡ w.routes)
      from (none, s) e = cc
      from (some x, s) e = (cc, cc)

  require-ok :
      (b : Bool) (e : EdgeError) (w v : World S) → require b e w ≡ (ok tt, v) → (b ≡ true) × (w ≡ v)
  unfolding require
  require-ok true e w v h = (refl, cc)
  require-ok false e w v h = cc

  verify-Confirmed :
      (id : Text) (w v : World S)
      → verify_route_present exchange id w ≡ (ok tt, v)
      → (v.routes ≡ w.routes) × Confirmed id v.caddy
  unfolding verify_route_present ◌>>=◌
  verify-Confirmed id w v h =
      let query = get_of (by_id id) in
      let missing = failed "caddy verify route missing after add" in
      let (r, u, sent, checked) =
        continue_with-ok (send exchange "caddy verify route" query w)
          (λ x. require (is_success x) missing) h in
      let (answer, same) = send-ok "caddy verify route" query w u sent in
      let (success, e) = require-ok (is_success r) missing u v checked in
      subst (λ z. (z.routes ≡ w.routes) × Confirmed id z.caddy) e
        (same, (w.caddy, r, answer, success))

  -- When a route is added without an error, it is in the client's view, and Caddy has confirmed it
  -- last.
  pub add_route-verified :
      (client : AdminClient) (route : CaddyRoute) (w v : World S)
      → add_route exchange client route w ≡ (ok tt, v)
      → (lookup route.host v.routes ≡ some route) × Confirmed (route_id route.host) v.caddy
  unfolding add_route ◌>>=◌ modify
  add_route-verified client route w v h =
      let id = route_id route.host in
      let (a, u, placed, rest) =
        continue_with-ok (place_route exchange client route w)
          (λ x. confirm_route exchange id route) h in
      let (same, confirmed) = verify-Confirmed id _ v rest in
      (rw same (lookup-insert_self route.host route u.routes), confirmed)
