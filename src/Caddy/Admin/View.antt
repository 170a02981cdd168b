-- ===== src/Caddy/Admin/View.antt =====
-- How the client's own view of the routes follows what Caddy did.
use dun_tunel.Prelude.{
  ℕ, Bool, true, false, ◌≡◌, refl, ◌∙◌, sym, Text, if◌then◌else◌, insert, remove,
}
use dun_tunel.Shared.Types.{CaddyRoute}
use dun_tunel.Shared.Errors.{EdgeResult, ok, err}
use dun_tunel.Caddy.Routes.{route_id}
use dun_tunel.Caddy.Admin.Requests.{Exchange, World, ◌>>=◌, continue_with, modify, attempt}
use dun_tunel.Caddy.Admin.Client.{
  AdminClient, add_route, remove_route, place_route, body_of, prepend_route, confirm_route,
  delete_route,
}
use dun_tunel.Caddy.Admin.Effects.{
  Graded, Costs-upsert, Costs-prepend_route, Costs-verify_route_present, Costs-delete_route,
}

abbrev pub is_ok : {A : Type 0} → EdgeResult A → Bool
is_ok (ok a) = true
is_ok (err e) = false

module _ {S : Type 0} (exchange : Exchange S) where
  abbrev SameView : ℕ → World S → World S → Type 0
  SameView n w v = v.routes ≡ w.routes

  SameView-graded : Graded exchange SameView
  unfolding attempt
  SameView-graded = record {
    here = λ w. refl;
    then_ = λ m n w v u r t. t ∙ r;
    weaken = λ m n w v h r. r;
    step = λ q w. refl;
  }

  -- A removal takes the route out of the client's view exactly when it succeeds.
  pub remove_route-view :
      (host : Text) (w : World S)
      → let (r, v) = remove_route exchange host w in
        v.routes ≡ (if is_ok r then remove host w.routes else w.routes)
  unfolding remove_route ◌>>=◌ modify
  remove_route-view host w =
      from (delete_route exchange (route_id host) w)
        ((Costs-delete_route exchange SameView SameView-graded (route_id host)).run w)
    where
      from :
          (p : EdgeResult (Unit {0}) × World S)
          → p.1.routes ≡ w.routes
          → let (r, v) = continue_with p (λ u. modify (remove host)) in
            v.routes ≡ (if is_ok r then remove host w.routes else w.routes)
      from (ok u, v) e = rw e refl
      from (err x, v) e = e

  -- The route is in the client's view as soon as Caddy has taken it, also when Caddy then does not
  -- confirm it and the operation fails.
  pub add_route-view :
      (client : AdminClient) (route : CaddyRoute) (w : World S)
      → (add_route exchange client route w).1.routes ≡ (
          if is_ok (place_route exchange client route w).0
          then insert route.host route w.routes
          else w.routes)
  unfolding add_route ◌>>=◌ modify
  add_route-view client route w = from (place_route exchange client route w) (
      (Costs-upsert exchange SameView SameView-graded (route_id route.host)
          (body_of exchange client route)
          (λ name r. prepend_route exchange name (body_of exchange client route) r)
          (λ name r. Costs-prepend_route exchange SameView SameView-graded name _ r)).run
        w)
    where
      from :
          (p : EdgeResult (Unit {0}) × World S)
          → p.1.routes ≡ w.routes
          → (continue_with p (λ u. confirm_route exchange (route_id route.host) route)).1.routes
            ≡ (if is_ok p.0 then insert route.host route w.routes else w.routes)
      from (ok u, v) e = rw (sym e) (
          (Costs-verify_route_present exchange SameView SameView-graded (route_id route.host)).run
            _)
      from (err x, v) e = e
