-- ===== src/Caddy/Admin/Bounds.antt =====
-- How many requests an operation sends, whatever Caddy answers.
use dun_tunel.Prelude.{ℕ, ◌+◌, ◌≤◌, List, [], ◌∷◌, arith, insert}
use dun_tunel.Shared.Types.{CaddyRoute}
use dun_tunel.Caddy.Admin.Requests.{Request, Exchange, World, modify, attempt}
use dun_tunel.Caddy.Admin.Client.{AdminClient, add_route}
use dun_tunel.Caddy.Admin.Effects.{
  weight_of, Graded, Costs, Costs-bind, Costs-upsert, Costs-prepend_route,
  Costs-verify_route_present,
}

-- Caddy, with the requests that it has got.
abbrev pub logged : {S : Type 0} → Exchange S → Exchange (S × List Request)
logged exchange q (s, sent) = let (response, t) = exchange q s in (response, (t, q ∷ sent))

-- The requests other than DELETEs.
unfoldable pub asked : List Request → ℕ
asked [] = 0
asked (q ∷ qs) = weight_of q.method + asked qs

module _ {S : Type 0} (exchange : Exchange S) where
  abbrev AtMost : ℕ → World (S × List Request) → World (S × List Request) → Type 0
  AtMost n w v = asked v.caddy.1 ≤ n + asked w.caddy.1

  AtMost-graded : Graded (logged exchange) AtMost
  unfolding asked attempt
  AtMost-graded = record {
    here = λ w. omega arith;
    then_ = λ m n w v u r t. omega (arith, r, t);
    weaken = λ m n w v h r. omega (arith, h, r);
    step = λ q w. omega arith;
  }

  Costs-modify :
      (route : CaddyRoute)
      → Costs (logged exchange) AtMost AtMost-graded 0 (modify (insert route.host route))
  unfolding modify
  Costs-modify route = record { run = λ w. omega arith }

  -- Adding a route takes at most nine requests besides the DELETEs of duplicates.
  pub add_route-requests :
      (client : AdminClient) (route : CaddyRoute) (w : World (S × List Request))
      → asked (add_route (logged exchange) client route w).1.caddy.1 ≤ 9 + asked w.caddy.1
  unfolding add_route
  add_route-requests client route =
      (Costs-bind (logged exchange) AtMost AtMost-graded
        (Costs-upsert _ AtMost AtMost-graded _ _ _
          (λ name r. Costs-prepend_route _ AtMost AtMost-graded name _ r))
        (λ u.
          Costs-bind _ AtMost AtMost-graded (Costs-modify route)
            (λ t. Costs-verify_route_present _ _ AtMost-graded _))).run
