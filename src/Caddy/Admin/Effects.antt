-- ===== src/Caddy/Admin/Effects.antt =====
-- What the operations do to the world, graded by the requests that are not DELETEs: for any relation
-- that the requests respect.
use Prim.Native.String.{String}
use dun_tunel.Prelude.{
  ℕ, suc, ◌+◌, ◌≤◌, Bool, true, false, Option, none, some, Text, arith, if◌then◌else◌, List, [],
  ◌∷◌,
}
use dun_tunel.Prelude.Json.{Json}
use dun_tunel.Shared.Errors.{EdgeError, EdgeResult, ok, err}
use dun_tunel.Caddy.Admin.Requests.{
  Method, get, put, post, patch, delete, Request, Target, Response, Exchange, World, Action, ◌>>=◌,
  continue_with, pure, fail, failed, get_of, servers, server_routes, tls_policies, require, some_or,
  is_success, attempt, send,
}
use dun_tunel.Caddy.Admin.Client.{
  upsert, first_server_name, delete_matching, delete_if, sweep_response, sweep_entries,
  sweep_routes, dedup_id_in_array, dedup_id_in_arrays, delete_stale, delete_entry, delete_route,
  install, prepend_route, append_route, create_routes, put_with_dedup_retry, retry_put,
  verify_route_present,
}

abbrev pub weight_of : Method → ℕ
weight_of get = 1
weight_of put = 1
weight_of post = 1
weight_of patch = 1
weight_of delete = 0

-- `R n w v`: from the world `w` to `v`, at the cost of `n`.
pub record Graded {S : Type 0} (exchange : Exchange S) (R : ℕ → World S → World S → Type 0)
    : Type 0 where
  pub here : (w : World S) → R 0 w w
  pub then_ : (m n : ℕ) (w v u : World S) → R m w v → R n v u → R (m + n) w u
  pub weaken : (m n : ℕ) (w v : World S) → m ≤ n → R m w v → R n w v
  pub step : (q : Request) (w : World S) → R (weight_of q.method) w (attempt exchange q w).1

module _ {S : Type 0} (exchange : Exchange S) (R : ℕ → World S → World S → Type 0)
    (graded : Graded exchange R) where
  pub record Costs {A : Type 0} (n : ℕ) (m : Action S A) : Type 0 where
    pub run : (w : World S) → R n w (m w).1

  Costs-pure : {A : Type 0} (a : A) → Costs 0 (pure {S = S} a)
  unfolding pure
  Costs-pure a = record { run = λ w. graded.here w }

  Costs-fail : {A : Type 0} (e : EdgeError) → Costs 0 (fail {S = S} {A = A} e)
  unfolding fail
  Costs-fail e = record { run = λ w. graded.here w }

  Costs-more : {A : Type 0} {m : ℕ} (n : ℕ) {a : Action S A} → m ≤ n → Costs m a → Costs n a
  Costs-more {A} {m} n {a} h c = record { run = λ w. graded.weaken m n w (a w).1 h (c.run w) }

  pub Costs-bind :
      {A B : Type 0} {m n : ℕ} {a : Action S A} {f : A → Action S B}
      → Costs m a
      → ((x : A) → Costs n (f x))
      → Costs (m + n) (a >>= f)
  unfolding ◌>>=◌
  Costs-bind {A} {B} {m} {n} {a} {f} c d = record { run = λ w. from w (a w) (c.run w) }
    where
      from :
          (w : World S) (p : EdgeResult A × World S) → R m w p.1 → R (m + n) w (continue_with p f).1
      from w (ok x, v) r = graded.then_ m n w v (f x v).1 r ((d x).run v)
      from w (err e, v) r = graded.weaken m (m + n) w v (omega arith) r

  Costs-if :
      {A : Type 0} {n : ℕ} {x y : Action S A} (b : Bool)
      → Costs n x
      → Costs n y
      → Costs n (if b then x else y)
  Costs-if true c d = c
  Costs-if false c d = d

  Costs-require : (b : Bool) (e : EdgeError) → Costs 0 (require {S = S} b e)
  unfolding require
  Costs-require true e = record { run = λ w. graded.here w }
  Costs-require false e = record { run = λ w. graded.here w }

  Costs-some_or : {A : Type 0} (o : Option A) (e : EdgeError) → Costs 0 (some_or {S = S} o e)
  unfolding some_or
  Costs-some_or none e = record { run = λ w. graded.here w }
  Costs-some_or (some a) e = record { run = λ w. graded.here w }

  Costs-attempt : (q : Request) → Costs (weight_of q.method) (attempt exchange q)
  Costs-attempt q = record { run = graded.step q }

  Costs-send : (what : String) (q : Request) → Costs (weight_of q.method) (send exchange what q)
  unfolding send
  Costs-send what q =
      Costs-more (weight_of q.method) (omega arith)
        (Costs-bind (Costs-attempt q) (λ o. Costs-some_or o (failed what)))

  pub Costs-first_server_name : Costs 1 (first_server_name exchange)
  unfolding first_server_name
  Costs-first_server_name = Costs-bind (Costs-send "caddy list servers" (get_of servers)) (λ r.
      Costs-bind (Costs-require _ _) (λ u.
        Costs-bind (Costs-some_or _ _)
          (λ m. Costs-bind (Costs-some_or _ _) (λ o. Costs-some_or _ _))))

  pub Costs-verify_route_present : (id : Text) → Costs 1 (verify_route_present exchange id)
  unfolding verify_route_present
  Costs-verify_route_present id =
      Costs-bind (Costs-send "caddy verify route" _) (λ r. Costs-require _ _)

  Costs-delete_if : (b : Bool) (t : Target) → Costs 0 (delete_if exchange b t)
  Costs-delete_if false t = Costs-pure tt
  Costs-delete_if true t = Costs-bind (Costs-attempt _) (λ o. Costs-pure tt)

  Costs-delete_matching :
      (array : Target) (id : Text) (i : ℕ) (es : List Json)
      → Costs 0 (delete_matching exchange array id i es)
  unfolding delete_matching
  Costs-delete_matching array id i [] = Costs-pure tt
  Costs-delete_matching array id i (e ∷ es) =
      Costs-bind (Costs-delete_matching array id (suc i) es) (λ u. Costs-delete_if _ _)

  Costs-sweep_entries :
      (array : Target) (id : Text) (o : Option (List Json))
      → Costs 0 (sweep_entries exchange array id o)
  Costs-sweep_entries array id none = Costs-pure tt
  Costs-sweep_entries array id (some es) = Costs-delete_matching array id 0 es

  Costs-sweep_response :
      (array : Target) (id : Text) (o : Option Response)
      → Costs 0 (sweep_response exchange array id o)
  Costs-sweep_response array id none = Costs-pure tt
  Costs-sweep_response array id (some r) =
      Costs-if (is_success r) (Costs-sweep_entries array id _) (Costs-pure tt)

  Costs-dedup_id_in_array :
      (array : Target) (id : Text) → Costs 1 (dedup_id_in_array exchange array id)
  unfolding dedup_id_in_array
  Costs-dedup_id_in_array array id =
      Costs-bind (Costs-attempt _) (λ o. Costs-sweep_response array id o)

  Costs-sweep_routes :
      (id : Text) → Costs 2 (λ w. sweep_routes exchange id (first_server_name exchange w))
  Costs-sweep_routes id = record {
    run = λ w. from w (first_server_name exchange w) (Costs-first_server_name.run w);
  }
    where
      from :
          (w : World S) (p : EdgeResult Text × World S)
          → R 1 w p.1
          → R 2 w (sweep_routes exchange id p).1
      from w (ok name, v) r =
          graded.then_ 1 1 w v _ r ((Costs-dedup_id_in_array (server_routes name) id).run v)
      from w (err e, v) r = graded.weaken 1 2 w v (omega arith) r

  Costs-dedup_id_in_arrays : (id : Text) → Costs 3 (dedup_id_in_arrays exchange id)
  unfolding dedup_id_in_arrays
  Costs-dedup_id_in_arrays id =
      Costs-bind (Costs-sweep_routes id) (λ u. Costs-dedup_id_in_array tls_policies id)

  Costs-retry_put : (id : Text) (body : Json) → Costs 4 (retry_put exchange id body)
  Costs-retry_put id body =
      Costs-bind (Costs-dedup_id_in_arrays id)
        (λ u. Costs-bind (Costs-send _ _) (λ r. Costs-bind (Costs-require _ _) (λ t. Costs-pure r)))

  pub Costs-put_with_dedup_retry :
      (id : Text) (body : Json) → Costs 5 (put_with_dedup_retry exchange id body)
  unfolding put_with_dedup_retry
  Costs-put_with_dedup_retry id body = Costs-bind (Costs-send "caddy put" _) (λ r.
      Costs-if _ (Costs-more 4 (omega arith) (Costs-pure r))
        (Costs-if _ (Costs-retry_put id body) (Costs-more 4 (omega arith) (Costs-fail _))))

  Costs-checked :
      (what : String) (q : Request) (e : EdgeError)
      → Costs (weight_of q.method) (send exchange what q >>= λ r. require (is_success r) e)
  Costs-checked what q e =
      Costs-more (weight_of q.method) (omega arith)
        (Costs-bind (Costs-send what q) (λ r. Costs-require _ e))

  pub Costs-prepend_route :
      (name : Text) (body : Json) (r : Response) → Costs 1 (prepend_route exchange name body r)
  Costs-prepend_route name body r = Costs-bind (Costs-some_or _ _) (λ j. Costs-checked _ _ _)

  pub Costs-append_route : (name : Text) (body : Json) → Costs 1 (append_route exchange name body)
  Costs-append_route name body = Costs-checked _ _ _

  Costs-create_routes : (name : Text) (body : Json) → Costs 1 (create_routes exchange name body)
  Costs-create_routes name body = Costs-checked _ _ _

  Costs-install :
      (body : Json) (present : Text → Response → Action S (Unit {0}))
      → ((name : Text) (r : Response) → Costs 1 (present name r))
      → Costs 3 (install exchange body present)
  unfolding install
  Costs-install body present h =
      let unfetched = failed "caddy fetch routes failed" in
      Costs-bind Costs-first_server_name (λ name.
        Costs-bind (Costs-send "caddy fetch routes" _) (λ r. Costs-if _ (h name r) (
          Costs-if _ (Costs-create_routes name body)
            (Costs-more 1 (omega arith) (Costs-fail unfetched)))))

  pub Costs-upsert :
      (id : Text) (body : Json) (present : Text → Response → Action S (Unit {0}))
      → ((name : Text) (r : Response) → Costs 1 (present name r))
      → Costs 8 (upsert exchange id body present)
  unfolding upsert
  Costs-upsert id body present h =
      Costs-bind (Costs-put_with_dedup_retry id body) (λ r.
        Costs-if _ (Costs-more 3 (omega arith) (Costs-pure tt)) (Costs-install body present h))

  Costs-delete_entry : (name : Text) (i : Option ℕ) → Costs 0 (delete_entry exchange name i)
  Costs-delete_entry name none = Costs-pure tt
  Costs-delete_entry name (some i) = Costs-checked _ _ _

  Costs-delete_stale : (id : Text) → Costs 2 (delete_stale exchange id)
  Costs-delete_stale id = Costs-bind Costs-first_server_name (λ name.
      Costs-bind (Costs-send _ _) (λ r.
        Costs-bind (Costs-some_or _ _)
          (λ j. Costs-bind (Costs-some_or _ _) (λ es. Costs-delete_entry name _))))

  pub Costs-delete_route : (id : Text) → Costs 3 (delete_route exchange id)
  Costs-delete_route id = Costs-bind (Costs-send _ _) (λ r. Costs-bind (Costs-require _ _) (λ u.
      Costs-bind (Costs-send _ _)
        (λ p. Costs-if _ (Costs-more 2 (omega arith) (Costs-pure tt)) (Costs-delete_stale id))))
