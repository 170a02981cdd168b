-- ===== src/Caddy/Admin/Requests.antt =====
-- The requests that the admin client of crates/edge-caddy-bridge/src/admin_client.rs sends, and the
-- steps that its operations are made of.
use Prim.Native.String.{String}
use dun_tunel.Prelude.{
  ℕ, Bool, true, false, ◌&&◌, ◌++◌, Option, none, some, Text, text, decimal, leb, ltb, ◌==◌, Assoc,
}
use dun_tunel.Prelude.Json.{Json}
use dun_tunel.Shared.Types.{CaddyRoute}
use dun_tunel.Shared.Errors
use dun_tunel.Shared.Errors.{EdgeError, EdgeResult, ok, err}

pub data Method : Type 0 where
  get : Method
  put : Method
  post : Method
  patch : Method
  delete : Method

-- What the requests are about: an object by its `@id`, the servers, the routes of a server, the
-- policies of the TLS automation, one of these by its index, and the TLS automation itself.
pub data Target : Type 0 where
  by_id : Text → Target
  servers : Target
  server_routes : Text → Target
  tls_policies : Target
  at_index : Target → ℕ → Target
  tls_automation : Target

abbrev pub url : Text → Target → Text
url base_url (by_id id) = base_url ++ text "/id/" ++ id
url base_url servers = base_url ++ text "/config/apps/http/servers/"
url base_url (server_routes name) =
    base_url ++ text "/config/apps/http/servers/" ++ name ++ text "/routes"
url base_url tls_policies = base_url ++ text "/config/apps/tls/automation/policies"
url base_url (at_index t i) = url base_url t ++ text "/" ++ decimal i
url base_url tls_automation = base_url ++ text "/config/apps/tls/automation"

pub record Request : Type 0 where
  pub method : Method
  pub target : Target
  pub body : Option Json

-- The body as text, and as what it parses to.
pub record Response : Type 0 where
  pub status : ℕ
  pub body_text : Text
  pub json : Option Json

abbrev pub Exchange : Type 0 → Type 0
Exchange S = Request → S → Option Response × S

-- Caddy, and the client's own view of the routes.
pub record World (S : Type 0) : Type 0 where
  pub caddy : S
  pub routes : Assoc CaddyRoute

abbrev pub Action : Type 0 → Type 0 → Type 0
Action S A = World S → EdgeResult A × World S

abbrev pub continue_with :
    {S A B : Type 0} → EdgeResult A × World S → (A → Action S B) → EdgeResult B × World S
continue_with (ok a, w) f = f a w
continue_with (err e, w) f = (err e, w)

infixl 5 ◌>>=◌ ◌>>◌
unfoldable pub ◌>>=◌ : {S A B : Type 0} → Action S A → (A → Action S B) → Action S B
◌>>=◌ m f w = continue_with (m w) f

abbrev pub ◌>>◌ : {S A B : Type 0} → Action S A → Action S B → Action S B
m >> k = m >>= λ _. k

unfoldable pub pure : {S A : Type 0} → A → Action S A
pure a w = (ok a, w)

unfoldable pub fail : {S A : Type 0} → EdgeError → Action S A
fail e w = (err e, w)

abbrev pub failed : String → EdgeError
failed what = Errors.config (text what)

unfoldable pub require : {S : Type 0} → Bool → EdgeError → Action S (Unit {0})
require true e w = (ok tt, w)
require false e w = (err e, w)

unfoldable pub some_or : {S A : Type 0} → Option A → EdgeError → Action S A
some_or none e w = (err e, w)
some_or (some a) e w = (ok a, w)

unfoldable pub modify : {S : Type 0} → (Assoc CaddyRoute → Assoc CaddyRoute) → Action S (Unit {0})
modify f w = (ok tt, record { caddy = w.caddy; routes = f w.routes })

abbrev pub is_success : Response → Bool
is_success r = leb 200 r.status && ltb r.status 300

abbrev pub not_found : Response → Bool
not_found r = r.status == 404

abbrev pub get_of : Target → Request
get_of t = record { method = get; target = t; body = none }

abbrev pub delete_of : Target → Request
delete_of t = record { method = delete; target = t; body = none }

abbrev pub put_to : Target → Json → Request
put_to t j = record { method = put; target = t; body = some j }

abbrev pub post_to : Target → Json → Request
post_to t j = record { method = post; target = t; body = some j }

abbrev pub patch_to : Target → Json → Request
patch_to t j = record { method = patch; target = t; body = some j }

module _ {S : Type 0} (exchange : Exchange S) where
  -- Also when the connection fails.
  unfoldable pub attempt : Request → Action S (Option Response)
  attempt r w =
      let (response, s) = exchange r w.caddy in
      (ok response, record { caddy = s; routes = w.routes })

  unfoldable pub send : String → Request → Action S Response
  unfolding attempt
  send what r = do response ← attempt r; some_or response (failed what)
