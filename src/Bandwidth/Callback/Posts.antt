-- ===== src/Bandwidth/Callback/Posts.antt =====
-- What one attempt of the callback client posts: `normalise_endpoint`, `Client::new` and `try_send` of
-- crates/edge-callback-client/src/client.rs.
use dun_tunel.Prelude.{
  ℕ, ◌≡◌, refl, Bool, false, ◌&&◌, [], ◌∷◌, ◌++◌, List, Option, none, some, Text, text, trim_end_by,
  ends_with, leb, ltb, if◌then◌else◌,
}
use dun_tunel.Shared.Env.{Env, var}
use dun_tunel.Shared.Endpoint.{is_slash, api_suffix, normalise}

unfoldable pub normalise_endpoint : Text → Text
normalise_endpoint raw =
    let trimmed = trim_end_by is_slash raw in
    if ends_with trimmed api_suffix then trimmed else trimmed ++ api_suffix

pub record Client : Type 0 where
  pub endpoint : Text
  pub api_key : Option Text

abbrev pub not_empty : Option Text → Option Text
not_empty none = none
not_empty (some []) = none
not_empty (some (c ∷ s)) = some (c ∷ s)

unfoldable pub new_client : Env → Text → Client
unfolding normalise_endpoint
new_client env endpoint = record {
  endpoint = normalise_endpoint endpoint;
  api_key = not_empty (var env "DUN_API_KEY");
}

-- A POST with the event as its body, and its headers.
pub record Post (Event : Type 0) : Type 0 where
  pub url : Text
  pub headers : List (Text × Text)
  pub body : Event

abbrev pub key_header : Option Text → List (Text × Text)
key_header none = []
key_header (some key) = (text "X-Edge-Api-Key", key) ∷ []

abbrev pub post_of : {Event : Type 0} → Client → Event → Post Event
post_of client event = record {
  url = client.endpoint ++ text "/tunnels/edge-callback";
  headers = key_header client.api_key;
  body = event;
}

-- Whether the attempt works, by the status that comes back, if any does.
abbrev pub is_delivered : Option ℕ → Bool
is_delivered none = false
is_delivered (some status) = leb 200 status && ltb status 300

unfoldable pub try_send : {Event : Type 0} → (Post Event → Option ℕ) → Client → Event → Bool
try_send post client event = is_delivered (post (post_of client event))

-- The callbacks go below the same base as the lookups of revoked tokens, whichever form the endpoint
-- is configured in.
pub new_client-endpoint :
    (env : Env) (endpoint : Text) → (new_client env endpoint).endpoint ≡ normalise endpoint
unfolding new_client normalise_endpoint normalise
new_client-endpoint env endpoint = refl
