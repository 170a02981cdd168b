-- ===== src/Control/Startup.antt =====
-- What crates/edge-control/src/state.rs does with the configuration when the process starts: where
-- dun-api is, what Caddy is asked for, and the sessions that the disk remembers.
pub mod Upstream
pub mod Gated
pub mod Tokens
use dun_tunel.Prelude.{
  ℕ, Bool, true, false, List, [], ◌∷◌, ◌++◌, Option, none, some, Text, text, decimal, trim,
  strip_prefix, split_head, contains_char, if◌then◌else◌, Assoc,
}
use dun_tunel.Shared.Errors.{EdgeResult, ok, err}
use dun_tunel.Caddy.Admin.Requests.{Exchange, World, Action, ◌>>=◌, ◌>>◌, pure}
use dun_tunel.Caddy.Admin.Client.{
  AdminClient, ensure_edge_admin_route, ensure_session_ended_fallback,
}
use dun_tunel.Caddy.Admin.Policies.{ensure_wildcard_tls_policy}
use dun_tunel.Control.Config.{EdgeConfig}
use dun_tunel.Shared.Jwt.{
  JsonWebToken, JwtVerifier, RevocationOracle, new, add_key, with_revocation,
}
use dun_tunel.Storage.Files.{Dir}
use dun_tunel.Storage.Stores.{load_all_subdomains}

-- What stands behind the first "://", or the whole text.
unfoldable pub behind_scheme : Text → Option Text
unfolding strip_prefix
behind_scheme [] = none
behind_scheme (c ∷ s) = elim (strip_prefix (text "://") (c ∷ s)) [
  | some rest ↦ some rest
  | none ↦ behind_scheme s
]

abbrev pub or_whole : Option Text → Text → Text
or_whole none whole = whole
or_whole (some t) whole = t

unfoldable pub authority_of : Text → Option Text
unfolding contains_char
authority_of [] = none
authority_of (c ∷ s) = if contains_char b':' (c ∷ s) then some (c ∷ s) else none

unfoldable pub parse_dun_api_upstream : Text → Option Text
unfolding trim behind_scheme split_head authority_of
parse_dun_api_upstream endpoint =
    let trimmed = trim endpoint in
    authority_of (split_head b'/' (or_whole (behind_scheme trimmed) trimmed))

unfoldable pub client_of : EdgeConfig → AdminClient
unfolding parse_dun_api_upstream decimal
client_of cfg = record {
  base_url = cfg.caddy_admin_url;
  dun_api_upstream = parse_dun_api_upstream cfg.dun_api_endpoint;
  auth_gate_upstream = cfg.viewer_gate_upstream;
  edge_control_upstream = some (text "127.0.0.1:" ++ decimal cfg.bind_port);
}

-- An error is logged, and what comes next is done all the same.
abbrev pub logged : {S A : Type 0} → EdgeResult A × World S → EdgeResult (Unit {0}) × World S
logged (r, w) = (ok tt, w)

module _ {S : Type 0} (exchange : Exchange S) where
  abbrev pub bootstrap_with : EdgeConfig → Option Text → Option Text → Action S (Unit {0})
  bootstrap_with cfg none token = pure tt
  bootstrap_with cfg (some domain) none = pure tt
  bootstrap_with cfg (some domain) (some token) = do
    (λ w. logged (ensure_wildcard_tls_policy exchange cfg.region domain token w))
    (λ w.
        logged (ensure_edge_admin_route exchange (client_of cfg) cfg.region domain cfg.bind_port w))
    (λ w. logged (ensure_session_ended_fallback exchange cfg.region domain w))

  unfoldable pub bootstrap_caddy : EdgeConfig → Action S (Unit {0})
  unfolding ensure_wildcard_tls_policy ensure_edge_admin_route ensure_session_ended_fallback
      client_of
  bootstrap_caddy cfg = bootstrap_with cfg cfg.share_tunnel_domain cfg.cloudflare_api_token

-- The subdomains of the sessions, from the disk where it can be read.
unfoldable pub rehydrated : Option Dir → Assoc Text
unfolding load_all_subdomains
rehydrated none = []
rehydrated (some d) = load_all_subdomains d

module _ {Key S : Type 0} (lib : JsonWebToken Key) where
  abbrev pub with_key : Text → Option Text → JwtVerifier Key S → JwtVerifier Key S
  with_key kid none v = v
  with_key kid (some secret) v = add_key lib v kid secret

  -- Without an API key revocation is not enforced.
  abbrev pub with_oracle :
      (Text → RevocationOracle S) → Option Text → JwtVerifier Key S → JwtVerifier Key S
  with_oracle oracle none v = v
  with_oracle oracle (some api_key) v = with_revocation v (oracle api_key)

  -- `oracle` is the one that `HttpRevocationOracle::new` makes with an API key.
  unfoldable pub verifier_of : (Text → RevocationOracle S) → EdgeConfig → JwtVerifier Key S
  unfolding new add_key with_revocation
  verifier_of oracle cfg =
      with_oracle oracle cfg.dun_api_key
        (with_key (text "v2") cfg.jwt_secret_v2 (with_key (text "v1") cfg.jwt_secret_v1 (new lib)))
