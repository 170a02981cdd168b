-- ===== src/Tests/Shared.antt =====
-- Tokens, endpoints and the revocation cache at concrete inputs.
use dun_tunel.Prelude.{
  ℕ, ◌+◌, ◌<◌, ◌≡◌, ◌↔◌, refl, Bool, true, false, [], ◌∷◌, some, Text, text, text_eq, lookup,
  insert, arith, if◌then◌else◌,
}
use dun_tunel.Shared.Errors.{ok}
use dun_tunel.Shared.Jwt.{
  TunnelClaims, ViewerClaims, got, failed, JsonWebToken, RevocationOracle, JwtVerifier,
  verify_tunnel, tunnel_aud, viewer_aud,
}
use dun_tunel.Shared.Jwt.Acceptance.{Cleared, Decodes, verify_tunnel-accepts}
use dun_tunel.Shared.Revocation.{
  Query, answer, is_revoked, serve, new, with_ttl, cache_get, cache_put, fetch,
}
use dun_tunel.Shared.Revocation.Freshness.{IsTruthful, answers_recent}

abbrev tunnel_claims : TunnelClaims
tunnel_claims = record {
  sub = text "s1";
  aud = tunnel_aud;
  exp = 2000;
  iat = 1000;
  jti = text "j1";
  region = text "sin";
  kid = text "k1";
}

abbrev viewer_claims : ViewerClaims
viewer_claims = record {
  sub = text "s1";
  aud = viewer_aud;
  exp = 2000;
  iat = 1000;
  jti = text "j2";
  kid = text "k1";
}

-- A library whose keys are their secrets, and for which one token is well signed under one key.
abbrev jwt : JsonWebToken Text
jwt = record {
  from_secret = λ s. s;
  decode_header = λ token. got (some (text "k1"));
  decode_tunnel = λ key aud token.
      if text_eq key (text "secret") then got tunnel_claims else failed (text "InvalidSignature");
  decode_viewer = λ key aud token.
      if text_eq key (text "secret") then got viewer_claims else failed (text "InvalidSignature");
}

abbrev nothing_revoked : RevocationOracle (Unit {0})
nothing_revoked = record { is_revoked = λ jti s. (ok false, s) }

abbrev verifier : JwtVerifier Text (Unit {0})
verifier = record { keys = (text "k1", text "secret") ∷ []; revocation = some nothing_revoked }

verify_tunnel-accepts_example :
    ((verify_tunnel jwt verifier (text "t") (text "sin") tt).0 ≡ ok tunnel_claims) ↔ (
      Decodes jwt jwt.decode_tunnel verifier (text "t") tunnel_aud tunnel_claims
      × (text "sin" ≡ text "sin")
      × Cleared (text "j1") tt (some nothing_revoked))
verify_tunnel-accepts_example =
    verify_tunnel-accepts jwt verifier (text "t") (text "sin") tt tunnel_claims

-- A token that is revoked from the time 100 on.
abbrev server : ℕ → Text → Bool
server t jti = text_eq jti (text "j1")

abbrev query : ℕ → Query
query t = record {
  jti = text "j1";
  asked_at = t;
  unlocked = true;
  response = answer true;
  stored_at = t + 10;
}

query-IsTruthful : (t : ℕ) → IsTruthful server 20 (query t)
unfolding fetch text_eq
query-IsTruthful t = record {
  sampled_at = t + 5;
  after_question = omega arith;
  before_storing = omega arith;
  in_time = omega arith;
  says = λ r h. cc;
}

answered_from_cache :
    (is_revoked
      (serve (with_ttl (new (text "http://h") (text "")) 5000) (query 100 ∷ []))
      (query 4000)).0
    ≡ ok true
unfolding is_revoked serve with_ttl new cache_get cache_put fetch lookup insert text_eq
answered_from_cache = refl

answers_recent_example : (t : ℕ) × (server t (text "j1") ≡ true) × (4000 < t + 20 + 5000)
answers_recent_example =
    answers_recent server 20 (text "http://h") (text "") 5000 (query 100 ∷ []) (query 4000) true
      (omega arith) (query-IsTruthful 100, tt) (query-IsTruthful 4000) answered_from_cache
