-- ===== src/Shared/Jwt/Acceptance.antt =====
-- When a token is accepted.
use dun_tunel.Prelude.{
  Text, text_eq_iff, lookup, Option, none, some, Bool, false, ◌≡◌, refl, ◌↔◌, inl, inr,
  Option-cases, arith,
}
use dun_tunel.Shared.Errors.{EdgeResult, ok, err}
use dun_tunel.Shared.Jwt.{
  TunnelClaims, ViewerClaims, Outcome, got, failed, JsonWebToken, RevocationOracle, JwtVerifier,
  decode_with_kid, check_revocation, verify_tunnel, verify_viewer, tunnel_aud, viewer_aud, consult,
  unwrap_or_true, tunnel_region, viewer_revocation,
}

-- The oracle, where there is one, answers that the token is not revoked.
pub data Cleared {S : Type 0} (jti : Text) (s : S) : Option (RevocationOracle S) → Type 0 where
  unguarded : Cleared jti s none
  answered :
      (oracle : RevocationOracle S)
      → (oracle.is_revoked jti s).0 ≡ ok false
      → Cleared jti s (some oracle)

-- The token decodes to the claims, under a key that its header names.
pub record Decodes {Key S T : Type 0} (lib : JsonWebToken Key)
    (decode : Key → Text → Text → Outcome T) (v : JwtVerifier Key S) (token aud : Text) (claims : T)
    : Type 0 where
  pub kid : Text
  pub key : Key
  pub named : lib.decode_header token ≡ got (some kid)
  pub known : lookup kid v.keys ≡ some key
  pub valid : decode key aud token ≡ got claims

module _ {Key S : Type 0} (lib : JsonWebToken Key) (v : JwtVerifier Key S) where
  module _ {T : Type 0} (decode : Key → Text → Text → Outcome T) (token aud : Text) where
    reads :
        (header : Outcome (Option Text)) (claims : T)
        → lib.decode_header token ≡ header
        → decode_with_kid lib decode v token aud ≡ ok claims
        → Decodes lib decode v token aud claims
    unfolding decode_with_kid
    reads (failed e) claims named h = cc
    reads (got none) claims named h = cc
    reads (got (some kid)) claims named h = elim (Option-cases (lookup kid v.keys)) [
      | inl e ↦ absurd (ground arith)
      | inr (key, e) ↦ record {
        kid = kid;
        key = key;
        named = named;
        known = e;
        valid = ground arith;
      }
    ]

    decode_with_kid-Decodes :
        (claims : T)
        → (decode_with_kid lib decode v token aud ≡ ok claims)
          ↔ Decodes lib decode v token aud claims
    unfolding decode_with_kid
    decode_with_kid-Decodes claims =
        (reads (lib.decode_header token) claims refl, λ d. rw (d.named, d.known, d.valid))

-- The verifier's verdict on a revocation, and `Cleared`.
consult-Cleared :
    {S : Type 0} (o : Option (RevocationOracle S)) (jti : Text) (s : S)
    → ((consult o jti s).0 ≡ false) ↔ Cleared jti s o
consult-Cleared none jti s = (λ _. unguarded, λ _. refl)
consult-Cleared (some oracle) jti s =
    (λ h. answered oracle (of_answer (oracle.is_revoked jti s).0 h), λ c. of_cleared c)
  where
    of_answer : (r : EdgeResult Bool) → unwrap_or_true r ≡ false → r ≡ ok false
    of_answer (ok b) h = ground arith
    of_answer (err e) h = cc

    of_cleared : Cleared jti s (some oracle) → unwrap_or_true (oracle.is_revoked jti s).0 ≡ false
    of_cleared (answered _ e) = rw e

module _ {Key S : Type 0} (v : JwtVerifier Key S) (s : S) where
  tunnel_region-ok :
      (region : Text) (c : TunnelClaims) (r : EdgeResult TunnelClaims)
      → ((tunnel_region v region s r).0 ≡ ok c)
        ↔ ((r ≡ ok c) × (c.region ≡ region) × ((consult v.revocation c.jti s).0 ≡ false))
  unfolding tunnel_region check_revocation
  tunnel_region-ok region c (err e) = (λ h. cc, λ h. cc (h.0))
  tunnel_region-ok region c (ok d) = (
    λ h. ground (arith, text_eq_iff d.region region),
    λ h. ground (arith, h.0, h.1, h.2, text_eq_iff d.region region),
  )

  viewer_revocation-ok :
      (c : ViewerClaims) (r : EdgeResult ViewerClaims)
      → ((viewer_revocation v s r).0 ≡ ok c)
        ↔ ((r ≡ ok c) × ((consult v.revocation c.jti s).0 ≡ false))
  unfolding viewer_revocation check_revocation
  viewer_revocation-ok c (err e) = (λ h. cc, λ h. cc (h.0))
  viewer_revocation-ok c (ok d) = (λ h. ground arith, λ h. ground (arith, h.0, h.1))

module _ {Key S : Type 0} (lib : JsonWebToken Key) (v : JwtVerifier Key S) where
  -- A tunnel token is accepted, with the claims `c`, exactly when it decodes to `c` under a key that
  -- the verifier has for the `kid` of its header and the audience of tunnels, `c` names the expected
  -- region, and the oracle, where there is one, answers that the token is not revoked. So a failed
  -- lookup refuses the token. There is no further
  -- condition on how long it lives.
  pub verify_tunnel-accepts :
      (token region : Text) (s : S) (c : TunnelClaims)
      → ((verify_tunnel lib v token region s).0 ≡ ok c) ↔ (
          Decodes lib lib.decode_tunnel v token tunnel_aud c
          × (c.region ≡ region)
          × Cleared c.jti s v.revocation)
  unfolding verify_tunnel
  verify_tunnel-accepts token region s c =
      let outcome = decode_with_kid lib lib.decode_tunnel v token tunnel_aud in
      let decoded = decode_with_kid-Decodes lib v lib.decode_tunnel token tunnel_aud c in
      let passed = tunnel_region-ok v s region c outcome in
      let clear = consult-Cleared v.revocation c.jti s in
      (
        λ h. let (r, e, u) = passed.0 h in (decoded.0 r, e, clear.0 u),
        λ (d, e, u). passed.1 (decoded.1 d, e, clear.1 u),
      )

  -- A viewer token is accepted, with the claims `c`, exactly when it decodes to `c` under a key that
  -- the verifier has for the `kid` of its header and the audience of viewers, and the oracle, where
  -- there is one, answers that the token is not revoked.
  pub verify_viewer-accepts :
      (token : Text) (s : S) (c : ViewerClaims)
      → ((verify_viewer lib v token s).0 ≡ ok c)
        ↔ (Decodes lib lib.decode_viewer v token viewer_aud c × Cleared c.jti s v.revocation)
  unfolding verify_viewer
  verify_viewer-accepts token s c =
      let outcome = decode_with_kid lib lib.decode_viewer v token viewer_aud in
      let decoded = decode_with_kid-Decodes lib v lib.decode_viewer token viewer_aud c in
      let passed = viewer_revocation-ok v s c outcome in
      let clear = consult-Cleared v.revocation c.jti s in
      (
        λ h. let (r, u) = passed.0 h in (decoded.0 r, clear.0 u),
        λ (d, u). passed.1 (decoded.1 d, clear.1 u),
      )
