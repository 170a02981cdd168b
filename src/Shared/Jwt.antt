-- ===== src/Shared/Jwt.antt =====
-- crates/edge-shared/src/jwt.rs. The crate `jsonwebtoken` is the parameter `JsonWebToken`; a
-- revocation oracle is a stateful lookup, since the one of the program keeps a cache.
pub mod Acceptance
use dun_tunel.Prelude.{
  ℕ, Text, text, text_eq, Assoc, lookup, insert, Option, none, some, Bool, true, false, List, [],
  if◌then◌else◌, ◌++◌,
}
use dun_tunel.Shared.Errors.{
  EdgeError, EdgeResult, ok, err, invalid_token, region_mismatch, token_revoked, ◌>>=◌,
}

pub record TunnelClaims : Type 0 where
  pub sub : Text
  pub aud : Text
  pub exp : ℕ
  pub iat : ℕ
  pub jti : Text
  pub region : Text
  pub kid : Text

pub record ViewerClaims : Type 0 where
  pub sub : Text
  pub aud : Text
  pub exp : ℕ
  pub iat : ℕ
  pub jti : Text
  pub kid : Text

-- A call of the library: a value, or the text of its error.
pub data Outcome (A : Type 0) : Type 0 where
  got : A → Outcome A
  failed : Text → Outcome A

-- `decode_header` gives the `kid` of the header; `decode_tunnel k a t` checks the HS256 signature of
-- `t` under `k`, the audience `a` and the expiry, and reads the claims; so does `decode_viewer`.
pub record JsonWebToken (Key : Type 0) : Type 0 where
  pub from_secret : Text → Key
  pub decode_header : Text → Outcome (Option Text)
  pub decode_tunnel : Key → Text → Text → Outcome TunnelClaims
  pub decode_viewer : Key → Text → Text → Outcome ViewerClaims

-- `trait RevocationOracle`, over the state that its lookups keep.
pub record RevocationOracle (S : Type 0) : Type 0 where
  pub is_revoked : Text → S → EdgeResult Bool × S

pub record JwtVerifier (Key S : Type 0) : Type 0 where
  pub keys : Assoc Key
  pub revocation : Option (RevocationOracle S)

abbrev pub or_err : {A : Type 0} → Outcome A → (Text → EdgeError) → EdgeResult A
or_err (got a) f = ok a
or_err (failed e) f = err (f e)

abbrev pub ok_or : {A : Type 0} → Option A → EdgeError → EdgeResult A
ok_or none e = err e
ok_or (some a) e = ok a

-- `unwrap_or(true)`: a failed lookup counts as revoked.
abbrev pub unwrap_or_true : EdgeResult Bool → Bool
unwrap_or_true (ok b) = b
unwrap_or_true (err e) = true

abbrev pub tunnel_aud : Text
tunnel_aud = text "tunnel-server"

abbrev pub viewer_aud : Text
viewer_aud = text "viewer-exchange"

module _ {Key S : Type 0} (lib : JsonWebToken Key) where
  unfoldable pub new : JwtVerifier Key S
  new = record { keys = []; revocation = none }

  unfoldable pub add_key : JwtVerifier Key S → Text → Text → JwtVerifier Key S
  add_key v kid secret = record v { keys = insert kid (lib.from_secret secret) v.keys }

  unfoldable pub decode_with_kid :
      {T : Type 0}
      → (Key → Text → Text → Outcome T)
      → JwtVerifier Key S
      → Text
      → Text
      → EdgeResult T
  decode_with_kid decode v token expected_aud = do
    header ← or_err (lib.decode_header token) (λ e. invalid_token (text "header parse: " ++ e))
    kid ← ok_or header (invalid_token (text "missing kid"))
    key ← ok_or (lookup kid v.keys) (invalid_token (text "unknown kid: " ++ kid))
    or_err (decode key expected_aud token) (λ e. invalid_token e)

unfoldable pub with_revocation :
    {Key S : Type 0} → JwtVerifier Key S → RevocationOracle S → JwtVerifier Key S
with_revocation v oracle = record v { revocation = some oracle }

-- Whether the token is refused, and the oracle's state after the call. Without an oracle nothing is.
abbrev pub consult : {S : Type 0} → Option (RevocationOracle S) → Text → S → Bool × S
consult none jti s = (false, s)
consult (some oracle) jti s = let (r, s') = oracle.is_revoked jti s in (unwrap_or_true r, s')

unfoldable pub check_revocation :
    {Key S : Type 0} → JwtVerifier Key S → Text → S → EdgeResult (Unit {0}) × S
check_revocation v jti s =
    let (revoked, s') = consult v.revocation jti s in
    (if revoked then err (token_revoked jti) else ok tt, s')

-- A claim set that passes the revocation check, beside the state after it.
abbrev pub checked : {A S : Type 0} → A → EdgeResult (Unit {0}) × S → EdgeResult A × S
checked claims (r, s) = (r >>= (λ _. ok claims), s)

module _ {Key S : Type 0} where
  unfoldable pub tunnel_region :
      JwtVerifier Key S → Text → S → EdgeResult TunnelClaims → EdgeResult TunnelClaims × S
  tunnel_region v expected_region s (err e) = (err e, s)
  tunnel_region v expected_region s (ok claims) =
      if text_eq claims.region expected_region
      then checked claims (check_revocation v claims.jti s)
      else (err (region_mismatch claims.region expected_region), s)

  unfoldable pub viewer_revocation :
      JwtVerifier Key S → S → EdgeResult ViewerClaims → EdgeResult ViewerClaims × S
  viewer_revocation v s (err e) = (err e, s)
  viewer_revocation v s (ok claims) = checked claims (check_revocation v claims.jti s)

module _ {Key S : Type 0} (lib : JsonWebToken Key) where
  unfoldable pub verify_tunnel : JwtVerifier Key S → Text → Text → S → EdgeResult TunnelClaims × S
  verify_tunnel v token expected_region s =
      tunnel_region v expected_region s (decode_with_kid lib lib.decode_tunnel v token tunnel_aud)

  unfoldable pub verify_viewer : JwtVerifier Key S → Text → S → EdgeResult ViewerClaims × S
  verify_viewer v token s =
      viewer_revocation v s (decode_with_kid lib lib.decode_viewer v token viewer_aud)
