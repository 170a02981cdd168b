-- ===== src/Gate/Verify.antt =====
-- crates/edge-viewer-gate/src/verify.rs, and `check_handler` of its main.rs. The JWT library, the
-- Unicode lower-casing and the reading of a header value as a `str` are parameters.
pub mod Cookies
pub mod Decision
use dun_tunel.Prelude.{
  ℕ, Text, text, text_eq, Assoc, lookup, Option, none, some, Bool, true, false, not, ◌&&◌, List, [],
  ◌∷◌, if◌then◌else◌, ◌==◌, trim, split, split_once, split_head, ◌++◌,
}
use dun_tunel.Prelude.Results.{Result, ok, err, ◌>>=◌, ok_or}
use dun_tunel.Gate.Revocation.{RevocationList, is_fresh, contains}

abbrev pub cookie_name : Text
cookie_name = text "dun_share_session"

abbrev pub cookie_audience : Text
cookie_audience = text "viewer-cookie"

pub data Algorithm : Type 0 where
  eddsa : Algorithm
  other_alg : Text → Algorithm

pub data AuthError : Type 0 where
  missing_cookie missing_host cookie_absent bad_header missing_kid audience_mismatch : AuthError
  revocation_stale : AuthError
  unsupported_alg : Algorithm → AuthError
  unknown_kid decode_failed revoked : Text → AuthError
  host_mismatch : Text → Text → AuthError

pub record CookieClaims : Type 0 where
  pub sub : Text
  pub aud : Text
  pub exp : ℕ
  pub iat : ℕ
  pub jti : Text
  pub host : Text

pub record Header : Type 0 where
  pub alg : Algorithm
  pub kid : Option Text

-- `decode k a t` checks the EdDSA signature of `t` under `k`, the audience `a` and the expiry, and
-- reads the claims; `to_str` fails on bytes that are no visible ASCII.
pub record Libraries (Key : Type 0) : Type 0 where
  pub to_str : Text → Option Text
  pub to_lowercase : Text → Text
  pub decode_header : Text → Option Header
  pub decode : Key → Text → Text → Result Text CookieClaims

-- `JwksCache::get`, and `HeaderMap::get`, whose names are in lower case.
abbrev pub JwksCache : Type 0 → Type 0
JwksCache Key = Assoc Key

abbrev pub HeaderMap : Type 0
HeaderMap = Assoc Text

-- What a piece that splits into `pair` gives, and the value found behind it otherwise.
unfoldable pub cookie_or : Text → Option (Text × Text) → Option Text → Option Text
cookie_or name none found = found
cookie_or name (some (k, v)) found = if text_eq (trim k) name then some (trim v) else found

-- The loop of `extract_cookie` over the pieces.
unfoldable pub find_cookie : Text → List Text → Option Text
find_cookie name [] = none
find_cookie name (kv ∷ rest) = cookie_or name (split_once b'=' (trim kv)) (find_cookie name rest)

unfoldable pub extract_cookie : Text → Text → Option Text
unfolding find_cookie cookie_or
extract_cookie raw name = find_cookie name (split b';' raw)

abbrev pub and_then {ℓ κ} : {A : Type ℓ} {B : Type κ} → Option A → (A → Option B) → Option B
and_then none f = none
and_then (some a) f = f a

abbrev pub or_else {ℓ} : {A : Type ℓ} → Option A → Option A → Option A
or_else none o = o
or_else (some a) o = some a

abbrev pub require : Bool → AuthError → Result AuthError (Unit {0})
require true e = ok tt
require false e = err e

abbrev pub is_eddsa : Algorithm → Bool
is_eddsa eddsa = true
is_eddsa (other_alg a) = false

module _ {Key : Type 0} (lib : Libraries Key) where
  -- The host that the request was made to, without its port.
  unfoldable pub request_host : HeaderMap → Option Text
  request_host headers =
      and_then
        (and_then
          (or_else (lookup (text "x-forwarded-host") headers) (lookup (text "host") headers))
          lib.to_str)
        (λ s. some (lib.to_lowercase (split_head b':' s)))

  abbrev pub decoded : Result Text CookieClaims → Result AuthError CookieClaims
  decoded (ok claims) = ok claims
  decoded (err e) = err (decode_failed e)

  unfoldable pub check_claims : RevocationList → Text → CookieClaims → Result AuthError CookieClaims
  check_claims revocation host claims = do
    _ ← require (text_eq claims.aud cookie_audience) audience_mismatch
    _ ← require (text_eq (lib.to_lowercase claims.host) host) (host_mismatch claims.host host)
    _ ← require (not (contains revocation claims.jti)) (revoked claims.jti)
    ok claims

  unfoldable pub check_token :
      JwksCache Key → RevocationList → Text → Text → Result AuthError CookieClaims
  check_token jwks revocation host token = do
    header ← ok_or (lib.decode_header token) bad_header
    _ ← require (is_eddsa header.alg) (unsupported_alg header.alg)
    kid ← ok_or header.kid missing_kid
    key ← ok_or (lookup kid jwks) (unknown_kid kid)
    claims ← decoded (lib.decode key cookie_audience token)
    check_claims revocation host claims

  -- At the time `now`.
  unfoldable pub authorize :
      HeaderMap → JwksCache Key → RevocationList → Bool → ℕ → Result AuthError CookieClaims
  authorize headers jwks revocation revocation_required now = do
    _ ← require (not (revocation_required && not (is_fresh revocation now))) revocation_stale
    cookie_raw ← ok_or (and_then (lookup (text "cookie") headers) lib.to_str) missing_cookie
    token ← ok_or (extract_cookie cookie_raw cookie_name) cookie_absent
    host ← ok_or (request_host headers) missing_host
    check_token jwks revocation host token

-- The response to Caddy: the status, and the `x-forwarded-sub` header that a 200 carries if the
-- subject is a header value (`from_str`).
pub record Response : Type 0 where
  pub status : ℕ
  pub forwarded_sub : Option Text

abbrev pub rejected_status : AuthError → ℕ
rejected_status revocation_stale = 503
rejected_status _ = 401

unfoldable pub respond : (Text → Option Text) → Result AuthError CookieClaims → Response
respond from_str (ok claims) = record { status = 200; forwarded_sub = from_str claims.sub }
respond from_str (err reason) = record { status = rejected_status reason; forwarded_sub = none }

module _ {Key : Type 0} (lib : Libraries Key) (from_str : Text → Option Text) where
  unfoldable pub check_handler : HeaderMap → JwksCache Key → RevocationList → Bool → ℕ → Response
  check_handler headers jwks revocation revocation_required now =
      respond from_str (authorize lib headers jwks revocation revocation_required now)
