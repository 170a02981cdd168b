-- ===== src/Gate/Verify/Decision.antt =====
-- Which requests pass, and what the others get.
use dun_tunel.Prelude.{
  ℕ, Text, text, text_eq_iff, lookup, Option, none, some, Bool, true, false, ◌≡◌, refl, ap, ◌↔◌,
  ◌⊎◌, ◌≢◌, inl, inr, Option-cases, Bool-cases, arith,
}
use dun_tunel.Prelude.Results.{Result, ok, err, Result-cases}
use dun_tunel.Gate.Revocation.{RevocationList, is_fresh, contains}
use dun_tunel.Gate.Verify.{
  Algorithm, eddsa, other_alg, AuthError, revocation_stale, CookieClaims, Header, Libraries,
  JwksCache, HeaderMap, extract_cookie, and_then, request_host, check_claims, check_token,
  authorize, cookie_name, cookie_audience, respond, is_eddsa, rejected_status, check_handler,
}

is_eddsa-eq : (a : Algorithm) → is_eddsa a ≡ true → a ≡ eddsa
is_eddsa-eq eddsa h = refl
is_eddsa-eq (other_alg a) h = cc

module _ {Key : Type 0} (lib : Libraries Key) (jwks : JwksCache Key)
    (revocation : RevocationList) where
  -- The token is well signed under a key of the cache that its header names, for the audience of
  -- cookies and for the host of the request, and is not revoked.
  pub record Admits (host token : Text) (claims : CookieClaims) : Type 0 where
    pub header : Header
    pub kid : Text
    pub key : Key
    pub read_header : lib.decode_header token ≡ some header
    pub alg_is_eddsa : header.alg ≡ eddsa
    pub named : header.kid ≡ some kid
    pub known : lookup kid jwks ≡ some key
    pub valid : lib.decode key cookie_audience token ≡ ok claims
    pub audience : claims.aud ≡ cookie_audience
    pub same_host : lib.to_lowercase claims.host ≡ host
    pub unrevoked : contains revocation claims.jti ≡ false

  check_claims-ok :
      (host : Text) (found claims : CookieClaims)
      → (check_claims lib revocation host found ≡ ok claims) ↔ (
          (found ≡ claims)
          × (claims.aud ≡ cookie_audience)
          × (lib.to_lowercase claims.host ≡ host)
          × (contains revocation claims.jti ≡ false))
  unfolding check_claims
  check_claims-ok host found claims = (
    λ h. ground (
      arith,
      text_eq_iff found.aud cookie_audience,
      text_eq_iff (lib.to_lowercase found.host) host,
    ),
    λ (e, a, s, u). ground (
      arith,
      e,
      a,
      s,
      u,
      text_eq_iff found.aud cookie_audience,
      text_eq_iff (lib.to_lowercase found.host) host,
    ),
  )

  check_token-Admits :
      (host token : Text) (claims : CookieClaims)
      → check_token lib jwks revocation host token ≡ ok claims
      → Admits host token claims
  unfolding check_token
  check_token-Admits host token claims h = elim (Option-cases (lib.decode_header token)) [
    | inl e ↦ absurd (ground arith)
    | inr (header, e) ↦ elim (Option-cases header.kid) [
      | inl n ↦ absurd (ground arith)
      | inr (kid, n) ↦ elim (Option-cases (lookup kid jwks)) [
        | inl k ↦ absurd (ground arith)
        | inr (key, k) ↦ elim (Result-cases (lib.decode key cookie_audience token)) [
          | inl (found, v) ↦
              let passed : check_claims lib revocation host found ≡ ok claims = ground arith in
              let eddsa_used : is_eddsa header.alg ≡ true = ground arith in
              let (same, audience, same_host, unrevoked) =
                (check_claims-ok host found claims).0 passed in
              record {
                header = header;
                kid = kid;
                key = key;
                read_header = e;
                alg_is_eddsa = is_eddsa-eq header.alg eddsa_used;
                named = n;
                known = k;
                valid = cc;
                audience = audience;
                same_host = same_host;
                unrevoked = unrevoked;
              }
          | inr (x, v) ↦ absurd (ground arith)
        ]
      ]
    ]
  ]

  Admits-check_token :
      (host token : Text) (claims : CookieClaims)
      → Admits host token claims
      → check_token lib jwks revocation host token ≡ ok claims
  unfolding check_token
  Admits-check_token host token claims d =
      rw (d.read_header, check_token)
        (rw (d.alg_is_eddsa, d.named, d.known, d.valid)
          ((check_claims-ok host claims claims).1 (refl, d.audience, d.same_host, d.unrevoked)))

  module _ (headers : HeaderMap) (revocation_required : Bool) (now : ℕ) where
    -- What a request must carry, and what must hold of its token.
    pub record Passes (claims : CookieClaims) : Type 0 where
      pub cookie_raw : Text
      pub token : Text
      pub host : Text
      pub trusted : (revocation_required ≡ false) ⊎ (is_fresh revocation now ≡ true)
      pub cookie : and_then (lookup (text "cookie") headers) lib.to_str ≡ some cookie_raw
      pub token_lem : extract_cookie cookie_raw cookie_name ≡ some token
      pub host_lem : request_host lib headers ≡ some host
      pub admits : Admits host token claims

    authorize-Passes :
        (claims : CookieClaims)
        → authorize lib headers jwks revocation revocation_required now ≡ ok claims
        → Passes claims
    unfolding authorize
    authorize-Passes claims h =
        elim (Option-cases (and_then (lookup (text "cookie") headers) lib.to_str)) [
          | inl e ↦ absurd (ground arith)
          | inr (raw, e) ↦ elim (Option-cases (extract_cookie raw cookie_name)) [
            | inl t ↦ absurd (ground arith)
            | inr (token, t) ↦ elim (Option-cases (request_host lib headers)) [
              | inl g ↦ absurd (ground arith)
              | inr (host, g) ↦ record {
                cookie_raw = raw;
                token = token;
                host = host;
                trusted = ground arith;
                cookie = e;
                token_lem = t;
                host_lem = g;
                admits = check_token-Admits host token claims (ground arith);
              }
            ]
          ]
        ]

    Passes-authorize :
        (claims : CookieClaims)
        → Passes claims
        → authorize lib headers jwks revocation revocation_required now ≡ ok claims
    unfolding authorize
    Passes-authorize claims d =
        let checked = Admits-check_token d.host d.token claims d.admits in
        ground (arith, d.trusted, d.cookie, d.token_lem, d.host_lem, checked)

-- A request passes with the claims `c` exactly when strict mode is off or the revocation list fresh,
-- the request carries a readable cookie header with the session cookie and a readable host, and the
-- cookie is an EdDSA token, valid under the cached key that its header names, whose claims `c` are
-- for cookies, name the request's host up to case, and are not revoked.
pub authorize-accepts :
    {Key : Type 0} (lib : Libraries Key) (jwks : JwksCache Key) (revocation : RevocationList)
    (headers : HeaderMap) (revocation_required : Bool) (now : ℕ) (c : CookieClaims)
    → (authorize lib headers jwks revocation revocation_required now ≡ ok c)
      ↔ Passes lib jwks revocation headers revocation_required now c
authorize-accepts lib jwks revocation headers revocation_required now c = (
  authorize-Passes lib jwks revocation headers revocation_required now c,
  Passes-authorize lib jwks revocation headers revocation_required now c,
)

rejected_status-eq : (e : AuthError) → rejected_status e ≡ 503 → e ≡ revocation_stale
rejected_status-eq revocation_stale h = refl
rejected_status-eq _ h = absurd (omega arith)

check_token-ne-stale :
    {Key : Type 0} (lib : Libraries Key) (jwks : JwksCache Key) (revocation : RevocationList)
    (host token : Text)
    → check_token lib jwks revocation host token ≢ err revocation_stale
unfolding check_token check_claims
check_token-ne-stale lib jwks revocation host token h = ground arith

module _ {Key : Type 0} (lib : Libraries Key) (headers : HeaderMap) (jwks : JwksCache Key)
    (revocation : RevocationList) (revocation_required : Bool) (now : ℕ) where
  trusted-ne-stale :
      (revocation_required ≡ false) ⊎ (is_fresh revocation now ≡ true)
      → authorize lib headers jwks revocation revocation_required now ≢ err revocation_stale
  unfolding authorize
  trusted-ne-stale trusted h =
      elim (Option-cases (and_then (lookup (text "cookie") headers) lib.to_str)) [
        | inl e ↦ ground (arith, trusted)
        | inr (raw, e) ↦ elim (Option-cases (extract_cookie raw cookie_name)) [
          | inl t ↦ ground (arith, trusted)
          | inr (token, t) ↦ elim (Option-cases (request_host lib headers)) [
            | inl g ↦ ground (arith, trusted)
            | inr (host, g) ↦
                check_token-ne-stale lib jwks revocation host token (ground (arith, trusted))
          ]
        ]
      ]

  authorize-stale :
      (authorize lib headers jwks revocation revocation_required now ≡ err revocation_stale)
      ↔ ((revocation_required ≡ true) × (is_fresh revocation now ≡ false))
  unfolding authorize
  authorize-stale = (
    λ h. elim (Bool-cases revocation_required) [
      | inl r ↦ elim (Bool-cases (is_fresh revocation now)) [
        | inl f ↦ absurd (trusted-ne-stale (inr f) h)
        | inr f ↦ (r, f)
      ]
      | inr r ↦ absurd (trusted-ne-stale (inl r) h)
    ],
    λ (r, f). rw (r, f),
  )

respond-status :
    (from_str : Text → Option Text) (r : Result AuthError CookieClaims)
    → (((respond from_str r).status ≡ 503) ↔ (r ≡ err revocation_stale))
unfolding respond
respond-status from_str (ok c) = (λ h. absurd (omega arith), λ h. cc)
respond-status from_str (err e) =
    (λ h. ap (λ x. err x) (rejected_status-eq e h), λ h. ap (λ x. (respond from_str x).status) h)

rejected_status-cases : (e : AuthError) → (rejected_status e ≡ 503) ⊎ (rejected_status e ≡ 401)
rejected_status-cases revocation_stale = inl refl
rejected_status-cases _ = inr refl

respond-refused :
    (from_str : Text → Option Text) (r : Result AuthError CookieClaims)
    → ((c : CookieClaims) → r ≢ ok c)
    → (((respond from_str r).status ≡ 503) ⊎ ((respond from_str r).status ≡ 401))
      × ((respond from_str r).forwarded_sub ≡ none)
unfolding respond
respond-refused from_str (ok c) no_claims = absurd (no_claims c refl)
respond-refused from_str (err e) no_claims = (rejected_status-cases e, refl)

module _ {Key : Type 0} (lib : Libraries Key) (from_str : Text → Option Text) (headers : HeaderMap)
    (jwks : JwksCache Key) (revocation : RevocationList) where
  -- The response is 503 exactly when strict mode is on and the list is not fresh, whatever the request
  -- carries. A request that passes with the claims `c` gets 200, with the subject of `c` in
  -- `x-forwarded-sub` where it is a header value. One that does not pass gets 503 or 401, and no such
  -- header.
  pub check_handler_status :
      (revocation_required : Bool) (now : ℕ)
      → let r = check_handler lib from_str headers jwks revocation revocation_required now in
        ((r.status ≡ 503) ↔ ((revocation_required ≡ true) × (is_fresh revocation now ≡ false)))
        × ((c : CookieClaims)
            → Passes lib jwks revocation headers revocation_required now c
            → (r.status ≡ 200) × (r.forwarded_sub ≡ from_str c.sub))
        × (((c : CookieClaims) → ¬ Passes lib jwks revocation headers revocation_required now c)
            → ((r.status ≡ 503) ⊎ (r.status ≡ 401)) × (r.forwarded_sub ≡ none))
  unfolding check_handler respond
  check_handler_status revocation_required now =
      let result = authorize lib headers jwks revocation revocation_required now in
      let stale = authorize-stale lib headers jwks revocation revocation_required now in
      let busy = respond-status from_str result in
      let accepts = authorize-accepts lib jwks revocation headers revocation_required now in
      (
        (λ h. stale.0 (busy.0 h), λ h. busy.1 (stale.1 h)),
        λ c d. rw ((accepts c).1 d) (refl, refl),
        λ refused. respond-refused from_str result (λ c e. refused c ((accepts c).0 e)),
      )
