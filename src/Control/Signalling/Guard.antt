-- ===== src/Control/Signalling/Guard.antt =====
-- The guard behind the gate: Caddy copies the gate's `x-forwarded-sub` to the request that it lets
-- through.
use dun_tunel.Prelude.{ℕ, [], ◌∷◌, Option, none, some, Text, text_eq_iff, Bool, ◌≡◌, refl, arith}
use dun_tunel.Prelude.Results.{Result, ok, err}
use dun_tunel.Gate.Revocation.{RevocationList}
use dun_tunel.Gate.Verify.{
  AuthError, CookieClaims, Libraries, HeaderMap, JwksCache, authorize, respond, check_handler,
}
use dun_tunel.Gate.Verify.Decision.{Passes, authorize-accepts}
use dun_tunel.Control.Signalling.{authorize_viewer}

authorize_viewer-admits :
    (sub : Option Text) (requested : Text)
    → authorize_viewer sub requested ≡ ok tt
    → sub ≡ some requested
unfolding authorize_viewer
authorize_viewer-admits none requested h = cc
authorize_viewer-admits (some []) requested h = cc
authorize_viewer-admits (some (c ∷ s)) requested h = ground (arith, text_eq_iff (c ∷ s) requested)

module _ {Key : Type 0} (lib : Libraries Key) (from_str : Text → Option Text) (headers : HeaderMap)
    (jwks : JwksCache Key) (revocation : RevocationList) where
  guarded :
      (requested : Text) (r : Result AuthError CookieClaims)
      → authorize_viewer (respond from_str r).forwarded_sub requested ≡ ok tt
      → (c : CookieClaims) × (r ≡ ok c) × (from_str c.sub ≡ some requested)
  unfolding respond
  guarded requested (ok c) h = (c, refl, authorize_viewer-admits (from_str c.sub) requested h)
  guarded requested (err e) h = absurd (cc (authorize_viewer-admits none requested h))

  -- A viewer whom the guard admits to a session, by the subject that the gate has put on the request,
  -- passed the gate with claims whose subject is that session.
  pub check_handler-authorize_viewer :
      (revocation_required : Bool) (now : ℕ) (requested : Text)
      → let r = check_handler lib from_str headers jwks revocation revocation_required now in
        authorize_viewer r.forwarded_sub requested ≡ ok tt
        → (c : CookieClaims) × Passes lib jwks revocation headers revocation_required now c
          × (from_str c.sub ≡ some requested)
  unfolding check_handler
  check_handler-authorize_viewer revocation_required now requested h =
      let result = authorize lib headers jwks revocation revocation_required now in
      let (c, e, sub) = guarded requested result h in
      (c, (authorize-accepts lib jwks revocation headers revocation_required now c).0 e, sub)
