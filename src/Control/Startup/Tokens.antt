-- ===== src/Control/Startup/Tokens.antt =====
-- The tokens that the started server accepts.
use dun_tunel.Prelude.{
  Text, text, text_eq, text_eq_iff, Bool-cases, lookup, lookup-insert, Option, none, some, ◌≡◌,
  refl, sym, subst, false, ◌∙◌, ap, ◌⊎◌, inl, inr, if◌then◌else◌,
}
use dun_tunel.Shared.Errors.{ok}
use dun_tunel.Shared.Jwt.{
  TunnelClaims, JsonWebToken, JwtVerifier, RevocationOracle, got, new, verify_tunnel, tunnel_aud,
}
use dun_tunel.Shared.Jwt.Acceptance.{Cleared, answered, verify_tunnel-accepts}
use dun_tunel.Control.Config.{EdgeConfig}
use dun_tunel.Control.Startup.{with_key, with_oracle, verifier_of}

-- The secret that is configured for a key id.
abbrev pub secret_of : Text → EdgeConfig → Option Text
secret_of kid cfg =
    if text_eq (text "v2") kid
    then cfg.jwt_secret_v2
    else if text_eq (text "v1") kid
    then cfg.jwt_secret_v1
    else none

module _ {Key : Type 0} (lib : JsonWebToken Key) where
  abbrev key_or : Option Text → Option Key → Option Key
  key_or none found = found
  key_or (some secret) found = some (lib.from_secret secret)

  -- A key that comes from the secret.
  abbrev IsFrom : Option Text → Key → Type 0
  IsFrom secret key = (t : Text) × (secret ≡ some t) × (key ≡ lib.from_secret t)

  key_or-IsFrom :
      (secret : Option Text) (found : Option Key) {key : Key}
      → key_or secret found ≡ some key
      → IsFrom secret key ⊎ (found ≡ some key)
  key_or-IsFrom none found h = inr h
  key_or-IsFrom (some t) found h = inl (t, refl, cc)

module _ {Key S : Type 0} (lib : JsonWebToken Key) where
  with_key-lookup :
      (kid other : Text) (secret : Option Text) (v : JwtVerifier Key S)
      → lookup other (with_key lib kid secret v).keys ≡ (
          if text_eq kid other
          then key_or lib secret (lookup other v.keys)
          else lookup other v.keys)
  unfolding dun_tunel.Shared.Jwt.add_key
  with_key-lookup kid other none v = elim (Bool-cases (text_eq kid other)) [
    | inl y ↦ rw y refl
    | inr n ↦ rw n refl
  ]
  with_key-lookup kid other (some secret) v =
      lookup-insert kid other (lib.from_secret secret) v.keys

  with_oracle-keys :
      (oracle : Text → RevocationOracle S) (api_key : Option Text) (v : JwtVerifier Key S)
      → (with_oracle lib oracle api_key v).keys ≡ v.keys
  unfolding dun_tunel.Shared.Jwt.with_revocation
  with_oracle-keys oracle none v = refl
  with_oracle-keys oracle (some api_key) v = refl

  with_key-revocation :
      (kid : Text) (secret : Option Text) (v : JwtVerifier Key S)
      → (with_key lib kid secret v).revocation ≡ v.revocation
  unfolding dun_tunel.Shared.Jwt.add_key
  with_key-revocation kid none v = refl
  with_key-revocation kid (some secret) v = refl

  verifier_of-key :
      (oracle : Text → RevocationOracle S) (cfg : EdgeConfig) (kid : Text) {key : Key}
      → lookup kid (verifier_of lib oracle cfg).keys ≡ some key
      → IsFrom lib (secret_of kid cfg) key
  unfolding verifier_of new lookup text_eq
  verifier_of-key oracle cfg kid {key} h =
      let first = with_key lib (text "v1") cfg.jwt_secret_v1 (new lib) in
      let both = with_key lib (text "v2") cfg.jwt_secret_v2 first in
      let at_both : lookup kid both.keys ≡ some key =
        ap (λ m. lookup kid m) (sym (with_oracle-keys oracle cfg.dun_api_key both)) ∙ h in
      let split = sym (with_key-lookup (text "v2") kid cfg.jwt_secret_v2 first) ∙ at_both in
      let below = with_key-lookup (text "v1") kid cfg.jwt_secret_v1 (new lib) in
      elim (Bool-cases (text_eq (text "v2") kid)) [
        | inl y ↦ elim (key_or-IsFrom lib cfg.jwt_secret_v2 _ (rw y at split)) [
          | inl made ↦ rw y made
          | inr found ↦
              let other : text_eq (text "v1") kid ≡ false =
                subst (λ k. text_eq (text "v1") k ≡ false) ((text_eq_iff (text "v2") kid).0 y)
                  refl in
              absurd (cc (rw other at below, found))
        ]
        | inr n ↦ elim (Bool-cases (text_eq (text "v1") kid)) [
          | inl y ↦
              elim (key_or-IsFrom lib cfg.jwt_secret_v1 none
                (sym (rw y at below) ∙ (rw n at split))) [
                  | inl made ↦ rw (n, y) made
                  | inr found ↦ absurd (cc found)
                ]
          | inr m ↦ absurd (cc (rw m at below, rw n at split))
        ]
      ]

  with_oracle-revocation :
      (oracle : Text → RevocationOracle S) (api_key : Text) (v : JwtVerifier Key S)
      → (with_oracle lib oracle (some api_key) v).revocation ≡ some (oracle api_key)
  unfolding dun_tunel.Shared.Jwt.with_revocation
  with_oracle-revocation oracle api_key v = refl

  Cleared-by :
      (o : RevocationOracle S) (jti : Text) (s : S)
      → Cleared jti s (some o)
      → (o.is_revoked jti s).0 ≡ ok false
  Cleared-by o jti s (answered _ e) = e

  verifier_of-clear :
      (oracle : Text → RevocationOracle S) (cfg : EdgeConfig) (jti : Text) (s : S) (api_key : Text)
      → cfg.dun_api_key ≡ some api_key
      → Cleared jti s (verifier_of lib oracle cfg).revocation
      → ((oracle api_key).is_revoked jti s).0 ≡ ok false
  unfolding verifier_of
  verifier_of-clear oracle cfg jti s api_key e clear =
      let keyed =
        with_key lib (text "v2") cfg.jwt_secret_v2
          (with_key lib (text "v1") cfg.jwt_secret_v1 (new lib)) in
      Cleared-by (oracle api_key) jti s
        (subst (λ o. Cleared jti s o) (with_oracle-revocation oracle api_key keyed) (rw e at clear))

  -- The started server accepts a tunnel token with the claims `c` only where its header names a key id
  -- whose secret is configured, the token is valid under that secret, `c` names the region that is
  -- asked for, and, with an API key, dun-api answers that it is not revoked.
  pub initialized-accepts :
      (oracle : Text → RevocationOracle S) (cfg : EdgeConfig) (token region : Text) (s : S)
      (c : TunnelClaims)
      → (verify_tunnel lib (verifier_of lib oracle cfg) token region s).0 ≡ ok c
      → (kid secret : Text) × (lib.decode_header token ≡ got (some kid))
        × (secret_of kid cfg ≡ some secret)
        × (lib.decode_tunnel (lib.from_secret secret) tunnel_aud token ≡ got c)
        × (c.region ≡ region)
        × ((api_key : Text)
            → cfg.dun_api_key ≡ some api_key
            → ((oracle api_key).is_revoked c.jti s).0 ≡ ok false)
  initialized-accepts oracle cfg token region s c h =
      let v = verifier_of lib oracle cfg in
      let (d, same, clear) = (verify_tunnel-accepts lib v token region s c).0 h in
      let (secret, configured, made) = verifier_of-key oracle cfg d.kid d.known in
      (
        d.kid,
        secret,
        d.named,
        configured,
        sym (ap (λ k. lib.decode_tunnel k tunnel_aud token) made) ∙ d.valid,
        same,
        λ api_key e. verifier_of-clear oracle cfg c.jti s api_key e clear,
      )
