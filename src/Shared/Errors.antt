-- ===== src/Shared/Errors.antt =====
-- crates/edge-shared/src/errors.rs: the error type of the edge crates, and `EdgeResult`. The
-- payloads that come from other crates (`std::io::Error`, `serde_json::Error`, `anyhow::Error`)
-- are kept as their message.
use dun_tunel.Prelude.{Text, ◌≡◌, refl, ◌⊎◌, inl, inr}

pub data EdgeError : Type 0 where
  session_not_found : Text → EdgeError
  invalid_token : Text → EdgeError
  token_revoked : Text → EdgeError
  region_mismatch : Text → Text → EdgeError
  viewer_cap_reached : Text → EdgeError
  port_pool_exhausted : EdgeError
  upstream_unreachable : Text → EdgeError
  config : Text → EdgeError
  io : Text → EdgeError
  serde : Text → EdgeError
  other : Text → EdgeError

pub data EdgeResult {ℓ} (A : Type ℓ) : Type ℓ where
  ok : A → EdgeResult A
  err : EdgeError → EdgeResult A

infixl 5 ◌>>=◌
abbrev pub ◌>>=◌ {ℓ κ} :
    {B : Type ℓ} {C : Type κ} → EdgeResult B → (B → EdgeResult C) → EdgeResult C
err x >>= next = err x
ok b >>= next = next b

pub EdgeResult-cases {ℓ} :
    {A : Type ℓ} (r : EdgeResult A) → ((a : A) × (r ≡ ok a)) ⊎ ((e : EdgeError) × (r ≡ err e))
EdgeResult-cases (ok a) = inl (a, refl)
EdgeResult-cases (err e) = inr (e, refl)
