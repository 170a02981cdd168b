-- ===== src/Shared/Revocation.antt =====
-- crates/edge-shared/src/revocation.rs: the oracle that asks dun-api over HTTP and caches what it
-- hears. Times are milliseconds of the monotonic clock, given by the caller; what HTTP returns is
-- an argument. The endpoint's normalisation is in Shared/Endpoint.antt.
pub mod Freshness
use dun_tunel.Prelude.{
  ℕ, ◌+◌, ◌-◌, Text, text, Assoc, lookup, insert, length, Option, none, some, Bool, true, false,
  List, [], ◌∷◌, ◌++◌, ltb, if◌then◌else◌,
}
use dun_tunel.Shared.Errors.{EdgeError, EdgeResult, ok, err, config}
use dun_tunel.Shared.Endpoint.{normalise}

abbrev pub default_cache_ttl : ℕ
default_cache_ttl = 5000

abbrev pub cache_limit : ℕ
cache_limit = 10000

pub record CacheEntry : Type 0 where
  pub revoked : Bool
  pub inserted_at : ℕ

pub record HttpRevocationOracle : Type 0 where
  pub endpoint : Text
  pub api_key : Text
  pub cache : Assoc CacheEntry
  pub ttl : ℕ

-- What the request to dun-api comes to: no response, a status with its text that is no success, a
-- body that does not parse, or an answer.
pub data Response : Type 0 where
  unsent : Text → Response
  non_2xx : Text → Response
  bad_body : Text → Response
  answer : Bool → Response

unfoldable pub new : Text → Text → HttpRevocationOracle
new endpoint api_key = record {
  endpoint = normalise endpoint;
  api_key = api_key;
  cache = [];
  ttl = default_cache_ttl;
}

unfoldable pub with_ttl : HttpRevocationOracle → ℕ → HttpRevocationOracle
with_ttl o ttl = record o { ttl = ttl }

abbrev pub fresh_entry : ℕ → ℕ → Option CacheEntry → Option Bool
fresh_entry ttl now none = none
fresh_entry ttl now (some e) = if ltb (now - e.inserted_at) ttl then some e.revoked else none

-- `unlocked` is whether `try_read` gets the lock.
unfoldable pub cache_get : HttpRevocationOracle → Bool → ℕ → Text → Option Bool
cache_get o unlocked now jti = if unlocked then fresh_entry o.ttl now (lookup jti o.cache) else none

-- `HashMap::retain` over the entries' values.
unfoldable pub retain : (CacheEntry → Bool) → Assoc CacheEntry → Assoc CacheEntry
retain p [] = []
retain p ((k, e) ∷ m) = let rest = retain p m in if p e then (k, e) ∷ rest else rest

unfoldable pub cache_put : HttpRevocationOracle → ℕ → Text → Bool → HttpRevocationOracle
cache_put o now jti revoked =
    let cutoff = now - o.ttl in
    let kept =
      if ltb cache_limit (length o.cache)
      then retain (λ e. ltb cutoff e.inserted_at) o.cache
      else o.cache in
    record o { cache = insert jti (record { revoked = revoked; inserted_at = now }) kept }

unfoldable pub fetch : Response → EdgeResult Bool
fetch (unsent e) = err (config (text "revocation fetch: " ++ e))
fetch (non_2xx status) = err (config (text "revocation lookup non-2xx: " ++ status))
fetch (bad_body e) = err (config (text "revocation body: " ++ e))
fetch (answer revoked) = ok revoked

-- One call: when it looks in the cache, whether it gets the lock, what dun-api returns, and when the
-- answer is stored.
pub record Query : Type 0 where
  pub jti : Text
  pub asked_at : ℕ
  pub unlocked : Bool
  pub response : Response
  pub stored_at : ℕ

abbrev pub store_answer :
    HttpRevocationOracle → Query → EdgeResult Bool → EdgeResult Bool × HttpRevocationOracle
store_answer o q (err e) = (err e, o)
store_answer o q (ok revoked) = (ok revoked, cache_put o q.stored_at q.jti revoked)

abbrev pub answer_or_fetch :
    HttpRevocationOracle → Query → Option Bool → EdgeResult Bool × HttpRevocationOracle
answer_or_fetch o q (some cached) = (ok cached, o)
answer_or_fetch o q none = store_answer o q (fetch q.response)

unfoldable pub is_revoked : HttpRevocationOracle → Query → EdgeResult Bool × HttpRevocationOracle
is_revoked o q = answer_or_fetch o q (cache_get o q.unlocked q.asked_at q.jti)

-- The oracle after a series of calls.
unfoldable pub serve : HttpRevocationOracle → List Query → HttpRevocationOracle
serve o [] = o
serve o (q ∷ qs) = serve (is_revoked o q).1 qs
