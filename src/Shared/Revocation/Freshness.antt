-- ===== src/Shared/Revocation/Freshness.antt =====
-- How old an answer of the oracle can be.
use dun_tunel.Prelude.{
  ℕ, ◌+◌, ◌≤◌, ◌<◌, Text, Assoc, lookup, All-insert, All-lookup, length, Option, none, some, Bool,
  List, [], ◌∷◌, ◌≡◌, refl, inl, inr, All, ltb, arith, Option-cases, Bool-cases,
}
use dun_tunel.Shared.Errors.{EdgeResult, ok, err}
use dun_tunel.Shared.Revocation.{
  CacheEntry, HttpRevocationOracle, Query, cache_get, cache_put, retain, fetch, is_revoked, serve,
  fresh_entry, store_answer, new, with_ttl, cache_limit,
}

-- dun-api said so of the token at some time at most `d` before the entry was made.
abbrev pub Witnessed : (ℕ → Text → Bool) → ℕ → Text × CacheEntry → Type 0
Witnessed server d (jti, e) =
    (t : ℕ) × (server t jti ≡ e.revoked) × (t ≤ e.inserted_at) × (e.inserted_at ≤ t + d)

All-retain :
    (P : Text × CacheEntry → Type 0) (p : CacheEntry → Bool) (m : Assoc CacheEntry)
    → All P m
    → All P (retain p m)
unfolding retain
All-retain P p [] h = tt
All-retain P p ((k, e) ∷ m) h = elim (Bool-cases (p e)) [
  | inl y ↦ rw y (h.0, All-retain P p m h.1)
  | inr n ↦ rw n (All-retain P p m h.1)
]

module _ (server : ℕ → Text → Bool) (d : ℕ) where
  -- The query's answer, if there is one, is what dun-api said between the question and the storing,
  -- which lie at most `d` apart.
  pub record IsTruthful (q : Query) : Type 0 where
    pub sampled_at : ℕ
    pub after_question : q.asked_at ≤ sampled_at
    pub before_storing : sampled_at ≤ q.stored_at
    pub in_time : q.stored_at ≤ q.asked_at + d
    pub says : (r : Bool) → fetch q.response ≡ ok r → server sampled_at q.jti ≡ r

  cache_put-Witnessed :
      (o : HttpRevocationOracle) (now : ℕ) (jti : Text) (r : Bool)
      → All (Witnessed server d) o.cache
      → Witnessed server d (jti, record { revoked = r; inserted_at = now })
      → All (Witnessed server d) (cache_put o now jti r).cache
  unfolding cache_put
  cache_put-Witnessed o now jti r h w = elim (Bool-cases (ltb cache_limit (length o.cache))) [
    | inl e ↦ rw e (All-insert _ jti _ _ w (All-retain _ _ o.cache h))
    | inr e ↦ rw e (All-insert _ jti _ o.cache w h)
  ]

  store_answer-Witnessed :
      (o : HttpRevocationOracle) (q : Query) (r : EdgeResult Bool)
      → fetch q.response ≡ r
      → IsTruthful q
      → All (Witnessed server d) o.cache
      → All (Witnessed server d) (store_answer o q r).1.cache
  store_answer-Witnessed o q (err e) g v h = h
  store_answer-Witnessed o q (ok r) g v h =
      cache_put-Witnessed o q.stored_at q.jti r h
        (v.sampled_at, v.says r g, v.before_storing, omega (arith, v.in_time, v.after_question))

  abbrev IsSound : ℕ → HttpRevocationOracle → Type 0
  IsSound ttl o = (o.ttl ≡ ttl) × All (Witnessed server d) o.cache

  store_answer-IsSound :
      (ttl : ℕ) (o : HttpRevocationOracle) (q : Query) (r : EdgeResult Bool)
      → fetch q.response ≡ r
      → IsTruthful q
      → IsSound ttl o
      → IsSound ttl (store_answer o q r).1
  store_answer-IsSound ttl o q (err e) g v h = h
  store_answer-IsSound ttl o q (ok r) g v h =
      (unfold cache_put in h.0, store_answer-Witnessed o q (ok r) g v h.1)

  is_revoked-IsSound :
      (ttl : ℕ) (o : HttpRevocationOracle) (q : Query)
      → IsTruthful q
      → IsSound ttl o
      → IsSound ttl (is_revoked o q).1
  unfolding is_revoked
  is_revoked-IsSound ttl o q v h = elim (Option-cases (cache_get o q.unlocked q.asked_at q.jti)) [
    | inl e ↦ rw e (store_answer-IsSound ttl o q (fetch q.response) refl v h)
    | inr (r, e) ↦ rw e h
  ]

  serve-IsSound :
      (ttl : ℕ) (o : HttpRevocationOracle) (qs : List Query)
      → All IsTruthful qs
      → IsSound ttl o
      → IsSound ttl (serve o qs)
  unfolding serve
  serve-IsSound ttl o [] v h = h
  serve-IsSound ttl o (q ∷ qs) v h =
      serve-IsSound ttl (is_revoked o q).1 qs v.1 (is_revoked-IsSound ttl o q v.0 h)

  abbrev Recent : HttpRevocationOracle → Query → Bool → Type 0
  Recent o q r = (t : ℕ) × (server t q.jti ≡ r) × (q.asked_at < t + d + o.ttl)

  cached-Recent :
      (o : HttpRevocationOracle) (q : Query) (found : Option CacheEntry) {r : Bool}
      → lookup q.jti o.cache ≡ found
      → All (Witnessed server d) o.cache
      → fresh_entry o.ttl q.asked_at found ≡ some r
      → Recent o q r
  cached-Recent o q none e h g = cc
  cached-Recent o q (some entry) {r} e h g =
      let (t, says, before, within) = All-lookup (Witnessed server d) q.jti o.cache h e in
      (t, ground arith, ground arith)

  store_answer-fst :
      (o : HttpRevocationOracle) (q : Query) (r : EdgeResult Bool) → (store_answer o q r).0 ≡ r
  store_answer-fst o q (err e) = refl
  store_answer-fst o q (ok r) = refl

  is_revoked-Recent :
      (o : HttpRevocationOracle) (q : Query) (r : Bool)
      → 0 < o.ttl
      → IsTruthful q
      → All (Witnessed server d) o.cache
      → (is_revoked o q).0 ≡ ok r
      → Recent o q r
  unfolding is_revoked cache_get
  is_revoked-Recent o q r pos v h g =
      elim (Option-cases (cache_get o q.unlocked q.asked_at q.jti)) [
        | inl e ↦ (
          v.sampled_at,
          v.says r (cc (rw e at g, store_answer-fst o q (fetch q.response))),
          omega (arith, v.after_question),
        )
        | inr (c, e) ↦
            let same : c ≡ r = cc (rw e at g) in
            cached-Recent o q (lookup q.jti o.cache) refl h (ground (arith, e, same))
      ]

-- Let dun-api's answers be those of `server`, each given between the question and the storing, which
-- lie at most `d` apart. Let `ttl` be positive. After any such calls from a new oracle whose TTL is set
-- to `ttl`, an answer `r` to one more such call is what dun-api said of the token at a time less than
-- `d + ttl` before the question.
pub answers_recent :
    (server : ℕ → Text → Bool) (d : ℕ) (endpoint api_key : Text) (ttl : ℕ) (qs : List Query)
    (q : Query) (r : Bool)
    → 0 < ttl
    → All (IsTruthful server d) qs
    → IsTruthful server d q
    → (is_revoked (serve (with_ttl (new endpoint api_key) ttl) qs) q).0 ≡ ok r
    → (t : ℕ) × (server t q.jti ≡ r) × (q.asked_at < t + d + ttl)
unfolding new with_ttl
answers_recent server d endpoint api_key ttl qs q r pos vs v h =
    let start = with_ttl (new endpoint api_key) ttl in
    let sound = serve-IsSound server d ttl start qs vs (refl, tt) in
    let (t, says, recent) =
      is_revoked-Recent server d (serve start qs) q r (omega (arith, sound.0)) v sound.1 h in
    (t, says, omega (arith, sound.0, recent))
