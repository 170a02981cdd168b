-- ===== src/Gate/Jwks.antt =====
-- The key cache of crates/edge-viewer-gate/src/jwks.rs. What dun-api returns to a fetch is an argument,
-- and so are the decoding of base64 and the making of a key.
use dun_tunel.Prelude.{
  ℕ, ◌≡◌, refl, sym, subst, ◌∙◌, Bool, Bool-cases, true, false, ◌&&◌, ◌==◌, List, [], ◌∷◌, Option,
  none, some, Text, text, text_eq, length, lookup, insert, lookup-insert, inl, inr, if◌then◌else◌,
}
use dun_tunel.Gate.Verify.{JwksCache}

pub record JwkEntry : Type 0 where
  pub kty : Text
  pub crv : Option Text
  pub kid : Text
  pub alg : Option Text
  pub x : Text

abbrev pub is_some_text : Text → Option Text → Bool
is_some_text t none = false
is_some_text t (some s) = text_eq s t

abbrev pub is_ed25519 : JwkEntry → Bool
is_ed25519 e =
    text_eq e.kty (text "OKP")
    && is_some_text (text "Ed25519") e.crv
    && is_some_text (text "EdDSA") e.alg

some-inj : {A : Type 0} {a b : A} → some a ≡ some b → a ≡ b
some-inj h = cc

module _ {Key : Type 0} (decode : Text → Option (List ℕ)) (from_ed_der : List ℕ → Key) where
  -- `none` is the error of the whole fetch.
  abbrev pub add_decoded : Text → Option (List ℕ) → JwksCache Key → Option (JwksCache Key)
  add_decoded kid none out = none
  add_decoded kid (some raw) out =
      some (if length raw == 32 then insert kid (from_ed_der raw) out else out)

  abbrev pub add_entry : JwkEntry → JwksCache Key → Option (JwksCache Key)
  add_entry e out = if is_ed25519 e then add_decoded e.kid (decode e.x) out else some out

  unfoldable pub collect_keys : List JwkEntry → Option (JwksCache Key) → Option (JwksCache Key)
  unfolding text_eq insert
  collect_keys es none = none
  collect_keys [] (some out) = some out
  collect_keys (e ∷ es) (some out) = collect_keys es (add_entry e out)

  -- `none` where the request or the parsing of its answer fails.
  unfoldable pub fetch_jwks : Option (List JwkEntry) → Option (JwksCache Key)
  unfolding collect_keys
  fetch_jwks none = none
  fetch_jwks (some entries) = collect_keys entries (some [])

  abbrev pub keys_or : JwksCache Key → Option (JwksCache Key) → JwksCache Key
  keys_or cache none = cache
  keys_or cache (some []) = cache
  keys_or cache (some (k ∷ ks)) = k ∷ ks

  -- One round of the background task.
  unfoldable pub refresh : JwksCache Key → Option (List JwkEntry) → JwksCache Key
  unfolding fetch_jwks
  refresh cache answer = keys_or cache (fetch_jwks answer)

  abbrev pub not_empty : Option (JwksCache Key) → Option (JwksCache Key)
  not_empty none = none
  not_empty (some []) = none
  not_empty (some (k ∷ ks)) = some (k ∷ ks)

  unfoldable pub first_fetch : Option (List JwkEntry) → Option (JwksCache Key)
  unfolding fetch_jwks
  first_fetch answer = not_empty (fetch_jwks answer)

  unfoldable pub refreshes : JwksCache Key → List (Option (List JwkEntry)) → JwksCache Key
  unfolding refresh
  refreshes cache [] = cache
  refreshes cache (answer ∷ answers) = refreshes (refresh cache answer) answers

  -- Every key was made of 32 bytes.
  abbrev pub AreEd25519 : JwksCache Key → Type 0
  AreEd25519 cache =
      (kid : Text) (key : Key)
      → lookup kid cache ≡ some key
      → (raw : List ℕ) × ((length raw == 32) ≡ true) × (key ≡ from_ed_der raw)

  abbrev pub AreUsable : Option (JwksCache Key) → Type 0
  AreUsable fetched = (out : JwksCache Key) → fetched ≡ some out → AreEd25519 out

  insert-AreEd25519 :
      (kid : Text) (raw : List ℕ) (out : JwksCache Key)
      → (length raw == 32) ≡ true
      → AreEd25519 out
      → AreEd25519 (insert kid (from_ed_der raw) out)
  insert-AreEd25519 kid raw out y h other key e =
      let found = sym (lookup-insert kid other (from_ed_der raw) out) ∙ e in
      elim (Bool-cases (text_eq kid other)) [
        | inl same ↦ (raw, y, sym (some-inj (rw same at found)))
        | inr n ↦ h other key (rw n at found)
      ]

  add_decoded-AreUsable :
      (kid : Text) (decoded : Option (List ℕ)) (out : JwksCache Key)
      → AreEd25519 out
      → AreUsable (add_decoded kid decoded out)
  add_decoded-AreUsable kid none out h next e = cc
  add_decoded-AreUsable kid (some raw) out h next e = elim (Bool-cases (length raw == 32)) [
    | inl y ↦ subst AreEd25519 (some-inj (rw y at e)) (insert-AreEd25519 kid raw out y h)
    | inr n ↦ subst AreEd25519 (some-inj (rw n at e)) h
  ]

  add_entry-AreUsable :
      (e : JwkEntry) (out : JwksCache Key) → AreEd25519 out → AreUsable (add_entry e out)
  add_entry-AreUsable e out h = elim (Bool-cases (is_ed25519 e)) [
    | inl y ↦ rw y (add_decoded-AreUsable e.kid (decode e.x) out h)
    | inr n ↦ rw n (λ next g. subst AreEd25519 (some-inj g) h)
  ]

  collect_keys-AreUsable :
      (es : List JwkEntry) (out : Option (JwksCache Key))
      → AreUsable out
      → AreUsable (collect_keys es out)
  unfolding collect_keys
  collect_keys-AreUsable [] none h = h
  collect_keys-AreUsable (e ∷ es) none h = h
  collect_keys-AreUsable [] (some out) h = h
  collect_keys-AreUsable (e ∷ es) (some out) h =
      collect_keys-AreUsable es (add_entry e out) (add_entry-AreUsable e out (h out refl))

  fetch_jwks-AreUsable : (answer : Option (List JwkEntry)) → AreUsable (fetch_jwks answer)
  unfolding fetch_jwks lookup
  fetch_jwks-AreUsable none = λ out e. cc
  fetch_jwks-AreUsable (some entries) =
      collect_keys-AreUsable entries (some [])
        (λ out e. subst AreEd25519 (some-inj e) (λ kid key g. cc))

  -- A cache that is worth having: it has keys, all of them of 32 bytes.
  abbrev pub IsServing : JwksCache Key → Type 0
  IsServing cache = (¬ (cache ≡ [])) × AreEd25519 cache

  keys_or-IsServing :
      (cache : JwksCache Key) (fetched : Option (JwksCache Key))
      → IsServing cache
      → AreUsable fetched
      → IsServing (keys_or cache fetched)
  keys_or-IsServing cache none h g = h
  keys_or-IsServing cache (some []) h g = h
  keys_or-IsServing cache (some (k ∷ ks)) h g = (λ e. cc, g (k ∷ ks) refl)

  not_empty-IsServing :
      (fetched : Option (JwksCache Key)) (cache : JwksCache Key)
      → AreUsable fetched
      → not_empty fetched ≡ some cache
      → IsServing cache
  not_empty-IsServing none cache g e = cc
  not_empty-IsServing (some []) cache g e = cc
  not_empty-IsServing (some (k ∷ ks)) cache g e =
      subst IsServing (some-inj e) (λ z. cc, g (k ∷ ks) refl)

  refreshes-IsServing :
      (cache : JwksCache Key) (answers : List (Option (List JwkEntry)))
      → IsServing cache
      → IsServing (refreshes cache answers)
  unfolding refreshes refresh
  refreshes-IsServing cache [] h = h
  refreshes-IsServing cache (a ∷ answers) h =
      refreshes-IsServing (refresh cache a) answers
        (keys_or-IsServing cache (fetch_jwks a) h (fetch_jwks-AreUsable a))

  -- Once the process has started, whatever the later fetches return, the cache has keys, and each of
  -- them was made of 32 bytes.
  pub first_fetch-IsServing :
      (answer : Option (List JwkEntry)) (cache : JwksCache Key)
      (answers : List (Option (List JwkEntry)))
      → first_fetch answer ≡ some cache
      → IsServing (refreshes cache answers)
  unfolding first_fetch
  first_fetch-IsServing answer cache answers e =
      refreshes-IsServing cache answers
        (not_empty-IsServing (fetch_jwks answer) cache (fetch_jwks-AreUsable answer) e)
