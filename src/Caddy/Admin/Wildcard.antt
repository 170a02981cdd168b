-- ===== src/Caddy/Admin/Wildcard.antt =====
-- What bootstrapping the wildcard policy does to the policies of a Caddy that keeps to its
-- documentation.
use dun_tunel.Prelude.{
  ℕ, Bool, Bool-cases, inl, inr, true, false, ◌≡◌, refl, ap, ◌∙◌, List, [], ◌∷◌, ◌++◌, map, none,
  some, Text, text, text_eq, text_eq_iff, strip_prefix, strip_suffix, All, arith,
}
use dun_tunel.Prelude.Json
use dun_tunel.Prelude.Json.{Json, string, strings, list, is_null, item_list-items}
use dun_tunel.Shared.Errors.{ok}
use dun_tunel.Caddy.Admin.Requests.{
  by_id, tls_policies, Response, Exchange, World, ◌>>=◌, pure, require, some_or, is_success, put_to,
  patch_to, attempt, send,
}
use dun_tunel.Caddy.Admin.Client.{put_with_dedup_retry}
use dun_tunel.Caddy.Admin.Sweep.{ArrayAt}
use dun_tunel.Caddy.Admin.Policies.{
  one_label, subject_overlaps, any_overlaps, policy_subject_overlaps, without_overlaps, policy_id,
  wildcard_subject, wildcard_policy, ensure_wildcard_tls_policy,
}
use dun_tunel.Caddy.Admin.Overlaps.{NoDot, strip_suffix-append, one_label-dots}

-- Caddy keeps the policies `view`, and `accepts` tells whether it takes the configuration with these
-- policies in their place: it refuses those that overlap. A PATCH replaces them where it does, and a
-- PUT by the id of the wildcard policy is a 404 before there is one.
pub record Policies {S : Type 0} (exchange : Exchange S) (view : S → List Json) (knows : S → Bool)
    (accepts : S → List Json → Bool) : Type 0 where
  pub policies_at : ArrayAt exchange tls_policies view
  pub unknown : Response
  pub unknown-404 : unknown.status ≡ 404
  pub put-unknown :
      (s : S) (body : Json)
      → knows s ≡ false
      → exchange (put_to (by_id policy_id) body) s ≡ (some unknown, s)
  pub done : Response
  pub done-success : is_success done ≡ true
  pub replaced : S → List Json → S
  pub patch-replaces :
      (s : S) (js : List Json)
      → accepts s js ≡ true
      → exchange (patch_to tls_policies (list js)) s ≡ (some done, replaced s js)
  pub replaced-view : (s : S) (js : List Json) → accepts s js ≡ true → view (replaced s js) ≡ js

-- The subjects of a policy.
abbrev pub HasSubjects : List Text → Json → Type 0
HasSubjects subjects p = Json.get (text "subjects") p ≡ some (strings subjects)

-- With a list of subjects, none of which ends like the hosts of the wildcard.
pub record Foreign (suffix : Text) (p : Json) : Type 0 where
  pub present : is_null p ≡ false
  pub subjects : List Text
  pub listed : HasSubjects subjects p
  pub elsewhere : All (λ s. strip_suffix suffix s ≡ none) subjects

abbrev wild : Text → Text
wild suffix = text "*." ++ suffix

subject_overlaps-elsewhere :
    (suffix s : Text)
    → strip_suffix suffix s ≡ none
    → subject_overlaps (wild suffix) suffix (some s) ≡ false
unfolding subject_overlaps one_label
subject_overlaps-elsewhere suffix s h = elim (Bool-cases (text_eq s (wild suffix))) [
  | inl y ↦ cc (
    ap (strip_suffix suffix) ((text_eq_iff s (wild suffix)).0 y),
    h,
    strip_suffix-append suffix (text "*."),
  )
  | inr n ↦ rw (n, h) refl
]

any_overlaps-elsewhere :
    (suffix : Text) (ss : List Text)
    → All (λ s. strip_suffix suffix s ≡ none) ss
    → any_overlaps (wild suffix) suffix (map string ss) ≡ false
unfolding any_overlaps
any_overlaps-elsewhere suffix [] h = refl
any_overlaps-elsewhere suffix (s ∷ ss) h =
    rw (subject_overlaps-elsewhere suffix s h.0) (any_overlaps-elsewhere suffix ss h.1)

policy_subject_overlaps-of :
    (suffix : Text) (ss : List Text) (p : Json)
    → HasSubjects ss p
    → policy_subject_overlaps p (wild suffix) ≡ any_overlaps (wild suffix) suffix (map string ss)
unfolding policy_subject_overlaps strip_prefix
policy_subject_overlaps-of suffix ss p h =
    rw (h, policy_subject_overlaps, item_list-items (map string ss)) refl

without_overlaps-Foreign :
    (suffix : Text) (js : List Json)
    → All (Foreign suffix) js
    → without_overlaps (wild suffix) js ≡ js
unfolding without_overlaps
without_overlaps-Foreign suffix [] h = refl
without_overlaps-Foreign suffix (j ∷ js) h =
    rw
      (
        h.0.present,
        policy_subject_overlaps-of suffix h.0.subjects j h.0.listed,
        any_overlaps-elsewhere suffix h.0.subjects h.0.elsewhere,
        without_overlaps-Foreign suffix js h.1,
      )
      refl

policy_subject_overlaps-host :
    (c : ℕ) (label suffix : Text) (p : Json)
    → NoDot (c ∷ label)
    → HasSubjects ((((c ∷ label) ++ text ".") ++ suffix) ∷ []) p
    → policy_subject_overlaps p (wild suffix) ≡ true
unfolding any_overlaps subject_overlaps
policy_subject_overlaps-host c label suffix p n h =
    policy_subject_overlaps-of suffix ((((c ∷ label) ++ text ".") ++ suffix) ∷ []) p h
    ∙ ground (arith, one_label-dots c label (text ".") suffix n (refl, tt))

without_overlaps-host :
    (c : ℕ) (label suffix : Text) (pre post : List Json) (p : Json)
    → NoDot (c ∷ label)
    → HasSubjects ((((c ∷ label) ++ text ".") ++ suffix) ∷ []) p
    → All (Foreign suffix) pre
    → All (Foreign suffix) post
    → without_overlaps (wild suffix) (pre ++ p ∷ post) ≡ pre ++ post
unfolding without_overlaps
without_overlaps-host c label suffix [] post p n h f g = elim (Bool-cases (is_null p)) [
  | inl y ↦ rw y (without_overlaps-Foreign suffix post g)
  | inr y ↦
      rw (y, policy_subject_overlaps-host c label suffix p n h)
        (without_overlaps-Foreign suffix post g)
]
without_overlaps-host c label suffix (j ∷ pre) post p n h f g =
    rw
      (
        f.0.present,
        policy_subject_overlaps-of suffix f.0.subjects j f.0.listed,
        any_overlaps-elsewhere suffix f.0.subjects f.0.elsewhere,
        without_overlaps-host c label suffix pre post p n h f.1 g,
      )
      refl

module _ {S : Type 0} (exchange : Exchange S) (view : S → List Json) (knows : S → Bool)
    (accepts : S → List Json → Bool) (caddy : Policies exchange view knows accepts) where
  -- Let Caddy answer as documented and have no wildcard policy, but one whose only subject is a host
  -- of one label directly below the wildcard, between policies with a list of subjects each, none of
  -- which ends in the region and domain. Let it take the wildcard policy in front of those others.
  -- Then bootstrapping succeeds, the host's policy has made room for the wildcard policy, which is
  -- the first, and the others are left in their order.
  pub ensure_wildcard_tls_policy-replaces :
      (region domain token : Text) (c : ℕ) (label : Text) (pre post : List Json) (p : Json)
      (w : World S)
      → knows w.caddy ≡ false
      → view w.caddy ≡ pre ++ p ∷ post
      → NoDot (c ∷ label)
      → HasSubjects ((((c ∷ label) ++ text ".") ++ (region ++ text "." ++ domain)) ∷ []) p
      → All (Foreign (region ++ text "." ++ domain)) pre
      → All (Foreign (region ++ text "." ++ domain)) post
      → accepts w.caddy (wildcard_policy (wildcard_subject region domain) token ∷ (pre ++ post))
        ≡ true
      → let (r, v) = ensure_wildcard_tls_policy exchange region domain token w in
        (r ≡ ok tt)
        × (view v.caddy ≡ wildcard_policy (wildcard_subject region domain) token ∷ (pre ++ post))
  unfolding ensure_wildcard_tls_policy put_with_dedup_retry send attempt ◌>>=◌ require some_or pure
  ensure_wildcard_tls_policy-replaces region domain token c label pre post p w h e n s f g fine =
      let policy = wildcard_policy (wildcard_subject region domain) token in
      let kept : without_overlaps (wildcard_subject region domain) (view w.caddy) ≡ pre ++ post =
        ap (without_overlaps (wildcard_subject region domain)) e
        ∙ without_overlaps-host c label (region ++ text "." ++ domain) pre post p n s f g in
      rw
        (
          caddy.put-unknown w.caddy policy h,
          caddy.unknown-404,
          caddy.policies_at.get-lists w.caddy,
          caddy.policies_at.listing-success w.caddy,
          caddy.policies_at.listing-json w.caddy,
          item_list-items (view w.caddy),
          kept,
          caddy.patch-replaces w.caddy (policy ∷ (pre ++ post)) fine,
          caddy.done-success,
        )
        (refl, caddy.replaced-view w.caddy (policy ∷ (pre ++ post)) fine)
