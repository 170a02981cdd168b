-- ===== src/Shared/Endpoint.antt =====
-- `normalise_dun_api_endpoint` of crates/edge-shared/src/revocation.rs, which
-- crates/edge-callback-client/src/client.rs has too, as `normalise_endpoint`.
use mathlib.Core.List.{reverse, reverse-reverse, reverse-append}
use dun_tunel.Prelude.{
  ℕ, Text, text, ◌≡◌, refl, sym, ap, ◌∙◌, Bool, true, [], ◌∷◌, ◌++◌, ◌==◌, if◌then◌else◌,
  trim_start_by, trim_end_by, ends_with, starts_with, Bool-cases, inl, inr,
}

abbrev pub is_slash : ℕ → Bool
is_slash c = c == b'/'

abbrev pub api_suffix : Text
api_suffix = text "/api"

unfoldable pub normalise : Text → Text
normalise raw =
    let trimmed = trim_end_by is_slash raw in
    if ends_with trimmed api_suffix then trimmed else trimmed ++ api_suffix

trim_start_by_idem :
    (p : ℕ → Bool) (s : Text) → trim_start_by p (trim_start_by p s) ≡ trim_start_by p s
unfolding trim_start_by
trim_start_by_idem p [] = refl
trim_start_by_idem p (c ∷ s) = elim (Bool-cases (p c)) [
  | inl e ↦ rw e (trim_start_by_idem p s)
  | inr e ↦ rw (e, trim_start_by) (rw e)
]

trim_end_by_idem : (p : ℕ → Bool) (s : Text) → trim_end_by p (trim_end_by p s) ≡ trim_end_by p s
unfolding trim_end_by
trim_end_by_idem p s =
    rw (reverse-reverse (trim_start_by p (reverse s)))
      (ap reverse (trim_start_by_idem p (reverse s)))

-- A text that ends in the suffix has no slash to lose.
trim_end_by-api : (s : Text) → trim_end_by is_slash (s ++ api_suffix) ≡ s ++ api_suffix
unfolding trim_end_by
trim_end_by-api s =
    rw (reverse-append s api_suffix)
      (ap reverse (sym (reverse-append s api_suffix)) ∙ reverse-reverse (s ++ api_suffix))

ends_with-api : (s : Text) → ends_with (s ++ api_suffix) api_suffix ≡ true
unfolding ends_with starts_with
ends_with-api s = rw (reverse-append s api_suffix) refl

-- The normalised endpoint ends in `/api`, and to normalise it again changes nothing.
pub normalise_idem :
    (raw : Text)
    → (ends_with (normalise raw) api_suffix ≡ true) × (normalise (normalise raw) ≡ normalise raw)
unfolding normalise
normalise_idem raw = elim (Bool-cases (ends_with (trim_end_by is_slash raw) api_suffix)) [
  | inl e ↦ rw (e, trim_end_by_idem is_slash raw, e) (refl, refl)
  | inr e ↦
      rw (e, trim_end_by-api (trim_end_by is_slash raw), ends_with-api (trim_end_by is_slash raw))
        (refl, refl)
]
