-- ===== src/Control/Startup/Upstream.antt =====
-- Where dun-api is, for an endpoint of the usual form.
use dun_tunel.Prelude.{
  ℕ, ◌≡◌, refl, ap, true, false, ◌==◌, [], ◌∷◌, ◌++◌, some, Text, text, All, is_whitespace,
  strip_prefix, split_head, contains_char, arith,
}
use dun_tunel.Prelude.Trim.{trim-none}
use dun_tunel.Control.Startup.{behind_scheme, authority_of, parse_dun_api_upstream}

abbrev pub Without : ℕ → Text → Type 0
Without d = All (λ c. (c == d) ≡ false)

behind_scheme-append :
    (scheme rest : Text)
    → Without b':' scheme
    → behind_scheme (scheme ++ text "://" ++ rest) ≡ some rest
unfolding behind_scheme strip_prefix
behind_scheme-append [] rest h = refl
behind_scheme-append (c ∷ scheme) rest h =
    let no_colon : (b':' == c) ≡ false = ground (arith, h.0) in
    rw (behind_scheme, no_colon) (behind_scheme-append scheme rest h.1)

split_head-append : (d : ℕ) (s rest : Text) → Without d s → split_head d (s ++ d ∷ rest) ≡ s
unfolding split_head
split_head-append d [] rest h = ground arith
split_head-append d (c ∷ s) rest h = rw h.0 (ap (λ t. c ∷ t) (split_head-append d s rest h.1))

-- Of an endpoint `scheme://authority/path` without whitespace, whose authority has a port, the upstream
-- is the authority.
pub parse_dun_api_upstream-authority :
    (scheme : Text) (c : ℕ) (authority path : Text)
    → Without b':' scheme
    → Without b'/' (c ∷ authority)
    → contains_char b':' (c ∷ authority) ≡ true
    → All (λ d. is_whitespace d ≡ false) (scheme ++ text "://" ++ ((c ∷ authority) ++ b'/' ∷ path))
    → parse_dun_api_upstream (scheme ++ text "://" ++ ((c ∷ authority) ++ b'/' ∷ path))
      ≡ some (c ∷ authority)
unfolding parse_dun_api_upstream authority_of
parse_dun_api_upstream-authority scheme c authority path h g port plain =
    let rest = (c ∷ authority) ++ b'/' ∷ path in
    rw
      (
        trim-none (scheme ++ text "://" ++ rest) plain,
        behind_scheme-append scheme rest h,
        split_head-append b'/' (c ∷ authority) path g,
        port,
      )
      refl
