-- ===== src/Caddy/Routes/Ids.antt =====
-- The ids of routes.
use dun_tunel.Prelude.{◌≡◌, refl, false, [], ◌∷◌, ◌++◌, Text, text, ◌==◌, All, arith, if◌then◌else◌}
use dun_tunel.Caddy.Routes.{underscored, route_id}

-- No underscore, which host names do not have.
abbrev pub IsHost : Text → Type 0
IsHost = All (λ c. (c == b'_') ≡ false)

underscored-inj : (a b : Text) → IsHost a → IsHost b → underscored a ≡ underscored b → a ≡ b
unfolding underscored
underscored-inj [] [] g h e = refl
underscored-inj [] (d ∷ b) g h e = cc
underscored-inj (c ∷ a) [] g h e = cc
underscored-inj (c ∷ a) (d ∷ b) g h e =
    let head : (if c == b'.' then b'_' else c) ≡ (if d == b'.' then b'_' else d) = cc in
    let same : c ≡ d = ground (arith, head, g.0, h.0) in
    let rest : underscored a ≡ underscored b = cc in cc (same, underscored-inj a b g.1 h.1 rest)

prefix-inj : (p a b : Text) → p ++ a ≡ p ++ b → a ≡ b
prefix-inj [] a b e = e
prefix-inj (c ∷ p) a b e = prefix-inj p a b (cc)

-- Different host names without underscores have different route ids.
pub route_id-inj : (a b : Text) → IsHost a → IsHost b → route_id a ≡ route_id b → a ≡ b
unfolding route_id
route_id-inj a b g h e =
    underscored-inj a b g h (prefix-inj (text "dun-tunel-") (underscored a) (underscored b) e)
