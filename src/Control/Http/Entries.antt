-- ===== src/Control/Http/Entries.antt =====
-- The snapshot of the routes that the session handler has made.
use dun_tunel.Prelude.{
  ℕ, ◌≤◌, ◌≡◌, refl, false, ◌==◌, List, [], ◌∷◌, ◌++◌, Text, text, split, decimal, arith,
}
use dun_tunel.Storage.Numbers.{IsDigits, decimal-IsDigits, parse_u64-decimal_exact}
use dun_tunel.Control.Http.{route_entry}

split-digits : (s : Text) → IsDigits s → split b':' s ≡ s ∷ []
unfolding split
split-digits [] h = refl
split-digits (c ∷ s) h =
    let no_colon : (c == b':') ≡ false = ground (arith, h.0) in
    rw (no_colon, split-digits s h.1) refl

-- The port in the snapshot is the one that the route was made with.
pub route_entry-port :
    (host : Text) (port : ℕ) (ws_paths : List Text)
    → port ≤ 65535
    → (route_entry (record {
      host = host;
      upstream = text "127.0.0.1:" ++ decimal port;
      ws_paths = ws_paths;
    })).upstream_port
      ≡ port
unfolding route_entry split
route_entry-port host port ws_paths h =
    rw
      (
        split-digits (decimal port) (decimal-IsDigits port),
        parse_u64-decimal_exact port (omega (arith, h)),
      )
      (ground (arith, h))
