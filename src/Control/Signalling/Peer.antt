-- ===== src/Control/Signalling/Peer.antt =====
-- What `ws_handler` of crates/edge-control/src/routes/sfu_ws.rs knows of a viewer: `client_ip` and
-- `mint_viewer_id`.
use dun_tunel.Prelude.{
  ℕ, zero, suc, ◌+◌, ◌*◌, ◌-◌, ◌/◌, ◌%◌, ◌^◌, ◌<◌, ◌≡◌, refl, sym, ap, ◌∙◌, [], ◌∷◌, ◌++◌, Option,
  none, some, Text, text, trim, split_head, ltb, arith, if◌then◌else◌,
}
use native.Mathlib.Nat.{pow-suc}

abbrev pub or_peer : Text → Text → Option Text
or_peer peer [] = some peer
or_peer peer (c ∷ s) = some (c ∷ s)

-- By the header `x-forwarded-for`, where it is readable, and the address of the peer.
unfoldable pub client_ip : Option Text → Text → Option Text
unfolding trim split_head
client_ip none peer = some peer
client_ip (some value) peer = or_peer peer (trim (split_head b',' value))

abbrev hex_digit : ℕ → ℕ
hex_digit n = if ltb n 10 then 48 + n else 87 + n

-- `{:016x}` with 16 for `digits`.
unfoldable hex : ℕ → ℕ → Text
hex zero n = []
hex (suc digits) n = hex digits (n / 16) ++ hex_digit (n % 16) ∷ []

unfoldable pub mint_viewer_id : ℕ → Text
unfolding hex
mint_viewer_id nanos =
    text "v-" ++ (hex 16 nanos ++ hex 16 ((nanos * 11400714819323198485) % 2 ^ 64))

abbrev digit_value : ℕ → ℕ
digit_value c = if ltb c 58 then c - 48 else c - 87

unfoldable read_hex : ℕ → ℕ → Text → ℕ
read_hex zero n s = n
read_hex (suc k) n [] = n
read_hex (suc k) n (c ∷ s) = read_hex k (n * 16 + digit_value c) s

digit_value-hex_digit : (n : ℕ) → n < 16 → digit_value (hex_digit n) ≡ n
digit_value-hex_digit n h = ground (arith, h)

append_assoc : (a b c : Text) → (a ++ b) ++ c ≡ a ++ (b ++ c)
append_assoc [] b c = refl
append_assoc (x ∷ a) b c = ap (λ s. x ∷ s) (append_assoc a b c)

add-suc : (k j : ℕ) → suc k + j ≡ k + suc j
add-suc k j = omega arith

read_hex-hex :
    (k j n : ℕ) (s : Text) → n < 16 ^ k → read_hex (k + j) 0 (hex k n ++ s) ≡ read_hex j n s
unfolding hex read_hex
read_hex-hex zero j n s h =
    ap (λ i. read_hex i 0 s) (omega arith) ∙ ap (λ m. read_hex j m s) (omega (arith, h))
read_hex-hex (suc k) j n s h =
    ap (λ i. read_hex i 0 (hex (suc k) n ++ s)) (add-suc k j)
    ∙ ap (read_hex (k + suc j) 0) (append_assoc (hex k (n / 16)) (hex_digit (n % 16) ∷ []) s)
    ∙ read_hex-hex k (suc j) (n / 16) (hex_digit (n % 16) ∷ s)
        (omega (arith, rw (pow-suc 16 k) at h))
    ∙ ap (λ m. read_hex j m s)
        (ap (λ d. n / 16 * 16 + d) (digit_value-hex_digit (n % 16) (omega arith)) ∙ omega arith)

-- The time of the connection, from the id of the viewer.
abbrev minted_at : Text → ℕ
minted_at id = elim id [ [] ↦ 0 | a ∷ s ↦ elim s [ [] ↦ 0 | b ∷ t ↦ read_hex 16 0 t ] ]

-- Two viewers that connect at different nanoseconds, of 64 bits, have different ids.
pub mint_viewer_id-inj :
    (nanos other : ℕ)
    → nanos < 2 ^ 64
    → other < 2 ^ 64
    → mint_viewer_id nanos ≡ mint_viewer_id other
    → nanos ≡ other
unfolding mint_viewer_id read_hex
mint_viewer_id-inj nanos other h g e = sym (minted nanos h) ∙ ap minted_at e ∙ minted other g
  where
    minted : (n : ℕ) → n < 2 ^ 64 → minted_at (mint_viewer_id n) ≡ n
    minted n b =
        read_hex-hex 16 0 n (hex 16 ((n * 11400714819323198485) % 2 ^ 64)) (omega (arith, b))
