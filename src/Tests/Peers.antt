-- ===== src/Tests/Peers.antt =====
-- The keys of the viewer gate, the peers of the signalling and the input bridges, at concrete inputs.
use dun_tunel.Prelude.{
  ℕ, ◌≡◌, refl, trim, trim_start_by, trim_end_by, split_head, is_whitespace, List, [], ◌∷◌, Option,
  none, some, Text, text, text_eq, insert, remove, lookup, if◌then◌else◌,
}
use dun_tunel.Gate.Jwks.{JwkEntry, collect_keys, fetch_jwks, refresh, refreshes}
use dun_tunel.Control.Signalling.Peer.{client_ip}
use dun_tunel.Sfu.InputBridge.Registry.{connect, shutdown}

-- A stand-in for base64: text that begins with `=` is malformed.
abbrev decode : Text → Option (List ℕ)
decode t = if text_eq t (text "=") then none else some t

abbrev entry : Text → Text → JwkEntry
entry kid x = record {
  kty = text "OKP";
  crv = some (text "Ed25519");
  kid = kid;
  alg = some (text "EdDSA");
  x = x;
}

abbrev key_bytes : Text
key_bytes = text "01234567890123456789012345678901"

-- Later fetches that fail, that find no key, and that find one.
fetched_keys :
    refreshes decode
      (λ raw. raw)
      ((text "a", key_bytes) ∷ [])
      (none
        ∷ some []
        ∷ some (entry (text "b") (text "short") ∷ [])
        ∷ some (entry (text "b") (text "=") ∷ [])
        ∷ [])
    ≡ (text "a", key_bytes) ∷ []
unfolding refreshes refresh fetch_jwks collect_keys text_eq insert
fetched_keys = refl

replaced_keys :
    refresh decode
      (λ raw. raw)
      ((text "a", key_bytes) ∷ [])
      (some (entry (text "b") key_bytes ∷ []))
    ≡ (text "b", key_bytes) ∷ []
unfolding refresh fetch_jwks collect_keys text_eq insert
replaced_keys = refl

forwarded_ip :
    client_ip (some (text " 1.2.3.4 , 10.0.0.1")) (text "127.0.0.1") ≡ some (text "1.2.3.4")
unfolding client_ip trim trim_start_by trim_end_by split_head is_whitespace
forwarded_ip = refl

peer_ip : client_ip (some (text " ")) (text "127.0.0.1") ≡ some (text "127.0.0.1")
unfolding client_ip trim trim_start_by trim_end_by split_head is_whitespace
peer_ip = refl

reopened :
    connect (text "s1") (some 4) (shutdown (text "s1") ((text "s1", 3) ∷ []))
    ≡ (some 4, (text "s1", 4) ∷ [])
unfolding connect shutdown lookup insert remove text_eq
reopened = refl
