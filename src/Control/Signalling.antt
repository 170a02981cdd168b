-- ===== src/Control/Signalling.antt =====
-- The guard of the signalling WebSocket, `authorize_viewer` of
-- crates/edge-control/src/routes/sfu_ws.rs.
pub mod Guard
pub mod Protocol
pub mod Connection
pub mod Session
pub mod Lifetime
pub mod Replies
pub mod Peer
use dun_tunel.Prelude.{ℕ, List, [], ◌∷◌, Option, none, some, Text, text_eq, if◌then◌else◌}
use dun_tunel.Prelude.Results.{Result, ok, err}

abbrev pub unauthorized : ℕ
unauthorized = 401

abbrev pub forbidden : ℕ
forbidden = 403

unfoldable pub authorize_viewer : Option Text → Text → Result ℕ (Unit {0})
authorize_viewer none requested = err unauthorized
authorize_viewer (some []) requested = err unauthorized
authorize_viewer (some (c ∷ s)) requested =
    if text_eq (c ∷ s) requested then ok tt else err forbidden
