-- ===== src/Control/Exposure.antt =====
-- What a session's subdomain exposes of edge-control.
use dun_tunel.Prelude.{ℕ, Bool, List, [], ◌∷◌, Option, none, some, Text, text, if◌then◌else◌}
use dun_tunel.Prelude.Results.{Result, ok, err}
use dun_tunel.Control.Router.{Endpoint, viewer_ws, Piece, name}

abbrev ws_pieces : List Piece
ws_pieces = name (text "viewer") ∷ name (text "ws") ∷ []

abbrev ws_or_none : Option (List Text) → Bool → Result ℕ Endpoint
ws_or_none none same = err 404
ws_or_none (some cs) same = if same then ok viewer_ws else err 405
