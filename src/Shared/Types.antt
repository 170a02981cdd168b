-- ===== src/Shared/Types.antt =====
-- The records of crates/edge-shared/src/types.rs that more than one crate uses.
use dun_tunel.Prelude.{Text, List}

pub record CaddyRoute : Type 0 where
  pub host : Text
  pub upstream : Text
  pub ws_paths : List Text
