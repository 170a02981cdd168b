-- ===== src/Control/Signalling/Session.antt =====
-- `ws_handler` after the upgrade, and `run_session`, of crates/edge-control/src/routes/sfu_ws.rs.
use dun_tunel.Prelude.{
  ℕ, Bool, true, false, List, [], ◌∷◌, ◌++◌, Option, none, some, Text, if◌then◌else◌,
}
use dun_tunel.Prelude.Results.{Result, ok, err}
use dun_tunel.Sfu.Sessions.{
  RouterManager, SfuError, ConsumerTransportInfo, create_consumer_transports, session_producer_info,
  remove_viewer,
}
use dun_tunel.Control.Signalling.Protocol.{
  EdgeCallbackEvent, viewer_connected, viewer_disconnected, init_payload, build_init_payload,
  close_of,
}
use dun_tunel.Control.Signalling.Connection.{
  Event, Connection, Turn, goes_on, ends, fails, write, run_loop,
}

-- What the world does when a viewer joins: the transports from mediasoup, and what happens elsewhere
-- before the session's producers are read.
pub record Joining : Type 0 where
  pub recv : Option ℕ
  pub send : Option ℕ
  pub sctp : Option Text
  pub meanwhile : RouterManager → RouterManager
  pub taken : Bool
  pub ip : Option Text
  pub user_agent : Option Text

-- How `run_session` ends, with the callbacks that it has sent: `Ok(true)`, `Ok(false)` or an error.
pub data Ending : Type 0 where
  served : Ending
  refused : Ending
  failed : Ending

pub record Ended (Caps : Type 0) : Type 0 where
  pub ending : Ending
  pub connection : Connection Caps
  pub callbacks : List EdgeCallbackEvent

abbrev pub ending_of : Bool → Ending
ending_of true = served
ending_of false = failed

abbrev pub farewell : Text → Text → Ending → List EdgeCallbackEvent
farewell session_id viewer_id served = viewer_disconnected session_id (some viewer_id) ∷ []
farewell session_id viewer_id refused = []
farewell session_id viewer_id failed = []

module _ {Caps : Type 0} (session_id viewer_id : Text) where
  abbrev pub after_init : List (Event Caps) → EdgeCallbackEvent → Turn Caps → Ended Caps
  after_init events event (goes_on c) =
      let (fine, d) = run_loop session_id viewer_id events c in
      record { ending = ending_of fine; connection = d; callbacks = event ∷ [] }
  after_init events event (ends c) = record {
    ending = served;
    connection = c;
    callbacks = event ∷ [];
  }
  after_init events event (fails c) = record {
    ending = failed;
    connection = c;
    callbacks = event ∷ [];
  }

  -- With the slot of the viewer: by the producers of the session, where it still has them.
  abbrev pub welcome :
      Joining
      → List (Event Caps)
      → ConsumerTransportInfo × ConsumerTransportInfo
      → RouterManager
      → Result SfuError (ℕ × Option ℕ)
      → Ended Caps
  welcome j events infos m (err e) = record {
    ending = failed;
    connection = record { sfu = m; client_caps = none; written = [] };
    callbacks = viewer_connected session_id (some viewer_id) j.ip j.user_agent ∷ [];
  }
  welcome j events infos m (ok producers) =
      after_init events (viewer_connected session_id (some viewer_id) j.ip j.user_agent) (
        write session_id viewer_id j.taken
          (some (init_payload (build_init_payload infos j.sctp producers)))
          (record { sfu = m; client_caps = none; written = [] }))

  abbrev pub refusal : Bool → SfuError → RouterManager → Ended Caps
  refusal taken e m = record {
    ending = refused;
    connection = record {
      sfu = m;
      client_caps = none;
      written = if taken then close_of e ∷ [] else [];
    };
    callbacks = [];
  }

  -- By the transports of the viewer.
  abbrev pub joined :
      Joining
      → List (Event Caps)
      → Result SfuError (ConsumerTransportInfo × ConsumerTransportInfo) × RouterManager
      → Ended Caps
  joined j events (err e, m) = refusal j.taken e m
  joined j events (ok infos, m) =
      let m' = j.meanwhile m in welcome j events infos m' (session_producer_info session_id m')

  unfoldable pub run_session : Joining → List (Event Caps) → RouterManager → Ended Caps
  unfolding create_consumer_transports session_producer_info run_loop
  run_session j events m =
      joined j events (create_consumer_transports j.recv j.send session_id viewer_id m)

  -- What becomes of an upgraded connection: the sessions after it, and the callbacks in their order.
  unfoldable pub serve :
      Joining
      → List (Event Caps)
      → (RouterManager → RouterManager)
      → RouterManager
      → RouterManager × List EdgeCallbackEvent
  unfolding run_session remove_viewer
  serve j events at_last m =
      let r = run_session j events m in
      (
        remove_viewer session_id viewer_id (at_last r.connection.sfu),
        r.callbacks ++ farewell session_id viewer_id r.ending,
      )
