-- ===== src/Tests/Signalling.antt =====
-- A viewer's connection at concrete frames.
use dun_tunel.Prelude.{
  ℕ, ◌≡◌, refl, Bool, true, false, List, [], ◌∷◌, Option, none, some, Text, text, text_eq, lookup,
  min,
}
use dun_tunel.Sfu.Sessions.Calls.Kept.{consumers_of}
use dun_tunel.Sfu.Sessions.{
  RouterManager, SessionState, ViewerSlot, new_slot, create_consumer_transports,
}
use dun_tunel.Sfu.Sessions.Calls.{InputMedia, Stats}
use dun_tunel.Control.Signalling.Protocol.{
  Frame, text_frame, close, init, consume, connect_consumer_transport,
}
use dun_tunel.Control.Signalling.Connection.{Event, Connection, run_loop}
use dun_tunel.Control.Signalling.Session.{Joining, run_session, serve}
use dun_tunel.Control.Signalling.Lifetime.{callbacks_of, serve-callbacks, serve-leaves}
use dun_tunel.Control.Signalling.Replies.{NotConsumed, run_loop-NotConsumed}

abbrev slot : ViewerSlot
slot = new_slot (text "v1") 20 21

abbrev session : SessionState
session = record {
  session_id = text "s1";
  router = 7;
  plain_producer = some 9;
  plain_audio_producer = some 10;
  plain_transport = none;
  viewers = (text "v1", slot) ∷ [];
  direct_transport = none;
  input_bridge = none;
  webrtc_server = 0;
}

abbrev manager : RouterManager
manager = record { workers = 2; worker_cursor = 0; sessions = (text "s1", session) ∷ [] }

abbrev nothing_made : InputMedia
nothing_made = record { producer = none; direct_transport = none; bridge = none; consumer = none }

abbrev event : Frame ℕ → Event ℕ
event frame = record {
  elsewhere = λ m. m;
  frame = frame;
  works = true;
  consumer = λ caps. some 30;
  meanwhile = λ m. m;
  input = nothing_made;
  taken = true;
}

abbrev joining : Joining
joining = record {
  recv = some 22;
  send = some 23;
  sctp = some (text "sctp");
  meanwhile = λ m. m;
  taken = true;
  ip = some (text "1.2.3.4");
  user_agent = none;
}

abbrev frames : List (Event ℕ)
frames =
    event (text_frame (some connect_consumer_transport))
    ∷ event (text_frame (some (init 1)))
    ∷ event (text_frame (some (consume 9)))
    ∷ event close
    ∷ []

serve-callbacks_example :
    (serve (text "s1") (text "v2") joining frames (λ m. m) manager).1
    ≡ callbacks_of
        (text "s1")
        (text "v2")
        joining
        (run_session (text "s1") (text "v2") joining frames manager).ending
serve-callbacks_example = serve-callbacks (text "s1") (text "v2") joining frames (λ m. m) manager

abbrev eager : List (Event ℕ)
eager = event (text_frame (some (consume 9))) ∷ event close ∷ []

abbrev connection : Connection ℕ
connection = record { sfu = manager; client_caps = none; written = [] }

run_loop-NotConsumed_example :
    NotConsumed (run_loop (text "s1") (text "v1") eager connection).1.written
    × (consumers_of
          (text "s1")
          (text "v1")
          (run_loop (text "s1") (text "v1") eager connection).1.sfu
        ≡ consumers_of (text "s1") (text "v1") connection.sfu)
run_loop-NotConsumed_example =
    run_loop-NotConsumed (text "s1") (text "v1") eager connection (refl, (refl, tt)) refl tt
      ((λ m h. h), ((λ m h. h), tt))

-- The session is left with the viewer who was in it before.
serve-leaves_example : lookup (text "v2") session.viewers ≡ none
unfolding serve lookup text_eq dun_tunel.Sfu.Sessions.add_viewer dun_tunel.Prelude.insert
    dun_tunel.Prelude.remove
serve-leaves_example =
    serve-leaves {Caps = ℕ} (text "s1") (text "v2") joining frames (λ m. m) manager session refl

abbrev stats : ℕ → Stats
stats t = (100, 7) ∷ []
