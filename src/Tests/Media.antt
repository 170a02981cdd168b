-- ===== src/Tests/Media.antt =====
-- The ports of the workers, and the proof of concept, at concrete inputs.
use dun_tunel.Prelude.{ℕ, ◌≡◌, ◌⊎◌, refl, List, [], ◌∷◌, ◌++◌, none, some, Text, text}
use dun_tunel.Prelude.Results.{ok, err}
use dun_tunel.Shared.Env.{Env}
use dun_tunel.Sfu.Transport.{Addresses, RouterListenInfo}
use dun_tunel.Poc.{AppState}
use dun_tunel.Poc.Viewer.{WebRtcTransport, Answers, produce_input, text_received}
use dun_tunel.Poc.Viewer.Run.{Event, frame, deliver, complete, observe, run, open_connection}
use dun_tunel.Poc.Viewer.Acks.{acks, acks_for, seen}
use dun_tunel.Poc.Viewer.Told.{told, StartsWithInit}
use dun_tunel.Poc.Viewer.First.{run-StartsWithInit}
use dun_tunel.Poc.Viewer.Acks.Order.{run-acks}

abbrev addresses : Addresses Text
addresses = record { parse = λ s. some s; to_string = λ ip. ip }

abbrev unset : Env
unset name = none

abbrev listen : RouterListenInfo Text
listen = record {
  listen_ip = text "0.0.0.0";
  announced_ip = text "127.0.0.1";
  lan_announced_ip = none;
  rtc_min_port = 50000;
  rtc_max_port = 60000;
  plain_rtp_min_port = 5000;
  plain_rtp_max_port = 9999;
}

abbrev app : AppState Text
app = record {
  listen = record {
    listen_ip = text "0.0.0.0";
    announced_ip = text "127.0.0.1";
    rtc_min_port = 40000;
    rtc_max_port = 40100;
    plain_rtp_port = 5004;
    plain_rtcp_port = 5005;
  };
  router = none;
  plain_producer = none;
  direct_transport = none;
}

abbrev transport : ℕ → WebRtcTransport Text
transport id = record {
  id = id;
  dtls_parameters = text "dtls";
  ice_candidates = text "candidates";
  ice_parameters = text "ice";
  sctp_parameters = none;
}

abbrev answers : Answers Text
answers = record {
  media = record {
    create_worker = ok tt;
    create_router = ok 1;
    create_direct_transport = ok 2;
    create_plain_transport = ok 3;
    produce = ok 4;
  };
  create_consumer_transport = ok (transport 5);
  create_input_transport = ok (transport 6);
  router_caps = text "caps";
  connect = ok tt;
  consume = err (text "no consumer");
  produce_data = ok 7;
  consume_data = ok 8;
}

-- The viewer opens, produces its input, and sends two messages; the first is acknowledged.
abbrev events : List (Event Text Text)
events =
    complete 0 answers
    ∷ deliver
    ∷ frame (text_received (some (produce_input (text "sctp") (text "neko-input") (text ""))))
    ∷ deliver
    ∷ deliver
    ∷ complete 0 answers
    ∷ observe 0 12
    ∷ observe 0 30
    ∷ deliver
    ∷ deliver
    ∷ deliver
    ∷ []

seen-events : seen events (open_connection app) ≡ (0, 12) ∷ (0, 30) ∷ []
unfolding seen
seen-events = refl

run-acks_example :
    acks (run events (open_connection app))
    ≡ acks (open_connection {V = Text} app) ++ acks_for (λ _. 0) (seen events (open_connection app))
run-acks_example = run-acks events (open_connection app)

run-StartsWithInit_example :
    (told (run events (open_connection {V = Text} app)) ≡ [])
    ⊎ StartsWithInit (told (run events (open_connection {V = Text} app)))
run-StartsWithInit_example = run-StartsWithInit events app
