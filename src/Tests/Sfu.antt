-- ===== src/Tests/Sfu.antt =====
-- Input, sessions and the source monitor at concrete inputs.
use dun_tunel.Prelude.{
  ℕ, ◌≤◌, ◌<◌, ◌≡◌, ◌⊎◌, refl, Bool, true, false, List, [], ◌∷◌, none, some, text, arith, text_eq,
  lookup, insert,
}
use dun_tunel.Prelude.Results.{ok, err}
use dun_tunel.Sfu.RateLimiter.Windows.{count, within, offers, opening, InOrder, admitted-within-le}
use dun_tunel.Sfu.InputBridge.{key_down, connected}
use dun_tunel.Sfu.InputBridge.Claims.{Input, forward_all, control_requests, forward_all-claims_once}
use dun_tunel.Sfu.Sessions.{
  RouterManager, SessionState, ViewerSlot, new_slot, Pipeline, ProvisionedRouter, provision_session,
  create_consumer_transports, viewer_count, new_with_listen, session_producer_info, panics,
  plain_producer_absent, add_viewer, media_failed, build_session, pick_worker_index, install,
}
use dun_tunel.Sfu.Sessions.Source.{Recreation, reprovision_plain_producer, recreated, first_attempt}
use dun_tunel.Sfu.Sessions.Monitor.{
  ProducerSample, producer_sample, Visit, Monitor, visit, visit_all,
}
use dun_tunel.Sfu.Sessions.Monitor.Starvation.{IsSilent, visit-touches_starved}
use dun_tunel.Sfu.Sessions.Monitor.Lost.{reprovision-never_retried}
use dun_tunel.Sfu.Sessions.Viewers.{
  Operation, provisions, joins, leaves, perform_all, viewer_count-capped,
}
use dun_tunel.Sfu.Sessions.Input.{produce_begin, produce_finish, returns}
use dun_tunel.Sfu.Sessions.Input.Race.{part, parts, prepares, finishes, departs, produce-first_wins}

abbrev times : List ℕ
times = 10 ∷ 20 ∷ 30 ∷ []

times-InOrder : InOrder 0 times 40
times-InOrder = (omega arith, (omega arith, (omega arith, omega arith)))

admitted-within-le_example : count (within 10) (offers opening times).admitted ≤ 60
admitted-within-le_example = admitted-within-le times 40 10 times-InOrder

abbrev press : Bool → Input
press claim_works = record {
  now = 5;
  claim_works = claim_works;
  event_works = true;
  envelope = key_down 65307 1;
}

forward_all-claims_once_example :
    control_requests (forward_all (press true ∷ press true ∷ press false ∷ []) connected).sent ≡ 1
forward_all-claims_once_example =
    forward_all-claims_once (press true) (press true ∷ press false ∷ [])

abbrev pipeline : Pipeline
pipeline = record {
  router = some 7;
  plain_transport = some (record { id = 8; local_port = 40001; rtcp_port = none });
  producer = some 9;
  audio_producer = some 10;
}

abbrev empty : RouterManager
empty = record { workers = 2; worker_cursor = 0; sessions = [] }

abbrev provisioned : ProvisionedRouter
provisioned = record {
  router_id = 7;
  plain_rtp_port = 40001;
  plain_rtcp_port = 40001;
  producer_id = 9;
  audio_producer_id = some 10;
}

abbrev started : RouterManager
started = (provision_session pipeline (text "s1") empty).1

provisioned-ok : (provision_session pipeline (text "s1") empty).0 ≡ ok provisioned
unfolding provision_session lookup build_session pick_worker_index install
provisioned-ok = refl

abbrev joined : RouterManager
joined = (create_consumer_transports (some 20) (some 21) (text "s1") (text "v1") started).1

joined-ok :
    (create_consumer_transports (some 20) (some 21) (text "s1") (text "v1") started).0
    ≡ ok (
      record { viewer_id = text "v1"; transport_id = 20 },
      record { viewer_id = text "v1"; transport_id = 21 },
    )
unfolding create_consumer_transports add_viewer provision_session lookup insert text_eq
    build_session pick_worker_index install
joined-ok = refl

new_with_listen-two : new_with_listen 2 ≡ some empty
unfolding new_with_listen
new_with_listen-two = refl

abbrev operations : List Operation
operations =
    provisions pipeline (text "s1")
    ∷ joins (some 20) (some 21) (text "s1") (text "v1")
    ∷ leaves (text "s1") (text "v1")
    ∷ []

viewer_count-capped_example : viewer_count (text "s1") (perform_all operations empty) ≤ 30
viewer_count-capped_example = viewer_count-capped 2 empty operations (text "s1") new_with_listen-two

abbrev session : SessionState
session = record {
  session_id = text "s1";
  router = 7;
  plain_producer = some 9;
  plain_audio_producer = some 10;
  plain_transport = some (record { id = 8; local_port = 40001; rtcp_port = none });
  viewers = [];
  direct_transport = none;
  input_bridge = none;
  webrtc_server = 0;
}

abbrev one_session : RouterManager
one_session = record { workers = 2; worker_cursor = 1; sessions = (text "s1", session) ∷ [] }

lookup-one_session : lookup (text "s1") one_session.sessions ≡ some session
unfolding lookup text_eq
lookup-one_session = refl

abbrev failing : Recreation
failing = record { attempts = none ∷ none ∷ []; producer = some 30; audio_producer = some 31 }

abbrev silent : Visit
silent = record { now = 99; stats = some []; recreation = failing; finished = 100 }

abbrev watching : Monitor
watching = record { manager = one_session; activity = [] }

visit-touches_starved_example :
    ((visit silent (text "s1") watching).manager ≡ one_session)
    ⊎ ((0 < viewer_count (text "s1") one_session)
        × (sample : ProducerSample) × (producer_sample (some []) (text "s1") one_session
            ≡ some sample)
        × IsSilent [] (text "s1") 99 sample.byte_count)
visit-touches_starved_example = visit-touches_starved silent (text "s1") watching

failing-fails : (reprovision_plain_producer failing (text "s1") one_session).0 ≡ err media_failed
unfolding reprovision_plain_producer lookup text_eq recreated first_attempt
failing-fails = refl

reprovision-never_retried_example :
    let lost = record watching {
      manager = (reprovision_plain_producer failing (text "s1") one_session).1;
    } in
    let later = (visit_all (λ sid. silent) (text "s1" ∷ text "s1" ∷ []) lost).manager in
    (session_producer_info (text "s1") later ≡ err plain_producer_absent)
    × (provision_session pipeline (text "s1") later ≡ (err panics, later))
reprovision-never_retried_example =
    reprovision-never_retried failing (text "s1") watching session media_failed lookup-one_session
      failing-fails (λ sid. silent) (text "s1" ∷ text "s1" ∷ []) pipeline

abbrev slot : ViewerSlot
slot = new_slot (text "v1") 20 21

abbrev watched : SessionState
watched = record session { viewers = (text "v1", slot) ∷ [] }

-- Two calls for one viewer overlap: the second creates its producer 51 before the first has stored 50.
produce-first_wins_example :
    let later =
      parts
        (prepares (some 40) none ∷ departs (text "v2") ∷ [])
        (part (finishes 50 60 (text "v1")) watched) in
    (produce_finish 51 61 (text "v1") later ≡ ok (50, later))
    × (produce_begin (text "v1") later ≡ ok (returns 50))
produce-first_wins_example =
    produce-first_wins (text "v1") 50 60 watched slot
      (prepares (some 40) none ∷ departs (text "v2") ∷ []) 51 61 (unfold lookup text_eq in refl)
      refl (tt, (unfold text_eq in refl, tt))
