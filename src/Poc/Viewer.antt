-- ===== src/Poc/Viewer.antt =====
-- The actor `ViewerConnection` of poc/neko-sfu/src/bin/sfu_main.rs: its state, its messages, and what it
-- does with each of them. A task that it spawns stands among its tasks until mediasoup has returned.
-- The DTLS, ICE, SCTP and RTP parameters of mediasoup have one type `V` here. Logging is left out.
pub mod Run
pub mod Acks
pub mod First
pub mod Told
use dun_tunel.Prelude.{
  ℕ, ◌+◌, ◌%◌, ◌^◌, Bool, true, false, List, [], ◌∷◌, ◌++◌, map, Option, none, some, Text, Assoc,
  lookup, insert, ◌==◌, if◌then◌else◌,
}
use dun_tunel.Prelude.Results.{Result, ok, err, ◌>>=◌}
use dun_tunel.Poc.{AppState, Mediasoup, ensure_router, ensure_direct_transport}

pub data MediaKind : Type 0 where
  audio video : MediaKind

pub record WebRtcTransport (V : Type 0) : Type 0 where
  pub id : ℕ
  pub dtls_parameters : V
  pub ice_candidates : V
  pub ice_parameters : V
  pub sctp_parameters : Option V

pub record Consumer (V : Type 0) : Type 0 where
  pub id : Text
  pub kind : MediaKind
  pub rtp_parameters : V

pub record TransportOptions (V : Type 0) : Type 0 where
  pub id : ℕ
  pub dtls_parameters : V
  pub ice_candidates : V
  pub ice_parameters : V

pub record Init (V : Type 0) : Type 0 where
  pub consumer_transport_options : TransportOptions V
  pub input_transport_options : TransportOptions V
  pub router_rtp_capabilities : V
  pub plain_producer_id : Option ℕ
  pub sctp_parameters : Option V
  pub input_sctp_parameters : Option V

pub data ServerMessage (V : Type 0) : Type 0 where
  init : Init V → ServerMessage V
  connected_consumer_transport : ServerMessage V
  connected_input_transport : ServerMessage V
  consumed : (id : Text) (producer_id : ℕ) → MediaKind → (rtp_parameters : V) → ServerMessage V
  input_ack : (sequence received_bytes : ℕ) → ServerMessage V

pub data ClientMessage (V : Type 0) : Type 0 where
  client_init : (rtp_capabilities : V) → ClientMessage V
  connect_consumer_transport : (dtls_parameters : V) → ClientMessage V
  connect_input_transport : (dtls_parameters : V) → ClientMessage V
  consume : (producer_id : ℕ) → ClientMessage V
  consumer_resume : (id : Text) → ClientMessage V
  produce_input : (sctp_stream_parameters : V) (label protocol : Text) → ClientMessage V

pub data InternalMessage (V : Type 0) : Type 0 where
  save_consumer : Consumer V → InternalMessage V
  save_input_producer : ℕ → InternalMessage V
  save_input_consumer : ℕ → InternalMessage V
  input_broadcast : (sequence bytes : ℕ) → InternalMessage V
  stop : InternalMessage V

pub record StoreTransportThenInit (V : Type 0) : Type 0 where
  pub consumer_transport : WebRtcTransport V
  pub input_transport : WebRtcTransport V
  pub router_caps : V
  pub plain_producer_id : Option ℕ
  pub sctp_parameters : Option V
  pub input_sctp_parameters : Option V

pub data Message (V : Type 0) : Type 0 where
  store : StoreTransportThenInit V → Message V
  client : ClientMessage V → Message V
  server : ServerMessage V → Message V
  internal : InternalMessage V → Message V

pub record ViewerConnection (V : Type 0) : Type 0 where
  pub client_caps : Option V
  pub consumer_transport : Option (WebRtcTransport V)
  pub input_transport : Option (WebRtcTransport V)
  pub consumers : Assoc (Consumer V)
  pub input_data_producer : Option ℕ
  pub input_data_consumer : Option ℕ
  pub input_messages_seen : ℕ
  pub input_bytes_seen : ℕ

abbrev pub new_connection : {V : Type 0} → ViewerConnection V
new_connection = record {
  client_caps = none;
  consumer_transport = none;
  input_transport = none;
  consumers = [];
  input_data_producer = none;
  input_data_consumer = none;
  input_messages_seen = 0;
  input_bytes_seen = 0;
}

-- A spawned task with what it holds. `saving` is the last part of `producing`, after the observer of
-- the messages is set.
pub data Task (V : Type 0) : Type 0 where
  opening : Task V
  connecting_consumer : WebRtcTransport V → (dtls_parameters : V) → Task V
  connecting_input : WebRtcTransport V → (dtls_parameters : V) → Task V
  consuming : WebRtcTransport V → (producer_id : ℕ) (caps : V) → Task V
  resuming : Consumer V → Task V
  producing : WebRtcTransport V → (sctp_stream_parameters : V) (label protocol : Text) → Task V
  saving : (producer consumer : ℕ) → Task V

-- What mediasoup returns to a task.
pub record Answers (V : Type 0) : Type 0 where
  pub media : Mediasoup
  pub create_consumer_transport : Result Text (WebRtcTransport V)
  pub create_input_transport : Result Text (WebRtcTransport V)
  pub router_caps : V
  pub connect : Result Text (Unit {0})
  pub consume : Result Text (Consumer V)
  pub produce_data : Result Text ℕ
  pub consume_data : Result Text ℕ

-- A frame that is written to the socket.
pub data Frame (V : Type 0) : Type 0 where
  pong : (payload : Text) → Frame V
  text_frame : ServerMessage V → Frame V
  close : (reason : Text) → Frame V

-- A frame that comes in. A text has been parsed; `other` is every other kind, and an error.
pub data WsMessage (V : Type 0) : Type 0 where
  ping : (payload : Text) → WsMessage V
  pong_received : WsMessage V
  text_received : Option (ClientMessage V) → WsMessage V
  close_received : (reason : Text) → WsMessage V
  other : WsMessage V

-- The connection with its mailbox. `counters` are those of the observers, of which there are
-- `observers`.
pub record Connection (V IpAddr : Type 0) : Type 0 where
  pub app : AppState IpAddr
  pub actor : ViewerConnection V
  pub mailbox : List (Message V)
  pub written : List (Frame V)
  pub tasks : List (Task V)
  pub running : Bool
  pub observers : ℕ
  pub counters : ℕ → ℕ

abbrev pub options_of : {V : Type 0} → WebRtcTransport V → TransportOptions V
options_of t = record {
  id = t.id;
  dtls_parameters = t.dtls_parameters;
  ice_candidates = t.ice_candidates;
  ice_parameters = t.ice_parameters;
}

abbrev pub init_of : {V : Type 0} → StoreTransportThenInit V → Init V
init_of m = record {
  consumer_transport_options = options_of m.consumer_transport;
  input_transport_options = options_of m.input_transport;
  router_rtp_capabilities = m.router_caps;
  plain_producer_id = m.plain_producer_id;
  sctp_parameters = m.sctp_parameters;
  input_sctp_parameters = m.input_sctp_parameters;
}

abbrev pub bump : ℕ → (ℕ → ℕ) → ℕ → ℕ
bump i counters j = if i == j then (counters j + 1) % 2 ^ 64 else counters j

module _ {V IpAddr : Type 0} where
  abbrev pub do_send : Message V → Connection V IpAddr → Connection V IpAddr
  do_send m s = record s { mailbox = s.mailbox ++ m ∷ [] }

  abbrev pub spawn : Task V → Connection V IpAddr → Connection V IpAddr
  spawn t s = record s { tasks = s.tasks ++ t ∷ [] }

  abbrev pub write : Frame V → Connection V IpAddr → Connection V IpAddr
  write f s = record s { written = s.written ++ f ∷ [] }

  abbrev pub stop_actor : Connection V IpAddr → Connection V IpAddr
  stop_actor s = record s { running = false }

  abbrev pub update : ViewerConnection V → Connection V IpAddr → Connection V IpAddr
  update actor s = record s { actor = actor }

  unfoldable pub handle_store : StoreTransportThenInit V → Connection V IpAddr → Connection V IpAddr
  handle_store m s = do_send (server (init (init_of m))) (
      update
        (record s.actor {
          consumer_transport = some m.consumer_transport;
          input_transport = some m.input_transport;
        })
        s)

  -- Where there is none, the handler returns.
  abbrev pub let_some :
      {A : Type 0}
      → Option A
      → (A → Connection V IpAddr → Connection V IpAddr)
      → Connection V IpAddr
      → Connection V IpAddr
  let_some none f s = s
  let_some (some a) f s = f a s

  unfoldable pub handle_client : ClientMessage V → Connection V IpAddr → Connection V IpAddr
  handle_client (client_init caps) s = update (record s.actor { client_caps = some caps }) s
  handle_client (connect_consumer_transport dtls) s =
      let_some s.actor.consumer_transport (λ t. spawn (connecting_consumer t dtls)) s
  handle_client (connect_input_transport dtls) s =
      let_some s.actor.input_transport (λ t. spawn (connecting_input t dtls)) s
  handle_client (consume producer_id) s =
      let_some s.actor.consumer_transport
        (λ t. let_some s.actor.client_caps (λ caps. spawn (consuming t producer_id caps))) s
  handle_client (consumer_resume id) s =
      let_some (lookup id s.actor.consumers) (λ c. spawn (resuming c)) s
  handle_client (produce_input sctp label protocol) s =
      let_some s.actor.input_transport (λ t. spawn (producing t sctp label protocol)) s

  unfoldable pub handle_internal : InternalMessage V → Connection V IpAddr → Connection V IpAddr
  handle_internal stop s = stop_actor s
  handle_internal (save_consumer c) s =
      update (record s.actor { consumers = insert c.id c s.actor.consumers }) s
  handle_internal (save_input_producer p) s =
      update (record s.actor { input_data_producer = some p }) s
  handle_internal (save_input_consumer c) s =
      update (record s.actor { input_data_consumer = some c }) s
  handle_internal (input_broadcast sequence bytes) s = do_send (server (input_ack sequence bytes)) (
      update
        (record s.actor {
          input_messages_seen = sequence;
          input_bytes_seen = (s.actor.input_bytes_seen + bytes) % 2 ^ 64;
        })
        s)

  unfoldable pub handle : Message V → Connection V IpAddr → Connection V IpAddr
  unfolding handle_store handle_client handle_internal
  handle (store m) s = handle_store m s
  handle (client m) s = handle_client m s
  handle (server m) s = write (text_frame m) s
  handle (internal m) s = handle_internal m s

  abbrev pub handle_text : Option (ClientMessage V) → Connection V IpAddr → Connection V IpAddr
  handle_text none s = s
  handle_text (some m) s = do_send (client m) s

  unfoldable pub handle_frame : WsMessage V → Connection V IpAddr → Connection V IpAddr
  handle_frame (ping payload) s = write (pong payload) s
  handle_frame pong_received s = s
  handle_frame (text_received m) s = handle_text m s
  handle_frame (close_received reason) s = stop_actor (write (close reason) s)
  handle_frame other s = stop_actor s
