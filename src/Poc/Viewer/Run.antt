-- ===== src/Poc/Viewer/Run.antt =====
-- What the tasks of a `ViewerConnection` of poc/neko-sfu/src/bin/sfu_main.rs do when mediasoup has
-- returned, and the connection as a sequence of events: one message of the mailbox, one frame or one
-- task at a time.
use dun_tunel.Prelude.{
  ℕ, zero, suc, Bool, true, false, List, [], ◌∷◌, Option, none, some, Text, get_elem?, ltb,
  if◌then◌else◌,
}
use dun_tunel.Prelude.Results.{Result, ok, err, ◌>>=◌}
use dun_tunel.Poc.{AppState, PlainProducerHandle, ensure_router, ensure_direct_transport}
use dun_tunel.Poc.Viewer.{
  WebRtcTransport, Consumer, connected_consumer_transport, connected_input_transport, consumed,
  save_consumer, save_input_producer, save_input_consumer, input_broadcast, stop,
  StoreTransportThenInit, Message, store, server, internal, Task, opening, connecting_consumer,
  connecting_input, consuming, resuming, producing, saving, Answers, WsMessage, Connection,
  new_connection, bump, do_send, spawn, handle, handle_frame,
}

-- `produce_data`, `ensure_direct_transport` and `consume_data`, in this order.
abbrev observe_input : Result Text ℕ → Result Text ℕ → Result Text ℕ → Result Text (ℕ × ℕ)
observe_input produced direct consumed_data = do
  producer ← produced
  _ ← direct
  consumer ← consumed_data
  ok (producer, consumer)

abbrev pub remove_at : {A : Type 0} → ℕ → List A → List A
remove_at i [] = []
remove_at zero (x ∷ xs) = xs
remove_at (suc i) (x ∷ xs) = x ∷ remove_at i xs

abbrev pub reached : Result Text ℕ → Bool
reached (ok p) = true
reached (err e) = false

abbrev transports :
    {V : Type 0} → Answers V → Result Text ℕ → Result Text (WebRtcTransport V × WebRtcTransport V)
transports a router = do
  _ ← router
  consumer_transport ← a.create_consumer_transport
  input_transport ← a.create_input_transport
  ok (consumer_transport, input_transport)

abbrev producer_of : Option PlainProducerHandle → Option ℕ
producer_of none = none
producer_of (some h) = some h.producer

abbrev store_of :
    {V : Type 0}
    → Option PlainProducerHandle
    → V
    → WebRtcTransport V × WebRtcTransport V
    → StoreTransportThenInit V
store_of producer caps (consumer_transport, input_transport) = record {
  consumer_transport = consumer_transport;
  input_transport = input_transport;
  router_caps = caps;
  plain_producer_id = producer_of producer;
  sctp_parameters = consumer_transport.sctp_parameters;
  input_sctp_parameters = input_transport.sctp_parameters;
}

-- What happens next to a connection: a frame comes in, the actor takes the first message of its
-- mailbox, a task ends, a message of so many bytes reaches an observer, or the rest of the process
-- changes what it shares.
pub data Event (V IpAddr : Type 0) : Type 0 where
  frame : WsMessage V → Event V IpAddr
  deliver : Event V IpAddr
  complete : ℕ → Answers V → Event V IpAddr
  observe : (observer bytes : ℕ) → Event V IpAddr
  elsewhere : AppState IpAddr → Event V IpAddr

module _ {V IpAddr : Type 0} where
  -- A message for a result, and `Stop` for an error.
  abbrev pub send_or_stop :
      {A : Type 0} → (A → Message V) → Result Text A → Connection V IpAddr → Connection V IpAddr
  send_or_stop message (ok a) s = do_send (message a) s
  send_or_stop message (err e) s = do_send (internal stop) s

  unfoldable pub finish_opening : Answers V → Connection V IpAddr → Connection V IpAddr
  unfolding ensure_router
  finish_opening a s =
      let (router, app) = ensure_router a.media s.app in
      send_or_stop (λ t. store (store_of app.plain_producer a.router_caps t)) (transports a router)
        (record s { app = app })

  unfoldable pub finish_consuming :
      ℕ → Result Text (Consumer V) → Connection V IpAddr → Connection V IpAddr
  finish_consuming producer_id (ok c) s =
      do_send (internal (save_consumer c))
        (do_send (server (consumed c.id producer_id c.kind c.rtp_parameters)) s)
  finish_consuming producer_id (err e) s = do_send (internal stop) s

  -- A new observer, whose counter is 0.
  abbrev pub observed : Result Text (ℕ × ℕ) → Connection V IpAddr → Connection V IpAddr
  observed (ok (producer, consumer)) s =
      spawn (saving producer consumer) (record s { observers = suc s.observers })
  observed (err e) s = s

  unfoldable pub finish_producing : Answers V → Connection V IpAddr → Connection V IpAddr
  unfolding ensure_direct_transport
  finish_producing a s =
      if reached a.produce_data
      then (let (direct, app) = ensure_direct_transport a.media s.app in
          observed (observe_input a.produce_data direct a.consume_data) (record s { app = app }))
      else s

  unfoldable pub finish : Task V → Answers V → Connection V IpAddr → Connection V IpAddr
  unfolding finish_opening finish_consuming finish_producing
  finish opening a s = finish_opening a s
  finish (connecting_consumer t dtls) a s =
      send_or_stop (λ _. server connected_consumer_transport) a.connect s
  finish (connecting_input t dtls) a s =
      send_or_stop (λ _. server connected_input_transport) a.connect s
  finish (consuming t producer_id caps) a s = finish_consuming producer_id a.consume s
  finish (resuming c) a s = s
  finish (producing t sctp label protocol) a s = finish_producing a s
  finish (saving producer consumer) a s =
      do_send (internal (save_input_consumer consumer))
        (do_send (internal (save_input_producer producer)) s)

  abbrev pub finish_task :
      Option (Task V) → ℕ → Answers V → Connection V IpAddr → Connection V IpAddr
  finish_task none i a s = s
  finish_task (some t) i a s = finish t a (record s { tasks = remove_at i s.tasks })

  abbrev pub take_message : List (Message V) → Connection V IpAddr → Connection V IpAddr
  take_message [] s = s
  take_message (m ∷ ms) s = handle m (record s { mailbox = ms })

  -- The observer counts and sends while it holds its lock.
  unfoldable pub on_message : ℕ → ℕ → Connection V IpAddr → Connection V IpAddr
  on_message i bytes s =
      let counters = bump i s.counters in
      do_send (internal (input_broadcast (counters i) bytes)) (record s { counters = counters })

  unfoldable pub act : Event V IpAddr → Connection V IpAddr → Connection V IpAddr
  unfolding handle handle_frame finish on_message
  act (frame m) s = handle_frame m s
  act deliver s = take_message s.mailbox s
  act (complete i a) s = finish_task (get_elem? s.tasks i) i a s
  act (observe i bytes) s = if ltb i s.observers then on_message i bytes s else s
  act (elsewhere app) s = record s { app = app }

  -- A stopped actor does nothing more, and what is sent to it is lost.
  unfoldable pub step : Event V IpAddr → Connection V IpAddr → Connection V IpAddr
  unfolding act
  step e s = if s.running then act e s else s

  unfoldable pub run : List (Event V IpAddr) → Connection V IpAddr → Connection V IpAddr
  unfolding step
  run [] s = s
  run (e ∷ es) s = run es (step e s)

  -- `started`.
  abbrev pub open_connection : AppState IpAddr → Connection V IpAddr
  open_connection app = record {
    app = app;
    actor = new_connection;
    mailbox = [];
    written = [];
    tasks = opening ∷ [];
    running = true;
    observers = 0;
    counters = λ _. 0;
  }
