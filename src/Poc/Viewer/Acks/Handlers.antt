-- ===== src/Poc/Viewer/Acks/Handlers.antt =====
-- What the handlers and the tasks of a viewer do to the acknowledgements.
use mathlib.Core.List.{append_assoc, append-nil}
use dun_tunel.Prelude.{
  ℕ, ◌≡◌, refl, ◌∙◌, inl, inr, Bool-cases, List, [], ◌∷◌, Option, none, some, Text, lookup,
}
use dun_tunel.Prelude.Results.{Result, ok, err}
use dun_tunel.Poc.{AppState, ensure_router, ensure_direct_transport}
use dun_tunel.Poc.Viewer.{
  init, consumed, input_ack, ClientMessage, client_init, connect_consumer_transport,
  connect_input_transport, consume, consumer_resume, produce_input, InternalMessage, save_consumer,
  save_input_producer, save_input_consumer, input_broadcast, stop, Message, store, client, server,
  internal, pong, text_frame, close, WsMessage, ping, pong_received, text_received, close_received,
  other, Task, opening, connecting_consumer, connecting_input, consuming, resuming, producing,
  saving, Answers, Consumer, Connection, do_send, handle, handle_client, handle_frame,
  handle_internal, handle_store, init_of, let_some,
}
use dun_tunel.Poc.Viewer.Run.{
  send_or_stop, finish_opening, finish_consuming, finish_producing, observed, reached, finish,
  finish_task, take_message, remove_at,
}
use dun_tunel.Poc.Viewer.Acks.{
  gather, ack_of, message_acks, broadcasts, acks, do_send-acks, do_send-quiet, written-acks,
}

module _ {V IpAddr : Type 0} where
  abbrev pub Keeps : Connection V IpAddr → Connection V IpAddr → Type 0
  Keeps s t = (acks t ≡ acks s) × (t.counters ≡ s.counters)

  pub let_some-Keeps :
      {A : Type 0} (o : Option A) (f : A → Connection V IpAddr → Connection V IpAddr)
      (s : Connection V IpAddr)
      → ((a : A) → Keeps s (f a s))
      → Keeps s (let_some o f s)
  let_some-Keeps none f s h = (refl, refl)
  let_some-Keeps (some a) f s h = h a

  pub handle_client-Keeps :
      (m : ClientMessage V) (s : Connection V IpAddr) → Keeps s (handle_client m s)
  unfolding handle_client acks
  handle_client-Keeps (client_init caps) s = (refl, refl)
  handle_client-Keeps (connect_consumer_transport dtls) s =
      let_some-Keeps s.actor.consumer_transport _ s (λ t. (refl, refl))
  handle_client-Keeps (connect_input_transport dtls) s =
      let_some-Keeps s.actor.input_transport _ s (λ t. (refl, refl))
  handle_client-Keeps (consume producer_id) s =
      let_some-Keeps s.actor.consumer_transport _ s
        (λ t. let_some-Keeps s.actor.client_caps _ s (λ caps. (refl, refl)))
  handle_client-Keeps (consumer_resume id) s =
      let_some-Keeps (lookup id s.actor.consumers) _ s (λ c. (refl, refl))
  handle_client-Keeps (produce_input sctp label protocol) s =
      let_some-Keeps s.actor.input_transport _ s (λ t. (refl, refl))

  pub handle_internal-Keeps :
      (m : InternalMessage V) (ms : List (Message V)) (s : Connection V IpAddr)
      → s.mailbox ≡ internal m ∷ ms
      → Keeps s (handle_internal m (record s { mailbox = ms }))
  unfolding handle_internal acks gather
  handle_internal-Keeps stop ms s h = (rw h refl, refl)
  handle_internal-Keeps (save_consumer c) ms s h = (rw h refl, refl)
  handle_internal-Keeps (save_input_producer p) ms s h = (rw h refl, refl)
  handle_internal-Keeps (save_input_consumer c) ms s h = (rw h refl, refl)
  handle_internal-Keeps (input_broadcast sequence bytes) ms s h = (
    do_send-acks (server (input_ack sequence bytes)) (record s { mailbox = ms })
        ∙ rw
            (
              h,
              append-nil (gather broadcasts ms),
              append_assoc (gather message_acks ms) ((sequence, bytes) ∷ []) (gather broadcasts ms),
            )
            refl,
    refl,
  )

  pub handle-Keeps :
      (m : Message V) (ms : List (Message V)) (s : Connection V IpAddr)
      → s.mailbox ≡ m ∷ ms
      → Keeps s (handle m (record s { mailbox = ms }))
  unfolding handle handle_store acks gather
  handle-Keeps (store m) ms s h = (
    do_send-quiet (server (init (init_of m))) (record s { mailbox = ms }) refl refl ∙ rw h refl,
    refl,
  )
  handle-Keeps (client m) ms s h =
      let (a, c) = handle_client-Keeps m (record s { mailbox = ms }) in (a ∙ rw h refl, c)
  handle-Keeps (server m) ms s h = (
    written-acks (text_frame m) (record s { mailbox = ms })
        ∙ rw (h, append_assoc (ack_of m) (gather message_acks ms) (gather broadcasts ms)) refl,
    refl,
  )
  handle-Keeps (internal m) ms s h = handle_internal-Keeps m ms s h

  pub take_message-Keeps :
      (mailbox : List (Message V)) (s : Connection V IpAddr)
      → s.mailbox ≡ mailbox
      → Keeps s (take_message mailbox s)
  take_message-Keeps [] s h = (refl, refl)
  take_message-Keeps (m ∷ ms) s h = handle-Keeps m ms s h

  pub handle_frame-Keeps : (m : WsMessage V) (s : Connection V IpAddr) → Keeps s (handle_frame m s)
  unfolding handle_frame acks
  handle_frame-Keeps (ping payload) s = (written-acks (pong payload) s, refl)
  handle_frame-Keeps pong_received s = (refl, refl)
  handle_frame-Keeps (text_received none) s = (refl, refl)
  handle_frame-Keeps (text_received (some m)) s = (do_send-quiet (client m) s refl refl, refl)
  handle_frame-Keeps (close_received reason) s = (written-acks (close reason) s, refl)
  handle_frame-Keeps other s = (refl, refl)

  pub send_or_stop-Keeps :
      {A : Type 0} (message : A → Message V) (r : Result Text A) (s : Connection V IpAddr)
      → ((a : A) → message_acks (message a) ≡ [])
      → ((a : A) → broadcasts (message a) ≡ [])
      → Keeps s (send_or_stop message r s)
  send_or_stop-Keeps message (ok a) s h g = (do_send-quiet (message a) s (h a) (g a), refl)
  send_or_stop-Keeps message (err e) s h g = (do_send-quiet (internal stop) s refl refl, refl)

  pub finish_consuming-Keeps :
      (producer_id : ℕ) (r : Result Text (Consumer V)) (s : Connection V IpAddr)
      → Keeps s (finish_consuming producer_id r s)
  unfolding finish_consuming
  finish_consuming-Keeps producer_id (ok c) s =
      let told = do_send (server (consumed c.id producer_id c.kind c.rtp_parameters)) s in
      (
        do_send-quiet (internal (save_consumer c)) told refl refl ∙ do_send-quiet _ s refl refl,
        refl,
      )
  finish_consuming-Keeps producer_id (err e) s = (do_send-quiet (internal stop) s refl refl, refl)

  pub observed-Keeps : (r : Result Text (ℕ × ℕ)) (s : Connection V IpAddr) → Keeps s (observed r s)
  unfolding acks
  observed-Keeps (ok x) s = (refl, refl)
  observed-Keeps (err e) s = (refl, refl)

  pub finish-Keeps : (t : Task V) (a : Answers V) (s : Connection V IpAddr) → Keeps s (finish t a s)
  unfolding finish finish_opening finish_producing acks
  finish-Keeps opening a s =
      send_or_stop-Keeps _ _ (record s { app = (ensure_router a.media s.app).1 }) (λ _. refl)
        (λ _. refl)
  finish-Keeps (connecting_consumer t dtls) a s =
      send_or_stop-Keeps _ a.connect s (λ _. refl) (λ _. refl)
  finish-Keeps (connecting_input t dtls) a s =
      send_or_stop-Keeps _ a.connect s (λ _. refl) (λ _. refl)
  finish-Keeps (consuming t producer_id caps) a s = finish_consuming-Keeps producer_id a.consume s
  finish-Keeps (resuming c) a s = (refl, refl)
  finish-Keeps (producing t sctp label protocol) a s = elim (Bool-cases (reached a.produce_data)) [
    | inl y ↦ rw y (observed-Keeps _ (record s { app = (ensure_direct_transport a.media s.app).1 }))
    | inr n ↦ rw n (refl, refl)
  ]
  finish-Keeps (saving producer consumer) a s =
      let first = do_send (internal (save_input_producer producer)) s in
      (
        do_send-quiet (internal (save_input_consumer consumer)) first refl refl
            ∙ do_send-quiet _ s refl refl,
        refl,
      )

  pub finish_task-Keeps :
      (t : Option (Task V)) (i : ℕ) (a : Answers V) (s : Connection V IpAddr)
      → Keeps s (finish_task t i a s)
  unfolding acks
  finish_task-Keeps none i a s = (refl, refl)
  finish_task-Keeps (some t) i a s = finish-Keeps t a (record s { tasks = remove_at i s.tasks })

  pub elsewhere-Keeps :
      (app : AppState IpAddr) (s : Connection V IpAddr) → Keeps s (record s { app = app })
  unfolding acks
  elsewhere-Keeps app s = (refl, refl)
