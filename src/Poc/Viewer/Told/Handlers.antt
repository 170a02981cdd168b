-- ===== src/Poc/Viewer/Told/Handlers.antt =====
-- The handlers of a viewer tell it no second `Init`.
use mathlib.Core.List.{append_assoc, append-nil}
use dun_tunel.Prelude.{◌+◌, ◌%◌, ◌^◌, ◌≡◌, refl, List, [], ◌∷◌, none, some, arith, lookup}
use dun_tunel.Poc.Viewer.{
  input_ack, ClientMessage, client_init, connect_consumer_transport, connect_input_transport,
  consume, consumer_resume, produce_input, InternalMessage, save_consumer, save_input_producer,
  save_input_consumer, input_broadcast, stop, Message, store, client, server, internal, Frame, pong,
  text_frame, close, WsMessage, ping, pong_received, text_received, close_received, other,
  Connection, handle, handle_client, handle_frame, handle_internal, stop_actor, write,
}
use dun_tunel.Poc.Viewer.Acks.{gather, gather-append}
use dun_tunel.Poc.Viewer.Told.Counts.{total}
use dun_tunel.Poc.Viewer.Told.{
  told, pending, Extends, same-Extends, Extends-trans, do_send-Extends, spawn-Extends,
  let_some-Extends, update-Extends, told_by, to_tell, stores,
}

module _ {V IpAddr : Type 0} where
  pub handle_client-Extends :
      (m : ClientMessage V) (s : Connection V IpAddr) → Extends s (handle_client m s)
  unfolding handle_client
  handle_client-Extends (client_init caps) s = update-Extends _ s
  handle_client-Extends (connect_consumer_transport dtls) s =
      let_some-Extends s.actor.consumer_transport _ s (λ t. spawn-Extends _ s refl)
  handle_client-Extends (connect_input_transport dtls) s =
      let_some-Extends s.actor.input_transport _ s (λ t. spawn-Extends _ s refl)
  handle_client-Extends (consume producer_id) s =
      let_some-Extends s.actor.consumer_transport _ s
        (λ t. let_some-Extends s.actor.client_caps _ s (λ caps. spawn-Extends _ s refl))
  handle_client-Extends (consumer_resume id) s =
      let_some-Extends (lookup id s.actor.consumers) _ s (λ c. spawn-Extends _ s refl)
  handle_client-Extends (produce_input sctp label protocol) s =
      let_some-Extends s.actor.input_transport _ s (λ t. spawn-Extends _ s refl)

  pub handle_internal-Extends :
      (m : InternalMessage V) (s : Connection V IpAddr) → Extends s (handle_internal m s)
  unfolding handle_internal pending told
  handle_internal-Extends stop s = same-Extends s (stop_actor s) (omega arith) refl
  handle_internal-Extends (save_consumer c) s =
      same-Extends s (handle_internal (save_consumer c) s) (omega arith) refl
  handle_internal-Extends (save_input_producer p) s =
      same-Extends s (handle_internal (save_input_producer p) s) (omega arith) refl
  handle_internal-Extends (save_input_consumer c) s =
      same-Extends s (handle_internal (save_input_consumer c) s) (omega arith) refl
  handle_internal-Extends (input_broadcast sequence bytes) s =
      do_send-Extends (server (input_ack sequence bytes))
        (record s {
          actor = record s.actor {
            input_messages_seen = sequence;
            input_bytes_seen = (s.actor.input_bytes_seen + bytes) % 2 ^ 64;
          };
        })
        refl (tt, tt)

  pub dropped-Extends :
      (m : Message V) (ms : List (Message V)) (s : Connection V IpAddr)
      → s.mailbox ≡ m ∷ ms
      → to_tell m ≡ []
      → Extends s (record s { mailbox = ms })
  unfolding pending told total gather
  dropped-Extends m ms s h g =
      same-Extends s (record s { mailbox = ms }) (rw h (omega arith)) (rw (h, g) refl)

  pub handle-Extends :
      (m : Message V) (ms : List (Message V)) (s : Connection V IpAddr)
      → s.mailbox ≡ m ∷ ms
      → stores m ≡ 0
      → Extends s (handle m (record s { mailbox = ms }))
  unfolding handle pending told total gather
  handle-Extends (store m) ms s h g = absurd (omega (arith, g))
  handle-Extends (client m) ms s h g =
      let rest = record s { mailbox = ms } in
      Extends-trans s rest (handle_client m rest) (dropped-Extends (client m) ms s h refl)
        (handle_client-Extends m rest)
  handle-Extends (server m) ms s h g =
      same-Extends s (write (text_frame m) (record s { mailbox = ms })) (rw h (omega arith)) (
        rw (h, gather-append told_by s.written (text_frame m ∷ []))
          (append_assoc (gather told_by s.written) (m ∷ []) (gather to_tell ms)))
  handle-Extends (internal m) ms s h g =
      let rest = record s { mailbox = ms } in
      Extends-trans s rest (handle_internal m rest) (dropped-Extends (internal m) ms s h refl)
        (handle_internal-Extends m rest)

  pub written-Extends :
      (f : Frame V) (s : Connection V IpAddr) → told_by f ≡ [] → Extends s (write f s)
  unfolding pending told total gather
  written-Extends f s h =
      same-Extends s (write f s) (omega arith) (
        rw (gather-append told_by s.written (f ∷ []), h, append-nil (gather told_by s.written))
          refl)

  pub handle_frame-Extends :
      (m : WsMessage V) (s : Connection V IpAddr) → Extends s (handle_frame m s)
  unfolding handle_frame pending told
  handle_frame-Extends (ping payload) s = written-Extends (pong payload) s refl
  handle_frame-Extends pong_received s = same-Extends s s (omega arith) refl
  handle_frame-Extends (text_received none) s = same-Extends s s (omega arith) refl
  handle_frame-Extends (text_received (some m)) s = do_send-Extends (client m) s refl tt
  handle_frame-Extends (close_received reason) s = written-Extends (close reason) s refl
  handle_frame-Extends other s = same-Extends s (stop_actor s) (omega arith) refl
