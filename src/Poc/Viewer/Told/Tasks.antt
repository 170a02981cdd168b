-- ===== src/Poc/Viewer/Told/Tasks.antt =====
-- The tasks of a viewer but the first tell it no `Init`.
use dun_tunel.Prelude.{ℕ, suc, ◌≡◌, refl, inl, inr, Bool-cases, Text, All, arith}
use dun_tunel.Prelude.Results.{Result, ok, err}
use dun_tunel.Poc.{AppState, ensure_direct_transport}
use dun_tunel.Poc.Viewer.{
  consumed, save_consumer, save_input_producer, save_input_consumer, input_broadcast, stop, Message,
  server, internal, Task, opening, connecting_consumer, connecting_input, consuming, resuming,
  producing, saving, Answers, Consumer, Connection, do_send, bump,
}
use dun_tunel.Poc.Viewer.Run.{
  send_or_stop, finish_consuming, finish_producing, observed, reached, finish, on_message,
}
use dun_tunel.Poc.Viewer.Told.{
  told, pending, Extends, same-Extends, Extends-trans, do_send-Extends, spawn-Extends, IsLater,
  to_tell, stores, openings,
}

module _ {V IpAddr : Type 0} where
  pub send_or_stop-Extends :
      {A : Type 0} (message : A → Message V) (r : Result Text A) (s : Connection V IpAddr)
      → ((a : A) → stores (message a) ≡ 0)
      → ((a : A) → All IsLater (to_tell (message a)))
      → Extends s (send_or_stop message r s)
  send_or_stop-Extends message (ok a) s h g = do_send-Extends (message a) s (h a) (g a)
  send_or_stop-Extends message (err e) s h g = do_send-Extends (internal stop) s refl tt

  pub finish_consuming-Extends :
      (producer_id : ℕ) (r : Result Text (Consumer V)) (s : Connection V IpAddr)
      → Extends s (finish_consuming producer_id r s)
  unfolding finish_consuming
  finish_consuming-Extends producer_id (ok c) s =
      let told_first = do_send (server (consumed c.id producer_id c.kind c.rtp_parameters)) s in
      let second = do_send (internal (save_consumer c)) told_first in
      Extends-trans s told_first second (do_send-Extends _ s refl (tt, tt))
        (do_send-Extends (internal (save_consumer c)) told_first refl tt)
  finish_consuming-Extends producer_id (err e) s = do_send-Extends (internal stop) s refl tt

  pub observed-Extends :
      (r : Result Text (ℕ × ℕ)) (s : Connection V IpAddr) → Extends s (observed r s)
  unfolding pending told
  observed-Extends (ok (producer, consumer)) s =
      spawn-Extends (saving producer consumer) (record s { observers = suc s.observers }) refl
  observed-Extends (err e) s = same-Extends s s (omega arith) refl

  -- A task other than `opening`.
  pub finish-Extends :
      (t : Task V) (a : Answers V) (s : Connection V IpAddr)
      → openings t ≡ 0
      → Extends s (finish t a s)
  unfolding finish finish_producing pending told
  finish-Extends opening a s h = absurd (omega (arith, h))
  finish-Extends (connecting_consumer t dtls) a s h =
      send_or_stop-Extends _ a.connect s (λ _. refl) (λ _. (tt, tt))
  finish-Extends (connecting_input t dtls) a s h =
      send_or_stop-Extends _ a.connect s (λ _. refl) (λ _. (tt, tt))
  finish-Extends (consuming t producer_id caps) a s h =
      finish_consuming-Extends producer_id a.consume s
  finish-Extends (resuming c) a s h = same-Extends s s (omega arith) refl
  finish-Extends (producing t sctp label protocol) a s h =
      elim (Bool-cases (reached a.produce_data)) [
        | inl y ↦
            rw y (observed-Extends _ (record s { app = (ensure_direct_transport a.media s.app).1 }))
        | inr n ↦ rw n (same-Extends s s (omega arith) refl)
      ]
  finish-Extends (saving producer consumer) a s h =
      let first = do_send (internal (save_input_producer producer)) s in
      let second = do_send (internal (save_input_consumer consumer)) first in
      Extends-trans s first second (do_send-Extends _ s refl tt)
        (do_send-Extends (internal (save_input_consumer consumer)) first refl tt)

  pub on_message-Extends :
      (i bytes : ℕ) (s : Connection V IpAddr) → Extends s (on_message i bytes s)
  unfolding on_message pending told
  on_message-Extends i bytes s =
      do_send-Extends (internal (input_broadcast (bump i s.counters i) bytes))
        (record s { counters = bump i s.counters }) refl tt

  pub elsewhere-Extends :
      (app : AppState IpAddr) (s : Connection V IpAddr) → Extends s (record s { app = app })
  unfolding pending told
  elsewhere-Extends app s = same-Extends s (record s { app = app }) (omega arith) refl
