-- ===== src/Poc/Viewer/Told/Blank.antt =====
-- A viewer whose transports are not there yet.
use mathlib.Core.List.{append_assoc, append-nil}
use dun_tunel.Prelude.{
  ℕ, ◌+◌, ◌≤◌, ◌≡◌, refl, sym, ap, subst, ◌∙◌, ◌⊎◌, inl, inr, List, [], ◌∷◌, ◌++◌, Option, none,
  some, Text, All, get_elem?, arith, lookup,
}
use dun_tunel.Prelude.Results.{Result, ok, err}
use dun_tunel.Poc.{ensure_router}
use dun_tunel.Poc.Viewer.{
  init, StoreTransportThenInit, ClientMessage, client_init, connect_consumer_transport,
  connect_input_transport, consume, consumer_resume, produce_input, stop, Message, store, client,
  server, internal, Frame, pong, close, WsMessage, ping, pong_received, text_received,
  close_received, other, Task, opening, Answers, Connection, do_send, handle, handle_client,
  handle_frame, handle_internal, handle_store, init_of, let_some, write,
}
use dun_tunel.Poc.Viewer.Run.{send_or_stop, finish_opening, finish, finish_task, remove_at}
use dun_tunel.Poc.Viewer.Acks.{gather, gather-append}
use dun_tunel.Poc.Viewer.Told.Counts.{
  total, total-append, total-taken, All-append, All-remove_at, All-get_elem?,
}
use dun_tunel.Poc.Viewer.Told.{told, pending, told_by, to_tell, stores, openings, IsEarly}
use dun_tunel.Poc.Viewer.Told.Ready.{IsReady}

module _ {V IpAddr : Type 0} where
  abbrev pub IsBlank : Connection V IpAddr → Type 0
  IsBlank s =
      (s.actor.consumer_transport ≡ none)
      × (s.actor.input_transport ≡ none)
      × (s.actor.consumers ≡ [])
      × (s.observers ≡ 0)
      × (told s ≡ [])
      × (pending s ≤ 1)
      × All (λ t. t ≡ opening) s.tasks
      × All IsEarly s.mailbox

  pub do_send-told :
      (m : Message V) (s : Connection V IpAddr) → told (do_send m s) ≡ told s ++ to_tell m
  unfolding told gather
  do_send-told m s =
      rw (gather-append to_tell s.mailbox (m ∷ []), append-nil (to_tell m))
        (sym (append_assoc (gather told_by s.written) (gather to_tell s.mailbox) (to_tell m)))

  pub do_send-IsBlank :
      (m : Message V) (s : Connection V IpAddr)
      → to_tell m ≡ []
      → stores m + pending s ≤ 1
      → IsEarly m
      → All IsEarly s.mailbox
      → IsBlank s
      → IsBlank (do_send m s)
  unfolding pending total
  do_send-IsBlank m s h g early waiting (a, b, c, d, e, p, ts, ms) = (
    a,
    b,
    c,
    d,
    do_send-told m s ∙ rw (e, h) refl,
    omega (arith, g, total-append stores s.mailbox (m ∷ [])),
    ts,
    All-append IsEarly s.mailbox (m ∷ []) waiting (early, tt),
  )

  pub let_some-none :
      {A : Type 0} (o : Option A) (f : A → Connection V IpAddr → Connection V IpAddr)
      (s : Connection V IpAddr)
      → o ≡ none
      → let_some o f s ≡ s
  let_some-none none f s h = refl
  let_some-none (some a) f s h = cc

  pub handle_client-IsBlank :
      (m : ClientMessage V) (s : Connection V IpAddr) → IsBlank s → IsBlank (handle_client m s)
  unfolding handle_client pending told lookup
  handle_client-IsBlank (client_init caps) s h = h
  handle_client-IsBlank (connect_consumer_transport dtls) s h =
      subst IsBlank (sym (let_some-none s.actor.consumer_transport _ s h.0)) h
  handle_client-IsBlank (connect_input_transport dtls) s h =
      subst IsBlank (sym (let_some-none s.actor.input_transport _ s h.1)) h
  handle_client-IsBlank (consume producer_id) s h =
      subst IsBlank (sym (let_some-none s.actor.consumer_transport _ s h.0)) h
  handle_client-IsBlank (consumer_resume id) s h =
      subst IsBlank (sym (let_some-none (lookup id s.actor.consumers) _ s (ap (lookup id) h.2))) h
  handle_client-IsBlank (produce_input sctp label protocol) s h =
      subst IsBlank (sym (let_some-none s.actor.input_transport _ s h.1)) h

  pub dropped-IsBlank :
      (m : Message V) (ms : List (Message V)) (s : Connection V IpAddr)
      → s.mailbox ≡ m ∷ ms
      → to_tell m ≡ []
      → IsBlank s
      → IsBlank (record s { mailbox = ms })
  unfolding pending told total gather
  dropped-IsBlank m ms s h g (a, b, c, d, e, p, ts, early) =
      let all : All IsEarly (m ∷ ms) = subst (All IsEarly) h early in
      let told_before : gather told_by s.written ++ gather to_tell ms ≡ [] =
        sym (rw (h, g) refl) ∙ e in
      (a, b, c, d, told_before, omega (arith, p, ap (total stores) h), ts, all.1)

  pub stored-IsReady :
      (m : StoreTransportThenInit V) (ms : List (Message V)) (s : Connection V IpAddr)
      → s.mailbox ≡ store m ∷ ms
      → IsBlank s
      → IsReady (handle_store m (record s { mailbox = ms }))
  unfolding handle_store pending told total gather
  stored-IsReady m ms s h (a, b, c, d, e, p, ts, early) =
      let rest = record s { mailbox = ms } in
      let told_before : gather told_by s.written ++ gather to_tell ms ≡ [] = sym (rw h refl) ∙ e in
      (
        omega (
          arith,
          p,
          ap (total stores) h,
          total-append stores ms (server (init (init_of m)) ∷ []),
        ),
        (init_of m, [], do_send-told (server (init (init_of m))) rest ∙ rw told_before refl, tt),
      )

  pub handle-opens :
      (m : Message V) (ms : List (Message V)) (s : Connection V IpAddr)
      → s.mailbox ≡ m ∷ ms
      → IsBlank s
      → IsBlank (handle m (record s { mailbox = ms }))
        ⊎ IsReady (handle m (record s { mailbox = ms }))
  unfolding handle handle_internal pending told
  handle-opens (store m) ms s h blank = inr (stored-IsReady m ms s h blank)
  handle-opens (client m) ms s h blank = inl (
      handle_client-IsBlank m (record s { mailbox = ms })
        (dropped-IsBlank (client m) ms s h refl blank))
  handle-opens (server m) ms s h blank =
      let all : All IsEarly (server m ∷ ms) = subst (All IsEarly) h blank.7 in absurd all.0
  handle-opens (internal m) ms s h blank =
      let all : All IsEarly (internal m ∷ ms) = subst (All IsEarly) h blank.7 in
      let rest = record s { mailbox = ms } in
      inl (
        subst (λ n. IsBlank (handle_internal n rest)) (sym all.0)
          (dropped-IsBlank (internal m) ms s h refl blank))

  pub write-IsBlank :
      (f : Frame V) (s : Connection V IpAddr) → told_by f ≡ [] → IsBlank s → IsBlank (write f s)
  unfolding pending told gather
  write-IsBlank f s h (a, b, c, d, e, p, ts, early) =
      let same : gather told_by (s.written ++ f ∷ []) ≡ gather told_by s.written =
        gather-append told_by s.written (f ∷ [])
        ∙ rw (h, append-nil (gather told_by s.written)) refl in
      (a, b, c, d, rw same e, p, ts, early)

  pub handle_frame-IsBlank :
      (m : WsMessage V) (s : Connection V IpAddr) → IsBlank s → IsBlank (handle_frame m s)
  unfolding handle_frame pending told gather
  handle_frame-IsBlank (ping payload) s h = write-IsBlank (pong payload) s refl h
  handle_frame-IsBlank pong_received s h = h
  handle_frame-IsBlank (text_received none) s h = h
  handle_frame-IsBlank (text_received (some m)) s h =
      do_send-IsBlank (client m) s refl (omega (arith, h.5)) tt h.7 h
  handle_frame-IsBlank (close_received reason) s h = write-IsBlank (close reason) s refl h
  handle_frame-IsBlank other s h = h

  pub stored_or_stopped :
      {A : Type 0} (message : A → StoreTransportThenInit V) (r : Result Text A)
      (s : Connection V IpAddr)
      → pending s ≤ 0
      → IsBlank s
      → IsBlank (send_or_stop (λ x. store (message x)) r s)
  stored_or_stopped message (ok x) s z h =
      do_send-IsBlank (store (message x)) s refl (omega (arith, z)) tt h.7 h
  stored_or_stopped message (err e) s z h =
      do_send-IsBlank (internal stop) s refl (omega (arith, z)) refl h.7 h

  pub opening-IsBlank :
      (i : ℕ) (a : Answers V) (s : Connection V IpAddr)
      → get_elem? s.tasks i ≡ some opening
      → IsBlank s
      → IsBlank (finish opening a (record s { tasks = remove_at i s.tasks }))
  unfolding finish finish_opening pending told
  opening-IsBlank i a s h (b, c, d, o, e, p, ts, early) =
      let taken = record s { tasks = remove_at i s.tasks } in
      let left : pending taken ≤ 0 = omega (arith, p, total-taken openings i s.tasks opening h) in
      stored_or_stopped _ _ (record taken { app = (ensure_router a.media s.app).1 }) left
        (b, c, d, o, e, omega (arith, left), All-remove_at (λ t. t ≡ opening) i s.tasks ts, early)

  pub finish_task-IsBlank :
      (t : Option (Task V)) (i : ℕ) (a : Answers V) (s : Connection V IpAddr)
      → get_elem? s.tasks i ≡ t
      → IsBlank s
      → IsBlank (finish_task t i a s)
  finish_task-IsBlank none i a s h blank = blank
  finish_task-IsBlank (some t) i a s h blank =
      let first = All-get_elem? (λ t. t ≡ opening) i s.tasks t blank.6 h in
      subst (λ u. IsBlank (finish u a (record s { tasks = remove_at i s.tasks }))) (sym first)
        (opening-IsBlank i a s (h ∙ ap some first) blank)
