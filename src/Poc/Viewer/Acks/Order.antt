-- ===== src/Poc/Viewer/Acks/Order.antt =====
-- The acknowledgements in a run of a viewer.
use native.Mathlib.Omega.{arith}
use mathlib.Core.List.{append-nil}
use dun_tunel.Prelude.{
  ℕ, ◌+◌, ◌%◌, ◌^◌, ◌≡◌, refl, sym, ◌∙◌, Bool, true, false, List, [], ◌∷◌, ◌++◌, ◌==◌, get_elem?,
  ltb, if◌then◌else◌,
}
use dun_tunel.Poc.Viewer.{input_broadcast, internal, Connection, bump, handle_frame}
use dun_tunel.Poc.Viewer.Run.{
  Event, frame, deliver, complete, observe, elsewhere, finish_task, take_message, on_message, act,
  step, run,
}
use dun_tunel.Poc.Viewer.Acks.{
  gather, regroup, acks_for, frame_acks, message_acks, broadcasts, acks, shown, seen_in, seen,
  do_send-acks,
}
use dun_tunel.Poc.Viewer.Acks.Handlers.{
  Keeps, take_message-Keeps, handle_frame-Keeps, finish_task-Keeps, elsewhere-Keeps,
}

module _ {V IpAddr : Type 0} where
  -- What an event adds to the acknowledgements, before those of the later ones.
  abbrev Adds : List (ℕ × ℕ) → Connection V IpAddr → Connection V IpAddr → Type 0
  Adds new s t =
      (later : List (ℕ × ℕ))
      → acks s ++ acks_for s.counters (new ++ later) ≡ acks t ++ acks_for t.counters later

  Keeps-Adds : (s t : Connection V IpAddr) → Keeps s t → Adds [] s t
  Keeps-Adds s t (a, c) later = rw (a, c) refl

  on_message-Adds :
      (i bytes : ℕ) (s : Connection V IpAddr) → Adds ((i, bytes) ∷ []) s (on_message i bytes s)
  unfolding on_message acks_for acks
  on_message-Adds i bytes s later =
      let counters = bump i s.counters in
      let same : (i == i) ≡ true = ground arith in
      rw
        (
          do_send-acks (internal (input_broadcast (counters i) bytes))
              (record s { counters = counters }),
          append-nil (gather message_acks s.mailbox),
          same,
        )
        (regroup (gather frame_acks s.written) (gather message_acks s.mailbox)
          (gather broadcasts s.mailbox) (((s.counters i + 1) % 2 ^ 64, bytes) ∷ [])
          (acks_for counters later))

  if-Adds :
      (b : Bool) (new other_new : List (ℕ × ℕ)) (s t u : Connection V IpAddr)
      → Adds new s t
      → Adds other_new s u
      → Adds (if b then new else other_new) s (if b then t else u)
  if-Adds true new other_new s t u h g = h
  if-Adds false new other_new s t u h g = g

  act-Adds : (e : Event V IpAddr) (s : Connection V IpAddr) → Adds (shown e s) s (act e s)
  unfolding act shown
  act-Adds (frame m) s = Keeps-Adds s (handle_frame m s) (handle_frame-Keeps m s)
  act-Adds deliver s = Keeps-Adds s (take_message s.mailbox s) (take_message-Keeps s.mailbox s refl)
  act-Adds (complete i a) s =
      Keeps-Adds s (finish_task (get_elem? s.tasks i) i a s)
        (finish_task-Keeps (get_elem? s.tasks i) i a s)
  act-Adds (observe i bytes) s =
      if-Adds (ltb i s.observers) ((i, bytes) ∷ []) [] s (on_message i bytes s) s
        (on_message-Adds i bytes s) (λ later. refl)
  act-Adds (elsewhere app) s = Keeps-Adds s (record s { app = app }) (elsewhere-Keeps app s)

  step-Adds : (e : Event V IpAddr) (s : Connection V IpAddr) → Adds (seen_in e s) s (step e s)
  unfolding step seen_in
  step-Adds e s = if-Adds s.running (shown e s) [] s (act e s) s (act-Adds e s) (λ later. refl)

  -- From any state of a connection on, the acknowledgements written, waiting and to come are those
  -- there were, and then one for each message that an observer sees while the actor runs, in the order
  -- in which they see them, with the number of bytes and what the observer has counted up to it, modulo
  -- 2^64.
  pub run-acks :
      (es : List (Event V IpAddr)) (s : Connection V IpAddr)
      → acks (run es s) ≡ acks s ++ acks_for s.counters (seen es s)
  unfolding run seen acks_for
  run-acks [] s = sym (append-nil (acks s))
  run-acks (e ∷ es) s = run-acks es (step e s) ∙ sym (step-Adds e s (seen es (step e s)))
