-- ===== src/Poc/Viewer/Acks.antt =====
-- The acknowledgements that a viewer gets for the input that its observers see.
pub mod Handlers
pub mod Order
use mathlib.Core.List.{append_assoc, append-nil}
use dun_tunel.Prelude.{
  ℕ, ◌+◌, ◌%◌, ◌^◌, ◌≡◌, refl, sym, ap, ◌∙◌, List, [], ◌∷◌, ◌++◌, ltb, if◌then◌else◌,
}
use dun_tunel.Poc.Viewer.{
  ServerMessage, init, connected_consumer_transport, connected_input_transport, consumed, input_ack,
  InternalMessage, save_consumer, save_input_producer, save_input_consumer, input_broadcast, stop,
  Message, store, client, server, internal, Frame, pong, text_frame, close, Connection, bump,
  do_send,
}
use dun_tunel.Poc.Viewer.Run.{Event, frame, deliver, complete, observe, elsewhere, step}

module _ {A B : Type 0} (f : A → List B) where
  unfoldable pub gather : List A → List B
  gather [] = []
  gather (x ∷ xs) = f x ++ gather xs

  pub gather-append : (xs ys : List A) → gather (xs ++ ys) ≡ gather xs ++ gather ys
  unfolding gather
  gather-append [] ys = refl
  gather-append (x ∷ xs) ys =
      ap (λ zs. f x ++ zs) (gather-append xs ys) ∙ sym (append_assoc (f x) (gather xs) (gather ys))

pub regroup :
    {A : Type 0} (written waiting coming new later : List A)
    → (written ++ (waiting ++ coming)) ++ (new ++ later)
      ≡ (written ++ (waiting ++ (coming ++ new))) ++ later
regroup written waiting coming new later = simp append_assoc

-- The acknowledgements that the observers owe: to each message of a list of observers with the
-- bytes that they see, its number among those of its observer, with its bytes.
unfoldable pub acks_for : (ℕ → ℕ) → List (ℕ × ℕ) → List (ℕ × ℕ)
acks_for counters [] = []
acks_for counters ((i, bytes) ∷ seen) =
    ((counters i + 1) % 2 ^ 64, bytes) ∷ acks_for (bump i counters) seen

module _ {V : Type 0} where
  abbrev pub ack_of : ServerMessage V → List (ℕ × ℕ)
  ack_of (init m) = []
  ack_of connected_consumer_transport = []
  ack_of connected_input_transport = []
  ack_of (consumed id producer_id kind rtp) = []
  ack_of (input_ack sequence bytes) = (sequence, bytes) ∷ []

  abbrev pub frame_acks : Frame V → List (ℕ × ℕ)
  frame_acks (pong payload) = []
  frame_acks (text_frame m) = ack_of m
  frame_acks (close reason) = []

  abbrev pub message_acks : Message V → List (ℕ × ℕ)
  message_acks (store m) = []
  message_acks (client m) = []
  message_acks (server m) = ack_of m
  message_acks (internal m) = []

  abbrev pub broadcast_of : InternalMessage V → List (ℕ × ℕ)
  broadcast_of (save_consumer c) = []
  broadcast_of (save_input_producer p) = []
  broadcast_of (save_input_consumer c) = []
  broadcast_of (input_broadcast sequence bytes) = (sequence, bytes) ∷ []
  broadcast_of stop = []

  abbrev pub broadcasts : Message V → List (ℕ × ℕ)
  broadcasts (store m) = []
  broadcasts (client m) = []
  broadcasts (server m) = []
  broadcasts (internal m) = broadcast_of m

module _ {V IpAddr : Type 0} where
  -- The acknowledgements that are written, those that wait, and those that are to come.
  unfoldable pub acks : Connection V IpAddr → List (ℕ × ℕ)
  unfolding gather
  acks s =
      gather frame_acks s.written ++ (gather message_acks s.mailbox ++ gather broadcasts s.mailbox)

  -- What an event shows to an observer.
  unfoldable pub shown : Event V IpAddr → Connection V IpAddr → List (ℕ × ℕ)
  shown (frame m) s = []
  shown deliver s = []
  shown (complete i a) s = []
  shown (observe i bytes) s = if ltb i s.observers then (i, bytes) ∷ [] else []
  shown (elsewhere app) s = []

  -- As long as the actor runs.
  unfoldable pub seen_in : Event V IpAddr → Connection V IpAddr → List (ℕ × ℕ)
  unfolding shown
  seen_in e s = if s.running then shown e s else []

  unfoldable pub seen : List (Event V IpAddr) → Connection V IpAddr → List (ℕ × ℕ)
  unfolding seen_in step
  seen [] s = []
  seen (e ∷ es) s = seen_in e s ++ seen es (step e s)

  pub do_send-acks :
      (m : Message V) (s : Connection V IpAddr)
      → acks (do_send m s)
        ≡ gather frame_acks s.written
          ++ ((gather message_acks s.mailbox ++ message_acks m)
              ++ (gather broadcasts s.mailbox ++ broadcasts m))
  unfolding acks gather
  do_send-acks m s =
      rw
        (
          gather-append message_acks s.mailbox (m ∷ []),
          gather-append broadcasts s.mailbox (m ∷ []),
          append-nil (message_acks m),
          append-nil (broadcasts m),
        )
        refl

  -- A message that is neither an acknowledgement nor a broadcast.
  pub do_send-quiet :
      (m : Message V) (s : Connection V IpAddr)
      → message_acks m ≡ []
      → broadcasts m ≡ []
      → acks (do_send m s) ≡ acks s
  unfolding acks
  do_send-quiet m s h g =
      do_send-acks m s
      ∙ rw
          (
            h,
            g,
            append-nil (gather message_acks s.mailbox),
            append-nil (gather broadcasts s.mailbox),
          )
          refl

  pub written-acks :
      (f : Frame V) (s : Connection V IpAddr)
      → acks (record s { written = s.written ++ f ∷ [] })
        ≡ gather frame_acks s.written
          ++ (frame_acks f ++ (gather message_acks s.mailbox ++ gather broadcasts s.mailbox))
  unfolding acks gather
  written-acks f s =
      rw
        (
          gather-append frame_acks s.written (f ∷ []),
          append-nil (frame_acks f),
          append_assoc (gather frame_acks s.written) (frame_acks f)
              (gather message_acks s.mailbox ++ gather broadcasts s.mailbox),
        )
        refl
