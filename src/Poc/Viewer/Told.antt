-- ===== src/Poc/Viewer/Told.antt =====
-- What a viewer of the proof of concept is told, and what adds to it.
pub mod Counts
pub mod Handlers
pub mod Tasks
pub mod Ready
pub mod Blank
use mathlib.Core.List.{append_assoc, append-nil}
use dun_tunel.Prelude.{
  ℕ, ◌+◌, ◌≤◌, ◌≡◌, refl, sym, ap, ◌∙◌, List, [], ◌∷◌, ◌++◌, Option, none, some, All, arith,
}
use dun_tunel.Poc.Viewer.{
  ServerMessage, Init, init, connected_consumer_transport, connected_input_transport, consumed,
  input_ack, stop, Message, store, client, server, internal, Frame, pong, text_frame, close, Task,
  opening, connecting_consumer, connecting_input, consuming, resuming, producing, saving,
  Connection, ViewerConnection, do_send, let_some, spawn, update,
}
use dun_tunel.Poc.Viewer.Acks.{gather, gather-append}
use dun_tunel.Poc.Viewer.Told.Counts.{total, total-append, All-append}

module _ {V : Type 0} where
  abbrev pub IsLater : ServerMessage V → Type 0
  IsLater (init i) = ⊥
  IsLater connected_consumer_transport = Unit
  IsLater connected_input_transport = Unit
  IsLater (consumed id producer_id kind rtp) = Unit
  IsLater (input_ack sequence bytes) = Unit

  abbrev pub StartsWithInit : List (ServerMessage V) → Type 0
  StartsWithInit ms =
      (i : Init V) × (later : List (ServerMessage V)) × (ms ≡ init i ∷ later) × All IsLater later

  abbrev pub told_by : Frame V → List (ServerMessage V)
  told_by (pong payload) = []
  told_by (text_frame m) = m ∷ []
  told_by (close reason) = []

  abbrev pub to_tell : Message V → List (ServerMessage V)
  to_tell (store m) = []
  to_tell (client m) = []
  to_tell (server m) = m ∷ []
  to_tell (internal m) = []

  abbrev pub stores : Message V → ℕ
  stores (store m) = 1
  stores (client m) = 0
  stores (server m) = 0
  stores (internal m) = 0

  abbrev pub openings : Task V → ℕ
  openings opening = 1
  openings (connecting_consumer t dtls) = 0
  openings (connecting_input t dtls) = 0
  openings (consuming t producer_id caps) = 0
  openings (resuming c) = 0
  openings (producing t sctp label protocol) = 0
  openings (saving producer consumer) = 0

  -- What can wait before the transports are there.
  abbrev pub IsEarly : Message V → Type 0
  IsEarly (store m) = Unit
  IsEarly (client m) = Unit
  IsEarly (server m) = ⊥
  IsEarly (internal m) = m ≡ stop

module _ {V IpAddr : Type 0} where
  -- The messages that the viewer is sent, those that are not written yet at the end.
  unfoldable pub told : Connection V IpAddr → List (ServerMessage V)
  unfolding gather
  told s = gather told_by s.written ++ gather to_tell s.mailbox

  unfoldable pub pending : Connection V IpAddr → ℕ
  unfolding total
  pending s = total openings s.tasks + total stores s.mailbox

  -- The viewer is sent more, but no `Init`.
  abbrev pub Extends : Connection V IpAddr → Connection V IpAddr → Type 0
  Extends s t =
      (pending t ≤ pending s)
      × (extra : List (ServerMessage V)) × (told t ≡ told s ++ extra)
      × All IsLater extra

  pub same-Extends :
      (s t : Connection V IpAddr) → pending t ≤ pending s → told t ≡ told s → Extends s t
  same-Extends s t h g = (h, [], g ∙ sym (append-nil (told s)), tt)

  pub Extends-trans : (s t u : Connection V IpAddr) → Extends s t → Extends t u → Extends s u
  Extends-trans s t u (p, xs, e, h) (q, ys, f, g) = (
    omega (arith, p, q),
    xs ++ ys,
    f ∙ ap (λ ms. ms ++ ys) e ∙ append_assoc (told s) xs ys,
    All-append IsLater xs ys h g,
  )

  pub do_send-Extends :
      (m : Message V) (s : Connection V IpAddr)
      → stores m ≡ 0
      → All IsLater (to_tell m)
      → Extends s (do_send m s)
  unfolding pending told gather total
  do_send-Extends m s h g = (
    omega (arith, h, total-append stores s.mailbox (m ∷ [])),
    to_tell m,
    rw (gather-append to_tell s.mailbox (m ∷ []), append-nil (to_tell m))
        (sym (append_assoc (gather told_by s.written) (gather to_tell s.mailbox) (to_tell m))),
    g,
  )

  pub spawn-Extends :
      (t : Task V) (s : Connection V IpAddr) → openings t ≡ 0 → Extends s (spawn t s)
  unfolding pending told total
  spawn-Extends t s h =
      same-Extends s (spawn t s) (omega (arith, h, total-append openings s.tasks (t ∷ []))) refl

  pub let_some-Extends :
      {A : Type 0} (o : Option A) (f : A → Connection V IpAddr → Connection V IpAddr)
      (s : Connection V IpAddr)
      → ((a : A) → Extends s (f a s))
      → Extends s (let_some o f s)
  let_some-Extends none f s h = same-Extends s s (omega arith) refl
  let_some-Extends (some a) f s h = h a

  pub update-Extends :
      (actor : ViewerConnection V) (s : Connection V IpAddr) → Extends s (update actor s)
  unfolding pending told
  update-Extends actor s = same-Extends s (update actor s) (omega arith) refl
