-- ===== src/Poc/Viewer/First.antt =====
-- What a viewer is told first.
use dun_tunel.Prelude.{
  ℕ, ◌≡◌, refl, ◌⊎◌, inl, inr, Bool, true, false, List, [], ◌∷◌, get_elem?, ltb, if◌then◌else◌,
  arith,
}
use dun_tunel.Poc.{AppState}
use dun_tunel.Poc.Viewer.{Message, Connection}
use dun_tunel.Poc.Viewer.Run.{
  Event, frame, deliver, complete, observe, elsewhere, take_message, on_message, act, step, run,
  open_connection,
}
use dun_tunel.Poc.Viewer.Acks.{gather}
use dun_tunel.Poc.Viewer.Told.Counts.{total}
use dun_tunel.Poc.Viewer.Told.{told, pending, StartsWithInit}
use dun_tunel.Poc.Viewer.Told.Ready.{IsReady, act-IsReady}
use dun_tunel.Poc.Viewer.Told.Blank.{
  IsBlank, handle-opens, handle_frame-IsBlank, finish_task-IsBlank,
}

module _ {V IpAddr : Type 0} where
  abbrev IsOpen : Connection V IpAddr → Type 0
  IsOpen s = IsBlank s ⊎ IsReady s

  take_message-IsOpen :
      (mailbox : List (Message V)) (s : Connection V IpAddr)
      → s.mailbox ≡ mailbox
      → IsBlank s
      → IsOpen (take_message mailbox s)
  take_message-IsOpen [] s h blank = inl blank
  take_message-IsOpen (m ∷ ms) s h blank = handle-opens m ms s h blank

  observe-IsBlank :
      (i bytes : ℕ) (s : Connection V IpAddr)
      → IsBlank s
      → IsBlank (if ltb i s.observers then on_message i bytes s else s)
  observe-IsBlank i bytes s h =
      let unseen : ltb i s.observers ≡ false = ground (arith, h.3) in rw unseen h

  act-IsOpen : (e : Event V IpAddr) (s : Connection V IpAddr) → IsBlank s → IsOpen (act e s)
  unfolding act pending told
  act-IsOpen (frame m) s h = inl (handle_frame-IsBlank m s h)
  act-IsOpen deliver s h = take_message-IsOpen s.mailbox s refl h
  act-IsOpen (complete i a) s h = inl (finish_task-IsBlank (get_elem? s.tasks i) i a s refl h)
  act-IsOpen (observe i bytes) s h = inl (observe-IsBlank i bytes s h)
  act-IsOpen (elsewhere app) s h = inl h

  if-IsOpen :
      (b : Bool) (s t : Connection V IpAddr) → IsOpen s → IsOpen t → IsOpen (if b then s else t)
  if-IsOpen true s t h g = h
  if-IsOpen false s t h g = g

  step-IsOpen : (e : Event V IpAddr) (s : Connection V IpAddr) → IsOpen s → IsOpen (step e s)
  unfolding step
  step-IsOpen e s (inl blank) = if-IsOpen s.running (act e s) s (act-IsOpen e s blank) (inl blank)
  step-IsOpen e s (inr ready) =
      if-IsOpen s.running (act e s) s (inr (act-IsReady e s ready)) (inr ready)

  run-IsOpen : (es : List (Event V IpAddr)) (s : Connection V IpAddr) → IsOpen s → IsOpen (run es s)
  unfolding run
  run-IsOpen [] s h = h
  run-IsOpen (e ∷ es) s h = run-IsOpen es (step e s) (step-IsOpen e s h)

  told_of : (s : Connection V IpAddr) → IsOpen s → (told s ≡ []) ⊎ StartsWithInit (told s)
  told_of s (inl blank) = inl blank.4
  told_of s (inr ready) = inr ready.1

  -- Whatever the viewer sends, mediasoup returns and the observers see, in any order, the first message
  -- that a viewer is sent is `Init`, and it is sent no other `Init`.
  pub run-StartsWithInit :
      (es : List (Event V IpAddr)) (app : AppState IpAddr)
      → (told (run es (open_connection {V = V} app)) ≡ [])
        ⊎ StartsWithInit (told (run es (open_connection app)))
  unfolding told gather pending total
  run-StartsWithInit es app =
      let opened : IsOpen (open_connection {V = V} app) =
        inl (refl, refl, refl, refl, refl, omega arith, (refl, tt), tt) in
      told_of (run es (open_connection app)) (run-IsOpen es (open_connection app) opened)
