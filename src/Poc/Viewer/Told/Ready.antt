-- ===== src/Poc/Viewer/Told/Ready.antt =====
-- A viewer that has been sent `Init`.
use dun_tunel.Prelude.{
  ℕ, ◌≤◌, ◌≡◌, refl, ap, ◌∙◌, Bool, true, false, List, [], ◌∷◌, ◌++◌, Option, none, some, get_elem?,
  ltb, if◌then◌else◌, arith,
}
use dun_tunel.Poc.Viewer.{Message, Task, Answers, Connection, handle, handle_frame}
use dun_tunel.Poc.Viewer.Run.{
  Event, frame, deliver, complete, observe, elsewhere, finish, finish_task, take_message, remove_at,
  on_message, act,
}
use dun_tunel.Poc.Viewer.Told.Counts.{total, total-remove_at, total-taken, All-append}
use dun_tunel.Poc.Viewer.Told.{
  told, pending, Extends, same-Extends, Extends-trans, IsLater, StartsWithInit, stores, openings,
}
use dun_tunel.Poc.Viewer.Told.Handlers.{handle-Extends, handle_frame-Extends}
use dun_tunel.Poc.Viewer.Told.Tasks.{finish-Extends, on_message-Extends, elsewhere-Extends}

module _ {V IpAddr : Type 0} where
  abbrev pub IsReady : Connection V IpAddr → Type 0
  IsReady s = (pending s ≤ 0) × StartsWithInit (told s)

  pub IsReady-Extends : (s t : Connection V IpAddr) → IsReady s → Extends s t → IsReady t
  IsReady-Extends s t (z, (i, later, e, h)) (p, xs, f, g) = (
    omega (arith, z, p),
    (i, later ++ xs, f ∙ ap (λ ms. ms ++ xs) e, All-append IsLater later xs h g),
  )

  pub nothing_stored :
      (m : Message V) (ms : List (Message V)) (s : Connection V IpAddr)
      → s.mailbox ≡ m ∷ ms
      → pending s ≤ 0
      → stores m ≡ 0
  unfolding pending total
  nothing_stored m ms s h z = omega (arith, z, ap (total stores) h)

  pub take_message-IsReady :
      (mailbox : List (Message V)) (s : Connection V IpAddr)
      → s.mailbox ≡ mailbox
      → IsReady s
      → IsReady (take_message mailbox s)
  take_message-IsReady [] s h r = r
  take_message-IsReady (m ∷ ms) s h r =
      IsReady-Extends s (handle m (record s { mailbox = ms })) r
        (handle-Extends m ms s h (nothing_stored m ms s h r.0))

  pub taken-Extends :
      (i : ℕ) (s : Connection V IpAddr) → Extends s (record s { tasks = remove_at i s.tasks })
  unfolding pending told
  taken-Extends i s =
      same-Extends s (record s { tasks = remove_at i s.tasks })
        (omega (arith, total-remove_at openings i s.tasks)) refl

  pub nothing_opening :
      (t : Task V) (i : ℕ) (s : Connection V IpAddr)
      → get_elem? s.tasks i ≡ some t
      → pending s ≤ 0
      → openings t ≡ 0
  unfolding pending
  nothing_opening t i s h z = omega (arith, z, total-taken openings i s.tasks t h)

  pub finish_task-IsReady :
      (t : Option (Task V)) (i : ℕ) (a : Answers V) (s : Connection V IpAddr)
      → get_elem? s.tasks i ≡ t
      → IsReady s
      → IsReady (finish_task t i a s)
  finish_task-IsReady none i a s h r = r
  finish_task-IsReady (some t) i a s h r =
      let taken = record s { tasks = remove_at i s.tasks } in
      IsReady-Extends s (finish t a taken) r (
        Extends-trans s taken (finish t a taken) (taken-Extends i s)
          (finish-Extends t a taken (nothing_opening t i s h r.0)))

  pub if-IsReady :
      (b : Bool) (s t : Connection V IpAddr) → IsReady s → IsReady t → IsReady (if b then s else t)
  if-IsReady true s t h g = h
  if-IsReady false s t h g = g

  pub act-IsReady : (e : Event V IpAddr) (s : Connection V IpAddr) → IsReady s → IsReady (act e s)
  unfolding act
  act-IsReady (frame m) s r = IsReady-Extends s (handle_frame m s) r (handle_frame-Extends m s)
  act-IsReady deliver s r = take_message-IsReady s.mailbox s refl r
  act-IsReady (complete i a) s r = finish_task-IsReady (get_elem? s.tasks i) i a s refl r
  act-IsReady (observe i bytes) s r =
      if-IsReady (ltb i s.observers) (on_message i bytes s) s
        (IsReady-Extends s (on_message i bytes s) r (on_message-Extends i bytes s)) r
  act-IsReady (elsewhere app) s r =
      IsReady-Extends s (record s { app = app }) r (elsewhere-Extends app s)
