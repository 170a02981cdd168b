-- ===== src/Control/Signalling/Lifetime.antt =====
-- A viewer's connection from the upgrade to its end.
use dun_tunel.Prelude.{
  ℕ, ◌≡◌, refl, ◌∙◌, Bool, true, false, List, [], ◌∷◌, ◌++◌, Option, none, some, Text, lookup,
  remove, lookup-insert_self, lookup-remove_self, Option-cases, inl, inr, sym, subst,
}
use dun_tunel.Prelude.Results.{Result, ok, err}
use dun_tunel.Sfu.Sessions.{
  RouterManager, SessionState, SfuError, ConsumerTransportInfo, create_consumer_transports,
  session_producer_info, remove_viewer,
}
use dun_tunel.Control.Signalling.Protocol.{EdgeCallbackEvent, viewer_connected, viewer_disconnected}
use dun_tunel.Control.Signalling.Connection.{Event, Turn, goes_on, ends, fails, run_loop}
use dun_tunel.Control.Signalling.Session.{
  Joining, Ending, served, refused, failed, Ended, ending_of, after_init, welcome, joined, joined,
  run_session, farewell, serve,
}

abbrev pub callbacks_of : Text → Text → Joining → Ending → List EdgeCallbackEvent
callbacks_of session_id viewer_id j served =
    viewer_connected session_id (some viewer_id) j.ip j.user_agent
    ∷ viewer_disconnected session_id (some viewer_id)
    ∷ []
callbacks_of session_id viewer_id j refused = []
callbacks_of session_id viewer_id j failed =
    viewer_connected session_id (some viewer_id) j.ip j.user_agent ∷ []

some-inj : {s t : SessionState} → some s ≡ some t → s ≡ t
some-inj h = cc

module _ (session_id viewer_id : Text) where
  ending_of-announces :
      (j : Joining) (b : Bool)
      → viewer_connected session_id (some viewer_id) j.ip j.user_agent
          ∷ farewell session_id viewer_id (ending_of b)
        ≡ callbacks_of session_id viewer_id j (ending_of b)
  ending_of-announces j true = refl
  ending_of-announces j false = refl

  remove_viewer-gone :
      (m : RouterManager) (s : SessionState)
      → lookup session_id (remove_viewer session_id viewer_id m).sessions ≡ some s
      → lookup viewer_id s.viewers ≡ none
  unfolding remove_viewer
  remove_viewer-gone m s h = elim (Option-cases (lookup session_id m.sessions)) [
    | inl n ↦ absurd (cc (n, rw (remove_viewer, n) at h))
    | inr (t, e) ↦
        let left : SessionState = record t { viewers = remove viewer_id t.viewers } in
        let stored : some left ≡ some s =
          sym (lookup-insert_self session_id left m.sessions) ∙ (rw (remove_viewer, e) at h) in
        subst (λ u. lookup viewer_id u.viewers ≡ none) (some-inj stored)
          (lookup-remove_self viewer_id t.viewers)
  ]

module _ {Caps : Type 0} (session_id viewer_id : Text) where
  abbrev Announces : Joining → Ended Caps → Type 0
  Announces j r =
      r.callbacks ++ farewell session_id viewer_id r.ending
      ≡ callbacks_of session_id viewer_id j r.ending

  after_init-Announces :
      (j : Joining) (events : List (Event Caps)) (t : Turn Caps)
      → Announces j (
          after_init session_id viewer_id events
            (viewer_connected session_id (some viewer_id) j.ip j.user_agent)
            t)
  after_init-Announces j events (goes_on c) =
      ending_of-announces session_id viewer_id j (run_loop session_id viewer_id events c).0
  after_init-Announces j events (ends c) = refl
  after_init-Announces j events (fails c) = refl

  joined-Announces :
      (j : Joining) (events : List (Event Caps))
      (r : Result SfuError (ConsumerTransportInfo × ConsumerTransportInfo) × RouterManager)
      → Announces j (joined session_id viewer_id j events r)
  joined-Announces j events (err e, m) = refl
  joined-Announces j events (ok infos, m) = from (session_producer_info session_id (j.meanwhile m))
    where
      from :
          (p : Result SfuError (ℕ × Option ℕ))
          → Announces j (welcome session_id viewer_id j events infos (j.meanwhile m) p)
      from (err e) = refl
      from (ok producers) = after_init-Announces j events _

  -- A connection that is refused sends no callback, one that is served sends that the viewer is there
  -- and that it is gone, and one that ends with an error only that it is there.
  pub serve-callbacks :
      (j : Joining) (events : List (Event Caps)) (at_last : RouterManager → RouterManager)
      (m : RouterManager)
      → (serve session_id viewer_id j events at_last m).1
        ≡ callbacks_of session_id viewer_id j (run_session session_id viewer_id j events m).ending
  unfolding serve run_session
  serve-callbacks j events at_last m =
      joined-Announces j events (create_consumer_transports j.recv j.send session_id viewer_id m)

  -- When the connection is over, whatever happened on it and elsewhere, the viewer is not in the
  -- session.
  pub serve-leaves :
      (j : Joining) (events : List (Event Caps)) (at_last : RouterManager → RouterManager)
      (m : RouterManager) (s : SessionState)
      → lookup session_id (serve session_id viewer_id j events at_last m).0.sessions ≡ some s
      → lookup viewer_id s.viewers ≡ none
  unfolding serve
  serve-leaves j events at_last m s h =
      remove_viewer-gone session_id viewer_id
        (at_last (run_session session_id viewer_id j events m).connection.sfu) s h
