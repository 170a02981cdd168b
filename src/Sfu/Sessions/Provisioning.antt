-- ===== src/Sfu/Sessions/Provisioning.antt =====
-- Provisioning, joining and closing a session.
use dun_tunel.Prelude.{
  ℕ, ◌≡◌, refl, [], Option, some, Text, lookup, Option-cases, Bool-cases, leb, length, subst, inl,
  inr, lookup-insert_self, lookup-remove_self,
}
use dun_tunel.Prelude.Results.{Result, ok, err, ◌>>=◌, ok_or, Holds, >>=-Holds}
use dun_tunel.Sfu.Sessions.{
  RouterManager, SessionState, ViewerSlot, new_slot, viewer_cap_per_session, SfuError, Pipeline,
  ProvisionedRouter, ConsumerTransportInfo, provision_session, close_session,
  create_consumer_transports, add_viewer, commit, install, build_session, snapshot,
  session_producer_info, pick_worker_index, session_not_found, media_failed,
}
use dun_tunel.Sfu.Sessions.Consumers.{consume_begin}

build_session-snapshot :
    (pipeline : Pipeline) (session_id : Text) (index : ℕ)
    → Holds (λ x. snapshot x.0 ≡ ok x.1) (build_session pipeline session_id index)
unfolding build_session snapshot
build_session-snapshot pipeline session_id index =
    >>=-Holds _ (ok_or pipeline.router media_failed) _ (λ router e1.
      >>=-Holds _ (ok_or pipeline.plain_transport media_failed) _ (λ transport e2.
        >>=-Holds _ (ok_or pipeline.producer media_failed) _ (λ producer e3.
          >>=-Holds _ (ok_or pipeline.audio_producer media_failed) _ (λ audio e4. refl))))

install-snapshot :
    (session_id : Text) (r : Result SfuError (SessionState × ProvisionedRouter)) (m : RouterManager)
    (p : ProvisionedRouter)
    → Holds (λ x. snapshot x.0 ≡ ok x.1) r
    → (install session_id r m).0 ≡ ok p
    → (s : SessionState) × (lookup session_id (install session_id r m).1.sessions ≡ some s)
      × (snapshot s ≡ ok p)
unfolding install
install-snapshot session_id (ok (s, q)) m p h e =
    (s, lookup-insert_self session_id s m.sessions, cc)
install-snapshot session_id (err x) m p h e = cc

provision-snapshot :
    (pipeline : Pipeline) (session_id : Text) (m : RouterManager) (p : ProvisionedRouter)
    → (provision_session pipeline session_id m).0 ≡ ok p
    → (s : SessionState) × (lookup session_id (provision_session pipeline session_id m).1.sessions
        ≡ some s)
      × (snapshot s ≡ ok p)
unfolding provision_session pick_worker_index
provision-snapshot pipeline session_id m p h = elim (Option-cases (lookup session_id m.sessions)) [
  | inl e ↦
      rw (e, provision_session)
        (install-snapshot session_id _ _ p (build_session-snapshot pipeline session_id _)
          (rw (e, provision_session) at h))
  | inr (s, e) ↦ rw (e, provision_session) (s, e, (rw (e, provision_session) at h))
]

provision-present :
    (again : Pipeline) (session_id : Text) (m : RouterManager) (s : SessionState)
    → lookup session_id m.sessions ≡ some s
    → provision_session again session_id m ≡ (snapshot s, m)
unfolding provision_session
provision-present again session_id m s found = rw (found, provision_session) refl

-- A second provisioning after one that returned `p` returns `p` again and changes nothing, whatever
-- mediasoup would return to it.
pub provision-provision :
    (pipeline again : Pipeline) (session_id : Text) (m : RouterManager) (p : ProvisionedRouter)
    → (provision_session pipeline session_id m).0 ≡ ok p
    → provision_session again session_id (provision_session pipeline session_id m).1
      ≡ (ok p, (provision_session pipeline session_id m).1)
provision-provision pipeline again session_id m p h =
    let (s, found, snapped) = provision-snapshot pipeline session_id m p h in
    rw
      (
        provision-present again session_id (provision_session pipeline session_id m).1 s found,
        snapped,
      )
      refl

add_viewer-slot :
    (recv send : Option ℕ) (viewer_id : Text) (s : SessionState)
    → Holds
        (λ x.
          (slot : ViewerSlot) × (lookup viewer_id x.1.viewers ≡ some slot)
          × (slot.recv_transport ≡ x.0.0.transport_id)
          × (slot.consumers ≡ []))
        (add_viewer recv send viewer_id s)
unfolding add_viewer
add_viewer-slot recv send viewer_id s =
    elim (Bool-cases (leb viewer_cap_per_session (length s.viewers))) [
      | inl y ↦ rw y tt
      | inr n ↦ rw n (
          >>=-Holds _ (ok_or recv media_failed) _ (λ r e1.
            >>=-Holds _ (ok_or send media_failed) _ (λ t e2. (
              new_slot viewer_id r t,
              lookup-insert_self viewer_id (new_slot viewer_id r t) s.viewers,
              refl,
              refl,
            ))))
    ]

committed :
    {A : Type 0} (session_id : Text) (r : Result SfuError (A × SessionState)) (m : RouterManager)
    (P : A × SessionState → Type 0) {a : A}
    → Holds P r
    → (commit session_id r m).0 ≡ ok a
    → (s : SessionState) × (lookup session_id (commit session_id r m).1.sessions ≡ some s)
      × P (a, s)
committed session_id (ok (b, s)) m P {a} h e =
    let same : b ≡ a = cc in
    (s, lookup-insert_self session_id s m.sessions, subst (λ x. P (x, s)) same h)
committed session_id (err x) m P h e = cc

-- After a join that returned the transports `recv` and `send`, `consume` for that viewer uses
-- `recv`. After the session is closed, it finds no session, and neither does a request for the
-- producers.
pub create-consume :
    (recv_created send_created : Option ℕ) (session_id viewer_id : Text) (m : RouterManager)
    (recv send : ConsumerTransportInfo)
    → (create_consumer_transports recv_created send_created session_id viewer_id m).0
      ≡ ok (recv, send)
    → let joined =
        (create_consumer_transports recv_created send_created session_id viewer_id m).1 in
      (consume_begin session_id viewer_id joined ≡ ok recv.transport_id)
      × (consume_begin session_id viewer_id (close_session session_id joined)
          ≡ err session_not_found)
      × (session_producer_info session_id (close_session session_id joined) ≡ err session_not_found)
unfolding create_consumer_transports consume_begin close_session session_producer_info
create-consume recv_created send_created session_id viewer_id m recv send h =
    let r = ok_or (lookup session_id m.sessions) session_not_found >>= λ s.
    add_viewer recv_created send_created viewer_id s in
    let joined = (commit session_id r m).1 in
    let (s, found, (slot, in_slot, transport, _)) =
      committed session_id r m _
        (>>=-Holds _ (ok_or (lookup session_id m.sessions) session_not_found) _
          (λ s e. add_viewer-slot recv_created send_created viewer_id s))
        h in
    (
      rw (found, in_slot, transport) refl,
      rw (lookup-remove_self session_id joined.sessions) refl,
      rw (lookup-remove_self session_id joined.sessions) refl,
    )
