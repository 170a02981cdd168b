-- ===== src/Sfu/Sessions/Viewers.antt =====
-- How many viewers a session has, over any sequence of operations.
use dun_tunel.Prelude.{
  ℕ, ◌≤◌, ◌≡◌, ◌↔◌, refl, false, List, [], ◌∷◌, ◌++◌, Option, none, some, Text, length, All,
  All-insert, All-remove, All-lookup, lookup, length-insert-le, length-insert_present,
  length-remove-le, leb, ◌==◌, subst, arith, Bool-cases, Option-cases, inl, inr,
}
use dun_tunel.Prelude.Results.{Result, ok, err, ok_or, >>=-Holds, Holds, ok_or-eq-ok}
use dun_tunel.Sfu.Sessions.{
  RouterManager, SessionState, SfuError, Pipeline, ProvisionedRouter, viewer_cap_per_session,
  can_accept_viewer, viewer_count, provision_session, close_session, create_consumer_transports,
  remove_viewer, add_viewer, commit, store, install, build_session, pick_worker_index,
  viewer_cap_reached, media_failed, session_not_found, viewer_disappeared, new_with_listen,
  new_slot,
}
use dun_tunel.Sfu.Sessions.Consumers.{consume_finish}
use dun_tunel.Sfu.Sessions.Source.{Recreation, reprovision_plain_producer, recreated, source_after}

-- An operation with what mediasoup returns to it.
pub data Operation : Type 0 where
  provisions : Pipeline → Text → Operation
  closes : Text → Operation
  joins : Option ℕ → Option ℕ → Text → Text → Operation
  leaves : Text → Text → Operation
  consumes : Option ℕ → ℕ → Text → Text → Operation
  reprovisions : Recreation → Text → Operation

unfoldable pub perform : Operation → RouterManager → RouterManager
perform (provisions pipeline session_id) m = (provision_session pipeline session_id m).1
perform (closes session_id) m = close_session session_id m
perform (joins recv send session_id viewer_id) m =
    (create_consumer_transports recv send session_id viewer_id m).1
perform (leaves session_id viewer_id) m = remove_viewer session_id viewer_id m
perform (consumes created producer_id session_id viewer_id) m =
    (consume_finish created producer_id session_id viewer_id m).1
perform (reprovisions r session_id) m = (reprovision_plain_producer r session_id m).1

unfoldable pub perform_all : List Operation → RouterManager → RouterManager
perform_all [] m = m
perform_all (o ∷ os) m = perform_all os (perform o m)

abbrev IsWithinCap : SessionState → Type 0
IsWithinCap s = length s.viewers ≤ viewer_cap_per_session

abbrev AreWithinCap : RouterManager → Type 0
AreWithinCap m = All (λ e. IsWithinCap e.1) m.sessions

store-AreWithinCap :
    (session_id : Text) (s : SessionState) (m : RouterManager)
    → IsWithinCap s
    → AreWithinCap m
    → AreWithinCap (store session_id s m)
store-AreWithinCap session_id s m c h =
    All-insert (λ e. IsWithinCap e.1) session_id s m.sessions c h

found-IsWithinCap :
    (session_id : Text) (m : RouterManager) {s : SessionState}
    → AreWithinCap m
    → lookup session_id m.sessions ≡ some s
    → IsWithinCap s
found-IsWithinCap session_id m h e = All-lookup (λ x. IsWithinCap x.1) session_id m.sessions h e

commit-AreWithinCap :
    {A : Type 0} (session_id : Text) (r : Result SfuError (A × SessionState)) (m : RouterManager)
    → Holds (λ x. IsWithinCap x.1) r
    → AreWithinCap m
    → AreWithinCap (commit session_id r m).1
commit-AreWithinCap session_id (ok (a, s)) m c h = store-AreWithinCap session_id s m c h
commit-AreWithinCap session_id (err e) m c h = h

install-AreWithinCap :
    (session_id : Text) (r : Result SfuError (SessionState × ProvisionedRouter)) (m : RouterManager)
    → Holds (λ x. IsWithinCap x.0) r
    → AreWithinCap m
    → AreWithinCap (install session_id r m).1
unfolding install
install-AreWithinCap session_id (ok (s, p)) m c h = store-AreWithinCap session_id s m c h
install-AreWithinCap session_id (err e) m c h = h

build_session-IsWithinCap :
    (pipeline : Pipeline) (session_id : Text) (index : ℕ)
    → Holds (λ x. IsWithinCap x.0) (build_session pipeline session_id index)
unfolding build_session
build_session-IsWithinCap pipeline session_id index =
    >>=-Holds _ (ok_or pipeline.router media_failed) _ (λ router e1.
      >>=-Holds _ (ok_or pipeline.plain_transport media_failed) _ (λ transport e2.
        >>=-Holds _ (ok_or pipeline.producer media_failed) _ (λ producer e3.
          >>=-Holds _ (ok_or pipeline.audio_producer media_failed) _ (λ audio e4. omega arith))))

add_viewer-IsWithinCap :
    (recv send : Option ℕ) (viewer_id : Text) (s : SessionState)
    → Holds (λ x. IsWithinCap x.1) (add_viewer recv send viewer_id s)
unfolding add_viewer
add_viewer-IsWithinCap recv send viewer_id s =
    elim (Bool-cases (leb viewer_cap_per_session (length s.viewers))) [
      | inl y ↦ rw y tt
      | inr n ↦ rw n (
          >>=-Holds _ (ok_or recv media_failed) _ (λ r e1.
            >>=-Holds _ (ok_or send media_failed) _ (λ t e2.
              ground (arith, n, length-insert-le viewer_id (new_slot viewer_id r t) s.viewers))))
    ]

provision-AreWithinCap :
    (pipeline : Pipeline) (session_id : Text) (m : RouterManager)
    → AreWithinCap m
    → AreWithinCap (provision_session pipeline session_id m).1
unfolding provision_session pick_worker_index
provision-AreWithinCap pipeline session_id m h =
    elim (Option-cases (lookup session_id m.sessions)) [
      | inl e ↦
          rw (e, provision_session)
            (install-AreWithinCap session_id _ _ (build_session-IsWithinCap pipeline session_id _)
              h)
      | inr (s, e) ↦ rw (e, provision_session) h
    ]

leave-AreWithinCap :
    (session_id viewer_id : Text) (m : RouterManager)
    → AreWithinCap m
    → AreWithinCap (remove_viewer session_id viewer_id m)
unfolding remove_viewer
leave-AreWithinCap session_id viewer_id m h = elim (Option-cases (lookup session_id m.sessions)) [
  | inl e ↦ rw (e, remove_viewer) h
  | inr (s, e) ↦
      rw (e, remove_viewer)
        (store-AreWithinCap session_id _ m
          (omega (arith, length-remove-le viewer_id s.viewers, found-IsWithinCap session_id m h e))
          h)
]

consume-AreWithinCap :
    (created : Option ℕ) (producer_id : ℕ) (session_id viewer_id : Text) (m : RouterManager)
    → AreWithinCap m
    → AreWithinCap (consume_finish created producer_id session_id viewer_id m).1
unfolding consume_finish
consume-AreWithinCap created producer_id session_id viewer_id m h =
    commit-AreWithinCap session_id _ m
      (>>=-Holds _ (ok_or created media_failed) _ (λ consumer e1.
        >>=-Holds _ (ok_or (lookup session_id m.sessions) session_not_found) _ (λ s e2.
          >>=-Holds _ (ok_or (lookup viewer_id s.viewers) viewer_disappeared) _ (λ slot e3. omega (
            arith,
            length-insert_present viewer_id
                (record slot { consumers = slot.consumers ++ consumer ∷ [] }) s.viewers
                (ok_or-eq-ok _ _ e3),
            found-IsWithinCap session_id m h (ok_or-eq-ok _ _ e2),
          )))))
      h

source_after-viewers : (r : _) (s : SessionState) → (source_after r s).viewers ≡ s.viewers
unfolding source_after
source_after-viewers (err e) s = refl
source_after-viewers (ok (t, (producer, audio))) s = refl

reprovision-AreWithinCap :
    (r : Recreation) (session_id : Text) (m : RouterManager)
    → AreWithinCap m
    → AreWithinCap (reprovision_plain_producer r session_id m).1
unfolding reprovision_plain_producer
reprovision-AreWithinCap r session_id m h = elim (Option-cases (lookup session_id m.sessions)) [
  | inl e ↦ rw (e, reprovision_plain_producer) h
  | inr (s, e) ↦
      rw (e, reprovision_plain_producer)
        (store-AreWithinCap session_id _ m
          (rw (source_after-viewers (recreated r) s) (found-IsWithinCap session_id m h e)) h)
]

perform-AreWithinCap :
    (o : Operation) (m : RouterManager) → AreWithinCap m → AreWithinCap (perform o m)
unfolding perform close_session create_consumer_transports
perform-AreWithinCap (provisions pipeline session_id) m h =
    provision-AreWithinCap pipeline session_id m h
perform-AreWithinCap (closes session_id) m h =
    All-remove (λ e. IsWithinCap e.1) session_id m.sessions h
perform-AreWithinCap (joins recv send session_id viewer_id) m h =
    commit-AreWithinCap session_id _ m
      (>>=-Holds _ (ok_or (lookup session_id m.sessions) session_not_found) _
        (λ s e. add_viewer-IsWithinCap recv send viewer_id s))
      h
perform-AreWithinCap (leaves session_id viewer_id) m h = leave-AreWithinCap session_id viewer_id m h
perform-AreWithinCap (consumes created producer_id session_id viewer_id) m h =
    consume-AreWithinCap created producer_id session_id viewer_id m h
perform-AreWithinCap (reprovisions r session_id) m h = reprovision-AreWithinCap r session_id m h

perform_all-AreWithinCap :
    (os : List Operation) (m : RouterManager) → AreWithinCap m → AreWithinCap (perform_all os m)
unfolding perform_all
perform_all-AreWithinCap [] m h = h
perform_all-AreWithinCap (o ∷ os) m h =
    perform_all-AreWithinCap os (perform o m) (perform-AreWithinCap o m h)

new_with_listen-AreWithinCap :
    (workers : ℕ) {m : RouterManager} → new_with_listen workers ≡ some m → AreWithinCap m
unfolding new_with_listen
new_with_listen-AreWithinCap workers {m} h = elim (Bool-cases (workers == 0)) [
  | inl y ↦ absurd (ground (arith, rw y at h))
  | inr n ↦
      let made : record { workers = workers; worker_cursor = 0; sessions = [] } ≡ m =
        cc (rw n at h) in
      subst AreWithinCap made tt
]

-- After any operations on a new manager of any number of workers, whatever mediasoup returns to
-- them, no session has more than 30 viewers.
pub viewer_count-capped :
    (workers : ℕ) (m : RouterManager) (os : List Operation) (session_id : Text)
    → new_with_listen workers ≡ some m
    → viewer_count session_id (perform_all os m) ≤ viewer_cap_per_session
unfolding viewer_count
viewer_count-capped workers m os session_id h =
    let later = perform_all os m in
    let capped = perform_all-AreWithinCap os m (new_with_listen-AreWithinCap workers h) in
    elim (Option-cases (lookup session_id later.sessions)) [
      | inl e ↦ rw (e, viewer_count) (omega arith)
      | inr (s, e) ↦ rw (e, viewer_count) (found-IsWithinCap session_id later capped e)
    ]

commit-err :
    {A : Type 0} (session_id : Text) (r : Result SfuError (A × SessionState)) (m : RouterManager)
    (e : SfuError)
    → ((commit session_id r m).0 ≡ err e) ↔ (r ≡ err e)
commit-err session_id (ok (a, s)) m e = (λ h. cc, λ h. cc)
commit-err session_id (err x) m e = (λ h. cc, λ h. cc)

add_viewer-refuses_iff :
    (recv send : Option ℕ) (viewer_id : Text) (s : SessionState)
    → (add_viewer recv send viewer_id s ≡ err viewer_cap_reached)
      ↔ (can_accept_viewer (length s.viewers) ≡ false)
unfolding add_viewer can_accept_viewer
add_viewer-refuses_iff none send viewer_id s = ground arith
add_viewer-refuses_iff (some r) none viewer_id s = ground arith
add_viewer-refuses_iff (some r) (some t) viewer_id s = ground arith

-- A session that exists refuses a viewer for the cap exactly when `can_accept_viewer` is false of
-- its viewer count.
pub create-refuses_iff :
    (recv send : Option ℕ) (session_id viewer_id : Text) (m : RouterManager) (s : SessionState)
    → lookup session_id m.sessions ≡ some s
    → ((create_consumer_transports recv send session_id viewer_id m).0 ≡ err viewer_cap_reached)
      ↔ (can_accept_viewer (viewer_count session_id m) ≡ false)
unfolding viewer_count create_consumer_transports
create-refuses_iff recv send session_id viewer_id m s found =
    let joined = add_viewer recv send viewer_id s in
    let (a, b) = commit-err session_id joined m viewer_cap_reached in
    let (c, d) = add_viewer-refuses_iff recv send viewer_id s in
    rw (found, create_consumer_transports, viewer_count) (λ h. c (a h), λ h. b (d h))
