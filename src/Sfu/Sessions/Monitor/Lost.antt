-- ===== src/Sfu/Sessions/Monitor/Lost.antt =====
-- A session whose source could not be recreated.
use dun_tunel.Prelude.{
  ℕ, ◌≡◌, refl, false, subst, List, [], ◌∷◌, Option, none, some, Text, lookup, arith, Bool-cases,
  Option-cases, inl, inr, text_eq, text_eq_iff, lookup-insert, lookup-insert_self,
}
use dun_tunel.Prelude.Results.{err, Result-cases}
use dun_tunel.Sfu.Sessions.{
  RouterManager, SessionState, SfuError, Pipeline, provision_session, session_producer_info, panics,
  plain_producer_absent, store, snapshot,
}
use dun_tunel.Sfu.Sessions.Source.{
  Recreation, reprovision_plain_producer, recreated, source_after, without_source,
}
use dun_tunel.Sfu.Sessions.Monitor.{
  Visit, Monitor, ProducerStat, ProducerSample, visit, visit_sample, watch, note_idle, is_starved,
  entry_of, producer_sample, visit_all,
}

-- The session is there and has no video producer.
pub record IsSourceless (session_id : Text) (m : RouterManager) : Type 0 where
  pub state : SessionState
  pub found : lookup session_id m.sessions ≡ some state
  pub sourceless : state.plain_producer ≡ none

producer_sample-sourceless :
    (stats : Option (List ProducerStat)) (session_id : Text) (m : RouterManager)
    → IsSourceless session_id m
    → producer_sample stats session_id m ≡ none
unfolding producer_sample
producer_sample-sourceless stats session_id m s = rw (s.found, producer_sample, s.sourceless) refl

store-IsSourceless :
    (session_id other : Text) (s : SessionState) (m : RouterManager)
    → text_eq other session_id ≡ false
    → IsSourceless session_id m
    → IsSourceless session_id (store other s m)
store-IsSourceless session_id other s m n h = record {
  state = h.state;
  found = rw (lookup-insert, n) h.found;
  sourceless = h.sourceless;
}

reprovision-IsSourceless :
    (session_id other : Text) (r : Recreation) (m : RouterManager)
    → text_eq other session_id ≡ false
    → IsSourceless session_id m
    → IsSourceless session_id (reprovision_plain_producer r other m).1
unfolding reprovision_plain_producer
reprovision-IsSourceless session_id other r m n h = elim (Option-cases (lookup other m.sessions)) [
  | inl e ↦ rw (e, reprovision_plain_producer) h
  | inr (s, e) ↦
      rw (e, reprovision_plain_producer)
        (store-IsSourceless session_id other (source_after (recreated r) s) m n h)
]

watch-IsSourceless :
    (v : Visit) (session_id other : Text) (sample : ProducerSample) (m : Monitor)
    → text_eq other session_id ≡ false
    → IsSourceless session_id m.manager
    → IsSourceless session_id (watch v other sample m).manager
unfolding watch
watch-IsSourceless v session_id other sample m n h =
    elim (Bool-cases
      (is_starved v.now sample.byte_count (entry_of v.now sample (lookup other m.activity)))) [
        | inl y ↦ rw y (reprovision-IsSourceless session_id other v.recreation m.manager n h)
        | inr z ↦ rw z h
      ]

note_idle-IsSourceless :
    (now bytes : ℕ) (session_id other : Text) (found : Option _) (m : Monitor)
    → IsSourceless session_id m.manager
    → IsSourceless session_id (note_idle now bytes other found m).manager
note_idle-IsSourceless now bytes session_id other none m h = h
note_idle-IsSourceless now bytes session_id other (some e) m h = h

sampled-IsSourceless :
    (v : Visit) (session_id other : Text) (found : Option ProducerSample) (m : Monitor)
    → text_eq other session_id ≡ false
    → IsSourceless session_id m.manager
    → IsSourceless session_id (visit_sample v other found m).manager
sampled-IsSourceless v session_id other none m n h = h
sampled-IsSourceless v session_id other (some sample) m n h = elim (Bool-cases sample.has_viewers) [
  | inl y ↦ simp y (watch-IsSourceless v session_id other sample m n h)
  | inr z ↦ simp z (
      note_idle-IsSourceless v.now sample.byte_count session_id other (lookup other m.activity) m h)
]

visit-IsSourceless :
    (v : Visit) (session_id other : Text) (m : Monitor)
    → IsSourceless session_id m.manager
    → IsSourceless session_id (visit v other m).manager
unfolding visit
visit-IsSourceless v session_id other m h = elim (Bool-cases (text_eq other session_id)) [
  | inl y ↦
      let same : session_id ≡ other = ground (arith, (text_eq_iff other session_id).0 y) in
      let at_other = subst (λ k. IsSourceless k m.manager) same h in
      rw (producer_sample-sourceless v.stats other m.manager at_other) h
  | inr n ↦ sampled-IsSourceless v session_id other (producer_sample v.stats other m.manager) m n h
]

visit_all-IsSourceless :
    (visits : Text → Visit) (session_id : Text) (sids : List Text) (m : Monitor)
    → IsSourceless session_id m.manager
    → IsSourceless session_id (visit_all visits sids m).manager
unfolding visit_all
visit_all-IsSourceless visits session_id [] m h = h
visit_all-IsSourceless visits session_id (sid ∷ sids) m h =
    visit_all-IsSourceless visits session_id sids (visit (visits sid) sid m)
      (visit-IsSourceless (visits sid) session_id sid m h)

failed-IsSourceless :
    (r : Recreation) (session_id : Text) (m : RouterManager) (s : SessionState) {e : SfuError}
    → lookup session_id m.sessions ≡ some s
    → (reprovision_plain_producer r session_id m).0 ≡ err e
    → IsSourceless session_id (reprovision_plain_producer r session_id m).1
unfolding reprovision_plain_producer source_after
failed-IsSourceless r session_id m s found failed = elim (Result-cases (recreated r)) [
  | inl (made, e) ↦ absurd (ground (arith, rw (found, reprovision_plain_producer, e) at failed))
  | inr (x, e) ↦
      rw (found, reprovision_plain_producer, e)
        (record {
          state = without_source s;
          found = lookup-insert_self session_id (without_source s) m.sessions;
          sourceless = refl;
        })
]

-- Once recreating the source of a session has failed, no visits of the monitor bring it back,
-- whatever they find: after them the session still has no video producer to report, and
-- provisioning it again panics.
pub reprovision-never_retried :
    (r : Recreation) (session_id : Text) (m : Monitor) (s : SessionState) (e : SfuError)
    → lookup session_id m.manager.sessions ≡ some s
    → (reprovision_plain_producer r session_id m.manager).0 ≡ err e
    → (visits : Text → Visit) (sids : List Text) (pipeline : Pipeline)
    → let lost = record m { manager = (reprovision_plain_producer r session_id m.manager).1 } in
      let later = (visit_all visits sids lost).manager in
      (session_producer_info session_id later ≡ err plain_producer_absent)
      × (provision_session pipeline session_id later ≡ (err panics, later))
unfolding session_producer_info provision_session snapshot
reprovision-never_retried r session_id m s e found failed visits sids pipeline =
    let h = failed-IsSourceless r session_id m.manager s found failed in
    let h' =
      visit_all-IsSourceless visits session_id sids
        (record m { manager = (reprovision_plain_producer r session_id m.manager).1 }) h in
    (
      rw (h'.found, session_producer_info, h'.sourceless) refl,
      rw (h'.found, provision_session, snapshot, h'.sourceless) refl,
    )
