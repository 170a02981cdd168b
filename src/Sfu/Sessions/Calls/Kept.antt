-- ===== src/Sfu/Sessions/Calls/Kept.antt =====
-- What `produce_input_data` leaves of a viewer: its consumers.
use dun_tunel.Prelude.{
  ℕ, ◌≡◌, refl, sym, ap, ◌∙◌, List, [], Option, none, some, Text, lookup, lookup-insert_self,
  Option-cases, inl, inr,
}
use dun_tunel.Prelude.Results.{
  Result, ok, err, ◌>>=◌, ok_or, ok_or-eq-ok, Holds, >>=-Holds, Result-cases,
}
use dun_tunel.Sfu.Sessions.{RouterManager, SessionState, ViewerSlot, SfuError, viewer_disappeared}
use dun_tunel.Sfu.Sessions.Input.{
  Begun, returns, produces_on, IdempotentProduce, return_existing, proceed, ensure_direct,
  ensure_bridge, produce_begin, produce_prepare, produce_finish, stored,
  idempotent_produce_decision,
}
use dun_tunel.Sfu.Sessions.Calls.{InputMedia, finish_input, begin_input, produce_input_data}

abbrev pub slot_consumers : Option ViewerSlot → List ℕ
slot_consumers none = []
slot_consumers (some slot) = slot.consumers

abbrev pub session_consumers : Text → Option SessionState → List ℕ
session_consumers viewer_id none = []
session_consumers viewer_id (some s) = slot_consumers (lookup viewer_id s.viewers)

-- The consumers that the media server has for a viewer.
abbrev pub consumers_of : Text → Text → RouterManager → List ℕ
consumers_of session_id viewer_id m = session_consumers viewer_id (lookup session_id m.sessions)

abbrev Keeps : Text → SessionState → SessionState → Type 0
Keeps viewer_id s t =
    slot_consumers (lookup viewer_id t.viewers) ≡ slot_consumers (lookup viewer_id s.viewers)

stored-Keeps :
    (d : IdempotentProduce) (producer consumer : ℕ) (viewer_id : Text) (slot : ViewerSlot)
    (s : SessionState)
    → lookup viewer_id s.viewers ≡ some slot
    → Keeps viewer_id s (stored d producer consumer viewer_id slot s).1
stored-Keeps (return_existing id) producer consumer viewer_id slot s h = refl
stored-Keeps proceed producer consumer viewer_id slot s h =
    ap slot_consumers (
      lookup-insert_self viewer_id
        (record slot { input_data_producer = some producer; input_data_consumer = some consumer })
        s.viewers)
    ∙ sym (ap slot_consumers h)

produce_finish-Keeps :
    (producer consumer : ℕ) (viewer_id : Text) (s : SessionState)
    → Holds (λ x. Keeps viewer_id s x.1) (produce_finish producer consumer viewer_id s)
unfolding produce_finish
produce_finish-Keeps producer consumer viewer_id s =
    >>=-Holds (λ x. Keeps viewer_id s x.1) (ok_or (lookup viewer_id s.viewers) viewer_disappeared) _
      (λ slot e.
        stored-Keeps (idempotent_produce_decision slot.input_data_producer) producer consumer
          viewer_id slot s (ok_or-eq-ok (lookup viewer_id s.viewers) _ e))

finish_input-Keeps :
    (media : InputMedia) (viewer_id : Text) (producer : ℕ) (s : SessionState)
    → Keeps viewer_id s (finish_input media viewer_id producer s).1
finish_input-Keeps media viewer_id producer s = elim (Option-cases media.consumer) [
  | inl e ↦ rw (e, finish_input) refl
  | inr (consumer, e) ↦ elim (Result-cases (produce_finish producer consumer viewer_id s)) [
    | inl (x, f) ↦
        let kept : Holds {E = SfuError} (λ y. Keeps viewer_id s y.1) (ok x) =
          rw f at (produce_finish-Keeps producer consumer viewer_id s) in
        rw (e, finish_input, f) kept
    | inr (x, f) ↦ rw (e, finish_input, f) refl
  ]
]

ensure_bridge-viewers :
    (present connected : Option ℕ) (s : SessionState)
    → (ensure_bridge present connected s).viewers ≡ s.viewers
ensure_bridge-viewers none connected s = refl
ensure_bridge-viewers (some b) connected s = refl

ensure_direct-viewers :
    (present created : Option ℕ) (s : SessionState)
    → Holds (λ t. t.viewers ≡ s.viewers) (ensure_direct present created s)
ensure_direct-viewers (some d) created s = refl
ensure_direct-viewers none none s = tt
ensure_direct-viewers none (some d) s = refl

produce_prepare-viewers :
    (created connected : Option ℕ) (s t : SessionState)
    → produce_prepare created connected s ≡ ok t
    → t.viewers ≡ s.viewers
unfolding produce_prepare
produce_prepare-viewers created connected s t h =
    from (ensure_direct s.direct_transport created s)
      (ensure_direct-viewers s.direct_transport created s) h
  where
    from :
        (r : Result SfuError SessionState)
        → Holds (λ u. u.viewers ≡ s.viewers) r
        → (r >>= λ u. ok (ensure_bridge u.input_bridge connected u)) ≡ ok t
        → t.viewers ≡ s.viewers
    from (ok u) k g =
        let same : ensure_bridge u.input_bridge connected u ≡ t = cc in
        ap (λ v. v.viewers) (sym same) ∙ ensure_bridge-viewers u.input_bridge connected u ∙ k
    from (err e) k g = cc

begin_input-Keeps :
    (media : InputMedia) (viewer_id : Text) (r : Result SfuError Begun) (s : SessionState)
    → Keeps viewer_id s (begin_input media viewer_id r s).1
begin_input-Keeps media viewer_id (err e) s = refl
begin_input-Keeps media viewer_id (ok (returns id)) s = refl
begin_input-Keeps media viewer_id (ok (produces_on t)) s = elim (Option-cases media.producer) [
  | inl e ↦ rw (e, begin_input) refl
  | inr (producer, e) ↦
      elim (Result-cases (produce_prepare media.direct_transport media.bridge s)) [
        | inl (u, f) ↦
            rw (e, begin_input, f)
              (finish_input-Keeps media viewer_id producer u
                ∙ ap (λ vs. slot_consumers (lookup viewer_id vs))
                    (produce_prepare-viewers media.direct_transport media.bridge s u f))
        | inr (x, f) ↦ rw (e, begin_input, f) refl
      ]
]

pub produce_input_data-consumers_of :
    (media : InputMedia) (session_id viewer_id : Text) (m : RouterManager)
    → consumers_of session_id viewer_id (produce_input_data media session_id viewer_id m).1
      ≡ consumers_of session_id viewer_id m
unfolding produce_input_data
produce_input_data-consumers_of media session_id viewer_id m =
    elim (Option-cases (lookup session_id m.sessions)) [
      | inl e ↦ rw (e, produce_input_data) (ap (session_consumers viewer_id) e)
      | inr (s, e) ↦
          let begun = produce_begin viewer_id s in
          rw (e, produce_input_data)
            (ap (session_consumers viewer_id)
                (lookup-insert_self session_id (begin_input media viewer_id begun s).1 m.sessions)
              ∙ begin_input-Keeps media viewer_id begun s)
    ]
