-- ===== src/Sfu/Sessions/Input/Race.antt =====
-- Calls for one viewer that overlap.
use dun_tunel.Prelude.{
  ℕ, ◌≡◌, refl, false, List, [], ◌∷◌, Option, none, some, Text, text_eq, lookup, remove,
  lookup-insert, lookup-insert_self, lookup-remove, All, arith, Bool-cases, Option-cases, inl, inr,
  text_eq_iff,
}
use dun_tunel.Prelude.Results.{Result, ok, err, ◌>>=◌}
use dun_tunel.Sfu.Sessions.{SessionState, ViewerSlot, SfuError}
use dun_tunel.Sfu.Sessions.Input.{
  returns, produce_begin, produce_prepare, produce_finish, after_prepare, after_finish, stored,
  idempotent_produce_decision, ensure_direct, ensure_bridge,
}

-- The locked parts of any calls for any viewers, in the order in which they get the lock, and the
-- departure of a viewer.
pub data Part : Type 0 where
  prepares : Option ℕ → Option ℕ → Part
  finishes : ℕ → ℕ → Text → Part
  departs : Text → Part

unfoldable pub part : Part → SessionState → SessionState
part (prepares created connected) s = after_prepare (produce_prepare created connected s) s
part (finishes producer consumer viewer_id) s =
    after_finish (produce_finish producer consumer viewer_id s) s
part (departs viewer_id) s = record s { viewers = remove viewer_id s.viewers }

pub parts : List Part → SessionState → SessionState
parts [] s = s
parts (p ∷ ps) s = parts ps (part p s)

abbrev pub Stays : Text → Part → Type 0
Stays viewer_id (prepares created connected) = Unit {0}
Stays viewer_id (finishes producer consumer other) = Unit {0}
Stays viewer_id (departs other) = text_eq other viewer_id ≡ false

-- The viewer is there and has the input producer.
pub record HasProducer (viewer_id : Text) (producer : ℕ) (s : SessionState) : Type 0 where
  pub slot : ViewerSlot
  pub found : lookup viewer_id s.viewers ≡ some slot
  pub producer_lem : slot.input_data_producer ≡ some producer

ensure_direct-viewers :
    (present created : Option ℕ) (s : SessionState)
    → (after_prepare (ensure_direct present created s) s).viewers ≡ s.viewers
ensure_direct-viewers (some d) created s = refl
ensure_direct-viewers none none s = refl
ensure_direct-viewers none (some d) s = refl

ensure_bridge-viewers :
    (present connected : Option ℕ) (s : SessionState)
    → (ensure_bridge present connected s).viewers ≡ s.viewers
ensure_bridge-viewers (some b) connected s = refl
ensure_bridge-viewers none connected s = refl

prepare-viewers :
    (r : Result SfuError SessionState) (connected : Option ℕ) (s : SessionState)
    → (after_prepare (r >>= λ s'. ok (ensure_bridge s'.input_bridge connected s')) s).viewers
      ≡ (after_prepare r s).viewers
prepare-viewers (ok s') connected s = ensure_bridge-viewers s'.input_bridge connected s'
prepare-viewers (err e) connected s = refl

stored-HasProducer :
    (viewer_id other : Text) (p producer consumer : ℕ) (s : SessionState) (slot : ViewerSlot)
    (d : Option ℕ)
    → lookup other s.viewers ≡ some slot
    → slot.input_data_producer ≡ d
    → HasProducer viewer_id p s
    → HasProducer viewer_id p
        (stored (idempotent_produce_decision d) producer consumer other slot s).1
stored-HasProducer viewer_id other p producer consumer s slot (some id) found e h = h
stored-HasProducer viewer_id other p producer consumer s slot none found e h =
    elim (Bool-cases (text_eq other viewer_id)) [
      | inl y ↦
          let same : other ≡ viewer_id = (text_eq_iff other viewer_id).0 y in
          let slot_same : slot ≡ h.slot = cc (found, h.found, same) in
          absurd (cc (e, h.producer_lem, slot_same))
      | inr n ↦ record {
        slot = h.slot;
        found = rw (lookup-insert, n) h.found;
        producer_lem = h.producer_lem;
      }
    ]

finish-HasProducer :
    (viewer_id other : Text) (p producer consumer : ℕ) (s : SessionState)
    → HasProducer viewer_id p s
    → HasProducer viewer_id p (after_finish (produce_finish producer consumer other s) s)
unfolding produce_finish
finish-HasProducer viewer_id other p producer consumer s h =
    elim (Option-cases (lookup other s.viewers)) [
      | inl e ↦ rw (e, produce_finish) h
      | inr (slot, e) ↦
          rw (e, produce_finish)
            (stored-HasProducer viewer_id other p producer consumer s slot slot.input_data_producer
              e refl h)
    ]

stored-first :
    (viewer_id : Text) (p c : ℕ) (s : SessionState) (slot : ViewerSlot) (d : Option ℕ)
    → d ≡ none
    → HasProducer viewer_id p (stored (idempotent_produce_decision d) p c viewer_id slot s).1
stored-first viewer_id p c s slot (some id) e = absurd (ground arith)
stored-first viewer_id p c s slot none e = record {
  slot = record slot { input_data_producer = some p; input_data_consumer = some c };
  found = lookup-insert_self viewer_id _ s.viewers;
  producer_lem = refl;
}

first-HasProducer :
    (viewer_id : Text) (p c : ℕ) (s : SessionState) (slot : ViewerSlot)
    → lookup viewer_id s.viewers ≡ some slot
    → slot.input_data_producer ≡ none
    → HasProducer viewer_id p (part (finishes p c viewer_id) s)
unfolding part produce_finish
first-HasProducer viewer_id p c s slot found fresh =
    rw (found, part, produce_finish)
      (stored-first viewer_id p c s slot slot.input_data_producer fresh)

finish-present :
    (viewer_id : Text) (p p' c' : ℕ) (s : SessionState)
    → HasProducer viewer_id p s
    → produce_finish p' c' viewer_id s ≡ ok (p, s)
unfolding produce_finish
finish-present viewer_id p p' c' s h = rw (h.found, produce_finish) (rw h.producer_lem refl)

begin-present :
    (viewer_id : Text) (p : ℕ) (s : SessionState)
    → HasProducer viewer_id p s
    → produce_begin viewer_id s ≡ ok (returns p)
unfolding produce_begin
begin-present viewer_id p s h = rw (h.found, produce_begin) (rw h.producer_lem refl)

part-HasProducer :
    (viewer_id : Text) (p : ℕ) (q : Part) (s : SessionState)
    → Stays viewer_id q
    → HasProducer viewer_id p s
    → HasProducer viewer_id p (part q s)
unfolding part produce_prepare
part-HasProducer viewer_id p (prepares created connected) s st h = record {
  slot = h.slot;
  found =
      rw
        (
          prepare-viewers (ensure_direct s.direct_transport created s) connected s,
          ensure_direct-viewers s.direct_transport created s,
        )
        h.found;
  producer_lem = h.producer_lem;
}
part-HasProducer viewer_id p (finishes producer consumer other) s st h =
    finish-HasProducer viewer_id other p producer consumer s h
part-HasProducer viewer_id p (departs other) s st h = record {
  slot = h.slot;
  found = rw (lookup-remove, st) h.found;
  producer_lem = h.producer_lem;
}

parts-HasProducer :
    (viewer_id : Text) (p : ℕ) (qs : List Part) (s : SessionState)
    → All (Stays viewer_id) qs
    → HasProducer viewer_id p s
    → HasProducer viewer_id p (parts qs s)
unfolding parts
parts-HasProducer viewer_id p [] s st h = h
parts-HasProducer viewer_id p (q ∷ qs) s st h =
    parts-HasProducer viewer_id p qs (part q s) st.1 (part-HasProducer viewer_id p q s st.0 h)

-- Let a call for a viewer without an input producer end with the producer `p`. As long as the viewer
-- stays, whatever calls overlap with it or follow it: every other call for that viewer that ends
-- returns `p` and changes nothing, and every call that begins returns `p` at once.
pub produce-first_wins :
    (viewer_id : Text) (p c : ℕ) (s : SessionState) (slot : ViewerSlot) (qs : List Part) (p' c' : ℕ)
    → lookup viewer_id s.viewers ≡ some slot
    → slot.input_data_producer ≡ none
    → All (Stays viewer_id) qs
    → let later = parts qs (part (finishes p c viewer_id) s) in
      (produce_finish p' c' viewer_id later ≡ ok (p, later))
      × (produce_begin viewer_id later ≡ ok (returns p))
produce-first_wins viewer_id p c s slot qs p' c' found fresh st =
    let first = part (finishes p c viewer_id) s in
    let h =
      parts-HasProducer viewer_id p qs first st
        (first-HasProducer viewer_id p c s slot found fresh) in
    (
      finish-present viewer_id p p' c' (parts qs first) h,
      begin-present viewer_id p (parts qs first) h,
    )
