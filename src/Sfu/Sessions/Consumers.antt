-- ===== src/Sfu/Sessions/Consumers.antt =====
-- The consumers of a viewer, in crates/edge-sfu/src/router_manager.rs. `consume` lets the session's
-- lock go while mediasoup works, so its two halves are operations of their own.
use dun_tunel.Prelude.{
  ℕ, Bool, true, false, List, [], ◌∷◌, ◌++◌, Option, none, some, Text, ltb, ◌==◌, if◌then◌else◌,
  lookup, insert,
}
use dun_tunel.Prelude.Results.{Result, ok, err, ◌>>=◌, ok_or}
use dun_tunel.Sfu.Sessions.{
  RouterManager, SessionState, ViewerSlot, SfuError, session_not_found, viewer_not_found,
  viewer_disappeared, consumer_not_found, invalid_spatial_layer, no_temporal_layers, media_failed,
  commit,
}

pub record ConsumedInfo : Type 0 where
  pub id : ℕ
  pub producer_id : ℕ
  pub paused : Bool

-- The viewer's slot in a session that holds both.
abbrev pub find_viewer : Text → Text → RouterManager → Result SfuError (SessionState × ViewerSlot)
find_viewer session_id viewer_id m = ok_or (lookup session_id m.sessions) session_not_found >>= λ s.
    ok_or (lookup viewer_id s.viewers) viewer_not_found >>= λ slot. ok (s, slot)

-- The first half of `consume`: the transport on which to consume, before the lock is let go.
unfoldable pub consume_begin : Text → Text → RouterManager → Result SfuError ℕ
consume_begin session_id viewer_id m =
    find_viewer session_id viewer_id m >>= λ (s, slot). ok slot.recv_transport

abbrev pub push_consumer : ℕ → Text → ViewerSlot → SessionState → SessionState
push_consumer consumer viewer_id slot s = record s {
  viewers =
      insert viewer_id (record slot { consumers = slot.consumers ++ consumer ∷ [] }) s.viewers;
}

-- The second half, after mediasoup has created the consumer or failed to.
unfoldable pub consume_finish :
    Option ℕ → ℕ → Text → Text → RouterManager → Result SfuError ConsumedInfo × RouterManager
consume_finish created producer_id session_id viewer_id m =
    commit session_id
      (ok_or created media_failed >>= λ consumer.
        ok_or (lookup session_id m.sessions) session_not_found >>= λ s.
        ok_or (lookup viewer_id s.viewers) viewer_disappeared >>= λ slot. ok (
          record { id = consumer; producer_id = producer_id; paused = true },
          push_consumer consumer viewer_id slot s,
        ))
      m

unfoldable pub has_consumer : ℕ → List ℕ → Bool
has_consumer id [] = false
has_consumer id (c ∷ cs) = let rest = has_consumer id cs in if c == id then true else rest

-- The consumer on which `resume_consumer` and `set_preferred_layers` act, or the error.
abbrev pub find_consumer : ℕ → Text → Text → RouterManager → Result SfuError ℕ
find_consumer consumer_id session_id viewer_id m =
    find_viewer session_id viewer_id m >>= λ (s, slot).
    if has_consumer consumer_id slot.consumers then ok consumer_id else err consumer_not_found

unfoldable pub resume_consumer : Bool → ℕ → Text → Text → RouterManager → Result SfuError Unit
resume_consumer works consumer_id session_id viewer_id m =
    find_consumer consumer_id session_id viewer_id m >>= λ c.
    if works then ok tt else err media_failed

unfoldable pub set_preferred_layers :
    Bool → ℕ → ℕ → Option ℕ → Text → Text → RouterManager → Result SfuError Unit
set_preferred_layers works consumer_id spatial_layer (some t) session_id viewer_id m =
    if ltb 2 spatial_layer then err invalid_spatial_layer else err no_temporal_layers
set_preferred_layers works consumer_id spatial_layer none session_id viewer_id m =
    if ltb 2 spatial_layer
    then err invalid_spatial_layer
    else (find_consumer consumer_id session_id viewer_id m >>= λ c.
        if works then ok tt else err media_failed)
