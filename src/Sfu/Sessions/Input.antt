-- ===== src/Sfu/Sessions/Input.antt =====
-- `produce_input_data` of crates/edge-sfu/src/router_manager.rs. It keeps the session's state at hand
-- and locks it three times, with mediasoup at work in between; each locked part is a function on that
-- state. What mediasoup creates is an argument, as elsewhere.
pub mod Race
use dun_tunel.Prelude.{ℕ, List, [], ◌∷◌, Option, none, some, Text, lookup, insert, remove}
use dun_tunel.Prelude.Results.{Result, ok, err, ◌>>=◌, ok_or}
use dun_tunel.Sfu.Sessions.{
  SessionState, ViewerSlot, SfuError, viewer_not_found, viewer_disappeared, send_transport_absent,
  media_failed,
}

pub data IdempotentProduce : Type 0 where
  return_existing : ℕ → IdempotentProduce
  proceed : IdempotentProduce

abbrev pub idempotent_produce_decision : Option ℕ → IdempotentProduce
idempotent_produce_decision (some id) = return_existing id
idempotent_produce_decision none = proceed

-- What the first part comes to: the id to return, or the transport to produce on.
pub data Begun : Type 0 where
  returns : ℕ → Begun
  produces_on : ℕ → Begun

abbrev pub begun : IdempotentProduce → Option ℕ → Result SfuError Begun
begun (return_existing id) send_transport = ok (returns id)
begun proceed send_transport =
    ok_or send_transport send_transport_absent >>= λ t. ok (produces_on t)

unfoldable pub produce_begin : Text → SessionState → Result SfuError Begun
produce_begin viewer_id s = ok_or (lookup viewer_id s.viewers) viewer_not_found >>= λ slot.
    begun (idempotent_produce_decision slot.input_data_producer) slot.send_transport

abbrev pub ensure_direct : Option ℕ → Option ℕ → SessionState → Result SfuError SessionState
ensure_direct (some present) created s = ok s
ensure_direct none none s = err media_failed
ensure_direct none (some dt) s = ok (record s { direct_transport = some dt })

-- `connected` is the bridge, where the endpoint is configured and the connection works.
abbrev pub ensure_bridge : Option ℕ → Option ℕ → SessionState → SessionState
ensure_bridge (some present) connected s = s
ensure_bridge none connected s = record s { input_bridge = connected }

unfoldable pub produce_prepare : Option ℕ → Option ℕ → SessionState → Result SfuError SessionState
produce_prepare created connected s = ensure_direct s.direct_transport created s >>= λ s'.
    ok (ensure_bridge s'.input_bridge connected s')

abbrev pub stored : IdempotentProduce → ℕ → ℕ → Text → ViewerSlot → SessionState → ℕ × SessionState
stored (return_existing id) producer consumer viewer_id slot s = (id, s)
stored proceed producer consumer viewer_id slot s = (
  producer,
  record s {
    viewers =
        insert viewer_id
          (record slot { input_data_producer = some producer; input_data_consumer = some consumer })
          s.viewers;
  },
)

-- The last part, for the producer and the consumer that were created meanwhile.
unfoldable pub produce_finish : ℕ → ℕ → Text → SessionState → Result SfuError (ℕ × SessionState)
produce_finish producer consumer viewer_id s =
    ok_or (lookup viewer_id s.viewers) viewer_disappeared >>= λ slot. ok (
      stored (idempotent_produce_decision slot.input_data_producer) producer consumer viewer_id slot
        s)

-- The state after a part: a part that fails leaves it as it was.
abbrev pub after_prepare : Result SfuError SessionState → SessionState → SessionState
after_prepare (ok s') s = s'
after_prepare (err e) s = s

abbrev pub after_finish : Result SfuError (ℕ × SessionState) → SessionState → SessionState
after_finish (ok (id, s')) s = s'
after_finish (err e) s = s
