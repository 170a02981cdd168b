-- ===== src/Sfu/Sessions/Calls.antt =====
-- What the signalling and the bandwidth reporter call, in crates/edge-sfu/src/router_manager.rs:
-- connecting the transports of a viewer, `produce_input_data` as a whole, and `get_session_bytes`.
pub mod Bytes
pub mod Kept
use dun_tunel.Prelude.{
  ℕ, ◌+◌, ◌-◌, ◌^◌, min, Bool, true, false, List, [], ◌∷◌, Option, none, some, Text, lookup, values,
  if◌then◌else◌,
}
use dun_tunel.Prelude.Results.{Result, ok, err, ◌>>=◌, ok_or}
use dun_tunel.Sfu.Sessions.{
  RouterManager, SessionState, ViewerSlot, SfuError, session_not_found, send_transport_absent,
  media_failed, store,
}
use dun_tunel.Sfu.Sessions.Consumers.{find_viewer}
use dun_tunel.Sfu.Sessions.Input.{
  Begun, returns, produces_on, produce_begin, produce_prepare, produce_finish,
}

abbrev pub media : Bool → Result SfuError (Unit {0})
media true = ok tt
media false = err media_failed

-- `works` tells whether mediasoup connects the transport.
unfoldable pub connect_recv_transport :
    Bool → Text → Text → RouterManager → Result SfuError (Unit {0})
connect_recv_transport works session_id viewer_id m =
    find_viewer session_id viewer_id m >>= λ (s, slot). media works

unfoldable pub connect_send_transport :
    Bool → Text → Text → RouterManager → Result SfuError (Unit {0})
connect_send_transport works session_id viewer_id m =
    find_viewer session_id viewer_id m >>= λ (s, slot).
    ok_or slot.send_transport send_transport_absent >>= λ t. media works

-- What mediasoup and the bridge return to one `produce_input_data`.
pub record InputMedia : Type 0 where
  pub producer : Option ℕ
  pub direct_transport : Option ℕ
  pub bridge : Option ℕ
  pub consumer : Option ℕ

-- What stands when `produce_data` has made a producer.
abbrev pub finish_input : InputMedia → Text → ℕ → SessionState → Result SfuError ℕ × SessionState
finish_input media viewer_id producer s = elim media.consumer [
  | none ↦ (err media_failed, s)
  | some consumer ↦ elim (produce_finish producer consumer viewer_id s) [
    | err e ↦ (err e, s)
    | ok (id, s') ↦ (ok id, s')
  ]
]

abbrev pub begin_input :
    InputMedia → Text → Result SfuError Begun → SessionState → Result SfuError ℕ × SessionState
begin_input media viewer_id (err e) s = (err e, s)
begin_input media viewer_id (ok (returns id)) s = (ok id, s)
begin_input media viewer_id (ok (produces_on t)) s = elim media.producer [
  | none ↦ (err media_failed, s)
  | some producer ↦ elim (produce_prepare media.direct_transport media.bridge s) [
    | err e ↦ (err e, s)
    | ok s' ↦ finish_input media viewer_id producer s'
  ]
]

unfoldable pub produce_input_data :
    InputMedia → Text → Text → RouterManager → Result SfuError ℕ × RouterManager
unfolding produce_begin produce_prepare produce_finish
produce_input_data media session_id viewer_id m = elim (lookup session_id m.sessions) [
  | none ↦ (err session_not_found, m)
  | some s ↦
      let (r, s') = begin_input media viewer_id (produce_begin viewer_id s) s in
      (r, store session_id s' m)
]

abbrev pub u64_max : ℕ
u64_max = 2 ^ 64 - 1

abbrev pub saturating_add : ℕ → ℕ → ℕ
saturating_add a b = min (a + b) u64_max

-- The bytes received and sent, for each statistic of a transport.
abbrev pub Stats : Type 0
Stats = List (ℕ × ℕ)

unfoldable pub add_stats : ℕ → Stats → ℕ
add_stats total [] = total
add_stats total ((received, sent) ∷ stats) =
    add_stats (saturating_add (saturating_add total received) sent) stats

-- `stats` are those of each transport, where mediasoup returns them.
abbrev pub add_transport : (ℕ → Option Stats) → ℕ → ℕ → Result SfuError ℕ
add_transport stats transport total =
    ok_or (stats transport) media_failed >>= λ s. ok (add_stats total s)

abbrev pub add_send : (ℕ → Option Stats) → Option ℕ → ℕ → Result SfuError ℕ
add_send stats none total = ok total
add_send stats (some t) total = add_transport stats t total

unfoldable pub add_viewers : (ℕ → Option Stats) → ℕ → List ViewerSlot → Result SfuError ℕ
unfolding add_stats
add_viewers stats total [] = ok total
add_viewers stats total (v ∷ vs) = add_transport stats v.recv_transport total >>= λ received.
    add_send stats v.send_transport received >>= λ both. add_viewers stats both vs

unfoldable pub get_session_bytes : (ℕ → Option Stats) → Text → RouterManager → Result SfuError ℕ
unfolding add_viewers
get_session_bytes stats session_id m = elim (lookup session_id m.sessions) [
  | none ↦ ok 0
  | some s ↦ add_viewers stats 0 (values s.viewers)
]
