-- ===== src/Sfu/Sessions.antt =====
-- The session table of crates/edge-sfu/src/router_manager.rs, and crates/edge-sfu/src/viewer_cap.rs.
-- What a call of mediasoup returns is an argument of the operation: the id of the new object, or
-- nothing where the call fails. Parameters that mediasoup derives from an object (ICE, DTLS and RTP
-- parameters) are not repeated beside its id.
pub mod Consumers
pub mod Input
pub mod Source
pub mod Monitor
pub mod Viewers
pub mod Provisioning
pub mod Calls
use dun_tunel.Prelude.{
  ℕ, ◌+◌, ◌%◌, ◌^◌, Bool, true, false, List, [], ◌∷◌, Option, none, some, Text, leb, ltb, ◌==◌,
  if◌then◌else◌, length, Assoc, lookup, insert, remove, keys,
}
use dun_tunel.Prelude.Results.{Result, ok, err, ◌>>=◌, ok_or}

abbrev pub viewer_cap_per_session : ℕ
viewer_cap_per_session = 30

unfoldable pub can_accept_viewer : ℕ → Bool
can_accept_viewer current_count = ltb current_count viewer_cap_per_session

-- The messages of the errors, and `panics` for an `expect` that fails.
pub data SfuError : Type 0 where
  session_not_found : SfuError
  viewer_not_found : SfuError
  viewer_disappeared : SfuError
  viewer_cap_reached : SfuError
  plain_producer_absent : SfuError
  send_transport_absent : SfuError
  consumer_not_found : SfuError
  invalid_spatial_layer : SfuError
  no_temporal_layers : SfuError
  media_failed : SfuError
  panics : SfuError

pub record PlainTransport : Type 0 where
  pub id : ℕ
  pub local_port : ℕ
  pub rtcp_port : Option ℕ

pub record ViewerSlot : Type 0 where
  pub viewer_id : Text
  pub recv_transport : ℕ
  pub send_transport : Option ℕ
  pub consumers : List ℕ
  pub input_data_producer : Option ℕ
  pub input_data_consumer : Option ℕ

pub record SessionState : Type 0 where
  pub session_id : Text
  pub router : ℕ
  pub plain_producer : Option ℕ
  pub plain_audio_producer : Option ℕ
  pub plain_transport : Option PlainTransport
  pub viewers : Assoc ViewerSlot
  pub direct_transport : Option ℕ
  pub input_bridge : Option ℕ
  pub webrtc_server : ℕ

pub record ProvisionedRouter : Type 0 where
  pub router_id : ℕ
  pub plain_rtp_port : ℕ
  pub plain_rtcp_port : ℕ
  pub producer_id : ℕ
  pub audio_producer_id : Option ℕ

-- The workers are counted; `webrtc_servers` has the same indices.
pub record RouterManager : Type 0 where
  pub workers : ℕ
  pub worker_cursor : ℕ
  pub sessions : Assoc SessionState

-- A manager on the workers that mediasoup has created; without any it is refused.
unfoldable pub new_with_listen : ℕ → Option RouterManager
new_with_listen workers =
    if workers == 0
    then none
    else some (record { workers = workers; worker_cursor = 0; sessions = [] })

-- What mediasoup returns to one provisioning.
pub record Pipeline : Type 0 where
  pub router : Option ℕ
  pub plain_transport : Option PlainTransport
  pub producer : Option ℕ
  pub audio_producer : Option ℕ

abbrev pub unwrap_or {ℓ} : {A : Type ℓ} → Option A → A → A
unwrap_or none a = a
unwrap_or (some b) a = b

abbrev pub local_port_or_zero : Option PlainTransport → ℕ
local_port_or_zero none = 0
local_port_or_zero (some t) = t.local_port

abbrev pub rtcp_port_of : Option PlainTransport → Option ℕ
rtcp_port_of none = none
rtcp_port_of (some t) = t.rtcp_port

unfoldable pub snapshot : SessionState → Result SfuError ProvisionedRouter
snapshot s = ok_or s.plain_producer panics >>= λ producer.
    let port = local_port_or_zero s.plain_transport in
    ok (record {
      router_id = s.router;
      plain_rtp_port = port;
      plain_rtcp_port = unwrap_or (rtcp_port_of s.plain_transport) port;
      producer_id = producer;
      audio_producer_id = s.plain_audio_producer;
    })

-- The index of the worker, and the manager after the call. The counter wraps at 64 bits.
unfoldable pub pick_worker_index : RouterManager → ℕ × RouterManager
pick_worker_index m =
    (m.worker_cursor % m.workers, record m { worker_cursor = (m.worker_cursor + 1) % 2 ^ 64 })

-- The session that provisioning creates, and what it returns.
unfoldable pub build_session :
    Pipeline → Text → ℕ → Result SfuError (SessionState × ProvisionedRouter)
build_session p session_id worker_index = ok_or p.router media_failed >>= λ router.
    ok_or p.plain_transport media_failed >>= λ plain_transport.
    ok_or p.producer media_failed >>= λ producer.
    ok_or p.audio_producer media_failed >>= λ audio_producer. ok (
      record {
        session_id = session_id;
        router = router;
        plain_producer = some producer;
        plain_audio_producer = some audio_producer;
        plain_transport = some plain_transport;
        viewers = [];
        direct_transport = none;
        input_bridge = none;
        webrtc_server = worker_index;
      },
      record {
        router_id = router;
        plain_rtp_port = plain_transport.local_port;
        plain_rtcp_port = unwrap_or plain_transport.rtcp_port plain_transport.local_port;
        producer_id = producer;
        audio_producer_id = some audio_producer;
      },
    )

-- The insertion of what was built, where it was.
unfoldable pub install :
    Text
    → Result SfuError (SessionState × ProvisionedRouter)
    → RouterManager
    → Result SfuError ProvisionedRouter × RouterManager
install session_id (ok (s, p)) m = (ok p, record m { sessions = insert session_id s m.sessions })
install session_id (err e) m = (err e, m)

unfoldable pub provision_session :
    Pipeline → Text → RouterManager → Result SfuError ProvisionedRouter × RouterManager
provision_session pipeline session_id m = elim (lookup session_id m.sessions) [
  | some existing ↦ (snapshot existing, m)
  | none ↦
      let (worker_index, m') = pick_worker_index m in
      install session_id (build_session pipeline session_id worker_index) m'
]

unfoldable pub close_session : Text → RouterManager → RouterManager
close_session session_id m = record m { sessions = remove session_id m.sessions }

-- A new session state in the table.
abbrev pub store : Text → SessionState → RouterManager → RouterManager
store session_id s m = record m { sessions = insert session_id s m.sessions }

pub record ConsumerTransportInfo : Type 0 where
  pub viewer_id : Text
  pub transport_id : ℕ

abbrev pub new_slot : Text → ℕ → ℕ → ViewerSlot
new_slot viewer_id recv send = record {
  viewer_id = viewer_id;
  recv_transport = recv;
  send_transport = some send;
  consumers = [];
  input_data_producer = none;
  input_data_consumer = none;
}

-- The two transports as mediasoup returns them, the receiving one first.
unfoldable pub add_viewer :
    Option ℕ
    → Option ℕ
    → Text
    → SessionState
    → Result SfuError ((ConsumerTransportInfo × ConsumerTransportInfo) × SessionState)
add_viewer recv_created send_created viewer_id s =
    if leb viewer_cap_per_session (length s.viewers)
    then err viewer_cap_reached
    else (ok_or recv_created media_failed >>= λ recv. ok_or send_created media_failed >>= λ send.
        ok (
          (
            record { viewer_id = viewer_id; transport_id = recv },
            record { viewer_id = viewer_id; transport_id = send },
          ),
          record s { viewers = insert viewer_id (new_slot viewer_id recv send) s.viewers },
        ))

-- The outcome of a change of one session's state: a refused change leaves the table as it is.
abbrev pub commit :
    {A : Type 0}
    → Text
    → Result SfuError (A × SessionState)
    → RouterManager
    → Result SfuError A × RouterManager
commit session_id (ok (a, s)) m = (ok a, store session_id s m)
commit session_id (err e) m = (err e, m)

unfoldable pub create_consumer_transports :
    Option ℕ
    → Option ℕ
    → Text
    → Text
    → RouterManager
    → Result SfuError (ConsumerTransportInfo × ConsumerTransportInfo) × RouterManager
create_consumer_transports recv_created send_created session_id viewer_id m =
    commit session_id
      (ok_or (lookup session_id m.sessions) session_not_found >>= λ s.
        add_viewer recv_created send_created viewer_id s)
      m

unfoldable pub remove_viewer : Text → Text → RouterManager → RouterManager
remove_viewer session_id viewer_id m = elim (lookup session_id m.sessions) [
  | none ↦ m
  | some s ↦ store session_id (record s { viewers = remove viewer_id s.viewers }) m
]

unfoldable pub viewer_count : Text → RouterManager → ℕ
viewer_count session_id m = elim (lookup session_id m.sessions) [
  | none ↦ 0
  | some s ↦ length s.viewers
]

abbrev pub list_active_sessions : RouterManager → List Text
list_active_sessions m = keys m.sessions

unfoldable pub session_producer_info : Text → RouterManager → Result SfuError (ℕ × Option ℕ)
session_producer_info session_id m = ok_or (lookup session_id m.sessions) session_not_found >>= λ s.
    ok_or s.plain_producer plain_producer_absent >>= λ producer.
    ok (producer, s.plain_audio_producer)
