-- ===== src/Control/Signalling/Protocol.antt =====
-- The messages of crates/edge-control/src/routes/sfu_ws.rs, and the callbacks about viewers. The RTP
-- capabilities of a client are of any type.
use dun_tunel.Prelude.{ℕ, Bool, true, false, [], Option, none, some, Text, text, if◌then◌else◌}
use dun_tunel.Sfu.Sessions.{SfuError, session_not_found, viewer_cap_reached, ConsumerTransportInfo}
use dun_tunel.Sfu.Sessions.Consumers.{ConsumedInfo}

pub data EdgeCallbackEvent : Type 0 where
  viewer_connected : Text → Option Text → Option Text → Option Text → EdgeCallbackEvent
  viewer_disconnected : Text → Option Text → EdgeCallbackEvent

pub data ClientMessage (Caps : Type 0) : Type 0 where
  init : Caps → ClientMessage Caps
  connect_consumer_transport : ClientMessage Caps
  consume : ℕ → ClientMessage Caps
  consumer_resume : ℕ → ClientMessage Caps
  set_layers : ℕ → ℕ → Option ℕ → ClientMessage Caps
  connect_input_transport : ClientMessage Caps
  produce_input : ClientMessage Caps

-- A text frame with the message, if it parses.
pub data Frame (Caps : Type 0) : Type 0 where
  text_frame : Option (ClientMessage Caps) → Frame Caps
  binary : Frame Caps
  ping : Text → Frame Caps
  pong : Frame Caps
  close : Frame Caps
  broken : Frame Caps

-- The receiving and the sending transport, where that is for input, and the producers.
pub record InitPayload : Type 0 where
  pub consumer_transport_options : ConsumerTransportInfo
  pub plain_producer_id : ℕ
  pub audio_producer_id : Option ℕ
  pub input_transport_options : Option ConsumerTransportInfo
  pub input_sctp_parameters : Option Text

pub data ServerMessage : Type 0 where
  init_payload : InitPayload → ServerMessage
  error : Text → ServerMessage
  connected_consumer_transport : ServerMessage
  consumed : ConsumedInfo → ServerMessage
  connected_input_transport : ServerMessage
  input_produced : ℕ → ServerMessage
  pong_of : Text → ServerMessage
  close_frame : ℕ → Text → ServerMessage

abbrev pub error_code : {Caps : Type 0} → ClientMessage Caps → Text
error_code (init caps) = []
error_code connect_consumer_transport = text "connect_consumer_transport_failed"
error_code (consume id) = text "consume_failed"
error_code (consumer_resume id) = text "consumer_resume_failed"
error_code (set_layers id spatial temporal) = text "set_preferred_layers_failed"
error_code connect_input_transport = text "connect_input_failed"
error_code produce_input = text "produce_input_failed"

abbrev pub should_advertise_input : Option Text → Bool
should_advertise_input none = false
should_advertise_input (some parameters) = true

-- `sctp` are the parameters that the sending transport has.
abbrev pub build_init_payload :
    ConsumerTransportInfo × ConsumerTransportInfo → Option Text → ℕ × Option ℕ → InitPayload
build_init_payload (recv_info, send_info) sctp (producer_id, audio_producer_id) = record {
  consumer_transport_options = recv_info;
  plain_producer_id = producer_id;
  audio_producer_id = audio_producer_id;
  input_transport_options = if should_advertise_input sctp then some send_info else none;
  input_sctp_parameters = if should_advertise_input sctp then sctp else none;
}

abbrev pub close_of : SfuError → ServerMessage
close_of e = elim e [
  | viewer_cap_reached ↦ close_frame 1013 (text "viewer cap reached")
  | session_not_found ↦ close_frame 1008 (text "session not found")
  | _ ↦ close_frame 1011 (text "internal error")
]
