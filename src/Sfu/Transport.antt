-- ===== src/Sfu/Transport.antt =====
-- The options for mediasoup of crates/edge-sfu/src/transport.rs, as far as they are set there, with the
-- ports that the workers of router_manager.rs bind. The addresses of `std::net` are a parameter. Sums
-- of ports wrap at 16 bits, as the release build's do.
pub mod Media
pub mod Ports
use Prim.Native.String.{String}
use dun_tunel.Prelude.{
  ℕ, zero, suc, ◌+◌, ◌%◌, ◌^◌, min, Bool, true, false, List, [], ◌∷◌, ◌++◌, map, Option, none, some,
  Text, text, trim, ltb, if◌then◌else◌,
}
use dun_tunel.Prelude.Results.{Result, ok, err, ◌>>=◌, ok_or}
use dun_tunel.Shared.Env.{Env, var, or_default, parse_up_to, u16_max}

-- `IpAddr` with its `parse` and its `to_string`.
pub record Addresses (IpAddr : Type 0) : Type 0 where
  pub parse : Text → Option IpAddr
  pub to_string : IpAddr → Text

pub record RouterListenInfo (IpAddr : Type 0) : Type 0 where
  pub listen_ip : IpAddr
  pub announced_ip : IpAddr
  pub lan_announced_ip : Option IpAddr
  pub rtc_min_port : ℕ
  pub rtc_max_port : ℕ
  pub plain_rtp_min_port : ℕ
  pub plain_rtp_max_port : ℕ

-- One UDP socket. `port_range` are its bounds, both included.
pub record ListenInfo (IpAddr : Type 0) : Type 0 where
  pub ip : IpAddr
  pub announced_address : Option Text
  pub expose_internal_ip : Bool
  pub port : Option ℕ
  pub port_range : Option (ℕ × ℕ)

pub record PlainTransportOptions (IpAddr : Type 0) : Type 0 where
  pub listen_info : ListenInfo IpAddr
  pub comedia : Bool

pub record WebRtcTransportOptions : Type 0 where
  pub enable_sctp : Bool
  pub max_send_message_size : ℕ
  pub initial_available_outgoing_bitrate : ℕ

abbrev pub create_consumer_transport_options_with_server : WebRtcTransportOptions
create_consumer_transport_options_with_server = record {
  enable_sctp = true;
  max_send_message_size = 262144;
  initial_available_outgoing_bitrate = 5000000;
}

abbrev pub lan_mux_port_offset : ℕ
lan_mux_port_offset = 1000

abbrev pub saturating_add_u16 : ℕ → ℕ → ℕ
saturating_add_u16 a b = min (a + b) u16_max

abbrev pub require : Bool → String → Result Text (Unit {0})
require true what = ok tt
require false what = err (text what)

abbrev pub port_or : String → ℕ → Option Text → Result Text ℕ
port_or name default none = ok default
port_or name default (some s) = ok_or (parse_up_to u16_max s) (text name ++ text ": invalid port")

unfoldable pub env_u16 : Env → String → ℕ → Result Text ℕ
unfolding parse_up_to
env_u16 env name default = port_or name default (var env name)

module _ {IpAddr : Type 0} (addresses : Addresses IpAddr) where
  unfoldable pub env_ip : Env → String → String → Result Text IpAddr
  env_ip env name default =
      ok_or (addresses.parse (or_default (var env name) (text default)))
        (text name ++ text ": invalid IP")

  abbrev pub some_ip : Option IpAddr → Result Text (Option IpAddr)
  some_ip none = err (text "invalid SFU_ANNOUNCED_IP_LAN")
  some_ip (some ip) = ok (some ip)

  -- Empty or unset is none.
  abbrev pub lan_ip : Text → Result Text (Option IpAddr)
  lan_ip [] = ok none
  lan_ip (c ∷ s) = some_ip (addresses.parse (c ∷ s))

  abbrev pub env_lan_ip : Option Text → Result Text (Option IpAddr)
  env_lan_ip none = ok none
  env_lan_ip (some s) = lan_ip (trim s)

  unfoldable pub from_env : Env → Result Text (RouterListenInfo IpAddr)
  unfolding env_u16 env_ip trim
  from_env env = do
    listen_ip ← env_ip env "SFU_LISTEN_IP" "0.0.0.0"
    announced_ip ← env_ip env "SFU_ANNOUNCED_IP" "127.0.0.1"
    lan_announced_ip ← env_lan_ip (var env "SFU_ANNOUNCED_IP_LAN")
    rtc_min_port ← env_u16 env "SFU_RTC_MIN_PORT" 50000
    rtc_max_port ← env_u16 env "SFU_RTC_MAX_PORT" 60000
    plain_rtp_min_port ← env_u16 env "SFU_PLAIN_RTP_MIN_PORT" 5000
    plain_rtp_max_port ← env_u16 env "SFU_PLAIN_RTP_MAX_PORT" 9999
    _ ← require (ltb rtc_min_port rtc_max_port) "SFU_RTC_MIN_PORT must be < SFU_RTC_MAX_PORT"
    _ ←
        require (ltb plain_rtp_min_port plain_rtp_max_port)
          "SFU_PLAIN_RTP_MIN_PORT must be < SFU_PLAIN_RTP_MAX_PORT"
    ok (record {
      listen_ip = listen_ip;
      announced_ip = announced_ip;
      lan_announced_ip = lan_announced_ip;
      rtc_min_port = rtc_min_port;
      rtc_max_port = rtc_max_port;
      plain_rtp_min_port = plain_rtp_min_port;
      plain_rtp_max_port = plain_rtp_max_port;
    })

  abbrev pub create_plain_transport_options : RouterListenInfo IpAddr → PlainTransportOptions IpAddr
  create_plain_transport_options listen = record {
    listen_info = record {
      ip = listen.listen_ip;
      announced_address = some (addresses.to_string listen.announced_ip);
      expose_internal_ip = false;
      port = none;
      port_range = some (listen.plain_rtp_min_port, listen.plain_rtp_max_port);
    };
    comedia = true;
  }

  abbrev pub create_plain_transport_options_on_port :
      RouterListenInfo IpAddr → ℕ → PlainTransportOptions IpAddr
  create_plain_transport_options_on_port listen port = record {
    listen_info = record {
      ip = listen.listen_ip;
      announced_address = some (addresses.to_string listen.announced_ip);
      expose_internal_ip = false;
      port = some port;
      port_range = none;
    };
    comedia = true;
  }

  abbrev pub mux_info : RouterListenInfo IpAddr → IpAddr → ℕ → ListenInfo IpAddr
  mux_info listen announced port = record {
    ip = listen.listen_ip;
    announced_address = some (addresses.to_string announced);
    expose_internal_ip = false;
    port = some port;
    port_range = none;
  }

  abbrev pub lan_infos : RouterListenInfo IpAddr → Option IpAddr → ℕ → List (ListenInfo IpAddr)
  lan_infos listen none port = []
  lan_infos listen (some lan) port =
      mux_info listen lan (saturating_add_u16 port lan_mux_port_offset) ∷ []

  -- The sockets of a worker's server.
  unfoldable pub create_webrtc_server_options :
      RouterListenInfo IpAddr → ℕ → List (ListenInfo IpAddr)
  create_webrtc_server_options listen port =
      mux_info listen listen.announced_ip port ∷ lan_infos listen listen.lan_announced_ip port

  abbrev pub mux_port : RouterListenInfo IpAddr → ℕ → ℕ
  mux_port listen idx = (listen.rtc_min_port + idx % 2 ^ 16) % 2 ^ 16

  -- The sockets that the workers from `idx` on bind, of which there are `left`.
  unfoldable pub server_infos : RouterListenInfo IpAddr → ℕ → ℕ → List (ListenInfo IpAddr)
  unfolding create_webrtc_server_options
  server_infos listen idx zero = []
  server_infos listen idx (suc left) =
      create_webrtc_server_options listen (mux_port listen idx)
      ++ server_infos listen (suc idx) left
