-- ===== src/Poc.antt =====
-- The proof of concept poc/neko-sfu/src/bin/sfu_main.rs: what its connections share, that is the router,
-- the producer of Neko's stream and the direct transport, each made when it is first needed. The
-- objects of mediasoup stand for themselves by their ids, and what its calls return is an input.
pub mod Viewer
use Prim.Native.String.{String}
use dun_tunel.Prelude.{ℕ, true, false, List, [], ◌∷◌, ◌++◌, Option, none, some, Text, text}
use dun_tunel.Prelude.Results.{Result, ok, err, ◌>>=◌}
use dun_tunel.Shared.Env.{Env, var, or_default, parsed, u16_max}
use dun_tunel.Sfu.Transport.{Addresses, ListenInfo, PlainTransportOptions}
use dun_tunel.Sfu.Transport.Media.{
  RtpCodec, RtpParameters, opus, vp8, nack_pli, ccm_fir, goog_remb, transport_cc,
}

pub record SfuListen (IpAddr : Type 0) : Type 0 where
  pub listen_ip : IpAddr
  pub announced_ip : IpAddr
  pub rtc_min_port : ℕ
  pub rtc_max_port : ℕ
  pub plain_rtp_port : ℕ
  pub plain_rtcp_port : ℕ

pub record PlainProducerHandle : Type 0 where
  pub producer : ℕ
  pub transport : ℕ

-- The cells are empty until something is made for them.
pub record AppState (IpAddr : Type 0) : Type 0 where
  pub listen : SfuListen IpAddr
  pub router : Option ℕ
  pub plain_producer : Option PlainProducerHandle
  pub direct_transport : Option ℕ

pub record PlainProducerInfo (IpAddr : Type 0) : Type 0 where
  pub producer_id : ℕ
  pub rtp_listen_ip : IpAddr
  pub rtp_listen_port : ℕ
  pub rtcp_listen_port : ℕ
  pub payload_type : ℕ
  pub clock_rate : ℕ
  pub encoding_name : Text
  pub ssrc : ℕ

-- What mediasoup returns, with the text of its error.
pub record Mediasoup : Type 0 where
  pub create_worker : Result Text (Unit {0})
  pub create_router : Result Text ℕ
  pub create_direct_transport : Result Text ℕ
  pub create_plain_transport : Result Text ℕ
  pub produce : Result Text ℕ

abbrev pub context : {A : Type 0} → String → Result Text A → Result Text A
context what (ok a) = ok a
context what (err e) = err (text what ++ e)

abbrev pub media_codecs : List RtpCodec
media_codecs =
    record {
      mime_type = opus;
      payload_type = none;
      clock_rate = 48000;
      channels = some 2;
      useinbandfec = some 1;
      rtcp_feedback = transport_cc ∷ [];
    }
    ∷ record {
      mime_type = vp8;
      payload_type = none;
      clock_rate = 90000;
      channels = none;
      useinbandfec = none;
      rtcp_feedback = nack_pli ∷ ccm_fir ∷ goog_remb ∷ transport_cc ∷ [];
    }
    ∷ []

abbrev pub producer_rtp_parameters : RtpParameters
producer_rtp_parameters = record {
  codecs =
      record {
        mime_type = vp8;
        payload_type = some 96;
        clock_rate = 90000;
        channels = none;
        useinbandfec = none;
        rtcp_feedback = [];
      }
      ∷ [];
  encodings = record { ssrc = some 22222222; codec_payload_type = none; max_bitrate = none } ∷ [];
}

-- A cell keeps the first value that is made for it; an error leaves it empty.
unfoldable pub get_or_try_init : {A : Type 0} → Option A → Result Text A → Result Text A × Option A
get_or_try_init (some a) made = (ok a, some a)
get_or_try_init none (ok a) = (ok a, some a)
get_or_try_init none (err e) = (err e, none)

abbrev pub new_router : Mediasoup → Result Text ℕ
new_router media = do
  _ ← context "create worker: " media.create_worker
  context "create router: " media.create_router

abbrev pub new_producer : Mediasoup → Result Text PlainProducerHandle
new_producer media = do
  transport ← context "create plain transport: " media.create_plain_transport
  producer ← context "produce on plain transport: " media.produce
  ok (record { producer = producer; transport = transport })

-- `parse_env_or` for a port.
abbrev pub parse_env_or : Env → String → ℕ → ℕ
parse_env_or env key default = or_default (parsed u16_max (var env key)) default

module _ {IpAddr : Type 0} where
  unfoldable pub ensure_router : Mediasoup → AppState IpAddr → Result Text ℕ × AppState IpAddr
  unfolding get_or_try_init
  ensure_router media app =
      let (r, cell) = get_or_try_init app.router (new_router media) in
      (r, record app { router = cell })

  abbrev pub init_direct_transport :
      Mediasoup → Result Text ℕ × AppState IpAddr → Result Text ℕ × AppState IpAddr
  init_direct_transport media (err e, app) = (err e, app)
  init_direct_transport media (ok router, app) =
      let (r, cell) =
        get_or_try_init app.direct_transport
          (context "create direct transport: " media.create_direct_transport) in
      (r, record app { direct_transport = cell })

  unfoldable pub ensure_direct_transport :
      Mediasoup → AppState IpAddr → Result Text ℕ × AppState IpAddr
  unfolding ensure_router get_or_try_init
  ensure_direct_transport media app = init_direct_transport media (ensure_router media app)

  abbrev pub info_of : SfuListen IpAddr → PlainProducerHandle → PlainProducerInfo IpAddr
  info_of listen handle = record {
    producer_id = handle.producer;
    rtp_listen_ip = listen.announced_ip;
    rtp_listen_port = listen.plain_rtp_port;
    rtcp_listen_port = listen.plain_rtcp_port;
    payload_type = 96;
    clock_rate = 90000;
    encoding_name = text "VP8";
    ssrc = 22222222;
  }

  abbrev pub init_plain_producer :
      Mediasoup
      → Result Text ℕ × AppState IpAddr
      → Result Text PlainProducerHandle × AppState IpAddr
  init_plain_producer media (err e, app) = (err e, app)
  init_plain_producer media (ok router, app) =
      let (r, cell) = get_or_try_init app.plain_producer (new_producer media) in
      (r, record app { plain_producer = cell })

  abbrev pub described :
      Result Text PlainProducerHandle × AppState IpAddr
      → Result Text (PlainProducerInfo IpAddr) × AppState IpAddr
  described (err e, app) = (err e, app)
  described (ok handle, app) = (ok (info_of app.listen handle), app)

  unfoldable pub ensure_plain_producer :
      Mediasoup → AppState IpAddr → Result Text (PlainProducerInfo IpAddr) × AppState IpAddr
  unfolding ensure_router get_or_try_init
  ensure_plain_producer media app = described (init_plain_producer media (ensure_router media app))

  -- The status of the answer.
  abbrev pub plain_producer_handler :
      Mediasoup → AppState IpAddr → (ℕ × Result Text (PlainProducerInfo IpAddr)) × AppState IpAddr
  plain_producer_handler media app =
      let (r, after) = ensure_plain_producer media app in
      elim r [ ok info ↦ ((200, ok info), after) | err e ↦ ((500, err e), after) ]

module _ {IpAddr : Type 0} (addresses : Addresses IpAddr) where
  -- Where the producer's transport listens.
  abbrev pub plain_options : SfuListen IpAddr → PlainTransportOptions IpAddr
  plain_options listen = record {
    listen_info = record {
      ip = listen.listen_ip;
      announced_address = some (addresses.to_string listen.announced_ip);
      expose_internal_ip = false;
      port = some listen.plain_rtp_port;
      port_range = none;
    };
    comedia = true;
  }

  abbrev pub viewer_listen_info : SfuListen IpAddr → ListenInfo IpAddr
  viewer_listen_info listen = record {
    ip = listen.listen_ip;
    announced_address = some (addresses.to_string listen.announced_ip);
    expose_internal_ip = false;
    port = none;
    port_range = some (listen.rtc_min_port, listen.rtc_max_port);
  }

  abbrev pub parsed_ip : Option Text → Option IpAddr
  parsed_ip none = none
  parsed_ip (some s) = addresses.parse s

  -- `any` is 0.0.0.0 and `localhost` is 127.0.0.1.
  unfoldable pub listen_of : (any localhost : IpAddr) → Env → SfuListen IpAddr
  listen_of any localhost env = record {
    listen_ip =
        or_default (addresses.parse (or_default (var env "SFU_LISTEN_HOST") (text "0.0.0.0"))) any;
    announced_ip = or_default (parsed_ip (var env "SFU_PUBLIC_IP")) localhost;
    rtc_min_port = parse_env_or env "SFU_RTC_PORT_MIN" 40000;
    rtc_max_port = parse_env_or env "SFU_RTC_PORT_MAX" 40100;
    plain_rtp_port = parse_env_or env "SFU_PLAIN_RTP_PORT" 5004;
    plain_rtcp_port = parse_env_or env "SFU_PLAIN_RTCP_PORT" 5005;
  }

  unfoldable pub initial : (any localhost : IpAddr) → Env → AppState IpAddr
  unfolding listen_of
  initial any localhost env = record {
    listen = listen_of any localhost env;
    router = none;
    plain_producer = none;
    direct_transport = none;
  }
