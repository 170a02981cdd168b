-- ===== src/Sfu/Transport/Media.antt =====
-- What mediasoup is told of the media: the parameters of the two producers on a session's plain
-- transport, in crates/edge-sfu/src/transport.rs, and the codecs of its router, `default_media_codecs`
-- of router_manager.rs.
use dun_tunel.Prelude.{ℕ, List, [], ◌∷◌, Option, none, some}

pub data MimeType : Type 0 where
  vp8 : MimeType
  opus : MimeType

pub data RtcpFeedback : Type 0 where
  nack nack_pli ccm_fir goog_remb transport_cc : RtcpFeedback

-- `channels` of audio; `useinbandfec` is the one parameter that is set.
pub record RtpCodec : Type 0 where
  pub mime_type : MimeType
  pub payload_type : Option ℕ
  pub clock_rate : ℕ
  pub channels : Option ℕ
  pub useinbandfec : Option ℕ
  pub rtcp_feedback : List RtcpFeedback

pub record RtpEncodingParameters : Type 0 where
  pub ssrc : Option ℕ
  pub codec_payload_type : Option ℕ
  pub max_bitrate : Option ℕ

pub record RtpParameters : Type 0 where
  pub codecs : List RtpCodec
  pub encodings : List RtpEncodingParameters

abbrev pub plain_payload_type : ℕ
plain_payload_type = 96

abbrev pub plain_audio_payload_type : ℕ
plain_audio_payload_type = 111

abbrev pub video_encoding : ℕ → ℕ → RtpEncodingParameters
video_encoding ssrc max_bitrate = record {
  ssrc = some ssrc;
  codec_payload_type = some plain_payload_type;
  max_bitrate = some max_bitrate;
}

abbrev pub plain_producer_rtp_parameters : RtpParameters
plain_producer_rtp_parameters = record {
  codecs =
      record {
        mime_type = vp8;
        payload_type = some plain_payload_type;
        clock_rate = 90000;
        channels = none;
        useinbandfec = none;
        rtcp_feedback = [];
      }
      ∷ [];
  encodings =
      video_encoding 22222220 1000000
      ∷ video_encoding 22222221 2500000
      ∷ video_encoding 22222222 4000000
      ∷ [];
}

abbrev pub plain_audio_producer_rtp_parameters : RtpParameters
plain_audio_producer_rtp_parameters = record {
  codecs =
      record {
        mime_type = opus;
        payload_type = some plain_audio_payload_type;
        clock_rate = 48000;
        channels = some 2;
        useinbandfec = some 1;
        rtcp_feedback = [];
      }
      ∷ [];
  encodings = record { ssrc = some 22222223; codec_payload_type = none; max_bitrate = none } ∷ [];
}

abbrev pub default_media_codecs : List RtpCodec
default_media_codecs =
    record {
      mime_type = opus;
      payload_type = none;
      clock_rate = 48000;
      channels = some 2;
      useinbandfec = some 1;
      rtcp_feedback = transport_cc ∷ [];
    }
    ∷ record {
      mime_type = vp8;
      payload_type = none;
      clock_rate = 90000;
      channels = none;
      useinbandfec = none;
      rtcp_feedback = nack_pli ∷ ccm_fir ∷ goog_remb ∷ transport_cc ∷ [];
    }
    ∷ []
