-- ===== src/Sfu/Sessions/Source.antt =====
-- The recreation of a session's source, `reprovision_plain_producer` of
-- crates/edge-sfu/src/router_manager.rs.
use dun_tunel.Prelude.{ℕ, List, [], ◌∷◌, Option, none, some, Text, lookup, take}
use dun_tunel.Prelude.Results.{Result, ok, err, ◌>>=◌, ok_or}
use dun_tunel.Sfu.Sessions.{
  RouterManager, SessionState, SfuError, session_not_found, media_failed, store, PlainTransport,
}

-- Each of the twelve attempts to create the transport, in order, until one works.
unfoldable pub first_attempt : List (Option PlainTransport) → Option PlainTransport
first_attempt [] = none
first_attempt (none ∷ rest) = first_attempt rest
first_attempt (some t ∷ rest) = some t

pub record Recreation : Type 0 where
  pub attempts : List (Option PlainTransport)
  pub producer : Option ℕ
  pub audio_producer : Option ℕ

abbrev pub without_source : SessionState → SessionState
without_source s = record s {
  plain_producer = none;
  plain_audio_producer = none;
  plain_transport = none;
}

-- What the recreation returns: the transport and both producers, or the failure.
unfoldable pub recreated : Recreation → Result SfuError (PlainTransport × (ℕ × ℕ))
recreated r = ok_or (first_attempt (take 12 r.attempts)) media_failed >>= λ t.
    ok_or r.producer media_failed >>= λ producer.
    ok_or r.audio_producer media_failed >>= λ audio. ok (t, (producer, audio))

-- The session afterwards. The old producers and the transport are dropped before the first attempt,
-- so a failure leaves the session with none.
unfoldable pub source_after :
    Result SfuError (PlainTransport × (ℕ × ℕ)) → SessionState → SessionState
source_after (err e) s = without_source s
source_after (ok (t, (producer, audio))) s = record s {
  plain_producer = some producer;
  plain_audio_producer = some audio;
  plain_transport = some t;
}

unfoldable pub reprovision_plain_producer :
    Recreation → Text → RouterManager → Result SfuError Unit × RouterManager
reprovision_plain_producer r session_id m = elim (lookup session_id m.sessions) [
  | none ↦ (err session_not_found, m)
  | some s ↦ (recreated r >>= λ _. ok tt, store session_id (source_after (recreated r) s) m)
]
