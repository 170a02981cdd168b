-- ===== src/Gate/Revocation.antt =====
-- crates/edge-viewer-gate/src/revocation.rs: the mirror of dun-api's list of revoked tokens, and the
-- task that polls it. Times are milliseconds of the monotonic clock; what a request returns is an
-- argument of the step.
pub mod Mirror
pub mod Schedule
use dun_tunel.Prelude.{
  ℕ, suc, ◌+◌, ◌-◌, ◌*◌, ◌/◌, ◌^◌, min, max, Text, member, Option, none, some, Bool, true, false,
  List, [], ◌∷◌, leb, if◌then◌else◌,
}

pub record Inner : Type 0 where
  pub set : List Text
  pub last_success : Option ℕ
  pub last_etag : Option Text

pub record RevocationList : Type 0 where
  pub inner : Inner
  pub polling_enabled : Bool
  pub max_staleness : ℕ

-- The polling task: the waits that its configuration allows, and what its loop keeps.
pub record Poller : Type 0 where
  pub inner : Inner
  pub base : ℕ
  pub cap : ℕ
  pub quiet_streak : ℕ
  pub next_at : ℕ

-- 304; a list with the ETag of the response; a body that does not parse; another status; no response.
pub data Reply : Type 0 where
  not_modified : Reply
  listed : List Text → Option Text → Reply
  unparsed : Reply
  http_error : Reply
  unreachable : Reply

-- A request's reply, when it is recorded, and when the loop goes on.
pub record Poll : Type 0 where
  pub reply : Reply
  pub recorded_at : ℕ
  pub ended_at : ℕ

abbrev pub empty : Inner
empty = record { set = []; last_success = none; last_etag = none }

abbrev pub is_some {ℓ} : {A : Type ℓ} → Option A → Bool
is_some none = false
is_some (some a) = true

unfoldable pub start_list : Option Text → ℕ → RevocationList
start_list url max_staleness = record {
  inner = empty;
  polling_enabled = is_some url;
  max_staleness = max_staleness;
}

unfoldable pub start_poller : ℕ → ℕ → ℕ → Poller
start_poller poll_interval max_staleness now =
    let base = max poll_interval 1000 in
    let cap_from_staleness = max_staleness / 2 in
    record {
      inner = empty;
      base = base;
      cap = max (min cap_from_staleness 60000) base;
      quiet_streak = 0;
      next_at = now;
    }

abbrev pub u32_max : ℕ
u32_max = 2 ^ 32 - 1

-- The wait after a 304 that makes the streak `quiet_streak`.
unfoldable pub quiet_wait : ℕ → ℕ → ℕ → ℕ
quiet_wait base cap quiet_streak = min (base * 2 ^ min quiet_streak 4) cap

abbrev pub record_reply : Inner → ℕ → Reply → Inner
record_reply i now not_modified = record i { last_success = some now }
record_reply i now (listed jtis etag) = record {
  set = jtis;
  last_success = some now;
  last_etag = etag;
}
record_reply i now unparsed = i
record_reply i now http_error = i
record_reply i now unreachable = i

abbrev pub next_streak : ℕ → Reply → ℕ
next_streak streak not_modified = min (streak + 1) u32_max
next_streak streak (listed jtis etag) = 0
next_streak streak unparsed = streak
next_streak streak http_error = streak
next_streak streak unreachable = streak

abbrev pub next_wait : Poller → Reply → ℕ
next_wait p not_modified = quiet_wait p.base p.cap (next_streak p.quiet_streak not_modified)
next_wait p (listed jtis etag) = p.base
next_wait p unparsed = p.base
next_wait p http_error = p.base
next_wait p unreachable = p.base

-- One round of the loop.
unfoldable pub poll : Poller → Poll → Poller
poll p r = record p {
  inner = record_reply p.inner r.recorded_at r.reply;
  quiet_streak = next_streak p.quiet_streak r.reply;
  next_at = r.ended_at + next_wait p r.reply;
}

-- What the request carries in `If-None-Match`.
abbrev pub if_none_match : Poller → Option Text
if_none_match p = p.inner.last_etag

unfoldable pub contains : RevocationList → Text → Bool
contains l jti = member jti l.inner.set

abbrev pub fresh_since : ℕ → ℕ → Option ℕ → Bool
fresh_since max_staleness now none = false
fresh_since max_staleness now (some t) = leb (now - t) max_staleness

unfoldable pub is_fresh : RevocationList → ℕ → Bool
is_fresh l now =
    if l.polling_enabled then fresh_since l.max_staleness now l.inner.last_success else true
