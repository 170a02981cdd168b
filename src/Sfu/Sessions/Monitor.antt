-- ===== src/Sfu/Sessions/Monitor.antt =====
-- The source monitor, `spawn_source_monitor` and `producer_sample` of
-- crates/edge-sfu/src/router_manager.rs. Times are nanoseconds of the monotonic clock. A visit of a
-- session takes as given what the clock and mediasoup return during it.
pub mod Starvation
pub mod Lost
use dun_tunel.Prelude.{
  ℕ, ◌+◌, ◌-◌, ◌*◌, ◌^◌, ◌&&◌, not, Bool, true, false, List, [], ◌∷◌, Option, none, some, Text, leb,
  ltb, ◌==◌, if◌then◌else◌, length, Assoc, lookup, insert, remove, keys, min, max, member,
}
use dun_tunel.Prelude.Int.{ℤ, pos, negsuc}
use dun_tunel.Prelude.Results.{Result, ok, err}
use dun_tunel.Sfu.Sessions.{RouterManager, SessionState, SfuError, unwrap_or}
use dun_tunel.Sfu.Sessions.Source.{Recreation, reprovision_plain_producer}

abbrev pub source_starve : ℕ
source_starve = 12 * 10 ^ 9

pub record ProducerActivity : Type 0 where
  pub last_bytes : ℕ
  pub last_change : ℕ
  pub ever_flowed : Bool
  pub last_packets_lost : ℕ

pub record ProducerStat : Type 0 where
  pub byte_count : ℕ
  pub packets_lost : ℤ
  pub fraction_lost : ℕ
  pub score : ℕ
  pub bitrate : ℕ

pub record ProducerSample : Type 0 where
  pub has_viewers : Bool
  pub rtp_streams : ℕ
  pub byte_count : ℕ
  pub packets_lost : ℕ
  pub fraction_lost : ℕ
  pub score : ℕ
  pub bitrate : ℕ

-- `saturating_add` on `w` bits.
abbrev pub saturating_add : ℕ → ℕ → ℕ → ℕ
saturating_add w a b = min (a + b) (2 ^ w - 1)

-- `max(0) as u64`.
abbrev pub at_least_zero : ℤ → ℕ
at_least_zero (pos n) = n
at_least_zero (negsuc n) = 0

unfoldable pub add_stats : ProducerSample → List ProducerStat → ProducerSample
add_stats sample [] = sample
add_stats sample (stat ∷ stats) =
    add_stats
      (record sample {
        rtp_streams = sample.rtp_streams + 1;
        byte_count = saturating_add 64 sample.byte_count stat.byte_count;
        packets_lost = saturating_add 64 sample.packets_lost (at_least_zero stat.packets_lost);
        fraction_lost = max sample.fraction_lost stat.fraction_lost;
        score = min sample.score stat.score;
        bitrate = saturating_add 32 sample.bitrate stat.bitrate;
      })
      stats

abbrev pub empty_sample : Bool → ℕ → ProducerSample
empty_sample has_viewers score = record {
  has_viewers = has_viewers;
  rtp_streams = 0;
  byte_count = 0;
  packets_lost = 0;
  fraction_lost = 0;
  score = score;
  bitrate = 0;
}

unfoldable pub sample_of : Bool → List ProducerStat → ProducerSample
sample_of has_viewers [] = empty_sample has_viewers 0
sample_of has_viewers (stat ∷ stats) = add_stats (empty_sample has_viewers 10) (stat ∷ stats)

abbrev pub is_empty {ℓ} : {A : Type ℓ} → List A → Bool
is_empty [] = true
is_empty (a ∷ rest) = false

abbrev pub sample_stats : Bool → Option (List ProducerStat) → Option ProducerSample
sample_stats has_viewers none = none
sample_stats has_viewers (some stats) = some (sample_of has_viewers stats)

abbrev pub sample_source : Option ℕ → Bool → Option (List ProducerStat) → Option ProducerSample
sample_source none has_viewers stats = none
sample_source (some producer) has_viewers stats = sample_stats has_viewers stats

-- `stats` is what `get_stats` returns, where there is a producer to ask.
unfoldable pub producer_sample :
    Option (List ProducerStat) → Text → RouterManager → Option ProducerSample
producer_sample stats session_id m = elim (lookup session_id m.sessions) [
  | none ↦ none
  | some s ↦ sample_source s.plain_producer (not (is_empty s.viewers)) stats
]

pub record Visit : Type 0 where
  pub now : ℕ
  pub stats : Option (List ProducerStat)
  pub recreation : Recreation
  pub finished : ℕ

pub record Monitor : Type 0 where
  pub manager : RouterManager
  pub activity : Assoc ProducerActivity

unfoldable pub note_bytes : ℕ → ℕ → ProducerActivity → ProducerActivity
note_bytes now bytes entry =
    if ltb entry.last_bytes bytes
    then record entry { last_bytes = bytes; last_change = now; ever_flowed = true }
    else entry

unfoldable pub is_starved : ℕ → ℕ → ProducerActivity → Bool
is_starved now bytes entry =
    leb bytes entry.last_bytes && entry.ever_flowed && leb source_starve (now - entry.last_change)

-- The entry of a session that a viewer watches, before its bytes are looked at.
unfoldable pub entry_of : ℕ → ProducerSample → Option ProducerActivity → ProducerActivity
entry_of now sample found =
    record (unwrap_or found (record {
      last_bytes = sample.byte_count;
      last_change = now;
      ever_flowed = ltb 0 sample.byte_count;
      last_packets_lost = sample.packets_lost;
    })) { last_packets_lost = sample.packets_lost }

unfoldable pub after_reprovision : Result SfuError Unit → ℕ → ProducerActivity → ProducerActivity
after_reprovision (ok _) finished entry = record {
  last_bytes = 0;
  last_change = finished;
  ever_flowed = false;
  last_packets_lost = 0;
}
after_reprovision (err e) finished entry = record entry { last_change = finished }

abbrev pub note_idle : ℕ → ℕ → Text → Option ProducerActivity → Monitor → Monitor
note_idle now bytes session_id none m = m
note_idle now bytes session_id (some entry) m = record m {
  activity = insert session_id (note_bytes now bytes entry) m.activity;
}

unfoldable pub watch : Visit → Text → ProducerSample → Monitor → Monitor
watch v session_id sample m =
    let entry = entry_of v.now sample (lookup session_id m.activity) in
    let (r, manager) = reprovision_plain_producer v.recreation session_id m.manager in
    if is_starved v.now sample.byte_count entry
    then record {
      manager = manager;
      activity = insert session_id (after_reprovision r v.finished entry) m.activity;
    }
    else record m {
      activity = insert session_id (note_bytes v.now sample.byte_count entry) m.activity;
    }

abbrev pub visit_sample : Visit → Text → Option ProducerSample → Monitor → Monitor
visit_sample v session_id none m = record m { activity = remove session_id m.activity }
visit_sample v session_id (some sample) m =
    if sample.has_viewers
    then watch v session_id sample m
    else note_idle v.now sample.byte_count session_id (lookup session_id m.activity) m

-- The body of the loop over the sessions.
unfoldable pub visit : Visit → Text → Monitor → Monitor
visit v session_id m = visit_sample v session_id (producer_sample v.stats session_id m.manager) m

-- `activity.retain`.
unfoldable pub retain : List Text → Assoc ProducerActivity → Assoc ProducerActivity
retain live [] = []
retain live ((sid, entry) ∷ activity) =
    let rest = retain live activity in if member sid live then (sid, entry) ∷ rest else rest

unfoldable pub visit_all : (Text → Visit) → List Text → Monitor → Monitor
visit_all visits [] m = m
visit_all visits (sid ∷ sids) m = visit_all visits sids (visit (visits sid) sid m)

-- One round of the loop: `visits` says what each session's visit finds.
unfoldable pub tick : (Text → Visit) → Monitor → Monitor
tick visits m =
    let live = keys m.manager.sessions in
    visit_all visits live (record m { activity = retain live m.activity })
