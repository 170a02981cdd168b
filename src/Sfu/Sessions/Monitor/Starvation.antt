-- ===== src/Sfu/Sessions/Monitor/Starvation.antt =====
-- When the monitor touches a session's source.
use dun_tunel.Prelude.{
  ℕ, ◌+◌, ◌≤◌, ◌<◌, ◌≡◌, refl, Bool, true, not, List, [], ◌∷◌, Option, none, some, Text, length,
  Assoc, lookup, arith, Bool-cases, Option-cases, inl, inr, ◌⊎◌,
}
use dun_tunel.Sfu.Sessions.{RouterManager, viewer_count}
use dun_tunel.Sfu.Sessions.Monitor.{
  ProducerActivity, ProducerSample, ProducerStat, Visit, Monitor, source_starve, visit, watch,
  note_idle, is_starved, entry_of, producer_sample, sample_source, sample_of, add_stats, is_empty,
}

-- The session has flowed, `bytes` are no more than those on record, and the record has not changed for
-- 12 seconds.
pub record IsSilent (activity : Assoc ProducerActivity) (session_id : Text) (now bytes : ℕ)
    : Type 0 where
  pub entry : ProducerActivity
  pub found : lookup session_id activity ≡ some entry
  pub no_more : bytes ≤ entry.last_bytes
  pub flowed : entry.ever_flowed ≡ true
  pub silent : entry.last_change + source_starve ≤ now

is_starved-flowed :
    (now bytes : ℕ) (entry : ProducerActivity)
    → is_starved now bytes entry ≡ true
    → (entry.ever_flowed ≡ true)
      × (entry.last_change + source_starve ≤ now)
      × (bytes ≤ entry.last_bytes)
unfolding is_starved
is_starved-flowed now bytes entry h = ground arith

starved-IsSilent :
    (activity : Assoc ProducerActivity) (session_id : Text) (now bytes : ℕ)
    (sample : ProducerSample)
    → is_starved now bytes (entry_of now sample (lookup session_id activity)) ≡ true
    → IsSilent activity session_id now bytes
unfolding entry_of
starved-IsSilent activity session_id now bytes sample h =
    let f = is_starved-flowed now bytes (entry_of now sample (lookup session_id activity)) h in
    elim (Option-cases (lookup session_id activity)) [
      | inl e ↦ absurd (omega (arith, (rw e at (f.1))))
      | inr (entry, e) ↦ record {
        entry = entry;
        found = e;
        no_more = rw e at (f.2);
        flowed = rw e at (f.0);
        silent = rw e at (f.1);
      }
    ]

add_stats-has_viewers :
    (stats : List ProducerStat) (sample : ProducerSample)
    → (add_stats sample stats).has_viewers ≡ sample.has_viewers
unfolding add_stats
add_stats-has_viewers [] sample = refl
add_stats-has_viewers (stat ∷ stats) sample = add_stats-has_viewers stats _

sample_of-has_viewers : (b : Bool) (stats : List ProducerStat) → (sample_of b stats).has_viewers ≡ b
unfolding sample_of
sample_of-has_viewers b [] = refl
sample_of-has_viewers b (stat ∷ stats) = add_stats-has_viewers (stat ∷ stats) _

sample_source-has_viewers :
    (producer : Option ℕ) (b : Bool) (stats : Option (List ProducerStat)) {sample : ProducerSample}
    → sample_source producer b stats ≡ some sample
    → sample.has_viewers ≡ b
sample_source-has_viewers none b stats h = cc
sample_source-has_viewers (some p) b none h = cc
sample_source-has_viewers (some p) b (some stats) {sample} h =
    let e : sample_of b stats ≡ sample = cc in rw (← e) (sample_of-has_viewers b stats)

viewers-nonempty {ℓ} : {A : Type ℓ} (xs : List A) → not (is_empty xs) ≡ true → 0 < length xs
viewers-nonempty [] h = ground arith
viewers-nonempty (x ∷ xs) h = omega arith

sampled-viewer_count :
    (stats : Option (List ProducerStat)) (session_id : Text) (m : RouterManager)
    {sample : ProducerSample}
    → producer_sample stats session_id m ≡ some sample
    → sample.has_viewers ≡ true
    → 0 < viewer_count session_id m
unfolding producer_sample viewer_count
sampled-viewer_count stats session_id m {sample} h t =
    elim (Option-cases (lookup session_id m.sessions)) [
      | inl e ↦ absurd (ground (arith, rw (e, producer_sample) at h))
      | inr (s, e) ↦
          let b =
            sample_source-has_viewers s.plain_producer (not (is_empty s.viewers)) stats
              (rw (e, producer_sample) at h) in
          rw (e, viewer_count) (viewers-nonempty s.viewers (cc))
    ]

watch-quiet :
    (v : Visit) (session_id : Text) (sample : ProducerSample) (m : Monitor)
    → ((watch v session_id sample m).manager ≡ m.manager)
      ⊎ IsSilent m.activity session_id v.now sample.byte_count
unfolding watch
watch-quiet v session_id sample m =
    let entry = entry_of v.now sample (lookup session_id m.activity) in
    elim (Bool-cases (is_starved v.now sample.byte_count entry)) [
      | inl y ↦ inr (starved-IsSilent m.activity session_id v.now sample.byte_count sample y)
      | inr n ↦ inl (rw n refl)
    ]

note_idle-manager :
    (now bytes : ℕ) (session_id : Text) (found : Option ProducerActivity) (m : Monitor)
    → (note_idle now bytes session_id found m).manager ≡ m.manager
note_idle-manager now bytes session_id none m = refl
note_idle-manager now bytes session_id (some entry) m = refl

-- A visit of the source monitor leaves every session as it is, unless the visited session has a
-- viewer, its source has flowed before, the visit counts no more bytes than those on record, and the
-- last change on record is at least 12 seconds old.
pub visit-touches_starved :
    (v : Visit) (session_id : Text) (m : Monitor)
    → ((visit v session_id m).manager ≡ m.manager)
      ⊎ ((0 < viewer_count session_id m.manager)
          × (sample : ProducerSample) × (producer_sample v.stats session_id m.manager ≡ some sample)
          × IsSilent m.activity session_id v.now sample.byte_count)
unfolding visit watch entry_of
visit-touches_starved v session_id m =
    elim (Option-cases (producer_sample v.stats session_id m.manager)) [
      | inl e ↦ inl (rw e refl)
      | inr (sample, e) ↦ elim (Bool-cases sample.has_viewers) [
        | inl y ↦ elim (watch-quiet v session_id sample m) [
          | inl q ↦ inl (rw (e, y) q)
          | inr silent ↦
              inr (sampled-viewer_count v.stats session_id m.manager e y, sample, e, silent)
        ]
        | inr n ↦ inl (rw (e, n) (note_idle-manager v.now sample.byte_count session_id _ m))
      ]
    ]
