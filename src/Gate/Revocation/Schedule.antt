-- ===== src/Gate/Revocation/Schedule.antt =====
-- The waits between polls, and the freshness of the mirror.
use native.Mathlib.Nat.{pow-suc}
use dun_tunel.Prelude.{
  ℕ, zero, suc, ◌+◌, ◌-◌, ◌*◌, ◌/◌, ◌^◌, ◌≤◌, min, max, some, true, List, [], ◌∷◌, ◌≡◌, refl, arith,
}
use dun_tunel.Gate.Revocation.{
  Poller, RevocationList, Reply, Poll, not_modified, listed, unparsed, http_error, unreachable,
  start_poller, poll, quiet_wait, next_streak, is_fresh,
}
use dun_tunel.Gate.Revocation.Mirror.{Succeeds, quiet, news}

pow-pos : (n : ℕ) → 1 ≤ 2 ^ n
pow-pos zero = omega arith
pow-pos (suc n) = rw pow-suc (omega (arith, pow-pos n))

quiet_wait_bounds :
    (base cap k : ℕ) → base ≤ cap → (base ≤ quiet_wait base cap k) × (quiet_wait base cap k ≤ cap)
unfolding quiet_wait
quiet_wait_bounds base cap k h =
    let grown : base ≤ base * 2 ^ min k 4 = grind (arith, pow-pos (min k 4)) in
    (omega (arith, grown), omega arith)

-- The configuration of the loop, which no round changes.
pub record IsConfigured (poll_interval max_staleness : ℕ) (p : Poller) : Type 0 where
  pub base_lem : p.base ≡ max poll_interval 1000
  pub cap_lem : p.cap ≡ max (min (max_staleness / 2) 60000) p.base

poll-IsConfigured :
    {i m : ℕ} {p : Poller} (r : Poll) → IsConfigured i m p → IsConfigured i m (poll p r)
unfolding poll
poll-IsConfigured r c = record { base_lem = c.base_lem; cap_lem = c.cap_lem }

unfoldable pub run : Poller → List Poll → Poller
run p [] = p
run p (r ∷ rs) = run (poll p r) rs

run-IsConfigured :
    {i m : ℕ} (p : Poller) (rs : List Poll) → IsConfigured i m p → IsConfigured i m (run p rs)
unfolding run
run-IsConfigured p [] c = c
run-IsConfigured p (r ∷ rs) c = run-IsConfigured (poll p r) rs (poll-IsConfigured r c)

start-IsConfigured : (i m now : ℕ) → IsConfigured i m (start_poller i m now)
unfolding start_poller
start-IsConfigured i m now = record { base_lem = refl; cap_lem = refl }

wait_bounds :
    (p : Poller) (r : Poll) (reply : Reply)
    → r.reply ≡ reply
    → p.base ≤ p.cap
    → (r.ended_at + p.base ≤ (poll p r).next_at) × ((poll p r).next_at ≤ r.ended_at + p.cap)
unfolding poll
wait_bounds p r not_modified e h =
    let b = quiet_wait_bounds p.base p.cap (next_streak p.quiet_streak not_modified) h in
    rw (e, poll) (omega (arith, b.0), omega (arith, b.1))
wait_bounds p r (listed jtis etag) e h = rw (e, poll) (omega arith, omega arith)
wait_bounds p r unparsed e h = rw (e, poll) (omega arith, omega arith)
wait_bounds p r http_error e h = rw (e, poll) (omega arith, omega arith)
wait_bounds p r unreachable e h = rw (e, poll) (omega arith, omega arith)

-- After any polls, the wait before the next one is at least the poll interval and at least one
-- second, and is at most the greatest of the poll interval, one second and the lesser of half the
-- permitted staleness and one minute.
pub poll_wait_bounds :
    (poll_interval max_staleness now : ℕ) (rs : List Poll) (r : Poll)
    → let q = poll (run (start_poller poll_interval max_staleness now) rs) r in
      (r.ended_at + max poll_interval 1000 ≤ q.next_at)
      × (q.next_at ≤ r.ended_at + max (min (max_staleness / 2) 60000) (max poll_interval 1000))
poll_wait_bounds poll_interval max_staleness now rs r =
    let p = run (start_poller poll_interval max_staleness now) rs in
    let c = run-IsConfigured _ rs (start-IsConfigured poll_interval max_staleness now) in
    let b = wait_bounds p r r.reply refl (omega (arith, c.cap_lem)) in
    (omega (arith, b.0, c.base_lem), omega (arith, b.1, c.base_lem, c.cap_lem))

-- The list that the request handlers see after a round of the loop.
abbrev pub seen : ℕ → Poller → RevocationList
seen max_staleness p = record {
  inner = p.inner;
  polling_enabled = true;
  max_staleness = max_staleness;
}

last_success-poll :
    (p : Poller) (r : Poll) {reply : Reply}
    → r.reply ≡ reply
    → Succeeds reply
    → (poll p r).inner.last_success ≡ some r.recorded_at
unfolding poll
last_success-poll p r e quiet = rw (e, poll)
last_success-poll p r e news = rw (e, poll)

-- Let a poll get through, its round end at most `d` after its reply was recorded, the next reply be
-- recorded at most `latency` after it is due, and twice the poll interval, two seconds, and twice
-- `d + latency` be within the permitted staleness. Then strict mode holds the mirror to be fresh
-- from that poll's recording until the next one's.
pub stays_fresh :
    (poll_interval max_staleness start : ℕ) (rs : List Poll) (r : Poll) (d latency now : ℕ)
    → Succeeds r.reply
    → r.ended_at ≤ r.recorded_at + d
    → max poll_interval 1000 * 2 + (d + latency) * 2 ≤ max_staleness
    → now ≤ (poll (run (start_poller poll_interval max_staleness start) rs) r).next_at + latency
    → is_fresh
        (seen max_staleness (poll (run (start_poller poll_interval max_staleness start) rs) r))
        now
      ≡ true
unfolding is_fresh
stays_fresh poll_interval max_staleness start rs r d latency now ok ended slack due =
    let p = run (start_poller poll_interval max_staleness start) rs in
    let young : now - r.recorded_at ≤ max_staleness =
      omega (arith, (poll_wait_bounds poll_interval max_staleness start rs r).1) in
    rw (last_success-poll p r refl ok, is_fresh) (ground (arith, young))
