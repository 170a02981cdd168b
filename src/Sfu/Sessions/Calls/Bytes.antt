-- ===== src/Sfu/Sessions/Calls/Bytes.antt =====
-- The sum that `get_session_bytes` comes to.
use dun_tunel.Prelude.{
  ℕ, ◌+◌, ◌≤◌, min, ◌≡◌, ap, ◌∙◌, List, [], ◌∷◌, Option, none, some, Text, lookup, values, arith,
}
use dun_tunel.Prelude.Results.{ok, ◌>>=◌}
use dun_tunel.Sfu.Sessions.{RouterManager, SessionState, ViewerSlot}
use dun_tunel.Sfu.Sessions.Calls.{
  u64_max, saturating_add, Stats, add_stats, add_send, add_viewers, get_session_bytes,
}

-- Both numbers of each statistic.
abbrev pub sum_of : Stats → ℕ
sum_of [] = 0
sum_of ((received, sent) ∷ stats) = received + sent + sum_of stats

-- The transports of the viewers.
abbrev pub transports_of : List ViewerSlot → List ℕ
transports_of [] = []
transports_of (v ∷ vs) = elim v.send_transport [
  | none ↦ v.recv_transport ∷ transports_of vs
  | some t ↦ v.recv_transport ∷ t ∷ transports_of vs
]

abbrev pub sum_over : (ℕ → Stats) → List ℕ → ℕ
sum_over stats [] = 0
sum_over stats (t ∷ ts) = sum_of (stats t) + sum_over stats ts

add_stats-sum :
    (total : ℕ) (stats : Stats)
    → total ≤ u64_max
    → add_stats total stats ≡ min (total + sum_of stats) u64_max
unfolding add_stats
add_stats-sum total [] h = omega (arith, h)
add_stats-sum total ((received, sent) ∷ stats) h =
    omega (
      arith,
      add_stats-sum (saturating_add (saturating_add total received) sent) stats (omega arith),
    )

add_viewers-sum :
    (stats : ℕ → Stats) (total : ℕ) (vs : List ViewerSlot)
    → total ≤ u64_max
    → add_viewers (λ t. some (stats t)) total vs
      ≡ ok (min (total + sum_over stats (transports_of vs)) u64_max)
unfolding add_viewers
add_viewers-sum stats total [] h = ap ok (omega (arith, h))
add_viewers-sum stats total (v ∷ vs) h = from v.send_transport (λ n g. add_viewers-sum stats n vs g)
  where
    received : ℕ
    received = add_stats total (stats v.recv_transport)

    received-sum : received ≡ min (total + sum_of (stats v.recv_transport)) u64_max
    received-sum = add_stats-sum total (stats v.recv_transport) h

    from :
        (o : Option ℕ)
        → ((n : ℕ)
            → n ≤ u64_max
            → add_viewers (λ t. some (stats t)) n vs
              ≡ ok (min (n + sum_over stats (transports_of vs)) u64_max))
        → (add_send (λ t. some (stats t)) o received >>= λ both.
            add_viewers (λ t. some (stats t)) both vs)
          ≡ ok (
              min
                (total
                  + sum_over stats (elim o [
                    | none ↦ v.recv_transport ∷ transports_of vs
                    | some t ↦ v.recv_transport ∷ t ∷ transports_of vs
                  ]))
                u64_max)
    from none rest =
        rest received (omega (arith, received-sum)) ∙ ap ok (omega (arith, received-sum))
    from (some t) rest =
        let both-sum = add_stats-sum received (stats t) (omega (arith, received-sum)) in
        rest (add_stats received (stats t)) (omega (arith, both-sum))
        ∙ ap ok (omega (arith, both-sum, received-sum))

-- Where mediasoup has the statistics of every transport, the bytes of a session are the sum over the
-- transports of its viewers, or the largest number of 64 bits where that is less.
pub get_session_bytes-sum :
    (stats : ℕ → Stats) (session_id : Text) (s : SessionState) (m : RouterManager)
    → lookup session_id m.sessions ≡ some s
    → get_session_bytes (λ t. some (stats t)) session_id m
      ≡ ok (min (sum_over stats (transports_of (values s.viewers))) u64_max)
unfolding get_session_bytes
get_session_bytes-sum stats session_id s m h =
    rw (get_session_bytes, h)
      (add_viewers-sum stats 0 (values s.viewers) (omega arith) ∙ ap ok (omega arith))
