-- ===== src/Sfu/RateLimiter.antt =====
-- `RateLimiter` of crates/edge-sfu/src/neko_input_bridge.rs. Times are nanoseconds of the monotonic
-- clock; the front of the deque is the head of the list.
pub mod Windows
use dun_tunel.Prelude.{
  ℕ, ◌+◌, ◌-◌, ◌*◌, ◌^◌, Bool, true, false, List, [], ◌∷◌, ◌++◌, leb, ltb, if◌then◌else◌, length,
}

abbrev pub max_events_per_second : ℕ
max_events_per_second = 60

abbrev pub rate_window : ℕ
rate_window = 1000000000

pub record RateLimiter : Type 0 where
  pub window : List ℕ

abbrev pub new : RateLimiter
new = record { window = [] }

-- The `while` loop: stamps from the front on that are a window old or older go.
unfoldable pub prune : ℕ → List ℕ → List ℕ
prune now [] = []
prune now (front ∷ rest) =
    let pruned = prune now rest in if leb rate_window (now - front) then pruned else front ∷ rest

unfoldable pub allow : RateLimiter → ℕ → Bool × RateLimiter
allow l now =
    let window = prune now l.window in
    if ltb (length window) max_events_per_second
    then (true, record { window = window ++ now ∷ [] })
    else (false, record { window = window })
