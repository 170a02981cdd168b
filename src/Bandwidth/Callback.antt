-- ===== src/Bandwidth/Callback.antt =====
-- `Client::send` of crates/edge-callback-client/src/client.rs. Whether an attempt gets a 2xx answer is
-- up to the network: `try_send` says it of each attempt.
pub mod Attempts
pub mod Posts
use dun_tunel.Prelude.{
  ℕ, zero, suc, ◌+◌, ◌*◌, ◌^◌, Bool, true, false, List, [], ◌∷◌, ◌==◌, if◌then◌else◌,
}
use dun_tunel.Shared.Errors.{EdgeResult, ok, err}

-- What the client does: posts the event, sleeps so many milliseconds, or hands the event to `enqueue`.
pub data Action : Type 0 where
  posts : Action
  sleeps : ℕ → Action
  enqueues : Action

-- `enqueue` keeps nothing and returns `Ok`.
abbrev pub enqueue : EdgeResult (Unit {0})
enqueue = ok tt

-- The attempts from `attempt` on, of which `left` remain.
unfoldable pub attempts : (ℕ → Bool) → ℕ → ℕ → EdgeResult (Unit {0}) × List Action
attempts try_send zero attempt = (ok tt, [])
attempts try_send (suc left) attempt =
    let rest = attempts try_send left (attempt + 1) in
    if try_send attempt
    then (ok tt, posts ∷ [])
    else if attempt == 2
    then (enqueue, posts ∷ enqueues ∷ [])
    else (rest.0, posts ∷ sleeps (200 * 3 ^ attempt) ∷ rest.1)

unfoldable pub send : (ℕ → Bool) → EdgeResult (Unit {0}) × List Action
send try_send = attempts try_send 3 0
