-- ===== src/Bandwidth/Callback/Attempts.antt =====
-- How often the client tries, how long it waits, and what becomes of the event.
use dun_tunel.Prelude.{
  ℕ, ◌+◌, ◌≡◌, ◌↔◌, refl, Bool, true, false, List, [], ◌∷◌, arith, Bool-cases, inl, inr,
  if◌then◌else◌,
}
use dun_tunel.Shared.Errors.{ok}
use dun_tunel.Bandwidth.Callback.{Action, posts, sleeps, enqueues, attempts, send}

unfoldable pub posted : List Action → ℕ
posted [] = 0
posted (posts ∷ rest) = 1 + posted rest
posted (sleeps ms ∷ rest) = posted rest
posted (enqueues ∷ rest) = posted rest

unfoldable pub slept : List Action → ℕ
slept [] = 0
slept (posts ∷ rest) = slept rest
slept (sleeps ms ∷ rest) = ms + slept rest
slept (enqueues ∷ rest) = slept rest

unfoldable pub given_up : List Action → Bool
given_up [] = false
given_up (posts ∷ rest) = given_up rest
given_up (sleeps ms ∷ rest) = given_up rest
given_up (enqueues ∷ rest) = true

-- `send` returns `Ok` whatever the network does. It makes one attempt after each that fails, three at
-- most, and waits 200 ms after the first and 600 ms after the second. It hands the event to
-- `enqueue` exactly when all three attempts fail.
pub send-attempts :
    (try_send : ℕ → Bool)
    → let (result, actions) = send try_send in
      (result ≡ ok tt)
      × (posted actions ≡ (if try_send 0 then 1 else if try_send 1 then 2 else 3))
      × (slept actions ≡ (if try_send 0 then 0 else if try_send 1 then 200 else 800))
      × ((given_up actions ≡ true)
          ↔ ((try_send 0 ≡ false) × (try_send 1 ≡ false) × (try_send 2 ≡ false)))
unfolding send attempts posted slept given_up
send-attempts try_send = elim (Bool-cases (try_send 0)) [
  | inl a ↦ rw a (refl, refl, refl, ground arith)
  | inr a ↦ elim (Bool-cases (try_send 1)) [
    | inl b ↦ rw (a, b) (refl, refl, refl, ground arith)
    | inr b ↦ elim (Bool-cases (try_send 2)) [
      | inl c ↦ rw (a, b, c) (refl, refl, refl, ground arith)
      | inr c ↦ rw (a, b, c) (refl, refl, refl, ground arith)
    ]
  ]
]
