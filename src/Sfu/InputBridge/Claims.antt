-- ===== src/Sfu/InputBridge/Claims.antt =====
-- What the admin socket receives, over any sequence of inputs.
use dun_tunel.Prelude.{
  ℕ, ◌+◌, ◌≡◌, refl, Bool, true, false, List, [], ◌∷◌, arith, Bool-cases, inl, inr, if◌then◌else◌,
}
use dun_tunel.Sfu.RateLimiter.{allow, prune, RateLimiter}
use dun_tunel.Sfu.InputBridge.{
  InputEnvelope, Event, NekoInputBridge, connected, control_request, envelope_to_event, send_event,
  after_claim, claim_control, forward, move, scroll, key_down, key_up, clipboard,
}

-- One input: the time, whether the socket takes the claim and the event, and the envelope.
pub record Input : Type 0 where
  pub now : ℕ
  pub claim_works : Bool
  pub event_works : Bool
  pub envelope : InputEnvelope

abbrev pub forward_input : Input → NekoInputBridge → Bool × NekoInputBridge
forward_input i b = forward i.now i.claim_works i.event_works i.envelope b

unfoldable pub forward_all : List Input → NekoInputBridge → NekoInputBridge
forward_all [] b = b
forward_all (i ∷ is) b = forward_all is (forward_input i b).1

-- An event with one field: of all events, only the control request.
abbrev pub is_control_request : Event → Bool
is_control_request (field ∷ []) = true
is_control_request _ = false

unfoldable pub control_requests : List Event → ℕ
control_requests [] = 0
control_requests (e ∷ es) = (if is_control_request e then 1 else 0) + control_requests es

envelope_to_event-not_request :
    (ev : InputEnvelope) → is_control_request (envelope_to_event ev) ≡ false
unfolding envelope_to_event
envelope_to_event-not_request (move x y ts) = refl
envelope_to_event-not_request (scroll dx dy ts) = refl
envelope_to_event-not_request (key_down key ts) = refl
envelope_to_event-not_request (key_up key ts) = refl
envelope_to_event-not_request (clipboard s ts) = refl

-- Control is held, and the requests are counted.
abbrev Requested : ℕ → NekoInputBridge → Type 0
Requested n b = (b.control_held ≡ true) × (control_requests b.sent ≡ n)

send_event-Requested :
    (works : Bool) (ev : InputEnvelope) (n : ℕ) (b : NekoInputBridge)
    → Requested n b
    → Requested n (send_event works (envelope_to_event ev) b).1
unfolding send_event control_requests
send_event-Requested true ev n b h = (h.0, ground (arith, envelope_to_event-not_request ev, h.1))
send_event-Requested false ev n b h = h

after_claim-Requested :
    (ev : InputEnvelope) (works claimed : Bool) (n : ℕ) (b : NekoInputBridge)
    → Requested n b
    → Requested n (after_claim works (envelope_to_event ev) (claimed, b)).1
after_claim-Requested ev works true n b h = send_event-Requested works ev n b h
after_claim-Requested ev works false n b h = h

forward-Requested :
    (i : Input) (n : ℕ) (b : NekoInputBridge) → Requested n b → Requested n (forward_input i b).1
unfolding forward claim_control
forward-Requested i n b h = elim (Bool-cases (allow b.rate_limiter i.now).0) [
  | inl y ↦
      rw (y, h.0)
        (after_claim-Requested i.envelope i.event_works true n
          (record {
            sent = b.sent;
            control_held = true;
            rate_limiter = (allow b.rate_limiter i.now).1;
          })
          (refl, h.1))
  | inr n ↦ rw n h
]

forward_all-Requested :
    (is : List Input) (n : ℕ) (b : NekoInputBridge) → Requested n b → Requested n (forward_all is b)
unfolding forward_all
forward_all-Requested [] n b h = h
forward_all-Requested (i ∷ is) n b h =
    forward_all-Requested is n (forward_input i b).1 (forward-Requested i n b h)

claimed-Requested :
    (claims works : Bool) (ev : InputEnvelope) (l : RateLimiter)
    → Requested
        (if claims then 1 else 0)
        (after_claim works (envelope_to_event ev) (
          send_event claims control_request
            (record { sent = []; control_held = true; rate_limiter = l }))).1
unfolding send_event control_requests
claimed-Requested true works ev l = after_claim-Requested ev works true 1 _ (refl, refl)
claimed-Requested false works ev l = (refl, refl)

first-Requested :
    (i : Input) → Requested (if i.claim_works then 1 else 0) (forward_input i connected).1
unfolding forward claim_control allow prune
first-Requested i =
    claimed-Requested i.claim_works i.event_works i.envelope (record { window = i.now ∷ [] })

-- Over any sequence of inputs on a new bridge, the admin socket takes exactly one control request
-- where the claim of the first input works, and none at all where it fails.
pub forward_all-claims_once :
    (i : Input) (is : List Input)
    → control_requests (forward_all (i ∷ is) connected).sent ≡ (if i.claim_works then 1 else 0)
unfolding forward_all
forward_all-claims_once i is =
    (forward_all-Requested is (if i.claim_works then 1 else 0) (forward_input i connected).1
      (first-Requested i)).1
