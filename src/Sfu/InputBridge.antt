-- ===== src/Sfu/InputBridge.antt =====
-- crates/edge-sfu/src/input_envelope.rs, and the forwarding of crates/edge-sfu/src/
-- neko_input_bridge.rs. An event is its JSON object, field by field. Clipboard text is its UTF-8
-- bytes, by which it is cut.
pub mod Claims
pub mod Clipboard
pub mod Registry
pub mod Endpoint
use dun_tunel.Prelude.{
  ℕ, zero, suc, Text, text, Bool, true, false, not, ◌||◌, ◌&&◌, List, [], ◌∷◌, ◌++◌, Option, none,
  some, leb, ltb, ◌==◌, if◌then◌else◌, length, take, get_elem?,
}
use dun_tunel.Prelude.Int.{ℤ}
use dun_tunel.Sfu.RateLimiter.{RateLimiter, allow}
use dun_tunel.Sfu.RateLimiter

pub data InputEnvelope : Type 0 where
  move : ℕ → ℕ → ℕ → InputEnvelope
  scroll : ℤ → ℤ → ℕ → InputEnvelope
  key_down : ℕ → ℕ → InputEnvelope
  key_up : ℕ → ℕ → InputEnvelope
  clipboard : List ℕ → ℕ → InputEnvelope

pub data Value : Type 0 where
  num : ℕ → Value
  int : ℤ → Value
  bool : Bool → Value
  string : List ℕ → Value

abbrev pub Event : Type 0
Event = List (Text × Value)

abbrev pub max_clipboard_bytes : ℕ
max_clipboard_bytes = 8192

abbrev pub is_continuation : ℕ → Bool
is_continuation b = leb 0x80 b && ltb b 0xc0

abbrev pub starts_char : Option ℕ → Bool
starts_char none = false
starts_char (some b) = not (is_continuation b)

-- `str::is_char_boundary`.
unfoldable pub is_char_boundary : List ℕ → ℕ → Bool
is_char_boundary s i = i == 0 || i == length s || starts_char (get_elem? s i)

-- The `while` loop, from `end` down.
unfoldable pub walk_back : List ℕ → ℕ → ℕ
walk_back s zero = 0
walk_back s (suc end) =
    let rest = walk_back s end in if is_char_boundary s (suc end) then suc end else rest

unfoldable pub truncate_clipboard : List ℕ → List ℕ
truncate_clipboard s =
    if leb (length s) max_clipboard_bytes then s else take (walk_back s max_clipboard_bytes) s

unfoldable pub envelope_to_event : InputEnvelope → Event
envelope_to_event (move x y ts) =
    (text "event", string (text "control/mouse")) ∷ (text "x", num x) ∷ (text "y", num y) ∷ []
envelope_to_event (scroll dx dy ts) =
    (text "event", string (text "control/scroll")) ∷ (text "x", int dx) ∷ (text "y", int dy) ∷ []
envelope_to_event (key_down key ts) =
    (text "event", string (text "control/keyboard"))
    ∷ (text "key", num key)
    ∷ (text "pressed", bool true)
    ∷ []
envelope_to_event (key_up key ts) =
    (text "event", string (text "control/keyboard"))
    ∷ (text "key", num key)
    ∷ (text "pressed", bool false)
    ∷ []
envelope_to_event (clipboard s ts) =
    (text "event", string (text "control/clipboard"))
    ∷ (text "text", string (truncate_clipboard s))
    ∷ []

abbrev pub control_request : Event
control_request = (text "event", string (text "control/request")) ∷ []

-- The bridge of a session: the events that its socket has taken, newest first.
pub record NekoInputBridge : Type 0 where
  pub sent : List Event
  pub control_held : Bool
  pub rate_limiter : RateLimiter

abbrev pub connected : NekoInputBridge
connected = record { sent = []; control_held = false; rate_limiter = RateLimiter.new }

-- Whether the send succeeds, which the socket decides, and the bridge after it.
unfoldable pub send_event : Bool → Event → NekoInputBridge → Bool × NekoInputBridge
send_event works e b = (works, if works then record b { sent = e ∷ b.sent } else b)

-- `compare_exchange(false, true)`: whether this call makes the transition, and the flag after it.
abbrev pub should_send_control_request : Bool → Bool × Bool
should_send_control_request control_held = (not control_held, true)

unfoldable pub claim_control : Bool → NekoInputBridge → Bool × NekoInputBridge
claim_control works b =
    let (claims, held) = should_send_control_request b.control_held in
    let b' = record b { control_held = held } in
    if claims then send_event works control_request b' else (true, b')

abbrev pub after_claim : Bool → Event → Bool × NekoInputBridge → Bool × NekoInputBridge
after_claim works e (true, b) = send_event works e b
after_claim works e (false, b) = (false, b)

-- `forward` at the time `now`, where the socket takes the claim if `claim_works` and the event if
-- `event_works`. The result is whether it returns `Ok`.
unfoldable pub forward : ℕ → Bool → Bool → InputEnvelope → NekoInputBridge → Bool × NekoInputBridge
forward now claim_works event_works ev b =
    let (admits, limiter) = allow b.rate_limiter now in
    let b' = record b { rate_limiter = limiter } in
    if admits
    then after_claim event_works (envelope_to_event ev) (claim_control claim_works b')
    else (true, b')
