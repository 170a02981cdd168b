-- ===== src/Control/Signalling/Connection.antt =====
-- The loop of `run_session` in crates/edge-control/src/routes/sfu_ws.rs. The frames come with what
-- else happens before them, what mediasoup returns, and whether the socket takes the answer.
use dun_tunel.Prelude.{ℕ, Bool, true, false, List, [], ◌∷◌, Option, none, some, Text, text}
use dun_tunel.Prelude.Results.{Result, ok, err}
use dun_tunel.Sfu.Sessions.{RouterManager, SfuError}
use dun_tunel.Sfu.Sessions.Consumers.{
  ConsumedInfo, consume_begin, consume_finish, resume_consumer, set_preferred_layers,
}
use dun_tunel.Sfu.Sessions.Calls.{
  InputMedia, connect_recv_transport, connect_send_transport, produce_input_data,
}
use dun_tunel.Control.Signalling.Protocol.{
  ClientMessage, init, connect_consumer_transport, consume, consumer_resume, set_layers,
  connect_input_transport, produce_input, Frame, text_frame, binary, ping, pong, close, broken,
  ServerMessage, error, connected_consumer_transport, consumed, connected_input_transport,
  input_produced, pong_of, error_code,
}

-- What happens at a frame: before it elsewhere, what mediasoup returns, elsewhere while it consumes,
-- and whether the socket takes what is sent.
pub record Event (Caps : Type 0) : Type 0 where
  pub elsewhere : RouterManager → RouterManager
  pub frame : Frame Caps
  pub works : Bool
  pub consumer : Caps → Option ℕ
  pub meanwhile : RouterManager → RouterManager
  pub input : InputMedia
  pub taken : Bool

-- `written` is what was sent, newest first.
pub record Connection (Caps : Type 0) : Type 0 where
  pub sfu : RouterManager
  pub client_caps : Option Caps
  pub written : List ServerMessage

-- What a message does to the sessions, and the answer to it.
abbrev pub Answer : Type 0
Answer = RouterManager × Option ServerMessage

abbrev pub answer_to :
    {A Caps : Type 0}
    → ClientMessage Caps
    → (A → Option ServerMessage)
    → Result SfuError A × RouterManager
    → Answer
answer_to msg reply (ok a, m) = (m, reply a)
answer_to msg reply (err e, m) = (m, some (error (error_code msg)))

abbrev pub silent : Unit {0} → Option ServerMessage
silent u = none

abbrev pub consume_rest :
    {Caps : Type 0}
    → Event Caps
    → Caps
    → ℕ
    → Text
    → Text
    → RouterManager
    → Result SfuError ℕ
    → Result SfuError ConsumedInfo × RouterManager
consume_rest e caps producer_id session_id viewer_id m (err x) = (err x, m)
consume_rest e caps producer_id session_id viewer_id m (ok transport) =
    consume_finish (e.consumer caps) producer_id session_id viewer_id (e.meanwhile m)

abbrev pub consume_for :
    {Caps : Type 0} → Event Caps → Option Caps → ℕ → Text → Text → RouterManager → Answer
consume_for {Caps} e none producer_id session_id viewer_id m =
    (m, some (error (text "consume_before_init")))
consume_for {Caps} e (some caps) producer_id session_id viewer_id m =
    answer_to {Caps = Caps} (consume producer_id) (λ c. some (consumed c))
      (consume_rest e caps producer_id session_id viewer_id m
        (consume_begin session_id viewer_id m))

-- How the loop goes on after a frame.
pub data Turn (Caps : Type 0) : Type 0 where
  goes_on : Connection Caps → Turn Caps
  ends : Connection Caps → Turn Caps
  fails : Connection Caps → Turn Caps

module _ {Caps : Type 0} (session_id viewer_id : Text) where
  unfoldable pub dispatch : Event Caps → ClientMessage Caps → Option Caps → RouterManager → Answer
  unfolding connect_recv_transport connect_send_transport produce_input_data consume_begin
      consume_finish resume_consumer set_preferred_layers
  dispatch e (init caps) held m = (m, none)
  dispatch e connect_consumer_transport held m =
      answer_to {Caps = Caps} connect_consumer_transport (λ u. some connected_consumer_transport)
        (connect_recv_transport e.works session_id viewer_id m, m)
  dispatch e (consume producer_id) held m = consume_for e held producer_id session_id viewer_id m
  dispatch e (consumer_resume id) held m =
      answer_to {Caps = Caps} (consumer_resume id) silent
        (resume_consumer e.works id session_id viewer_id m, m)
  dispatch e (set_layers id spatial temporal) held m =
      answer_to {Caps = Caps} (set_layers id spatial temporal) silent
        (set_preferred_layers e.works id spatial temporal session_id viewer_id m, m)
  dispatch e connect_input_transport held m =
      answer_to {Caps = Caps} connect_input_transport (λ u. some connected_input_transport)
        (connect_send_transport e.works session_id viewer_id m, m)
  dispatch e produce_input held m =
      answer_to {Caps = Caps} produce_input (λ id. some (input_produced id))
        (produce_input_data e.input session_id viewer_id m)

  abbrev pub held_after : ClientMessage Caps → Option Caps → Option Caps
  held_after msg held = elim msg [ init caps ↦ some caps | _ ↦ held ]

  -- `socket.send(..).await?`.
  abbrev pub write : Bool → Option ServerMessage → Connection Caps → Turn Caps
  write taken none c = goes_on c
  write true (some msg) c = goes_on (record c { written = msg ∷ c.written })
  write false (some msg) c = fails c

  abbrev pub on_message : Event Caps → Option (ClientMessage Caps) → Connection Caps → Turn Caps
  on_message e none c = goes_on c
  on_message e (some msg) c =
      let (m, answer) = dispatch e msg c.client_caps c.sfu in
      write e.taken answer
        (record { sfu = m; client_caps = held_after msg c.client_caps; written = c.written })

  abbrev pub on_frame : Event Caps → Frame Caps → Connection Caps → Turn Caps
  on_frame e (text_frame msg) c = on_message e msg c
  on_frame e binary c = goes_on c
  on_frame e (ping payload) c = write e.taken (some (pong_of payload)) c
  on_frame e pong c = goes_on c
  on_frame e close c = ends c
  on_frame e broken c = ends c

  unfoldable pub turn : Event Caps → Connection Caps → Turn Caps
  unfolding dispatch
  turn e c = on_frame e e.frame (record c { sfu = e.elsewhere c.sfu })

  abbrev pub after_turn :
      (Connection Caps → Bool × Connection Caps) → Turn Caps → Bool × Connection Caps
  after_turn rest (goes_on c) = rest c
  after_turn rest (ends c) = (true, c)
  after_turn rest (fails c) = (false, c)

  -- Whether the loop ends without an error, and where.
  unfoldable pub run_loop : List (Event Caps) → Connection Caps → Bool × Connection Caps
  unfolding turn
  run_loop [] c = (true, c)
  run_loop (e ∷ es) c = after_turn (λ d. run_loop es d) (turn e c)
