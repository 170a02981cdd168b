-- ===== src/Control/Signalling/Replies.antt =====
-- What the loop of a connection sends.
use dun_tunel.Prelude.{
  ℕ, suc, ◌+◌, ◌≤◌, ◌≡◌, refl, Bool, true, false, List, [], ◌∷◌, Option, none, some, Text, All,
  length, arith, sym, subst, ◌∙◌, ap,
}
use dun_tunel.Prelude.Results.{Result, ok, err}
use dun_tunel.Sfu.Sessions.{RouterManager, SfuError}
use dun_tunel.Sfu.Sessions.Calls.{
  connect_recv_transport, connect_send_transport, produce_input_data,
}
use dun_tunel.Sfu.Sessions.Calls.Kept.{consumers_of, produce_input_data-consumers_of}
use dun_tunel.Sfu.Sessions.Consumers.{resume_consumer, set_preferred_layers}
use dun_tunel.Control.Signalling.Protocol.{
  ClientMessage, init, connect_consumer_transport, consume, consumer_resume, set_layers,
  connect_input_transport, produce_input, Frame, text_frame, binary, ping, pong, close, broken,
  ServerMessage, init_payload, connected_consumer_transport, consumed, connected_input_transport,
  input_produced, pong_of,
}
use dun_tunel.Control.Signalling.Connection.{
  Event, Connection, Turn, goes_on, ends, fails, write, on_message, dispatch, turn, run_loop,
  answer_to, silent, held_after, on_frame, after_turn,
}

abbrev pub is_consumed : ServerMessage → Bool
is_consumed msg = elim msg [ init_payload p ↦ false | consumed c ↦ true | _ ↦ false ]

-- The client does not send its capabilities.
abbrev pub is_init : {Caps : Type 0} → Frame Caps → Bool
is_init frame = elim frame [
  | binary ↦ false
  | text_frame msg ↦ elim msg [ none ↦ false | some m ↦ elim m [ init caps ↦ true | _ ↦ false ] ]
  | _ ↦ false
]

abbrev pub answered_by : Option ServerMessage → Bool
answered_by none = false
answered_by (some msg) = is_consumed msg

abbrev pub NotConsumed : List ServerMessage → Type 0
NotConsumed = All (λ msg. is_consumed msg ≡ false)

-- The media server has these consumers for the viewer.
abbrev pub Has : Text → Text → List ℕ → RouterManager → Type 0
Has session_id viewer_id had m = consumers_of session_id viewer_id m ≡ had

module _ {Caps : Type 0} (session_id viewer_id : Text) where
  answer_to-other :
      {A : Type 0} (msg : ClientMessage Caps) (reply : A → Option ServerMessage)
      (r : Result SfuError A × RouterManager)
      → ((a : A) → answered_by (reply a) ≡ false)
      → answered_by (answer_to msg reply r).1 ≡ false
  answer_to-other msg reply (ok a, m) h = h a
  answer_to-other msg reply (err e, m) h = refl

  dispatch-other :
      (e : Event Caps) (msg : ClientMessage Caps) (m : RouterManager)
      → answered_by (dispatch session_id viewer_id e msg none m).1 ≡ false
  unfolding dispatch
  dispatch-other e (init caps) m = refl
  dispatch-other e connect_consumer_transport m =
      answer_to-other connect_consumer_transport (λ u. some connected_consumer_transport)
        (connect_recv_transport e.works session_id viewer_id m, m) (λ u. refl)
  dispatch-other e (consume id) m = refl
  dispatch-other e (consumer_resume id) m =
      answer_to-other (consumer_resume id) silent
        (resume_consumer e.works id session_id viewer_id m, m) (λ u. refl)
  dispatch-other e (set_layers id spatial temporal) m =
      answer_to-other (set_layers id spatial temporal) silent
        (set_preferred_layers e.works id spatial temporal session_id viewer_id m, m) (λ u. refl)
  dispatch-other e connect_input_transport m =
      answer_to-other connect_input_transport (λ u. some connected_input_transport)
        (connect_send_transport e.works session_id viewer_id m, m) (λ u. refl)
  dispatch-other e produce_input m =
      answer_to-other produce_input (λ id. some (input_produced id))
        (produce_input_data e.input session_id viewer_id m) (λ id. refl)

  answer_to-sfu :
      {A : Type 0} (msg : ClientMessage Caps) (reply : A → Option ServerMessage)
      (r : Result SfuError A × RouterManager)
      → (answer_to msg reply r).0 ≡ r.1
  answer_to-sfu msg reply (ok a, m) = refl
  answer_to-sfu msg reply (err e, m) = refl

  dispatch-Has :
      (had : List ℕ) (e : Event Caps) (msg : ClientMessage Caps) (m : RouterManager)
      → Has session_id viewer_id had m
      → Has session_id viewer_id had (dispatch session_id viewer_id e msg none m).0
  unfolding dispatch
  dispatch-Has had e (init caps) m h = h
  dispatch-Has had e connect_consumer_transport m h =
      subst (Has session_id viewer_id had) (sym (answer_to-sfu connect_consumer_transport _ _)) h
  dispatch-Has had e (consume id) m h = h
  dispatch-Has had e (consumer_resume id) m h =
      subst (Has session_id viewer_id had) (sym (answer_to-sfu (consumer_resume id) silent _)) h
  dispatch-Has had e (set_layers id spatial temporal) m h =
      subst (Has session_id viewer_id had)
        (sym (answer_to-sfu (set_layers id spatial temporal) silent _)) h
  dispatch-Has had e connect_input_transport m h =
      subst (Has session_id viewer_id had) (sym (answer_to-sfu connect_input_transport _ _)) h
  dispatch-Has had e produce_input m h =
      ap (consumers_of session_id viewer_id) (
        answer_to-sfu produce_input (λ id. some (input_produced id))
          (produce_input_data e.input session_id viewer_id m))
      ∙ produce_input_data-consumers_of e.input session_id viewer_id m
      ∙ h

  -- The connection that a turn leaves.
  abbrev pub left_by : Turn Caps → Connection Caps
  left_by (goes_on c) = c
  left_by (ends c) = c
  left_by (fails c) = c

  abbrev Before : List ℕ → Connection Caps → Type 0
  Before had c =
      (c.client_caps ≡ none) × (NotConsumed c.written × Has session_id viewer_id had c.sfu)

  write-other :
      (had : List ℕ) (taken : Bool) (o : Option ServerMessage) (c : Connection Caps)
      → answered_by o ≡ false
      → Before had c
      → Before had (left_by (write session_id viewer_id taken o c))
  write-other had taken none c h g = g
  write-other had true (some msg) c h g = (g.0, ((h, g.1.0), g.1.1))
  write-other had false (some msg) c h g = g

  held_after-other :
      (msg : ClientMessage Caps) (held : Option Caps)
      → is_init (text_frame (some msg)) ≡ false
      → held ≡ none
      → held_after session_id viewer_id msg held ≡ none
  held_after-other (init caps) held n h = cc
  held_after-other connect_consumer_transport held n h = h
  held_after-other (consume id) held n h = h
  held_after-other (consumer_resume id) held n h = h
  held_after-other (set_layers id spatial temporal) held n h = h
  held_after-other connect_input_transport held n h = h
  held_after-other produce_input held n h = h

  on_message-other :
      (had : List ℕ) (e : Event Caps) (msg : Option (ClientMessage Caps)) (c : Connection Caps)
      → is_init (text_frame msg) ≡ false
      → Before had c
      → Before had (left_by (on_message session_id viewer_id e msg c))
  on_message-other had e none c n g = g
  on_message-other had e (some msg) c n g =
      let (m, answer) = dispatch session_id viewer_id e msg c.client_caps c.sfu in
      write-other had e.taken answer
        (record {
          sfu = m;
          client_caps = held_after session_id viewer_id msg c.client_caps;
          written = c.written;
        })
        (subst (λ held. answered_by (dispatch session_id viewer_id e msg held c.sfu).1 ≡ false)
          (sym g.0) (dispatch-other e msg c.sfu))
        (
          held_after-other msg c.client_caps n g.0,
          (
            g.1.0,
            subst
                (λ held.
                  Has session_id viewer_id had (dispatch session_id viewer_id e msg held c.sfu).0)
                (sym g.0) (dispatch-Has had e msg c.sfu g.1.1),
          ),
        )

  on_frame-other :
      (had : List ℕ) (e : Event Caps) (frame : Frame Caps) (c : Connection Caps)
      → is_init frame ≡ false
      → Before had c
      → Before had (left_by (on_frame session_id viewer_id e frame c))
  on_frame-other had e (text_frame msg) c n g = on_message-other had e msg c n g
  on_frame-other had e binary c n g = g
  on_frame-other had e (ping payload) c n g =
      write-other had e.taken (some (pong_of payload)) c refl g
  on_frame-other had e pong c n g = g
  on_frame-other had e close c n g = g
  on_frame-other had e broken c n g = g

  -- No Consumed message was written, and the media server has these consumers for the viewer.
  abbrev pub Unconsumed : List ℕ → Connection Caps → Type 0
  Unconsumed had c = NotConsumed c.written × Has session_id viewer_id had c.sfu

  after_turn-other :
      (had : List ℕ) (rest : Connection Caps → Bool × Connection Caps) (t : Turn Caps)
      → Before had (left_by t)
      → ((d : Connection Caps) → Before had d → Unconsumed had (rest d).1)
      → Unconsumed had (after_turn session_id viewer_id rest t).1
  after_turn-other had rest (goes_on d) b k = k d b
  after_turn-other had rest (ends d) b k = b.1
  after_turn-other had rest (fails d) b k = b.1

  run_loop-Unconsumed :
      (had : List ℕ) (es : List (Event Caps)) (c : Connection Caps)
      → All (λ e. is_init e.frame ≡ false) es
      → All
          (λ e.
            (m : RouterManager)
            → Has session_id viewer_id had m
            → Has session_id viewer_id had (e.elsewhere m))
          es
      → Before had c
      → Unconsumed had (run_loop session_id viewer_id es c).1
  unfolding run_loop turn
  run_loop-Unconsumed had [] c n k b = b.1
  run_loop-Unconsumed had (e ∷ es) c n k b =
      after_turn-other had (λ d. run_loop session_id viewer_id es d) (turn session_id viewer_id e c)
        (on_frame-other had e e.frame (record c { sfu = e.elsewhere c.sfu }) n.0
          (b.0, (b.1.0, k.0 c.sfu b.1.1)))
        (λ d b'. run_loop-Unconsumed had es d n.1 k.1 b')

  -- Let a connection have no capabilities of the client and no Consumed message among those written.
  -- Let the client send no capabilities, and let what happens elsewhere between its frames leave the
  -- consumers that the media server has for this viewer. Whatever else the client sends, mediasoup
  -- returns and the socket takes, the loop leaves those consumers as they were, and no Consumed
  -- message is among those written.
  pub run_loop-NotConsumed :
      (es : List (Event Caps)) (c : Connection Caps)
      → All (λ e. is_init e.frame ≡ false) es
      → c.client_caps ≡ none
      → NotConsumed c.written
      → All
          (λ e.
            (m : RouterManager)
            → consumers_of session_id viewer_id m ≡ consumers_of session_id viewer_id c.sfu
            → consumers_of session_id viewer_id (e.elsewhere m)
              ≡ consumers_of session_id viewer_id c.sfu)
          es
      → NotConsumed (run_loop session_id viewer_id es c).1.written
        × (consumers_of session_id viewer_id (run_loop session_id viewer_id es c).1.sfu
            ≡ consumers_of session_id viewer_id c.sfu)
  run_loop-NotConsumed es c n held g k =
      run_loop-Unconsumed (consumers_of session_id viewer_id c.sfu) es c n k (held, (g, refl))

  -- A turn writes one message at most, and fails only where the socket does.
  abbrev Modest : Bool → Connection Caps → Turn Caps → Type 0
  Modest taken c (goes_on d) = length d.written ≤ suc (length c.written)
  Modest taken c (ends d) = length d.written ≤ suc (length c.written)
  Modest taken c (fails d) = (taken ≡ false) × (length d.written ≤ suc (length c.written))

  write-Modest :
      (taken : Bool) (o : Option ServerMessage) (c : Connection Caps)
      → Modest taken c (write session_id viewer_id taken o c)
  write-Modest taken none c = omega arith
  write-Modest true (some msg) c = omega arith
  write-Modest false (some msg) c = (refl, omega arith)

  on_frame-Modest :
      (e : Event Caps) (frame : Frame Caps) (c : Connection Caps)
      → Modest e.taken c (on_frame session_id viewer_id e frame c)
  on_frame-Modest e (text_frame none) c = omega arith
  on_frame-Modest e (text_frame (some msg)) c =
      let (m, answer) = dispatch session_id viewer_id e msg c.client_caps c.sfu in
      write-Modest e.taken answer _
  on_frame-Modest e binary c = omega arith
  on_frame-Modest e (ping payload) c = write-Modest e.taken (some (pong_of payload)) c
  on_frame-Modest e pong c = omega arith
  on_frame-Modest e close c = omega arith
  on_frame-Modest e broken c = omega arith

  after_turn-length :
      (n : ℕ) (taken : Bool) (c : Connection Caps) (rest : Connection Caps → Bool × Connection Caps)
      (t : Turn Caps)
      → Modest taken c t
      → ((d : Connection Caps) → length (rest d).1.written ≤ n + length d.written)
      → length (after_turn session_id viewer_id rest t).1.written ≤ suc n + length c.written
  after_turn-length n taken c rest (goes_on d) h k = omega (arith, h, k d)
  after_turn-length n taken c rest (ends d) h k = omega (arith, h)
  after_turn-length n taken c rest (fails d) h k = omega (arith, h.1)

  -- There is one message to the client for a frame, or none.
  pub run_loop-length :
      (es : List (Event Caps)) (c : Connection Caps)
      → length (run_loop session_id viewer_id es c).1.written ≤ length es + length c.written
  unfolding run_loop turn
  run_loop-length [] c = omega arith
  run_loop-length (e ∷ es) c =
      after_turn-length (length es) e.taken (record c { sfu = e.elsewhere c.sfu })
        (λ d. run_loop session_id viewer_id es d) (turn session_id viewer_id e c)
        (on_frame-Modest e e.frame (record c { sfu = e.elsewhere c.sfu }))
        (λ d. run_loop-length es d)

  after_turn-served :
      (taken : Bool) (c : Connection Caps) (rest : Connection Caps → Bool × Connection Caps)
      (t : Turn Caps)
      → Modest taken c t
      → taken ≡ true
      → ((d : Connection Caps) → (rest d).0 ≡ true)
      → (after_turn session_id viewer_id rest t).0 ≡ true
  after_turn-served taken c rest (goes_on d) h y k = k d
  after_turn-served taken c rest (ends d) h y k = refl
  after_turn-served taken c rest (fails d) h y k = cc (h.0, y)

  -- Whatever the client sends and mediasoup returns, the loop ends without an error as long as the
  -- socket takes the answers.
  pub run_loop-served :
      (es : List (Event Caps)) (c : Connection Caps)
      → All (λ e. e.taken ≡ true) es
      → (run_loop session_id viewer_id es c).0 ≡ true
  unfolding run_loop turn
  run_loop-served [] c h = refl
  run_loop-served (e ∷ es) c h =
      after_turn-served e.taken (record c { sfu = e.elsewhere c.sfu })
        (λ d. run_loop session_id viewer_id es d) (turn session_id viewer_id e c)
        (on_frame-Modest e e.frame (record c { sfu = e.elsewhere c.sfu })) h.0
        (λ d. run_loop-served es d h.1)
