-- ===== src/Socks5/Completes.antt =====
-- socks5.c: the handshake with a relay that answers as RFC 1928 says, from the connection to the pump.
use transocks_wong.Prelude.{
  ℕ, ◌≡◌, ◌≢◌, refl, true, false, ◌==◌, some, List, [], ◌∷◌, length, arith, if◌then◌else◌, subst,
  sym, ap, ◌∙◌,
}
use transocks_wong.Machine.{
  Ptr, Bytes, Call, Callback, Os, Sockaddr, State, M, ClientState, Client, has_client, skip, ◌>>=◌,
}
use transocks_wong.Machine.Log.{live}
use transocks_wong.Machine.Returns.{Ends, Ends-bind}
use transocks_wong.Macros.{ev_read_write}
use transocks_wong.Context.{is_gone, transocks_client_set_timeout}
use transocks_wong.Context.Live.{is_armed, armed-parts, known}
use transocks_wong.Pump.{bufferpump, start_pump_fn, transocks_start_pump}
use transocks_wong.BufferPump.{transocks_bufferpump_start_pump}
use transocks_wong.Socks5.{
  await, method_select_request, relay_onconnect_eventcb, socks_send_method_selection, enter_pump,
  socks_send_connect_request, socks_on_server_selected_method_readcb,
  socks_on_server_connect_reply_readcb,
}
use transocks_wong.Socks5.Handshake.{
  relay_event, method_readable, reply_readable, handshake_cb, handshake_run,
}
use transocks_wong.Socks5.Codec.{IsDestination, request_of, request_block, send_request-log}
use transocks_wong.Socks5.Replies.{
  available, answer, measured, pulled, drained, checked, selected_method-decides,
  connect_reply-decides,
}
use transocks_wong.Socks5.Relay.{Stage, method, connect, stage, answer_at, messages, IsRelay}

-- A live client, with its timer, whose next answer, messages and destination are known.
abbrev pub At : Stage → List Bytes → Sockaddr → {A : Type 0} → A → State → Type 0
At st ms d _ t = (is_armed t ≡ true) × (stage t.trace ≡ st) × (messages t.trace ≡ ms) × (t.dest ≡ d)

not_zero : (n : ℕ) → (n == 0) ≡ false → n ≢ 0
not_zero n h = λ e. absurd (ground arith)

module _ (os : Os) where
  await_method :
      (bev : Ptr) (s : State) (ms : List Bytes)
      → is_armed s ≡ true
      → messages s.trace ≡ ms
      → Ends (At method ms s.dest) (await Callback.socks_on_server_selected_method_readcb bev os s)
  unfolding await transocks_client_set_timeout stage messages
  await_method bev s ms h e = ground arith

  await_connect :
      (bev : Ptr) (s : State) (ms : List Bytes)
      → is_armed s ≡ true
      → messages s.trace ≡ ms
      → Ends (At connect ms s.dest) (await Callback.socks_on_server_connect_reply_readcb bev os s)
  unfolding await transocks_client_set_timeout stage messages
  await_connect bev s ms h e = ground arith

abbrev pub Pumping : List Bytes → {A : Type 0} → A → State → Type 0
Pumping ms _ t =
    (c : Client) × (t.client ≡ some c)
    × (c.client_state ≡ ClientState.pumping_data)
    × (messages t.trace ≡ ms)

module _ (p : Ptr) (ne : p ≢ 0) (os : Os) (relay : IsRelay os) where
  connected-At :
      (s : State)
      → is_armed s ≡ true
      → Ends
          (At method (method_select_request ∷ messages s.trace) s.dest)
          (relay_onconnect_eventcb p 0x80 os s)
  unfolding relay_onconnect_eventcb socks_send_method_selection messages
  connected-At s h =
      known (At method (method_select_request ∷ messages s.trace) s.dest)
        (relay_onconnect_eventcb p 0x80) os s h
        λ c g a. rw a (
          await_method os c.relay_bev _ (method_select_request ∷ messages s.trace) (rw a refl) refl)

  available_at :
      (c : Client) (s : State) (st : Stage)
      → stage s.trace ≡ st
      → available os c s ≡ length (answer_at st)
  unfolding stage
  available_at c s st e =
      relay.lengths (Call.event_del c.timeout_ev ∷ s.trace) c.relay_bev
      ∙ ap (λ x. length (answer_at x)) e

  answer_of :
      (c : Client) (s : State) (st : Stage) → stage s.trace ≡ st → answer os c s ≡ answer_at st
  unfolding stage
  answer_of c s st e =
      relay.bytes (measured os c s).trace c.relay_bev (available os c s) ∙ ap answer_at e

  send-At :
      (c : Client) (s : State) (ms : List Bytes)
      → is_gone c.client_state ≡ false
      → (c.timeout_ev == 0) ≡ false
      → IsDestination s.dest
      → messages s.trace ≡ ms
      → Ends
          (At connect (request_of s.dest ∷ ms) s.dest)
          (socks_send_connect_request p os (live c s))
  unfolding socks_send_connect_request messages
  send-At c s ms g a d e =
      rw
        (send_request-log os c.relay_bev s.dest (live c s) d
          (relay.allocates s.trace (request_block s.dest)))
        (await_connect os c.relay_bev _ (request_of s.dest ∷ ms) (rw (g, a) refl)
          (ap (λ m. request_of s.dest ∷ m) e))

  selected-At :
      (s : State) (ms : List Bytes)
      → At method ms s.dest tt s
      → IsDestination s.dest
      → Ends
          (At connect (request_of s.dest ∷ ms) s.dest)
          (socks_on_server_selected_method_readcb p os s)
  unfolding stage messages
  selected-At s ms (h, st, e, _) d =
      known (At connect (request_of s.dest ∷ ms) s.dest) (socks_on_server_selected_method_readcb p)
        os s h
        λ c g a.
          let decides =
            selected_method-decides p ne os c g (not_zero c.timeout_ev a) s 5 0 []
              (omega (arith, available_at c s method st)) (answer_of c s method st)
              (relay.drains (pulled os c s).trace c.relay_bev 2) in
          rw (decides, relay.lengths (drained os c s).trace c.relay_bev)
            (send-At c (checked os c s) ms g a d e)

  started-Pumping :
      (c : Client) (s : State) (ms : List Bytes) (n : ℕ)
      → messages s.trace ≡ ms
      → Ends (Pumping ms) (enter_pump bufferpump p n c.relay_bev os (live c s))
  unfolding enter_pump transocks_start_pump start_pump_fn transocks_bufferpump_start_pump messages
  started-Pumping c s ms n e =
      rw (relay.enables _ c.client_bev ev_read_write)
        (rw (relay.enables _ c.relay_bev ev_read_write) (_, refl, refl, e))

  replied-Pumping :
      (s : State) (ms : List Bytes)
      → At connect ms s.dest tt s
      → Ends (Pumping ms) (socks_on_server_connect_reply_readcb bufferpump p os s)
  unfolding stage messages
  replied-Pumping s ms (h, st, e, _) =
      known (Pumping ms) (socks_on_server_connect_reply_readcb bufferpump p) os s h λ c g a.
        let decides =
          connect_reply-decides p ne os c g (not_zero c.timeout_ev a) s bufferpump 5 0 0 1
            (0 ∷ 0 ∷ 0 ∷ 0 ∷ 0 ∷ 0 ∷ []) (omega (arith, available_at c s connect st))
            (answer_of c s connect st) in
        rw decides (started-Pumping c (pulled os c s) ms 10 e)

  next :
      (Q : Unit {0} → State → Type 0) (m : M (Unit {0})) (t : State)
      → is_armed t ≡ true
      → Ends Q (m os t)
      → Ends Q ((has_client >>= λ live. if live then m else skip) os t)
  next Q m t h r = let (c, e, g, a) = armed-parts t h in simp e r

  last :
      (ms : List Bytes) (t : State)
      → Pumping ms tt t
      → Ends (Pumping ms) ((has_client >>= λ live. if live then skip else skip) os t)
  last ms t (c, e, st, w) = simp e (c, refl, st, w)

  replied-last :
      (t : State) (ms : List Bytes)
      → At connect ms t.dest tt t
      → Ends (Pumping ms) (handshake_run p (reply_readable ∷ []) os t)
  unfolding handshake_run handshake_cb
  replied-last t ms h =
      Ends-bind (Pumping ms) (Pumping ms) (socks_on_server_connect_reply_readcb bufferpump p os t) _
        os (replied-Pumping t ms h) λ _ u hu. last ms u hu

  selected-last :
      (t : State) (ms : List Bytes)
      → At method ms t.dest tt t
      → IsDestination t.dest
      → Ends
          (Pumping (request_of t.dest ∷ ms))
          (handshake_run p (method_readable ∷ reply_readable ∷ []) os t)
  unfolding handshake_run handshake_cb
  selected-last t ms h d =
      Ends-bind (At connect (request_of t.dest ∷ ms) t.dest) _
        (socks_on_server_selected_method_readcb p os t) _ os (selected-At t ms h d)
        λ _ u hu.
          next (Pumping (request_of t.dest ∷ ms)) (handshake_run p (reply_readable ∷ [])) u hu.0
            (replied-last u (request_of t.dest ∷ ms) (hu.0, hu.1, hu.2, refl))

  -- With a relay that answers in full, and calls of libevent and the allocator that succeed, the
  -- connection, the answer to the method selection and the answer to the connect request bring a client
  -- that is not gone and whose timer was made, with an IPv4 or IPv6 destination, to the pump of bufferpump.c. The messages that
  -- were written are the method selection, and after it the connect request for that destination.
  pub handshake_run-completes :
      (s : State)
      → is_armed s ≡ true
      → IsDestination s.dest
      → Ends
          (Pumping (request_of s.dest ∷ method_select_request ∷ messages s.trace))
          (handshake_run p (relay_event 0x80 ∷ method_readable ∷ reply_readable ∷ []) os s)
  unfolding handshake_run handshake_cb
  handshake_run-completes s h d =
      let ms = method_select_request ∷ messages s.trace in
      Ends-bind (At method ms s.dest) _ (relay_onconnect_eventcb p 0x80 os s) _ os
        (connected-At s h)
        λ _ t (l, st, e, td).
          next (Pumping (request_of s.dest ∷ ms))
            (handshake_run p (method_readable ∷ reply_readable ∷ [])) t l
            (subst
              (λ x.
                Ends (Pumping (request_of x ∷ ms))
                  (handshake_run p (method_readable ∷ reply_readable ∷ []) os t))
              td (selected-last t ms (l, st, e, refl) (subst IsDestination (sym td) d)))
