-- ===== src/Connection/Handlers.antt =====
-- Each callback of the handshake goes where the protocol allows, or ends the connection.
use transocks_wong.Prelude.{
  ℕ, ◌≡◌, ◌≢◌, refl, Bool, true, false, not, ◌==◌, ◌&&◌, ◌||◌, nonzero, Bool-cases, ◌⊎◌, inl, inr,
  [], ◌∷◌, if◌then◌else◌, arith,
}
use transocks_wong.Machine.{Ptr, Call, Callback, Client, Os, State, Sockaddr, M}
use transocks_wong.Machine.Log.{live, log}
use transocks_wong.Machine.Returns.{Ends, Ends-bind, Ends-mono}
use transocks_wong.Macros.{
  transocks_bufsize, ev_read, transocks_chkbit, bev_event_eof, bev_event_error, bev_event_connected,
}
use transocks_wong.Context.{is_gone, transocks_client_set_timeout}
use transocks_wong.Context.Live.{is_live, is_armed, at_live}
use transocks_wong.Pump.{bufferpump, start_pump_fn, transocks_start_pump}
use transocks_wong.BufferPump.{transocks_bufferpump_start_pump}
use transocks_wong.BufferPump.Facts.{Fact, holds, Holds, FreedOr, holds-live}
use transocks_wong.Socks5.{
  free_client, socks_handshake_stage_errcb, enter_pump, write_request, send_request, await,
  socks_send_connect_request, socks_send_method_selection, relay_onconnect_eventcb,
}
use transocks_wong.Socks5.Replies.{free_client-log}
use transocks_wong.Connection.{
  Phase, connecting, selecting, requesting, pumping, handlers, ConnectionEvent, handshake,
}
use transocks_wong.Connection.Protocol.{Advance, connects, waits, goes_on}
use transocks_wong.Socks5.Handshake.{relay_event, error_event}
use transocks_wong.Connection.Phases.{stands, is_connected, Moves}

abbrev connected : Fact
connected c tr = is_connected c.client_state && not (c.timeout_ev == 0)

module _ (p : Ptr) (ne : p ≢ 0) (os : Os) where
  pub goes_to :
      (ph : Phase) (e : ConnectionEvent) (ph' : Phase) (m : M (Unit {0})) (s : State)
      → Advance ph e ph'
      → Ends (FreedOr (stands ph')) (m os s)
      → Ends (Moves ph e) (m os s)
  goes_to ph e ph' m s a h =
      Ends-mono (FreedOr (stands ph')) (Moves ph e) (m os s) h
        λ _ t. elim [ inl gone ↦ inl gone | inr there ↦ inr (ph', a, there) ]

  free-Freed : (f : Fact) (s : State) → is_live s ≡ true → Ends (FreedOr f) (free_client p os s)
  free-Freed f =
      at_live (FreedOr f) (free_client p) os λ c s g. rw (free_client-log os p c s ne g) (inl refl)

  await_method :
      (bev : Ptr) (s : State)
      → holds connected s ≡ true
      → Ends
          (Holds (stands selecting))
          (await Callback.socks_on_server_selected_method_readcb bev os s)
  unfolding await transocks_client_set_timeout handlers
  await_method bev s h = ground arith

  await_reply :
      (bev : Ptr) (s : State)
      → holds connected s ≡ true
      → Ends
          (Holds (stands requesting))
          (await Callback.socks_on_server_connect_reply_readcb bev os s)
  unfolding await transocks_client_set_timeout handlers
  await_reply bev s h = ground arith

  send_request-Connected :
      (bev : Ptr) (dest : Sockaddr) (s : State)
      → holds connected s ≡ true
      → Ends (Holds connected) (send_request bev dest os s)
  unfolding send_request write_request
  send_request-Connected bev dest s h = ground arith

  -- 0 is returned only with the pump's callbacks set.
  start_pump-Stands :
      (s : State)
      → is_armed s ≡ true
      → Ends
          (λ e t. (is_live t ≡ true) × ((nonzero e ≡ true) ⊎ (holds (stands pumping) t ≡ true)))
          (transocks_start_pump bufferpump p os s)
  unfolding transocks_start_pump start_pump_fn transocks_bufferpump_start_pump handlers
  start_pump-Stands s h = ground arith

  pub free_at :
      (f : Fact) (c : Client) (s : State)
      → is_gone c.client_state ≡ false
      → Ends (FreedOr f) (free_client p os (live c s))
  free_at f c s g = rw (free_client-log os p c s ne g) (inl refl)

  pub enter_pump-Stands :
      (n : ℕ) (bev : Ptr) (c : Client) (s : State)
      → (c.timeout_ev == 0) ≡ false
      → Ends (FreedOr (stands pumping)) (enter_pump bufferpump p n bev os (live c s))
  unfolding enter_pump
  enter_pump-Stands n bev c s a =
      Ends-bind _ (FreedOr (stands pumping)) (transocks_start_pump bufferpump p os _) _ os
        (start_pump-Stands _ (rw a refl))
        λ e t (l, ht). elim (Bool-cases (nonzero e)) [
          | inl failed ↦ rw failed (free-Freed (stands pumping) t l)
          | inr started ↦ rw started (inr (started_there (nonzero e) t started ht))
        ]
    where
      started_there :
          (b : Bool) (t : State)
          → b ≡ false
          → (b ≡ true) ⊎ (holds (stands pumping) t ≡ true)
          → holds (stands pumping) t ≡ true
      started_there b t e (inl h) = absurd (ground arith)
      started_there b t e (inr h) = h

  keep :
      (f : Fact) (m : M (Unit {0})) (s : State)
      → Ends (Holds f) (m os s)
      → Ends (FreedOr f) (m os s)
  keep f m s h = Ends-mono (Holds f) (FreedOr f) (m os s) h λ _ t ht. inr ht

  pub send-Stands :
      (c : Client) (s : State)
      → is_connected c.client_state ≡ true
      → (c.timeout_ev == 0) ≡ false
      → Ends (FreedOr (stands requesting)) (socks_send_connect_request p os (live c s))
  unfolding socks_send_connect_request
  send-Stands c s st a =
      Ends-bind (Holds connected) (FreedOr (stands requesting))
        (send_request c.relay_bev s.dest os (live c s)) _ os
        (send_request-Connected c.relay_bev s.dest (live c s) (ground arith))
        λ sent t ht. elim (Bool-cases sent) [
          | inl written ↦ rw written (
              keep (stands requesting)
                (await Callback.socks_on_server_connect_reply_readcb c.relay_bev) _
                (await_reply c.relay_bev
                  (log (Call.bufferevent_setwatermark c.relay_bev ev_read 10 transocks_bufsize ∷ [])
                    t)
                  ht))
          | inr refused ↦ rw refused (free-Freed (stands requesting) t (holds-live connected t ht))
        ]

  pub ends :
      (ph : Phase) (e : ConnectionEvent) (c : Client) (s : State)
      → is_gone c.client_state ≡ false
      → Ends (Moves ph e) (free_client p os (live c s))
  ends ph e c s g = rw (free_client-log os p c s ne g) (inl refl)

  pub relay_event-Moves :
      (bevs : ℕ) (c : Client) (s : State)
      → is_gone c.client_state ≡ false
      → stands connecting c s.trace ≡ true
      → Ends
          (Moves connecting (handshake (relay_event bevs)))
          (relay_onconnect_eventcb p bevs os (live c s))
  unfolding relay_onconnect_eventcb socks_send_method_selection handlers
  relay_event-Moves bevs c s g fc =
      let a : (c.timeout_ev == 0) ≡ false = ground arith in
      elim (Bool-cases (transocks_chkbit bevs bev_event_connected)) [
        | inl up ↦
            rw (a, up)
              (goes_to connecting (handshake (relay_event bevs)) selecting
                (await Callback.socks_on_server_selected_method_readcb c.relay_bev) _ (connects up)
                (keep (stands selecting)
                  (await Callback.socks_on_server_selected_method_readcb c.relay_bev) _
                  (await_method c.relay_bev _ (rw a refl))))
        | inr other ↦
            rw (a, other)
              (elim (Bool-cases (transocks_chkbit bevs bev_event_error)) [
                | inl error ↦ rw error (
                    ends connecting (handshake (relay_event bevs)) c
                      (log (Call.event_del c.timeout_ev ∷ []) s) g)
                | inr neither ↦ rw neither (inr (connecting, waits other neither, rw (g, fc) refl))
              ])
      ]

  pub error_event-Moves :
      (bevs : ℕ) (ph : Phase) (c : Client) (s : State)
      → is_gone c.client_state ≡ false
      → stands ph c s.trace ≡ true
      → Ends
          (Moves ph (handshake (error_event bevs)))
          (socks_handshake_stage_errcb p bevs os (live c s))
  unfolding socks_handshake_stage_errcb handlers
  error_event-Moves bevs ph c s g fc =
      let a : (c.timeout_ev == 0) ≡ false = ground arith in
      elim (Bool-cases
        (transocks_chkbit bevs bev_event_eof || transocks_chkbit bevs bev_event_error)) [
          | inl bad ↦
              rw (a, bad)
                (ends ph (handshake (error_event bevs)) c (log (Call.event_del c.timeout_ev ∷ []) s)
                  g)
          | inr other ↦ rw (a, other) (inr (ph, goes_on other, rw (g, fc) refl))
        ]

  pub either :
      (P : Unit {0} → State → Type 0) (b : Bool) (m k : M (Unit {0})) (s : State)
      → Ends P (m os s)
      → Ends P (k os s)
      → Ends P ((if b then m else k) os s)
  either P true m k s h h' = h
  either P false m k s h h' = h'
