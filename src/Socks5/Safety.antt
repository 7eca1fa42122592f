-- ===== src/Socks5/Safety.antt =====
-- socks5.c: what each step of the handshake leaves of a client, with bufferpump.c as the pump.
use transocks_wong.Prelude.{
  ℕ, ◌≡◌, ◌≢◌, refl, true, ◌||◌, Bool-cases, ◌⊎◌, inl, inr, none, arith, nonzero,
}
use transocks_wong.Machine.{Ptr, Os, State, M, Run, ok, fault, Callback, Sockaddr}
use transocks_wong.Machine.Log.{live}
use transocks_wong.Machine.Returns.{Ends, Ends-bind}
use transocks_wong.Macros.{transocks_chkbit, bev_event_eof, bev_event_error, bev_event_connected}
use transocks_wong.Context.{transocks_client_set_timeout}
use transocks_wong.Pump.{bufferpump, start_pump_fn, transocks_start_pump}
use transocks_wong.BufferPump.{transocks_bufferpump_start_pump}
use transocks_wong.Context.Live.{is_armed, at_armed}
use transocks_wong.Socks5.{
  free_client, socks_handshake_stage_errcb, enter_pump, write_request, send_request, await,
  socks_send_connect_request, socks_send_method_selection, relay_onconnect_eventcb,
}
use transocks_wong.Socks5.Replies.{free_client-log}

abbrev pub Live : {A : Type 0} → A → State → Type 0
Live _ t = is_armed t ≡ true

abbrev pub Settled : {A : Type 0} → A → State → Type 0
Settled _ t = (t.client ≡ none) ⊎ (is_armed t ≡ true)

module _ (p : Ptr) (ne : p ≢ 0) (os : Os) where
  pub free-Settled : (s : State) → is_armed s ≡ true → Ends Settled (free_client p os s)
  free-Settled =
      at_armed Settled (free_client p) os λ c s g a. rw (free_client-log os p c s ne g) (inl refl)

  keep-Settled : (m : M (Unit {0})) (s : State) → Ends Live (m os s) → Ends Settled (m os s)
  keep-Settled m s h = raise (m os s) h
    where
      raise : (r : Run (Unit {0})) → Ends Live r → Ends Settled r
      raise (ok a t) h = inr h
      raise (fault f) h = h

  await-Live :
      (readcb : Callback) (bev : Ptr) (s : State)
      → is_armed s ≡ true
      → Ends Live (await readcb bev os s)
  unfolding await transocks_client_set_timeout
  await-Live readcb bev s h = ground arith

  send_request-Live :
      (bev : Ptr) (dest : Sockaddr) (s : State)
      → is_armed s ≡ true
      → Ends Live (send_request bev dest os s)
  unfolding send_request write_request
  send_request-Live bev dest s h = ground arith

  start_pump-Live :
      (s : State) → is_armed s ≡ true → Ends Live (transocks_start_pump bufferpump p os s)
  unfolding transocks_start_pump start_pump_fn transocks_bufferpump_start_pump
  start_pump-Live s h = ground arith

  pub enter_pump-Settled :
      (n : ℕ) (bev : Ptr) (s : State)
      → is_armed s ≡ true
      → Ends Settled (enter_pump bufferpump p n bev os s)
  unfolding enter_pump
  enter_pump-Settled n bev = at_armed Settled (enter_pump bufferpump p n bev) os λ c s g a.
      Ends-bind Live Settled (transocks_start_pump bufferpump p os _) _ os
        (start_pump-Live _ (rw a refl))
        λ e t ht. elim (Bool-cases (nonzero e)) [
          | inl failed ↦ rw failed (free-Settled t ht)
          | inr started ↦ rw started (inr ht)
        ]

  pub send-Settled :
      (s : State) → is_armed s ≡ true → Ends Settled (socks_send_connect_request p os s)
  unfolding socks_send_connect_request
  send-Settled = at_armed Settled (socks_send_connect_request p) os λ c s g a.
      Ends-bind Live Settled (send_request c.relay_bev s.dest os (live c s)) _ os
        (send_request-Live c.relay_bev s.dest (live c s) (rw (g, a) refl))
        λ sent t ht. elim (Bool-cases sent) [
          | inl written ↦ rw written (
              keep-Settled (await Callback.socks_on_server_connect_reply_readcb c.relay_bev) _
                (await-Live Callback.socks_on_server_connect_reply_readcb c.relay_bev _ ht))
          | inr refused ↦ rw refused (free-Settled t ht)
        ]

  selection-Settled :
      (s : State) → is_armed s ≡ true → Ends Settled (socks_send_method_selection p os s)
  unfolding socks_send_method_selection
  selection-Settled = at_armed Settled (socks_send_method_selection p) os λ c s g a.
      keep-Settled (await Callback.socks_on_server_selected_method_readcb c.relay_bev) _
        (await-Live Callback.socks_on_server_selected_method_readcb c.relay_bev _ (rw (g, a) refl))

  pub relay_event-Settled :
      (bevs : ℕ) (s : State)
      → is_armed s ≡ true
      → Ends Settled (relay_onconnect_eventcb p bevs os s)
  unfolding relay_onconnect_eventcb
  relay_event-Settled bevs = at_armed Settled (relay_onconnect_eventcb p bevs) os λ c s g a.
      elim (Bool-cases (transocks_chkbit bevs bev_event_connected)) [
        | inl connected ↦ rw (a, connected) (selection-Settled _ (rw a refl))
        | inr other ↦
            rw (a, other)
              (elim (Bool-cases (transocks_chkbit bevs bev_event_error)) [
                | inl error ↦ rw error (free-Settled _ (rw (g, a) refl))
                | inr neither ↦ rw neither (inr (rw (g, a) refl))
              ])
      ]

  pub error_event-Settled :
      (bevs : ℕ) (s : State)
      → is_armed s ≡ true
      → Ends Settled (socks_handshake_stage_errcb p bevs os s)
  unfolding socks_handshake_stage_errcb
  error_event-Settled bevs = at_armed Settled (socks_handshake_stage_errcb p bevs) os λ c s g a.
      elim (Bool-cases
        (transocks_chkbit bevs bev_event_eof || transocks_chkbit bevs bev_event_error)) [
          | inl bad ↦ rw (a, bad) (free-Settled _ (rw (g, a) refl))
          | inr other ↦ rw (a, other) (inr (rw (g, a) refl))
        ]
