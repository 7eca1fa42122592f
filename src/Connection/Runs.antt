-- ===== src/Connection/Runs.antt =====
-- Over any sequence of the callbacks that are set, a connection follows its protocol.
use transocks_wong.Prelude.{
  ℕ, zero, suc, ◌≤◌, ◌≡◌, ◌≢◌, refl, sym, Bool, ◌&&◌, true, false, ◌==◌, ltb, nonzero, Bool-cases,
  inl, inr, none, some, Option, List, [], ◌∷◌, length, arith,
}
use transocks_wong.Machine.{Ptr, Call, ClientState, Client, Os, State, M, ok}
use transocks_wong.Machine.Log.{live, log}
use transocks_wong.Machine.Returns.{Ends, Ends-bind, Ends-mono}
use transocks_wong.Context.{is_gone}
use transocks_wong.Pump.{bufferpump}
use transocks_wong.BufferPump.{bufferpump_cb}
use transocks_wong.BufferPump.Facts.{holds, FreedOr, runs_on, at_held}
use transocks_wong.BufferPump.Flags.{cb-FreedOr}
use transocks_wong.Socks5.{
  socks5_version, socks5_method_noauth, free_client, enter_pump, socks_send_connect_request, byte,
  reply_length, socks_on_server_selected_method_readcb, socks_on_server_connect_reply_readcb,
  socks5_timeout_cb,
}
use transocks_wong.Socks5.Handshake.{
  relay_event, error_event, method_readable, reply_readable, timed_out, handshake_cb, PullsUp,
}
use transocks_wong.Connection.{
  Phase, connecting, selecting, requesting, pumping, handlers, ConnectionEvent, handshake, pump,
  fires, connection_cb, connection_step, connection_run,
}
use transocks_wong.Connection.Protocol.{stays, moves, selects, grants, pumps, ignores}
use transocks_wong.Connection.Phases.{
  stands, same, same-eq, is_connected, fits, stands-IsStable, Moves, Follows,
}
use transocks_wong.Connection.Handlers.{
  goes_to, ends, free_at, enter_pump-Stands, send-Stands, relay_event-Moves, error_event-Moves,
  either,
}

byte_there :
    (os : Os) (mem : List ℕ) (i : ℕ) (s : State)
    → suc i ≤ length mem
    → (b : ℕ) × (byte mem i os s ≡ ok b s)
byte_there os [] i s h = absurd (omega arith)
byte_there os (b ∷ mem) zero s h = (b, refl)
byte_there os (b ∷ mem) (suc i) s h = byte_there os mem i s (omega arith)

enough : (n m k : ℕ) → ltb n m ≡ false → k ≡ n → m ≤ k
enough n m k h e = ground arith

module _ (p : Ptr) (ne : p ≢ 0) (os : Os) (full : PullsUp os) where
  method-Stands :
      (c : Client) (s : State)
      → is_connected c.client_state ≡ true
      → is_gone c.client_state ≡ false
      → (c.timeout_ev == 0) ≡ false
      → Ends (FreedOr (stands requesting)) (socks_on_server_selected_method_readcb p os (live c s))
  unfolding socks_on_server_selected_method_readcb
  method-Stands c s st g a =
      let n = (os (Call.event_del c.timeout_ev ∷ s.trace) (Call.input_length c.relay_bev)).size in
      let s₁ = log (Call.input_length c.relay_bev ∷ Call.event_del c.timeout_ev ∷ []) s in
      let pull = Call.input_pullup c.relay_bev n in
      let mem = (os s₁.trace pull).out in
      let s₂ = log (pull ∷ []) s₁ in
      let drain = Call.input_drain c.relay_bev 2 in
      elim (Bool-cases (ltb n 2)) [
        | inl short ↦ rw (a, short) (free_at p ne os (stands requesting) c s₁ g)
        | inr long ↦
            let room = enough n 2 (length mem) long (full s₁.trace c.relay_bev n) in
            let (ver, ve) = byte_there os mem 0 (live c s₂) (omega (arith, room)) in
            let (method, me) = byte_there os mem 1 (live c s₂) room in
            rw (a, long, ve, me)
              (either p ne os (FreedOr (stands requesting)) (ver == socks5_version) _
                (free_client p) _
                (either p ne os (FreedOr (stands requesting)) (method == socks5_method_noauth) _
                  (free_client p) _
                  (either p ne os (FreedOr (stands requesting)) (nonzero (os s₂.trace drain).ret)
                    (free_client p) _ _
                    (free_at p ne os (stands requesting) c (log (drain ∷ []) s₂) g)
                    (either p ne os (FreedOr (stands requesting)) _ (socks_send_connect_request p)
                      (free_client p) _
                      (send-Stands p ne os c (log (Call.input_length c.relay_bev ∷ drain ∷ []) s₂)
                        st a)
                      (free_at p ne os (stands requesting) c
                        (log (Call.input_length c.relay_bev ∷ drain ∷ []) s₂) g)))
                  (free_at p ne os (stands requesting) c s₂ g))
                (free_at p ne os (stands requesting) c s₂ g))
      ]

  by_length :
      (r : Option ℕ) (bev : Ptr) (c : Client) (s : State)
      → is_gone c.client_state ≡ false
      → (c.timeout_ev == 0) ≡ false
      → Ends (FreedOr (stands pumping)) (
          elim r as (λ _. M (Unit {0})) [
            | none ↦ free_client p
            | some n ↦ enter_pump bufferpump p n bev
          ]
            os
            (live c s))
  by_length none bev c s g a = free_at p ne os (stands pumping) c s g
  by_length (some n) bev c s g a = enter_pump-Stands p ne os n bev c s a

  reply-Stands :
      (c : Client) (s : State)
      → is_gone c.client_state ≡ false
      → (c.timeout_ev == 0) ≡ false
      → Ends
          (FreedOr (stands pumping))
          (socks_on_server_connect_reply_readcb bufferpump p os (live c s))
  unfolding socks_on_server_connect_reply_readcb
  reply-Stands c s g a =
      let n = (os (Call.event_del c.timeout_ev ∷ s.trace) (Call.input_length c.relay_bev)).size in
      let s₁ = log (Call.input_length c.relay_bev ∷ Call.event_del c.timeout_ev ∷ []) s in
      let pull = Call.input_pullup c.relay_bev n in
      let mem = (os s₁.trace pull).out in
      let s₂ = log (pull ∷ []) s₁ in
      elim (Bool-cases (ltb n 10)) [
        | inl short ↦ rw (a, short) (free_at p ne os (stands pumping) c s₁ g)
        | inr long ↦
            let room = enough n 10 (length mem) long (full s₁.trace c.relay_bev n) in
            let (ver, ve) = byte_there os mem 0 (live c s₂) (omega (arith, room)) in
            let (rep, re) = byte_there os mem 1 (live c s₂) (omega (arith, room)) in
            let (atyp, ae) = byte_there os mem 3 (live c s₂) (omega (arith, room)) in
            rw (a, long, ve, re, ae) (by_length (reply_length ver rep atyp) c.relay_bev c s₂ g a)
      ]

  selecting_state :
      (st : ClientState) (ph : Phase) (x : Bool)
      → (fits st ph && same selecting ph && x) ≡ true
      → is_connected st ≡ true
  selecting_state ClientState.relay_connected ph x h = refl
  selecting_state st selecting x h = cc
  selecting_state st ph x h = cc

  -- A callback that is set goes where the protocol allows, or ends the connection.
  cb-Moves :
      (ph : Phase) (e : ConnectionEvent) (c : Client) (s : State)
      → is_gone c.client_state ≡ false
      → stands ph c s.trace ≡ true
      → fires ph e ≡ true
      → Ends (Moves ph e) (connection_cb p e os (live c s))
  unfolding connection_cb handshake_cb socks5_timeout_cb
  cb-Moves pumping (pump e) c s g fc on =
      goes_to p ne os pumping (pump e) pumping (bufferpump_cb p e) _ pumps (
        cb-FreedOr (stands pumping) (stands-IsStable pumping) p ne os e (live c s)
          (rw (g, fc) refl))
  cb-Moves connecting (handshake (relay_event bevs)) c s g fc on =
      relay_event-Moves p ne os bevs c s g fc
  cb-Moves selecting (handshake method_readable) c s g fc on =
      goes_to p ne os selecting (handshake method_readable) requesting
        (socks_on_server_selected_method_readcb p) _ selects
        (method-Stands c s (selecting_state c.client_state (handlers s.trace) _ fc) g
          (ground arith))
  cb-Moves requesting (handshake reply_readable) c s g fc on =
      goes_to p ne os requesting (handshake reply_readable) pumping
        (socks_on_server_connect_reply_readcb bufferpump p) _ grants
        (reply-Stands c s g (ground arith))
  cb-Moves ph (handshake (error_event bevs)) c s g fc on =
      error_event-Moves p ne os bevs ph c s g fc
  cb-Moves ph (handshake timed_out) c s g fc on = ends p ne os ph (handshake timed_out) c s g
  cb-Moves ph e c s g fc on = cc

  step-Moves :
      (ph : Phase) (e : ConnectionEvent) (s : State)
      → holds (stands ph) s ≡ true
      → Ends (Moves ph e) (connection_step p e os s)
  unfolding connection_step
  step-Moves ph e = at_held (stands ph) (Moves ph e) (connection_step p e) os λ c s g fc.
      rw (sym (same-eq ph (handlers s.trace) (ground arith))) (elim (Bool-cases (fires ph e)) [
        | inl on ↦ rw on (cb-Moves ph e c s g fc on)
        | inr off ↦ rw off (inr (ph, ignores off, rw (g, fc) refl))
      ])

  -- From a client that stands in a phase, over any sequence of events: the client is freed, or it stands
  -- in a phase to which the protocol leads.
  pub connection_run-Follows :
      (ph : Phase) (es : List ConnectionEvent) (s : State)
      → holds (stands ph) s ≡ true
      → Ends (Follows ph es) (connection_run p es os s)
  unfolding connection_run
  connection_run-Follows ph [] s h = inr (ph, stays, h)
  connection_run-Follows ph (e ∷ es) s h =
      Ends-bind (Moves ph e) (Follows ph (e ∷ es)) (connection_step p e os s) _ os
        (step-Moves ph e s h)
        λ _ t. elim [
          | inl gone ↦ simp gone (inl refl)
          | inr (ph', a, there) ↦
              runs_on (stands ph') (Follows ph (e ∷ es)) (connection_run p es) os t there (
                Ends-mono (Follows ph' es) (Follows ph (e ∷ es)) (connection_run p es os t)
                  (connection_run-Follows ph' es t there)
                  λ _ u. elim [
                    | inl gone ↦ inl gone
                    | inr (ph'', rest, left) ↦ inr (ph'', moves a rest, left)
                  ])
        ]
