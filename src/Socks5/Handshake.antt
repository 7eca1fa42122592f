-- ===== src/Socks5/Handshake.antt =====
-- socks5.c: the callbacks of the handshake in any sequence, with bufferpump.c as the pump.
use transocks_wong.Prelude.{
  ℕ, suc, ◌≤◌, ◌≡◌, ◌≢◌, refl, Bool, true, false, ◌==◌, ltb, Bool-cases, inl, inr, none, some,
  Option, List, [], ◌∷◌, if◌then◌else◌, arith, length, nonzero, zero,
}
use transocks_wong.Machine.{Ptr, Call, Os, State, M, skip, ◌>>=◌, ◌>>◌, has_client}
use transocks_wong.Machine.Log.{live, log}
use transocks_wong.Machine.Returns.{Ends, Ends-bind}
use transocks_wong.Context.Live.{is_armed, armed-parts, at_armed}
use transocks_wong.Pump.{bufferpump}
use transocks_wong.Socks5.{
  socks5_version, socks5_method_noauth, byte, enter_pump, reply_length, free_client,
  socks_handshake_stage_errcb, socks_on_server_connect_reply_readcb, socks_send_connect_request,
  socks_on_server_selected_method_readcb, relay_onconnect_eventcb, socks5_timeout_cb,
}
use transocks_wong.Socks5.Safety.{
  Live, Settled, free-Settled, enter_pump-Settled, send-Settled, relay_event-Settled,
  error_event-Settled,
}

-- The callbacks that libevent runs during the handshake, with the events that it tells of.
pub data HandshakeEvent : Type 0 where
  relay_event error_event : ℕ → HandshakeEvent
  method_readable reply_readable timed_out : HandshakeEvent

unfoldable pub handshake_cb : Ptr → HandshakeEvent → M (Unit {0})
handshake_cb p (relay_event bevs) = relay_onconnect_eventcb p bevs
handshake_cb p (error_event bevs) = socks_handshake_stage_errcb p bevs
handshake_cb p method_readable = socks_on_server_selected_method_readcb p
handshake_cb p reply_readable = socks_on_server_connect_reply_readcb bufferpump p
handshake_cb p timed_out = socks5_timeout_cb p

-- One callback after another, until the client is freed.
unfoldable pub handshake_run : Ptr → List HandshakeEvent → M (Unit {0})
handshake_run p [] = skip
handshake_run p (e ∷ es) = do
  handshake_cb p e
  live ← has_client
  if live then handshake_run p es else skip

-- `evbuffer_pullup` gives as many bytes as it is asked for.
abbrev pub PullsUp : Os → Type 0
PullsUp os = (tr : List Call) (bev : Ptr) (n : ℕ) → length (os tr (Call.input_pullup bev n)).out ≡ n

byte-Live :
    (os : Os) (mem : List ℕ) (i : ℕ) (s : State)
    → suc i ≤ length mem
    → is_armed s ≡ true
    → Ends Live (byte mem i os s)
byte-Live os [] i s h live = absurd (omega arith)
byte-Live os (b ∷ mem) zero s h live = live
byte-Live os (b ∷ mem) (suc i) s h live = byte-Live os mem i s (omega arith) live

enough : (n m k : ℕ) → ltb n m ≡ false → k ≡ n → m ≤ k
enough n m k h e = ground arith

either :
    (os : Os) (b : Bool) (m k : M (Unit {0})) (s : State)
    → Ends Settled (m os s)
    → Ends Settled (k os s)
    → Ends Settled ((if b then m else k) os s)
either os true m k s h h' = h
either os false m k s h h' = h'

module _ (p : Ptr) (ne : p ≢ 0) (os : Os) (full : PullsUp os) where
  method-Settled :
      (s : State) → is_armed s ≡ true → Ends Settled (socks_on_server_selected_method_readcb p os s)
  unfolding socks_on_server_selected_method_readcb
  method-Settled = at_armed Settled (socks_on_server_selected_method_readcb p) os λ c s g a.
      let n = (os (Call.event_del c.timeout_ev ∷ s.trace) (Call.input_length c.relay_bev)).size in
      let s₁ = log (Call.input_length c.relay_bev ∷ Call.event_del c.timeout_ev ∷ []) s in
      let pull = Call.input_pullup c.relay_bev n in
      let out = (os s₁.trace pull).out in
      elim (Bool-cases (ltb n 2)) [
        | inl short ↦ rw (a, short) (free-Settled p ne os _ (rw (g, a) refl))
        | inr long ↦
            rw (a, long)
              (Ends-bind Live Settled (byte out 0 os (live c (log (pull ∷ []) s₁))) _ os
                (byte-Live os out 0 _
                  (omega (arith, enough n 2 (length out) long (full s₁.trace c.relay_bev n)))
                  (rw (g, a) refl))
                λ ver t ht.
                  Ends-bind Live Settled (byte out 1 os t) _ os
                    (byte-Live os out 1 t
                      (enough n 2 (length out) long (full s₁.trace c.relay_bev n)) ht)
                    λ method u hu.
                      let free = free-Settled p ne os in
                      either os (ver == socks5_version) _ (free_client p) u
                        (either os (method == socks5_method_noauth) _ (free_client p) u
                          (either os (nonzero (os u.trace (Call.input_drain c.relay_bev 2)).ret)
                            (free_client p) _ _ (free _ hu)
                            (either os _ (socks_send_connect_request p) (free_client p) _
                              (send-Settled p ne os _ hu) (free _ hu)))
                          (free u hu))
                        (free u hu))
      ]

  reply-Settled :
      (s : State)
      → is_armed s ≡ true
      → Ends Settled (socks_on_server_connect_reply_readcb bufferpump p os s)
  unfolding socks_on_server_connect_reply_readcb
  reply-Settled = at_armed Settled (socks_on_server_connect_reply_readcb bufferpump p) os λ c s g a.
      let n = (os (Call.event_del c.timeout_ev ∷ s.trace) (Call.input_length c.relay_bev)).size in
      let s₁ = log (Call.input_length c.relay_bev ∷ Call.event_del c.timeout_ev ∷ []) s in
      let pull = Call.input_pullup c.relay_bev n in
      let out = (os s₁.trace pull).out in
      elim (Bool-cases (ltb n 10)) [
        | inl short ↦ rw (a, short) (free-Settled p ne os _ (rw (g, a) refl))
        | inr long ↦
            let room = enough n 10 (length out) long (full s₁.trace c.relay_bev n) in
            rw (a, long)
              (Ends-bind Live Settled (byte out 0 os (live c (log (pull ∷ []) s₁))) _ os
                (byte-Live os out 0 _ (omega (arith, room)) (rw (g, a) refl))
                λ ver t ht.
                  Ends-bind Live Settled (byte out 1 os t) _ os
                    (byte-Live os out 1 t (omega (arith, room)) ht)
                    λ rep u hu.
                      Ends-bind Live Settled (byte out 3 os u) _ os
                        (byte-Live os out 3 u (omega (arith, room)) hu)
                        λ atyp v hv. by_length (reply_length ver rep atyp) c.relay_bev v hv)
      ]
    where
      by_length :
          (r : Option ℕ) (bev : Ptr) (v : State)
          → is_armed v ≡ true
          → Ends Settled (
              elim r as (λ _. M (Unit {0})) [
                | none ↦ free_client p
                | some n ↦ enter_pump bufferpump p n bev
              ]
                os v)
      by_length none bev v hv = free-Settled p ne os v hv
      by_length (some n) bev v hv = enter_pump-Settled p ne os n bev v hv

  cb-Settled :
      (e : HandshakeEvent) (s : State) → is_armed s ≡ true → Ends Settled (handshake_cb p e os s)
  unfolding handshake_cb socks5_timeout_cb
  cb-Settled (relay_event bevs) s h = relay_event-Settled p ne os bevs s h
  cb-Settled (error_event bevs) s h = error_event-Settled p ne os bevs s h
  cb-Settled method_readable s h = method-Settled s h
  cb-Settled reply_readable s h = reply-Settled s h
  cb-Settled timed_out s h = free-Settled p ne os s h

  go_on :
      (m : M (Unit {0})) (t : State)
      → Settled tt t
      → (is_armed t ≡ true → Ends Settled (m os t))
      → Ends Settled ((has_client >>= λ live. if live then m else skip) os t)
  go_on m t (inl e) next = simp e (inl refl)
  go_on m t (inr h) next = let (c, e, g, a) = armed-parts t h in simp e (next h)

  -- Over any sequence of handshake callbacks on a client that is not gone and whose timer was made, with
  -- bufferpump.c as the pump, the code never touches a client that it has freed, and never reads past the bytes that the
  -- relay sent, if `evbuffer_pullup` gives as many as it is asked for. At the end the client is freed,
  -- or it is there with its timer and not gone.
  pub handshake_run-Settled :
      (es : List HandshakeEvent) (s : State)
      → is_armed s ≡ true
      → Ends Settled (handshake_run p es os s)
  unfolding handshake_run
  handshake_run-Settled [] s h = inr h
  handshake_run-Settled (e ∷ es) s h =
      Ends-bind Settled Settled (handshake_cb p e os s) _ os (cb-Settled e s h)
        λ _ t ht. go_on (handshake_run p es) t ht (λ h'. handshake_run-Settled es t h')
