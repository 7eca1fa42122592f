-- ===== src/Socks5/Failures.antt =====
-- socks5.c: what the error paths release.
use transocks_wong.Prelude.{
  set_of, ℕ, ◌+◌, ◌≤◌, ◌≡◌, ◌≢◌, refl, ℤ, minus_one, int_eq_refl, is_neg, Bool, true, false, ◌&&◌,
  ◌||◌, ◌++◌, ◌==◌, none, some, List, pos, [], ◌∷◌, arith,
}
use transocks_wong.Machine.{
  GlobalEnv, Callback, Ptr, Block, Call, Os, Client, State, ok, fault, Fault, use_after_free,
  null_deref, out_of_bounds,
}
use transocks_wong.Machine.Log.{live, log, count, closes, bev_free_of, counting}
use transocks_wong.Macros.{ev_read_write, ev_write, bev_opt_close_on_free}
use transocks_wong.Context.{is_gone, transocks_client_free, transocks_client_set_timeout}
use transocks_wong.Context.Free.{free_calls}
use transocks_wong.Context.Releases.{closes-free_calls, bev_frees-free_calls}
use transocks_wong.Pump.{splicepump, start_pump_fn, transocks_start_pump}
use transocks_wong.SplicePump.Start.{transocks_splicepump_start_pump}
use transocks_wong.Socks5.{free_client, enter_pump, relay_onconnect_eventcb}
use transocks_wong.Socks5.Connect.{free_relay_bev, close_relay, connect_bev}
use transocks_wong.Socks5.Replies.{free_client-log}

-- `enter_pump`, up to the pump.
abbrev pub entering : Ptr → ℕ → State → State
entering bev n s = log (Call.bufferevent_disable bev ev_read_write ∷ Call.input_drain bev n ∷ []) s

abbrev pub finished : Client → Client
finished c = record c { client_state = transocks_wong.Machine.ClientState.socks5_finish_handshake }

free_client_freed :
    (os : Os) (p : Ptr) (t : State)
    → p ≢ 0
    → t.client ≡ none
    → free_client p os t ≡ fault use_after_free
unfolding free_client transocks_client_free
free_client_freed os p t ne gone = ground arith

-- If the splice pump frees the client in failing to start, the handler of the connect reply frees
-- the client again: a use after free.
pub enter_pump_freed :
    (os : Os) (p bev : Ptr) (n : ℕ) (c : Client) (s t : State)
    → p ≢ 0
    → transocks_splicepump_start_pump p os (entering bev n (live (finished c) s)) ≡ ok minus_one t
    → t.client ≡ none
    → enter_pump splicepump p n bev os (live c s) ≡ fault use_after_free
unfolding enter_pump transocks_start_pump start_pump_fn
enter_pump_freed os p bev n c s t ne start gone = rw start (free_client_freed os p t ne gone)

nat_eq_refl : (n : ℕ) → (n == n) ≡ true
nat_eq_refl n = ground arith

-- A bufferevent is among those that were freed.
unfoldable pub was_freed : Ptr → List Call → Bool
was_freed bev [] = false
was_freed bev (Call.bufferevent_free b ∷ tr) = b == bev || was_freed bev tr
was_freed bev (_ ∷ tr) = was_freed bev tr

-- It was disabled after that.
unfoldable pub is_used_freed : Ptr → List Call → Bool
is_used_freed bev [] = false
is_used_freed bev (Call.bufferevent_disable b n ∷ tr) =
    (b == bev && was_freed bev tr) || is_used_freed bev tr
is_used_freed bev (_ ∷ tr) = is_used_freed bev tr

used-free_calls :
    (p : Ptr) (c : Client) (tr : List Call)
    → c.relay_bev ≢ 0
    → was_freed c.relay_bev tr ≡ true
    → is_used_freed c.relay_bev (free_calls p c ++ tr) ≡ true
unfolding is_used_freed was_freed free_calls
used-free_calls p c tr ne h =
    let same = nat_eq_refl c.relay_bev in let present = set_of c.relay_bev ne in ground arith

-- After a failed connect the relay's bufferevent is freed and its descriptor closed, and then both are
-- released once more with the client, which still names them: the bufferevent is disabled after it
-- was freed, and freed again.
pub free_relay_bev_twice :
    (os : Os) (p bev : Ptr) (fd : ℤ) (c : Client) (s : State)
    → p ≢ 0
    → bev ≢ 0
    → is_neg fd ≡ false
    → is_gone c.client_state ≡ false
    → (t : State) × (free_relay_bev p fd bev os
          (live (record c { relay_fd = fd; relay_bev = bev }) s)
        ≡ ok tt t)
      × (t.client ≡ none)
      × (closes fd s.trace + 2 ≤ closes fd t.trace)
      × (count (bev_free_of bev) s.trace + 2 ≤ count (bev_free_of bev) t.trace)
      × (is_used_freed bev t.trace ≡ true)
unfolding free_relay_bev close_relay was_freed
free_relay_bev_twice os p bev fd c s ne bne open_fd g =
    let c' = record c { relay_fd = fd; relay_bev = bev } in
    let s' = log (Call.close fd ∷ Call.bufferevent_free bev ∷ []) s in
    (
      log (free_calls p c') (record s' { client = none }),
      ground (arith, free_client-log os p c' s' ne g),
      refl,
      simp (counting, closes-free_calls p c' fd, open_fd, int_eq_refl fd) (omega arith),
      simp (counting, bev_frees-free_calls p c' bev, nat_eq_refl bev, set_of bev bne) (omega arith),
      used-free_calls p c' s'.trace bne (let same = nat_eq_refl bev in ground arith),
    )

-- If `evtimer_new` returns NULL for a client without a timer, but the bufferevent is made and its connect
-- succeeds, then `transocks_start_connect_relay`, from the bufferevent on, leaves the client waiting, and
-- `relay_onconnect_eventcb` next dereferences NULL, whichever events libevent tells of.
pub connect_bev-null_timer :
    (os : Os) (p : Ptr) (fd : ℤ) (bevs : ℕ) (c : Client) (e : GlobalEnv) (s : State)
    → (os s.trace (Call.bufferevent_socket_new fd bev_opt_close_on_free)).ptr ≢ 0
    → ((tr : List Call) → (os tr (Call.evtimer_new Callback.socks5_timeout_cb)).ptr ≡ 0)
    → ((tr : List Call) (bev : Ptr) (len : ℕ)
        → (os tr (Call.bufferevent_socket_connect bev len)).ret ≡ pos 0)
    → (t : State) × (connect_bev p fd os
          (record s { client = some (record c { timeout_ev = 0 }); env = some e })
        ≡ ok tt t)
      × (relay_onconnect_eventcb p bevs os t ≡ fault null_deref)
unfolding connect_bev transocks_client_set_timeout relay_onconnect_eventcb
connect_bev-null_timer os p fd bevs c e s made no_timer begun =
    let bev = (os s.trace (Call.bufferevent_socket_new fd bev_opt_close_on_free)).ptr in
    rw
      (
        set_of bev made,
        no_timer (
            Call.bufferevent_enable bev ev_write
            ∷ Call.bufferevent_setcb bev Callback.null Callback.null
                Callback.relay_onconnect_eventcb
            ∷ Call.bufferevent_socket_new fd bev_opt_close_on_free
            ∷ s.trace),
      )
      (rw (begun _ bev e.relay_addr_len) (_, refl, refl))
