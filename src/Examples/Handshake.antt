-- ===== src/Examples/Handshake.antt =====
-- The handshake of socks5.c with a concrete relay.
use transocks_wong.Prelude.{
  ℕ, zero, suc, ◌+◌, ◌≤◌, ◌≡◌, refl, ap, pos, minus_one, true, none, some, [], ◌∷◌, length, arith,
  inl,
}
use transocks_wong.Machine.{Bytes, Block, Call, Os, State, ok, fault, use_after_free, null_deref}
use transocks_wong.Machine.Log.{closes, count, bev_free_of, live, log}
use transocks_wong.Machine.Returns.{Ends}
use transocks_wong.Context.Free.{free_calls}
use transocks_wong.Pump.{bufferpump, splicepump}
use transocks_wong.SplicePump.Start.{
  disable_bevs, attach, open_pipe, start_steps, transocks_splicepump_start_pump,
}
use transocks_wong.SplicePump.{transocks_splicepump_free, close_pipe, del_events, free_events}
use transocks_wong.Context.{
  transocks_client_free, shutdown_fds, close_fds, free_timeout, disable_bufferevents,
  free_bufferevents, free_addrs,
}
use transocks_wong.Util.{createpipe}
use transocks_wong.Socks5.{
  relay_onconnect_eventcb, socks_request_ipv4, method_select_request, enter_pump, send_request,
  socks_on_server_connect_reply_readcb, socks_on_server_selected_method_readcb,
}
use transocks_wong.Socks5.Connect.{free_relay_bev, connect_bev}
use transocks_wong.GlobalEnv.{zero_env}
use transocks_wong.Socks5.Codec
use transocks_wong.Socks5.Replies
use transocks_wong.Socks5.Failures
use transocks_wong.Socks5.Completes
use transocks_wong.Socks5.Relay
use transocks_wong.Socks5.Safety.{Settled}
use transocks_wong.Socks5.Handshake as Runs
use transocks_wong.Socks5.Handshake.{
  HandshakeEvent, relay_event, error_event, method_readable, reply_readable, timed_out,
  handshake_run,
}
use transocks_wong.Examples.World.{reply, calm, guest, still, met, destination, nine, forty}

-- Exactly `n` bytes that begin with the ones given.
pub fill : ℕ → Bytes → Bytes
fill zero bs = []
fill (suc n) [] = 0 ∷ fill n []
fill (suc n) (b ∷ bs) = b ∷ fill n bs

pub length-fill : (n : ℕ) (bs : Bytes) → length (fill n bs) ≡ n
unfolding fill
length-fill zero bs = refl
length-fill (suc n) [] = ap suc (length-fill n [])
length-fill (suc n) (b ∷ bs) = ap suc (length-fill n bs)

-- The relay's input holds `size` bytes, which begin with `bytes`.
abbrev relay : ℕ → Bytes → Os
relay size bytes tr (Call.input_length bev) = record (reply (pos 0) 7) { size = size }
relay size bytes tr (Call.input_pullup bev n) = record (reply (pos 0) 7) { out = fill n bytes }
relay size bytes tr c = reply (pos 0) 7

handshake_run-Settled_example : Ends Settled (
    handshake_run 9
      (relay_event 0x80 ∷ method_readable ∷ reply_readable ∷ [])
      (relay 10 (5 ∷ 0 ∷ []))
      met)
handshake_run-Settled_example =
    Runs.handshake_run-Settled 9 nine (relay 10 (5 ∷ 0 ∷ []))
      (λ tr bev n. length-fill n (5 ∷ 0 ∷ []))
      (relay_event 0x80 ∷ method_readable ∷ reply_readable ∷ []) met refl

send_request-decodes_example :
    (send_request 31 destination calm still
      ≡ ok true (
          log
            (Call.free 7
              ∷ Call.bufferevent_write 31 (5 ∷ 1 ∷ 0 ∷ 1 ∷ 93 ∷ 184 ∷ 216 ∷ 34 ∷ 0 ∷ 80 ∷ [])
              ∷ Call.malloc Block.socks_request_ipv4
              ∷ [])
            still))
    × (Codec.decode_request (5 ∷ 1 ∷ 0 ∷ 1 ∷ 93 ∷ 184 ∷ 216 ∷ 34 ∷ 0 ∷ 80 ∷ [])
        ≡ some (Codec.connect_to destination))
unfolding socks_request_ipv4
send_request-decodes_example =
    Codec.send_request-decodes calm 31 destination still (inl (refl, refl, refl))
      λ e. absurd (omega arith)

connect_reply-decides_example :
    socks_on_server_connect_reply_readcb bufferpump 9
      (relay 10 (5 ∷ 5 ∷ 0 ∷ 1 ∷ []))
      (live guest still)
    ≡ ok tt (
        log
          (free_calls 9 guest)
          (record (Replies.pulled (relay 10 (5 ∷ 5 ∷ 0 ∷ 1 ∷ [])) guest still) { client = none }))
unfolding fill
connect_reply-decides_example =
    Replies.connect_reply-decides 9 nine (relay 10 (5 ∷ 5 ∷ 0 ∷ 1 ∷ [])) guest refl forty still
      bufferpump 5 5 0 1 _ (omega arith) refl

-- The relay chose the method, and 2 bytes are drained; `evbuffer_get_length` goes on giving 2.
selected_method-decides_example :
    socks_on_server_selected_method_readcb 9 (relay 2 (5 ∷ 0 ∷ [])) (live guest still)
    ≡ ok tt (
        log
          (free_calls 9 guest)
          (record (Replies.checked (relay 2 (5 ∷ 0 ∷ [])) guest still) { client = none }))
unfolding fill
selected_method-decides_example =
    Replies.selected_method-decides 9 nine (relay 2 (5 ∷ 0 ∷ [])) guest refl forty still 5 0 []
      (omega arith) refl refl

-- `pipe` fails.
abbrev pipeless : Os
pipeless tr Call.pipe = reply minus_one 0
pipeless tr c = reply (pos 0) 7

failed_start :
    (t : State) × (transocks_splicepump_start_pump 9 pipeless
        (Failures.entering 31 10 (live (Failures.finished guest) still))
      ≡ ok minus_one t)
    × (t.client ≡ none)
unfolding transocks_splicepump_start_pump start_steps disable_bevs attach open_pipe createpipe
    transocks_splicepump_free close_pipe del_events free_events transocks_client_free shutdown_fds
    close_fds free_timeout disable_bufferevents free_bufferevents free_addrs
failed_start = (_, refl, refl)

enter_pump_freed_example :
    enter_pump splicepump 9 10 31 pipeless (live guest still) ≡ fault use_after_free
enter_pump_freed_example =
    Failures.enter_pump_freed pipeless 9 31 10 guest still failed_start.0 nine failed_start.1
      failed_start.2

free_relay_bev_twice_example :
    (t : State) × (free_relay_bev 9 (pos 6) 31 calm (live guest still) ≡ ok tt t)
    × (t.client ≡ none)
    × (closes (pos 6) [] + 2 ≤ closes (pos 6) t.trace)
    × (count (bev_free_of 31) [] + 2 ≤ count (bev_free_of 31) t.trace)
    × (Failures.is_used_freed 31 t.trace ≡ true)
free_relay_bev_twice_example =
    Failures.free_relay_bev_twice calm 9 31 (pos 6) guest still nine (λ e. absurd (omega arith))
      refl refl

-- No timer is to be had.
abbrev timeless : Os
timeless tr (Call.evtimer_new cb) = reply (pos 0) 0
timeless tr c = reply (pos 0) 7

connect_bev-null_timer_example :
    (t : State) × (connect_bev 9
        (pos 6)
        timeless
        (record still { client = some (record guest { timeout_ev = 0 }); env = some zero_env })
      ≡ ok tt t)
    × (relay_onconnect_eventcb 9 0x80 timeless t ≡ fault null_deref)
connect_bev-null_timer_example =
    Failures.connect_bev-null_timer timeless 9 (pos 6) 0x80 guest zero_env still
      (λ e. absurd (omega arith)) (λ tr. refl) (λ tr bev len. refl)

-- A relay that answers in full.
abbrev prompt : Os
prompt tr (Call.input_length bev) = record (reply (pos 0) 7) {
  size = length (Relay.answer_at (Relay.stage tr));
}
prompt tr (Call.input_pullup bev n) = record (reply (pos 0) 7) {
  out = Relay.answer_at (Relay.stage tr);
}
prompt tr c = reply (pos 0) 7

prompt-IsRelay : Relay.IsRelay prompt
prompt-IsRelay = record {
  lengths = λ tr bev. refl;
  bytes = λ tr bev n. refl;
  drains = λ tr bev n. refl;
  allocates = λ tr b e. absurd (omega arith);
  enables = λ tr bev n. refl;
}

handshake_run-completes_example :
    Ends
      (Completes.Pumping (Codec.request_of destination ∷ method_select_request ∷ Relay.messages []))
      (handshake_run 9 (relay_event 0x80 ∷ method_readable ∷ reply_readable ∷ []) prompt met)
handshake_run-completes_example =
    Completes.handshake_run-completes 9 nine prompt prompt-IsRelay met refl (inl (refl, refl, refl))
