-- ===== src/Socks5.antt =====
-- socks5.h and socks5.c: the handshake with the SOCKS5 relay.
pub mod Connect
pub mod Codec
pub mod Replies
pub mod Failures
pub mod Safety
pub mod Handshake
pub mod Relay
pub mod Completes
use transocks_wong.Prelude.{
  ℕ, ℤ, Bool, true, false, ◌||◌, ◌==◌, ltb, if◌then◌else◌, is_neg, nonzero, Option, none, some,
  List, [], ◌∷◌, ◌++◌, get_elem?,
}
use transocks_wong.Machine.{
  Ptr, Bytes, Call, Block, Callback, ClientState, Sockaddr, M, Fault, fail, pure, skip, call, call_,
  ◌>>=◌, ◌>>◌, get_client, modify_client, get_dest, get_env,
}
use transocks_wong.Macros.{
  evtimer_del, transocks_free, transocks_close, transocks_chkbit, transocks_bufsize, ev_read,
  ev_write, ev_read_write, af_inet, af_inet6, bev_event_eof, bev_event_error, bev_event_connected,
}
use transocks_wong.Util.{setnonblocking, apply_tcp_keepalive, apply_tcp_nodelay}
use transocks_wong.Context.{transocks_client_free, transocks_client_set_timeout}
use transocks_wong.Pump.{Method, transocks_start_pump}

abbrev pub socks5_version : ℕ
socks5_version = 0x05

abbrev pub socks5_method_noauth : ℕ
socks5_method_noauth = 0x00

abbrev pub socks5_cmd_connect : ℕ
socks5_cmd_connect = 0x01

abbrev pub socks5_atyp_ipv4 : ℕ
socks5_atyp_ipv4 = 0x01

abbrev pub socks5_atyp_ipv6 : ℕ
socks5_atyp_ipv6 = 0x04

abbrev pub socks5_rep_succeeded : ℕ
socks5_rep_succeeded = 0x00

-- Seconds.
abbrev pub socks5_timeout : ℕ
socks5_timeout = 60

-- `struct socks_method_select_request`, as it goes out.
abbrev pub method_select_request : Bytes
method_select_request = socks5_version ∷ 0x01 ∷ socks5_method_noauth ∷ []

-- `struct socks_request_ipv4` and `struct socks_request_ipv6`, packed.
unfoldable pub socks_request_ipv4 : Sockaddr → Bytes
socks_request_ipv4 sa =
    socks5_version ∷ socks5_cmd_connect ∷ 0x00 ∷ socks5_atyp_ipv4 ∷ (sa.sin_addr ++ sa.port)

unfoldable pub socks_request_ipv6 : Sockaddr → Bytes
socks_request_ipv6 sa =
    socks5_version ∷ socks5_cmd_connect ∷ 0x00 ∷ socks5_atyp_ipv6 ∷ (sa.sin6_addr ++ sa.port)

-- `TRANSOCKS_FREE(transocks_client_free, pclient)`, the label `freeClient` of most handlers.
unfoldable pub free_client : Ptr → M (Unit {0})
unfolding transocks_free
free_client pclient = transocks_free transocks_client_free pclient >> skip

-- A byte of a structure that is laid over the input; a byte that is not there is out of bounds.
abbrev pub byte : Bytes → ℕ → M ℕ
byte mem i = elim (get_elem? mem i) [ none ↦ fail Fault.out_of_bounds | some b ↦ pure b ]

unfoldable pub socks_handshake_stage_errcb : Ptr → ℕ → M (Unit {0})
socks_handshake_stage_errcb pclient bevs = do
  c ← get_client
  evtimer_del c.timeout_ev
  if transocks_chkbit bevs bev_event_eof || transocks_chkbit bevs bev_event_error
      then free_client pclient
      else skip

-- The label `freeClient`, or what `transocks_start_pump` leaves.
unfoldable pub enter_pump : Method → Ptr → ℕ → Ptr → M (Unit {0})
enter_pump impl pClient reply_len relay_bev = do
  call_ (Call.input_drain relay_bev reply_len)
  modify_client (λ c. record c { client_state = ClientState.socks5_finish_handshake })
  call_ (Call.bufferevent_disable relay_bev ev_read_write)
  e ← transocks_start_pump impl pClient
  if nonzero e then free_client pClient else skip

-- The length of the reply, by its header; `none` is `goto freeClient`.
unfoldable pub reply_length : ℕ → ℕ → ℕ → Option ℕ
reply_length ver rep atyp =
    if ver == socks5_version
    then (if rep == socks5_rep_succeeded
        then (if atyp == socks5_atyp_ipv4
            then some 10
            else if atyp == socks5_atyp_ipv6
            then some 22
            else none)
        else none)
    else none

unfoldable pub socks_on_server_connect_reply_readcb : Method → Ptr → M (Unit {0})
socks_on_server_connect_reply_readcb impl pClient = do
  c ← get_client
  evtimer_del c.timeout_ev
  len ← call (Call.input_length c.relay_bev)
  if ltb len.size 10 then free_client pClient else do
    mem ← call (Call.input_pullup c.relay_bev len.size)
    ver ← byte mem.out 0
    rep ← byte mem.out 1
    atyp ← byte mem.out 3
    elim (reply_length ver rep atyp) [
      | none ↦ free_client pClient
      | some n ↦ enter_pump impl pClient n c.relay_bev
    ]

-- The request is built in a block of its own, written to the relay and freed.
unfoldable pub write_request : Block → Ptr → Bytes → M Bool
unfolding transocks_free
write_request block relay_bev bytes = do
  req ← call (Call.malloc block)
  if req.ptr == 0 then pure false else do
    call_ (Call.bufferevent_write relay_bev bytes)
    transocks_free (λ p. call_ (Call.free p)) req.ptr
    pure true

-- The request by the family of the destination; false is `goto freeClient`.
unfoldable pub send_request : Ptr → Sockaddr → M Bool
send_request relay_bev dest =
    if dest.ss_family == af_inet
    then write_request Block.socks_request_ipv4 relay_bev (socks_request_ipv4 dest)
    else if dest.ss_family == af_inet6
    then write_request Block.socks_request_ipv6 relay_bev (socks_request_ipv6 dest)
    else pure false

-- `readcb` gets the answer of the relay, and a timer is set for it.
unfoldable pub await : Callback → Ptr → M (Unit {0})
await readcb relay_bev = do
  call_ (Call.bufferevent_setcb relay_bev readcb Callback.null Callback.socks_handshake_stage_errcb)
  call_ (Call.bufferevent_enable relay_bev ev_read)
  transocks_client_set_timeout socks5_timeout Callback.socks5_timeout_cb
  skip

unfoldable pub socks_send_connect_request : Ptr → M (Unit {0})
socks_send_connect_request pclient = do
  c ← get_client
  dest ← get_dest
  sent ← send_request c.relay_bev dest
  if sent
      then (do
        call_ (Call.bufferevent_setwatermark c.relay_bev ev_read 10 transocks_bufsize)
        await Callback.socks_on_server_connect_reply_readcb c.relay_bev)
      else free_client pclient

unfoldable pub socks_on_server_selected_method_readcb : Ptr → M (Unit {0})
socks_on_server_selected_method_readcb pclient = do
  c ← get_client
  evtimer_del c.timeout_ev
  len ← call (Call.input_length c.relay_bev)
  if ltb len.size 2 then free_client pclient else do
    mem ← call (Call.input_pullup c.relay_bev len.size)
    ver ← byte mem.out 0
    method ← byte mem.out 1
    if ver == socks5_version
        then (if method == socks5_method_noauth
            then (do
              e ← call (Call.input_drain c.relay_bev 2)
              if nonzero e.ret then free_client pclient else do
                left ← call (Call.input_length c.relay_bev)
                if left.size == 0 then socks_send_connect_request pclient else free_client pclient)
            else free_client pclient)
        else free_client pclient

unfoldable pub socks_send_method_selection : Ptr → M (Unit {0})
socks_send_method_selection pclient = do
  c ← get_client
  call_ (Call.bufferevent_setwatermark c.relay_bev ev_read 2 transocks_bufsize)
  call_ (Call.bufferevent_write c.relay_bev method_select_request)
  await Callback.socks_on_server_selected_method_readcb c.relay_bev

unfoldable pub relay_onconnect_eventcb : Ptr → ℕ → M (Unit {0})
relay_onconnect_eventcb pclient bevs = do
  c ← get_client
  evtimer_del c.timeout_ev
  if transocks_chkbit bevs bev_event_connected
      then (do
        modify_client (λ c. record c { client_state = ClientState.relay_connected })
        socks_send_method_selection pclient)
      else if transocks_chkbit bevs bev_event_error
      then free_client pclient
      else skip

unfoldable pub socks5_timeout_cb : Ptr → M (Unit {0})
socks5_timeout_cb pclient = free_client pclient
