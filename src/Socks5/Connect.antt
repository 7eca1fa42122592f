-- ===== src/Socks5/Connect.antt =====
-- socks5.c: `transocks_start_connect_relay`.
use transocks_wong.Prelude.{ℤ, Bool, true, false, ◌==◌, if◌then◌else◌, is_neg, nonzero}
use transocks_wong.Machine.{
  Ptr, Call, Callback, M, pure, skip, call, call_, ◌>>=◌, ◌>>◌, get_client, modify_client, get_env,
}
use transocks_wong.Macros.{transocks_free, transocks_close, ev_write, bev_opt_close_on_free}
use transocks_wong.Util.{setnonblocking, apply_tcp_keepalive, apply_tcp_nodelay}
use transocks_wong.Context.{transocks_client_set_timeout}
use transocks_wong.Socks5.{socks5_timeout, free_client}

-- The label `closeFd`, which goes on to `freeClient`.
unfoldable pub close_relay : Ptr → ℤ → M (Unit {0})
unfolding transocks_close
close_relay pClient relay_fd = transocks_close relay_fd >> free_client pClient

-- The label `freeBev`, which goes on to `closeFd`: only the local variable is reset.
unfoldable pub free_relay_bev : Ptr → ℤ → Ptr → M (Unit {0})
unfolding transocks_free
free_relay_bev pClient relay_fd relay_bev = do
  transocks_free (λ bev. call_ (Call.bufferevent_free bev)) relay_bev
  close_relay pClient relay_fd

-- The socket as the source sets it up; true where every option was set.
unfoldable pub prepare_fd : ℤ → M Bool
prepare_fd fd = do
  e ← setnonblocking fd true
  if nonzero e then pure false else do
    e ← apply_tcp_keepalive fd
    if nonzero e
        then pure false
        else do e ← apply_tcp_nodelay fd; if nonzero e then pure false else pure true

unfoldable pub connect_bev : Ptr → ℤ → M (Unit {0})
connect_bev pClient relay_fd = do
  modify_client (λ c. record c { relay_fd = relay_fd })
  bev ← call (Call.bufferevent_socket_new relay_fd bev_opt_close_on_free)
  if bev.ptr == 0 then close_relay pClient relay_fd else do
    modify_client (λ c. record c { relay_bev = bev.ptr })
    call_ (
        Call.bufferevent_setcb bev.ptr Callback.null Callback.null Callback.relay_onconnect_eventcb)
    call_ (Call.bufferevent_enable bev.ptr ev_write)
    transocks_client_set_timeout socks5_timeout Callback.socks5_timeout_cb
    env ← get_env
    e ← call (Call.bufferevent_socket_connect bev.ptr env.relay_addr_len)
    if nonzero e.ret then free_relay_bev pClient relay_fd bev.ptr else skip

unfoldable pub transocks_start_connect_relay : Ptr → M (Unit {0})
transocks_start_connect_relay pClient = do
  get_client
  env ← get_env
  r ← call (Call.socket env.relay_family)
  if is_neg r.ret then free_client pClient else do
    good ← prepare_fd r.ret
    if good then connect_bev pClient r.ret else close_relay pClient r.ret
