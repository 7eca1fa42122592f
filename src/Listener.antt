-- ===== src/Listener.antt =====
-- listener.c: accepted connections, and the listening socket.
pub mod Failures
pub mod Safety
pub mod Relays
pub mod Accepts
pub mod Closes
pub mod Starts
use transocks_wong.Prelude.{
  ℕ, ℤ, Bool, true, false, ◌==◌, if◌then◌else◌, is_neg, nonzero, minus_one, none, some,
}
use transocks_wong.Machine.{
  Ptr, Call, Block, Callback, SockOpt, GlobalEnv, M, Fault, fail, pure, skip, call, call_, succeeds,
  ◌>>=◌, ◌>>◌, ◌>>?◌, modify_client, set_dest, get_env, modify_env,
}
use transocks_wong.Macros.{
  transocks_free, transocks_close, ev_read, ev_read_persist, af_inet6, bev_opt_close_on_free,
}
use transocks_wong.Util.{apply_ipv6only, setnonblocking, getorigdst}
use transocks_wong.Context.{transocks_client_new}
use transocks_wong.Socks5.{free_client}
use transocks_wong.Socks5.Connect.{prepare_fd, transocks_start_connect_relay}

-- The labels `freeFd`, `freeClient` and `freeBev`, each of which goes on to the one before.
unfoldable pub free_fd : ℤ → M (Unit {0})
unfolding transocks_close
free_fd clientFd = transocks_close clientFd >> skip

unfoldable pub free_client_fd : Ptr → ℤ → M (Unit {0})
free_client_fd pclient clientFd = free_client pclient >> free_fd clientFd

unfoldable pub free_client_bev : Ptr → ℤ → Ptr → M (Unit {0})
unfolding transocks_free
free_client_bev pclient clientFd client_bev = do
  transocks_free (λ bev. call_ (Call.bufferevent_free bev)) client_bev
  free_client_fd pclient clientFd

-- The bufferevent of an accepted client, and the connection to the relay.
unfoldable pub start_client : Ptr → ℤ → M (Unit {0})
start_client pclient clientFd = do
  modify_client (λ c. record c { client_fd = clientFd })
  bev ← call (Call.bufferevent_socket_new minus_one bev_opt_close_on_free)
  if bev.ptr == 0 then free_client_bev pclient clientFd bev.ptr else do
    good ←
        succeeds (Call.bufferevent_disable bev.ptr ev_read)
        >>? succeeds (Call.bufferevent_setfd bev.ptr clientFd)
    if good
        then (do
          modify_client (λ c. record c { client_bev = bev.ptr })
          call_ (Call.list_add_tail pclient)
          transocks_start_connect_relay pclient)
        else free_client_bev pclient clientFd bev.ptr

-- A client with the two addresses of its connection; `len` is that of the source.
unfoldable pub accept_client : Ptr → ℤ → ℕ → M (Unit {0})
accept_client env clientFd len = do
  pclient ← transocks_client_new env
  if pclient == 0 then free_client_fd pclient clientFd else do
    modify_client (λ c. record c { client_addr_len = len })
    dst ← getorigdst clientFd
    elim dst [
      | none ↦ free_client_fd pclient clientFd
      | some (sa, dst_len) ↦ do
        set_dest sa
        modify_client (λ c. record c { dest_addr_len = dst_len })
        start_client pclient clientFd
    ]

unfoldable pub listener_cb : Ptr → M (Unit {0})
listener_cb env = do
  e ← get_env
  elim e.listener [
    | none ↦ fail Fault.null_deref
    | some l ↦ do
      r ← call (Call.accept l.listener_fd)
      if is_neg r.ret then skip else if r.size == 0 then free_fd r.ret else do
        good ← prepare_fd r.ret
        if good then accept_client env r.ret r.size else free_fd r.ret
  ]

-- The listener is torn down and its field reset.
unfoldable pub listener_deinit : M (Unit {0})
unfolding transocks_free transocks_close
listener_deinit = do
  e ← get_env
  elim e.listener [
    | none ↦ skip
    | some l ↦ do
      if l.listener_ev == 0 then skip else (do
        call_ (Call.event_del l.listener_ev)
        transocks_free (λ ev. call_ (Call.event_free ev)) l.listener_ev
        skip)
      transocks_close l.listener_fd
      transocks_free (λ p. call_ (Call.free p)) l.block
      modify_env (λ e. record e { listener = none })
  ]

-- The labels `closeFd` and `freeListener`.
unfoldable pub close_listener : ℤ → M ℤ
unfolding transocks_close
close_listener fd = transocks_close fd >> pure minus_one

unfoldable pub free_listener : ℤ → M ℤ
free_listener fd = listener_deinit >> close_listener fd

-- The socket is set up, bound and listens.
unfoldable pub open_listener : GlobalEnv → ℤ → M Bool
open_listener env fd =
    succeeds (Call.setsockopt fd SockOpt.so_reuseaddr 1)
    >>? succeeds (Call.setsockopt fd SockOpt.so_reuseport 1)
    >>? (do e ← setnonblocking fd true; if nonzero e then pure false else pure true)
    >>? (if env.bind_family == af_inet6
        then (do e ← apply_ipv6only fd 0; if nonzero e then pure false else pure true)
        else pure true)
    >>? succeeds (Call.bind fd)
    >>? succeeds (Call.listen fd)

unfoldable pub add_listener : ℤ → M ℤ
add_listener fd = do
  block ← call (Call.malloc Block.listener)
  if block.ptr == 0 then modify_env (λ e. record e { listener = none }) >> free_listener fd else do
    ev ← call (Call.event_new fd ev_read_persist Callback.listener_cb)
    modify_env (λ e. record e {
      listener = some (record { block = block.ptr; listener_fd = fd; listener_ev = ev.ptr });
    })
    if ev.ptr == 0 then free_listener fd else do
      e ← call (Call.event_add ev.ptr)
      if nonzero e.ret then free_listener fd else pure (ℤ.pos 0)

unfoldable pub listener_init : M ℤ
listener_init = do
  env ← get_env
  r ← call (Call.socket env.bind_family)
  if is_neg r.ret then pure minus_one else do
    good ← open_listener env r.ret
    if good then add_listener r.ret else close_listener r.ret
