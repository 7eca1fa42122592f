-- ===== src/Context.antt =====
-- context.c: the life of a client.
pub mod Live
pub mod Free
pub mod Releases
pub mod New
pub mod Balance
pub mod Timeout
use transocks_wong.Prelude.{
  ℕ, ℤ, Bool, true, false, ◌||◌, ◌==◌, if◌then◌else◌, is_neg, nonzero, minus_one, List, get_or,
}
use transocks_wong.Machine.{
  Ptr, Call, Block, Callback, How, ClientState, Client, M, pure, skip, call, call_, ◌>>=◌, ◌>>◌,
  get_client, modify_client, alloc_client, drop_client, fail, Fault,
}
use transocks_wong.Macros.{transocks_free, transocks_close, transocks_shutdown, ev_read_write}

abbrev pub is_gone : ClientState → Bool
is_gone ClientState.destroying = true
is_gone ClientState.destroyed = true
is_gone _ = false

set_state : ClientState → M (Unit {0})
set_state st = modify_client (λ c. record c { client_state = st })

unfoldable pub shutdown_fds : M (Unit {0})
shutdown_fds = do
  c ← get_client
  if is_neg c.client_fd then skip else transocks_shutdown c.client_fd How.shut_rdwr
  if is_neg c.relay_fd then skip else transocks_shutdown c.relay_fd How.shut_rdwr

unfoldable pub close_fds : M (Unit {0})
unfolding transocks_close
close_fds = do
  c ← get_client
  fd ← transocks_close c.client_fd
  modify_client (λ c. record c { client_fd = fd })
  fd ← transocks_close c.relay_fd
  modify_client (λ c. record c { relay_fd = fd })

unfoldable pub free_timeout : M (Unit {0})
unfolding transocks_free
free_timeout = do
  c ← get_client
  if c.timeout_ev == 0 then skip else call_ (Call.event_del c.timeout_ev)
  p ← transocks_free (λ ev. call_ (Call.event_free ev)) c.timeout_ev
  modify_client (λ c. record c { timeout_ev = p })

unfoldable pub disable_bufferevents : M (Unit {0})
disable_bufferevents = do
  c ← get_client
  if c.relay_bev == 0 then skip else call_ (Call.bufferevent_disable c.relay_bev ev_read_write)
  if c.client_bev == 0 then skip else call_ (Call.bufferevent_disable c.client_bev ev_read_write)

unfoldable pub free_bufferevents : M (Unit {0})
unfolding transocks_free
free_bufferevents = do
  c ← get_client
  p ← transocks_free (λ bev. call_ (Call.bufferevent_free bev)) c.relay_bev
  modify_client (λ c. record c { relay_bev = p })
  p ← transocks_free (λ bev. call_ (Call.bufferevent_free bev)) c.client_bev
  modify_client (λ c. record c { client_bev = p })

unfoldable pub free_addrs : M (Unit {0})
unfolding transocks_free
free_addrs = do
  c ← get_client
  p ← transocks_free (λ a. call_ (Call.free a)) c.client_addr
  modify_client (λ c. record c { client_addr = p })
  p ← transocks_free (λ a. call_ (Call.free a)) c.dest_addr
  modify_client (λ c. record c { dest_addr = p })

free_block : Ptr → M (Unit {0})
unfolding transocks_free
free_block pClient = do transocks_free (λ p. call_ (Call.free p) >> drop_client) pClient; skip

-- The body past the early returns, in the source's order.
destroy : Ptr → M (Unit {0})
unfolding set_state free_block
destroy pClient = do
  set_state ClientState.destroying
  shutdown_fds
  close_fds
  free_timeout
  disable_bufferevents
  free_bufferevents
  free_addrs
  call_ (Call.list_del pClient)
  set_state ClientState.destroyed
  free_block pClient

unfoldable pub transocks_client_free : Ptr → M (Unit {0})
unfolding destroy
transocks_client_free pClient =
    if pClient == 0
    then skip
    else do c ← get_client; if is_gone c.client_state then skip else destroy pClient

-- `transocks_client_new`: a block from the allocator, with what it held in the two lengths.
abbrev pub new_client : List ℕ → Client
new_client garbage = record {
  global_env = 0;
  client_addr = 0;
  dest_addr = 0;
  client_fd = minus_one;
  relay_fd = minus_one;
  client_addr_len = get_or garbage 0 0;
  dest_addr_len = get_or garbage 1 0;
  client_bev = 0;
  relay_bev = 0;
  timeout_ev = 0;
  user_arg = 0;
  client_state = ClientState.new;
  client_shutdown_read = false;
  client_shutdown_write = false;
  relay_shutdown_read = false;
  relay_shutdown_write = false;
}

-- The label `fail`, past which NULL is returned.
client_new_fail : Ptr → M Ptr
unfolding free_addrs free_block
client_new_fail client = do free_addrs; free_block client; pure 0

unfoldable pub transocks_client_new : Ptr → M Ptr
unfolding client_new_fail
transocks_client_new env = do
  block ← call (Call.malloc Block.client)
  if block.ptr == 0 then fail Fault.null_deref else do
    alloc_client (new_client block.out)
    a ← call (Call.malloc Block.sockaddr_storage)
    modify_client (λ c. record c { client_addr = a.ptr })
    d ← call (Call.malloc Block.sockaddr_storage)
    modify_client (λ c. record c { dest_addr = d.ptr })
    if a.ptr == 0 || d.ptr == 0
        then client_new_fail block.ptr
        else do modify_client (λ c. record c { global_env = env }); pure block.ptr

-- Seconds; `arg` is always the client.
unfoldable pub transocks_client_set_timeout : ℕ → Callback → M ℤ
transocks_client_set_timeout timeout ev_fn = do
  c ← get_client
  if c.timeout_ev == 0
      then (do
        r ← call (Call.evtimer_new ev_fn)
        modify_client (λ c. record c { timeout_ev = r.ptr })
        if r.ptr == 0
            then pure minus_one
            else do e ← call (Call.evtimer_add r.ptr timeout); pure e.ret)
      else (do
        call_ (Call.event_del c.timeout_ev)
        e ← call (Call.evtimer_assign c.timeout_ev ev_fn)
        if nonzero e.ret
            then pure e.ret
            else do e ← call (Call.evtimer_add c.timeout_ev timeout); pure e.ret)
