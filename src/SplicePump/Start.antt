-- ===== src/SplicePump/Start.antt =====
-- splicepump.c: `transocks_splicepump_new`, `getpipesize` and `transocks_splicepump_start_pump`.
use transocks_wong.Prelude.{
  ℕ, ◌+◌, ◌-◌, ℤ, Bool, true, false, not, ◌==◌, if◌then◌else◌, is_neg, int_eq, minus_one, none,
  some, get_or,
}
use transocks_wong.Machine.{
  Ptr, Call, Block, Callback, SplicePump, M, pure, call, call_, succeeds, ◌>>=◌, ◌>>◌, ◌>>?◌,
  get_client, modify_client, get_pump, modify_pump, alloc_pump,
}
use transocks_wong.Macros.{ev_read_write, ev_read_persist}
use transocks_wong.Util.{createpipe}
use transocks_wong.SplicePump.{
  Direction, inbound, outbound, size_mod, pipe_of, modify_pipe, transocks_splicepump_free,
}

unfoldable pub getpipesize : ℤ → M ℤ
getpipesize fd = if is_neg fd then pure minus_one else do
  r ← call (Call.fcntl_getpipe_sz fd)
  if int_eq r.ret minus_one then pure minus_one else pure r.ret

-- `(size_t) pipesz`
abbrev pub size_of_int : ℤ → ℕ
size_of_int (ℤ.pos n) = n
size_of_int (ℤ.negsuc n) = size_mod - (n + 1)

abbrev pub new_pump : Ptr → ℕ → Ptr → ℕ → SplicePump
new_pump in_block in_garbage out_block out_garbage = record {
  client_read_ev = 0;
  client_write_ev = 0;
  relay_read_ev = 0;
  relay_write_ev = 0;
  inbound_pipe = record {
    block = in_block;
    pipe_readfd = minus_one;
    pipe_writefd = minus_one;
    data_in_pipe = 0;
    capacity = in_garbage;
  };
  outbound_pipe = record {
    block = out_block;
    pipe_readfd = minus_one;
    pipe_writefd = minus_one;
    data_in_pipe = 0;
    capacity = out_garbage;
  };
}

-- The blocks enter the heap together, once all three are there; before that the source keeps them in
-- local variables only, and returns without freeing them. `capacity` is what its block held.
unfoldable pub transocks_splicepump_new : M Ptr
transocks_splicepump_new = do
  b ← call (Call.malloc Block.splicepump)
  if b.ptr == 0 then pure 0 else do
    i ← call (Call.malloc Block.splicepipe)
    if i.ptr == 0 then pure 0 else do
      o ← call (Call.malloc Block.splicepipe)
      if o.ptr == 0 then pure 0 else do
        alloc_pump (new_pump i.ptr (get_or i.out 0 0) o.ptr (get_or o.out 0 0))
        modify_client (λ c. record c { user_arg = b.ptr })
        pure b.ptr

-- The steps of `transocks_splicepump_start_pump`; a false result is `goto fail`.
unfoldable pub disable_bevs : M Bool
disable_bevs = do
  c ← get_client
  succeeds (Call.bufferevent_disable c.client_bev ev_read_write)
      >>? succeeds (Call.bufferevent_disable c.relay_bev ev_read_write)

unfoldable pub attach : M Bool
unfolding transocks_splicepump_new
attach = do
  c ← get_client
  call_ (Call.bufferevent_setfd c.client_bev minus_one)
  call_ (Call.bufferevent_setfd c.relay_bev minus_one)
  pump ← transocks_splicepump_new
  pure (not (pump == 0))

unfoldable pub open_pipe : Direction → M Bool
open_pipe d = do
  ends ← createpipe
  elim ends [
    | none ↦ pure false
    | some (rd, wr) ↦
        modify_pipe d (λ q. record q { pipe_readfd = rd; pipe_writefd = wr }) >> pure true
  ]

unfoldable pub size_pipe : Direction → M Bool
unfolding getpipesize
size_pipe d = do
  p ← get_pump
  pipesz ← getpipesize (pipe_of d p).pipe_readfd
  if int_eq pipesz minus_one
      then pure false
      else do modify_pipe d (λ q. record q { capacity = size_of_int pipesz }); pure true

unfoldable pub new_ev : ℤ → Callback → (Ptr → SplicePump → SplicePump) → M Bool
new_ev fd cb store = do
  r ← call (Call.event_new fd ev_read_persist cb)
  modify_pump (store r.ptr)
  pure (not (r.ptr == 0))

unfoldable pub new_events : M Bool
new_events = do
  c ← get_client
  p ← get_pump
  new_ev c.client_fd Callback.splicepump_client_readcb (λ ev p. record p { client_read_ev = ev })
      >>? new_ev p.inbound_pipe.pipe_readfd Callback.splicepump_client_writecb
          (λ ev p. record p { client_write_ev = ev })
      >>? new_ev c.relay_fd Callback.splicepump_relay_readcb
          (λ ev p. record p { relay_read_ev = ev })
      >>? new_ev p.outbound_pipe.pipe_readfd Callback.splicepump_relay_writecb
          (λ ev p. record p { relay_write_ev = ev })

unfoldable pub add_events : M Bool
add_events = do
  p ← get_pump
  succeeds (Call.event_add p.client_read_ev)
      >>? succeeds (Call.event_add p.client_write_ev)
      >>? succeeds (Call.event_add p.relay_read_ev)
      >>? succeeds (Call.event_add p.relay_write_ev)

unfoldable pub start_steps : M Bool
start_steps =
    disable_bevs
    >>? attach
    >>? open_pipe inbound
    >>? open_pipe outbound
    >>? size_pipe inbound
    >>? size_pipe outbound
    >>? new_events
    >>? add_events

unfoldable pub transocks_splicepump_start_pump : Ptr → M ℤ
transocks_splicepump_start_pump pclient = do
  good ← start_steps
  if good then pure (ℤ.pos 0) else do transocks_splicepump_free pclient; pure minus_one
