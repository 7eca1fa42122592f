-- ===== src/SplicePump.antt =====
-- splicepump.c: data goes from one socket to the other through a pipe for each direction.
pub mod Free
pub mod Releases
pub mod Moved
pub mod Closing
pub mod Invariant
pub mod Accounting
pub mod Results
pub mod Runs
pub mod Start
pub mod Outcome
pub mod Descriptors
pub mod Stages
pub mod Pipes
pub mod Begins
pub mod Life
pub mod Delivered
pub mod Branches
pub mod Delivers
use transocks_wong.Prelude.{
  ℕ, zero, suc, ◌+◌, ◌-◌, ◌%◌, ◌^◌, ℤ, Bool, true, false, not, ◌&&◌, ◌||◌, ◌==◌, ltb, if◌then◌else◌,
  int_eq, nonzero, minus_one, List, [], ◌∷◌, Option, none, some, get_or,
}
use transocks_wong.Machine.{
  Ptr, Call, Block, Callback, How, Reply, Client, SplicePipe, SplicePump, M, pure, skip, call,
  call_, succeeds, ◌>>=◌, ◌>>◌, ◌>>?◌, get_client, modify_client, get_pump, modify_pump, alloc_pump,
  drop_pump, has_client,
}
use transocks_wong.Macros.{
  transocks_free, transocks_close, transocks_shutdown, transocks_is_invalid_fd,
  transocks_is_retriable, ev_read, ev_read_write, ev_read_persist,
}
use transocks_wong.Util.{createpipe}
use transocks_wong.Context.{transocks_client_free}

pub data Direction : Type 0 where
  inbound outbound : Direction

-- `normal_transfer` carries `*transfered_bytes`.
pub data SpliceResult : Type 0 where
  normal_transfer : ℕ → SpliceResult
  can_retry fatal_failure read_eof : SpliceResult

abbrev pub size_mod : ℕ
size_mod = 2 ^ 64

-- A result of `splice`; a `ssize_t` other than -1 is cast to `size_t` where it is used.
abbrev pub splice_result : ℤ → ℕ → SpliceResult
splice_result (ℤ.pos zero) errno = read_eof
splice_result (ℤ.pos (suc n)) errno = normal_transfer (suc n)
splice_result (ℤ.negsuc zero) errno =
    if transocks_is_retriable errno then can_retry else fatal_failure
splice_result (ℤ.negsuc (suc n)) errno = normal_transfer (size_mod - (n + 2))

unfoldable pub transocks_single_splice : ℤ → ℤ → ℕ → M SpliceResult
transocks_single_splice from_fd to_fd want_len = do
  r ← call (Call.splice from_fd to_fd want_len)
  pure (splice_result r.ret r.errno)

-- What each direction names.
abbrev pub source_fd : Direction → Client → ℤ
source_fd inbound c = c.relay_fd
source_fd outbound c = c.client_fd

abbrev pub target_fd : Direction → Client → ℤ
target_fd inbound c = c.client_fd
target_fd outbound c = c.relay_fd

abbrev pub pipe_of : Direction → SplicePump → SplicePipe
pipe_of inbound p = p.inbound_pipe
pipe_of outbound p = p.outbound_pipe

abbrev pub set_pipe : Direction → SplicePipe → SplicePump → SplicePump
set_pipe inbound q p = record p { inbound_pipe = q }
set_pipe outbound q p = record p { outbound_pipe = q }

abbrev pub source_ev : Direction → SplicePump → Ptr
source_ev inbound p = p.relay_read_ev
source_ev outbound p = p.client_read_ev

abbrev pub target_ev : Direction → SplicePump → Ptr
target_ev inbound p = p.client_write_ev
target_ev outbound p = p.relay_write_ev

-- The flag of the side that is read, and of the side that is written.
abbrev pub set_source_eof : Direction → Client → Client
set_source_eof inbound c = record c { relay_shutdown_read = true }
set_source_eof outbound c = record c { client_shutdown_read = true }

abbrev pub set_target_eof : Direction → Client → Client
set_target_eof inbound c = record c { client_shutdown_write = true }
set_target_eof outbound c = record c { relay_shutdown_write = true }

unfoldable pub modify_pipe : Direction → (SplicePipe → SplicePipe) → M (Unit {0})
modify_pipe d f = modify_pump (λ p. set_pipe d (f (pipe_of d p)) p)

unfoldable pub close_pipe : Direction → M (Unit {0})
unfolding modify_pipe transocks_close transocks_free
close_pipe d = do
  p ← get_pump
  fd ← transocks_close (pipe_of d p).pipe_writefd
  modify_pipe d (λ q. record q { pipe_writefd = fd })
  fd ← transocks_close (pipe_of d p).pipe_readfd
  modify_pipe d (λ q. record q { pipe_readfd = fd })
  b ← transocks_free (λ b. call_ (Call.free b)) (pipe_of d p).block
  modify_pipe d (λ q. record q { block = b })

del_ev : Ptr → M (Unit {0})
del_ev ev = if ev == 0 then skip else call_ (Call.event_del ev)

unfoldable pub del_events : M (Unit {0})
unfolding del_ev
del_events = do
  p ← get_pump
  del_ev p.client_read_ev
  del_ev p.client_write_ev
  del_ev p.relay_read_ev
  del_ev p.relay_write_ev

free_ev : Ptr → M Ptr
unfolding transocks_free
free_ev ev = transocks_free (λ ev. call_ (Call.event_free ev)) ev

unfoldable pub free_events : M (Unit {0})
unfolding free_ev
free_events = do
  p ← get_pump
  ev ← free_ev p.client_read_ev
  modify_pump (λ p. record p { client_read_ev = ev })
  ev ← free_ev p.client_write_ev
  modify_pump (λ p. record p { client_write_ev = ev })
  ev ← free_ev p.relay_read_ev
  modify_pump (λ p. record p { relay_read_ev = ev })
  ev ← free_ev p.relay_write_ev
  modify_pump (λ p. record p { relay_write_ev = ev })

-- Past the early returns, with the pump's block, which the client still names when it is freed in
-- its turn.
unfoldable pub release : Ptr → Ptr → M (Unit {0})
release pclient ppump = do
  close_pipe inbound
  close_pipe outbound
  del_events
  free_events
  call_ (Call.free ppump)
  drop_pump
  transocks_client_free pclient

unfoldable pub transocks_splicepump_free : Ptr → M (Unit {0})
unfolding release
transocks_splicepump_free pclient =
    if pclient == 0
    then skip
    else do c ← get_client; if c.user_arg == 0 then skip else release pclient c.user_arg

transocks_on_fatal_failure : Ptr → M (Unit {0})
transocks_on_fatal_failure pclient = transocks_splicepump_free pclient

-- Whether the client is to be freed.
abbrev pub is_finished : Direction → Client → Bool
is_finished d c =
    if transocks_is_invalid_fd c.client_fd || transocks_is_invalid_fd c.relay_fd
    then true
    else elim d [
      | inbound ↦ c.relay_shutdown_read && c.client_shutdown_write
      | outbound ↦ c.client_shutdown_read && c.relay_shutdown_write
    ]

unfoldable pub transocks_check_normal_termination : Ptr → Direction → M (Unit {0})
transocks_check_normal_termination pclient d = do
  c ← get_client
  if is_finished d c then transocks_splicepump_free pclient else skip

-- `TRANSOCKS_EVENT_ACTIVE`
transocks_event_active : Ptr → ℕ → M (Unit {0})
transocks_event_active ev events = do
  r ← call (Call.event_pending ev events)
  if nonzero r.ret then skip else call_ (Call.event_active ev events)

-- The `switch` of `transocks_write_to_pipe`; true where it goes on to the check.
unfoldable pub on_written : Ptr → Direction → Client → SplicePump → SpliceResult → M Bool
unfolding modify_pipe transocks_event_active transocks_close transocks_on_fatal_failure
on_written pclient d c p (normal_transfer n) = do
  modify_pipe d (λ q. record q { data_in_pipe = (q.data_in_pipe + n) % size_mod })
  pure true
on_written pclient d c p can_retry = do
  if not (transocks_is_invalid_fd (target_fd d c)) && ltb 0 (pipe_of d p).data_in_pipe
      then transocks_event_active (target_ev d p) ev_read
      else skip
  pure true
on_written pclient d c p fatal_failure = do transocks_on_fatal_failure pclient; pure false
on_written pclient d c p read_eof = do
  modify_client (set_source_eof d)
  transocks_shutdown (source_fd d c) How.shut_rd
  transocks_close (pipe_of d p).pipe_writefd
  call_ (Call.event_del (source_ev d p))
  pure true

-- The data of one direction moves from its socket into its pipe.
unfoldable pub transocks_write_to_pipe : Ptr → Direction → M (Unit {0})
unfolding transocks_on_fatal_failure
transocks_write_to_pipe pclient d = do
  c ← get_client
  p ← get_pump
  let from_fd = source_fd d c
  let to_fd = (pipe_of d p).pipe_writefd
  if transocks_is_invalid_fd from_fd || transocks_is_invalid_fd to_fd
      then transocks_on_fatal_failure pclient
      else (do
        splice_ret ← transocks_single_splice from_fd to_fd (pipe_of d p).capacity
        good ← on_written pclient d c p splice_ret
        if good then transocks_check_normal_termination pclient d else skip)

-- The `switch` of `transocks_read_from_pipe`.
unfoldable pub on_read : Ptr → Direction → Client → SplicePump → SpliceResult → M Bool
unfolding modify_pipe transocks_close transocks_on_fatal_failure
on_read pclient d c p (normal_transfer n) = do
  modify_pipe d (λ q. record q { data_in_pipe = (q.data_in_pipe + size_mod - n) % size_mod })
  pure true
on_read pclient d c p can_retry = pure true
on_read pclient d c p fatal_failure = do transocks_on_fatal_failure pclient; pure false
on_read pclient d c p read_eof = do
  modify_client (set_target_eof d)
  transocks_shutdown (target_fd d c) How.shut_wr
  transocks_close (pipe_of d p).pipe_readfd
  pure true

-- The data of one direction moves from its pipe to its socket.
unfoldable pub transocks_read_from_pipe : Ptr → Direction → M (Unit {0})
unfolding transocks_on_fatal_failure
transocks_read_from_pipe pclient d = do
  c ← get_client
  p ← get_pump
  let from_fd = (pipe_of d p).pipe_readfd
  let to_fd = target_fd d c
  if transocks_is_invalid_fd from_fd || transocks_is_invalid_fd to_fd
      then transocks_on_fatal_failure pclient
      else (do
        splice_ret ← transocks_single_splice from_fd to_fd (pipe_of d p).data_in_pipe
        good ← on_read pclient d c p splice_ret
        if good then transocks_check_normal_termination pclient d else skip)

-- The callbacks that libevent runs.
pub data SpliceEvent : Type 0 where
  client_readcb client_writecb relay_readcb relay_writecb : SpliceEvent

unfoldable pub splicepump_cb : Ptr → SpliceEvent → M (Unit {0})
splicepump_cb pclient client_readcb = transocks_write_to_pipe pclient outbound
splicepump_cb pclient relay_writecb = transocks_read_from_pipe pclient outbound
splicepump_cb pclient relay_readcb = transocks_write_to_pipe pclient inbound
splicepump_cb pclient client_writecb = transocks_read_from_pipe pclient inbound

-- The event loop hands the client one event after another, until it is freed with its events.
unfoldable pub splice_run : Ptr → List SpliceEvent → M (Unit {0})
splice_run pclient [] = skip
splice_run pclient (e ∷ es) = do
  splicepump_cb pclient e
  live ← has_client
  if live then splice_run pclient es else skip
