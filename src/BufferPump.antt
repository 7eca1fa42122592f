-- ===== src/BufferPump.antt =====
-- bufferpump.c: data goes from one bufferevent's input to the other's output.
pub mod Runs
pub mod Order
pub mod Facts
pub mod Flags
pub mod Ended
pub mod Ends
use transocks_wong.Prelude.{
  ℕ, ℤ, Bool, true, ◌&&◌, ◌||◌, ◌==◌, if◌then◌else◌, nonzero, minus_one, List, [], ◌∷◌,
}
use transocks_wong.Machine.{
  Ptr, Call, Callback, How, Client, M, pure, skip, call, call_, ◌>>=◌, ◌>>◌, get_client,
  modify_client, has_client,
}
use transocks_wong.Macros.{
  transocks_shutdown, transocks_chkbit, transocks_bufsize, ev_read, ev_write, ev_read_write,
  econnreset, bev_event_reading, bev_event_writing, bev_event_eof, bev_event_error,
}
use transocks_wong.Context.{transocks_client_free}

unfoldable pub transocks_bufferpump_free : Ptr → M (Unit {0})
transocks_bufferpump_free pclient = do
  c ← get_client
  call_ (Call.bufferevent_disable c.client_bev ev_read_write)
  call_ (Call.bufferevent_disable c.relay_bev ev_read_write)
  if pclient == 0 then skip else transocks_client_free pclient

abbrev pub transocks_check_close : Client → Bool
transocks_check_close c =
    c.client_shutdown_read && c.client_shutdown_write && c.relay_shutdown_read
    && c.relay_shutdown_write

-- The two sides of a client, with what the source writes out for each.
pub data Side : Type 0 where
  client_side relay_side : Side

abbrev pub other_side : Side → Side
other_side client_side = relay_side
other_side relay_side = client_side

abbrev pub bev_of : Side → Client → Ptr
bev_of client_side c = c.client_bev
bev_of relay_side c = c.relay_bev

abbrev pub fd_of : Side → Client → ℤ
fd_of client_side c = c.client_fd
fd_of relay_side c = c.relay_fd

abbrev pub read_flag : Side → Client → Bool
read_flag client_side c = c.client_shutdown_read
read_flag relay_side c = c.relay_shutdown_read

abbrev pub write_flag : Side → Client → Bool
write_flag client_side c = c.client_shutdown_write
write_flag relay_side c = c.relay_shutdown_write

abbrev pub set_read_flag : Side → Client → Client
set_read_flag client_side c = record c { client_shutdown_read = true }
set_read_flag relay_side c = record c { relay_shutdown_read = true }

abbrev pub set_write_flag : Side → Client → Client
set_write_flag client_side c = record c { client_shutdown_write = true }
set_write_flag relay_side c = record c { relay_shutdown_write = true }

-- `transocks_client_readcb` and `transocks_relay_readcb`: all of one side's input moves on.
unfoldable pub readcb : Side → M (Unit {0})
readcb a = do
  c ← get_client
  len ← call (Call.input_length (bev_of a c))
  call_ (Call.remove_buffer (bev_of a c) (bev_of (other_side a) c) len.size)

-- The check with which every callback but those of reading ends.
unfoldable pub check_close : Ptr → M (Unit {0})
check_close pclient = do
  c ← get_client
  if transocks_check_close c then transocks_bufferpump_free pclient else skip

-- Once side `b` has written all that it was given and the other side sends no more, it is told so.
unfoldable pub finish_write : Side → M (Unit {0})
finish_write b = do
  c ← get_client
  len ← call (Call.output_length (bev_of b c))
  if len.size == 0 && read_flag (other_side b) c
      then (do modify_client (set_write_flag b); transocks_shutdown (fd_of b c) How.shut_wr)
      else skip

-- `transocks_client_writecb` and `transocks_relay_writecb`.
unfoldable pub writecb : Ptr → Side → M (Unit {0})
writecb pclient b = finish_write b >> check_close pclient

-- The two ends of file that an event may tell of; `errno` is what it is on entry.
abbrev pub is_read_eof : ℕ → Bool
is_read_eof bevs = transocks_chkbit bevs bev_event_reading && transocks_chkbit bevs bev_event_eof

abbrev pub is_write_eof : ℕ → ℕ → Bool
is_write_eof bevs errno =
    transocks_chkbit bevs bev_event_writing
    && ((transocks_chkbit bevs bev_event_error && errno == econnreset)
        || transocks_chkbit bevs bev_event_eof)

unfoldable pub on_read_eof : Side → M (Unit {0})
on_read_eof a = do
  modify_client (set_read_flag a)
  c ← get_client
  call_ (Call.bufferevent_disable (bev_of a c) ev_read)
  transocks_shutdown (fd_of a c) How.shut_rd
  finish_write (other_side a)

unfoldable pub on_write_eof : Side → M (Unit {0})
on_write_eof a = do
  modify_client (set_write_flag a)
  c ← get_client
  call_ (Call.bufferevent_disable (bev_of a c) ev_write)
  transocks_shutdown (fd_of a c) How.shut_wr

-- `transocks_client_eventcb` and `transocks_relay_eventcb`.
unfoldable pub eventcb : Ptr → Side → ℕ → ℕ → M (Unit {0})
eventcb pclient a bevs errno =
    if is_read_eof bevs
    then on_read_eof a >> check_close pclient
    else if is_write_eof bevs errno
    then on_write_eof a >> check_close pclient
    else if transocks_chkbit bevs bev_event_error
    then transocks_bufferpump_free pclient
    else check_close pclient

unfoldable pub transocks_bufferpump_start_pump : Ptr → M ℤ
transocks_bufferpump_start_pump pclient = do
  c ← get_client
  call_ (Call.bufferevent_setwatermark c.client_bev ev_read_write 0 transocks_bufsize)
  call_ (Call.bufferevent_setwatermark c.relay_bev ev_read_write 0 transocks_bufsize)
  call_ (
      Call.bufferevent_setcb c.client_bev Callback.client_readcb Callback.client_writecb
        Callback.client_eventcb)
  call_ (
      Call.bufferevent_setcb c.relay_bev Callback.relay_readcb Callback.relay_writecb
        Callback.relay_eventcb)
  err ← call (Call.bufferevent_enable c.client_bev ev_read_write)
  if nonzero err.ret then pure minus_one else do
    err ← call (Call.bufferevent_enable c.relay_bev ev_read_write)
    if nonzero err.ret then pure minus_one else pure (ℤ.pos 0)

-- The callbacks that libevent runs, with the events and `errno`.
pub data BufferEvent : Type 0 where
  readable writable : Side → BufferEvent
  happened : Side → ℕ → ℕ → BufferEvent

unfoldable pub bufferpump_cb : Ptr → BufferEvent → M (Unit {0})
bufferpump_cb pclient (readable a) = readcb a
bufferpump_cb pclient (writable a) = writecb pclient a
bufferpump_cb pclient (happened a bevs errno) = eventcb pclient a bevs errno

-- The event loop hands the client one event after another, until it is freed.
unfoldable pub buffer_run : Ptr → List BufferEvent → M (Unit {0})
buffer_run pclient [] = skip
buffer_run pclient (e ∷ es) = do
  bufferpump_cb pclient e
  live ← has_client
  if live then buffer_run pclient es else skip
