-- ===== src/Macros.antt =====
-- util.h: the macros that release what a variable names, and the tests on bits and errors.
use transocks_wong.Prelude.{
  ℕ, ℤ, Bool, ◌||◌, ◌==◌, if◌then◌else◌, is_neg, int_eq, minus_one, bit_and,
}
use transocks_wong.Machine.{Ptr, Call, How, M, Fault, fail, pure, call_, ◌>>◌}

-- `TRANSOCKS_FREE(free_fn, ptr)`: the result is what the variable holds afterwards.
unfoldable pub transocks_free : (Ptr → M (Unit {0})) → Ptr → M Ptr
transocks_free free_fn p = if p == 0 then pure p else free_fn p >> pure 0

-- `TRANSOCKS_CLOSE(fd)`: the result is what the variable holds afterwards.
unfoldable pub transocks_close : ℤ → M ℤ
transocks_close fd = if is_neg fd then pure fd else call_ (Call.close fd) >> pure minus_one

abbrev pub transocks_shutdown : ℤ → How → M (Unit {0})
transocks_shutdown fd how = call_ (Call.shutdown fd how)

-- `evtimer_del`, which is `event_del`: it reads the event, so that NULL is a fault.
abbrev pub evtimer_del : Ptr → M (Unit {0})
evtimer_del ev = if ev == 0 then fail Fault.null_deref else call_ (Call.event_del ev)

abbrev pub transocks_is_invalid_fd : ℤ → Bool
transocks_is_invalid_fd fd = int_eq fd minus_one

abbrev pub transocks_chkbit : ℕ → ℕ → Bool
transocks_chkbit val flag = bit_and val flag == flag

abbrev pub transocks_bufsize : ℕ
transocks_bufsize = 4096

-- Linux's numbers, and libevent's.
abbrev pub eagain : ℕ
eagain = 11

abbrev pub ewouldblock : ℕ
ewouldblock = 11

abbrev pub eintr : ℕ
eintr = 4

abbrev pub econnreset : ℕ
econnreset = 104

abbrev pub ev_read : ℕ
ev_read = 2

abbrev pub ev_write : ℕ
ev_write = 4

abbrev pub ev_read_write : ℕ
ev_read_write = 6

abbrev pub ev_read_persist : ℕ
ev_read_persist = 18

-- `BEV_OPT_CLOSE_ON_FREE`: `bufferevent_free` closes the descriptor.
abbrev pub bev_opt_close_on_free : ℕ
bev_opt_close_on_free = 1

abbrev pub bev_event_reading : ℕ
bev_event_reading = 0x01

abbrev pub bev_event_writing : ℕ
bev_event_writing = 0x02

abbrev pub bev_event_eof : ℕ
bev_event_eof = 0x10

abbrev pub bev_event_error : ℕ
bev_event_error = 0x20

abbrev pub bev_event_connected : ℕ
bev_event_connected = 0x80

abbrev pub af_inet : ℕ
af_inet = 2

abbrev pub af_inet6 : ℕ
af_inet6 = 10

abbrev pub transocks_is_retriable : ℕ → Bool
transocks_is_retriable err = err == eagain || err == ewouldblock || err == eintr
