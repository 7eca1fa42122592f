-- ===== src/Machine/Calls.antt =====
-- The calls that the program makes of libc, the kernel, libevent and list.h, and their replies.
use transocks_wong.Prelude.{ℕ, ℤ, List}

-- An address; 0 is NULL.
abbrev pub Ptr : Type 0
Ptr = ℕ

abbrev pub Bytes : Type 0
Bytes = List ℕ

-- What a block is allocated for; it stands for the `sizeof` in the call.
pub data Block : Type 0 where
  global_env sockaddr_storage client splicepump splicepipe listener : Block
  socks_request_ipv4 socks_request_ipv6 : Block

pub data How : Type 0 where
  shut_rd shut_wr shut_rdwr : How

-- The functions that are handed to libevent.
pub data Callback : Type 0 where
  null : Callback
  listener_cb terminate_signal_cb dump_client_info_signal_cb drop_all_clients_signal_cb : Callback
  socks5_timeout_cb relay_onconnect_eventcb socks_handshake_stage_errcb : Callback
  socks_on_server_selected_method_readcb socks_on_server_connect_reply_readcb : Callback
  splicepump_client_readcb splicepump_client_writecb : Callback
  splicepump_relay_readcb splicepump_relay_writecb : Callback
  client_readcb client_writecb client_eventcb relay_readcb relay_writecb relay_eventcb : Callback

pub data SockOpt : Type 0 where
  so_keepalive tcp_keepidle tcp_keepintvl tcp_keepcnt tcp_nodelay : SockOpt
  so_reuseaddr so_reuseport ipv6_v6only : SockOpt

pub data Signal : Type 0 where
  sigterm sigint sighup sigusr1 : Signal

-- Events are named by their address, buffers by the bufferevent that they belong to.
pub data Call : Type 0 where
  malloc calloc : Block → Call
  free : Ptr → Call
  close : ℤ → Call
  shutdown : ℤ → How → Call
  socket : ℕ → Call
  accept bind listen : ℤ → Call
  setsockopt : ℤ → SockOpt → ℕ → Call
  getsockopt_ip6t_original_dst getsockopt_original_dst : ℤ → Call
  fcntl_getfl fcntl_getpipe_sz : ℤ → Call
  fcntl_setfl : ℤ → ℕ → Call
  pipe : Call
  splice : ℤ → ℤ → ℕ → Call
  event_base_new : Call
  event_base_free event_base_loopbreak : Ptr → Call
  event_new : ℤ → ℕ → Callback → Call
  evsignal_new : Signal → Callback → Call
  event_add event_del event_free : Ptr → Call
  event_pending event_active : Ptr → ℕ → Call
  evtimer_new : Callback → Call
  evtimer_assign : Ptr → Callback → Call
  evtimer_add : Ptr → ℕ → Call
  bufferevent_socket_new : ℤ → ℕ → Call
  bufferevent_free : Ptr → Call
  bufferevent_enable bufferevent_disable : Ptr → ℕ → Call
  bufferevent_setfd : Ptr → ℤ → Call
  bufferevent_setwatermark : Ptr → ℕ → ℕ → ℕ → Call
  bufferevent_setcb : Ptr → Callback → Callback → Callback → Call
  bufferevent_write : Ptr → Bytes → Call
  bufferevent_socket_connect : Ptr → ℕ → Call
  input_length output_length : Ptr → Call
  input_pullup input_drain : Ptr → ℕ → Call
  remove_buffer : Ptr → Ptr → ℕ → Call
  list_add_tail list_del : Ptr → Call
  strdup : Call
  fprintf : Bytes → Call

-- The result of a call: an `int`, a pointer or a size, `errno`, and what it writes for its caller.
pub record Reply : Type 0 where
  pub ret : ℤ
  pub ptr : Ptr
  pub size : ℕ
  pub errno : ℕ
  pub out : List ℕ

-- The outside world, as a function of the calls so far (the latest first) and of the call.
abbrev pub Os : Type 0
Os = List Call → Call → Reply
