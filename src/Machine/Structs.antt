-- ===== src/Machine/Structs.antt =====
-- context.h and splicepump.h: the structures, one field for each of the source's.
use transocks_wong.Prelude.{ℕ, ℤ, List, Bool, Option}
use transocks_wong.Machine.Calls.{Ptr, Bytes, Call}

pub data ClientState : Type 0 where
  new relay_connected socks5_finish_handshake pumping_data destroying destroyed : ClientState

-- The port, and the address as each family lays it out, are bytes in network order.
pub record Sockaddr : Type 0 where
  pub ss_family : ℕ
  pub port : Bytes
  pub sin_addr : Bytes
  pub sin6_addr : Bytes

pub record Client : Type 0 where
  pub global_env : Ptr
  pub client_addr : Ptr
  pub dest_addr : Ptr
  pub client_fd : ℤ
  pub relay_fd : ℤ
  pub client_addr_len : ℕ
  pub dest_addr_len : ℕ
  pub client_bev : Ptr
  pub relay_bev : Ptr
  pub timeout_ev : Ptr
  pub user_arg : Ptr
  pub client_state : ClientState
  pub client_shutdown_read : Bool
  pub client_shutdown_write : Bool
  pub relay_shutdown_read : Bool
  pub relay_shutdown_write : Bool

-- `block` is the address that the pump holds of the pipe.
pub record SplicePipe : Type 0 where
  pub block : Ptr
  pub pipe_readfd : ℤ
  pub pipe_writefd : ℤ
  pub data_in_pipe : ℕ
  pub capacity : ℕ

pub record SplicePump : Type 0 where
  pub client_read_ev : Ptr
  pub client_write_ev : Ptr
  pub relay_read_ev : Ptr
  pub relay_write_ev : Ptr
  pub inbound_pipe : SplicePipe
  pub outbound_pipe : SplicePipe

pub record Listener : Type 0 where
  pub block : Ptr
  pub listener_fd : ℤ
  pub listener_ev : Ptr

-- The families are the contents of the two address blocks; `listener` is `none` for NULL.
pub record GlobalEnv : Type 0 where
  pub pump_method_name : Ptr
  pub bind_addr : Ptr
  pub relay_addr : Ptr
  pub bind_family : ℕ
  pub relay_family : ℕ
  pub bind_addr_len : ℕ
  pub relay_addr_len : ℕ
  pub event_base_loop : Ptr
  pub listener : Option Listener
  pub sigterm_ev : Ptr
  pub sigint_ev : Ptr
  pub sighup_ev : Ptr
  pub sigusr1_ev : Ptr

-- `none` is a block that is not allocated, or no longer. `dest` is the content of `dest_addr`.
pub record State : Type 0 where
  pub env : Option GlobalEnv
  pub client : Option Client
  pub dest : Sockaddr
  pub pump : Option SplicePump
  pub trace : List Call
