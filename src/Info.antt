-- ===== src/Info.antt =====
-- What the program prints of a client: the dump functions of context.c, splicepump.c, bufferpump.c and
-- pump.c.
use transocks_wong.Prelude.{ℕ, ◌==◌, Bool, if◌then◌else◌, Option, none, some, ◌++◌}
use transocks_wong.Machine.{
  Ptr, Bytes, ClientState, Sockaddr, SplicePipe, Fault, M, pure, fail, skip, ◌>>=◌, ◌>>◌,
  get_client, get_pump,
}
use transocks_wong.Util.Texts.{
  codes, int_text, long_text, print, transocks_inet_addrportstrlen, generate_sockaddr_port_str,
}
use transocks_wong.Pump.{Method, splicepump, bufferpump}

abbrev pub transocks_client_state_str : ClientState → Bytes
transocks_client_state_str ClientState.new = codes "client_NEW"
transocks_client_state_str ClientState.relay_connected = codes "client_relay_connected"
transocks_client_state_str ClientState.socks5_finish_handshake =
    codes "client_socks5_finish_handshake"
transocks_client_state_str ClientState.pumping_data = codes "client_pumping_data"
transocks_client_state_str ClientState.destroying = codes "client_DESTROYING"
transocks_client_state_str ClientState.destroyed = codes "client_DESTROYED"

-- `%d` of a `bool`.
abbrev pub bool_text : Bool → Bytes
bool_text b = if b then codes "1" else codes "0"

-- `%s` of a buffer, which is a fault if nothing was written to it.
abbrev pub written : Option Bytes → M Bytes
written none = fail Fault.uninitialised
written (some text) = pure text

abbrev pub pipe_line : Bytes → SplicePipe → Bytes
pipe_line tag q =
    codes "\n\t  "
    ++ tag
    ++ codes ": R "
    ++ int_text q.pipe_readfd
    ++ codes " W "
    ++ int_text q.pipe_writefd
    ++ codes " DATALEN "
    ++ long_text q.data_in_pipe
    ++ codes " CAPACITY "
    ++ long_text q.capacity

-- What stands in the address blocks, and `inet_ntop`.
module _ (memory : Ptr → Sockaddr) (inet_ntop : ℕ → Bytes → Option Bytes) where
  unfoldable pub transocks_client_dump_info : M (Unit {0})
  transocks_client_dump_info = do
    c ← get_client
    let srcaddrstr =
        generate_sockaddr_port_str inet_ntop transocks_inet_addrportstrlen (memory c.client_addr)
          c.client_addr_len
    let destaddrstr =
        generate_sockaddr_port_str inet_ntop transocks_inet_addrportstrlen (memory c.dest_addr)
          c.dest_addr_len
    src ← written srcaddrstr
    dest ← written destaddrstr
    print (codes "\n\t" ++ src ++ codes " -> " ++ dest)
    print
        (codes "\n\tfd: client " ++ int_text c.client_fd ++ codes " relay " ++ int_text c.relay_fd)
    print (
        codes "\n\tclient shut R "
        ++ bool_text c.client_shutdown_read
        ++ codes " W "
        ++ bool_text c.client_shutdown_write)
    print (
        codes "\n\trelay shut R "
        ++ bool_text c.relay_shutdown_read
        ++ codes " W "
        ++ bool_text c.relay_shutdown_write)
    print (codes "\n\tclient state: " ++ transocks_client_state_str c.client_state)
    print (codes "\n----------\n")

  unfoldable pub transocks_splicepump_dump_info : Ptr → M (Unit {0})
  transocks_splicepump_dump_info pclient = if pclient == 0 then skip else do
    c ← get_client
    if c.user_arg == 0 then skip else do
      p ← get_pump
      print (codes "\n\tpipe:")
      print (pipe_line (codes "IN") p.inbound_pipe)
      print (pipe_line (codes "OUT") p.outbound_pipe)
      transocks_client_dump_info

  abbrev pub transocks_bufferpump_dump_info : Ptr → M (Unit {0})
  transocks_bufferpump_dump_info pclient = transocks_client_dump_info

  unfoldable pub dump_info_fn : Method → Ptr → M (Unit {0})
  dump_info_fn splicepump = transocks_splicepump_dump_info
  dump_info_fn bufferpump = transocks_bufferpump_dump_info

  -- The tag comes formatted.
  unfoldable pub transocks_pump_dump_info : Method → Ptr → Bytes → M (Unit {0})
  transocks_pump_dump_info impl pclient tag = do
    print (codes "\n----------\n")
    print tag
    print (codes ":\n")
    dump_info_fn impl pclient
