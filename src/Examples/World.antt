-- ===== src/Examples/World.antt =====
-- A client with its pump, as context.h and splicepump.h lay them out, and answers for its calls.
use transocks_wong.Prelude.{refl, Option, ℕ, ℤ, pos, false, none, some, [], ◌∷◌, ◌≢◌, arith}
use transocks_wong.Util.Texts.{codes}
use transocks_wong.Util.Ports.{NtopLaws}
use transocks_wong.Machine.{
  Bytes, Reply, Os, Client, ClientState, SplicePipe, SplicePump, Sockaddr, State, Ptr,
}

abbrev pub reply : ℤ → Ptr → Reply
reply r p = record { ret = r; ptr = p; size = 0; errno = 11; out = [] }

-- Every call succeeds with 0, and with a block at 7.
abbrev pub calm : Os
calm tr c = reply (pos 0) 7

-- No block, and no event, is to be had.
abbrev pub poor : Os
poor tr c = reply (pos 0) 0

abbrev pub destination : Sockaddr
destination = record {
  ss_family = 2;
  port = 0 ∷ 80 ∷ [];
  sin_addr = 93 ∷ 184 ∷ 216 ∷ 34 ∷ [];
  sin6_addr = [];
}

-- Every address has this text.
abbrev pub dotted : Bytes
dotted = codes "93.184.216.34"

abbrev pub ntop : ℕ → Bytes → Option Bytes
ntop af addr = some dotted

pub ntop-laws : NtopLaws ntop
ntop-laws = record {
  ipv4 = λ _. (dotted, refl, omega arith);
  ipv6 = λ _. (dotted, refl, omega arith);
}

-- Every block has this address.
abbrev pub homes : Ptr → Sockaddr
homes p = destination

abbrev pub guest : Client
guest = record {
  global_env = 3;
  client_addr = 20;
  dest_addr = 21;
  client_fd = pos 5;
  relay_fd = pos 6;
  client_addr_len = 16;
  dest_addr_len = 16;
  client_bev = 30;
  relay_bev = 31;
  timeout_ev = 40;
  user_arg = 0;
  client_state = ClientState.relay_connected;
  client_shutdown_read = false;
  client_shutdown_write = false;
  relay_shutdown_read = false;
  relay_shutdown_write = false;
}

abbrev pub pumped : Client
pumped = record guest { user_arg = 50; client_state = ClientState.pumping_data }

abbrev pub pipe_at : Ptr → ℕ → ℕ → SplicePipe
pipe_at b rd wr = record {
  block = b;
  pipe_readfd = pos rd;
  pipe_writefd = pos wr;
  data_in_pipe = 0;
  capacity = 65536;
}

abbrev pub both_ways : SplicePump
both_ways = record {
  client_read_ev = 60;
  client_write_ev = 61;
  relay_read_ev = 62;
  relay_write_ev = 63;
  inbound_pipe = pipe_at 70 10 11;
  outbound_pipe = pipe_at 71 12 13;
}

abbrev pub still : State
still = record { env = none; client = none; dest = destination; pump = none; trace = [] }

abbrev pub met : State
met = record still { client = some guest }

-- The blocks of the client and of its pump are at these addresses.
pub nine : ◌≢◌ {A = ℕ} 9 0
nine e = absurd (omega arith)

pub fifty : ◌≢◌ {A = ℕ} 50 0
fifty e = absurd (omega arith)

pub forty : ◌≢◌ {A = ℕ} 40 0
forty e = absurd (omega arith)
