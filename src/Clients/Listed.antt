-- ===== src/Clients/Listed.antt =====
-- context.c: the clients of the list.
use transocks_wong.Prelude.{
  Bool, true, false, not, ◌&&◌, ◌==◌, if◌then◌else◌, none, some, List, [], ◌∷◌,
}
use transocks_wong.Machine.{Ptr, Sockaddr}
use transocks_wong.Context.{is_gone}
use transocks_wong.Util.Ports.{is_internet}
use transocks_wong.Clients.{Entry}

-- An entry of the list: its client is there and not gone, and its pump is there if the client names one.
abbrev pub is_listed : Entry → Bool
is_listed e = elim e.client [
  | none ↦ false
  | some c ↦
      not (e.address == 0)
      && not (is_gone c.client_state)
      && (if c.user_arg == 0 then true else elim e.pump [ none ↦ false | some _ ↦ true ])
]

abbrev pub all_listed : List Entry → Bool
all_listed [] = true
all_listed (e ∷ es) = is_listed e && all_listed es

abbrev pub has_pump : Entry → Bool
has_pump e = elim e.client [ none ↦ false | some c ↦ not (c.user_arg == 0) ]

abbrev pub is_addressed : (Ptr → Sockaddr) → Entry → Bool
is_addressed memory e = elim e.client [
  | none ↦ false
  | some c ↦
      is_internet (memory c.client_addr) c.client_addr_len
      && is_internet (memory c.dest_addr) c.dest_addr_len
]

-- Both addresses of each client are IPv4 or IPv6.
abbrev pub all_addressed : (Ptr → Sockaddr) → List Entry → Bool
all_addressed memory [] = true
all_addressed memory (e ∷ es) = is_addressed memory e && all_addressed memory es
