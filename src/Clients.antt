-- ===== src/Clients.antt =====
-- context.c: what is done to all clients, and the signals of signal.c that ask for it. list.h is a copy of the Linux kernel's list, so the list of
-- clients comes as the sequence that `list_for_each_entry_safe` visits.
pub mod Listed
pub mod Lines
pub mod DropAll
pub mod Releases
use transocks_wong.Prelude.{ℕ, suc, ◌++◌, List, [], ◌∷◌, Option, none, some}
use transocks_wong.Machine.{Ptr, Bytes, Sockaddr, Client, SplicePump, M, ok, pure, ◌>>=◌, ◌>>◌}
use transocks_wong.Util.Texts.{codes, decimal, print}
use transocks_wong.Info.{transocks_pump_dump_info}
use transocks_wong.Pump.{Method, transocks_pump_free}

-- A client of the list, with its block and that of its pump.
pub record Entry : Type 0 where
  pub address : Ptr
  pub client : Option Client
  pub pump : Option SplicePump

-- The entry's blocks come into view, and are taken back.
abbrev pub enter : Entry → M (Unit {0})
enter e os s = ok tt (record s { client = e.client; pump = e.pump })

abbrev pub leave : Ptr → M Entry
leave p os s = ok (record { address = p; client = s.client; pump = s.pump }) s

-- `list_del` takes a client that is freed off the list.
abbrev pub keep : Entry → List Entry → List Entry
keep e es = elim e.client [ none ↦ es | some _ ↦ e ∷ es ]

-- What stands in the address blocks, and `inet_ntop`.
module _ (memory : Ptr → Sockaddr) (inet_ntop : ℕ → Bytes → Option Bytes) where
  -- The result is what stays on the list.
  unfoldable pub transocks_drop_all_clients : Method → List Entry → M (List Entry)
  transocks_drop_all_clients impl [] = pure []
  transocks_drop_all_clients impl (e ∷ es) = do
    enter e
    transocks_pump_dump_info memory inet_ntop impl e.address (codes "close connection")
    transocks_pump_free impl e.address
    e' ← leave e.address
    rest ← transocks_drop_all_clients impl es
    pure (keep e' rest)

  -- The loop, from the number of the first client on. The result is the list after it.
  unfoldable pub dump_from : Method → ℕ → List Entry → M (List Entry)
  dump_from impl i [] = pure []
  dump_from impl i (e ∷ es) = do
    enter e
    transocks_pump_dump_info memory inet_ntop impl e.address (codes "conn #" ++ decimal i)
    e' ← leave e.address
    rest ← dump_from impl (suc i) es
    pure (e' ∷ rest)

  unfoldable pub transocks_dump_all_client_info : Method → List Entry → M (List Entry)
  transocks_dump_all_client_info impl es = do
    print (codes "transocks-wong connection info:\n")
    dump_from impl 0 es

  -- signal.c: SIGHUP prints what is known of all clients.
  abbrev pub dump_client_info_signal_cb : Method → List Entry → M (List Entry)
  dump_client_info_signal_cb impl es = transocks_dump_all_client_info impl es

  -- SIGUSR1 drops all clients.
  abbrev pub drop_all_clients_signal_cb : Method → List Entry → M (List Entry)
  drop_all_clients_signal_cb impl es = transocks_drop_all_clients impl es
